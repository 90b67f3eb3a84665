-- ===== src/Actions.antt =====
-- Actions on a store that fail: how the file operations of the program are read. Each system call
-- counts up, and fails where the schedule `fails` says so, which leaves the store as it was; a
-- process that dies is a schedule under which every later call fails.
pub mod Triple
use agentbell.Common.{◌≡◌, ap, ℕ, suc, Bool, Result, ok, err, if◌then◌else◌}

pub record World (D : Type 0) : Type 0 where
  pub disk : D
  pub calls : ℕ
  pub fails : ℕ → Bool

-- An action ends with a value or an error, and what it did before an error stays done.
abbrev pub Action : Type 0 → Type 0 → Type 0 → Type 0
Action D E A = World D → Result E A × World D

module _ {D E : Type 0} where
  unfoldable pub pure : {A : Type 0} → A → Action D E A
  pure a w = (ok a, w)

  unfoldable pub raise : {A : Type 0} → E → Action D E A
  raise e w = (err e, w)

  abbrev pub lift : {A : Type 0} → Result E A → Action D E A
  lift r w = (r, w)

  abbrev pub continue_with :
      {A B : Type 0} → Result E A → (A → Action D E B) → World D → Result E B × World D
  continue_with (ok a) f w = f a w
  continue_with (err e) f w = (err e, w)

  infixl 5 ◌>>=◌ ◌>>◌
  unfoldable pub ◌>>=◌ : {A B : Type 0} → Action D E A → (A → Action D E B) → Action D E B
  unfolding pure raise
  ◌>>=◌ m f w = let (r, w') = m w in continue_with r f w'

  abbrev pub ◌>>◌ : {B : Type 0} → Action D E (Unit {0}) → Action D E B → Action D E B
  m >> k = m >>= λ _. k

  -- `_ = f()`: the error is dropped.
  unfoldable pub ignore : Action D E (Unit {0}) → Action D E (Unit {0})
  ignore m w = (ok tt, (m w).1)

  -- The result of an action as a value.
  unfoldable pub try : {A : Type 0} → Action D E A → Action D E (Result E A)
  try m w = let (r, w') = m w in (ok r, w')

  -- A system call that does nothing to the store.
  unfoldable pub call_or : E → Action D E (Unit {0})
  call_or e w = (if w.fails w.calls then err e else ok tt, record w { calls = suc w.calls })

  unfoldable pub inspect : {A : Type 0} → (D → A) → Action D E A
  inspect f w = (ok (f w.disk), w)

  unfoldable pub modify : (D → D) → Action D E (Unit {0})
  modify f w = (ok tt, record w { disk = f w.disk })

-- An action on a part of the store, with the errors of the whole.
abbrev part : {D D' : Type 0} → (D → D') → World D → World D'
part get w = record { disk = get w.disk; calls = w.calls; fails = w.fails }

abbrev restore : {D D' : Type 0} → (D' → D → D) → World D → World D' → World D
restore put w v = record { disk = put v.disk w.disk; calls = v.calls; fails = w.fails }

abbrev pub translate : {E E' A : Type 0} → (E' → E) → Result E' A → Result E A
translate f (ok a) = ok a
translate f (err e) = err (f e)

unfoldable pub zoom :
    {D D' E E' A : Type 0} → (D → D') → (D' → D → D) → (E' → E) → Action D' E' A → Action D E A
zoom get put f m w = (translate f (m (part get w)).0, restore put w (m (part get w)).1)

-- A step that succeeds, and what follows it.
pub bind-step :
    {D E A B : Type 0} (m : Action D E A) (f : A → Action D E B) (w : World D) {a : A}
    {w' : World D}
    → m w ≡ (ok a, w')
    → (m >>= f) w ≡ f a w'
unfolding ◌>>=◌
bind-step m f w h = ap (λ r. continue_with r.0 f r.1) h
