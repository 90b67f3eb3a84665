-- ===== src/Actions/Triple.antt =====
-- What an action on a store establishes, whether it ends with a value or an error, under any schedule
-- of failing system calls: one rule for each way to build an action.
use agentbell.Common.{Bool, true, false, Result, ok, err, ◌≡◌, refl, if◌then◌else◌}
use agentbell.Actions.{
  World, Action, pure, raise, lift, continue_with, ◌>>=◌, ignore, try, call_or, inspect, modify,
  zoom, translate,
}

-- `Q` holds of the value and the directories that a success leaves, `E` of an error and those that
-- it leaves.
abbrev pub Post : {D X A : Type 0} → (A → D → Type 0) → (X → D → Type 0) → Result X A → D → Type 0
Post Q E (ok a) k = Q a k
Post Q E (err e) k = E e k

pub record Triple {D X A : Type 0} (P : D → Type 0) (m : Action D X A) (Q : A → D → Type 0)
    (E : X → D → Type 0) : Type 0 where
  pub at : (w : World D) → P w.disk → Post Q E (m w).0 (m w).1.disk

module _ {D X : Type 0} {A : Type 0} {P : D → Type 0} {Q : A → D → Type 0}
    {E : X → D → Type 0} where
  pub Triple-pure : (a : A) → ((k : D) → P k → Q a k) → Triple P (pure a) Q E
  unfolding pure
  Triple-pure a h = record { at = λ w p. h w.disk p }

  pub Triple-raise : (e : X) → ((k : D) → P k → E e k) → Triple P (raise e) Q E
  unfolding raise
  Triple-raise e h = record { at = λ w p. h w.disk p }

  pub Triple-lift : (r : Result X A) → ((k : D) → P k → Post Q E r k) → Triple P (lift r) Q E
  Triple-lift r h = record { at = λ w p. h w.disk p }

  pub Triple-if :
      (b : Bool) (m n : Action D X A)
      → (b ≡ true → Triple P m Q E)
      → (b ≡ false → Triple P n Q E)
      → Triple P (if b then m else n) Q E
  Triple-if true m n km kn = km refl
  Triple-if false m n km kn = kn refl

  pub Triple-weaken :
      {P' : D → Type 0} {Q' : A → D → Type 0} {E' : X → D → Type 0} (m : Action D X A)
      → Triple P' m Q' E'
      → ((k : D) → P k → P' k)
      → ((a : A) (k : D) → Q' a k → Q a k)
      → ((e : X) (k : D) → E' e k → E e k)
      → Triple P m Q E
  Triple-weaken {Q' = Q'} {E' = E'} m t hp hq he = record {
    at = λ w p. go (m w).0 (m w).1.disk (t.at w (hp w.disk p));
  }
    where
      go : (r : Result X A) (k : D) → Post Q' E' r k → Post Q E r k
      go (ok a) k q = hq a k q
      go (err e) k q = he e k q

module _ {D X : Type 0} {A B : Type 0} {Q : A → D → Type 0} {R : B → D → Type 0}
    {E : X → D → Type 0} where
  Triple-continue :
      (r : Result X A) (f : A → Action D X B) (w : World D)
      → ((a : A) → Triple (Q a) (f a) R E)
      → Post Q E r w.disk
      → Post R E (continue_with r f w).0 (continue_with r f w).1.disk
  Triple-continue (ok a) f w t q = (t a).at w q
  Triple-continue (err e) f w t q = q

module _ {D X : Type 0} {A B : Type 0} {P : D → Type 0} {Q : A → D → Type 0} {R : B → D → Type 0}
    {E : X → D → Type 0} where
  pub Triple-bind :
      (m : Action D X A) (f : A → Action D X B)
      → Triple P m Q E
      → ((a : A) → Triple (Q a) (f a) R E)
      → Triple P (m >>= f) R E
  unfolding ◌>>=◌
  Triple-bind m f t u = record { at = λ w p. Triple-continue (m w).0 f (m w).1 u (t.at w p) }

module _ {D X : Type 0} {P Q : D → Type 0} {E : X → D → Type 0} where
  pub Triple-ignore :
      (m : Action D X (Unit {0})) → Triple P m (λ _. Q) (λ _. Q) → Triple P (ignore m) (λ _. Q) E
  unfolding ignore
  Triple-ignore m t = record { at = λ w p. go (m w).0 (m w).1.disk (t.at w p) }
    where
      go : (r : Result X (Unit {0})) (k : D) → Post (λ _. Q) (λ _. Q) r k → Q k
      go (ok a) k q = q
      go (err e) k q = q

  pub Triple-modify : (f : D → D) → ((k : D) → P k → Q (f k)) → Triple P (modify f) (λ _. Q) E
  unfolding modify
  Triple-modify f h = record { at = λ w p. h w.disk p }

module _ {D X : Type 0} {P : D → Type 0} {E : X → D → Type 0} where
  pub Triple-call_or : (e : X) → ((k : D) → P k → E e k) → Triple P (call_or e) (λ _. P) E
  unfolding call_or
  Triple-call_or e h = record { at = λ w p. go w p (w.fails w.calls) }
    where
      go :
          (w : World D)
          → P w.disk
          → (b : Bool) → Post (λ _. P) E (if b then err e else ok tt) w.disk
      go w p true = h w.disk p
      go w p false = p

module _ {D X : Type 0} {A : Type 0} {P : D → Type 0} {E : X → D → Type 0} where
  pub Triple-inspect : (f : D → A) → Triple P (inspect f) (λ a k. P k × (a ≡ f k)) E
  unfolding inspect
  Triple-inspect f = record { at = λ w p. (p, refl) }

  pub Triple-try :
      {Q : A → D → Type 0} {E' : X → D → Type 0} (m : Action D X A)
      → Triple P m Q E'
      → Triple P (try m) (λ r. Post Q E' r) E
  unfolding try
  Triple-try m t = record { at = λ w p. t.at w p }

module _ {D X : Type 0} {A : Type 0} {P : D → Type 0} {Q : A → D → Type 0}
    {E : X → D → Type 0} where
  -- A system call before an action.
  pub Triple-call_then :
      (e : X) (m : Action D X A)
      → ((k : D) → P k → E e k)
      → Triple P m Q E
      → Triple P (call_or e >>= λ _. m) Q E
  Triple-call_then e m h t = Triple-bind (call_or e) _ (Triple-call_or e h) (λ _. t)

-- What an action on a part of the store establishes of the whole.
pub Triple-zoom :
    {D D' X X' A : Type 0} {P : D → Type 0} {Q : A → D → Type 0} {E : X → D → Type 0}
    {P' : D' → Type 0} {Q' : A → D' → Type 0} {E' : X' → D' → Type 0} (get : D → D')
    (put : D' → D → D) (f : X' → X) (m : Action D' X' A)
    → Triple P' m Q' E'
    → ((k : D) → P k → P' (get k))
    → ((a : A) (j : D') (k : D) → P k → Q' a j → Q a (put j k))
    → ((e : X') (j : D') (k : D) → P k → E' e j → E (f e) (put j k))
    → Triple P (zoom get put f m) Q E
unfolding zoom
Triple-zoom {D = D} {D' = D'} {X' = X'} {A = A} {P = P} {Q = Q} {E = E} {Q' = Q'} {E' = E'} get put
      f m t hp hq he =
    record { at = λ w p. go _ _ w.disk p (t.at _ (hp w.disk p)) }
  where
    go :
        (r : Result X' A) (j : D') (k : D)
        → P k
        → Post Q' E' r j
        → Post Q E (translate f r) (put j k)
    go (ok a) j k p q = hq a j k p q
    go (err e) j k p q = he e j k p q

-- An action about which nothing is asked.
pub Triple-any :
    {D X A : Type 0} {P : D → Type 0} (m : Action D X A)
    → Triple P m (λ _ _. Unit {0}) (λ _ _. Unit {0})
Triple-any {D} {X} {A} m = record { at = λ w p. either (m w).0 (m w).1.disk }
  where
    either : (r : Result X A) (k : D) → Post (λ _ _. Unit {0}) (λ _ _. Unit {0}) r k
    either (ok a) k = tt
    either (err e) k = tt

-- An action that keeps a property of the store, whatever becomes of it.
abbrev pub Keeps : {D X A : Type 0} → (D → Type 0) → Action D X A → Type 0
Keeps P m = Triple P m (λ _. P) (λ _. P)

-- A fact that a precondition gives, whatever the store.
pub Triple-given :
    {D X A F : Type 0} {P : D → Type 0} {Q : A → D → Type 0} {E : X → D → Type 0} (m : Action D X A)
    → ((k : D) → P k → F)
    → (F → Triple (λ _. Unit {0}) m Q E)
    → Triple P m Q E
Triple-given m h t = record { at = λ w p. (t (h w.disk p)).at w tt }
