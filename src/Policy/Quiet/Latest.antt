-- ===== src/Policy/Quiet/Latest.antt =====
-- core/internal/policy/quiet.go: the end that the loop over the intervals finds.
use agentbell.Common.{
  ℕ, ◌≤◌, ◌<◌, List, [], ◌∷◌, ◌++◌, Option, none, some, All, bind-ok, ok, ok-injective, ◌≡◌, ◌⊎◌,
  inl, inr, refl, sym, ap, ◌∙◌, subst, arith,
}
use agentbell.Settings.{QuietInterval}
use agentbell.Policy.Quiet.{Location, matching_window, later, latest_end}

-- A window of the interval holds the instant, and ends at `end`.
pub record Covers (l : Location) (now : ℕ) (i : QuietInterval) (end : ℕ) : Type 0 where
  pub start : ℕ
  pub window : matching_window l now i ≡ ok (some (start, end))
  pub begun : start ≤ now
  pub open_end : now < end

-- What the loop over the intervals finds, from an end found before.
pub record IsLatest (l : Location) (now latest : ℕ) (is : List QuietInterval) (r : ℕ) : Type 0 where
  pub above : latest ≤ r
  pub bound : All (λ i. (end : ℕ) → Covers l now i end → end ≤ r) is
  pub found :
      (r ≡ latest)
      ⊎ ((before : List QuietInterval) × (i : QuietInterval) × (behind : List QuietInterval) × (is
            ≡ before ++ (i ∷ behind))
          × Covers l now i r)

-- One round of the loop.
module _ (l : Location) (now latest r : ℕ) (i : QuietInterval) where
  later-above : (w : Option (ℕ × ℕ)) → latest ≤ later now latest w
  later-above none = omega arith
  later-above (some (s, e)) = ground arith

  later-bound : (s e : ℕ) → s ≤ now → now < e → e ≤ later now latest (some (s, e))
  later-bound s e p q = ground arith

  bound_here :
      (w : Option (ℕ × ℕ))
      → matching_window l now i ≡ ok w
      → later now latest w ≤ r
      → (end : ℕ) → Covers l now i end
      → end ≤ r
  bound_here w at a end c =
      let same : w ≡ some (c.start, end) = ok-injective (sym at ∙ c.window) in
      let b = later-bound c.start end c.begun c.open_end in
      let a' = subst (λ x. later now latest x ≤ r) same a in omega (arith, a', b)

  later-value :
      (s e : ℕ)
      → (later now latest (some (s, e)) ≡ latest)
        ⊎ ((later now latest (some (s, e)) ≡ e) × (s ≤ now) × (now < e))
  later-value s e = ground arith

  later-cases :
      (w : Option (ℕ × ℕ))
      → matching_window l now i ≡ ok w
      → (later now latest w ≡ latest) ⊎ Covers l now i (later now latest w)
  later-cases none at = inl refl
  later-cases (some (s, e)) at = elim (later-value s e) [
    | inl same ↦ inl same
    | inr (same, p, q) ↦ inr (
        subst (Covers l now i) (sym same)
          (record { start = s; window = at; begun = p; open_end = q }))
  ]

  found_here :
      (is : List QuietInterval) (w : Option (ℕ × ℕ))
      → matching_window l now i ≡ ok w
      → IsLatest l now (later now latest w) is r
      → (r ≡ latest)
        ⊎ ((before : List QuietInterval) × (j : QuietInterval) × (behind : List QuietInterval) × (i
                ∷ is
              ≡ before ++ (j ∷ behind))
            × Covers l now j r)
  found_here is w at k = elim k.found [
    | inl e ↦ elim (later-cases w at) [
      | inl e' ↦ inl (e ∙ e')
      | inr c ↦ inr ([], i, is, refl, subst (Covers l now i) (sym e) c)
    ]
    | inr (before, j, behind, e, c) ↦ inr (i ∷ before, j, behind, ap (◌∷◌ i) e, c)
  ]

pub latest_end-IsLatest :
    (l : Location) (now latest : ℕ) (is : List QuietInterval) (r : ℕ)
    → latest_end l now latest is ≡ ok r
    → IsLatest l now latest is r
unfolding latest_end
latest_end-IsLatest l now latest [] r h =
    let e : latest ≡ r = ok-injective h in
    record { above = omega (arith, e); bound = tt; found = inl cc }
latest_end-IsLatest l now latest (i ∷ is) r h =
    let (w, at, rest) = bind-ok (matching_window l now i) _ h in
    let k = latest_end-IsLatest l now (later now latest w) is r rest in
    record {
      above = omega (arith, later-above l now latest r i w, k.above);
      bound = (bound_here l now latest r i w at k.above, k.bound);
      found = found_here l now latest r i is w at k;
    }
