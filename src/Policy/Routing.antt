-- ===== src/Policy/Routing.antt =====
-- core/internal/policy/policy.go: which policy `Evaluate` applies.
use agentbell.Common.{
  Bool, true, false, List, [], ◌∷◌, ◌++◌, Str, All, ok, bind-ok, ok-injective, ◌≡◌, refl, sym, ap,
  ◌∙◌, ◌⊎◌, inl, inr, Bool-cases,
}
use agentbell.Event
use agentbell.Event.{Notification}
use agentbell.Settings.{Policy, Settings}
use agentbell.Settings.Validate
use agentbell.Settings.Validate.{or_empty, check_distinct, validate_policies, validate_policy}
use agentbell.Policy.Evaluate.{
  Defaults, Decision, Error, matches, validate_defaults, default_decision, apply_policy,
  apply_first, policies_of, map_error, evaluate,
}

-- No policy of a list matches.
abbrev pub NoneMatches : Notification → List Policy → Type 0
NoneMatches n = All (λ p. matches p.match n ≡ false)

-- Policies after the first match, and policies before it, play no part; if none matches, the
-- decision is unchanged.
apply_first-match :
    (before : List Policy) (p : Policy) (behind : List Policy) (n : Notification) (d : Decision)
    → NoneMatches n before
    → matches p.match n ≡ true
    → apply_first (before ++ (p ∷ behind)) n d ≡ apply_policy p d
unfolding apply_first
apply_first-match [] p behind n d h m = rw m
apply_first-match (q ∷ before) p behind n d h m =
    rw h.0 (apply_first-match before p behind n d h.1 m)

apply_first-none :
    (ps : List Policy) (n : Notification) (d : Decision) → NoneMatches n ps → apply_first ps n d ≡ d
unfolding apply_first
apply_first-none [] n d h = refl
apply_first-none (q ∷ ps) n d h = rw h.0 (apply_first-none ps n d h.1)

pub apply_first-cases :
    (ps : List Policy) (n : Notification) (d : Decision)
    → (NoneMatches n ps × (apply_first ps n d ≡ d))
      ⊎ ((before : List Policy) × (p : Policy) × (behind : List Policy) × (ps
            ≡ before ++ (p ∷ behind))
          × NoneMatches n before
          × (matches p.match n ≡ true)
          × (apply_first ps n d ≡ apply_policy p d))
unfolding apply_first
apply_first-cases [] n d = inl (tt, refl)
apply_first-cases (p ∷ ps) n d = elim (Bool-cases (matches p.match n)) [
  | inl hit ↦ inr ([], p, ps, refl, tt, hit, rw hit)
  | inr miss ↦ elim (apply_first-cases ps n d) [
    | inl (h, e) ↦ inl ((miss, h), rw miss e)
    | inr (before, q, behind, e, h, m, r) ↦
        inr (p ∷ before, q, behind, ap (◌∷◌ p) e, (miss, h), m, rw miss r)
  ]
]

-- A decision that `Evaluate` returns is the default one if no policy matches, and otherwise that of
-- the first policy that matches, whatever stands behind it.
pub evaluate-first_match :
    (zone_exists : Str → Bool) (s : Settings) (n : Notification) (d : Defaults) (r : Decision)
    → evaluate zone_exists s n d ≡ ok r
    → (NoneMatches n (policies_of s) × (r ≡ default_decision s n d))
      ⊎ ((before : List Policy) × (p : Policy) × (behind : List Policy) × (policies_of s
            ≡ before ++ (p ∷ behind))
          × NoneMatches n before
          × (matches p.match n ≡ true)
          × (r ≡ apply_policy p (default_decision s n d)))
unfolding evaluate
evaluate-first_match zone_exists s n d r h =
    let (a, _, h₁) = bind-ok (map_error Error.settings (Validate.validate zone_exists s)) _ h in
    let (b, _, h₂) = bind-ok (map_error Error.notification (Event.validate n)) _ h₁ in
    let (c, _, h₃) = bind-ok (validate_defaults s d) _ h₂ in
    let e = sym (ok-injective h₃) in
    elim (apply_first-cases (policies_of s) n (default_decision s n d)) [
      | inl (none_matches, q) ↦ inl (none_matches, e ∙ q)
      | inr (before, p, behind, at, nb, m, q) ↦ inr (before, p, behind, at, nb, m, e ∙ q)
    ]
