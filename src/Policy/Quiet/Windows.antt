-- ===== src/Policy/Quiet/Windows.antt =====
-- core/internal/policy/quiet.go: what an active decision rests on.
use agentbell.Common.{
  ℕ, ◌≤◌, Bool, true, false, ◌&&◌, List, ◌∷◌, ◌++◌, Option, none, some, Str, codes, str_eq,
  contains, ◌==◌, All, Bool-cases, str_eq→eq, bind-ok, Result, ok, err, ok-injective, ◌≡◌, ◌⊎◌, inl,
  inr, sym, ap, ◌∙◌, arith, ◌>>=◌,
}
use agentbell.Event
use agentbell.Event.{Notification}
use agentbell.Settings.{QuietInterval, QuietHours}
use agentbell.Settings.Validate
use agentbell.Policy.Evaluate.{map_error}
use agentbell.Policy.Quiet.{
  Location, Reason, QuietDecision, Error, latest_end, decide, inactive, to_location, or_true,
  is_known, evaluate_valid, evaluate,
}
use agentbell.Policy.Quiet.Latest.{Covers, latest_end-IsLatest}

not_inactive :
    (r : Reason) (d : QuietDecision)
    → ◌≡◌ {A = Result Error QuietDecision} (ok (inactive r)) (ok d)
    → d.active ≡ true
    → ⊥
not_inactive r d h a =
    let p : false ≡ d.active = ap (λ x. x.active) (ok-injective h) in
    let t : false ≡ true = p ∙ a in cc

-- A decision that is active is for the latest end, which is not 0.
decide-active :
    (q : QuietHours) (latest : ℕ) (d : QuietDecision)
    → decide q latest ≡ ok d
    → d.active ≡ true
    → ((latest == 0) ≡ false)
      × (((q.action ≡ codes "defer") × (d.action ≡ codes "defer") × (d.defer_until ≡ latest))
          ⊎ ((q.action ≡ codes "drop") × (d.action ≡ codes "drop")))
unfolding decide
decide-active q latest d h a = elim (Bool-cases (latest == 0)) [
  | inl z ↦ absurd (not_inactive Reason.not_quiet d (rw z at h) a)
  | inr z ↦ (z, by_action z)
]
  where
    by_action :
        (latest == 0) ≡ false
        → ((q.action ≡ codes "defer") × (d.action ≡ codes "defer") × (d.defer_until ≡ latest))
          ⊎ ((q.action ≡ codes "drop") × (d.action ≡ codes "drop"))
    by_action z = elim (Bool-cases (str_eq q.action (codes "defer"))) [
      | inl f ↦
          let e = ok-injective (rw (z, f) at h) in
          let v = str_eq→eq q.action (codes "defer") f in
          inl (v, sym (ap (λ x. x.action) e) ∙ v, sym (ap (λ x. x.defer_until) e))
      | inr f ↦ elim (Bool-cases (str_eq q.action (codes "drop"))) [
        | inl g ↦
            let e = ok-injective (rw (z, f, g) at h) in
            let v = str_eq→eq q.action (codes "drop") g in inr (v, sym (ap (λ x. x.action) e) ∙ v)
        | inr g ↦ absurd (refused f g)
      ]
    ]
      where
        refused :
            str_eq q.action (codes "defer") ≡ false → str_eq q.action (codes "drop") ≡ false → ⊥
        refused f g = let k : err Error.action ≡ ok d = rw (z, f, g) at h in cc

module _ (load_location : Str → Option Location) where
  -- What an active decision of `evaluateValid` rests on.
  evaluate_valid-active :
      (q : QuietHours) (n : Notification) (bypass : Option Bool) (now : ℕ) (d : QuietDecision)
      → evaluate_valid load_location q n bypass now ≡ ok d
      → d.active ≡ true
      → (l : Location) × (latest : ℕ) × (q.enabled ≡ true)
        × ((or_true bypass && str_eq n.priority (codes "urgent")) ≡ false)
        × (contains q.bypass_events n.event ≡ false)
        × (load_location q.timezone ≡ some l)
        × (latest_end l now 0 q.intervals ≡ ok latest)
        × (decide q latest ≡ ok d)
  unfolding evaluate_valid
  evaluate_valid-active q n bypass now d h a = elim (Bool-cases q.enabled) [
    | inr e ↦ absurd (not_inactive Reason.disabled d (rw e at h) a)
    | inl e ↦ elim (Bool-cases (or_true bypass && str_eq n.priority (codes "urgent"))) [
      | inl u ↦ absurd (not_inactive Reason.urgent_bypass d (rw (e, u) at h) a)
      | inr u ↦ elim (Bool-cases (contains q.bypass_events n.event)) [
        | inl b ↦ absurd (not_inactive Reason.event_bypass d (rw (e, u, b) at h) a)
        | inr b ↦ located e u b (rw (e, u, b) at h)
      ]
    ]
  ]
    where
      known_location : (o : Option Location) (l : Location) → to_location o ≡ ok l → o ≡ some l
      known_location none l h = cc
      known_location (some k) l h = ap some (ok-injective h)

      located :
          q.enabled ≡ true
          → (or_true bypass && str_eq n.priority (codes "urgent")) ≡ false
          → contains q.bypass_events n.event ≡ false
          → (to_location (load_location q.timezone) >>= λ l.
              latest_end l now 0 q.intervals >>= λ latest. decide q latest)
            ≡ ok d
          → (l : Location) × (latest : ℕ) × (q.enabled ≡ true)
            × ((or_true bypass && str_eq n.priority (codes "urgent")) ≡ false)
            × (contains q.bypass_events n.event ≡ false)
            × (load_location q.timezone ≡ some l)
            × (latest_end l now 0 q.intervals ≡ ok latest)
            × (decide q latest ≡ ok d)
      located e u b k =
          let (l, at, k₁) = bind-ok (to_location (load_location q.timezone)) _ k in
          let (latest, found, k₂) = bind-ok (latest_end l now 0 q.intervals) _ k₁ in
          (l, latest, e, u, b, known_location (load_location q.timezone) l at, found, k₂)

  -- Quiet hours that are active are enabled, and neither the priority nor the event of the
  -- notification bypasses them. The instant lies in a window of some interval, and the action is
  -- the one of the settings: to drop, or to defer until the latest end of all the windows that hold
  -- the instant, which is behind it.
  pub evaluate-windows :
      (q : QuietHours) (n : Notification) (bypass : Option Bool) (now : ℕ) (d : QuietDecision)
      → evaluate load_location q n bypass now ≡ ok d
      → d.active ≡ true
      → (l : Location) × (latest : ℕ) × (q.enabled ≡ true)
        × ((or_true bypass && str_eq n.priority (codes "urgent")) ≡ false)
        × (contains q.bypass_events n.event ≡ false)
        × (load_location q.timezone ≡ some l)
        × ((before : List QuietInterval) × (i : QuietInterval) × (behind : List QuietInterval)
            × (q.intervals ≡ before ++ (i ∷ behind))
            × Covers l now i latest)
        × All (λ i. (end : ℕ) → Covers l now i end → end ≤ latest) q.intervals
        × (((q.action ≡ codes "defer") × (d.action ≡ codes "defer") × (d.defer_until ≡ latest))
            ⊎ ((q.action ≡ codes "drop") × (d.action ≡ codes "drop")))
  unfolding evaluate
  evaluate-windows q n bypass now d h a =
      let (a₁, _, h₁) =
        bind-ok
          (map_error Error.quiet
            (Validate.validate_quiet_hours (λ z. is_known (load_location z)) q))
          _ h in
      let (a₂, _, h₂) = bind-ok (map_error Error.notification (Event.validate n)) _ h₁ in
      let (l, latest, e, u, b, at, found, k) = evaluate_valid-active q n bypass now d h₂ a in
      let ends = latest_end-IsLatest l now 0 q.intervals latest found in
      let (positive, action) = decide-active q latest d k a in
      (l, latest, e, u, b, at, covered latest positive ends.found, ends.bound, action)
    where
      covered : {P : Type 0} (r : ℕ) → (r == 0) ≡ false → (r ≡ 0) ⊎ P → P
      covered r z (inl e) = absurd (ground (arith, e, z))
      covered r z (inr p) = p
