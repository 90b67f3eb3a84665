-- ===== src/Event/Suppress.antt =====
-- core/internal/event/event.go: the gate of `ShouldNotify`, and the keys of events with only a session.
use agentbell.Common.{
  ℕ, Bool, true, false, ◌||◌, [], ◌∷◌, Option, some, Str, codes, str_eq, str_eq→eq, contains, All,
  Bool-cases, ok, ok-injective, ◌≡◌, ◌<◌, refl, sym, ap, ◌∙◌, subst, arith, inl, inr,
}
use agentbell.Event.Normalize.{RawEvent, raw_name, may_notify, should_notify}
use agentbell.Event.Names.{
  is_long_s, is_dotted_i, is_kelvin, lower, to_lower, fold, equal_fold, canonical_of,
  canonical_event,
}

-- A text of ASCII.
abbrev pub IsAscii : Str → Type 0
IsAscii = All (λ c. c < 128)

if_false : (b : Bool) (x y : Str) → b ≡ false → elim b [ true ↦ x | false ↦ y ] ≡ y
if_false true x y h = cc
if_false false x y h = refl

fold-ascii_cons :
    (a b c : ℕ) (s : Str) → a < 128 → fold (a ∷ b ∷ c ∷ s) ≡ lower a ∷ fold (b ∷ c ∷ s)
unfolding fold
fold-ascii_cons a b c s h =
    if_false (is_long_s a b) _ _ (ground arith) ∙ if_false (is_kelvin a b c) _ _ (ground arith)

to_lower-ascii_cons :
    (a b c : ℕ) (s : Str) → a < 128 → to_lower (a ∷ b ∷ c ∷ s) ≡ lower a ∷ to_lower (b ∷ c ∷ s)
unfolding to_lower
to_lower-ascii_cons a b c s h =
    if_false (is_dotted_i a b) _ _ (ground arith) ∙ if_false (is_kelvin a b c) _ _ (ground arith)

-- On a text of ASCII, folding and lowering are the same.
fold_ascii : (s : Str) → IsAscii s → fold s ≡ to_lower s
unfolding fold to_lower
fold_ascii [] h = refl
fold_ascii (a ∷ []) h = refl
fold_ascii (a ∷ b ∷ []) h = ground arith
fold_ascii (a ∷ b ∷ c ∷ s) h =
    fold-ascii_cons a b c s h.0
    ∙ ap (◌∷◌ (lower a)) (fold_ascii (b ∷ c ∷ s) h.1)
    ∙ sym (to_lower-ascii_cons a b c s h.0)

computed_permission :
    (adapter kind : Str)
    → (canonical_of adapter (codes "permissionrequest") kind).0 ≡ codes "approval.required"
unfolding canonical_of contains str_eq
computed_permission adapter kind = refl

computed_approval :
    (adapter kind : Str)
    → (canonical_of adapter (codes "approval.required") kind).0 ≡ codes "approval.required"
unfolding canonical_of contains str_eq
computed_approval adapter kind = refl

canonical_approval :
    (adapter name kind : Str)
    → (str_eq name (codes "permissionrequest") || str_eq name (codes "approval.required")) ≡ true
    → (canonical_of adapter name kind).0 ≡ codes "approval.required"
canonical_approval adapter name kind h =
    elim (Bool-cases (str_eq name (codes "permissionrequest"))) [
      | inl e ↦
          at (codes "permissionrequest") (sym (str_eq→eq name _ e))
            (computed_permission adapter kind)
      | inr e ↦
          at (codes "approval.required") (sym (str_eq→eq name _ (rest e)))
            (computed_approval adapter kind)
    ]
  where
    at :
        (t : Str)
        → t ≡ name
        → (canonical_of adapter t kind).0 ≡ codes "approval.required"
        → (canonical_of adapter name kind).0 ≡ codes "approval.required"
    at t e k = subst (λ x. (canonical_of adapter x kind).0 ≡ codes "approval.required") e k

    rest :
        str_eq name (codes "permissionrequest") ≡ false
        → str_eq name (codes "approval.required") ≡ true
    rest e = ground arith

-- A folded name is a lowered one.
equal_fold-lowered :
    (name t : Str) → IsAscii name → equal_fold name t ≡ true → to_lower name ≡ fold t
unfolding equal_fold
equal_fold-lowered name t a h = sym (fold_ascii name a) ∙ str_eq→eq (fold name) (fold t) h

permission_folds : fold (codes "PermissionRequest") ≡ codes "permissionrequest"
unfolding fold
permission_folds = refl

approval_folds : fold (codes "approval.required") ≡ codes "approval.required"
unfolding fold
approval_folds = refl

module _ (decode : Str → Option RawEvent) (parse_time : Str → Option ℕ) (format_time : ℕ → Str)
    (sha256_hex : Str → Str) where
  may_notify-false :
      (p : RawEvent)
      → may_notify p ≡ false
      → (equal_fold (raw_name p) (codes "PermissionRequest")
          || equal_fold (raw_name p) (codes "approval.required"))
        ≡ true
  may_notify-false p h = ground arith

  gate :
      (adapter raw : Str) (p : RawEvent)
      → decode raw ≡ some p
      → should_notify decode parse_time format_time sha256_hex adapter raw ≡ ok false
      → (str_eq adapter (codes "codex") ≡ true) × (may_notify p ≡ false)
  unfolding should_notify
  gate adapter raw p d h = elim (Bool-cases (str_eq adapter (codes "codex"))) [
    | inl c ↦ (c, decided c)
    | inr c ↦ absurd (refused c)
  ]
    where
      decided : str_eq adapter (codes "codex") ≡ true → may_notify p ≡ false
      decided c = ok-injective (rw (c, d) at h)

      refused : str_eq adapter (codes "codex") ≡ false → ⊥
      refused c = ground arith

  -- `ShouldNotify` suppresses a hook whose event name is ASCII only where `Normalize` classes it as
  -- a required approval.
  pub should_notify-approval :
      (adapter raw : Str) (p : RawEvent)
      → decode raw ≡ some p
      → IsAscii (raw_name p)
      → should_notify decode parse_time format_time sha256_hex adapter raw ≡ ok false
      → (adapter ≡ codes "codex")
        × ((canonical_event adapter (raw_name p) p.notification_type).0 ≡ codes "approval.required")
  should_notify-approval adapter raw p d a h =
      let (c, q) = gate adapter raw p d h in
      (
        str_eq→eq adapter (codes "codex") c,
        unfold canonical_event in approved (may_notify-false p q),
      )
    where
      approved :
          (equal_fold (raw_name p) (codes "PermissionRequest")
              || equal_fold (raw_name p) (codes "approval.required"))
            ≡ true
          → (canonical_of adapter (to_lower (raw_name p)) p.notification_type).0
            ≡ codes "approval.required"
      approved o = elim (Bool-cases (equal_fold (raw_name p) (codes "PermissionRequest"))) [
        | inl e ↦
            rw (equal_fold-lowered (raw_name p) (codes "PermissionRequest") a e ∙ permission_folds)
              (computed_permission adapter p.notification_type)
        | inr e ↦
            rw
              (equal_fold-lowered (raw_name p) (codes "approval.required") a (second e o)
                ∙ approval_folds)
              (computed_approval adapter p.notification_type)
      ]
        where
          second :
              equal_fold (raw_name p) (codes "PermissionRequest") ≡ false
              → (equal_fold (raw_name p) (codes "PermissionRequest")
                  || equal_fold (raw_name p) (codes "approval.required"))
                ≡ true
              → equal_fold (raw_name p) (codes "approval.required") ≡ true
          second e o = ground arith
