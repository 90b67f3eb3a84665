-- ===== src/Policy/Template/Render.antt =====
-- core/internal/policy/template.go: a template that is written as texts and fields is rendered as its
-- texts and the values of its fields.
use agentbell.Common.{
  ℕ, zero, suc, ◌*◌, ◌≤◌, ◌<◌, Bool, true, false, List, [], ◌∷◌, ◌++◌, none, some, Str, codes,
  str_eq, length, lookup, ltb, ◌==◌, All, ok, require-ok, reject-ok, bind-ok, ok-injective, ◌≡◌,
  refl, sym, ap, ◌∙◌, subst, arith,
}
use agentbell.Settings.{Template}
use agentbell.Settings.Text.{placeholder, skip_white, take_name}
use agentbell.Settings.Validate
use agentbell.Policy.Evaluate.{map_error}
use agentbell.Policy.Template.{
  TemplateInput, RenderError, maximum_template_bytes, maximum_output_bytes, replaced, substitute,
  all_valid, values_of, render,
}

pub data Field : Type 0 where
  source_name event status project priority occurred_at runtime surface : Field

pub data Segment : Type 0 where
  byte : ℕ → Segment
  field : Field → Segment

abbrev pub field_name : Field → Str
field_name Field.source_name = codes "sourceName"
field_name Field.event = codes "event"
field_name Field.status = codes "status"
field_name Field.project = codes "project"
field_name Field.priority = codes "priority"
field_name Field.occurred_at = codes "occurredAt"
field_name Field.runtime = codes "runtime"
field_name Field.surface = codes "surface"

-- A field as it stands in a body, before a text.
abbrev pub placed : Field → Str → Str
placed f rest = 123 ∷ (123 ∷ (field_name f ++ (125 ∷ (125 ∷ rest))))

abbrev pub body_of : List Segment → Str
body_of [] = []
body_of (Segment.byte c ∷ ss) = c ∷ body_of ss
body_of (Segment.field f ∷ ss) = placed f (body_of ss)

-- No byte of the texts opens a placeholder.
abbrev pub IsText : Segment → Type 0
IsText (Segment.byte c) = (c == 123) ≡ false
IsText (Segment.field f) = Unit {0}

placeholder-placed :
    (f : Field) (rest : Str) → placeholder (placed f rest) ≡ some (field_name f, rest)
unfolding placeholder skip_white take_name
placeholder-placed Field.source_name rest = refl
placeholder-placed Field.event rest = refl
placeholder-placed Field.status rest = refl
placeholder-placed Field.project rest = refl
placeholder-placed Field.priority rest = refl
placeholder-placed Field.occurred_at rest = refl
placeholder-placed Field.runtime rest = refl
placeholder-placed Field.surface rest = refl

shorter : (f : Field) (rest : Str) → length rest < length (placed f rest)
shorter Field.source_name rest = omega arith
shorter Field.event rest = omega arith
shorter Field.status rest = omega arith
shorter Field.project rest = omega arith
shorter Field.priority rest = omega arith
shorter Field.occurred_at rest = omega arith
shorter Field.runtime rest = omega arith
shorter Field.surface rest = omega arith

placeholder-text : (c : ℕ) (s : Str) → (c == 123) ≡ false → placeholder (c ∷ s) ≡ none
unfolding placeholder
placeholder-text c [] h = refl
placeholder-text c (d ∷ s) h = rw h

module _ (print_time : ℕ → Str) (i : TemplateInput) where
  abbrev pub value : Field → Str
  value Field.source_name = i.source_name
  value Field.event = i.event
  value Field.status = i.status
  value Field.project = i.project
  value Field.priority = i.priority
  value Field.occurred_at = print_time i.occurred_at
  value Field.runtime = i.runtime
  value Field.surface = i.surface

  abbrev pub text_of : List Segment → Str
  text_of [] = []
  text_of (Segment.byte c ∷ ss) = c ∷ text_of ss
  text_of (Segment.field f ∷ ss) = value f ++ text_of ss

  lookup-value :
      (valid : Str → Bool) (f : Field)
      → lookup (field_name f) (values_of valid print_time i) ≡ some (value f)
  unfolding lookup str_eq
  lookup-value valid Field.source_name = refl
  lookup-value valid Field.event = refl
  lookup-value valid Field.status = refl
  lookup-value valid Field.project = refl
  lookup-value valid Field.priority = refl
  lookup-value valid Field.occurred_at = refl
  lookup-value valid Field.runtime = refl
  lookup-value valid Field.surface = refl

  replaced-value :
      (valid : Str → Bool) (again : Str → Str) (c : ℕ) (s : Str) (f : Field) (rest : Str)
      → replaced (values_of valid print_time i) again c s (some (field_name f, rest))
        ≡ value f ++ again rest
  replaced-value valid again c s f rest = rw (replaced, lookup-value valid f)

  substitute-text_of :
      (valid : Str → Bool) (ss : List Segment) (fuel : ℕ)
      → length (body_of ss) ≤ fuel
      → All IsText ss
      → substitute (values_of valid print_time i) fuel (body_of ss) ≡ text_of ss
  unfolding substitute
  substitute-text_of valid [] zero h t = refl
  substitute-text_of valid [] (suc fuel) h t = refl
  substitute-text_of valid (Segment.byte c ∷ ss) zero h t = absurd (omega (arith, h))
  substitute-text_of valid (Segment.byte c ∷ ss) (suc fuel) h (t, ts) =
      let vs = values_of valid print_time i in
      let rest = substitute-text_of valid ss fuel (omega (arith, h)) ts in
      ap (replaced vs (substitute vs fuel) c (body_of ss)) (placeholder-text c (body_of ss) t)
      ∙ ap (λ r. c ∷ r) rest
  substitute-text_of valid (Segment.field f ∷ ss) zero h t = absurd (omega (arith, h))
  substitute-text_of valid (Segment.field f ∷ ss) (suc fuel) h (t, ts) =
      let vs = values_of valid print_time i in
      let rest = substitute-text_of valid ss fuel (omega (arith, h, shorter f (body_of ss))) ts in
      ap (replaced vs (substitute vs fuel) 123 (123 ∷ (field_name f ++ (125 ∷ (125 ∷ body_of ss)))))
        (placeholder-placed f (body_of ss))
      ∙ (replaced-value valid (substitute vs fuel) 123
            (123 ∷ (field_name f ++ (125 ∷ (125 ∷ body_of ss)))) f (body_of ss)
          ∙ ap (λ r. value f ++ r) rest)

-- Where a template is rendered, and its body is made of texts without an opening brace and of fields,
-- the output is made of these texts and the values of these fields in the same order, is of valid
-- UTF-8, and is at most 16 kB long.
pub render-text_of :
    (valid : Str → Bool) (print_time : ℕ → Str) (t : Template) (i : TemplateInput)
    (ss : List Segment) (out : Str)
    → t.body ≡ body_of ss
    → All IsText ss
    → render valid print_time t i ≡ ok out
    → (out ≡ text_of print_time i ss) × (valid out ≡ true) × (length out ≤ 16 * 1024)
unfolding render
render-text_of valid print_time t i ss out made texts h =
    let vs = values_of valid print_time i in
    let made_out = substitute vs (length t.body) t.body in
    let (_, h₁) = require-ok (valid t.body) RenderError.template_utf8 _ h in
    let (_, h₂) =
      reject-ok (ltb maximum_template_bytes (length t.body)) RenderError.template_too_long _ h₁ in
    let (_, _, h₃) = bind-ok (map_error RenderError.template (Validate.validate_template t)) _ h₂ in
    let (_, h₄) = reject-ok (i.occurred_at == 0) RenderError.no_time _ h₃ in
    let (_, h₅) = require-ok (all_valid valid vs) RenderError.input_utf8 _ h₄ in
    let (short, h₆) =
      reject-ok (ltb maximum_output_bytes (length made_out)) RenderError.output_too_long _ h₅ in
    let (sound, h₇) = require-ok (valid made_out) RenderError.output_utf8 _ h₆ in
    let same : made_out ≡ out = ok-injective h₇ in
    (
      sym same
          ∙ (ap (λ b. substitute vs (length b) b) made
              ∙ substitute-text_of print_time i valid ss (length (body_of ss)) (omega arith) texts),
      subst (λ o. valid o ≡ true) same sound,
      subst (λ o. length o ≤ 16 * 1024) same (below (length made_out) short),
    )
  where
    below : (n : ℕ) → ltb maximum_output_bytes n ≡ false → n ≤ 16 * 1024
    below n h = ground (arith, h)
