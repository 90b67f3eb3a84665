-- ===== src/Policy/Template/Tests.antt =====
-- core/internal/policy/template.go: a template of two fields.
use agentbell.Common.{
  ℕ, ◌*◌, ◌≤◌, Bool, true, List, [], ◌∷◌, Str, codes, str_eq, contains, length, lookup, ok, ◌≡◌,
  refl,
}
use agentbell.Settings.{Template}
use agentbell.Settings.Text.{matches_identifier, has_double, placeholders, placeholder}
use agentbell.Settings.Validate
use agentbell.Policy.Template.{TemplateInput, render}
use agentbell.Policy.Template.Render.{Field, Segment, text_of, render-text_of}

abbrev input : TemplateInput
input = record {
  source_name = codes "Codex";
  event = codes "task.failed";
  status = codes "failed";
  project = [];
  priority = codes "high";
  occurred_at = 7;
  runtime = codes "host";
  surface = codes "cli";
}

abbrev titled : Template
titled = record { id = codes "titled"; body = codes "{{event}}: {{sourceName}}" }

abbrev valid : Str → Bool
valid = λ s. true

abbrev print_time : ℕ → Str
print_time = λ t. t ∷ []

abbrev segments : List Segment
segments =
    Segment.field Field.event
    ∷ Segment.byte 58
    ∷ Segment.byte 32
    ∷ Segment.field Field.source_name
    ∷ []

renders : render valid print_time titled input ≡ ok (codes "task.failed: Codex")
unfolding render Validate.validate_template matches_identifier has_double placeholders placeholder
    contains str_eq lookup
renders = refl

render-text_of_example :
    (codes "task.failed: Codex" ≡ text_of print_time input segments)
    × (valid (codes "task.failed: Codex") ≡ true)
    × (length (codes "task.failed: Codex") ≤ 16 * 1024)
render-text_of_example =
    render-text_of valid print_time titled input segments (codes "task.failed: Codex") refl
      (tt, (refl, (refl, (tt, tt)))) renders
