-- ===== src/Policy/Template.antt =====
-- core/internal/policy/template.go: the rendering of a template from the metadata of a notification. The
-- test for valid UTF-8 and the printing of an instant are parameters. The names of the pattern are
-- those of the settings' placeholders, so its matches are theirs with a known name.
pub mod Render
mod Tests
use agentbell.Common.{
  ℕ, zero, suc, ◌*◌, ◌+◌, Bool, true, false, ◌&&◌, List, [], ◌∷◌, ◌++◌, Option, none, some, Str,
  codes, str_eq, length, lookup, ltb, ◌==◌, Result, ok, err, ◌>>=◌, ◌>>◌, require, reject,
}
use agentbell.Event
use agentbell.Event.{Notification}
use agentbell.Settings.{Template}
use agentbell.Settings.Text.{placeholder}
use agentbell.Settings.Validate
use agentbell.Policy.Evaluate.{map_error}

abbrev pub maximum_template_bytes : ℕ
maximum_template_bytes = 4 * 1024

abbrev pub maximum_output_bytes : ℕ
maximum_output_bytes = 16 * 1024

pub record TemplateInput : Type 0 where
  pub source_name : Str
  pub event : Str
  pub status : Str
  pub project : Str
  pub priority : Str
  pub occurred_at : ℕ
  pub runtime : Str
  pub surface : Str

pub data RenderError : Type 0 where
  notification : Event.Invalid → RenderError
  not_metadata_only template_utf8 template_too_long : RenderError
  template : Validate.Invalid → RenderError
  no_time input_utf8 output_too_long output_utf8 : RenderError

unfoldable pub input_from_notification : Notification → Str → Result RenderError TemplateInput
unfolding Event.validate str_eq
input_from_notification n source = do
  map_error RenderError.notification (Event.validate n)
  require (str_eq n.privacy_level (codes "metadata-only")) RenderError.not_metadata_only
  ok record {
    source_name = source;
    event = n.event;
    status = n.status;
    project = n.project;
    priority = n.priority;
    occurred_at = n.occurred_at;
    runtime = n.runtime;
    surface = n.surface;
  }

-- `ReplaceAllStringFunc`: the value of each placeholder in its place. The fuel bounds the bytes that
-- are left.
abbrev pub replaced : List (Str × Str) → (Str → Str) → ℕ → Str → Option (Str × Str) → Str
replaced values again c s none = c ∷ again s
replaced values again c s (some (name, rest)) = elim (lookup name values) [
  | none ↦ c ∷ again s
  | some v ↦ v ++ again rest
]

unfoldable pub substitute : List (Str × Str) → ℕ → Str → Str
unfolding placeholder lookup
substitute values zero s = s
substitute values (suc fuel) [] = []
substitute values (suc fuel) (c ∷ s) =
    replaced values (substitute values fuel) c s (placeholder (c ∷ s))

unfoldable pub all_valid : (Str → Bool) → List (Str × Str) → Bool
all_valid valid [] = true
all_valid valid ((n, v) ∷ vs) = valid v && all_valid valid vs

module _ (valid_utf8 : Str → Bool) (print_time : ℕ → Str) where
  abbrev pub values_of : TemplateInput → List (Str × Str)
  values_of i =
      (codes "sourceName", i.source_name)
      ∷ (codes "event", i.event)
      ∷ (codes "status", i.status)
      ∷ (codes "project", i.project)
      ∷ (codes "priority", i.priority)
      ∷ (codes "occurredAt", print_time i.occurred_at)
      ∷ (codes "runtime", i.runtime)
      ∷ (codes "surface", i.surface)
      ∷ []

  unfoldable pub render : Template → TemplateInput → Result RenderError Str
  unfolding Validate.validate_template all_valid substitute
  render t i = do
    require (valid_utf8 t.body) RenderError.template_utf8
    reject (ltb maximum_template_bytes (length t.body)) RenderError.template_too_long
    map_error RenderError.template (Validate.validate_template t)
    reject (i.occurred_at == 0) RenderError.no_time
    require (all_valid valid_utf8 (values_of i)) RenderError.input_utf8
    reject (ltb maximum_output_bytes (length (substitute (values_of i) (length t.body) t.body)))
        RenderError.output_too_long
    require (valid_utf8 (substitute (values_of i) (length t.body) t.body)) RenderError.output_utf8
    ok (substitute (values_of i) (length t.body) t.body)

  -- `Preview`.
  unfoldable pub preview : Str → TemplateInput → Result RenderError Str
  unfolding render
  preview body i = render record { id = codes "preview"; body = body } i
