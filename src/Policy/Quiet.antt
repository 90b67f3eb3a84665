-- ===== src/Policy/Quiet.antt =====
-- core/internal/policy/quiet.go: quiet hours. A location is a parameter: the clock, the weekday and
-- the civil times of an instant there. The evaluator's clock is an argument.
pub mod Latest
pub mod Windows
mod Tests
use agentbell.Common.{
  ℕ, zero, suc, ◌+◌, ◌*◌, Bool, true, false, ◌&&◌, ◌||◌, not, List, [], ◌∷◌, Option, none, some,
  Str, codes, str_eq, is_empty, contains, ltb, leb, ◌==◌, if◌then◌else◌, Result, ok, err, ◌>>=◌,
  ◌>>◌,
}
use agentbell.Event
use agentbell.Event.{Notification}
use agentbell.Semver.{split, all_digits, decimal}
use agentbell.Settings.{QuietInterval, QuietHours}
use agentbell.Settings.Validate
use agentbell.Policy.Evaluate.{map_error}

-- What `time.Location` answers: hour, minute and weekday of an instant, the instant one day before
-- by the calendar, and `civilTime` on the day of an instant, the day before and the day after.
pub data Day : Type 0 where
  before same after : Day

pub record Location : Type 0 where
  pub hour : ℕ → ℕ
  pub minute : ℕ → ℕ
  pub weekday : ℕ → ℕ
  pub previous : ℕ → ℕ
  pub civil_time : ℕ → Day → ℕ → ℕ → ℕ

pub data Reason : Type 0 where
  disabled not_quiet urgent_bypass event_bypass quiet_hours : Reason

pub record QuietDecision : Type 0 where
  pub active : Bool
  pub action : Str
  pub defer_until : ℕ
  pub reason : Reason

pub data Error : Type 0 where
  quiet : Validate.Invalid → Error
  notification : Event.Invalid → Error
  location clock action : Error

abbrev pub unsigned : Str → Option ℕ
unsigned s = if is_empty s || not (all_digits s) then none else some (decimal 0 s)

-- `strconv.Atoi`, with no number where the result is negative or an error: `parseTime` refuses both.
-- A number out of range is refused as well, since it is too large.
unfoldable pub atoi : Str → Option ℕ
unfolding all_digits decimal
atoi [] = none
atoi (c ∷ s) =
    if c == b'+'
    then unsigned s
    else if c == b'-'
    then elim (unsigned s) [ none ↦ none | some n ↦ if n == 0 then some 0 else none ]
    else unsigned (c ∷ s)

abbrev pub in_range : Option ℕ → Option ℕ → Result Error (ℕ × ℕ)
in_range (some h) (some m) = if ltb 23 h || ltb 59 m then err Error.clock else ok (h, m)
in_range _ _ = err Error.clock

abbrev pub parse_parts : List Str → Result Error (ℕ × ℕ)
parse_parts (h ∷ m ∷ []) = in_range (atoi h) (atoi m)
parse_parts _ = err Error.clock

unfoldable pub parse_time : Str → Result Error (ℕ × ℕ)
unfolding split atoi
parse_time value = parse_parts (split b':' value)

abbrev pub day_names : List Str
day_names =
    codes "sun"
    ∷ codes "mon"
    ∷ codes "tue"
    ∷ codes "wed"
    ∷ codes "thu"
    ∷ codes "fri"
    ∷ codes "sat"
    ∷ []

abbrev pub name_at : List Str → ℕ → Str
name_at [] n = []
name_at (d ∷ ds) n = elim n [ zero ↦ d | suc m ↦ name_at ds m ]

unfoldable pub contains_weekday : List Str → ℕ → Bool
unfolding contains
contains_weekday days weekday = contains days (name_at day_names weekday)

-- The start and the end of a window, if the instant is active in it.
abbrev pub window : ℕ → ℕ → ℕ → Option (ℕ × ℕ)
window now start end = if leb start now && ltb now end then some (start, end) else none

-- `matchingWindow` behind the parsing of both times.
unfoldable pub window_of : Location → ℕ → List Str → ℕ × ℕ → ℕ × ℕ → Option (ℕ × ℕ)
unfolding contains_weekday
window_of l now days (sh, sm) (eh, em) =
    let start_clock = sh * 60 + sm in
    let end_clock = eh * 60 + em in
    let now_clock = l.hour now * 60 + l.minute now in
    if ltb start_clock end_clock
    then if contains_weekday days (l.weekday now)
      then window now (l.civil_time now Day.same sh sm) (l.civil_time now Day.same eh em)
      else none
    else if leb start_clock now_clock && contains_weekday days (l.weekday now)
    then window now (l.civil_time now Day.same sh sm) (l.civil_time now Day.after eh em)
    else if ltb now_clock end_clock && contains_weekday days (l.weekday (l.previous now))
    then window now (l.civil_time now Day.before sh sm) (l.civil_time now Day.same eh em)
    else none

unfoldable pub matching_window : Location → ℕ → QuietInterval → Result Error (Option (ℕ × ℕ))
unfolding window_of parse_time
matching_window l now i = do
  start ← parse_time i.start
  end ← parse_time i.end
  ok (window_of l now i.days start end)

-- One round of the loop of `Evaluate`.
abbrev pub later : ℕ → ℕ → Option (ℕ × ℕ) → ℕ
later now latest none = latest
later now latest (some (start, end)) =
    if ltb now start || not (ltb now end)
    then latest
    else if latest == 0 || ltb latest end
    then end
    else latest

-- The loop over the intervals, with the latest end found so far; 0 is none.
unfoldable pub latest_end : Location → ℕ → ℕ → List QuietInterval → Result Error ℕ
unfolding matching_window
latest_end l now latest [] = ok latest
latest_end l now latest (i ∷ is) = do
  w ← matching_window l now i
  latest_end l now (later now latest w) is

abbrev pub inactive : Reason → QuietDecision
inactive reason = record { active = false; action = []; defer_until = 0; reason = reason }

-- The end of `Evaluate`, from the latest end.
unfoldable pub decide : QuietHours → ℕ → Result Error QuietDecision
decide q latest =
    if latest == 0
    then ok (inactive Reason.not_quiet)
    else if str_eq q.action (codes "defer")
    then ok (record {
      active = true;
      action = q.action;
      defer_until = latest;
      reason = Reason.quiet_hours;
    })
    else if str_eq q.action (codes "drop")
    then ok
        (record { active = true; action = q.action; defer_until = 0; reason = Reason.quiet_hours })
    else err Error.action

abbrev pub to_location : Option Location → Result Error Location
to_location none = err Error.location
to_location (some l) = ok l

abbrev pub is_known : Option Location → Bool
is_known none = false
is_known (some l) = true

-- `UrgentBypass`, which is true when it is not given.
abbrev pub or_true : Option Bool → Bool
or_true none = true
or_true (some b) = b

module _ (load_location : Str → Option Location) where
  -- `Evaluate` behind the validation of its inputs.
  unfoldable pub evaluate_valid :
      QuietHours → Notification → Option Bool → ℕ → Result Error QuietDecision
  unfolding latest_end decide
  evaluate_valid q n bypass now =
      if not q.enabled
      then ok (inactive Reason.disabled)
      else if or_true bypass && str_eq n.priority (codes "urgent")
      then ok (inactive Reason.urgent_bypass)
      else if contains q.bypass_events n.event
      then ok (inactive Reason.event_bypass)
      else (do
        l ← to_location (load_location q.timezone)
        latest ← latest_end l now 0 q.intervals
        decide q latest)

  unfoldable pub evaluate : QuietHours → Notification → Option Bool → ℕ → Result Error QuietDecision
  unfolding evaluate_valid
  evaluate q n bypass now = do
    map_error Error.quiet (Validate.validate_quiet_hours (λ z. is_known (load_location z)) q)
    map_error Error.notification (Event.validate n)
    evaluate_valid q n bypass now
