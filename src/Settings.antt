-- ===== src/Settings.antt =====
-- core/internal/settings/settings.go: the notification settings and their validation. A map of
-- event switches is an association list; `nil` and empty slices differ only where `Validate` asks.
-- Whether a time zone can be loaded is a parameter, since the zone database is not the program's.
pub mod Text
pub mod Validate
use agentbell.Common.{ℕ, Bool, List, Option, Str}

pub record Template : Type 0 where
  pub id : Str
  pub body : Str

pub record QuietInterval : Type 0 where
  pub days : List Str
  pub start : Str
  pub end : Str

pub record QuietHours : Type 0 where
  pub enabled : Bool
  pub timezone : Str
  pub action : Str
  pub intervals : List QuietInterval
  pub bypass_events : List Str

pub record PolicyMatch : Type 0 where
  pub events : List Str
  pub sources : List Str
  pub surfaces : List Str
  pub runtimes : List Str
  pub priorities : List Str
  pub projects : List Str

-- A `nil` list of channels is `none`.
pub record PolicyAction : Type 0 where
  pub enabled : Option Bool
  pub channel_ids : Option (List Str)
  pub template_id : Str

pub record Policy : Type 0 where
  pub id : Str
  pub match : PolicyMatch
  pub action : PolicyAction

abbrev pub EventSwitches : Type 0
EventSwitches = List (Str × Bool)

-- A `nil` list of policies is `none`.
pub record Settings : Type 0 where
  pub version : ℕ
  pub min_core_version : Str
  pub events : EventSwitches
  pub default_template : Str
  pub templates : List Template
  pub quiet_hours : QuietHours
  pub policies : Option (List Policy)
