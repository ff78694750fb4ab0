-- ===== src/Models.antt =====
-- custom_components/runtime_auto_off/models.py: the enumerations, the rule's configuration, and the
-- records of cycles, executions and activities. A time is the number of microseconds since the
-- first moment that `datetime` can hold, and a duration is a number of microseconds, as in
-- `timedelta`; both are exact there.
pub mod Values
pub mod Strip
pub mod Rule
pub mod Cycle
pub mod Execution
pub mod Activity
pub mod Checked
use ha_runtime_auto_off.Prelude.{
  ℕ, ◌+◌, String, Bool, false, Option, none, some, List, [], ◌∷◌, Dict, is_empty,
}

pub data TriggerPolicy : Type 0 where
  first last : TriggerPolicy

pub data ShutdownKind : Type 0 where
  initial retry : ShutdownKind

pub data Status : Type 0 where
  initializing disabled idle countdown waiting_condition executing completed : Status
  sensor_unavailable error : Status

pub data ActivityEventType : Type 0 where
  scheduled cancelled executed no_action failed : ActivityEventType

-- The fields after `__post_init__`, which has put a number for a missing retry interval.
pub record RuleConfig : Type 0 where
  pub name : String
  pub area_id : Option String
  pub entities : List String
  pub delay_seconds : ℕ
  pub rule_id : String
  pub retry_interval_seconds : ℕ
  pub trigger_policy : TriggerPolicy
  pub shabbat_entity : Option String

pub record RuntimeCycle : Type 0 where
  pub stable_key : String
  pub entity_id : String
  pub started_at : ℕ
  pub handled : Bool
  pub retry_at : Option ℕ

-- `RuntimeCycle(key, entity_id, started_at)`, with the defaults of the other fields.
abbrev pub new_cycle : String → String → ℕ → RuntimeCycle
new_cycle key entity started = record {
  stable_key = key;
  entity_id = entity;
  started_at = started;
  handled = false;
  retry_at = none;
}

-- A `datetime` is always true, so `or` chooses by presence.
abbrev pub deadline : ℕ → RuntimeCycle → ℕ
deadline delay cycle = elim cycle.retry_at [ none ↦ cycle.started_at + delay | some at ↦ at ]

pub record LastExecution : Type 0 where
  pub trigger_entity : String
  pub occurred_at : ℕ
  pub successful_entities : List String
  pub skipped_entities : Dict String
  pub failed_entities : Dict String

-- The property `succeeded`.
unfoldable pub succeeded : LastExecution → Bool
succeeded e = is_empty e.failed_entities

-- The `data` of an activity, by the three shapes that the controller builds.
pub data ActivityData : Type 0 where
  schedule : (trigger_entity : String) (started_at due : ℕ) (is_retry : Bool) → ActivityData
  reason : String → ActivityData
  report :
      (trigger_entity : String) (trigger_started_at : ℕ) (is_retry : Bool)
      (successful : List String) (skipped failures : Dict String)
      → ActivityData

pub record ActivityEvent : Type 0 where
  pub event_type : ActivityEventType
  pub occurred_at : ℕ
  pub content : ActivityData
