-- ===== src/Controller.antt =====
-- custom_components/runtime_auto_off/controller.py: the fields of `RuntimeAutoOffController` and
-- of `_ExecutionPlan`, and the constructor. The methods are in the child modules; those whose name
-- ends in `_locked` are functions from the controller to the new one, without that ending.
pub mod Errors
pub mod Init
pub mod Deadline
pub mod Sync
pub mod Rearm
pub mod Reconcile
pub mod Save
pub mod Handlers
pub mod Events
pub mod Timed
pub mod Sound
pub mod Steps
pub mod Framed
pub mod Stopped
pub mod Execute
pub mod Finish
pub mod Disabled
pub mod Restart
pub mod Starts
pub mod Tasks
use Prim.Native.String.{◌++◌}
use ha_runtime_auto_off.Prelude.{
  ℕ, String, Bool, true, false, not, Option, none, some, List, [], ◌∷◌, Dict, put, str_eq,
  if◌then◌else◌,
}
use ha_runtime_auto_off.Hass.{Hass, RegistryEntry}
use ha_runtime_auto_off.Models.{
  RuleConfig, RuntimeCycle, LastExecution, ActivityEvent, Status, ShutdownKind,
}
use ha_runtime_auto_off.Models.Values.{Value}

pub record ExecutionPlan : Type 0 where
  pub trigger_key : String
  pub trigger_entity : String
  pub trigger_started_at : ℕ
  pub claimed_at : ℕ
  pub is_retry : Bool
  pub target_entities : List String

-- What `async_track_point_in_utc_time` was given: when to call, and the generation that the
-- callback passes on.
pub record Timer : Type 0 where
  pub generation : ℕ
  pub due : ℕ

-- The fields of the controller. `unsub_state` and `unsub_started` say whether the subscription is
-- there. The locks, tasks and listeners are not part of it.
pub record Controller : Type 0 where
  pub entry_id : String
  pub config : RuleConfig
  pub registry_id_by_entity : Dict (Option String)
  pub stable_key_by_entity : Dict String
  pub shabbat_registry_id : Option String
  pub enabled : Bool
  pub action_inhibited : Bool
  pub status : Status
  pub cycles : Dict RuntimeCycle
  pub unavailable_entities : Dict String
  pub next_deadline : Option ℕ
  pub next_shutdown_kind : Option ShutdownKind
  pub trigger_entity : Option String
  pub last_execution : Option LastExecution
  pub last_activity : Option ActivityEvent
  pub last_saved_payload : Option Value
  pub stored_retry_interval : Option ℕ
  pub unsub_state : Bool
  pub unsub_deadline : Option Timer
  pub unsub_started : Bool
  pub timer_generation : ℕ
  pub setup_complete : Bool
  pub starting : Bool
  pub unloaded : Bool

-- `entry.id if entry is not None else None`
abbrev pub entry_id_of : Option RegistryEntry → Option String
entry_id_of none = none
entry_id_of (some entry) = some entry.id

-- `registry_id if registry_id is not None else f"entity:{entity_id}"`
abbrev pub stable_key_of : String → Option String → String
stable_key_of entity (some id) = id
stable_key_of entity none = "entity:" ++ entity

unfoldable pub registry_ids : Hass → List String → Dict (Option String) → Dict (Option String)
unfolding put
registry_ids hass [] ids = ids
registry_ids hass (e ∷ es) ids = registry_ids hass es (put e (entry_id_of (hass.registry e)) ids)

unfoldable pub stable_keys : Hass → List String → Dict String → Dict String
unfolding put
stable_keys hass [] keys = keys
stable_keys hass (e ∷ es) keys =
    stable_keys hass es (put e (stable_key_of e (entry_id_of (hass.registry e))) keys)

abbrev shabbat_id : Hass → Option String → Option String
shabbat_id hass none = none
shabbat_id hass (some e) = entry_id_of (hass.registry e)

abbrev with_rule_id : String → RuleConfig → RuleConfig
with_rule_id entry config =
    if str_eq config.rule_id "" then record config { rule_id = entry } else config

abbrev initial_state : Hass → String → RuleConfig → Controller
initial_state hass entry config = record {
  entry_id = entry;
  config = with_rule_id entry config;
  registry_id_by_entity = registry_ids hass config.entities [];
  stable_key_by_entity = stable_keys hass config.entities [];
  shabbat_registry_id = shabbat_id hass config.shabbat_entity;
  enabled = true;
  action_inhibited = not true;
  status = Status.initializing;
  cycles = [];
  unavailable_entities = [];
  next_deadline = none;
  next_shutdown_kind = none;
  trigger_entity = none;
  last_execution = none;
  last_activity = none;
  last_saved_payload = none;
  stored_retry_interval = none;
  unsub_state = false;
  unsub_deadline = none;
  unsub_started = false;
  timer_generation = 0;
  setup_complete = false;
  starting = false;
  unloaded = false;
}

-- The constructor; `none` is the `ValueError` for a rule with no entity.
unfoldable pub init : Hass → String → RuleConfig → Option Controller
unfolding registry_ids stable_keys
init hass entry config = elim config.entities [
  | [] ↦ none
  | e ∷ es ↦ some (initial_state hass entry config)
]
