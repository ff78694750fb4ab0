-- ===== src/Sensors.antt =====
-- What the entities of a rule show: the properties of controller.py that they read, and the values
-- of sensor.py, binary_sensor.py and switch.py.
pub mod Countdown
pub mod Attributes
pub mod Diagnostics
pub mod Listeners
pub mod Notified
use ha_runtime_auto_off.Prelude.{
  ℕ, String, Bool, true, false, not, Option, none, some, List, [], ◌∷◌, Dict, put, values, is_empty,
  opt_str_eq, str_lt, if◌then◌else◌,
}
use ha_runtime_auto_off.Models.{RuntimeCycle, LastExecution, ShutdownKind, Status}
use ha_runtime_auto_off.Models.Values.{DatetimeText}
use ha_runtime_auto_off.Controller.{Controller}
use ha_runtime_auto_off.Controller.Handlers.{Outcome, Reading}
use ha_runtime_auto_off.Controller.Events.{async_set_enabled}

-- The loop of `trigger_started_at`.
unfoldable pub first_start : Option String → List RuntimeCycle → Option ℕ
first_start trigger [] = none
first_start trigger (c ∷ cs) =
    if opt_str_eq (some c.entity_id) trigger then some c.started_at else first_start trigger cs

abbrev pub trigger_started_at : Controller → Option ℕ
trigger_started_at c = first_start c.trigger_entity (values c.cycles)

abbrev pub any_active : Controller → Bool
any_active c = not (is_empty c.cycles)

-- `sorted(cycles, key=lambda item: item.entity_id)`, a stable sort.
unfoldable pub insert_by_entity : RuntimeCycle → List RuntimeCycle → List RuntimeCycle
insert_by_entity c [] = c ∷ []
insert_by_entity c (d ∷ ds) =
    let rest = d ∷ insert_by_entity c ds in
    if str_lt d.entity_id c.entity_id then rest else c ∷ d ∷ ds

unfoldable pub sort_by_entity : List RuntimeCycle → List RuntimeCycle
sort_by_entity [] = []
sort_by_entity (c ∷ cs) = insert_by_entity c (sort_by_entity cs)

-- The comprehension of `active_since`.
unfoldable pub starts_of : List RuntimeCycle → Dict ℕ → Dict ℕ
starts_of [] d = d
starts_of (c ∷ cs) d = starts_of cs (put c.entity_id c.started_at d)

unfoldable pub active_since : Controller → Dict ℕ
active_since c = starts_of (sort_by_entity (values c.cycles)) []

-- What the sensors of a rule show together; `next_shutdown` is the property `deadline`, and
-- `is_on` the switch.
pub record Shown : Type 0 where
  pub status : Status
  pub trigger : Option String
  pub trigger_active_since : Option ℕ
  pub next_shutdown : Option ℕ
  pub next_shutdown_kind : Option ShutdownKind
  pub last_shutdown : Option ℕ
  pub configured_runtime : ℕ
  pub retry_interval : ℕ
  pub active : Bool
  pub is_on : Bool

abbrev pub occurred : Option LastExecution → Option ℕ
occurred none = none
occurred (some e) = some e.occurred_at

unfoldable pub shown : Controller → Shown
shown c = record {
  status = c.status;
  trigger = c.trigger_entity;
  trigger_active_since = trigger_started_at c;
  next_shutdown = c.next_deadline;
  next_shutdown_kind = c.next_shutdown_kind;
  last_shutdown = occurred c.last_execution;
  configured_runtime = c.config.delay_seconds;
  retry_interval = c.config.retry_interval_seconds;
  active = any_active c;
  is_on = c.enabled;
}

-- The two services of the switch.
module _ (dt : DatetimeText) (w : Reading) where
  unfoldable pub async_turn_on : Controller → Outcome
  unfolding async_set_enabled
  async_turn_on c = async_set_enabled dt w true c

  unfoldable pub async_turn_off : Controller → Outcome
  unfolding async_set_enabled
  async_turn_off c = async_set_enabled dt w false c
