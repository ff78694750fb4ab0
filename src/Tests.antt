-- ===== src/Tests.antt =====
-- A rule over two lights, the Home Assistant around it, and the theorems applied to them.
mod Running
mod Executions
mod Storage
mod Entries
mod Switched
mod Flows
mod Restarts
mod Follow
mod Tasks
mod Unloads
use ha_runtime_auto_off.Prelude.{
  ℕ, zero, suc, String, Bool, true, false, Option, none, some, List, [], ◌∷◌, Dict, str_eq,
  if◌then◌else◌, ◌≡◌, refl, ap,
}
use ha_runtime_auto_off.Hass.{HaState, RegistryEntry, Device, Hass}
use ha_runtime_auto_off.Models.{RuleConfig, RuntimeCycle, TriggerPolicy, Status, LastExecution}
use ha_runtime_auto_off.Models.Values.{DatetimeText, Parsed, aware, invalid}
use ha_runtime_auto_off.Models.Cycle.{ReadsBack}
use ha_runtime_auto_off.Controller.{Controller, Timer, ExecutionPlan}

abbrev pub lamp : String
lamp = "light.lamp"

abbrev pub fan : String
fan = "fan.fan"

-- The two entities are in the registry, the fan through its device and that device's parent.
abbrev pub lamp_entry : RegistryEntry
lamp_entry = record {
  id = "id-lamp";
  entity_id = lamp;
  platform = "hue";
  disabled = false;
  area_id = some "room";
  device_id = none;
}

abbrev pub fan_entry : RegistryEntry
fan_entry = record {
  id = "id-fan";
  entity_id = fan;
  platform = "mqtt";
  disabled = false;
  area_id = none;
  device_id = some "plug";
}

abbrev pub sensor_entry : RegistryEntry
sensor_entry = record {
  id = "id-shabbat";
  entity_id = "binary_sensor.shabbat";
  platform = "jewish_calendar";
  disabled = false;
  area_id = none;
  device_id = none;
}

abbrev pub devices : List Device
devices =
    record { id = "plug"; area_id = none; parent_device_id = some "hub" }
    ∷ record { id = "hub"; area_id = some "room"; parent_device_id = some "plug" }
    ∷ []

abbrev pub registry : String → Option RegistryEntry
registry e =
    if str_eq e lamp
    then some lamp_entry
    else if str_eq e fan
    then some fan_entry
    else if str_eq e "binary_sensor.shabbat"
    then some sensor_entry
    else none

abbrev pub state : String → ℕ → Option HaState
state s at = some (record { state = s; last_changed = at })

-- Home Assistant with the given states of the two entities and of the Shabbat sensor.
abbrev pub home : Option HaState → Option HaState → Option HaState → Hass
home lamp_state fan_state sensor = record {
  states = λ e.
      if str_eq e lamp
      then lamp_state
      else if str_eq e fan
      then fan_state
      else if str_eq e "binary_sensor.shabbat"
      then sensor
      else none;
  registry = registry;
  devices = devices;
  has_service = λ domain service. str_eq service "turn_off";
  domain = λ e. if str_eq e lamp then "light" else "fan";
  running = true;
}

abbrev pub both_on : Hass
both_on = home (state "on" 10) (state "on" 20) (state "off" 0)

abbrev pub both_off : Hass
both_off = home (state "off" 90) (state "off" 95) (state "off" 0)

abbrev pub shabbat : Hass
shabbat = home (state "on" 10) (state "on" 20) (state "on" 0)

abbrev pub rule : RuleConfig
rule = record {
  name = "Hall";
  area_id = some "room";
  entities = lamp ∷ fan ∷ [];
  delay_seconds = 60;
  rule_id = "rule";
  retry_interval_seconds = 300;
  trigger_policy = TriggerPolicy.first;
  shabbat_entity = some "binary_sensor.shabbat";
}

-- The controller that the constructor makes for the rule.
abbrev pub fresh : Controller
fresh = record {
  entry_id = "entry";
  config = rule;
  registry_id_by_entity = (lamp, some "id-lamp") ∷ (fan, some "id-fan") ∷ [];
  stable_key_by_entity = (lamp, "id-lamp") ∷ (fan, "id-fan") ∷ [];
  shabbat_registry_id = some "id-shabbat";
  enabled = true;
  action_inhibited = false;
  status = Status.initializing;
  cycles = [];
  unavailable_entities = [];
  next_deadline = none;
  next_shutdown_kind = none;
  trigger_entity = none;
  last_execution = none;
  last_activity = none;
  last_saved_payload = none;
  stored_retry_interval = none;
  unsub_state = false;
  unsub_deadline = none;
  unsub_started = false;
  timer_generation = 0;
  setup_complete = false;
  starting = false;
  unloaded = false;
}

abbrev pub cycle_of : String → String → ℕ → Bool → Option ℕ → RuntimeCycle
cycle_of key entity started handled retry = record {
  stable_key = key;
  entity_id = entity;
  started_at = started;
  handled = handled;
  retry_at = retry;
}

-- The lamp and the fan have been on since 10 and 20.
abbrev pub running_cycles : Bool → Dict RuntimeCycle
running_cycles handled =
    ("id-lamp", cycle_of "id-lamp" lamp 10 handled none)
    ∷ ("id-fan", cycle_of "id-fan" fan 20 handled none)
    ∷ []

-- The rule set up, with the two cycles pending or claimed.
abbrev pub active : Bool → Controller
active handled = record fresh {
  cycles = running_cycles handled;
  setup_complete = true;
  unsub_state = true;
}

-- A writer of times and its reader.
abbrev pub ticks : ℕ → String
ticks zero = String.[]
ticks (suc n) = String.◌∷◌ "i" (ticks n)

abbrev pub count_ticks : String → ℕ
count_ticks String.[] = 0
count_ticks (String.◌∷◌ c s) = suc (count_ticks s)

abbrev pub tally_text : DatetimeText
tally_text = record { isoformat = ticks; parse = λ s. aware (count_ticks s) }

count-ticks : (n : ℕ) → count_ticks (ticks n) ≡ n
count-ticks zero = refl
count-ticks (suc n) = ap suc (count-ticks n)

pub tally_text-ReadsBack : (t : ℕ) → ReadsBack tally_text t
tally_text-ReadsBack t = ap aware (count-ticks t)
