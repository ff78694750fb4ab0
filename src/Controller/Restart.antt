-- ===== src/Controller/Restart.antt =====
-- A rule over a restart of Home Assistant: `async_stop` of one controller, and `async_setup` of the
-- next one from what the store then has, while Home Assistant is starting.
pub mod Started
use mathlib.Core.Quot
use mathlib.Core.Quot.{Quot}
use ha_runtime_auto_off.Prelude.{
  ℕ, String, ◌≡◌, refl, Bool, true, false, not, Option, none, some, List, ◌∷◌, Dict, get, values,
}
use ha_runtime_auto_off.Hass.{Hass}
use ha_runtime_auto_off.Models.{RuntimeCycle, LastExecution}
use ha_runtime_auto_off.Models.Values.{
  DatetimeText, Value, bool, number, array, object, Fields, field, end, pos,
}
use ha_runtime_auto_off.Controller.{Controller}
use ha_runtime_auto_off.Controller.Save.{sort_cycles, cycle_items, execution_value, payload}
use ha_runtime_auto_off.Controller.Handlers.{
  Effect, store, Outcome, Reading, setup_until_execution, stop_locked,
}

-- Two dictionaries of cycles that hold the same cycle under every key.
abbrev pub SameCycles : Dict RuntimeCycle → Dict RuntimeCycle → Type 0
SameCycles d e = (k : String) → get k d ≡ get k e

-- A dictionary of cycles without its order.
abbrev pub Clocks : Type 0
Clocks = Quot SameCycles

-- What a rule is to keep over a restart.
pub record Durable : Type 0 where
  pub enabled : Bool
  pub clocks : Clocks
  pub last_execution : Option LastExecution

abbrev pub durable : Controller → Durable
durable c = record {
  enabled = c.enabled;
  clocks = Quot.mk c.cycles;
  last_execution = c.last_execution;
}

-- What `Store.async_load` reads of what `Store.async_save` was given.
abbrev pub fields_of : Value → Option Fields
fields_of (object fs) = some fs
fields_of _ = none

abbrev pub loaded : List Effect → Option Fields
loaded (store v ∷ effects) = fields_of v
loaded _ = none

-- `_async_stop` of `c`, whose store succeeds, and the setup of `fresh`.
abbrev pub restarted : DatetimeText → ℕ → Reading → Controller → Controller → Outcome
restarted dt at w c fresh =
    setup_until_execution dt (some (loaded (stop_locked dt true c).effects)) at w fresh

-- What the store has after the stop: the payload's fields.
abbrev saved_fields : DatetimeText → Controller → Fields
saved_fields dt c = field "enabled" (bool c.enabled) (
    field "retry_interval_seconds" (number (pos c.config.retry_interval_seconds)) (
      field "cycles" (array (cycle_items dt (sort_cycles (values c.cycles))))
        (field "last_execution" (execution_value dt c.last_execution) end)))

payload-fields : (dt : DatetimeText) (c : Controller) → payload dt c ≡ object (saved_fields dt c)
unfolding payload
payload-fields dt c = refl

-- What the setup leaves of a new controller.
record IsBegun (fresh d : Controller) : Type 0 where
  starting : d.starting ≡ true
  loaded : d.unloaded ≡ false
  config : d.config ≡ fresh.config
  keys : d.stable_key_by_entity ≡ fresh.stable_key_by_entity
  ids : d.registry_id_by_entity ≡ fresh.registry_id_by_entity
