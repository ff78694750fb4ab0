-- ===== src/Controller/Sync.antt =====
-- `_sync_cycles_locked` of controller.py: the cycles are matched to the states of the entities.
pub mod Cycles
pub mod Keys
pub mod Clock
use ha_runtime_auto_off.Prelude.{
  ℕ, String, Bool, true, false, ◌&&◌, ◌||◌, Option, none, some, List, [], ◌∷◌, Dict, get, put, pop,
  values, contains, keep_keys, str_eq, min, if◌then◌else◌,
}
use ha_runtime_auto_off.Hass.{HaState, Hass}
use ha_runtime_auto_off.Models.{RuntimeCycle, RuleConfig, new_cycle}
use ha_runtime_auto_off.Controller.{Controller}
use ha_runtime_auto_off.Controller.Errors.{is_lost, is_off, identity_or_area_error}

-- `event.data` of a state change.
pub record StateEvent : Type 0 where
  pub entity_id : String
  pub new_state : Option HaState

-- The two dictionaries that the loop writes.
pub record Tracking : Type 0 where
  pub cycles : Dict RuntimeCycle
  pub unavailable : Dict String

-- A kept cycle takes the entity's present name.
abbrev pub renamed : String → RuntimeCycle → RuntimeCycle
renamed e cycle = if str_eq cycle.entity_id e then cycle else record cycle { entity_id = e }

unfoldable pub rename : String → String → Dict RuntimeCycle → Dict RuntimeCycle
unfolding get put
rename key e cycles = elim (get key cycles) [
  | none ↦ cycles
  | some cycle ↦
      if str_eq cycle.entity_id e then cycles else put key (record cycle { entity_id = e }) cycles
]

-- The event's state for the event's entity, and the present state for the others.
abbrev pub observed : Hass → Option StateEvent → String → Option HaState
observed hass none e = hass.states e
observed hass (some event) e = if str_eq e event.entity_id then event.new_state else hass.states e

-- An active state: the cycle found goes on, and where there is none one begins.
abbrev pub track_found :
    ℕ → String → String → ℕ → Option RuntimeCycle → Dict RuntimeCycle → Dict RuntimeCycle
track_found now key e changed (some cycle) cycles = rename key e cycles
track_found now key e changed none cycles = put key (new_cycle key e (min changed now)) cycles

unfoldable pub track_active : ℕ → String → String → ℕ → Dict RuntimeCycle → Dict RuntimeCycle
unfolding rename
track_active now key e changed cycles = track_found now key e changed (get key cycles) cycles

-- One round of the loop, from the outcome of the checks on.
unfoldable pub sync_state :
    ℕ → String → String → Option String → Option HaState → Tracking → Tracking
unfolding rename track_active pop put
sync_state now key e (some error) state t = record {
  cycles = pop key t.cycles;
  unavailable = put e error t.unavailable;
}
sync_state now key e none none t = record {
  cycles = rename key e t.cycles;
  unavailable = put e "missing_state" t.unavailable;
}
sync_state now key e none (some s) t =
    if is_lost s.state
    then record { cycles = rename key e t.cycles; unavailable = put e s.state t.unavailable }
    else if is_off s.state
    then record t { cycles = pop key t.cycles }
    else record t { cycles = track_active now key e s.last_changed t.cycles }

-- One round of the loop. `__init__` has given every entity of the rule a key
-- (Controller/Init.antt), so the `KeyError` of the first case does not occur.
abbrev pub sync_keyed :
    ℕ → String → Option String → Option String → Option HaState → Tracking → Tracking
sync_keyed now e none error state t = t
sync_keyed now e (some key) error state t = sync_state now key e error state t

abbrev pub sync_entity : Controller → Hass → ℕ → Option StateEvent → String → Tracking → Tracking
sync_entity c hass now event e t =
    sync_keyed now e (get e c.stable_key_by_entity) (identity_or_area_error c hass e)
      (observed hass event e) t

unfoldable pub sync_entities :
    Controller → Hass → ℕ → Option StateEvent → List String → Tracking → Tracking
unfolding get sync_state identity_or_area_error
sync_entities c hass now event [] t = t
sync_entities c hass now event (e ∷ es) t =
    sync_entities c hass now event es (sync_entity c hass now event e t)

-- The dictionaries before the loop: cycles of keys that the rule no longer has are dropped.
abbrev pub tracking_start : Controller → Tracking
tracking_start c = record {
  cycles = keep_keys (λ k. contains k (values c.stable_key_by_entity)) c.cycles;
  unavailable = [];
}

-- `now` is the time that the method reads.
unfoldable pub sync_cycles : Hass → ℕ → Option StateEvent → Controller → Controller
unfolding sync_entities keep_keys contains values
sync_cycles hass now event c =
    let t = sync_entities c hass now event c.config.entities (tracking_start c) in
    record c { cycles = t.cycles; unavailable_entities = t.unavailable }
