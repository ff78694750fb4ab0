-- ===== src/Controller/Errors.antt =====
-- `_identity_or_area_error`, `_target_runtime_error` and `_shabbat_block_reason` of controller.py.
pub mod Shabbat
use ha_runtime_auto_off.Prelude.{
  String, Bool, true, false, not, ◌&&◌, ◌||◌, Option, none, some, Dict, get, join, str_eq,
  opt_str_eq, if◌then◌else◌,
}
use ha_runtime_auto_off.Hass.{HaState, RegistryEntry, Hass}
use ha_runtime_auto_off.Helpers.{effective_area_id}
use ha_runtime_auto_off.Models.{RuleConfig}
use ha_runtime_auto_off.Controller.{Controller}

-- `entry.platform in RULE_CONTROL_PLATFORMS`
abbrev pub is_rule_control : String → Bool
is_rule_control p = str_eq p "presence_auto_off" || str_eq p "runtime_auto_off"

-- `state.state in (STATE_UNKNOWN, STATE_UNAVAILABLE)`
abbrev pub is_lost : String → Bool
is_lost s = str_eq s "unknown" || str_eq s "unavailable"

abbrev pub is_off : String → Bool
is_off s = str_eq s "off"

-- The checks on an entry whose identity is the expected one.
unfoldable pub entry_error : Controller → Hass → RegistryEntry → Option String
entry_error c hass entry =
    if is_rule_control entry.platform
    then some "rule_control_target"
    else if entry.disabled
    then some "disabled"
    else if opt_str_eq (effective_area_id hass entry) c.config.area_id
    then none
    else some "out_of_area"

abbrev identity_error : Controller → Hass → Option String → Option RegistryEntry → Option String
identity_error c hass (some expected) none = some "missing_registry_entry"
identity_error c hass (some expected) (some entry) =
    if str_eq entry.id expected then entry_error c hass entry else some "entity_identity_changed"
identity_error c hass none (some entry) = some "entity_identity_changed"
identity_error c hass none none = none

unfoldable pub identity_or_area_error : Controller → Hass → String → Option String
unfolding get entry_error
identity_or_area_error c hass e =
    identity_error c hass (join (get e c.registry_id_by_entity)) (hass.registry e)

-- The last checks of `_target_runtime_error`, on the entity's state.
abbrev state_error : Option HaState → Option String
state_error none = some "missing_state"
state_error (some s) =
    if is_lost s.state then some s.state else if is_off s.state then some "already_off" else none

unfoldable pub target_runtime_error : Controller → Hass → String → Option String
unfolding identity_or_area_error
target_runtime_error c hass e = elim (identity_or_area_error c hass e) [
  | some error ↦ some error
  | none ↦
      if hass.has_service (hass.domain e) "turn_off"
      then state_error (hass.states e)
      else some "unsupported_service"
]

-- The registry no longer has the sensor that the rule was set up with.
abbrev pub shabbat_changed : Option RegistryEntry → Option String → Bool
shabbat_changed none none = false
shabbat_changed none (some id) = true
shabbat_changed (some entry) known = entry.disabled || not (opt_str_eq (some entry.id) known)

abbrev pub shabbat_state : Option HaState → Option String
shabbat_state none = some "sensor_unavailable"
shabbat_state (some s) =
    if not (str_eq s.state "on" || is_off s.state)
    then some "sensor_unavailable"
    else if str_eq s.state "on"
    then some "shabbat_or_holiday"
    else none

unfoldable pub shabbat_block_reason : Controller → Hass → Option String
shabbat_block_reason c hass = elim c.config.shabbat_entity [
  | none ↦ none
  | some e ↦
      if shabbat_changed (hass.registry e) c.shabbat_registry_id
      then some "sensor_unavailable"
      else shabbat_state (hass.states e)
]
