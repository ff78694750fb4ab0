-- ===== src/Sensors/Diagnostics.antt =====
-- The property `diagnostics` of controller.py, and diagnostics.py.
use ha_runtime_auto_off.Prelude.{ℕ, String, Option, none, some, values, str_eq, if◌then◌else◌}
use ha_runtime_auto_off.Hass.{HaState, Hass}
use ha_runtime_auto_off.Models.{ShutdownKind, ActivityEvent}
use ha_runtime_auto_off.Models.Values.{
  Value, null, bool, text, array, object, Fields, end, field, DatetimeText,
}
use ha_runtime_auto_off.Models.Rule.{as_dict, text_or_null}
use ha_runtime_auto_off.Models.Execution.{text_fields}
use ha_runtime_auto_off.Models.Activity.{status_value, kind_value, activity_as_dict}
use ha_runtime_auto_off.Controller.{Controller}
use ha_runtime_auto_off.Controller.Save.{cycle_items, execution_value}
use ha_runtime_auto_off.Sensors.{sort_by_entity}

abbrev pub state_text : Option HaState → Option String
state_text none = none
state_text (some s) = some s.state

-- The state of the Shabbat sensor, if the rule has one and it is there.
abbrev pub sensor_state : Hass → Option String → Option String
sensor_state hass none = none
sensor_state hass (some e) = if str_eq e "" then none else state_text (hass.states e)

abbrev pub kind_or_null : Option ShutdownKind → Value
kind_or_null none = null
kind_or_null (some k) = text (kind_value k)

module _ (dt : DatetimeText) where
  abbrev pub time_or_null : Option ℕ → Value
  time_or_null none = null
  time_or_null (some t) = text (dt.isoformat t)

  abbrev pub activity_or_null : Option ActivityEvent → Value
  activity_or_null none = null
  activity_or_null (some a) = object (activity_as_dict dt a)

  unfoldable pub diagnostics : Hass → Controller → Fields
  unfolding activity_as_dict as_dict sort_by_entity
  diagnostics hass c = field "entry_id" (text c.entry_id) (
      field "rule_id" (text c.config.rule_id) (
        field "config" (object (as_dict c.config)) (
          field "enabled" (bool c.enabled) (
            field "status" (text (status_value c.status)) (
              field "deadline" (time_or_null c.next_deadline) (
                field "next_shutdown_kind" (kind_or_null c.next_shutdown_kind) (
                  field "trigger_entity" (text_or_null c.trigger_entity) (
                    field "shabbat_sensor_state"
                      (text_or_null (sensor_state hass c.config.shabbat_entity))
                      (field "active_cycles"
                        (array (cycle_items dt (sort_by_entity (values c.cycles))))
                        (field "unavailable_entities" (object (text_fields c.unavailable_entities))
                          (field "last_execution" (execution_value dt c.last_execution) (
                            field "last_activity" (activity_or_null c.last_activity) end))))))))))))

  abbrev pub runtime_value : Hass → Option Controller → Value
  runtime_value hass none = null
  runtime_value hass (some c) = object (diagnostics hass c)

  -- `async_get_config_entry_diagnostics`; an entry that is not set up has no controller.
  unfoldable pub entry_diagnostics :
      (entry_id title : String) (base options : Fields) → Hass → Option Controller → Fields
  unfolding diagnostics
  entry_diagnostics entry_id title base options hass c =
      field "config_entry"
        (object (
          field "entry_id" (text entry_id) (
            field "title" (text title)
              (field "data" (object base) (field "options" (object options) end)))))
        (field "runtime" (runtime_value hass c) end)
