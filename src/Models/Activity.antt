-- ===== src/Models/Activity.antt =====
-- `ActivityEvent.as_dict` of models.py, the values of its enumerations, and the data that
-- controller.py gives to its activities.
use ha_runtime_auto_off.Prelude.{String}
use ha_runtime_auto_off.Models.{
  ShutdownKind, Status, ActivityEventType, ActivityData, ActivityEvent,
}
use ha_runtime_auto_off.Models.Values.{bool, text, array, object, Fields, end, field, DatetimeText}
use ha_runtime_auto_off.Models.Execution.{text_items, text_fields}

abbrev pub status_value : Status → String
status_value Status.initializing = "initializing"
status_value Status.disabled = "disabled"
status_value Status.idle = "idle"
status_value Status.countdown = "countdown"
status_value Status.waiting_condition = "waiting_condition"
status_value Status.executing = "executing"
status_value Status.completed = "completed"
status_value Status.sensor_unavailable = "sensor_unavailable"
status_value Status.error = "error"

abbrev pub kind_value : ShutdownKind → String
kind_value ShutdownKind.initial = "initial"
kind_value ShutdownKind.retry = "retry"

abbrev pub event_type_value : ActivityEventType → String
event_type_value ActivityEventType.scheduled = "scheduled"
event_type_value ActivityEventType.cancelled = "cancelled"
event_type_value ActivityEventType.executed = "executed"
event_type_value ActivityEventType.no_action = "no_action"
event_type_value ActivityEventType.failed = "failed"

module _ (dt : DatetimeText) where
  -- The dictionaries of `_reconcile_locked`, of a cancellation and of an execution.
  unfoldable pub activity_data : ActivityData → Fields
  activity_data (ActivityData.schedule trigger started due is_retry) =
      field "trigger_entity" (text trigger) (
        field "started_at" (text (dt.isoformat started))
          (field "deadline" (text (dt.isoformat due)) (field "is_retry" (bool is_retry) end)))
  activity_data (ActivityData.reason why) = field "reason" (text why) end
  activity_data (ActivityData.report trigger started is_retry successful skipped failures) =
      field "trigger_entity" (text trigger) (
        field "trigger_started_at" (text (dt.isoformat started)) (
          field "is_retry" (bool is_retry) (
            field "successful_entities" (array (text_items successful)) (
              field "skipped_entities" (object (text_fields skipped))
                (field "failed_entities" (object (text_fields failures)) end)))))

  unfoldable pub activity_as_dict : ActivityEvent → Fields
  activity_as_dict a = field "event_type" (text (event_type_value a.event_type)) (
      field "occurred_at" (text (dt.isoformat a.occurred_at))
        (field "data" (object (activity_data a.content)) end))
