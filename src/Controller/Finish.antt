-- ===== src/Controller/Finish.antt =====
-- `_async_execute` and `_async_execute_serialized` of controller.py around the loop over the
-- targets: the stretches under the lock, before it, behind it and after a cancellation.
pub mod Followup
pub mod Blocked
use ha_runtime_auto_off.Prelude.{
  ℕ, String, Bool, true, false, not, ◌&&◌, ◌||◌, Option, none, some, List, [], ◌∷◌, ◌++◌, ◌==◌,
  Dict, map_values, is_empty, is_some, max, if◌then◌else◌,
}
use ha_runtime_auto_off.Hass.{Hass}
use ha_runtime_auto_off.Models.{
  RuleConfig, LastExecution, Status, ActivityEvent, ActivityEventType, ActivityData,
}
use ha_runtime_auto_off.Models.Values.{DatetimeText}
use ha_runtime_auto_off.Controller.{Controller, ExecutionPlan}
use ha_runtime_auto_off.Controller.Errors.{shabbat_block_reason}
use ha_runtime_auto_off.Controller.Deadline.{schedule_deadline}
use ha_runtime_auto_off.Controller.Sync.{sync_cycles}
use ha_runtime_auto_off.Controller.Rearm.{Rearmed, rearm_interrupted}
use ha_runtime_auto_off.Controller.Reconcile.{
  Reconciled, new_activity, unclaim, reconcile, nothing_due,
}
use ha_runtime_auto_off.Controller.Save.{Saved, save}
use ha_runtime_auto_off.Controller.Handlers.{
  Effect, notify, publish, Outcome, Reading, store_effects, publish_effects, conclude,
  note_activity,
}
use ha_runtime_auto_off.Controller.Execute.{Turn, Tally, no_tally, turn_off_targets}

abbrev pub unclaim_all : Controller → Controller
unclaim_all c = record c { cycles = map_values unclaim c.cycles }

abbrev pub execution_of : ExecutionPlan → ℕ → Tally → LastExecution
execution_of plan occurred t = record {
  trigger_entity = plan.trigger_entity;
  occurred_at = occurred;
  successful_entities = t.successful;
  skipped_entities = t.skipped;
  failed_entities = t.failures;
}

abbrev pub execution_status : Tally → Status
execution_status t = if is_empty t.failures then Status.completed else Status.error

abbrev pub execution_type : Tally → ActivityEventType
execution_type t =
    if not (is_empty t.failures)
    then ActivityEventType.failed
    else if is_empty t.successful
    then ActivityEventType.no_action
    else ActivityEventType.executed

abbrev pub execution_event : ExecutionPlan → ℕ → Tally → ActivityEvent
execution_event plan stamp t = new_activity (execution_type t) stamp (
    ActivityData.report plan.trigger_entity plan.trigger_started_at plan.is_retry t.successful
      t.skipped t.failures)

-- The controller behind the loop, before the follow-up is looked for. `w.now` is `occurred_at`.
unfoldable pub record_execution : Reading → ExecutionPlan → Tally → Controller → Controller
record_execution w plan t c =
    let base = max w.now plan.claimed_at in
    let synced = sync_cycles w.hass w.sync_now none c in
    record (rearm_interrupted base synced).controller {
      last_execution = some (execution_of plan w.now t);
      status = execution_status t;
      last_activity = some (execution_event plan w.stamp t);
    }

-- The reconciling at the end; `stamp` is the time of its activity.
unfoldable pub follow_up : Reading → ℕ → ExecutionPlan → Controller → Reconciled
follow_up w stamp plan c =
    if not (is_empty c.cycles) && not (c.config.retry_interval_seconds == 0) && not c.unloaded
    then reconcile w.hass (max w.now plan.claimed_at) stamp c
    else nothing_due c

-- What one execution meets: Home Assistant at the first check, the reading of the blocked
-- stretch, the targets' turns, and the reading of the last stretch.
pub record Round : Type 0 where
  pub gate : Hass
  pub blocked : Reading
  pub world : String → Turn
  pub last : Reading
  pub followup_stamp : ℕ

-- The cancelled execution's plan is made again, and waits for the timer.
unfoldable pub rescheduled : ℕ → Reconciled → Controller
rescheduled now r =
    if is_some r.plan then schedule_deadline now (unclaim_all r.controller) else r.controller

-- The reconciling after a cancellation, if a claimed cycle was armed again.
unfoldable pub reconcile_armed : Reading → ℕ → Rearmed → Reconciled
reconcile_armed w now armed =
    if armed.rearmed && not armed.controller.unloaded
    then reconcile w.hass now w.stamp armed.controller
    else nothing_due armed.controller

module _ (dt : DatetimeText) where
  -- The stretch under the lock for a rule that is blocked before the loop. The result of the
  -- reconciling is not used.
  unfoldable pub execute_blocked : Reading → Controller → Outcome
  execute_blocked w c =
      conclude none none
        (save dt false w.store_ok (reconcile w.hass w.now w.stamp (unclaim_all c)).controller)

  -- The stretch under the lock behind the loop, and what is published. A failing store is logged.
  unfoldable pub finish_execution : Reading → ℕ → ExecutionPlan → Tally → Controller → Outcome
  finish_execution w stamp plan t c =
      let r = follow_up w stamp plan (record_execution w plan t c) in
      let saved = save dt true w.store_ok r.controller in
      record {
        controller = saved.controller;
        effects =
            store_effects saved.stored
            ++ notify ∷ publish (execution_event plan w.stamp t) ∷ publish_effects r.activity;
        plan = r.plan;
        raised = false;
      }

  -- `_async_execute_serialized` without the call for the follow-up plan, which is in the outcome;
  -- nothing else writes the controller in between.
  unfoldable pub execute_round : Round → ExecutionPlan → Controller → Outcome
  execute_round round plan c =
      let t = turn_off_targets c round.world plan.target_entities no_tally in
      if is_some (shabbat_block_reason c round.gate)
      then execute_blocked round.blocked c
      else finish_execution round.last round.followup_stamp plan t c

  -- `except asyncio.CancelledError` of `_async_execute`. `w.now` is the time read.
  unfoldable pub execution_cancelled : Reading → ExecutionPlan → Controller → Outcome
  execution_cancelled w plan c =
      let now = max w.now plan.claimed_at in
      let armed = rearm_interrupted now (sync_cycles w.hass w.sync_now none c) in
      let r = reconcile_armed w now armed in
      let saved = save dt true w.store_ok (rescheduled now r) in
      record {
        controller = saved.controller;
        effects = publish_effects r.activity ++ store_effects saved.stored ++ notify ∷ [];
        plan = none;
        raised = true;
      }
