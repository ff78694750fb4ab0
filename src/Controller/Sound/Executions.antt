-- ===== src/Controller/Sound/Executions.antt =====
-- The stretches of an execution under the lock keep the invariant.
use ha_runtime_auto_off.Prelude.{ℕ, true, false, none, max, arith}
use ha_runtime_auto_off.Models.Values.{DatetimeText}
use ha_runtime_auto_off.Controller.{Controller, ExecutionPlan}
use ha_runtime_auto_off.Controller.Deadline.{schedule_deadline}
use ha_runtime_auto_off.Controller.Sync.{sync_cycles}
use ha_runtime_auto_off.Controller.Rearm.{Rearmed, rearm_interrupted}
use ha_runtime_auto_off.Controller.Reconcile.{Reconciled}
use ha_runtime_auto_off.Controller.Timed.{schedule_deadline-IsTimed}
use ha_runtime_auto_off.Controller.Sound.{
  IsSound, IsSound-IsReady, sync_cycles-IsSound, rearm_interrupted-IsSound, save-IsSound,
  reconcile-IsSound, unclaim_all-IsKeyed,
}
use ha_runtime_auto_off.Controller.Sound.Methods.{reconcile-save-IsSound}
use ha_runtime_auto_off.Controller.Handlers.{Reading}
use ha_runtime_auto_off.Controller.Execute.{Tally}
use ha_runtime_auto_off.Controller.Finish.{
  unclaim_all, record_execution, follow_up, execute_blocked, finish_execution, rescheduled,
  reconcile_armed, execution_cancelled,
}

unclaim_all-IsSound : (c : Controller) → IsSound c → IsSound (unclaim_all c)
unclaim_all-IsSound c h = record {
  keyed = unclaim_all-IsKeyed c.cycles h.keyed;
  timed = record { armed = h.timed.armed; kinded = h.timed.kinded };
}

schedule_deadline-cycles :
    (due : ℕ) (c : Controller) → IsSound c → IsSound (schedule_deadline due c)
unfolding schedule_deadline
schedule_deadline-cycles due c h =
    let timed = schedule_deadline-IsTimed due c h.timed in ground (arith, timed)

rearmed-IsSound :
    (w : Reading) (now : ℕ) (c : Controller)
    → IsSound c
    → IsSound (rearm_interrupted now (sync_cycles w.hass w.sync_now none c)).controller
rearmed-IsSound w now c h =
    rearm_interrupted-IsSound now (sync_cycles w.hass w.sync_now none c)
      (sync_cycles-IsSound w.hass w.sync_now none c h)

record_execution-IsSound :
    (w : Reading) (plan : ExecutionPlan) (t : Tally) (c : Controller)
    → IsSound c
    → IsSound (record_execution w plan t c)
unfolding record_execution
record_execution-IsSound w plan t c h =
    let s = rearmed-IsSound w (max w.now plan.claimed_at) c h in
    record { keyed = s.keyed; timed = record { armed = s.timed.armed; kinded = s.timed.kinded } }

follow_up-IsSound :
    (w : Reading) (stamp : ℕ) (plan : ExecutionPlan) (c : Controller)
    → IsSound c
    → IsSound (follow_up w stamp plan c).controller
unfolding follow_up
follow_up-IsSound w stamp plan c h =
    let after = reconcile-IsSound w.hass (max w.now plan.claimed_at) stamp c (IsSound-IsReady h) in
    ground (arith, after)

rescheduled-IsSound :
    (now : ℕ) (r : Reconciled) → IsSound r.controller → IsSound (rescheduled now r)
unfolding rescheduled
rescheduled-IsSound now r h =
    let after =
      schedule_deadline-cycles now (unclaim_all r.controller)
        (unclaim_all-IsSound r.controller h) in
    ground (arith, after)

reconcile_armed-IsSound :
    (w : Reading) (now : ℕ) (armed : Rearmed)
    → IsSound armed.controller
    → IsSound (reconcile_armed w now armed).controller
unfolding reconcile_armed
reconcile_armed-IsSound w now armed h =
    let after = reconcile-IsSound w.hass now w.stamp armed.controller (IsSound-IsReady h) in
    ground (arith, after)

module _ (dt : DatetimeText) (w : Reading) where
  pub execute_blocked-IsSound :
      (c : Controller) → IsSound c → IsSound (execute_blocked dt w c).controller
  unfolding execute_blocked
  execute_blocked-IsSound c h =
      let after =
        reconcile-save-IsSound dt w false (unclaim_all c)
          (IsSound-IsReady (unclaim_all-IsSound c h)) in
      ground (arith, after)

  pub finish_execution-IsSound :
      (stamp : ℕ) (plan : ExecutionPlan) (t : Tally) (c : Controller)
      → IsSound c
      → IsSound (finish_execution dt w stamp plan t c).controller
  unfolding finish_execution
  finish_execution-IsSound stamp plan t c h =
      save-IsSound dt true w.store_ok
        (follow_up w stamp plan (record_execution w plan t c)).controller
        (follow_up-IsSound w stamp plan (record_execution w plan t c)
          (record_execution-IsSound w plan t c h))

  pub execution_cancelled-IsSound :
      (plan : ExecutionPlan) (c : Controller)
      → IsSound c
      → IsSound (execution_cancelled dt w plan c).controller
  unfolding execution_cancelled
  execution_cancelled-IsSound plan c h =
      let now = max w.now plan.claimed_at in
      let armed = rearm_interrupted now (sync_cycles w.hass w.sync_now none c) in
      save-IsSound dt true w.store_ok (rescheduled now (reconcile_armed w now armed)) (
        rescheduled-IsSound now (reconcile_armed w now armed)
          (reconcile_armed-IsSound w now armed (rearmed-IsSound w now c h)))
