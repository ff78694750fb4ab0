-- ===== src/Controller/Starts/Kept.antt =====
-- The methods of controller.py that read the states, and the starts of the clocks.
use ha_runtime_auto_off.Prelude.{
  ℕ, String, ◌≡◌, refl, sym, subst, ◌∙◌, Bool, false, Option, none, some, arith, max,
}
use ha_runtime_auto_off.Models.Values.{DatetimeText}
use ha_runtime_auto_off.Controller.{Controller, ExecutionPlan}
use ha_runtime_auto_off.Controller.Deadline.{cancel_deadline, schedule_deadline}
use ha_runtime_auto_off.Controller.Sync.{StateEvent, sync_cycles}
use ha_runtime_auto_off.Controller.Sync.Cycles.{Tracks}
use ha_runtime_auto_off.Controller.Rearm.{Rearmed, rearm_interrupted}
use ha_runtime_auto_off.Controller.Reconcile.{Reconciled, reconcile}
use ha_runtime_auto_off.Controller.Save.{save}
use ha_runtime_auto_off.Controller.Handlers.{
  Reading, async_started, resume_until_execution, resume_begin, resume_armed, resume_end,
  rollback_resume,
}
use ha_runtime_auto_off.Controller.Events.{
  enable, disable, set_enabled_locked, state_changed_starting, state_changed_running,
  async_state_changed, async_deadline_reached,
}
use ha_runtime_auto_off.Controller.Execute.{Tally}
use ha_runtime_auto_off.Controller.Finish.{
  unclaim_all, record_execution, follow_up, rescheduled, reconcile_armed, execute_blocked,
  finish_execution, execution_cancelled,
}
use ha_runtime_auto_off.Controller.Starts.Tracked.{Tracks-same}
use ha_runtime_auto_off.Controller.Starts.{
  start_of, IsKept, IsKept-refl, start_of-rearm_interrupted, start_of-reconcile, start_of-unclaim,
  sync_cycles-IsKept,
}

module _ (dt : DatetimeText) (w : Reading) (c : Controller) (k e : String)
    (track : Tracks c k e) where
  abbrev pub Keeps : Controller → Type 0
  Keeps d = IsKept (start_of k c.cycles) (start_of k d.cycles)

  same_cycles : (d : Controller) → start_of k d.cycles ≡ start_of k c.cycles → Keeps d
  same_cycles d same =
      subst (IsKept (start_of k c.cycles)) (sym same) (IsKept-refl (start_of k c.cycles))

  -- The states are read by a controller that differs from `c` in its flags.
  synced :
      (event : Option StateEvent) (d m : Controller)
      → m.cycles ≡ c.cycles
      → m.config ≡ c.config
      → m.stable_key_by_entity ≡ c.stable_key_by_entity
      → start_of k d.cycles ≡ start_of k (sync_cycles w.hass w.sync_now event m).cycles
      → Keeps d
  synced event d m cycles config keys same = subst (IsKept (start_of k c.cycles)) (sym same) (
      subst (λ d. IsKept (start_of k d) (start_of k (sync_cycles w.hass w.sync_now event m).cycles))
        cycles
        (sync_cycles-IsKept w.hass w.sync_now event m k e (Tracks-same c m k e config keys track)))

  -- The same, behind the reconciling, perhaps after the retries were armed.
  decided :
      (event : Option StateEvent) (m n : Controller)
      → m.cycles ≡ c.cycles
      → m.config ≡ c.config
      → m.stable_key_by_entity ≡ c.stable_key_by_entity
      → start_of k n.cycles ≡ start_of k (sync_cycles w.hass w.sync_now event m).cycles
      → (now stamp : ℕ) → Keeps (reconcile w.hass now stamp n).controller
  decided event m n cycles config keys same now stamp =
      synced event (reconcile w.hass now stamp n).controller m cycles config keys
        (start_of-reconcile w.hass now stamp k n ∙ same)

  pub state_changed-Keeps :
      (event : StateEvent) → Keeps (async_state_changed dt w event c).controller
  unfolding async_state_changed state_changed_starting state_changed_running save
  state_changed-Keeps event =
      let s = sync_cycles w.hass w.sync_now (some event) c in
      let read = synced (some event) s c refl refl refl refl in
      let reconciled = decided (some event) c s refl refl refl refl w.now w.stamp in
      let still = same_cycles c refl in ground (arith, read, reconciled, still)

  pub deadline_reached-Keeps :
      (generation : ℕ) → Keeps (async_deadline_reached dt generation w c).controller
  unfolding async_deadline_reached save
  deadline_reached-Keeps generation =
      let m = record c { unsub_deadline = none; next_deadline = none } in
      let reconciled =
        decided none m (sync_cycles w.hass w.sync_now none m) refl refl refl refl w.now w.stamp in
      let still = same_cycles c refl in ground (arith, reconciled, still)

  pub set_enabled-Keeps : (enabled : Bool) → Keeps (set_enabled_locked dt w enabled c).controller
  unfolding set_enabled_locked enable disable cancel_deadline save
  set_enabled-Keeps enabled =
      let m = record c { enabled = enabled; action_inhibited = false } in
      let reconciled =
        decided none m (sync_cycles w.hass w.sync_now none m) refl refl refl refl w.now w.stamp in
      let still = same_cycles c refl in ground (arith, reconciled, still)

  pub started-Keeps : Keeps (async_started dt w c).controller
  unfolding async_started save
  started-Keeps =
      let m = record c { unsub_started = false; starting = false } in
      let s = sync_cycles w.hass w.sync_now none m in
      let reconciled =
        decided none m (rearm_interrupted w.now s).controller refl refl refl
          (start_of-rearm_interrupted w.now k s) w.now w.stamp in
      let still = same_cycles c refl in ground (arith, reconciled, still)

  resume_armed-start :
      (at : ℕ) (d : Controller) → start_of k (resume_armed at d).cycles ≡ start_of k d.cycles
  unfolding resume_armed
  resume_armed-start at d =
      ground (arith, start_of-rearm_interrupted at k (record d { starting = false }))

  pub resume-Keeps : (at : ℕ) → Keeps (resume_until_execution dt at w c).controller
  unfolding resume_until_execution resume_begin resume_end rollback_resume cancel_deadline save
  resume-Keeps at =
      let m = resume_begin c in
      let s = sync_cycles w.hass w.sync_now none m in
      let reconciled =
        decided none m (resume_armed at s) refl refl refl (resume_armed-start at s) w.now w.stamp in
      let still = same_cycles c refl in ground (arith, reconciled, still)

  pub blocked-Keeps : Keeps (execute_blocked dt w c).controller
  unfolding execute_blocked save
  blocked-Keeps =
      let same =
        same_cycles (reconcile w.hass w.now w.stamp (unclaim_all c)).controller (
          start_of-reconcile w.hass w.now w.stamp k (unclaim_all c)
          ∙ start_of-unclaim k c.cycles) in
      ground (arith, same)

  record_execution-start :
      (plan : ExecutionPlan) (t : Tally)
      → start_of k (record_execution w plan t c).cycles
        ≡ start_of k (sync_cycles w.hass w.sync_now none c).cycles
  unfolding record_execution
  record_execution-start plan t =
      start_of-rearm_interrupted (max w.now plan.claimed_at) k
        (sync_cycles w.hass w.sync_now none c)

  follow_up-start :
      (stamp : ℕ) (plan : ExecutionPlan) (d : Controller)
      → start_of k (follow_up w stamp plan d).controller.cycles ≡ start_of k d.cycles
  unfolding follow_up
  follow_up-start stamp plan d =
      ground (arith, start_of-reconcile w.hass (max w.now plan.claimed_at) stamp k d)

  pub finished-Keeps :
      (stamp : ℕ) (plan : ExecutionPlan) (t : Tally)
      → Keeps (finish_execution dt w stamp plan t c).controller
  unfolding finish_execution save
  finished-Keeps stamp plan t =
      let same =
        synced none (follow_up w stamp plan (record_execution w plan t c)).controller c refl refl
          refl
          (follow_up-start stamp plan (record_execution w plan t c)
            ∙ record_execution-start plan t) in
      ground (arith, same)

  rescheduled-start :
      (now : ℕ) (r : Reconciled)
      → start_of k (rescheduled now r).cycles ≡ start_of k r.controller.cycles
  unfolding rescheduled schedule_deadline cancel_deadline
  rescheduled-start now r = ground (arith, start_of-unclaim k r.controller.cycles)

  reconcile_armed-start :
      (now : ℕ) (armed : Rearmed)
      → start_of k (reconcile_armed w now armed).controller.cycles
        ≡ start_of k armed.controller.cycles
  unfolding reconcile_armed
  reconcile_armed-start now armed =
      ground (arith, start_of-reconcile w.hass now w.stamp k armed.controller)

  pub cancelled-Keeps : (plan : ExecutionPlan) → Keeps (execution_cancelled dt w plan c).controller
  unfolding execution_cancelled save
  cancelled-Keeps plan =
      let now = max w.now plan.claimed_at in
      let s = sync_cycles w.hass w.sync_now none c in
      let armed = rearm_interrupted now s in
      let r = reconcile_armed w now armed in
      let same = synced none (rescheduled now r) c refl refl refl (
        rescheduled-start now r
        ∙ reconcile_armed-start now armed
        ∙ start_of-rearm_interrupted now k s) in
      ground (arith, same)
