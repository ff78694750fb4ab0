-- ===== src/Controller/Starts/Tracked.antt =====
-- What the steps of controller.py never change: the configuration, and the keys of the entities.
use ha_runtime_auto_off.Prelude.{
  ℕ, String, ◌≡◌, ◌≢◌, refl, sym, ap, subst, ◌∙◌, Bool, false, Option, none, some, List, [], ◌∷◌,
  All, get, arith, max,
}
use ha_runtime_auto_off.Models.{RuntimeCycle, RuleConfig}
use ha_runtime_auto_off.Models.Values.{DatetimeText}
use ha_runtime_auto_off.Controller.{Controller, ExecutionPlan}
use ha_runtime_auto_off.Controller.Deadline.{cancel_deadline, schedule_deadline}
use ha_runtime_auto_off.Controller.Sync.{StateEvent, sync_cycles}
use ha_runtime_auto_off.Controller.Sync.Cycles.{Tracks}
use ha_runtime_auto_off.Controller.Rearm.{rearm_interrupted}
use ha_runtime_auto_off.Hass.{Hass}
use ha_runtime_auto_off.Controller.Reconcile.{
  pending, count_down, claim_due, reconcile_pending, reconcile,
}
use ha_runtime_auto_off.Controller.Save.{save}
use ha_runtime_auto_off.Controller.Handlers.{
  Reading, stop_begin, stop_locked, unload_end, async_started, resume_until_execution, resume_begin,
  resume_armed, resume_end, rollback_resume, rollback_failed_setup,
}
use ha_runtime_auto_off.Controller.Events.{
  inhibit, enable, disable, set_enabled_locked, state_changed_starting, state_changed_running,
  async_state_changed, async_deadline_reached,
}
use ha_runtime_auto_off.Controller.Execute.{Tally}
use ha_runtime_auto_off.Controller.Finish.{
  unclaim_all, record_execution, follow_up, rescheduled, reconcile_armed, execute_blocked,
  finish_execution, execution_cancelled,
}

-- The two controllers have the same configuration and the same keys.
abbrev pub SameRule : Controller → Controller → Type 0
SameRule c d = (d.config ≡ c.config) × (d.stable_key_by_entity ≡ c.stable_key_by_entity)

pub Tracks-same :
    (c d : Controller) (k e : String)
    → d.config ≡ c.config
    → d.stable_key_by_entity ≡ c.stable_key_by_entity
    → Tracks c k e
    → Tracks d k e
Tracks-same c d k e config keys track = record {
  earlier = track.earlier;
  later = track.later;
  entities = ap RuleConfig.entities config ∙ track.entities;
  key = ap (get e) keys ∙ track.key;
  none_earlier =
      subst (λ table. All (λ x. get x table ≢ some k) track.earlier) (sym keys) track.none_earlier;
  none_later =
      subst (λ table. All (λ x. get x table ≢ some k) track.later) (sym keys) track.none_later;
}

reconcile_pending-SameRule :
    (now stamp : ℕ) (ps : List RuntimeCycle) (c : Controller)
    → SameRule c (reconcile_pending now stamp ps c).controller
unfolding reconcile_pending claim_due cancel_deadline count_down schedule_deadline
reconcile_pending-SameRule now stamp [] c = (refl, refl)
reconcile_pending-SameRule now stamp (p ∷ ps) c = ground arith

reconcile-SameRule :
    (hass : Hass) (now stamp : ℕ) (c : Controller)
    → SameRule c (reconcile hass now stamp c).controller
unfolding reconcile cancel_deadline
reconcile-SameRule hass now stamp c =
    ground (arith, reconcile_pending-SameRule now stamp (pending c) c)

sync_cycles-SameRule :
    (hass : Hass) (now : ℕ) (event : Option StateEvent) (c : Controller)
    → SameRule c (sync_cycles hass now event c)
unfolding sync_cycles
sync_cycles-SameRule hass now event c = (refl, refl)

rearm_interrupted-SameRule :
    (now : ℕ) (c : Controller) → SameRule c (rearm_interrupted now c).controller
unfolding rearm_interrupted
rearm_interrupted-SameRule now c = ground arith

save-SameRule :
    (dt : DatetimeText) (force ok : Bool) (c : Controller)
    → SameRule c (save dt force ok c).controller
unfolding save
save-SameRule dt force ok c = ground arith

module _ (dt : DatetimeText) (w : Reading) (c : Controller) where
  synced-SameRule :
      (event : Option StateEvent) (m : Controller)
      → SameRule c m
      → SameRule c
          (reconcile w.hass w.now w.stamp (sync_cycles w.hass w.sync_now event m)).controller
  synced-SameRule event m same =
      let r = reconcile-SameRule w.hass w.now w.stamp (sync_cycles w.hass w.sync_now event m) in
      let s = sync_cycles-SameRule w.hass w.sync_now event m in
      (r.0 ∙ s.0 ∙ same.0, r.1 ∙ s.1 ∙ same.1)

  pub state_changed-SameRule :
      (event : StateEvent) → SameRule c (async_state_changed dt w event c).controller
  unfolding async_state_changed state_changed_starting state_changed_running save
  state_changed-SameRule event = ground (
    arith,
    synced-SameRule (some event) c (refl, refl),
    sync_cycles-SameRule w.hass w.sync_now (some event) c,
  )

  pub deadline_reached-SameRule :
      (generation : ℕ) → SameRule c (async_deadline_reached dt generation w c).controller
  unfolding async_deadline_reached save
  deadline_reached-SameRule generation = ground (
    arith,
    synced-SameRule none (record c { unsub_deadline = none; next_deadline = none }) (refl, refl),
  )

  pub set_enabled-SameRule :
      (enabled : Bool) → SameRule c (set_enabled_locked dt w enabled c).controller
  unfolding set_enabled_locked enable disable cancel_deadline save
  set_enabled-SameRule enabled = ground (
    arith,
    synced-SameRule none (record c { enabled = enabled; action_inhibited = false }) (refl, refl),
  )

  pub started-SameRule : SameRule c (async_started dt w c).controller
  unfolding async_started save
  started-SameRule =
      let m = record c { unsub_started = false; starting = false } in
      let s = sync_cycles w.hass w.sync_now none m in
      let armed = rearm_interrupted-SameRule w.now s in
      let r = reconcile-SameRule w.hass w.now w.stamp (rearm_interrupted w.now s).controller in
      ground (arith, sync_cycles-SameRule w.hass w.sync_now none m, armed, r)

  resume_armed-SameRule : (at : ℕ) (d : Controller) → SameRule d (resume_armed at d)
  unfolding resume_armed
  resume_armed-SameRule at d =
      ground (arith, rearm_interrupted-SameRule at (record d { starting = false }))

  pub resume-SameRule : (at : ℕ) → SameRule c (resume_until_execution dt at w c).controller
  unfolding resume_until_execution resume_begin resume_end rollback_resume cancel_deadline save
  resume-SameRule at =
      let m = resume_begin c in
      let s = sync_cycles w.hass w.sync_now none m in
      let armed = resume_armed-SameRule at s in
      let r = reconcile-SameRule w.hass w.now w.stamp (resume_armed at s) in
      ground (arith, sync_cycles-SameRule w.hass w.sync_now none m, armed, r)

  pub blocked-SameRule : SameRule c (execute_blocked dt w c).controller
  unfolding execute_blocked save
  blocked-SameRule = ground (arith, reconcile-SameRule w.hass w.now w.stamp (unclaim_all c))

  pub finished-SameRule :
      (stamp : ℕ) (plan : ExecutionPlan) (t : Tally)
      → SameRule c (finish_execution dt w stamp plan t c).controller
  unfolding finish_execution record_execution follow_up save
  finished-SameRule stamp plan t =
      let base = max w.now plan.claimed_at in
      let s = sync_cycles w.hass w.sync_now none c in
      ground (
        arith,
        sync_cycles-SameRule w.hass w.sync_now none c,
        rearm_interrupted-SameRule base s,
        reconcile-SameRule w.hass base stamp (record_execution w plan t c),
      )

  pub cancelled-SameRule :
      (plan : ExecutionPlan) → SameRule c (execution_cancelled dt w plan c).controller
  unfolding execution_cancelled rescheduled reconcile_armed schedule_deadline cancel_deadline save
  cancelled-SameRule plan =
      let now = max w.now plan.claimed_at in
      let s = sync_cycles w.hass w.sync_now none c in
      let armed = rearm_interrupted now s in
      ground (
        arith,
        sync_cycles-SameRule w.hass w.sync_now none c,
        rearm_interrupted-SameRule now s,
        reconcile-SameRule w.hass now w.stamp armed.controller,
      )

module _ (dt : DatetimeText) (c : Controller) where
  pub stopping-SameRule : SameRule c (stop_begin c)
  unfolding stop_begin
  stopping-SameRule = ground arith

  pub stop-SameRule : (ok : Bool) → SameRule c (stop_locked dt ok c).controller
  unfolding stop_locked cancel_deadline save
  stop-SameRule ok = ground arith

  pub unload-SameRule : SameRule c (unload_end c)
  unfolding unload_end
  unload-SameRule = (refl, refl)

  pub setup_failed-SameRule : SameRule c (rollback_failed_setup c)
  unfolding rollback_failed_setup cancel_deadline
  setup_failed-SameRule = ground arith

  pub resume_failed-SameRule : SameRule c (rollback_resume c)
  unfolding rollback_resume cancel_deadline
  resume_failed-SameRule = ground arith

  pub inhibit-SameRule : (enabled : Bool) → SameRule c (inhibit enabled c)
  unfolding inhibit
  inhibit-SameRule enabled = ground arith
