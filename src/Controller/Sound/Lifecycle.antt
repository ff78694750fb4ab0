-- ===== src/Controller/Sound/Lifecycle.antt =====
-- Setup, start, stop, unload and resume keep the invariant.
use ha_runtime_auto_off.Prelude.{ℕ, refl, Bool, true, false, Option, none, some, arith}
use ha_runtime_auto_off.Models.Values.{DatetimeText, Fields}
use ha_runtime_auto_off.Controller.{Controller}
use ha_runtime_auto_off.Controller.Deadline.{cancel_deadline}
use ha_runtime_auto_off.Controller.Sync.{sync_cycles}
use ha_runtime_auto_off.Controller.Rearm.{rearm_interrupted, apply_retry_interval_change}
use ha_runtime_auto_off.Controller.Reconcile.{Reconciled, reconcile}
use ha_runtime_auto_off.Controller.Save.{Saved, save, restore}
use ha_runtime_auto_off.Controller.Sound.{
  IsSound, IsReady, IsSound-IsReady, sync_cycles-IsReady, rearm_interrupted-IsReady, save-IsSound,
}
use ha_runtime_auto_off.Controller.Sound.Storage.{
  restore-IsSound, apply_retry_interval_change-IsSound,
}
use ha_runtime_auto_off.Controller.Sound.Methods.{
  rollback_failed_setup-IsSound, rearm_reconcile-IsSound, setup_running-IsSound,
  cancel_deadline-IsSound, reconcile-save-IsSound,
}
use ha_runtime_auto_off.Controller.Handlers.{
  Reading, subscribe, setup_starting, setup_until_execution, async_started, stop_begin, stop_locked,
  unload_end, rollback_resume, rollback_failed_setup, resume_begin, resume_armed, resume_end,
  resume_until_execution,
}

pub stop_begin-IsSound : (c : Controller) → IsSound c → IsSound (stop_begin c)
unfolding stop_begin
stop_begin-IsSound c h = ground arith

pub unload_end-IsSound : (c : Controller) → IsSound c → IsSound (unload_end c)
unfolding unload_end
unload_end-IsSound c h = record {
  keyed = h.keyed;
  timed = record { armed = h.timed.armed; kinded = h.timed.kinded };
}

pub rollback_resume-IsSound : (c : Controller) → IsSound c → IsSound (rollback_resume c)
unfolding rollback_resume cancel_deadline
rollback_resume-IsSound c h = record {
  keyed = h.keyed;
  timed = record { armed = refl; kinded = λ k. k };
}

pub failed_setup-IsSound : (c : Controller) → IsSound (rollback_failed_setup c)
unfolding rollback_failed_setup cancel_deadline
failed_setup-IsSound c = record { keyed = tt; timed = record { armed = refl; kinded = λ k. k } }

pub stop_locked-IsSound :
    (dt : DatetimeText) (store_ok : Bool) (c : Controller)
    → IsSound c
    → IsSound (stop_locked dt store_ok c).controller
unfolding stop_locked
stop_locked-IsSound dt store_ok c h =
    save-IsSound dt true store_ok (cancel_deadline c) (cancel_deadline-IsSound c h)

module _ (dt : DatetimeText) (w : Reading) where
  setup_starting-IsSound : (c : Controller) → IsSound c → IsSound (setup_starting dt c).controller
  unfolding setup_starting
  setup_starting-IsSound c h = record {
    keyed = h.keyed;
    timed = record { armed = h.timed.armed; kinded = h.timed.kinded };
  }

  pub setup_until_execution-IsSound :
      (stored : Option (Option Fields)) (interval_now : ℕ) (c : Controller)
      → IsSound c
      → IsSound (setup_until_execution dt stored interval_now w c).controller
  unfolding setup_until_execution
  setup_until_execution-IsSound none interval_now c h = rollback_failed_setup-IsSound dt w c
  setup_until_execution-IsSound (some stored) interval_now c h =
      let c' : Controller = record (subscribe c) { unloaded = false } in
      let sound : IsSound c' = record {
        keyed = h.keyed;
        timed = record { armed = h.timed.armed; kinded = h.timed.kinded };
      } in
      let restored = restore-IsSound dt stored c' sound in
      let changed =
        apply_retry_interval_change-IsSound interval_now (restore dt stored c') restored in
      let d = (apply_retry_interval_change interval_now (restore dt stored c')).controller in
      let back = rollback_failed_setup-IsSound dt w d in
      let starting = setup_starting-IsSound d changed in
      let running = setup_running-IsSound dt w d (IsSound-IsReady changed) in
      ground (arith, back, starting, running)

  pub async_started-IsSound :
      (c : Controller) → IsSound c → IsSound (async_started dt w c).controller
  unfolding async_started
  async_started-IsSound c h =
      let c' : Controller = record c { unsub_started = false } in
      let d : Controller = record c' { starting = false } in
      let early : IsSound c' = record {
        keyed = h.keyed;
        timed = record { armed = h.timed.armed; kinded = h.timed.kinded };
      } in
      let ready : IsReady d = record { keyed = h.keyed; armed = h.timed.armed } in
      let r =
        reconcile w.hass w.now w.stamp
          (rearm_interrupted w.now (sync_cycles w.hass w.sync_now none d)).controller in
      let after =
        save-IsSound dt true w.store_ok r.controller (rearm_reconcile-IsSound dt w d ready) in
      ground (arith, early, after)

  resume_begin-IsSound : (c : Controller) → IsSound c → IsSound (resume_begin c)
  unfolding resume_begin
  resume_begin-IsSound c h = record {
    keyed = h.keyed;
    timed = record { armed = h.timed.armed; kinded = h.timed.kinded };
  }

  resume_armed-IsReady : (now : ℕ) (c : Controller) → IsReady c → IsReady (resume_armed now c)
  unfolding resume_armed
  resume_armed-IsReady now c h =
      let d : Controller = record c { starting = false } in
      let ready : IsReady d = record { keyed = h.keyed; armed = h.armed } in
      let after = rearm_interrupted-IsReady now d ready in ground (arith, after)

  resume_end-IsSound :
      (r : Reconciled) (saved : Saved)
      → IsSound saved.controller
      → IsSound (resume_end r saved).controller
  unfolding resume_end
  resume_end-IsSound r saved h =
      let back = rollback_resume-IsSound saved.controller h in ground (arith, back)

  pub resume_until_execution-IsSound :
      (rearm_now : ℕ) (c : Controller)
      → IsSound c
      → IsSound (resume_until_execution dt rearm_now w c).controller
  unfolding resume_until_execution
  resume_until_execution-IsSound rearm_now c h =
      let begun = resume_begin-IsSound c h in
      let waiting : IsSound (record (resume_begin c) { unsub_started = true }) = record {
        keyed = begun.keyed;
        timed = record { armed = begun.timed.armed; kinded = begun.timed.kinded };
      } in
      let ready =
        sync_cycles-IsReady w.hass w.sync_now none (resume_begin c) (IsSound-IsReady begun) in
      let armed = resume_armed rearm_now (sync_cycles w.hass w.sync_now none (resume_begin c)) in
      let armed_ready =
        resume_armed-IsReady rearm_now (sync_cycles w.hass w.sync_now none (resume_begin c))
          ready in
      let r = reconcile w.hass w.now w.stamp armed in
      let after =
        resume_end-IsSound r (save dt false w.store_ok r.controller)
          (reconcile-save-IsSound dt w false armed armed_ready) in
      ground (arith, waiting, after)
