-- ===== src/Controller/Sound/Methods.antt =====
-- Every method and callback of the controller keeps the invariant.
use ha_runtime_auto_off.Prelude.{
  ℕ, refl, Bool, true, false, Option, none, some, arith, Bool-cases, inl, inr,
}
use ha_runtime_auto_off.Models.Values.{DatetimeText}
use ha_runtime_auto_off.Models.{ActivityEvent}
use ha_runtime_auto_off.Controller.{Controller}
use ha_runtime_auto_off.Controller.Deadline.{cancel_deadline}
use ha_runtime_auto_off.Controller.Sync.{StateEvent, sync_cycles}
use ha_runtime_auto_off.Controller.Rearm.{rearm_interrupted}
use ha_runtime_auto_off.Controller.Reconcile.{Reconciled, reconcile}
use ha_runtime_auto_off.Controller.Save.{Saved, save}
use ha_runtime_auto_off.Controller.Timed.{cancel_deadline-IsTimed}
use ha_runtime_auto_off.Controller.Sound.{
  IsSound, IsReady, IsSound-IsReady, sync_cycles-IsReady, rearm_interrupted-IsReady,
  sync_cycles-IsSound, save-IsSound, reconcile-IsSound,
}
use ha_runtime_auto_off.Controller.Handlers.{
  Reading, set_complete, setup_end, note_activity, cancelled_event, rollback_failed_setup,
  setup_running,
}
use ha_runtime_auto_off.Controller.Events.{
  enable, disable, set_enabled_locked, state_changed_starting, state_changed_running,
  async_state_changed, async_deadline_reached,
}

pub cancel_deadline-IsSound : (c : Controller) → IsSound c → IsSound (cancel_deadline c)
unfolding cancel_deadline
cancel_deadline-IsSound c h = record {
  keyed = h.keyed;
  timed = unfold cancel_deadline in cancel_deadline-IsTimed c;
}

module _ (dt : DatetimeText) (w : Reading) where
  -- The chains that most methods share.
  pub reconcile-save-IsSound :
      (force : Bool) (c : Controller)
      → IsReady c
      → IsSound (save dt force w.store_ok (reconcile w.hass w.now w.stamp c).controller).controller
  reconcile-save-IsSound force c h =
      save-IsSound dt force w.store_ok (reconcile w.hass w.now w.stamp c).controller
        (reconcile-IsSound w.hass w.now w.stamp c h)

  sync_save-IsSound :
      (force : Bool) (event : Option StateEvent) (c : Controller)
      → IsReady c
      → IsSound
          (save dt force w.store_ok
            (reconcile w.hass w.now w.stamp
              (sync_cycles w.hass w.sync_now event c)).controller).controller
  sync_save-IsSound force event c h =
      reconcile-save-IsSound force (sync_cycles w.hass w.sync_now event c)
        (sync_cycles-IsReady w.hass w.sync_now event c h)

  pub async_deadline_reached-IsSound :
      (generation : ℕ) (c : Controller)
      → IsSound c
      → IsSound (async_deadline_reached dt generation w c).controller
  unfolding async_deadline_reached
  async_deadline_reached-IsSound generation c h =
      let c' : Controller = record c { unsub_deadline = none; next_deadline = none } in
      let ready : IsReady c' = record { keyed = h.keyed; armed = refl } in
      let after = sync_save-IsSound false none c' ready in ground (arith, after)

  pub note_activity-IsSound :
      (a : ActivityEvent) (c : Controller) → IsSound c → IsSound (note_activity a c)
  note_activity-IsSound a c h = record {
    keyed = h.keyed;
    timed = record { armed = h.timed.armed; kinded = h.timed.kinded };
  }

  state_changed_running-IsSound :
      (event : StateEvent) (c : Controller)
      → IsSound c
      → IsSound (state_changed_running dt w event c).controller
  unfolding state_changed_running
  state_changed_running-IsSound event c h =
      let ready = sync_cycles-IsReady w.hass w.sync_now (some event) c (IsSound-IsReady h) in
      let r = reconcile w.hass w.now w.stamp (sync_cycles w.hass w.sync_now (some event) c) in
      let sound =
        reconcile-IsSound w.hass w.now w.stamp (sync_cycles w.hass w.sync_now (some event) c)
          ready in
      let cancelled = cancelled_event "no_pending_active_cycle" w.stamp in
      let with_note =
        save-IsSound dt false w.store_ok (note_activity cancelled r.controller)
          (note_activity-IsSound cancelled r.controller sound) in
      let plain = save-IsSound dt false w.store_ok r.controller sound in
      ground (arith, with_note, plain)

  state_changed_starting-IsSound :
      (event : StateEvent) (c : Controller)
      → IsSound c
      → IsSound (state_changed_starting dt w event c).controller
  unfolding state_changed_starting
  state_changed_starting-IsSound event c h =
      let synced = sync_cycles-IsSound w.hass w.sync_now (some event) c h in
      let after =
        save-IsSound dt false w.store_ok (sync_cycles w.hass w.sync_now (some event) c) synced in
      ground (arith, after)

  pub async_state_changed-IsSound :
      (event : StateEvent) (c : Controller)
      → IsSound c
      → IsSound (async_state_changed dt w event c).controller
  unfolding async_state_changed
  async_state_changed-IsSound event c h =
      let starting = state_changed_starting-IsSound event c h in
      let running = state_changed_running-IsSound event c h in ground (arith, starting, running)

  enable-IsSound : (c : Controller) → IsSound c → IsSound (enable w c).controller
  unfolding enable
  enable-IsSound c h =
      let c' : Controller = record c { action_inhibited = false } in
      let ready : IsReady c' = record { keyed = h.keyed; armed = h.timed.armed } in
      let after =
        reconcile-IsSound w.hass w.now w.stamp (sync_cycles w.hass w.sync_now none c')
          (sync_cycles-IsReady w.hass w.sync_now none c' ready) in
      ground (arith, after)

  disable-IsSound : (c : Controller) → IsSound c → IsSound (disable w c).controller
  unfolding disable cancel_deadline
  disable-IsSound c h = record { keyed = h.keyed; timed = record { armed = refl; kinded = λ k. k } }

  pub set_enabled_locked-IsSound :
      (enabled : Bool) (c : Controller)
      → IsSound c
      → IsSound (set_enabled_locked dt w enabled c).controller
  unfolding set_enabled_locked
  set_enabled_locked-IsSound enabled c h =
      let c' : Controller = record c { enabled = enabled } in
      let sound : IsSound c' = record {
        keyed = h.keyed;
        timed = record { armed = h.timed.armed; kinded = h.timed.kinded };
      } in
      let on = enable-IsSound c' sound in
      let off = disable-IsSound c' sound in
      let saved_on = save-IsSound dt false w.store_ok (enable w c').controller on in
      let saved_off = save-IsSound dt false w.store_ok (disable w c').controller off in
      elim (Bool-cases enabled) [
        | inl e ↦ ground (arith, saved_on, e)
        | inr e ↦ ground (arith, saved_off, e)
      ]

  pub rollback_failed_setup-IsSound : (c : Controller) → IsSound (rollback_failed_setup c)
  unfolding rollback_failed_setup cancel_deadline
  rollback_failed_setup-IsSound c = record {
    keyed = tt;
    timed = record { armed = refl; kinded = λ k. k };
  }

  pub rearmed-IsReady :
      (c : Controller)
      → IsReady c
      → IsReady (rearm_interrupted w.now (sync_cycles w.hass w.sync_now none c)).controller
  rearmed-IsReady c h =
      rearm_interrupted-IsReady w.now (sync_cycles w.hass w.sync_now none c)
        (sync_cycles-IsReady w.hass w.sync_now none c h)

  setup_end-IsSound :
      (r : Reconciled) (saved : Saved)
      → IsSound saved.controller
      → IsSound (setup_end r saved).controller
  unfolding setup_end
  setup_end-IsSound r saved h =
      let back = rollback_failed_setup-IsSound saved.controller in ground (arith, back)

  pub set_complete-IsSound : (c : Controller) → IsSound c → IsSound (set_complete c)
  set_complete-IsSound c h = record {
    keyed = h.keyed;
    timed = record { armed = h.timed.armed; kinded = h.timed.kinded };
  }

  pub rearm_reconcile-IsSound :
      (c : Controller)
      → IsReady c
      → IsSound
          (reconcile w.hass w.now w.stamp
            (rearm_interrupted w.now (sync_cycles w.hass w.sync_now none c)).controller).controller
  rearm_reconcile-IsSound c h =
      reconcile-IsSound w.hass w.now w.stamp
        (rearm_interrupted w.now (sync_cycles w.hass w.sync_now none c)).controller
        (rearmed-IsReady c h)

  pub setup_running-IsSound :
      (c : Controller) → IsReady c → IsSound (setup_running dt w c).controller
  unfolding setup_running
  setup_running-IsSound c h =
      let r =
        reconcile w.hass w.now w.stamp
          (rearm_interrupted w.now (sync_cycles w.hass w.sync_now none c)).controller in
      setup_end-IsSound r (save dt true w.store_ok (set_complete r.controller)) (
        save-IsSound dt true w.store_ok (set_complete r.controller)
          (set_complete-IsSound r.controller (rearm_reconcile-IsSound c h)))
