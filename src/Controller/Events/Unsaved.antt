-- ===== src/Controller/Events/Unsaved.antt =====
-- A claim that the timer makes and the store does not save.
use ha_runtime_auto_off.Prelude.{ℕ, ◌≡◌, ◌∙◌, sym, ap, subst, true, false, none, [], arith, is_some}
use ha_runtime_auto_off.Models.Values.{DatetimeText}
use ha_runtime_auto_off.Controller.{Controller}
use ha_runtime_auto_off.Controller.Sync.{sync_cycles}
use ha_runtime_auto_off.Controller.Reconcile.{Reconciled, reconcile}
use ha_runtime_auto_off.Controller.Reconcile.Stuck.{IsStuck, reconcile-IsStuck}
use ha_runtime_auto_off.Controller.Save.{payload, is_saved, save}
use ha_runtime_auto_off.Controller.Handlers.{Reading, conclude}
use ha_runtime_auto_off.Controller.Events.{async_deadline_reached}

unsaved-conclude :
    (dt : DatetimeText) (r : Reconciled)
    → is_saved (payload dt r.controller) r.controller.last_saved_payload ≡ false
    → conclude r.activity r.plan (save dt false false r.controller)
      ≡ record { controller = r.controller; effects = []; plan = none; raised = true }
unfolding save
unsaved-conclude dt r new = ground arith

module _ (dt : DatetimeText) (generation : ℕ) (w : Reading) (c : Controller) where
  -- What the callback decides, before it saves.
  abbrev pub decided : Reconciled
  decided = reconcile w.hass w.now w.stamp (
      sync_cycles w.hass w.sync_now none (record c { unsub_deadline = none; next_deadline = none }))

  reached-conclude :
      c.unloaded ≡ false
      → generation ≡ c.timer_generation
      → w.store_ok ≡ false
      → async_deadline_reached dt generation w c
        ≡ conclude decided.activity decided.plan (save dt false false decided.controller)
  unfolding async_deadline_reached
  reached-conclude loaded current fails = ground arith

  -- The timer's callback claims an execution, and the store then fails to save a changed payload:
  -- the exception leaves the callback and the execution is not started, but the cycles stay
  -- claimed, the status says that the rule executes, and no deadline or timer is left.
  pub async_deadline_reached-IsStuck :
      c.unloaded ≡ false
      → generation ≡ c.timer_generation
      → w.store_ok ≡ false
      → is_some decided.plan ≡ true
      → is_saved (payload dt decided.controller) decided.controller.last_saved_payload ≡ false
      → ((async_deadline_reached dt generation w c).raised ≡ true)
        × ((async_deadline_reached dt generation w c).plan ≡ none)
        × IsStuck (async_deadline_reached dt generation w c).controller
  async_deadline_reached-IsStuck loaded current fails claimed new =
      let whole = reached-conclude loaded current fails ∙ unsaved-conclude dt decided new in
      let stuck =
        reconcile-IsStuck w.now w.stamp w.hass
          (sync_cycles w.hass w.sync_now none
            (record c { unsub_deadline = none; next_deadline = none }))
          claimed in
      (
        ap (λ o. o.raised) whole,
        ap (λ o. o.plan) whole,
        subst (λ o. IsStuck o.controller) (sym whole) stuck,
      )
