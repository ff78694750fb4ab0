-- ===== src/Controller/Events/Once.antt =====
-- Events that are told twice.
use ha_runtime_auto_off.Prelude.{
  ℕ, ◌<◌, ◌≡◌, ◌≢◌, refl, sym, ap, ◌∙◌, Bool, true, false, none, some, List, [], ◌∷◌, arith, ◌==◌,
  Bool-cases, inl, inr,
}
use ha_runtime_auto_off.Hass.{Hass}
use ha_runtime_auto_off.Models.{RuntimeCycle, deadline}
use ha_runtime_auto_off.Models.Values.{DatetimeText}
use ha_runtime_auto_off.Controller.{Controller}
use ha_runtime_auto_off.Controller.Deadline.{cancel_deadline, schedule_deadline}
use ha_runtime_auto_off.Controller.Sync.{sync_cycles}
use ha_runtime_auto_off.Controller.Reconcile.{
  Reconciled, trigger_of, pending, count_down, claim_due, reconcile_pending, reconcile,
}
use ha_runtime_auto_off.Controller.Save.{save}
use ha_runtime_auto_off.Controller.Handlers.{Reading, unchanged, conclude}
use ha_runtime_auto_off.Controller.Events.{async_deadline_reached}

-- Without a timer, reconciling leaves a later generation, whatever it decides.
schedule-generation :
    (due : ℕ) (c : Controller)
    → c.unsub_deadline ≡ none
    → c.timer_generation < (schedule_deadline due c).timer_generation
unfolding schedule_deadline cancel_deadline
schedule-generation due c idle = ground arith

count_down-generation :
    (stamp : ℕ) (t : RuntimeCycle) (c : Controller)
    → c.unsub_deadline ≡ none
    → c.timer_generation < (count_down stamp t c).controller.timer_generation
unfolding count_down
count_down-generation stamp t c idle = ground (
  arith,
  schedule-generation (deadline c.config.delay_seconds t)
      (record c { trigger_entity = some t.entity_id }) idle,
)

module _ (now stamp : ℕ) where
  pending-generation :
      (ps : List RuntimeCycle) (c : Controller)
      → c.unsub_deadline ≡ none
      → c.timer_generation < (reconcile_pending now stamp ps c).controller.timer_generation
  unfolding reconcile_pending claim_due cancel_deadline
  pending-generation [] c idle = ground arith
  pending-generation (p ∷ ps) c idle =
      ground (arith, count_down-generation stamp (trigger_of c.config p ps) c idle)

  reconcile-generation :
      (hass : Hass) (c : Controller)
      → c.unsub_deadline ≡ none
      → c.timer_generation < (reconcile hass now stamp c).controller.timer_generation
  unfolding reconcile cancel_deadline
  reconcile-generation hass c idle = ground (arith, pending-generation (pending c) c idle)

sync-timer :
    (hass : Hass) (now : ℕ) (c : Controller)
    → ((sync_cycles hass now none c).timer_generation ≡ c.timer_generation)
      × ((sync_cycles hass now none c).unsub_deadline ≡ c.unsub_deadline)
unfolding sync_cycles
sync-timer hass now c = (refl, refl)

conclude-generation :
    (dt : DatetimeText) (force store_ok : Bool) (r : Reconciled)
    → (conclude r.activity r.plan (save dt force store_ok r.controller)).controller.timer_generation
      ≡ r.controller.timer_generation
unfolding save
conclude-generation dt force store_ok r = ground arith

module _ (dt : DatetimeText) (generation : ℕ) where
  stale-unchanged :
      (w : Reading) (c : Controller)
      → c.timer_generation ≢ generation
      → async_deadline_reached dt generation w c ≡ unchanged c
  unfolding async_deadline_reached
  stale-unchanged w c stale = ground arith

  unloaded-unchanged :
      (w : Reading) (c : Controller)
      → c.unloaded ≡ true
      → async_deadline_reached dt generation w c ≡ unchanged c
  unfolding async_deadline_reached
  unloaded-unchanged w c gone = ground arith

  deadline_reached-generation :
      (w : Reading) (c : Controller)
      → c.unloaded ≡ false
      → c.timer_generation ≡ generation
      → generation < (async_deadline_reached dt generation w c).controller.timer_generation
  unfolding async_deadline_reached
  deadline_reached-generation w c loaded current =
      let c' = record c { unsub_deadline = none; next_deadline = none } in
      let s = sync_cycles w.hass w.sync_now none c' in
      let (same_generation, idle) = sync-timer w.hass w.sync_now c' in
      let later = reconcile-generation w.now w.stamp w.hass s idle in
      let kept = conclude-generation dt false w.store_ok (reconcile w.hass w.now w.stamp s) in
      ground arith

  -- A timer's callback acts at most once: whatever it has done, calling it again directly
  -- afterwards with the same generation changes nothing, starts nothing and publishes nothing.
  pub async_deadline_reached_once :
      (w later : Reading) (c : Controller)
      → async_deadline_reached dt generation later
          (async_deadline_reached dt generation w c).controller
        ≡ unchanged (async_deadline_reached dt generation w c).controller
  async_deadline_reached_once w later c = elim (Bool-cases c.unloaded) [
    | inl gone ↦
        let first = unloaded-unchanged w c gone in
        unloaded-unchanged later (async_deadline_reached dt generation w c).controller
          (ap (λ o. o.controller.unloaded) first ∙ gone)
    | inr loaded ↦ elim (Bool-cases (generation == c.timer_generation)) [
      | inl current ↦
          let after = deadline_reached-generation w c loaded (ground arith) in
          stale-unchanged later (async_deadline_reached dt generation w c).controller
            (λ e. absurd (omega (arith, after, e)))
      | inr stale ↦
          let old : c.timer_generation ≢ generation = λ e. absurd (ground arith) in
          let first = stale-unchanged w c old in
          stale-unchanged later (async_deadline_reached dt generation w c).controller
            (λ e. old (sym (ap (λ o. o.controller.timer_generation) first) ∙ e))
    ]
  ]
