-- ===== src/Controller/Disabled.antt =====
-- A disabled rule starts nothing.
use ha_runtime_auto_off.Prelude.{ℕ, ◌≡◌, refl, ◌∙◌, false, Option, none, some, arith, max}
use ha_runtime_auto_off.Hass.{Hass}
use ha_runtime_auto_off.Models.Values.{DatetimeText}
use ha_runtime_auto_off.Controller.{Controller, ExecutionPlan}
use ha_runtime_auto_off.Controller.Sync.{StateEvent, sync_cycles}
use ha_runtime_auto_off.Controller.Rearm.{rearm_interrupted}
use ha_runtime_auto_off.Controller.Reconcile.{reconcile}
use ha_runtime_auto_off.Controller.Handlers.{
  Reading, resume_begin, resume_armed, resume_end, async_started, resume_until_execution,
}
use ha_runtime_auto_off.Controller.Events.{
  state_changed_starting, state_changed_running, async_state_changed, async_deadline_reached,
}
use ha_runtime_auto_off.Controller.Execute.{Tally}
use ha_runtime_auto_off.Controller.Finish.{record_execution, follow_up, finish_execution}

disabled-plan :
    (hass : Hass) (now stamp : ℕ) (c : Controller)
    → c.enabled ≡ false
    → (reconcile hass now stamp c).plan ≡ none
unfolding reconcile
disabled-plan hass now stamp c off = ground arith

sync-enabled :
    (hass : Hass) (now : ℕ) (event : Option StateEvent) (c : Controller)
    → (sync_cycles hass now event c).enabled ≡ c.enabled
unfolding sync_cycles
sync-enabled hass now event c = refl

rearm-enabled :
    (now : ℕ) (c : Controller) → (rearm_interrupted now c).controller.enabled ≡ c.enabled
unfolding rearm_interrupted
rearm-enabled now c = ground arith

resume-enabled : (now : ℕ) (c : Controller) → (resume_armed now c).enabled ≡ c.enabled
unfolding resume_armed
resume-enabled now c = ground (arith, rearm-enabled now (record c { starting = false }))

-- What a disabled controller decides after its states are read.
synced-plan :
    (w : Reading) (event : Option StateEvent) (c : Controller)
    → c.enabled ≡ false
    → (reconcile w.hass w.now w.stamp (sync_cycles w.hass w.sync_now event c)).plan ≡ none
synced-plan w event c off =
    disabled-plan w.hass w.now w.stamp (sync_cycles w.hass w.sync_now event c)
      (sync-enabled w.hass w.sync_now event c ∙ off)

module _ (dt : DatetimeText) (w : Reading) (c : Controller) (off : c.enabled ≡ false) where
  state_changed-plan : (event : StateEvent) → (async_state_changed dt w event c).plan ≡ none
  unfolding async_state_changed state_changed_starting state_changed_running
  state_changed-plan event = ground (arith, synced-plan w (some event) c off)

  deadline-plan : (generation : ℕ) → (async_deadline_reached dt generation w c).plan ≡ none
  unfolding async_deadline_reached
  deadline-plan generation =
      ground
        (arith, synced-plan w none (record c { unsub_deadline = none; next_deadline = none }) off)

  started-plan : (async_started dt w c).plan ≡ none
  unfolding async_started
  started-plan =
      let s =
        sync_cycles w.hass w.sync_now none (record c { unsub_started = false; starting = false }) in
      let synced =
        sync-enabled w.hass w.sync_now none
          (record c { unsub_started = false; starting = false }) in
      let idle =
        disabled-plan w.hass w.now w.stamp (rearm_interrupted w.now s).controller
          (rearm-enabled w.now s ∙ synced ∙ off) in
      ground (arith, idle)

  resume-plan : (now : ℕ) → (resume_until_execution dt now w c).plan ≡ none
  unfolding resume_until_execution resume_end resume_begin
  resume-plan now =
      let b = resume_begin c in
      let s = sync_cycles w.hass w.sync_now none b in
      let idle =
        disabled-plan w.hass w.now w.stamp (resume_armed now s)
          (resume-enabled now s ∙ sync-enabled w.hass w.sync_now none b ∙ off) in
      ground (arith, idle)

  recorded-enabled :
      (plan : ExecutionPlan) (t : Tally) → (record_execution w plan t c).enabled ≡ c.enabled
  unfolding record_execution
  recorded-enabled plan t =
      rearm-enabled (max w.now plan.claimed_at) (sync_cycles w.hass w.sync_now none c)
      ∙ sync-enabled w.hass w.sync_now none c

  finish-plan :
      (stamp : ℕ) (plan : ExecutionPlan) (t : Tally)
      → (finish_execution dt w stamp plan t c).plan ≡ none
  unfolding finish_execution follow_up
  finish-plan stamp plan t = ground (
    arith,
    disabled-plan w.hass (max w.now plan.claimed_at) stamp (record_execution w plan t c)
        (recorded-enabled plan t ∙ off),
  )

-- While a rule is disabled, no event starts an execution: not a change of a state, not its timer,
-- not the start of Home Assistant, not a resumption, and not the end of an execution that was
-- running.
pub disabled_starts_nothing :
    (dt : DatetimeText) (w : Reading) (c : Controller) (event : StateEvent)
    (generation now stamp : ℕ) (plan : ExecutionPlan) (t : Tally)
    → c.enabled ≡ false
    → ((async_state_changed dt w event c).plan ≡ none)
      × ((async_deadline_reached dt generation w c).plan ≡ none)
      × ((async_started dt w c).plan ≡ none)
      × ((resume_until_execution dt now w c).plan ≡ none)
      × ((finish_execution dt w stamp plan t c).plan ≡ none)
disabled_starts_nothing dt w c event generation now stamp plan t off = (
  state_changed-plan dt w c off event,
  deadline-plan dt w c off generation,
  started-plan dt w c off,
  resume-plan dt w c off now,
  finish-plan dt w c off stamp plan t,
)
