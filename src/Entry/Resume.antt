-- ===== src/Entry/Resume.antt =====
-- What `async_resume` leaves of a stopped controller.
use ha_runtime_auto_off.Prelude.{
  ltb, ℕ, ◌≤◌, ◌<◌, ◌≡◌, ◌⊎◌, ◌∙◌, ap, Bool, true, false, not, none, List, ◌∷◌, is_some, arith, inl,
  inr,
}
use ha_runtime_auto_off.Models.{RuntimeCycle, deadline}
use ha_runtime_auto_off.Models.Values.{DatetimeText}
use ha_runtime_auto_off.Controller.{Controller, ExecutionPlan}
use ha_runtime_auto_off.Controller.Errors.{shabbat_block_reason}
use ha_runtime_auto_off.Controller.Deadline.{cancel_deadline, schedule_deadline}
use ha_runtime_auto_off.Controller.Sync.{sync_cycles}
use ha_runtime_auto_off.Controller.Rearm.{rearm_interrupted}
use ha_runtime_auto_off.Controller.Reconcile.{
  Reconciled, pending, trigger_of, count_down, reconcile_pending, reconcile,
}
use ha_runtime_auto_off.Controller.Reconcile.Safety.{CountsDown, reconcile_at, reconcile_progress}
use ha_runtime_auto_off.Controller.Save.{Saved, save}
use ha_runtime_auto_off.Controller.Handlers.{
  Outcome, Reading, Executed, resume_begin, resume_armed, resume_end, resume_until_execution,
  run_plan, async_resume, rollback_resume,
}
use ha_runtime_auto_off.Controller.Framed.{
  IsFramed-trans, armed-IsFramed, reconcile-IsFramed, save-IsFramed,
}

-- The rule goes on as it was enabled.
pub record IsRunning (c d : Controller) : Type 0 where
  pub enabled : d.enabled ≡ c.enabled
  pub inhibited : d.action_inhibited ≡ not c.enabled
  pub unloaded : d.unloaded ≡ false
  pub state : d.unsub_state ≡ true

-- The controller that `async_resume` reconciles: the states are read again, and a start of Home
-- Assistant that happened meanwhile is made up for.
abbrev pub ready : ℕ → Reading → Controller → Controller
ready now w d = resume_armed now (sync_cycles w.hass w.sync_now none (resume_begin d))

-- The countdown to the deadline of the trigger, with a timer.
abbrev pub IsCounting : RuntimeCycle → Controller → Controller → Type 0
IsCounting t c d = CountsDown t c d × (is_some d.unsub_deadline ≡ true)

module _ (dt : DatetimeText) (now : ℕ) (w : Reading) (d : Controller) where
  abbrev after : Reconciled
  after = reconcile w.hass w.now w.stamp (ready now w d)

  abbrev saved : Saved
  saved = save dt false w.store_ok after.controller

  resume-reconciles :
      d.setup_complete ≡ true
      → d.unloaded ≡ true
      → w.hass.running ≡ true
      → resume_until_execution dt now w d ≡ resume_end after saved
  unfolding resume_until_execution
  resume-reconciles made gone on = ground arith

  resume_end-works :
      w.store_ok ≡ true
      → ((resume_end after saved).controller ≡ saved.controller)
        × ((resume_end after saved).plan ≡ after.plan)
        × ((resume_end after saved).raised ≡ false)
  unfolding resume_end save
  resume_end-works works = ground (arith, works)

  saved-IsRunning : IsRunning d saved.controller
  unfolding resume_begin
  saved-IsRunning =
      let whole = IsFramed-trans (armed-IsFramed now w.sync_now w.hass (resume_begin d)) (
        IsFramed-trans (reconcile-IsFramed w.hass w.now w.stamp (ready now w d))
          (save-IsFramed dt false w.store_ok after.controller)) in
      record {
        enabled = whole.enabled;
        inhibited = whole.inhibited;
        unloaded = whole.unloaded;
        state = whole.state;
      }

  ready-next : d.next_deadline ≡ none → (ready now w d).next_deadline ≡ none
  unfolding resume_armed resume_begin sync_cycles rearm_interrupted
  ready-next free = ground (arith, free)

  ready-enabled : (ready now w d).enabled ≡ d.enabled
  unfolding resume_begin
  ready-enabled = (armed-IsFramed now w.sync_now w.hass (resume_begin d)).enabled

save-IsCounting :
    (dt : DatetimeText) (ok : Bool) (t : RuntimeCycle) (c d : Controller)
    → IsCounting t c d
    → IsCounting t c (save dt false ok d).controller
unfolding save
save-IsCounting dt ok t c d h = ground (arith, h)

count_down-timer :
    (stamp : ℕ) (t : RuntimeCycle) (c : Controller)
    → c.next_deadline ≡ none
    → is_some (count_down stamp t c).controller.unsub_deadline ≡ true
unfolding count_down schedule_deadline cancel_deadline
count_down-timer stamp t c free = ground (arith, free)

run_plan-none :
    (rollback : Controller → Controller) (execute : ExecutionPlan → Controller → Executed)
    (o : Outcome)
    → o.plan ≡ none
    → run_plan rollback execute o ≡ o
unfolding run_plan
run_plan-none rollback execute o nothing = ground (arith, nothing)

pub run_plan-plan :
    (rollback : Controller → Controller) (execute : ExecutionPlan → Controller → Executed)
    (o : Outcome)
    → (run_plan rollback execute o).plan ≡ o.plan
unfolding run_plan
run_plan-plan rollback execute o = ground arith

module _ (w : Reading) (c : Controller) (p : RuntimeCycle) (ps : List RuntimeCycle) where
  pub reconcile-timer :
      c.enabled ≡ true
      → shabbat_block_reason c w.hass ≡ none
      → pending c ≡ p ∷ ps
      → c.next_deadline ≡ none
      → w.now < deadline c.config.delay_seconds (trigger_of c.config p ps)
      → is_some (reconcile w.hass w.now w.stamp c).controller.unsub_deadline ≡ true
  unfolding reconcile_pending
  reconcile-timer on allowed same free early =
      let at = reconcile_at w.hass w.now w.stamp c p ps on allowed same in
      let before : ltb w.now (deadline c.config.delay_seconds (trigger_of c.config p ps)) ≡ true =
        ground (arith, early) in
      rw (at, before) (count_down-timer w.stamp (trigger_of c.config p ps) c free)

module _ (dt : DatetimeText) (execute : ExecutionPlan → Controller → Executed) (now : ℕ)
    (w : Reading) (d : Controller) (p : RuntimeCycle) (ps : List RuntimeCycle) where
  -- The trigger, and its deadline.
  abbrev pub trigger : RuntimeCycle
  trigger = trigger_of (ready now w d).config p ps

  abbrev pub due_at : ℕ
  due_at = deadline (ready now w d).config.delay_seconds trigger

  pub resume-GoesOn :
      d.setup_complete ≡ true
      → d.unloaded ≡ true
      → d.next_deadline ≡ none
      → d.enabled ≡ true
      → w.hass.running ≡ true
      → w.store_ok ≡ true
      → shabbat_block_reason (ready now w d) w.hass ≡ none
      → pending (ready now w d) ≡ p ∷ ps
      → (w.now < due_at)
          × IsRunning d (async_resume dt execute now w d).controller
          × IsCounting trigger (ready now w d) (async_resume dt execute now w d).controller
          × ((async_resume dt execute now w d).plan ≡ none)
          × ((async_resume dt execute now w d).raised ≡ false)
        ⊎ (due_at ≤ w.now) × (is_some (async_resume dt execute now w d).plan ≡ true)
  unfolding async_resume
  resume-GoesOn made gone free on running works allowed same =
      let whole = resume-reconciles dt now w d made gone running in
      let (controller, plan, fine) = resume_end-works dt now w d works in
      let c = ready now w d in
      let enabled = ready-enabled dt now w d ∙ on in
      let left = ready-next dt now w d free in
      elim (reconcile_progress w.hass w.now w.stamp c p ps enabled allowed same) [
        | inl (early, counts, idle) ↦
            let calm =
              run_plan-none rollback_resume execute (resume_until_execution dt now w d)
                (ap (λ o. o.plan) whole ∙ plan ∙ idle)
              ∙ whole in
            let timer = reconcile-timer w c p ps enabled allowed same left early in
            let counting =
              save-IsCounting dt w.store_ok trigger c (after dt now w d).controller
                (counts, timer) in
            inl (
              early,
              rw (calm, controller) (saved-IsRunning dt now w d),
              rw (calm, controller) counting,
              ap (λ o. o.plan) calm ∙ plan ∙ idle,
              ap (λ o. o.raised) calm ∙ fine,
            )
        | inr (due, planned, _) ↦ inr (
          due,
          rw
              (
                run_plan-plan rollback_resume execute (resume_until_execution dt now w d),
                whole,
                plan,
              )
              planned,
        )
      ]
