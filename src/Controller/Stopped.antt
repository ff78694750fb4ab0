-- ===== src/Controller/Stopped.antt =====
-- A controller that is stopped, while the tasks that were under way go on.
pub mod Timers
use ha_runtime_auto_off.Prelude.{ℕ, ◌≡◌, refl, ◌∙◌, sym, subst, Bool, true, false, none, arith, max}
use ha_runtime_auto_off.Models.Values.{DatetimeText}
use ha_runtime_auto_off.Controller.{Controller, ExecutionPlan}
use ha_runtime_auto_off.Controller.Deadline.{cancel_deadline}
use ha_runtime_auto_off.Controller.Sync.{StateEvent, sync_cycles}
use ha_runtime_auto_off.Controller.Rearm.{rearm_interrupted}
use ha_runtime_auto_off.Controller.Reconcile.{reconcile}
use ha_runtime_auto_off.Controller.Save.{save}
use ha_runtime_auto_off.Controller.Handlers.{Reading, async_started, stop_begin, stop_locked}
use ha_runtime_auto_off.Controller.Events.{
  inhibit, set_enabled_locked, async_state_changed, async_deadline_reached,
}
use ha_runtime_auto_off.Controller.Execute.{Tally}
use ha_runtime_auto_off.Controller.Finish.{
  unclaim_all, record_execution, follow_up, rescheduled, reconcile_armed, execute_blocked,
  finish_execution, execution_cancelled,
}
use ha_runtime_auto_off.Controller.Steps.{
  Step, setup, setup_failed, started, stopping, stop, unload, resume, resume_failed,
  inhibit_actions, set_enabled, state_changed, deadline_reached, blocked, finished, cancelled,
}
use ha_runtime_auto_off.Controller.Framed.{
  IsFramed, IsFramed-trans, reconcile-IsFramed, save-IsFramed,
}

-- Unloaded and inhibited, without subscriptions.
pub record IsStopped (c : Controller) : Type 0 where
  pub unloaded : c.unloaded ≡ true
  pub inhibited : c.action_inhibited ≡ true
  pub state : c.unsub_state ≡ false
  pub started : c.unsub_started ≡ false

-- The steps of other tasks while an entry is unloaded: Home Assistant neither sets the entry up nor
-- resumes it then. `gates` is whether there is the stretch of an execution that met a block.
abbrev pub is_meanwhile : {dt : DatetimeText} {c d : Controller} → Bool → Step dt c d → Bool
is_meanwhile gates (setup stored at w) = false
is_meanwhile gates setup_failed = false
is_meanwhile gates unload = false
is_meanwhile gates (resume at w) = false
is_meanwhile gates resume_failed = false
is_meanwhile gates (blocked w) = gates
is_meanwhile gates _ = true

pub data Meanwhile (dt : DatetimeText) (gates : Bool) (c : Controller) : Controller → Type 0 where
  here : Meanwhile dt gates c c
  next :
      {d e : Controller}
      → Meanwhile dt gates c d
      → (step : Step dt d e) → is_meanwhile gates step ≡ true
      → Meanwhile dt gates c e

-- Still stopped, and enabled and set up as before.
pub record IsHeld (c d : Controller) : Type 0 where
  pub stopped : IsStopped d
  pub enabled : d.enabled ≡ c.enabled
  pub complete : d.setup_complete ≡ c.setup_complete

framed-IsHeld : {c d : Controller} → IsStopped c → IsFramed c d → IsHeld c d
framed-IsHeld h f = record {
  stopped = record {
    unloaded = f.unloaded ∙ h.unloaded;
    inhibited = f.inhibited ∙ h.inhibited;
    state = f.state ∙ h.state;
    started = f.started ∙ h.started;
  };
  enabled = f.enabled;
  complete = f.complete;
}

module _ (dt : DatetimeText) (w : Reading) (c : Controller) (h : IsStopped c) where
  started-same : IsHeld c (async_started dt w c).controller
  unfolding async_started
  started-same = ground arith

  pub set_enabled-same : (enabled : Bool) → (set_enabled_locked dt w enabled c).controller ≡ c
  unfolding set_enabled_locked
  set_enabled-same enabled = ground arith

  pub state_changed-same : (event : StateEvent) → (async_state_changed dt w event c).controller ≡ c
  unfolding async_state_changed
  state_changed-same event = ground arith

  pub deadline_reached-same :
      (generation : ℕ) → (async_deadline_reached dt generation w c).controller ≡ c
  unfolding async_deadline_reached
  deadline_reached-same generation = ground arith

  unclaim_all-IsFramed : IsFramed c (unclaim_all c)
  unclaim_all-IsFramed = record {
    enabled = refl;
    inhibited = refl;
    unloaded = refl;
    state = refl;
    started = refl;
    complete = refl;
  }

  blocked-IsFramed : IsFramed c (execute_blocked dt w c).controller
  unfolding execute_blocked
  blocked-IsFramed =
      let r = reconcile w.hass w.now w.stamp (unclaim_all c) in
      let whole = IsFramed-trans unclaim_all-IsFramed (
        IsFramed-trans (reconcile-IsFramed w.hass w.now w.stamp (unclaim_all c))
          (save-IsFramed dt false w.store_ok r.controller)) in
      ground (arith, whole)

  -- The timer is as before.
  abbrev pub SameTimer : Controller → Type 0
  SameTimer d = (d.next_deadline ≡ c.next_deadline) × (d.unsub_deadline ≡ c.unsub_deadline)

  record_execution-same :
      (plan : ExecutionPlan) (t : Tally)
      → IsFramed c (record_execution w plan t c) × SameTimer (record_execution w plan t c)
  unfolding record_execution sync_cycles rearm_interrupted
  record_execution-same plan t = ground arith

  -- Nothing is reconciled, as the controller is unloaded.
  pub finished-same :
      (stamp : ℕ) (plan : ExecutionPlan) (t : Tally)
      → IsFramed c (finish_execution dt w stamp plan t c).controller
        × SameTimer (finish_execution dt w stamp plan t c).controller
  unfolding finish_execution follow_up save
  finished-same stamp plan t =
      let recorded = record_execution-same plan t in ground (arith, recorded, h.unloaded)

  armed-same :
      (now : ℕ)
      → IsFramed c (rearm_interrupted now (sync_cycles w.hass w.sync_now none c)).controller
        × SameTimer (rearm_interrupted now (sync_cycles w.hass w.sync_now none c)).controller
  unfolding rearm_interrupted sync_cycles
  armed-same now = ground arith

  pub cancelled-same :
      (plan : ExecutionPlan)
      → IsFramed c (execution_cancelled dt w plan c).controller
        × SameTimer (execution_cancelled dt w plan c).controller
  unfolding execution_cancelled rescheduled reconcile_armed save
  cancelled-same plan =
      let armed = armed-same (max w.now plan.claimed_at) in ground (arith, armed, h.unloaded)

module _ (dt : DatetimeText) {c : Controller} (h : IsStopped c) where
  pub stop_begin-IsHeld : IsHeld c (stop_begin c)
  unfolding stop_begin
  stop_begin-IsHeld = ground (arith, h)

  pub stop_locked-IsHeld : (ok : Bool) → IsHeld c (stop_locked dt ok c).controller
  unfolding stop_locked cancel_deadline save
  stop_locked-IsHeld ok = ground (arith, h)

  inhibit-IsHeld : (enabled : Bool) → IsHeld c (inhibit enabled c)
  unfolding inhibit
  inhibit-IsHeld enabled = ground (arith, h)

self-IsHeld : {c d : Controller} → IsStopped c → d ≡ c → IsHeld c d
self-IsHeld {c} h same =
    subst (IsHeld c) (sym same) (record { stopped = h; enabled = refl; complete = refl })

Step-IsHeld :
    (dt : DatetimeText) {c d : Controller} (gates : Bool) (step : Step dt c d)
    → is_meanwhile gates step ≡ true
    → IsStopped c
    → IsHeld c d
Step-IsHeld dt {c} gates (setup stored at w) ok h = absurd (ground arith)
Step-IsHeld dt {c} gates setup_failed ok h = absurd (ground arith)
Step-IsHeld dt {c} gates (started w) ok h = started-same dt w c h
Step-IsHeld dt {c} gates stopping ok h = stop_begin-IsHeld dt h
Step-IsHeld dt {c} gates (stop store_ok) ok h = stop_locked-IsHeld dt h store_ok
Step-IsHeld dt {c} gates unload ok h = absurd (ground arith)
Step-IsHeld dt {c} gates (resume at w) ok h = absurd (ground arith)
Step-IsHeld dt {c} gates resume_failed ok h = absurd (ground arith)
Step-IsHeld dt {c} gates (inhibit_actions enabled) ok h = inhibit-IsHeld dt h enabled
Step-IsHeld dt {c} gates (set_enabled w enabled) ok h =
    self-IsHeld h (set_enabled-same dt w c h enabled)
Step-IsHeld dt {c} gates (state_changed w event) ok h =
    self-IsHeld h (state_changed-same dt w c h event)
Step-IsHeld dt {c} gates (deadline_reached generation w) ok h =
    self-IsHeld h (deadline_reached-same dt w c h generation)
Step-IsHeld dt {c} gates (blocked w) ok h = framed-IsHeld h (blocked-IsFramed dt w c h)
Step-IsHeld dt {c} gates (finished w stamp plan t) ok h =
    framed-IsHeld h (finished-same dt w c h stamp plan t).0
Step-IsHeld dt {c} gates (cancelled w plan) ok h = framed-IsHeld h (cancelled-same dt w c h plan).0

-- What is stopped stays stopped, whatever the other tasks do.
pub Meanwhile-IsHeld :
    {dt : DatetimeText} {gates : Bool} {c d : Controller}
    → IsStopped c
    → Meanwhile dt gates c d
    → IsHeld c d
Meanwhile-IsHeld h here = self-IsHeld h refl
Meanwhile-IsHeld {dt} {gates} h (next run step ok) =
    let before = Meanwhile-IsHeld h run in
    let last = Step-IsHeld dt gates step ok before.stopped in
    record {
      stopped = last.stopped;
      enabled = last.enabled ∙ before.enabled;
      complete = last.complete ∙ before.complete;
    }
