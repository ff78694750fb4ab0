-- ===== src/Controller/Starts/Runs.antt =====
-- A clock over any number of steps of controller.py.
use ha_runtime_auto_off.Prelude.{
  ℕ, String, ◌≡◌, refl, ◌∙◌, true, false, Option, none, some, is_some, arith, inl, inr,
}
use ha_runtime_auto_off.Models.Values.{DatetimeText}
use ha_runtime_auto_off.Controller.{Controller}
use ha_runtime_auto_off.Controller.Sync.Cycles.{Tracks}
use ha_runtime_auto_off.Controller.Steps.{
  Step, setup, setup_failed, resume_failed, started, stopping, stop, unload, resume,
  inhibit_actions, set_enabled, state_changed, deadline_reached, blocked, finished, cancelled,
}
use ha_runtime_auto_off.Controller.Starts.{start_of, IsKept}
use ha_runtime_auto_off.Controller.Starts.Steps.{is_setup, Step-IsKept}
use ha_runtime_auto_off.Controller.Starts.Tracked.{
  SameRule, Tracks-same, state_changed-SameRule, deadline_reached-SameRule, set_enabled-SameRule,
  started-SameRule, resume-SameRule, blocked-SameRule, finished-SameRule, cancelled-SameRule,
  stopping-SameRule, stop-SameRule, unload-SameRule, inhibit-SameRule, setup_failed-SameRule,
  resume_failed-SameRule,
}

Step-SameRule :
    (dt : DatetimeText) {c d : Controller} (step : Step dt c d)
    → is_setup step ≡ false
    → SameRule c d
Step-SameRule dt {c} (setup stored at w) other = absurd (ground arith)
Step-SameRule dt {c} setup_failed other = setup_failed-SameRule dt c
Step-SameRule dt {c} (started w) other = started-SameRule dt w c
Step-SameRule dt {c} stopping other = stopping-SameRule dt c
Step-SameRule dt {c} (stop ok) other = stop-SameRule dt c ok
Step-SameRule dt {c} unload other = unload-SameRule dt c
Step-SameRule dt {c} (resume at w) other = resume-SameRule dt w c at
Step-SameRule dt {c} resume_failed other = resume_failed-SameRule dt c
Step-SameRule dt {c} (inhibit_actions enabled) other = inhibit-SameRule dt c enabled
Step-SameRule dt {c} (set_enabled w enabled) other = set_enabled-SameRule dt w c enabled
Step-SameRule dt {c} (state_changed w event) other = state_changed-SameRule dt w c event
Step-SameRule dt {c} (deadline_reached generation w) other =
    deadline_reached-SameRule dt w c generation
Step-SameRule dt {c} (blocked w) other = blocked-SameRule dt w c
Step-SameRule dt {c} (finished w stamp plan t) other = finished-SameRule dt w c stamp plan t
Step-SameRule dt {c} (cancelled w plan) other = cancelled-SameRule dt w c plan

-- A run of the controller without a setup, after each step of which a clock is there under the key.
pub data RunsOn (dt : DatetimeText) (k : String) (c : Controller) : Controller → Type 0 where
  here : RunsOn dt k c c
  next :
      {d e : Controller}
      → RunsOn dt k c d
      → (step : Step dt d e) → is_setup step ≡ false
      → is_some (start_of k e.cycles) ≡ true
      → RunsOn dt k c e

RunsOn-SameRule :
    (dt : DatetimeText) (k : String) {c d : Controller} → RunsOn dt k c d → SameRule c d
RunsOn-SameRule dt k here = (refl, refl)
RunsOn-SameRule dt k (next run step other there) =
    let before = RunsOn-SameRule dt k run in
    let last = Step-SameRule dt step other in (last.0 ∙ before.0, last.1 ∙ before.1)

kept-start :
    (s : ℕ) (before after : Option ℕ)
    → before ≡ some s
    → is_some after ≡ true
    → IsKept before after
    → after ≡ some s
kept-start s none after same there kept = absurd (ground arith)
kept-start s (some b) after same there (inl gone) = absurd (ground arith)
kept-start s (some b) after same there (inr kept) = kept ∙ same

-- Whatever happens, in whatever order, and however often, short of a new setup: as long as the clock
-- of an entity of the rule, tracked under its key, is there after each step, it shows the start that it
-- had at first. No state, no name, no timer, no switch, no execution, no retry and no failure of the
-- store moves it.
pub RunsOn-start_of :
    (dt : DatetimeText) (k e : String) (s : ℕ) {c d : Controller}
    → Tracks c k e
    → start_of k c.cycles ≡ some s
    → RunsOn dt k c d
    → start_of k d.cycles ≡ some s
RunsOn-start_of dt k e s track start here = start
RunsOn-start_of dt k e s {c} track start (next {d} {e = f} run step other there) =
    let rule = RunsOn-SameRule dt k run in
    kept-start s (start_of k d.cycles) (start_of k f.cycles)
      (RunsOn-start_of dt k e s track start run) there
      (Step-IsKept dt k e step other (Tracks-same c d k e rule.0 rule.1 track))
