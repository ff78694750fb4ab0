-- ===== src/Controller/Stopped/Timers.antt =====
-- The timer of a stopped controller.
use ha_runtime_auto_off.Prelude.{◌≡◌, ◌∙◌, sym, subst, Bool, true, false, none, arith}
use ha_runtime_auto_off.Models.Values.{DatetimeText}
use ha_runtime_auto_off.Controller.{Controller}
use ha_runtime_auto_off.Controller.Deadline.{cancel_deadline}
use ha_runtime_auto_off.Controller.Save.{save}
use ha_runtime_auto_off.Controller.Handlers.{Reading, async_started, stop_begin, stop_locked}
use ha_runtime_auto_off.Controller.Events.{inhibit}
use ha_runtime_auto_off.Controller.Steps.{
  Step, setup, setup_failed, started, stopping, stop, unload, resume, resume_failed,
  inhibit_actions, set_enabled, state_changed, deadline_reached, blocked, finished, cancelled,
}
use ha_runtime_auto_off.Controller.Stopped.{
  IsStopped, is_meanwhile, Meanwhile, here, next, Meanwhile-IsHeld, set_enabled-same,
  state_changed-same, deadline_reached-same, finished-same, cancelled-same,
}

-- No deadline and no timer.
abbrev pub NoTimer : Controller → Type 0
NoTimer c = (c.next_deadline ≡ none) × (c.unsub_deadline ≡ none)

same-NoTimer : {c d : Controller} → NoTimer c → d ≡ c → NoTimer d
same-NoTimer h same = subst NoTimer (sym same) h

pub stop_begin-NoTimer : (c : Controller) → NoTimer c → NoTimer (stop_begin c)
unfolding stop_begin
stop_begin-NoTimer c h = ground (arith, h)

pub stop_locked-NoTimer :
    (dt : DatetimeText) (ok : Bool) (c : Controller) → NoTimer (stop_locked dt ok c).controller
unfolding stop_locked cancel_deadline save
stop_locked-NoTimer dt ok c = ground arith

inhibit-NoTimer : (enabled : Bool) (c : Controller) → NoTimer c → NoTimer (inhibit enabled c)
unfolding inhibit
inhibit-NoTimer enabled c h = ground (arith, h)

started-NoTimer :
    (dt : DatetimeText) (w : Reading) (c : Controller)
    → IsStopped c
    → NoTimer c
    → NoTimer (async_started dt w c).controller
unfolding async_started
started-NoTimer dt w c h none_left = ground (arith, h.unloaded, none_left)

Step-NoTimer :
    (dt : DatetimeText) {c d : Controller} (step : Step dt c d)
    → is_meanwhile false step ≡ true
    → IsStopped c
    → NoTimer c
    → NoTimer d
Step-NoTimer dt {c} (setup stored at w) ok h n = absurd (ground arith)
Step-NoTimer dt {c} setup_failed ok h n = absurd (ground arith)
Step-NoTimer dt {c} (started w) ok h n = started-NoTimer dt w c h n
Step-NoTimer dt {c} stopping ok h n = stop_begin-NoTimer c n
Step-NoTimer dt {c} (stop store_ok) ok h n = stop_locked-NoTimer dt store_ok c
Step-NoTimer dt {c} unload ok h n = absurd (ground arith)
Step-NoTimer dt {c} (resume at w) ok h n = absurd (ground arith)
Step-NoTimer dt {c} resume_failed ok h n = absurd (ground arith)
Step-NoTimer dt {c} (inhibit_actions enabled) ok h n = inhibit-NoTimer enabled c n
Step-NoTimer dt {c} (set_enabled w enabled) ok h n =
    same-NoTimer n (set_enabled-same dt w c h enabled)
Step-NoTimer dt {c} (state_changed w event) ok h n =
    same-NoTimer n (state_changed-same dt w c h event)
Step-NoTimer dt {c} (deadline_reached generation w) ok h n =
    same-NoTimer n (deadline_reached-same dt w c h generation)
Step-NoTimer dt {c} (blocked w) ok h n = absurd (ground arith)
Step-NoTimer dt {c} (finished w stamp plan t) ok h n =
    let (due, unsub) = (finished-same dt w c h stamp plan t).1 in (due ∙ n.0, unsub ∙ n.1)
Step-NoTimer dt {c} (cancelled w plan) ok h n =
    let (due, unsub) = (cancelled-same dt w c h plan).1 in (due ∙ n.0, unsub ∙ n.1)

-- Without an execution that met a block, no timer comes back.
pub Meanwhile-NoTimer :
    {dt : DatetimeText} {c d : Controller}
    → IsStopped c
    → NoTimer c
    → Meanwhile dt false c d
    → NoTimer d
Meanwhile-NoTimer h n here = n
Meanwhile-NoTimer {dt} h n (next run step ok) =
    Step-NoTimer dt step ok (Meanwhile-IsHeld h run).stopped (Meanwhile-NoTimer h n run)
