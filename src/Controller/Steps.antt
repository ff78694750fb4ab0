-- ===== src/Controller/Steps.antt =====
-- The controller as a transition system. A step is a stretch of a method in which nothing else
-- that writes the controller runs: what is under the lock, and what is before it or behind it, with
-- what a failed setup and a failed resumption undo.
-- Tasks may interleave in any order between steps.
use ha_runtime_auto_off.Prelude.{ℕ, String, Bool, true, false, arith, Option, some, ◌≡◌}
use ha_runtime_auto_off.Hass.{Hass}
use ha_runtime_auto_off.Models.{RuleConfig}
use ha_runtime_auto_off.Models.Values.{DatetimeText, Fields}
use ha_runtime_auto_off.Controller.{Controller, ExecutionPlan, init}
use ha_runtime_auto_off.Controller.Sync.{StateEvent}
use ha_runtime_auto_off.Controller.Sound.{IsSound}
use ha_runtime_auto_off.Controller.Sound.Methods.{
  async_deadline_reached-IsSound, async_state_changed-IsSound, set_enabled_locked-IsSound,
}
use ha_runtime_auto_off.Controller.Sound.Lifecycle.{
  setup_until_execution-IsSound, async_started-IsSound, stop_begin-IsSound, stop_locked-IsSound,
  unload_end-IsSound, resume_until_execution-IsSound, rollback_resume-IsSound, failed_setup-IsSound,
}
use ha_runtime_auto_off.Controller.Sound.Executions.{
  execute_blocked-IsSound, finish_execution-IsSound, execution_cancelled-IsSound,
}
use ha_runtime_auto_off.Controller.Handlers.{
  Reading, setup_until_execution, async_started, stop_begin, stop_locked, unload_end,
  resume_until_execution, rollback_failed_setup, rollback_resume,
}
use ha_runtime_auto_off.Controller.Events.{
  inhibit, set_enabled_locked, async_state_changed, async_deadline_reached,
}
use ha_runtime_auto_off.Controller.Execute.{Tally}
use ha_runtime_auto_off.Controller.Finish.{execute_blocked, finish_execution, execution_cancelled}

-- One step from `c`, which leads to the second controller.
pub data Step (dt : DatetimeText) (c : Controller) : Controller → Type 0 where
  setup :
      (stored : Option (Option Fields)) (at : ℕ) (w : Reading)
      → Step dt c (setup_until_execution dt stored at w c).controller
  setup_failed : Step dt c (rollback_failed_setup c)
  started : (w : Reading) → Step dt c (async_started dt w c).controller
  stopping : Step dt c (stop_begin c)
  stop : (store_ok : Bool) → Step dt c (stop_locked dt store_ok c).controller
  unload : Step dt c (unload_end c)
  resume : (at : ℕ) (w : Reading) → Step dt c (resume_until_execution dt at w c).controller
  resume_failed : Step dt c (rollback_resume c)
  inhibit_actions : (enabled : Bool) → Step dt c (inhibit enabled c)
  set_enabled :
      (w : Reading) (enabled : Bool) → Step dt c (set_enabled_locked dt w enabled c).controller
  state_changed :
      (w : Reading) (event : StateEvent) → Step dt c (async_state_changed dt w event c).controller
  deadline_reached :
      (generation : ℕ) (w : Reading)
      → Step dt c (async_deadline_reached dt generation w c).controller
  blocked : (w : Reading) → Step dt c (execute_blocked dt w c).controller
  finished :
      (w : Reading) (stamp : ℕ) (plan : ExecutionPlan) (t : Tally)
      → Step dt c (finish_execution dt w stamp plan t c).controller
  cancelled :
      (w : Reading) (plan : ExecutionPlan) → Step dt c (execution_cancelled dt w plan c).controller

pub data Reach (dt : DatetimeText) (c : Controller) : Controller → Type 0 where
  here : Reach dt c c
  next : {d e : Controller} → Reach dt c d → Step dt d e → Reach dt c e

inhibit-IsSound : (enabled : Bool) (c : Controller) → IsSound c → IsSound (inhibit enabled c)
unfolding inhibit
inhibit-IsSound true c h = h
inhibit-IsSound false c h = record {
  keyed = h.keyed;
  timed = record { armed = h.timed.armed; kinded = h.timed.kinded };
}

Step-IsSound : (dt : DatetimeText) {c d : Controller} → Step dt c d → IsSound c → IsSound d
Step-IsSound dt {c} (setup stored at w) h = setup_until_execution-IsSound dt w stored at c h
Step-IsSound dt {c} setup_failed h = failed_setup-IsSound c
Step-IsSound dt {c} (started w) h = async_started-IsSound dt w c h
Step-IsSound dt {c} stopping h = stop_begin-IsSound c h
Step-IsSound dt {c} (stop store_ok) h = stop_locked-IsSound dt store_ok c h
Step-IsSound dt {c} unload h = unload_end-IsSound c h
Step-IsSound dt {c} (resume at w) h = resume_until_execution-IsSound dt w at c h
Step-IsSound dt {c} resume_failed h = rollback_resume-IsSound c h
Step-IsSound dt {c} (inhibit_actions enabled) h = inhibit-IsSound enabled c h
Step-IsSound dt {c} (set_enabled w enabled) h = set_enabled_locked-IsSound dt w enabled c h
Step-IsSound dt {c} (state_changed w event) h = async_state_changed-IsSound dt w event c h
Step-IsSound dt {c} (deadline_reached generation w) h =
    async_deadline_reached-IsSound dt w generation c h
Step-IsSound dt {c} (blocked w) h = execute_blocked-IsSound dt w c h
Step-IsSound dt {c} (finished w stamp plan t) h = finish_execution-IsSound dt w stamp plan t c h
Step-IsSound dt {c} (cancelled w plan) h = execution_cancelled-IsSound dt w plan c h

init-IsSound :
    (hass : Hass) (entry : String) (config : RuleConfig) {c : Controller}
    → init hass entry config ≡ some c
    → IsSound c
unfolding init
init-IsSound hass entry config {c} h = ground arith

-- From the constructor on, whatever steps follow in whatever order: the cycles are keyed by their
-- own keys without repetition, and a deadline is announced exactly while a timer of the present
-- generation waits for it.
pub Reach-IsSound :
    (dt : DatetimeText) (hass : Hass) (entry : String) (config : RuleConfig) {c d : Controller}
    → init hass entry config ≡ some c
    → Reach dt c d
    → IsSound d
Reach-IsSound dt hass entry config start here = init-IsSound hass entry config start
Reach-IsSound dt hass entry config start (next r s) =
    Step-IsSound dt s (Reach-IsSound dt hass entry config start r)
