-- ===== src/Controller/Starts/Steps.antt =====
-- No step of controller.py but the setup moves the start of a clock.
use ha_runtime_auto_off.Prelude.{
  ℕ, Option, some, inl, none, get, String, ◌≡◌, refl, sym, subst, Bool, true, false, arith,
}
use ha_runtime_auto_off.Models.Values.{DatetimeText}
use ha_runtime_auto_off.Controller.{Controller}
use ha_runtime_auto_off.Controller.Deadline.{cancel_deadline}
use ha_runtime_auto_off.Controller.Sync.Cycles.{Tracks}
use ha_runtime_auto_off.Controller.Save.{save}
use ha_runtime_auto_off.Controller.Handlers.{
  rollback_failed_setup, rollback_resume, stop_begin, stop_locked, unload_end,
}
use ha_runtime_auto_off.Controller.Events.{inhibit}
use ha_runtime_auto_off.Controller.Steps.{
  Step, setup, setup_failed, resume_failed, started, stopping, stop, unload, resume,
  inhibit_actions, set_enabled, state_changed, deadline_reached, blocked, finished, cancelled,
}
use ha_runtime_auto_off.Controller.Starts.{start_of, IsKept, IsKept-refl}
use ha_runtime_auto_off.Controller.Starts.Kept.{
  state_changed-Keeps, deadline_reached-Keeps, set_enabled-Keeps, started-Keeps, resume-Keeps,
  blocked-Keeps, finished-Keeps, cancelled-Keeps,
}

still-IsKept :
    (c d : Controller) (k : String)
    → d.cycles ≡ c.cycles
    → IsKept (start_of k c.cycles) (start_of k d.cycles)
still-IsKept c d k same =
    subst (λ e. IsKept (start_of k c.cycles) (start_of k e)) (sym same)
      (IsKept-refl (start_of k c.cycles))

module _ (dt : DatetimeText) (c : Controller) where
  stop_begin-same : (stop_begin c).cycles ≡ c.cycles
  unfolding stop_begin
  stop_begin-same = ground arith

  stop_locked-same : (ok : Bool) → (stop_locked dt ok c).controller.cycles ≡ c.cycles
  unfolding stop_locked cancel_deadline save
  stop_locked-same ok = ground arith

  unload_end-same : (unload_end c).cycles ≡ c.cycles
  unfolding unload_end
  unload_end-same = refl

  rollback_resume-same : (rollback_resume c).cycles ≡ c.cycles
  unfolding rollback_resume cancel_deadline
  rollback_resume-same = ground arith

  inhibit-same : (enabled : Bool) → (inhibit enabled c).cycles ≡ c.cycles
  unfolding inhibit
  inhibit-same enabled = ground arith

gone-IsKept : (before after : Option ℕ) → after ≡ none → IsKept before after
gone-IsKept none after gone = ground arith
gone-IsKept (some b) after gone = inl gone

failed_setup-start :
    (c : Controller) (k : String) → start_of k (rollback_failed_setup c).cycles ≡ none
unfolding rollback_failed_setup get
failed_setup-start c k = refl

-- The setup, which takes the cycles from the store.
abbrev pub is_setup : {dt : DatetimeText} {c d : Controller} → Step dt c d → Bool
is_setup (setup stored at w) = true
is_setup _ = false

-- Over any step but the setup, a clock that runs for an entity of the rule, tracked under its key,
-- ends or runs on from its start: no state, no name, no timer, no switch, no execution and no storing
-- moves it.
pub Step-IsKept :
    (dt : DatetimeText) {c d : Controller} (k e : String)
    → (step : Step dt c d) → is_setup step ≡ false
    → Tracks c k e
    → IsKept (start_of k c.cycles) (start_of k d.cycles)
Step-IsKept dt {c} k e (setup stored at w) other track = absurd (ground arith)
Step-IsKept dt {c} k e setup_failed other track =
    gone-IsKept (start_of k c.cycles) (start_of k (rollback_failed_setup c).cycles)
      (failed_setup-start c k)
Step-IsKept dt {c} k e (started w) other track = started-Keeps dt w c k e track
Step-IsKept dt {c} k e stopping other track = still-IsKept c (stop_begin c) k (stop_begin-same dt c)
Step-IsKept dt {c} k e (stop ok) other track =
    still-IsKept c (stop_locked dt ok c).controller k (stop_locked-same dt c ok)
Step-IsKept dt {c} k e unload other track = still-IsKept c (unload_end c) k (unload_end-same dt c)
Step-IsKept dt {c} k e (resume at w) other track = resume-Keeps dt w c k e track at
Step-IsKept dt {c} k e resume_failed other track =
    still-IsKept c (rollback_resume c) k (rollback_resume-same dt c)
Step-IsKept dt {c} k e (inhibit_actions enabled) other track =
    still-IsKept c (inhibit enabled c) k (inhibit-same dt c enabled)
Step-IsKept dt {c} k e (set_enabled w enabled) other track =
    set_enabled-Keeps dt w c k e track enabled
Step-IsKept dt {c} k e (state_changed w event) other track =
    state_changed-Keeps dt w c k e track event
Step-IsKept dt {c} k e (deadline_reached generation w) other track =
    deadline_reached-Keeps dt w c k e track generation
Step-IsKept dt {c} k e (blocked w) other track = blocked-Keeps dt w c k e track
Step-IsKept dt {c} k e (finished w stamp plan t) other track =
    finished-Keeps dt w c k e track stamp plan t
Step-IsKept dt {c} k e (cancelled w plan) other track = cancelled-Keeps dt w c k e track plan
