-- ===== src/Entry/Unload.antt =====
-- After an entry is unloaded nothing of its rule is left running.
use ha_runtime_auto_off.Prelude.{ℕ, ◌≡◌, refl, sym, subst, ◌∙◌, Bool, true, false, arith}
use ha_runtime_auto_off.Models.Values.{DatetimeText}
use ha_runtime_auto_off.Controller.{Controller, ExecutionPlan}
use ha_runtime_auto_off.Controller.Handlers.{
  Reading, Executed, stop_begin, stop_locked, async_stop, unload_end, async_unload,
}
use ha_runtime_auto_off.Controller.Stopped.{
  IsStopped, Meanwhile, IsHeld, Meanwhile-IsHeld, stop_begin-IsHeld, stop_locked-IsHeld,
}
use ha_runtime_auto_off.Controller.Stopped.Timers.{
  NoTimer, stop_begin-NoTimer, stop_locked-NoTimer, Meanwhile-NoTimer,
}
use ha_runtime_auto_off.Entry.{Platforms, Others, async_unload_entry}

-- Stopped, without a timer: nothing of this controller is called again.
abbrev pub IsQuiet : Controller → Type 0
IsQuiet c = IsStopped c × NoTimer c

-- What others do is a run of steps; `gates` is whether an execution that met a block is among them.
abbrev pub AreSteps : DatetimeText → Bool → (Controller → Controller) → Type 0
AreSteps dt gates f = (c : Controller) → Meanwhile dt gates c (f c)

pub IsHeld-trans : {c d e : Controller} → IsHeld c d → IsHeld d e → IsHeld c e
IsHeld-trans h g = record {
  stopped = g.stopped;
  enabled = g.enabled ∙ h.enabled;
  complete = g.complete ∙ h.complete;
}

unload_end-IsQuiet :
    (c : Controller) → IsQuiet c → IsQuiet (unload_end c) × ((unload_end c).setup_complete ≡ false)
unfolding unload_end
unload_end-IsQuiet c (h, n) = (
  (
    record { unloaded = h.unloaded; inhibited = h.inhibited; state = h.state; started = h.started },
    n,
  ),
  refl,
)

begin-IsHeld : (c : Controller) → c.unloaded ≡ false → IsHeld c (stop_begin c)
unfolding stop_begin
begin-IsHeld c loaded = ground arith

module _ (dt : DatetimeText) (others : Others) (store_ok : Bool) (c : Controller) where
  -- The controller when the lock is taken.
  abbrev waited : Controller
  waited = others.before (stop_begin c)

  abbrev locked : Controller
  locked = (stop_locked dt store_ok waited).controller

  async_stop-loaded :
      c.unloaded ≡ false
      → (async_stop dt others.before others.behind store_ok c).controller ≡ others.behind locked
  unfolding async_stop
  async_stop-loaded loaded = ground arith

  async_unload-unloaded :
      c.unloaded ≡ true
      → (async_unload dt others.before others.behind store_ok c).controller
        ≡ unload_end (others.behind (stop_begin c))
  unfolding async_unload async_stop
  async_unload-unloaded gone = ground arith

  locked-IsHeld : c.unloaded ≡ false → AreSteps dt true others.before → IsHeld c locked
  locked-IsHeld loaded before =
      let begun = begin-IsHeld c loaded in
      let held = IsHeld-trans begun (Meanwhile-IsHeld begun.stopped (before (stop_begin c))) in
      IsHeld-trans held (stop_locked-IsHeld dt held.stopped store_ok)

  pub async_stop-IsHeld :
      (gates : Bool)
      → c.unloaded ≡ false
      → AreSteps dt true others.before
      → AreSteps dt gates others.behind
      → IsHeld c (async_stop dt others.before others.behind store_ok c).controller
  async_stop-IsHeld gates loaded before behind =
      let held = locked-IsHeld loaded before in
      subst (IsHeld c) (sym (async_stop-loaded loaded))
        (IsHeld-trans held (Meanwhile-IsHeld held.stopped (behind locked)))

  pub async_stop-NoTimer :
      c.unloaded ≡ false
      → AreSteps dt true others.before
      → AreSteps dt false others.behind
      → NoTimer (async_stop dt others.before others.behind store_ok c).controller
  async_stop-NoTimer loaded before behind = subst NoTimer (sym (async_stop-loaded loaded)) (
      Meanwhile-NoTimer (locked-IsHeld loaded before).stopped
        (stop_locked-NoTimer dt store_ok waited) (behind locked))

  -- Unloading what is quiet keeps it so.
  pub async_unload-IsQuiet :
      IsQuiet c
      → AreSteps dt false others.behind
      → IsQuiet (async_unload dt others.before others.behind store_ok c).controller
        × ((async_unload dt others.before others.behind store_ok c).controller.setup_complete
            ≡ false)
  async_unload-IsQuiet (h, n) behind =
      let begun = stop_begin-IsHeld dt h in
      let after = Meanwhile-IsHeld begun.stopped (behind (stop_begin c)) in
      let left = Meanwhile-NoTimer begun.stopped (stop_begin-NoTimer c n) (behind (stop_begin c)) in
      subst (λ d. IsQuiet d × (d.setup_complete ≡ false)) (sym (async_unload-unloaded h.unloaded))
        (unload_end-IsQuiet (others.behind (stop_begin c)) (after.stopped, left))

module _ (dt : DatetimeText) (execute : ExecutionPlan → Controller → Executed)
    (others again : Others) (platform_tasks : Controller → Controller) (store_ok again_ok : Bool)
    (now : ℕ) (w : Reading) (c : Controller) where
  -- When all platforms unload, nothing of a running rule is left, whatever other tasks do in any
  -- order while the unloading waits for the lock, for the executions and for the platforms, as long
  -- as no execution that met a block takes the lock after the stop has: the rule is marked as
  -- unloaded and inhibited, and has no deadline, no timer and no subscription. Home Assistant sets
  -- nothing up and resumes nothing meanwhile.
  pub async_unload_entry-IsQuiet :
      c.unloaded ≡ false
      → AreSteps dt true others.before
      → AreSteps dt false others.behind
      → AreSteps dt false platform_tasks
      → AreSteps dt false again.behind
      → IsQuiet
          (async_unload_entry dt execute others platform_tasks again store_ok again_ok
            Platforms.unloaded now w c).controller
        × ((async_unload_entry dt execute others platform_tasks again store_ok again_ok
              Platforms.unloaded now w c).controller.setup_complete
            ≡ false)
  unfolding async_unload_entry
  async_unload_entry-IsQuiet loaded before behind tasks behind' =
      let d = (async_stop dt others.before others.behind store_ok c).controller in
      let held = async_stop-IsHeld dt others store_ok c false loaded before behind in
      let left = async_stop-NoTimer dt others store_ok c loaded before behind in
      let kept = Meanwhile-IsHeld held.stopped (tasks d) in
      async_unload-IsQuiet dt again again_ok (platform_tasks d)
        (kept.stopped, Meanwhile-NoTimer held.stopped left (tasks d)) behind'
