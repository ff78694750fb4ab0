-- ===== src/Entry/Refused.antt =====
-- After a refused unload the rule goes on.
use ha_runtime_auto_off.Prelude.{
  ℕ, ◌≤◌, ◌<◌, ◌≡◌, ◌⊎◌, refl, ◌∙◌, ap, Bool, true, false, not, none, some, List, ◌∷◌, is_some, inl,
  inr,
}
use ha_runtime_auto_off.Models.{RuntimeCycle}
use ha_runtime_auto_off.Models.Values.{DatetimeText}
use ha_runtime_auto_off.Controller.{Controller, ExecutionPlan}
use ha_runtime_auto_off.Controller.Errors.{shabbat_block_reason}
use ha_runtime_auto_off.Controller.Reconcile.{pending}
use ha_runtime_auto_off.Controller.Handlers.{Reading, Executed, async_stop}
use ha_runtime_auto_off.Controller.Stopped.{Meanwhile-IsHeld}
use ha_runtime_auto_off.Controller.Stopped.Timers.{Meanwhile-NoTimer}
use ha_runtime_auto_off.Entry.{Platforms, Others, EntryResult, stopped, async_unload_entry}
use ha_runtime_auto_off.Entry.Unload.{AreSteps, IsHeld-trans, async_stop-IsHeld, async_stop-NoTimer}
use ha_runtime_auto_off.Entry.Resume.{IsRunning, ready, IsCounting, trigger, due_at, resume-GoesOn}

module _ (dt : DatetimeText) (execute : ExecutionPlan → Controller → Executed)
    (others again : Others) (platform_tasks : Controller → Controller) (store_ok again_ok : Bool)
    (now : ℕ) (w : Reading) (c : Controller) (p : RuntimeCycle) (ps : List RuntimeCycle) where
  abbrev paused : Controller
  paused = stopped dt execute others platform_tasks store_ok c

  abbrev pub refusal : EntryResult
  refusal =
      async_unload_entry dt execute others platform_tasks again store_ok again_ok Platforms.refused
        now w c

  -- A platform refuses to unload an enabled rule that was set up and runs, and the store then works.
  -- Other tasks may run meanwhile, in any order, but no execution that met a block takes the lock
  -- after the stop has. If the rule is not blocked and a cycle is pending when the states are read
  -- again, then the rule goes on: before the deadline of the trigger the refusal is the result, the
  -- rule is enabled, neither inhibited nor unloaded, subscribed to the states, and counts down to
  -- that deadline with a timer; at the deadline an execution follows at once.
  pub async_unload_entry-GoesOn :
      c.unloaded ≡ false
      → c.setup_complete ≡ true
      → c.enabled ≡ true
      → AreSteps dt true others.before
      → AreSteps dt false others.behind
      → AreSteps dt false platform_tasks
      → w.hass.running ≡ true
      → w.store_ok ≡ true
      → shabbat_block_reason (ready now w paused) w.hass ≡ none
      → pending (ready now w paused) ≡ p ∷ ps
      → (w.now < due_at dt execute now w paused p ps)
          × IsRunning c refusal.controller
          × IsCounting
              (trigger dt execute now w paused p ps)
              (ready now w paused)
              refusal.controller
          × (refusal.plan ≡ none)
          × (refusal.result ≡ some false)
        ⊎ (due_at dt execute now w paused p ps ≤ w.now) × (is_some refusal.plan ≡ true)
  unfolding async_unload_entry
  async_unload_entry-GoesOn loaded made on before behind tasks running works allowed same =
      let d = (async_stop dt others.before others.behind store_ok c).controller in
      let first = async_stop-IsHeld dt others store_ok c false loaded before behind in
      let held = IsHeld-trans first (Meanwhile-IsHeld first.stopped (tasks d)) in
      let free =
        Meanwhile-NoTimer first.stopped
          (async_stop-NoTimer dt others store_ok c loaded before behind) (tasks d) in
      elim (resume-GoesOn dt execute now w paused p ps (held.complete ∙ made) held.stopped.unloaded
        free.0 (held.enabled ∙ on) running works allowed same) [
          | inl (early, run, counting, idle, fine) ↦ inl (
            early,
            record {
              enabled = run.enabled ∙ held.enabled;
              inhibited = run.inhibited ∙ ap not held.enabled;
              unloaded = run.unloaded;
              state = run.state;
            },
            counting,
            idle,
            rw fine refl,
          )
          | inr due ↦ inr due
        ]
