-- ===== src/Entry/Leftover.antt =====
-- An execution that met a block, and takes the lock after the stop of an unload has.
use ha_runtime_auto_off.Prelude.{
  ℕ, ◌<◌, ◌≡◌, refl, ◌∙◌, Bool, true, false, none, some, List, ◌∷◌, is_some, arith, inl, inr,
}
use ha_runtime_auto_off.Models.{RuntimeCycle, deadline}
use ha_runtime_auto_off.Models.Values.{DatetimeText}
use ha_runtime_auto_off.Controller.{Controller, ExecutionPlan}
use ha_runtime_auto_off.Controller.Deadline.{cancel_deadline}
use ha_runtime_auto_off.Controller.Errors.{shabbat_block_reason}
use ha_runtime_auto_off.Controller.Reconcile.{Reconciled, pending, trigger_of, reconcile}
use ha_runtime_auto_off.Controller.Reconcile.Safety.{reconcile_progress}
use ha_runtime_auto_off.Controller.Save.{save}
use ha_runtime_auto_off.Controller.Handlers.{
  Reading, Executed, stop_begin, stop_locked, async_stop, unload_end, async_unload,
}
use ha_runtime_auto_off.Controller.Finish.{unclaim_all, execute_blocked}
use ha_runtime_auto_off.Controller.Framed.{reconcile-IsFramed}
use ha_runtime_auto_off.Controller.Stopped.Timers.{stop_locked-NoTimer}
use ha_runtime_auto_off.Entry.{Platforms, Others, EntryResult, async_unload_entry}
use ha_runtime_auto_off.Entry.Resume.{reconcile-timer}

-- The countdown of an unloaded controller.
pub record IsLeft (at : ℕ) (c : Controller) : Type 0 where
  pub next : c.next_deadline ≡ some at
  pub timer : is_some c.unsub_deadline ≡ true
  pub unloaded : c.unloaded ≡ true

module _ (dt : DatetimeText) (execute : ExecutionPlan → Controller → Executed)
    (store_ok again_ok : Bool) (now : ℕ) (w g : Reading) (c : Controller) (p : RuntimeCycle)
    (ps : List RuntimeCycle) where
  abbrev locked : Controller
  locked = (stop_locked dt store_ok (stop_begin c)).controller

  abbrev looked : Reconciled
  looked = reconcile g.hass g.now g.stamp (unclaim_all locked)

  abbrev pub due_at : ℕ
  due_at = deadline locked.config.delay_seconds (trigger_of locked.config p ps)

  -- The execution's stretch is all that happens while the stop waits for it.
  abbrev pub gate_passes : Others
  gate_passes = record { before = λ d. d; behind = λ d. (execute_blocked dt g d).controller }

  abbrev pub nobody : Others
  nobody = record { before = λ d. d; behind = λ d. d }

  abbrev pub unloading : EntryResult
  unloading =
      async_unload_entry dt execute gate_passes (λ d. d) nobody store_ok again_ok Platforms.unloaded
        now w c

  locked-same : c.unloaded ≡ false → (locked.unloaded ≡ true) × (locked.enabled ≡ c.enabled)
  unfolding stop_locked stop_begin cancel_deadline save
  locked-same loaded = ground arith

  blocked-IsLeft :
      (at : ℕ) → IsLeft at looked.controller → IsLeft at (execute_blocked dt g locked).controller
  unfolding execute_blocked save
  blocked-IsLeft at h = ground (arith, h)

  unloaded-IsLeft :
      (at : ℕ) (d : Controller)
      → IsLeft at d
      → IsLeft at (async_unload dt nobody.before nobody.behind again_ok d).controller
  unfolding async_unload async_stop stop_begin unload_end
  unloaded-IsLeft at d h = ground (arith, h)

  stopped-blocked :
      c.unloaded ≡ false
      → (async_stop dt gate_passes.before gate_passes.behind store_ok c).controller
        ≡ (execute_blocked dt g locked).controller
  unfolding async_stop
  stopped-blocked loaded = ground arith

  looked-IsLeft :
      c.unloaded ≡ false
      → c.enabled ≡ true
      → shabbat_block_reason (unclaim_all locked) g.hass ≡ none
      → pending (unclaim_all locked) ≡ p ∷ ps
      → g.now < due_at
      → IsLeft due_at looked.controller
  looked-IsLeft loaded on allowed same early =
      let (gone, enabled) = locked-same loaded in
      let d = unclaim_all locked in
      let free = (stop_locked-NoTimer dt store_ok (stop_begin c)).0 in
      elim (reconcile_progress g.hass g.now g.stamp d p ps (enabled ∙ on) allowed same) [
        | inl (_, counts, _) ↦ record {
          next = counts.next;
          timer = reconcile-timer g d p ps (enabled ∙ on) allowed same free early;
          unloaded = (reconcile-IsFramed g.hass g.now g.stamp d).unloaded ∙ gone;
        }
        | inr (due, _, _) ↦ absurd (omega (arith, due, early))
      ]

  -- A timer survives the unloading: the stop of an enabled rule has had the lock, and an execution
  -- that met a block takes it next, while the stop waits for it. The block has gone, and a cycle is
  -- pending whose deadline, that of the trigger, is ahead. Then the entry is unloaded with a
  -- countdown to that deadline and its timer, as the second stop cancels neither.
  pub async_unload_entry-IsLeft :
      c.unloaded ≡ false
      → c.enabled ≡ true
      → shabbat_block_reason (unclaim_all locked) g.hass ≡ none
      → pending (unclaim_all locked) ≡ p ∷ ps
      → g.now < due_at
      → IsLeft due_at unloading.controller × (unloading.result ≡ some true)
  unfolding async_unload_entry
  async_unload_entry-IsLeft loaded on allowed same early =
      let left = blocked-IsLeft due_at (looked-IsLeft loaded on allowed same early) in
      (
        rw (stopped-blocked loaded)
            (unloaded-IsLeft due_at (execute_blocked dt g locked).controller left),
        refl,
      )
