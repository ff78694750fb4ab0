-- ===== src/Entry/Setup.antt =====
-- A setup that fails leaves nothing of its rule running.
use ha_runtime_auto_off.Prelude.{
  ℕ, ◌≡◌, refl, Bool, true, false, not, Option, none, some, [], arith, if◌then◌else◌, Bool-cases,
  inl, inr, ◌⊎◌, Option-cases,
}
use ha_runtime_auto_off.Models.Values.{DatetimeText, Fields}
use ha_runtime_auto_off.Controller.{Controller, ExecutionPlan}
use ha_runtime_auto_off.Controller.Deadline.{cancel_deadline}
use ha_runtime_auto_off.Controller.Sync.{sync_cycles}
use ha_runtime_auto_off.Controller.Rearm.{rearm_interrupted, apply_retry_interval_change}
use ha_runtime_auto_off.Controller.Reconcile.{Reconciled, reconcile}
use ha_runtime_auto_off.Controller.Save.{Saved, save, restore}
use ha_runtime_auto_off.Controller.Handlers.{
  Outcome, Reading, subscribe, rollback_failed_setup, roll_back, setup_end, set_complete,
  setup_running, setup_starting, setup_until_execution, Executed, run_plan, async_setup,
}
use ha_runtime_auto_off.Entry.{Others, set_up}
use ha_runtime_auto_off.Entry.Unload.{IsQuiet, AreSteps, async_unload-IsQuiet}

-- The setup has failed, and what it had begun is undone.
abbrev IsUndone : Outcome → Type 0
IsUndone o = IsQuiet o.controller × (o.controller.cycles ≡ [])

rollback-IsUndone : (c : Controller) → IsUndone (roll_back c)
unfolding rollback_failed_setup cancel_deadline
rollback-IsUndone c = (
  (record { unloaded = refl; inhibited = refl; state = refl; started = refl }, (refl, refl)),
  refl,
)

setup_end-IsUndone :
    (r : Reconciled) (saved : Saved)
    → (setup_end r saved).raised ≡ true
    → IsUndone (setup_end r saved)
unfolding setup_end
setup_end-IsUndone r saved h = elim (Bool-cases saved.failed) [
  | inl failed ↦ rw failed (rollback-IsUndone saved.controller)
  | inr fine ↦ absurd (ground arith)
]

module _ (dt : DatetimeText) (w : Reading) where
  setup_running-IsUndone :
      (c : Controller) → (setup_running dt w c).raised ≡ true → IsUndone (setup_running dt w c)
  unfolding setup_running
  setup_running-IsUndone c h =
      let r =
        reconcile w.hass w.now w.stamp
          (rearm_interrupted w.now (sync_cycles w.hass w.sync_now none c)).controller in
      setup_end-IsUndone r (save dt true w.store_ok (set_complete r.controller)) h

  branch-IsUndone :
      (overflowed starting : Bool) (c : Controller)
      → (if overflowed
          then roll_back c
          else if starting
          then setup_starting dt c
          else setup_running dt w c).raised
        ≡ true
      → IsUndone (
          if overflowed
          then roll_back c
          else if starting
          then setup_starting dt c
          else setup_running dt w c)
  unfolding setup_starting
  branch-IsUndone true starting c h = rollback-IsUndone c
  branch-IsUndone false true c h = absurd (ground arith)
  branch-IsUndone false false c h = setup_running-IsUndone c h

  setup_until_execution-IsUndone :
      (stored : Option (Option Fields)) (at : ℕ) (c : Controller)
      → (setup_until_execution dt stored at w c).raised ≡ true
      → IsUndone (setup_until_execution dt stored at w c)
  unfolding setup_until_execution
  setup_until_execution-IsUndone none at c h = rollback-IsUndone c
  setup_until_execution-IsUndone (some stored) at c h =
      let changed =
        apply_retry_interval_change at
          (restore dt stored (record (subscribe c) { unloaded = false })) in
      branch-IsUndone changed.overflowed (not w.hass.running) changed.controller h

-- An execution that raises undoes the setup, too.
run_plan-IsUndone :
    (execute : ExecutionPlan → Controller → Executed) (o : Outcome)
    → (o.raised ≡ true → IsUndone o)
    → (run_plan rollback_failed_setup execute o).raised ≡ true
    → IsUndone (run_plan rollback_failed_setup execute o)
unfolding run_plan
run_plan-IsUndone execute o undone h = elim (Option-cases o.plan) [
  | inl idle ↦ rw idle (undone (ground (arith, h, idle)))
  | inr (plan, planned) ↦
      let failed : (execute plan o.controller).raised ≡ true = ground (arith, h, planned) in
      rw (planned, failed) (rollback-IsUndone (execute plan o.controller).controller)
]

module _ (dt : DatetimeText) (execute : ExecutionPlan → Controller → Executed) (w : Reading)
    (others : Others) where
  -- A setup that fails leaves nothing of its rule running. Either the setup of the platforms has
  -- failed, and the controller is as it was constructed; or that of the controller has, by its store,
  -- by a time out of range, or by an exception out of the execution that it awaits. Then what it had
  -- begun is undone, its cycles included, and behind the unloading the controller is marked as
  -- unloaded and inhibited and has no deadline, timer or subscription, whatever other tasks do
  -- meanwhile, as long as none is an execution that met a block.
  pub set_up-IsQuiet :
      (forwarded : Bool) (stored : Option (Option Fields)) (at : ℕ) (store_ok : Bool)
      (c : Controller)
      → AreSteps dt false others.behind
      → (set_up dt execute forwarded stored at w others store_ok c).result ≡ none
      → (forwarded ≡ false)
          × ((set_up dt execute forwarded stored at w others store_ok c).controller ≡ c)
        ⊎ ((async_setup dt execute stored at w c).controller.cycles ≡ [])
          × IsQuiet (set_up dt execute forwarded stored at w others store_ok c).controller
  unfolding set_up async_setup
  set_up-IsQuiet false stored at store_ok c behind h = inl (refl, refl)
  set_up-IsQuiet true stored at store_ok c behind h =
      let o = async_setup dt execute stored at w c in
      elim (Bool-cases o.raised) [
        | inl failed ↦
            let (quiet, cycles) =
              run_plan-IsUndone execute (setup_until_execution dt stored at w c)
                (λ early. setup_until_execution-IsUndone dt w stored at c early) failed in
            inr (
              cycles,
              rw failed (async_unload-IsQuiet dt others store_ok o.controller quiet behind).0,
            )
        | inr fine ↦ absurd (ground (arith, h, fine))
      ]
