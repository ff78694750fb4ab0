-- ===== src/Controller/Finish/Followup.antt =====
-- The retry that follows an execution.
use ha_runtime_auto_off.Prelude.{
  ℕ, ◌+◌, ◌<◌, ◌≡◌, ◌≢◌, refl, sym, ap, ◌∙◌, Bool, true, false, none, some, List, [], ◌∷◌, arith,
  All, All_at, Dict, String, values, map_values, filter, is_empty, max, inl, inr,
}
use ha_runtime_auto_off.Hass.{Hass}
use ha_runtime_auto_off.Models.{RuntimeCycle, RuleConfig, Status, ShutdownKind}
use ha_runtime_auto_off.Models.Values.{DatetimeText}
use ha_runtime_auto_off.Controller.{Controller, ExecutionPlan}
use ha_runtime_auto_off.Controller.Errors.{shabbat_block_reason}
use ha_runtime_auto_off.Controller.Sync.{sync_cycles}
use ha_runtime_auto_off.Controller.Rearm.{rearm_cycle, rearm_interrupted}
use ha_runtime_auto_off.Controller.Reconcile.{is_pending, pending, trigger_of, reconcile}
use ha_runtime_auto_off.Controller.Reconcile.Trigger.{trigger_of-IsTrigger}
use ha_runtime_auto_off.Controller.Reconcile.Safety.{reconcile_progress}
use ha_runtime_auto_off.Controller.Save.{save}
use ha_runtime_auto_off.Controller.Handlers.{Reading}
use ha_runtime_auto_off.Controller.Execute.{Tally}
use ha_runtime_auto_off.Controller.Finish.{record_execution, follow_up, finish_execution}

rearmed_pending :
    (at : ℕ) (d : Dict RuntimeCycle)
    → filter is_pending (values (map_values (rearm_cycle at) d))
      ≡ values (map_values (rearm_cycle at) d)
unfolding values map_values
rearmed_pending at [] = refl
rearmed_pending at ((k, cycle) ∷ d) = ground (arith, rearmed_pending at d)

-- If every cycle is claimed, every one is given the same retry.
rearmed_retries :
    (at : ℕ) (d : Dict RuntimeCycle)
    → filter is_pending (values d) ≡ []
    → All (λ cycle. cycle.retry_at ≡ some at) (values (map_values (rearm_cycle at) d))
unfolding values map_values
rearmed_retries at [] h = tt
rearmed_retries at ((k, cycle) ∷ d) h = (ground arith, rearmed_retries at d (ground arith))

retry-deadline :
    (config : RuleConfig) (at : ℕ) (p : RuntimeCycle) (ps : List RuntimeCycle)
    → All (λ cycle. cycle.retry_at ≡ some at) (p ∷ ps)
    → (trigger_of config p ps).retry_at ≡ some at
retry-deadline config at p ps h =
    All_at (λ cycle. cycle.retry_at ≡ some at) (trigger_of config p ps) (p ∷ ps) h
      (trigger_of-IsTrigger config p ps).member

-- `d` waits for a retry at `at`.
pub record Retries (at : ℕ) (d : Controller) : Type 0 where
  pub next : d.next_deadline ≡ some at
  pub kind : d.next_shutdown_kind ≡ some ShutdownKind.retry
  pub status : d.status ≡ Status.countdown

retry_counted :
    (hass : Hass) (now stamp at : ℕ) (c : Controller) (p : RuntimeCycle) (ps : List RuntimeCycle)
    → c.enabled ≡ true
    → shabbat_block_reason c hass ≡ none
    → pending c ≡ p ∷ ps
    → All (λ cycle. cycle.retry_at ≡ some at) (p ∷ ps)
    → now < at
    → Retries at (reconcile hass now stamp c).controller
      × ((reconcile hass now stamp c).plan ≡ none)
retry_counted hass now stamp at c p ps on free same all later =
    let retry = retry-deadline c.config at p ps all in
    elim (reconcile_progress hass now stamp c p ps on free same) [
      | inl (early, down, idle) ↦ (
        record {
          next = down.next ∙ ground arith;
          kind = down.kind ∙ ground arith;
          status = down.status;
        },
        idle,
      )
      | inr (due, _, _) ↦ absurd (ground arith)
    ]

-- The reconciling of a controller whose cycles, all claimed before, were just given a retry.
rearmed-Retries :
    (hass : Hass) (now stamp at : ℕ) (c : Controller) (k : String) (x : RuntimeCycle)
    (d : Dict RuntimeCycle)
    → c.enabled ≡ true
    → shabbat_block_reason c hass ≡ none
    → c.cycles ≡ map_values (rearm_cycle at) ((k, x) ∷ d)
    → filter is_pending (values ((k, x) ∷ d)) ≡ []
    → now < at
    → Retries at (reconcile hass now stamp c).controller
      × ((reconcile hass now stamp c).plan ≡ none)
unfolding values map_values
rearmed-Retries hass now stamp at c k x d on free cycles claimed later =
    retry_counted hass now stamp at c (rearm_cycle at x) (values (map_values (rearm_cycle at) d)) on
      free (ap (λ e. filter is_pending (values e)) cycles ∙ rearmed_pending at ((k, x) ∷ d))
      (rearmed_retries at ((k, x) ∷ d) claimed) later

follow_up-reconcile :
    (w : Reading) (stamp : ℕ) (plan : ExecutionPlan) (c : Controller)
    → is_empty c.cycles ≡ false
    → c.config.retry_interval_seconds ≢ 0
    → c.unloaded ≡ false
    → follow_up w stamp plan c ≡ reconcile w.hass (max w.now plan.claimed_at) stamp c
unfolding follow_up
follow_up-reconcile w stamp plan c some_cycle positive loaded = ground arith

rearmed-cons :
    (at : ℕ) (k : String) (x : RuntimeCycle) (d : Dict RuntimeCycle)
    → is_empty (map_values (rearm_cycle at) ((k, x) ∷ d)) ≡ false
unfolding map_values
rearmed-cons at k x d = refl

module _ (w : Reading) (plan : ExecutionPlan) (t : Tally) (c : Controller) where
  abbrev synced : Controller
  synced = sync_cycles w.hass w.sync_now none c

  abbrev base : ℕ
  base = max w.now plan.claimed_at

  record_execution-free :
      shabbat_block_reason c w.hass ≡ none
      → shabbat_block_reason (record_execution w plan t c) w.hass ≡ none
  unfolding record_execution rearm_interrupted sync_cycles shabbat_block_reason
  record_execution-free h = ground arith

  record_execution-flags :
      ((record_execution w plan t c).enabled ≡ c.enabled)
      × ((record_execution w plan t c).unloaded ≡ c.unloaded)
      × ((record_execution w plan t c).config ≡ c.config)
  unfolding record_execution rearm_interrupted sync_cycles
  record_execution-flags = ground arith

  record_execution-cycles :
      c.config.retry_interval_seconds ≢ 0
      → (record_execution w plan t c).cycles
        ≡ map_values (rearm_cycle (base + c.config.retry_interval_seconds)) synced.cycles
  unfolding record_execution rearm_interrupted sync_cycles
  record_execution-cycles positive = ground arith

  follow_up-Retries :
      (stamp : ℕ) (k : String) (x : RuntimeCycle) (d : Dict RuntimeCycle)
      → c.enabled ≡ true
      → c.unloaded ≡ false
      → c.config.retry_interval_seconds ≢ 0
      → shabbat_block_reason c w.hass ≡ none
      → synced.cycles ≡ (k, x) ∷ d
      → pending synced ≡ []
      → Retries
          (base + c.config.retry_interval_seconds)
          (follow_up w stamp plan (record_execution w plan t c)).controller
        × ((follow_up w stamp plan (record_execution w plan t c)).plan ≡ none)
  follow_up-Retries stamp k x d on loaded positive free here claimed =
      let at = base + c.config.retry_interval_seconds in
      let after = record_execution w plan t c in
      let (enabled, unloaded, config) = record_execution-flags in
      let cycles = record_execution-cycles positive ∙ ap (map_values (rearm_cycle at)) here in
      let whole =
        follow_up-reconcile w stamp plan after (ap is_empty cycles ∙ rearmed-cons at k x d)
          (λ z. absurd (positive (sym (ap RuleConfig.retry_interval_seconds config) ∙ z)))
          (unloaded ∙ loaded) in
      let goal =
        rearmed-Retries w.hass base stamp at after k x d (enabled ∙ on) (record_execution-free free)
          cycles (sym (ap (λ e. filter is_pending (values e)) here) ∙ claimed)
          (omega (arith, positive)) in
      rw whole goal

save-Retries :
    (dt : DatetimeText) (force store_ok : Bool) (at : ℕ) (c : Controller)
    → Retries at c
    → Retries at (save dt force store_ok c).controller
unfolding save
save-Retries dt force store_ok at c h = ground arith

-- An execution that leaves cycles running is followed by a retry. Suppose that the rule is enabled,
-- not unloaded, has a retry interval and is not blocked, and that after the states are read cycles
-- are left and all of them are claimed. Then the controller waits for a retry at one interval after
-- the execution's end (or its claim, if the clock went back), even if the store fails, and starts
-- no second execution at once.
pub finish_execution-Retries :
    (dt : DatetimeText) (w : Reading) (stamp : ℕ) (plan : ExecutionPlan) (t : Tally)
    (c : Controller) (k : String) (x : RuntimeCycle) (d : Dict RuntimeCycle)
    → c.enabled ≡ true
    → c.unloaded ≡ false
    → c.config.retry_interval_seconds ≢ 0
    → shabbat_block_reason c w.hass ≡ none
    → (sync_cycles w.hass w.sync_now none c).cycles ≡ (k, x) ∷ d
    → pending (sync_cycles w.hass w.sync_now none c) ≡ []
    → Retries
        (max w.now plan.claimed_at + c.config.retry_interval_seconds)
        (finish_execution dt w stamp plan t c).controller
      × ((finish_execution dt w stamp plan t c).plan ≡ none)
unfolding finish_execution
finish_execution-Retries dt w stamp plan t c k x d on loaded positive free here claimed =
    let (after, idle) =
      follow_up-Retries w plan t c stamp k x d on loaded positive free here claimed in
    (
      save-Retries dt true w.store_ok (max w.now plan.claimed_at + c.config.retry_interval_seconds)
          (follow_up w stamp plan (record_execution w plan t c)).controller after,
      idle,
    )
