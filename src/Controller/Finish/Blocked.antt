-- ===== src/Controller/Finish/Blocked.antt =====
-- What becomes of an execution whose rule is blocked before the loop over the targets.
use ha_runtime_auto_off.Prelude.{
  ℕ, ◌≤◌, ◌≡◌, ap, ◌∙◌, true, none, List, [], ◌∷◌, arith, values, filter, is_some, inl, inr,
}
use ha_runtime_auto_off.Hass.{Hass}
use ha_runtime_auto_off.Models.{RuntimeCycle, deadline}
use ha_runtime_auto_off.Models.Values.{DatetimeText}
use ha_runtime_auto_off.Controller.{Controller}
use ha_runtime_auto_off.Controller.Errors.{shabbat_block_reason}
use ha_runtime_auto_off.Controller.Reconcile.{
  Reconciled, is_pending, pending, trigger_of, reconcile,
}
use ha_runtime_auto_off.Controller.Reconcile.Safety.{reconcile_progress, no_pending-plan}
use ha_runtime_auto_off.Controller.Reconcile.Stuck.{IsStuck, reconcile-IsStuck}
use ha_runtime_auto_off.Controller.Save.{save}
use ha_runtime_auto_off.Controller.Handlers.{Reading}
use ha_runtime_auto_off.Controller.Finish.{unclaim_all, execute_blocked}

-- What saving and concluding leave of a controller.
record IsKept (c d : Controller) : Type 0 where
  pub cycles : d.cycles ≡ c.cycles
  pub status : d.status ≡ c.status
  pub next : d.next_deadline ≡ c.next_deadline
  pub kind : d.trigger_entity ≡ c.trigger_entity
  pub unsub : d.unsub_deadline ≡ c.unsub_deadline

module _ (dt : DatetimeText) (w : Reading) (c : Controller) where
  abbrev looked : Reconciled
  looked = reconcile w.hass w.now w.stamp (unclaim_all c)

  execute_blocked-IsKept :
      IsKept looked.controller (execute_blocked dt w c).controller
      × ((execute_blocked dt w c).plan ≡ none)
  unfolding execute_blocked save
  execute_blocked-IsKept = ground arith

  at_deadline :
      (p : RuntimeCycle) (ps : List RuntimeCycle)
      → c.enabled ≡ true
      → shabbat_block_reason (unclaim_all c) w.hass ≡ none
      → pending (unclaim_all c) ≡ p ∷ ps
      → deadline c.config.delay_seconds (trigger_of c.config p ps) ≤ w.now
      → is_some looked.plan ≡ true
  at_deadline p ps on free same due =
      elim (reconcile_progress w.hass w.now w.stamp (unclaim_all c) p ps on free same) [
        | inl (early, _, _) ↦ absurd (omega (arith, early, due))
        | inr (_, planned, executing) ↦ planned
      ]

  -- The block of an enabled rule has gone by the time the lock is taken, and the trigger is
  -- due: the reconciling claims every cycle again, but no execution starts, and no deadline or
  -- timer is left. The status says that the rule executes, and reconciling the controller
  -- again, whatever it reads, starts no execution.
  pub execute_blocked-IsStuck :
      (p : RuntimeCycle) (ps : List RuntimeCycle) (later : Hass) (now stamp : ℕ)
      → c.enabled ≡ true
      → shabbat_block_reason (unclaim_all c) w.hass ≡ none
      → pending (unclaim_all c) ≡ p ∷ ps
      → deadline c.config.delay_seconds (trigger_of c.config p ps) ≤ w.now
      → ((execute_blocked dt w c).plan ≡ none)
        × IsStuck (execute_blocked dt w c).controller
        × ((reconcile later now stamp (execute_blocked dt w c).controller).plan ≡ none)
  execute_blocked-IsStuck p ps later now stamp on free same due =
      let (kept, idle) = execute_blocked-IsKept in
      let planned = at_deadline p ps on free same due in
      let (left, status, next, unsub) =
        reconcile-IsStuck w.now w.stamp w.hass (unclaim_all c) planned in
      let none_left : pending (execute_blocked dt w c).controller ≡ [] =
        ap (λ d. filter is_pending (values d)) kept.cycles ∙ left in
      (
        idle,
        (none_left, kept.status ∙ status, kept.next ∙ next, kept.unsub ∙ unsub),
        no_pending-plan now stamp later (execute_blocked dt w c).controller none_left,
      )
