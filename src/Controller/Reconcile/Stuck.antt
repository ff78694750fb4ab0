-- ===== src/Controller/Reconcile/Stuck.antt =====
-- The controller behind a claim: it waits for the execution alone.
use ha_runtime_auto_off.Prelude.{ℕ, ◌≡◌, true, none, List, [], ◌∷◌, arith, is_some}
use ha_runtime_auto_off.Hass.{Hass}
use ha_runtime_auto_off.Models.{RuntimeCycle, Status}
use ha_runtime_auto_off.Controller.{Controller}
use ha_runtime_auto_off.Controller.Deadline.{cancel_deadline}
use ha_runtime_auto_off.Controller.Reconcile.{
  pending, trigger_of, claim_due, reconcile_pending, reconcile,
}
use ha_runtime_auto_off.Controller.Reconcile.Safety.{count_down-plan, reconcile-none}

-- `d` says that it executes; every cycle is claimed and no timer waits.
abbrev pub IsStuck : Controller → Type 0
IsStuck d =
    (pending d ≡ [])
    × (d.status ≡ Status.executing)
    × (d.next_deadline ≡ none)
    × (d.unsub_deadline ≡ none)

module _ (now stamp : ℕ) where
  pending-claimed :
      (ps : List RuntimeCycle) (c : Controller)
      → is_some (reconcile_pending now stamp ps c).plan ≡ true
      → ((reconcile_pending now stamp ps c).controller.status ≡ Status.executing)
        × ((reconcile_pending now stamp ps c).controller.next_deadline ≡ none)
        × ((reconcile_pending now stamp ps c).controller.unsub_deadline ≡ none)
  unfolding reconcile_pending claim_due cancel_deadline
  pending-claimed [] c e = absurd (ground arith)
  pending-claimed (p ∷ ps) c e = ground (arith, count_down-plan stamp (trigger_of c.config p ps) c)

  reconcile-claimed :
      (hass : Hass) (c : Controller)
      → is_some (reconcile hass now stamp c).plan ≡ true
      → ((reconcile hass now stamp c).controller.status ≡ Status.executing)
        × ((reconcile hass now stamp c).controller.next_deadline ≡ none)
        × ((reconcile hass now stamp c).controller.unsub_deadline ≡ none)
  unfolding reconcile
  reconcile-claimed hass c e = ground (arith, pending-claimed (pending c) c)

  pub reconcile-IsStuck :
      (hass : Hass) (c : Controller)
      → is_some (reconcile hass now stamp c).plan ≡ true
      → IsStuck (reconcile hass now stamp c).controller
  reconcile-IsStuck hass c e =
      let (status, next, unsub) = reconcile-claimed hass c e in
      (reconcile-none now stamp hass c e, status, next, unsub)
