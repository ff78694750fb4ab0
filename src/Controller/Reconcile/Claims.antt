-- ===== src/Controller/Reconcile/Claims.antt =====
-- What `_reconcile_locked` does to the cycles.
use ha_runtime_auto_off.Prelude.{ℕ, ◌≡◌, ◌⊎◌, refl, List, [], ◌∷◌, Dict, map_values, arith, inl}
use ha_runtime_auto_off.Hass.{Hass}
use ha_runtime_auto_off.Models.{RuntimeCycle}
use ha_runtime_auto_off.Controller.{Controller}
use ha_runtime_auto_off.Controller.Deadline.{cancel_deadline, schedule_deadline}
use ha_runtime_auto_off.Controller.Reconcile.{
  claim, count_down, claim_due, reconcile_pending, pending, reconcile,
}

-- The cycles after the reconciling: the same, or all of them claimed.
abbrev pub Claims : Dict RuntimeCycle → Dict RuntimeCycle → Type 0
Claims d e = (e ≡ d) ⊎ (e ≡ map_values claim d)

reconcile_pending-Claims :
    (now stamp : ℕ) (ps : List RuntimeCycle) (c : Controller)
    → Claims c.cycles (reconcile_pending now stamp ps c).controller.cycles
unfolding reconcile_pending claim_due cancel_deadline count_down schedule_deadline
reconcile_pending-Claims now stamp [] c = inl refl
reconcile_pending-Claims now stamp (p ∷ ps) c = ground arith

pub reconcile-Claims :
    (hass : Hass) (now stamp : ℕ) (c : Controller)
    → Claims c.cycles (reconcile hass now stamp c).controller.cycles
unfolding reconcile cancel_deadline
reconcile-Claims hass now stamp c = ground (arith, reconcile_pending-Claims now stamp (pending c) c)
