-- ===== src/Controller/Sound.antt =====
-- The invariant of the controller, and that the methods called under the lock keep it.
pub mod Storage
pub mod Methods
pub mod Lifecycle
pub mod Executions
use mathlib.Core.Option
use ha_runtime_auto_off.Prelude.{
  ℕ, ◌+◌, ◌==◌, ◌≡◌, refl, Bool, true, false, not, Option, none, some, List, [], ◌∷◌, Dict, get,
  put, map_values, get-map_values, arith, String, str_eq, str_eq_iff, if◌then◌else◌, Bool-cases,
  Option-cases, inl, inr, is_empty,
}
use ha_runtime_auto_off.Hass.{Hass}
use ha_runtime_auto_off.Models.{RuntimeCycle, RuleConfig, LastExecution}
use ha_runtime_auto_off.Models.Values.{
  DatetimeText, Value, null, bool, number, text, array, object, Items, nil, cons, Fields, get_field,
}
use ha_runtime_auto_off.Models.Cycle.{cycle_from_dict}
use ha_runtime_auto_off.Controller.{Controller}
use ha_runtime_auto_off.Controller.Errors.{shabbat_block_reason}
use ha_runtime_auto_off.Controller.Deadline.{cancel_deadline, schedule_deadline}
use ha_runtime_auto_off.Controller.Sync.{StateEvent, sync_cycles}
use ha_runtime_auto_off.Controller.Sync.Keys.{
  IsKeyed, put-IsKeyed, map_values-IsKeyed, sync_cycles-IsKeyed,
}
use ha_runtime_auto_off.Controller.Rearm.{
  rearm_cycle, rearm_interrupted, move_retry, move_retries, cons_moved, apply_retry_interval_change,
}
use ha_runtime_auto_off.Controller.Reconcile.{
  claim, unclaim, Reconciled, count_down, claim_due, reconcile_pending, reconcile, pending,
  trigger_of,
}
use ha_runtime_auto_off.Controller.Save.{save, restored_items, restored_cycles, add_cycle, restore}
use ha_runtime_auto_off.Controller.Timed.{IsTimed, IsArmed, reconcile-IsTimed}

pub record IsSound (c : Controller) : Type 0 where
  pub keyed : IsKeyed c.cycles
  pub timed : IsTimed c

-- What a controller brings to the reconciling.
pub record IsReady (c : Controller) : Type 0 where
  pub keyed : IsKeyed c.cycles
  pub armed : IsArmed c

pub IsSound-IsReady : {c : Controller} → IsSound c → IsReady c
IsSound-IsReady h = record { keyed = h.keyed; armed = h.timed.armed }

pub sync_cycles-IsReady :
    (hass : Hass) (now : ℕ) (event : Option StateEvent) (c : Controller)
    → IsReady c
    → IsReady (sync_cycles hass now event c)
unfolding sync_cycles
sync_cycles-IsReady hass now event c h = record {
  keyed = unfold sync_cycles in sync_cycles-IsKeyed hass now event c h.keyed;
  armed = h.armed;
}

pub sync_cycles-IsSound :
    (hass : Hass) (now : ℕ) (event : Option StateEvent) (c : Controller)
    → IsSound c
    → IsSound (sync_cycles hass now event c)
unfolding sync_cycles
sync_cycles-IsSound hass now event c h = record {
  keyed = unfold sync_cycles in sync_cycles-IsKeyed hass now event c h.keyed;
  timed = record { armed = h.timed.armed; kinded = h.timed.kinded };
}

rearm_cycle-stable_key :
    (at : ℕ) (cycle : RuntimeCycle) → (rearm_cycle at cycle).stable_key ≡ cycle.stable_key
rearm_cycle-stable_key at cycle = ground arith

pub rearm_all-IsKeyed :
    (at : ℕ) (d : Dict RuntimeCycle) → IsKeyed d → IsKeyed (map_values (rearm_cycle at) d)
rearm_all-IsKeyed at d h = map_values-IsKeyed (rearm_cycle at) d (rearm_cycle-stable_key at) h

pub rearm_interrupted-IsSound :
    (now : ℕ) (c : Controller) → IsSound c → IsSound (rearm_interrupted now c).controller
unfolding rearm_interrupted
rearm_interrupted-IsSound now c h =
    let all = rearm_all-IsKeyed (now + c.config.retry_interval_seconds) c.cycles h.keyed in
    ground (arith, all)

pub rearm_interrupted-IsReady :
    (now : ℕ) (c : Controller) → IsReady c → IsReady (rearm_interrupted now c).controller
unfolding rearm_interrupted
rearm_interrupted-IsReady now c h =
    let all = rearm_all-IsKeyed (now + c.config.retry_interval_seconds) c.cycles h.keyed in
    ground (arith, all)

pub save-IsSound :
    (dt : DatetimeText) (force store_ok : Bool) (c : Controller)
    → IsSound c
    → IsSound (save dt force store_ok c).controller
unfolding save
save-IsSound dt force store_ok c h = ground arith

claim_all-IsKeyed : (d : Dict RuntimeCycle) → IsKeyed d → IsKeyed (map_values claim d)
claim_all-IsKeyed d h = map_values-IsKeyed claim d (λ cycle. refl) h

pub unclaim_all-IsKeyed : (d : Dict RuntimeCycle) → IsKeyed d → IsKeyed (map_values unclaim d)
unclaim_all-IsKeyed d h = map_values-IsKeyed unclaim d (λ cycle. refl) h

count_down-cycles :
    (stamp : ℕ) (t : RuntimeCycle) (c : Controller)
    → (count_down stamp t c).controller.cycles ≡ c.cycles
unfolding count_down schedule_deadline
count_down-cycles stamp t c = ground arith

reconcile_pending-IsKeyed :
    (now stamp : ℕ) (ps : List RuntimeCycle) (c : Controller)
    → IsKeyed c.cycles
    → IsKeyed (reconcile_pending now stamp ps c).controller.cycles
unfolding reconcile_pending claim_due cancel_deadline
reconcile_pending-IsKeyed now stamp [] c h = h
reconcile_pending-IsKeyed now stamp (p ∷ ps) c h =
    ground
      (arith, count_down-cycles stamp (trigger_of c.config p ps) c, claim_all-IsKeyed c.cycles h)

reconcile-IsKeyed :
    (hass : Hass) (now stamp : ℕ) (c : Controller)
    → IsKeyed c.cycles
    → IsKeyed (reconcile hass now stamp c).controller.cycles
unfolding reconcile cancel_deadline
reconcile-IsKeyed hass now stamp c h =
    ground (arith, reconcile_pending-IsKeyed now stamp (pending c) c h)

pub reconcile-IsSound :
    (hass : Hass) (now stamp : ℕ) (c : Controller)
    → IsReady c
    → IsSound (reconcile hass now stamp c).controller
reconcile-IsSound hass now stamp c h = record {
  keyed = reconcile-IsKeyed hass now stamp c h.keyed;
  timed = reconcile-IsTimed now stamp hass c h.armed;
}
