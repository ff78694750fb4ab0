-- ===== src/Controller/Starts.antt =====
-- The starts of the clocks, over the steps of the controller.
pub mod Tracked
pub mod Kept
pub mod Steps
pub mod Runs
use mathlib.Core.Option
use ha_runtime_auto_off.Prelude.{
  ℕ, ◌+◌, String, ◌≡◌, refl, sym, ap, subst, ◌∙◌, ◌⊎◌, Option, none, some, Dict, get, map_values,
  get-map_values, arith, inl, inr, Option-cases, if◌then◌else◌,
}
use ha_runtime_auto_off.Hass.{HaState, Hass}
use ha_runtime_auto_off.Models.{RuntimeCycle}
use ha_runtime_auto_off.Controller.{Controller}
use ha_runtime_auto_off.Controller.Errors.{identity_or_area_error}
use ha_runtime_auto_off.Controller.Sync.{StateEvent, observed, sync_cycles}
use ha_runtime_auto_off.Controller.Sync.Cycles.{Tracks, next_cycle, get-sync_cycles}
use ha_runtime_auto_off.Controller.Rearm.{rearm_cycle, rearm_interrupted}
use ha_runtime_auto_off.Controller.Reconcile.{claim, unclaim, reconcile}
use ha_runtime_auto_off.Controller.Reconcile.Claims.{Claims, reconcile-Claims}

-- When the clock under the key began, if there is one.
abbrev pub start_of : String → Dict RuntimeCycle → Option ℕ
start_of k d = Option.map RuntimeCycle.started_at (get k d)

-- A clock that runs has ended, or runs on from its start.
abbrev pub IsKept : Option ℕ → Option ℕ → Type 0
IsKept none after = Unit
IsKept (some s) after = (after ≡ none) ⊎ (after ≡ some s)

pub IsKept-refl : (s : Option ℕ) → IsKept s s
IsKept-refl none = tt
IsKept-refl (some s) = inr refl

start_of-map_values :
    (f : RuntimeCycle → RuntimeCycle) (k : String) (d : Dict RuntimeCycle)
    → ((cycle : RuntimeCycle) → (f cycle).started_at ≡ cycle.started_at)
    → start_of k (map_values f d) ≡ start_of k d
start_of-map_values f k d same = elim (Option-cases (get k d)) [
  | inl gone ↦ ground (arith, get-map_values f k d, gone)
  | inr (cycle, here) ↦ ground (arith, get-map_values f k d, here, same cycle)
]

rearm_cycle-start :
    (at : ℕ) (cycle : RuntimeCycle) → (rearm_cycle at cycle).started_at ≡ cycle.started_at
rearm_cycle-start at cycle = ground arith

pub start_of-rearm_interrupted :
    (now : ℕ) (k : String) (c : Controller)
    → start_of k (rearm_interrupted now c).controller.cycles ≡ start_of k c.cycles
unfolding rearm_interrupted
start_of-rearm_interrupted now k c =
    let all =
      start_of-map_values (rearm_cycle (now + c.config.retry_interval_seconds)) k c.cycles
        (rearm_cycle-start (now + c.config.retry_interval_seconds)) in
    ground (arith, all)

start_of-Claims :
    (k : String) (d d' : Dict RuntimeCycle) → Claims d d' → start_of k d' ≡ start_of k d
start_of-Claims k d d' (inl same) = ap (start_of k) same
start_of-Claims k d d' (inr same) =
    ap (start_of k) same ∙ start_of-map_values claim k d (λ cycle. refl)

pub start_of-reconcile :
    (hass : Hass) (now stamp : ℕ) (k : String) (c : Controller)
    → start_of k (reconcile hass now stamp c).controller.cycles ≡ start_of k c.cycles
start_of-reconcile hass now stamp k c =
    start_of-Claims k c.cycles (reconcile hass now stamp c).controller.cycles
      (reconcile-Claims hass now stamp c)

pub start_of-unclaim :
    (k : String) (d : Dict RuntimeCycle) → start_of k (map_values unclaim d) ≡ start_of k d
start_of-unclaim k d = start_of-map_values unclaim k d (λ cycle. refl)

next_cycle-IsKept :
    (now : ℕ) (k e : String) (error : Option String) (state : Option HaState)
    (old : Option RuntimeCycle)
    → IsKept
        (Option.map RuntimeCycle.started_at old)
        (Option.map RuntimeCycle.started_at (next_cycle now k e error state old))
unfolding next_cycle
next_cycle-IsKept now k e error state none = tt
next_cycle-IsKept now k e (some x) state (some old) = inl refl
next_cycle-IsKept now k e none none (some old) = ground arith
next_cycle-IsKept now k e none (some s) (some old) = ground arith

pub sync_cycles-IsKept :
    (hass : Hass) (now : ℕ) (event : Option StateEvent) (c : Controller) (k e : String)
    → Tracks c k e
    → IsKept (start_of k c.cycles) (start_of k (sync_cycles hass now event c).cycles)
sync_cycles-IsKept hass now event c k e track =
    subst (λ o. IsKept (start_of k c.cycles) (Option.map RuntimeCycle.started_at o))
      (sym (get-sync_cycles c hass now event k e track))
      (next_cycle-IsKept now k e (identity_or_area_error c hass e) (observed hass event e)
        (get k c.cycles))
