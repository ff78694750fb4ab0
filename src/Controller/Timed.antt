-- ===== src/Controller/Timed.antt =====
-- The announced deadline and the timer belong together, whatever the controller goes through.
use ha_runtime_auto_off.Prelude.{
  ℕ, ◌≡◌, refl, true, Option, none, some, List, [], ◌∷◌, arith, is_some, opt_nat_eq_iff,
}
use ha_runtime_auto_off.Hass.{Hass}
use ha_runtime_auto_off.Models.{RuntimeCycle, deadline}
use ha_runtime_auto_off.Controller.{Controller, Timer}
use ha_runtime_auto_off.Controller.Deadline.{cancel_deadline, schedule_deadline}
use ha_runtime_auto_off.Controller.Reconcile.{
  count_down, claim_due, reconcile_pending, reconcile, pending, trigger_of,
}

-- The timer that an announced deadline asks for.
abbrev pub timer_of : ℕ → Option ℕ → Option Timer
timer_of generation none = none
timer_of generation (some due) = some (record { generation = generation; due = due })

-- A deadline is announced exactly while a timer of the present generation waits for it, and a kind
-- of shutdown only together with a deadline.
pub record IsTimed (c : Controller) : Type 0 where
  pub armed : c.unsub_deadline ≡ timer_of c.timer_generation c.next_deadline
  pub kinded : is_some c.next_shutdown_kind ≡ true → is_some c.next_deadline ≡ true

-- The first half, which reconciling needs: it decides the kind anew.
abbrev pub IsArmed : Controller → Type 0
IsArmed c = c.unsub_deadline ≡ timer_of c.timer_generation c.next_deadline

pub cancel_deadline-IsTimed : (c : Controller) → IsTimed (cancel_deadline c)
unfolding cancel_deadline
cancel_deadline-IsTimed c = record { armed = refl; kinded = λ k. k }

pub schedule_deadline-IsTimed :
    (due : ℕ) (c : Controller) → IsTimed c → IsTimed (schedule_deadline due c)
unfolding schedule_deadline
schedule_deadline-IsTimed due c h = ground arith

-- After scheduling, the deadline is the one asked for.
pub schedule_deadline-next :
    (due : ℕ) (c : Controller) → (schedule_deadline due c).next_deadline ≡ some due
unfolding schedule_deadline
schedule_deadline-next due c = ground (arith, opt_nat_eq_iff c.next_deadline (some due))

module _ (now stamp : ℕ) where
  count_down-IsTimed :
      (t : RuntimeCycle) (c : Controller) → IsArmed c → IsTimed (count_down stamp t c).controller
  unfolding count_down schedule_deadline
  count_down-IsTimed t c h =
      ground (arith, opt_nat_eq_iff c.next_deadline (some (deadline c.config.delay_seconds t)))

  claim_due-IsTimed : (t : RuntimeCycle) (c : Controller) → IsTimed (claim_due now t c).controller
  unfolding claim_due cancel_deadline
  claim_due-IsTimed t c = record { armed = refl; kinded = λ k. k }

  reconcile_pending-IsTimed :
      (ps : List RuntimeCycle) (c : Controller)
      → IsArmed c
      → IsTimed (reconcile_pending now stamp ps c).controller
  unfolding reconcile_pending cancel_deadline
  reconcile_pending-IsTimed [] c h = record { armed = refl; kinded = λ k. k }
  reconcile_pending-IsTimed (p ∷ ps) c h = ground (
    arith,
    count_down-IsTimed (trigger_of c.config p ps) c h,
    claim_due-IsTimed (trigger_of c.config p ps) c,
  )

  -- Reconciling keeps the timer and the announcement together, on every branch.
  pub reconcile-IsTimed :
      (hass : Hass) (c : Controller) → IsArmed c → IsTimed (reconcile hass now stamp c).controller
  unfolding reconcile cancel_deadline
  reconcile-IsTimed hass c h = ground (arith, reconcile_pending-IsTimed (pending c) c h)
