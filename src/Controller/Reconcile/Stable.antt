-- ===== src/Controller/Reconcile/Stable.antt =====
-- Reconciling twice before the deadline changes nothing and announces nothing new.
use ha_runtime_auto_off.Prelude.{
  ℕ, ◌<◌, ◌≡◌, ◌∙◌, true, none, some, List, ◌∷◌, arith, ltb, is_some, opt_nat_eq_iff,
}
use ha_runtime_auto_off.Hass.{Hass}
use ha_runtime_auto_off.Models.{RuntimeCycle, Status, deadline}
use ha_runtime_auto_off.Controller.{Controller}
use ha_runtime_auto_off.Controller.Errors.{shabbat_block_reason}
use ha_runtime_auto_off.Controller.Deadline.{schedule_deadline}
use ha_runtime_auto_off.Controller.Timed.{IsTimed}
use ha_runtime_auto_off.Controller.Reconcile.{
  nothing_due, kind_of, pending, trigger_of, count_down, reconcile_pending, reconcile,
}
use ha_runtime_auto_off.Controller.Reconcile.Safety.{CountsDown, reconcile_at}

-- A countdown to the same deadline is left as it is.
count_down_again :
    (stamp : ℕ) (t : RuntimeCycle) (c : Controller)
    → is_some c.unsub_deadline ≡ true
    → c.next_deadline ≡ some (deadline c.config.delay_seconds t)
    → c.next_shutdown_kind ≡ some (kind_of (is_some t.retry_at))
    → c.trigger_entity ≡ some t.entity_id
    → c.status ≡ Status.countdown
    → count_down stamp t c ≡ nothing_due c
unfolding count_down schedule_deadline
count_down_again stamp t c timer next kind entity status =
    ground (arith, opt_nat_eq_iff c.next_deadline (some (deadline c.config.delay_seconds t)))

module _ (hass : Hass) (now stamp : ℕ) (c : Controller) (p : RuntimeCycle)
    (ps : List RuntimeCycle) where
  -- An enabled, unblocked rule that already counts down to its trigger, with the timer running, is
  -- left exactly as it is before the deadline: no field changes, the timer is not started again,
  -- and no activity is published.
  pub reconcile_again :
      c.enabled ≡ true
      → shabbat_block_reason c hass ≡ none
      → pending c ≡ p ∷ ps
      → CountsDown (trigger_of c.config p ps) c c
      → IsTimed c
      → now < deadline c.config.delay_seconds (trigger_of c.config p ps)
      → reconcile hass now stamp c ≡ nothing_due c
  unfolding reconcile_pending
  reconcile_again on free same down timed early =
      let t = trigger_of c.config p ps in
      let timer : is_some c.unsub_deadline ≡ true = ground (arith, timed.armed, down.next) in
      let before : ltb now (deadline c.config.delay_seconds t) ≡ true = ground arith in
      reconcile_at hass now stamp c p ps on free same
      ∙ rw before (count_down_again stamp t c timer down.next down.kind down.entity down.status)
