-- ===== src/Sensors/Countdown.antt =====
-- What is shown during a countdown belongs to one and the same cycle, and which starts are shown.
use mathlib.Core.List.{Memᴰ}
use ha_runtime_auto_off.Prelude.{
  ℕ, ◌<◌, ◌≡◌, ◌≢◌, sym, ap, ◌∙◌, subst, true, none, some, List, [], ◌∷◌, All, All_at, values,
  mem-filter, is_some, str_eq_iff, arith, inl, inr,
}
use ha_runtime_auto_off.Hass.{Hass}
use ha_runtime_auto_off.Models.{RuntimeCycle, RuleConfig, Status, deadline}
use ha_runtime_auto_off.Controller.{Controller}
use ha_runtime_auto_off.Controller.Errors.{shabbat_block_reason}
use ha_runtime_auto_off.Controller.Reconcile.{is_pending, pending, trigger_of, kind_of, reconcile}
use ha_runtime_auto_off.Controller.Reconcile.Trigger.{trigger_of-IsTrigger}
use ha_runtime_auto_off.Controller.Reconcile.Safety.{reconcile_progress}
use ha_runtime_auto_off.Sensors.{first_start, Shown, shown}

-- No two cycles have the same entity.
abbrev pub AreApart : List RuntimeCycle → Type 0
AreApart [] = Unit
AreApart (c ∷ cs) = All (λ d. d.entity_id ≢ c.entity_id) cs × AreApart cs

first_start-mem :
    (t : RuntimeCycle) (cs : List RuntimeCycle)
    → AreApart cs
    → Memᴰ t cs
    → first_start (some t.entity_id) cs ≡ some t.started_at
unfolding first_start
first_start-mem t [] h m = elim m [ ]
first_start-mem t (c ∷ cs) h (Memᴰ.head same) =
    subst (λ x. first_start (some x.entity_id) (c ∷ cs) ≡ some x.started_at) (sym same)
      (ground (arith, str_eq_iff c.entity_id c.entity_id))
first_start-mem t (c ∷ cs) (apart, rest) (Memᴰ.tail m) =
    let other = All_at (λ d. d.entity_id ≢ c.entity_id) t cs apart m in
    ground (arith, str_eq_iff c.entity_id t.entity_id, first_start-mem t cs rest m)

-- `s` shows the countdown to the deadline of the cycle `t`.
pub record ShowsCountdown (config : RuleConfig) (t : RuntimeCycle) (s : Shown) : Type 0 where
  pub status : s.status ≡ Status.countdown
  pub trigger : s.trigger ≡ some t.entity_id
  pub since : s.trigger_active_since ≡ some t.started_at
  pub next : s.next_shutdown ≡ some (deadline config.delay_seconds t)
  pub kind : s.next_shutdown_kind ≡ some (kind_of (is_some t.retry_at))

-- When an enabled, unblocked rule is reconciled before the deadline of its trigger, and no two
-- cycles have the same entity, the sensors agree: they show the entity, the start, the deadline and
-- the kind of one and the same cycle, the trigger.
pub reconcile-ShowsCountdown :
    (hass : Hass) (now stamp : ℕ) (c : Controller) (p : RuntimeCycle) (ps : List RuntimeCycle)
    → c.enabled ≡ true
    → shabbat_block_reason c hass ≡ none
    → pending c ≡ p ∷ ps
    → now < deadline c.config.delay_seconds (trigger_of c.config p ps)
    → AreApart (values c.cycles)
    → ShowsCountdown c.config
        (trigger_of c.config p ps)
        (shown (reconcile hass now stamp c).controller)
unfolding shown
reconcile-ShowsCountdown hass now stamp c p ps on free same early apart =
    let t = trigger_of c.config p ps in
    let d = (reconcile hass now stamp c).controller in
    let member = subst (Memᴰ t) (sym same) (trigger_of-IsTrigger c.config p ps).member in
    let (waits, there) = mem-filter is_pending t (values c.cycles) member in
    elim (reconcile_progress hass now stamp c p ps on free same) [
      | inr (due, _, _) ↦ absurd (omega (arith, early, due))
      | inl (_, down, _) ↦ record {
        status = down.status;
        trigger = down.entity;
        since =
            ap (λ e. first_start e (values d.cycles)) down.entity
            ∙ ap (λ m. first_start (some t.entity_id) (values m)) down.cycles
            ∙ first_start-mem t (values c.cycles) apart there;
        next = down.next;
        kind = down.kind;
      }
    ]
