-- ===== src/Controller/Reconcile/Safety.antt =====
-- When `_reconcile_locked` claims the cycles for an execution, and what follows.
use ha_runtime_auto_off.Prelude.{
  ℕ, ◌≤◌, ◌<◌, ◌≡◌, refl, sym, subst, Bool, true, false, none, some, List, [], ◌∷◌, arith, Dict,
  values, map_values, filter, ltb, is_some, opt_nat_eq_iff, is_empty, Bool-cases, inl, inr, ◌⊎◌,
}
use ha_runtime_auto_off.Hass.{Hass}
use ha_runtime_auto_off.Models.{RuntimeCycle, Status, deadline}
use ha_runtime_auto_off.Controller.{Controller, ExecutionPlan}
use ha_runtime_auto_off.Controller.Errors.{shabbat_block_reason}
use ha_runtime_auto_off.Controller.Deadline.{cancel_deadline, schedule_deadline}
use ha_runtime_auto_off.Controller.Reconcile.{
  is_pending, pending, claim, kind_of, trigger_of, count_down, claim_due, reconcile_pending,
  reconcile,
}
use ha_runtime_auto_off.Controller.Reconcile.Trigger.{IsTrigger, trigger_of-IsTrigger}

-- The execution `p` was claimed at `now` for the trigger `t`.
pub record IsClaim (now : ℕ) (c : Controller) (p : ExecutionPlan) (t : RuntimeCycle) : Type 0 where
  pub trigger : IsTrigger c.config (pending c) t
  pub due : deadline c.config.delay_seconds t ≤ now
  pub key : p.trigger_key ≡ t.stable_key
  pub entity : p.trigger_entity ≡ t.entity_id
  pub started : p.trigger_started_at ≡ t.started_at
  pub claimed : p.claimed_at ≡ now
  pub retry : p.is_retry ≡ is_some t.retry_at
  pub targets : p.target_entities ≡ c.config.entities

pub count_down-plan :
    (stamp : ℕ) (t : RuntimeCycle) (c : Controller) → (count_down stamp t c).plan ≡ none
unfolding count_down
count_down-plan stamp t c = ground arith

module _ (now stamp : ℕ) (c : Controller) (p : ExecutionPlan) where
  claim_due-fields :
      (t : RuntimeCycle)
      → (claim_due now t c).plan ≡ some p
      → (p.trigger_key ≡ t.stable_key)
        × (p.trigger_entity ≡ t.entity_id)
        × (p.trigger_started_at ≡ t.started_at)
        × (p.claimed_at ≡ now)
        × (p.is_retry ≡ is_some t.retry_at)
        × (p.target_entities ≡ c.config.entities)
  unfolding claim_due
  claim_due-fields t e = ground arith

  IsClaim-at :
      (first : RuntimeCycle) (rest : List RuntimeCycle)
      → pending c ≡ first ∷ rest
      → (b : Bool) → ltb now (deadline c.config.delay_seconds (trigger_of c.config first rest)) ≡ b
      → (reconcile_pending now stamp (first ∷ rest) c).plan ≡ some p
      → IsClaim now c p (trigger_of c.config first rest)
  unfolding reconcile_pending
  IsClaim-at first rest same true early e =
      absurd (
        let idle = count_down-plan stamp (trigger_of c.config first rest) c in ground (arith, idle))
  IsClaim-at first rest same false due e =
      let trigger : IsTrigger c.config (pending c) (trigger_of c.config first rest) =
        subst (λ l. IsTrigger c.config l (trigger_of c.config first rest)) (sym same)
          (trigger_of-IsTrigger c.config first rest) in
      let taken : (claim_due now (trigger_of c.config first rest) c).plan ≡ some p = ground arith in
      let (key, entity, started, claimed, retry, targets) =
        claim_due-fields (trigger_of c.config first rest) taken in
      record {
        trigger = trigger;
        due = ground arith;
        key = key;
        entity = entity;
        started = started;
        claimed = claimed;
        retry = retry;
        targets = targets;
      }

  pending-IsClaim :
      (ps : List RuntimeCycle)
      → pending c ≡ ps
      → (reconcile_pending now stamp ps c).plan ≡ some p
      → (t : RuntimeCycle) × IsClaim now c p t
  unfolding reconcile_pending
  pending-IsClaim [] same e = absurd (ground arith)
  pending-IsClaim (first ∷ rest) same e =
      let t = trigger_of c.config first rest in
      (
        t,
        unfold reconcile_pending in
            IsClaim-at first rest same (ltb now (deadline c.config.delay_seconds t)) refl e,
      )

  reconcile-guards :
      (hass : Hass)
      → (reconcile hass now stamp c).plan ≡ some p
      → (c.enabled ≡ true)
        × (shabbat_block_reason c hass ≡ none)
        × ((reconcile_pending now stamp (pending c) c).plan ≡ some p)
  unfolding reconcile
  reconcile-guards hass e = ground arith

  -- The method claims an execution only for an enabled rule that the Shabbat condition does not
  -- block, and for a trigger, as the policy says, whose deadline is reached.
  pub reconcile-IsClaim :
      (hass : Hass)
      → (reconcile hass now stamp c).plan ≡ some p
      → (c.enabled ≡ true)
        × (shabbat_block_reason c hass ≡ none)
        × ((t : RuntimeCycle) × IsClaim now c p t)
  reconcile-IsClaim hass e =
      let (on, free, e') = reconcile-guards hass e in
      (on, free, pending-IsClaim (pending c) refl e')

no_pending : (d : Dict RuntimeCycle) → filter is_pending (values (map_values claim d)) ≡ []
unfolding values map_values
no_pending [] = refl
no_pending ((k, cycle) ∷ d) = no_pending d

module _ (now stamp : ℕ) where
  claim_due-pending :
      (t : RuntimeCycle) (c : Controller) → pending (claim_due now t c).controller ≡ []
  unfolding claim_due cancel_deadline
  claim_due-pending t c = no_pending c.cycles

  reconcile_pending-none :
      (ps : List RuntimeCycle) (c : Controller)
      → is_some (reconcile_pending now stamp ps c).plan ≡ true
      → pending (reconcile_pending now stamp ps c).controller ≡ []
  unfolding reconcile_pending
  reconcile_pending-none [] c e = absurd (ground arith)
  reconcile_pending-none (p ∷ ps) c e =
      let t = trigger_of c.config p ps in
      elim (Bool-cases (ltb now (deadline c.config.delay_seconds t))) [
        | inl early ↦ absurd (ground (arith, count_down-plan stamp t c))
        | inr due ↦ rw due (claim_due-pending t c)
      ]

  pub reconcile-none :
      (hass : Hass) (c : Controller)
      → is_some (reconcile hass now stamp c).plan ≡ true
      → pending (reconcile hass now stamp c).controller ≡ []
  unfolding reconcile
  reconcile-none hass c e = ground (arith, reconcile_pending-none (pending c) c)

  pending-plan :
      (ps : List RuntimeCycle) (c : Controller)
      → ps ≡ []
      → (reconcile_pending now stamp ps c).plan ≡ none
  unfolding reconcile_pending
  pending-plan [] c e = refl
  pending-plan (p ∷ ps) c e = absurd (ground arith)

  pub no_pending-plan :
      (hass : Hass) (c : Controller) → pending c ≡ [] → (reconcile hass now stamp c).plan ≡ none
  unfolding reconcile
  no_pending-plan hass c e = ground (arith, pending-plan (pending c) c e)

-- Once an execution is claimed, reconciling the controller again, at any time and in any state
-- of Home Assistant, claims no second one.
pub reconcile_exclusive :
    (hass later : Hass) (now stamp now' stamp' : ℕ) (c : Controller)
    → is_some (reconcile hass now stamp c).plan ≡ true
    → (reconcile later now' stamp' (reconcile hass now stamp c).controller).plan ≡ none
reconcile_exclusive hass later now stamp now' stamp' c e =
    no_pending-plan now' stamp' later (reconcile hass now stamp c).controller
      (reconcile-none now stamp hass c e)

pending-cycles :
    (c : Controller) (d : Dict RuntimeCycle) (p : RuntimeCycle) (ps : List RuntimeCycle)
    → filter is_pending (values d) ≡ p ∷ ps
    → is_empty d ≡ false
unfolding values
pending-cycles c [] p ps e = absurd (ground arith)
pending-cycles c (x ∷ d) p ps e = refl

-- What is announced for the trigger `t` before its deadline.
pub record CountsDown (t : RuntimeCycle) (c d : Controller) : Type 0 where
  pub next : d.next_deadline ≡ some (deadline c.config.delay_seconds t)
  pub kind : d.next_shutdown_kind ≡ some (kind_of (is_some t.retry_at))
  pub entity : d.trigger_entity ≡ some t.entity_id
  pub status : d.status ≡ Status.countdown
  pub cycles : d.cycles ≡ c.cycles

count_down-CountsDown :
    (stamp : ℕ) (t : RuntimeCycle) (c : Controller)
    → CountsDown t c (count_down stamp t c).controller
unfolding count_down schedule_deadline
count_down-CountsDown stamp t c =
    ground (arith, opt_nat_eq_iff c.next_deadline (some (deadline c.config.delay_seconds t)))

module _ (hass : Hass) (now stamp : ℕ) (c : Controller) (p : RuntimeCycle)
    (ps : List RuntimeCycle) where
  pub reconcile_at :
      c.enabled ≡ true
      → shabbat_block_reason c hass ≡ none
      → pending c ≡ p ∷ ps
      → reconcile hass now stamp c ≡ reconcile_pending now stamp (p ∷ ps) c
  unfolding reconcile
  reconcile_at on free same =
      let busy = pending-cycles c c.cycles p ps same in simp (on, busy, free, same)

  -- An enabled, unblocked rule with pending cycles is never left without a next step: before the
  -- trigger's deadline it counts down to it, and from then on the execution is claimed.
  pub reconcile_progress :
      c.enabled ≡ true
      → shabbat_block_reason c hass ≡ none
      → pending c ≡ p ∷ ps
      → (now < deadline c.config.delay_seconds (trigger_of c.config p ps))
          × CountsDown (trigger_of c.config p ps) c (reconcile hass now stamp c).controller
          × ((reconcile hass now stamp c).plan ≡ none)
        ⊎ (deadline c.config.delay_seconds (trigger_of c.config p ps) ≤ now)
          × (is_some (reconcile hass now stamp c).plan ≡ true)
          × ((reconcile hass now stamp c).controller.status ≡ Status.executing)
  unfolding reconcile_pending claim_due
  reconcile_progress on free same =
      let t = trigger_of c.config p ps in
      let at = reconcile_at on free same in
      let down = count_down-CountsDown stamp t c in
      let idle = count_down-plan stamp t c in
      elim (Bool-cases (ltb now (deadline c.config.delay_seconds t))) [
        | inl early ↦ inl (ground arith, rw (at, early) down, rw (at, early) idle)
        | inr due ↦ inr (ground arith, rw (at, due) refl, rw (at, due) refl)
      ]
