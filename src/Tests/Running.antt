-- ===== src/Tests/Running.antt =====
-- The rule with both entities running: what the controller does, and the theorems at work.
use ha_runtime_auto_off.Prelude.{
  String, ◌≡◌, ◌≢◌, ◌⊎◌, refl, Bool, true, false, none, some, [], ◌∷◌, get, put, values, arith, inr,
  is_some, ◌≤◌, ◌<◌, str_le, str_eq, sym, ap, subst, ◌↔◌, str_eq_iff,
}
use ha_runtime_auto_off.Helpers.{effective_area_id}
use ha_runtime_auto_off.Models.{RuntimeCycle, RuleConfig, Status, new_cycle, deadline}
use ha_runtime_auto_off.Controller.{Controller, ExecutionPlan, init, registry_ids, stable_keys}
use ha_runtime_auto_off.Controller.Errors.{
  entry_error, identity_or_area_error, shabbat_block_reason,
}
use ha_runtime_auto_off.Controller.Init.{init-Tracks}
use ha_runtime_auto_off.Controller.Sync.{observed, sync_cycles}
use ha_runtime_auto_off.Controller.Sync.Cycles.{Tracks}
use ha_runtime_auto_off.Controller.Sync.Clock.{
  GoesOn, Begins, sync_cycles-GoesOn, sync_cycles_ends, sync_cycles_starts,
}
use ha_runtime_auto_off.Controller.Reconcile.{
  before, min_cycle, trigger_of, pending, claim_due, reconcile_pending, reconcile,
}
use ha_runtime_auto_off.Controller.Reconcile.Trigger.{IsTrigger, trigger_of-IsTrigger}
use ha_runtime_auto_off.Controller.Reconcile.Safety.{
  IsClaim, reconcile-IsClaim, reconcile_exclusive, CountsDown, reconcile_progress,
}
use ha_runtime_auto_off.Tests.{
  lamp, fan, both_on, both_off, shabbat, home, state, rule, fresh, active, cycle_of,
}

pub init-fresh : init both_on "entry" rule ≡ some fresh
unfolding init registry_ids stable_keys put
init-fresh = refl

pub apart : (s t : String) → str_eq s t ≡ false → s ≢ t
apart s t differ e = absurd (ground (arith, (str_eq_iff s t).1 e))

some_apart : (s t : String) → str_eq s t ≡ false → some s ≢ some t
some_apart s t differ e = apart s t differ (ground arith)

init-Tracks_example : Tracks fresh "id-fan" fan
init-Tracks_example =
    init-Tracks both_on "entry" rule (lamp ∷ []) fan [] init-fresh refl
      (apart "id-lamp" "id-fan" refl, tt) tt

pub lamp_tracked :
    (c : Controller)
    → c.config ≡ rule
    → c.stable_key_by_entity ≡ fresh.stable_key_by_entity
    → Tracks c "id-lamp" lamp
unfolding get
lamp_tracked c same keys = record {
  earlier = [];
  later = fan ∷ [];
  entities = ap RuleConfig.entities same;
  key = ap (get lamp) keys;
  none_earlier = tt;
  none_later =
      (subst (λ k. get fan k ≢ some "id-lamp") (sym keys) (some_apart "id-fan" "id-lamp" refl), tt);
}

lamp_unchecked : identity_or_area_error (active true) both_on lamp ≡ none
unfolding identity_or_area_error get entry_error effective_area_id
lamp_unchecked = refl

-- An unavailable lamp keeps its clock and its claim.
sync_cycles-GoesOn_example : GoesOn lamp (cycle_of "id-lamp" lamp 10 true none) (
    get "id-lamp"
      (sync_cycles (home (state "unavailable" 50) none none) 100 none (active true)).cycles)
unfolding get identity_or_area_error entry_error effective_area_id
sync_cycles-GoesOn_example =
    sync_cycles-GoesOn (home (state "unavailable" 50) none none) 100 none (active true) "id-lamp"
      lamp (cycle_of "id-lamp" lamp 10 true none) (lamp_tracked (active true) refl refl) refl refl
      (apart "unavailable" "off" refl)

sync_cycles_ends_example : get "id-lamp" (sync_cycles both_off 100 none (active true)).cycles ≡ none
unfolding get
sync_cycles_ends_example =
    sync_cycles_ends both_off 100 none (active true) "id-lamp" lamp
      (cycle_of "id-lamp" lamp 10 true none) (lamp_tracked (active true) refl refl) refl (inr refl)

sync_cycles_starts_example :
    (get "id-lamp" (sync_cycles both_on 100 none fresh).cycles ≡ some (new_cycle "id-lamp" lamp 10))
    ↔ Begins 100 "id-lamp" lamp
        (identity_or_area_error fresh both_on lamp)
        (observed both_on none lamp)
        (new_cycle "id-lamp" lamp 10)
unfolding get
sync_cycles_starts_example =
    sync_cycles_starts both_on 100 none fresh "id-lamp" lamp (new_cycle "id-lamp" lamp 10)
      (lamp_tracked fresh refl refl) refl

trigger_of-IsTrigger_example :
    IsTrigger rule (cycle_of "a" lamp 10 false none ∷ cycle_of "b" fan 20 false (some 400) ∷ []) (
      trigger_of rule (cycle_of "a" lamp 10 false none) (cycle_of "b" fan 20 false (some 400) ∷ []))
trigger_of-IsTrigger_example =
    trigger_of-IsTrigger rule (cycle_of "a" lamp 10 false none)
      (cycle_of "b" fan 20 false (some 400) ∷ [])

abbrev pub lamp_plan : ExecutionPlan
lamp_plan = record {
  trigger_key = "id-lamp";
  trigger_entity = lamp;
  trigger_started_at = 10;
  claimed_at = 100;
  is_retry = false;
  target_entities = lamp ∷ fan ∷ [];
}

pub unblocked : (handled : Bool) → shabbat_block_reason (active handled) both_on ≡ none
unfolding shabbat_block_reason
unblocked handled = refl

claimed_at_100 : (reconcile both_on 100 100 (active false)).plan ≡ some lamp_plan
unfolding reconcile reconcile_pending claim_due trigger_of min_cycle before shabbat_block_reason
    values str_le
claimed_at_100 = refl

reconcile-IsClaim_example :
    ((active false).enabled ≡ true)
    × (shabbat_block_reason (active false) both_on ≡ none)
    × ((t : RuntimeCycle) × IsClaim 100 (active false) lamp_plan t)
reconcile-IsClaim_example =
    reconcile-IsClaim 100 100 (active false) lamp_plan both_on claimed_at_100

claimed_some : is_some (reconcile both_on 100 100 (active false)).plan ≡ true
claimed_some = ap is_some claimed_at_100

reconcile_exclusive_example :
    (reconcile shabbat 500 501 (reconcile both_on 100 100 (active false)).controller).plan ≡ none
reconcile_exclusive_example =
    reconcile_exclusive both_on shabbat 100 100 500 501 (active false) claimed_some

abbrev pub lamp_cycle : RuntimeCycle
lamp_cycle = cycle_of "id-lamp" lamp 10 false none

abbrev pub fan_cycle : RuntimeCycle
fan_cycle = cycle_of "id-fan" fan 20 false none

pub pending_both : pending (active false) ≡ lamp_cycle ∷ fan_cycle ∷ []
unfolding values
pending_both = refl

reconcile_progress_example :
    (50 < deadline 60 (trigger_of rule lamp_cycle (fan_cycle ∷ [])))
      × CountsDown
          (trigger_of rule lamp_cycle (fan_cycle ∷ []))
          (active false)
          (reconcile both_on 50 50 (active false)).controller
      × ((reconcile both_on 50 50 (active false)).plan ≡ none)
    ⊎ (deadline 60 (trigger_of rule lamp_cycle (fan_cycle ∷ [])) ≤ 50)
      × (is_some (reconcile both_on 50 50 (active false)).plan ≡ true)
      × ((reconcile both_on 50 50 (active false)).controller.status ≡ Status.executing)
reconcile_progress_example =
    reconcile_progress both_on 50 50 (active false) lamp_cycle (fan_cycle ∷ []) refl
      (unblocked false) pending_both
