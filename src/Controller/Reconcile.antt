-- ===== src/Controller/Reconcile.antt =====
-- `_reconcile_locked` and `_new_activity_locked` of controller.py.
pub mod Trigger
pub mod Safety
pub mod Stable
pub mod Stuck
pub mod Claims
use ha_runtime_auto_off.Prelude.{
  ℕ, String, Bool, true, false, not, ◌&&◌, ◌||◌, Option, none, some, List, [], ◌∷◌, Dict, values,
  map_values, ltb, ◌==◌, str_lt, str_eq, str_le, opt_nat_eq, is_some, is_empty, length, filter,
  if◌then◌else◌,
}
use ha_runtime_auto_off.Hass.{Hass}
use ha_runtime_auto_off.Models.{
  RuntimeCycle, RuleConfig, Status, ShutdownKind, TriggerPolicy, ActivityEvent, ActivityEventType,
  ActivityData, deadline,
}
use ha_runtime_auto_off.Controller.{Controller, ExecutionPlan}
use ha_runtime_auto_off.Controller.Errors.{shabbat_block_reason}
use ha_runtime_auto_off.Controller.Deadline.{cancel_deadline, schedule_deadline}

-- The order of the keys `(cycle.deadline(delay), cycle.stable_key)`.
unfoldable pub before : ℕ → RuntimeCycle → RuntimeCycle → Bool
before delay a b =
    ltb (deadline delay a) (deadline delay b)
    || (deadline delay a == deadline delay b && str_lt a.stable_key b.stable_key)

-- `min` and `max` of a list that begins with `best`: the first of the least, of the greatest.
unfoldable pub min_cycle : ℕ → RuntimeCycle → List RuntimeCycle → RuntimeCycle
min_cycle delay best [] = best
min_cycle delay best (c ∷ cs) = min_cycle delay (if before delay c best then c else best) cs

unfoldable pub max_cycle : ℕ → RuntimeCycle → List RuntimeCycle → RuntimeCycle
max_cycle delay best [] = best
max_cycle delay best (c ∷ cs) = max_cycle delay (if before delay best c then c else best) cs

abbrev pub is_pending : RuntimeCycle → Bool
is_pending cycle = not cycle.handled

abbrev pub is_retry_pending : RuntimeCycle → Bool
is_retry_pending cycle = is_some cycle.retry_at

abbrev pub pending : Controller → List RuntimeCycle
pending c = filter is_pending (values c.cycles)

-- The trigger among the pending cycles `first ∷ rest`, those with a retry being given.
abbrev pub choose_trigger :
    ℕ → TriggerPolicy → List RuntimeCycle → RuntimeCycle → List RuntimeCycle → RuntimeCycle
choose_trigger delay policy (r ∷ rs) p ps = min_cycle delay r rs
choose_trigger delay TriggerPolicy.last [] p ps = max_cycle delay p ps
choose_trigger delay TriggerPolicy.first [] p ps = min_cycle delay p ps

unfoldable pub trigger_of : RuleConfig → RuntimeCycle → List RuntimeCycle → RuntimeCycle
trigger_of config p ps =
    choose_trigger config.delay_seconds config.trigger_policy (filter is_retry_pending (p ∷ ps)) p
      ps

pub record Reconciled : Type 0 where
  pub controller : Controller
  pub plan : Option ExecutionPlan
  pub activity : Option ActivityEvent

abbrev pub nothing_due : Controller → Reconciled
nothing_due c = record { controller = c; plan = none; activity = none }

-- `stamp` is the time that `_new_activity_locked` reads.
abbrev pub new_activity : ActivityEventType → ℕ → ActivityData → ActivityEvent
new_activity type stamp content = record {
  event_type = type;
  occurred_at = stamp;
  content = content;
}

abbrev pub kind_of : Bool → ShutdownKind
kind_of true = ShutdownKind.retry
kind_of false = ShutdownKind.initial

-- The trigger's deadline lies ahead.
unfoldable pub count_down : ℕ → RuntimeCycle → Controller → Reconciled
count_down stamp trigger c =
    let due = deadline c.config.delay_seconds trigger in
    let retry = is_some trigger.retry_at in
    let c' = record (schedule_deadline due (record c { trigger_entity = some trigger.entity_id })) {
      next_shutdown_kind = some (kind_of retry);
      status = Status.countdown;
    } in
    let activity =
      new_activity ActivityEventType.scheduled stamp
        (ActivityData.schedule trigger.entity_id trigger.started_at due retry) in
    if opt_nat_eq c.next_deadline (some due) then nothing_due c' else record {
      controller = record c' { last_activity = some activity };
      plan = none;
      activity = some activity;
    }

abbrev pub claim : RuntimeCycle → RuntimeCycle
claim cycle = record cycle { handled = true }

abbrev pub unclaim : RuntimeCycle → RuntimeCycle
unclaim cycle = record cycle { handled = false }

-- The trigger is due: every cycle is claimed for one execution.
unfoldable pub claim_due : ℕ → RuntimeCycle → Controller → Reconciled
claim_due now trigger c = record {
  controller = record (cancel_deadline c) {
    next_shutdown_kind = none;
    trigger_entity = some trigger.entity_id;
    cycles = map_values claim c.cycles;
    status = Status.executing;
  };
  plan = some (record {
    trigger_key = trigger.stable_key;
    trigger_entity = trigger.entity_id;
    trigger_started_at = trigger.started_at;
    claimed_at = now;
    is_retry = is_some trigger.retry_at;
    target_entities = c.config.entities;
  });
  activity = none;
}

-- The method behind its first guards: what is pending decides.
unfoldable pub reconcile_pending : ℕ → ℕ → List RuntimeCycle → Controller → Reconciled
reconcile_pending now stamp [] c = nothing_due (record (cancel_deadline c) {
  next_shutdown_kind = none;
  trigger_entity = none;
  status = Status.completed;
})
reconcile_pending now stamp (p ∷ ps) c =
    let trigger = trigger_of c.config p ps in
    if ltb now (deadline c.config.delay_seconds trigger)
    then count_down stamp trigger c
    else claim_due now trigger c

-- The status of a blocked rule, by the reason.
abbrev pub blocked_status : String → Status
blocked_status reason =
    if str_eq reason "sensor_unavailable"
    then Status.sensor_unavailable
    else Status.waiting_condition

-- The status of a rule with no cycle.
abbrev pub idle_status : Controller → Status
idle_status c =
    if length c.unavailable_entities == length c.config.entities
    then Status.sensor_unavailable
    else Status.idle

-- `now` is the argument, and `stamp` the time that a new activity reads.
unfoldable pub reconcile : Hass → ℕ → ℕ → Controller → Reconciled
reconcile hass now stamp c =
    if not c.enabled
    then nothing_due
        (record (cancel_deadline c) { next_shutdown_kind = none; status = Status.disabled })
    else if is_empty c.cycles
    then nothing_due (record (cancel_deadline c) {
      next_shutdown_kind = none;
      trigger_entity = none;
      status = idle_status c;
    })
    else elim (shabbat_block_reason c hass) [
      | some reason ↦
          nothing_due
            (record (cancel_deadline c) { trigger_entity = none; status = blocked_status reason })
      | none ↦ reconcile_pending now stamp (pending c) c
    ]
