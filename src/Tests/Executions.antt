-- ===== src/Tests/Executions.antt =====
-- Executions of the rule: the targets' turns, the retry, the blocked rule, and the timers.
use ha_runtime_auto_off.Prelude.{
  ℕ, String, ◌≡◌, ◌≢◌, ◌↔◌, refl, sym, ap, subst, true, false, none, some, [], ◌∷◌, get, put, pop,
  values, map_values, keep_keys, contains, arith, inl, ◌≤◌, ◌<◌, str_le, str_eq, str_eq_iff, filter,
  if◌then◌else◌,
}
use mathlib.Core.List.{Memᴰ}
use ha_runtime_auto_off.Hass.{HaState, Hass, get_device}
use ha_runtime_auto_off.Helpers.{walk, device_area, effective_area_id}
use ha_runtime_auto_off.Models.{Status, ShutdownKind, deadline}
use ha_runtime_auto_off.Controller.{Controller}
use ha_runtime_auto_off.Controller.Errors.{
  entry_error, identity_or_area_error, target_runtime_error, shabbat_block_reason,
}
use ha_runtime_auto_off.Controller.Errors.Shabbat.{IsRecognised, shabbat_block_reason_iff}
use ha_runtime_auto_off.Controller.Sync.{sync_state, sync_entities, sync_cycles, track_active}
use ha_runtime_auto_off.Controller.Rearm.{move_retry, move_retries, apply_retry_interval_change}
use ha_runtime_auto_off.Controller.Rearm.Interval.{
  apply_retry_interval_change-moves, apply_retry_interval_change-keeps,
}
use ha_runtime_auto_off.Controller.Reconcile.{
  before, min_cycle, trigger_of, pending, reconcile, nothing_due, is_pending,
}
use ha_runtime_auto_off.Controller.Reconcile.Safety.{CountsDown}
use ha_runtime_auto_off.Controller.Reconcile.Stuck.{IsStuck}
use ha_runtime_auto_off.Controller.Reconcile.Stable.{reconcile_again}
use ha_runtime_auto_off.Controller.Handlers.{Reading, unchanged}
use ha_runtime_auto_off.Controller.Events.{async_deadline_reached, inhibit}
use ha_runtime_auto_off.Controller.Events.Once.{async_deadline_reached_once}
use ha_runtime_auto_off.Controller.Sound.{IsSound}
use ha_runtime_auto_off.Controller.Steps.{Step, Reach, Reach-IsSound}
use ha_runtime_auto_off.Controller.Execute.{
  ServiceResult, Turn, confirmation, confirm_turn_off, call_service, turn_off_target, no_tally,
  turn_off_targets,
}
use ha_runtime_auto_off.Controller.Execute.Targets.{IsCleared, IsOnce}
use ha_runtime_auto_off.Controller.Execute.Loop.{turn_off_targets-IsOnce}
use ha_runtime_auto_off.Controller.Execute.Calls.{
  IsTurnedOff, turn_off_targets-calls, turn_off_targets-IsTurnedOff,
}
use ha_runtime_auto_off.Controller.Finish.{unclaim_all, execute_blocked, finish_execution}
use ha_runtime_auto_off.Controller.Finish.Followup.{Retries, finish_execution-Retries}
use ha_runtime_auto_off.Controller.Finish.Blocked.{execute_blocked-IsStuck}
use ha_runtime_auto_off.Tests.{
  lamp, fan, both_on, both_off, shabbat, rule, fresh, active, cycle_of, running_cycles, tally_text,
}
use ha_runtime_auto_off.Tests.Running.{init-fresh, unblocked, lamp_cycle, fan_cycle, lamp_plan}

abbrev reading : Hass → ℕ → Reading
reading hass now = record { hass = hass; sync_now = now; now = now; stamp = now; store_ok = true }

Reach-IsSound_example :
    IsSound
      (async_deadline_reached tally_text 0 (reading both_on 200) (inhibit false fresh)).controller
Reach-IsSound_example = Reach-IsSound tally_text both_on "entry" rule init-fresh (
    Reach.next (Reach.next Reach.here (Step.inhibit_actions false))
      (Step.deadline_reached 0 (reading both_on 200)))

-- The lamp is switched off at its turn; the fan's service fails.
abbrev world : String → Turn
world e = record {
  start = record { hass = both_on; unloaded = false; action_inhibited = false };
  result = if str_eq e lamp then ServiceResult.returned else ServiceResult.timed_out;
  wakes = record { hass = both_on; unloaded = false; action_inhibited = false } ∷ [];
  timeout = record { hass = both_off; unloaded = false; action_inhibited = false };
}

apart : (s t : String) → str_eq s t ≡ false → s ≢ t
apart s t differ e = absurd (ground (arith, (str_eq_iff s t).1 e))

turn_off_targets-IsOnce_example :
    IsOnce fan (turn_off_targets (active true) world (lamp ∷ fan ∷ []) no_tally)
turn_off_targets-IsOnce_example =
    turn_off_targets-IsOnce (active true) world fan (lamp ∷ fan ∷ [])
      ((apart fan lamp refl, tt), (tt, tt)) (Memᴰ.tail (Memᴰ.head refl))

turn_off_targets-calls_example :
    (contains fan (turn_off_targets (active true) world (lamp ∷ fan ∷ []) no_tally).calls ≡ true)
    ↔ Memᴰ fan (lamp ∷ fan ∷ []) × IsCleared (active true) fan (world fan).start
turn_off_targets-calls_example = turn_off_targets-calls (active true) world fan (lamp ∷ fan ∷ [])

lamp_successful :
    contains lamp (turn_off_targets (active true) world (lamp ∷ fan ∷ []) no_tally).successful
    ≡ true
unfolding turn_off_targets turn_off_target call_service confirm_turn_off confirmation
    target_runtime_error identity_or_area_error entry_error effective_area_id device_area walk
    get_device shabbat_block_reason contains get put
lamp_successful = refl

turn_off_targets-IsTurnedOff_example :
    Memᴰ lamp (lamp ∷ fan ∷ []) × IsTurnedOff (active true) lamp (world lamp)
turn_off_targets-IsTurnedOff_example =
    turn_off_targets-IsTurnedOff (active true) world lamp (lamp ∷ fan ∷ []) lamp_successful

-- The countdown to the lamp's deadline, with its timer.
abbrev pub counting : Controller
counting = record (active false) {
  status = Status.countdown;
  next_deadline = some 70;
  next_shutdown_kind = some ShutdownKind.initial;
  trigger_entity = some lamp;
  unsub_deadline = some (record { generation = 1; due = 70 });
  timer_generation = 1;
}

counting_unblocked : shabbat_block_reason counting both_on ≡ none
unfolding shabbat_block_reason
counting_unblocked = refl

pending_counted : pending counting ≡ lamp_cycle ∷ fan_cycle ∷ []
unfolding values
pending_counted = refl

pub lamp_first : trigger_of rule lamp_cycle (fan_cycle ∷ []) ≡ lamp_cycle
unfolding trigger_of min_cycle before str_le
lamp_first = refl

counting_down : CountsDown (trigger_of rule lamp_cycle (fan_cycle ∷ [])) counting counting
unfolding trigger_of min_cycle before str_le
counting_down = record { next = refl; kind = refl; entity = refl; status = refl; cycles = refl }

reconcile_again_example : reconcile both_on 50 50 counting ≡ nothing_due counting
reconcile_again_example =
    reconcile_again both_on 50 50 counting lamp_cycle (fan_cycle ∷ []) refl counting_unblocked
      pending_counted counting_down (record { armed = refl; kinded = λ k. k })
      (subst (λ t. 50 < deadline 60 t) (sym lamp_first) (omega arith))

-- After an execution that both entities have survived.
both_left : (sync_cycles both_on 200 none (active true)).cycles ≡ running_cycles true
unfolding sync_cycles sync_entities sync_state track_active identity_or_area_error entry_error
    effective_area_id device_area walk get_device contains get put pop values keep_keys
both_left = refl

both_claimed : pending (sync_cycles both_on 200 none (active true)) ≡ []
unfolding values
both_claimed = ap (λ d. filter is_pending (values d)) both_left

finish_execution-Retries_example :
    Retries 500
      (finish_execution tally_text
        (reading both_on 200)
        200
        lamp_plan
        no_tally
        (active true)).controller
    × ((finish_execution tally_text (reading both_on 200) 200 lamp_plan no_tally (active true)).plan
        ≡ none)
finish_execution-Retries_example =
    finish_execution-Retries tally_text (reading both_on 200) 200 lamp_plan no_tally (active true)
      "id-lamp" (cycle_of "id-lamp" lamp 10 true none)
      (("id-fan", cycle_of "id-fan" fan 20 true none) ∷ []) refl refl
      (λ e. absurd (omega (arith, e))) (unblocked true) both_left both_claimed

-- The block has gone at 200.
cleared : shabbat_block_reason (unclaim_all (active true)) both_on ≡ none
unfolding shabbat_block_reason
cleared = refl

unclaimed_both : pending (unclaim_all (active true)) ≡ lamp_cycle ∷ fan_cycle ∷ []
unfolding values map_values
unclaimed_both = refl

execute_blocked-IsStuck_example :
    ((execute_blocked tally_text (reading both_on 200) (active true)).plan ≡ none)
    × IsStuck (execute_blocked tally_text (reading both_on 200) (active true)).controller
    × ((reconcile both_on 900 900
          (execute_blocked tally_text (reading both_on 200) (active true)).controller).plan
        ≡ none)
execute_blocked-IsStuck_example =
    execute_blocked-IsStuck tally_text (reading both_on 200) (active true) lamp_cycle
      (fan_cycle ∷ []) both_on 900 900 refl cleared unclaimed_both
      (subst (λ t. deadline 60 t ≤ 200) (sym lamp_first) (omega arith))

async_deadline_reached_once_example :
    async_deadline_reached tally_text 1
      (reading both_on 71)
      (async_deadline_reached tally_text 1 (reading both_on 70) counting).controller
    ≡ unchanged (async_deadline_reached tally_text 1 (reading both_on 70) counting).controller
async_deadline_reached_once_example =
    async_deadline_reached_once tally_text 1 (reading both_on 70) (reading both_on 71) counting

shabbat_block_reason_iff_example :
    (shabbat_block_reason (active true) shabbat ≡ none)
    ↔ IsRecognised (shabbat.registry "binary_sensor.shabbat") (some "id-shabbat")
      × ((s : HaState) × (shabbat.states "binary_sensor.shabbat" ≡ some s) × (s.state ≡ "off"))
shabbat_block_reason_iff_example =
    shabbat_block_reason_iff (active true) shabbat "binary_sensor.shabbat" refl

-- A retry of the lamp at 500, of the fan's claim, and an interval that was 100.
abbrev retrying : Controller
retrying = record (active true) {
  cycles =
      ("id-lamp", cycle_of "id-lamp" lamp 10 false (some 500))
      ∷ ("id-fan", cycle_of "id-fan" fan 20 true none)
      ∷ [];
  stored_retry_interval = some 100;
}

retrying_fits : (apply_retry_interval_change 600 retrying).overflowed ≡ false
unfolding apply_retry_interval_change move_retries move_retry
retrying_fits = refl

apply_retry_interval_change-moves_example :
    (100 ≤ 500)
    × (get "id-lamp" (apply_retry_interval_change 600 retrying).controller.cycles
        ≡ some (cycle_of "id-lamp" lamp 10 false (some 700)))
unfolding get
apply_retry_interval_change-moves_example =
    apply_retry_interval_change-moves 600 100 retrying "id-lamp"
      (cycle_of "id-lamp" lamp 10 false (some 500)) 500 refl (omega arith) refl retrying_fits refl
      refl refl

apply_retry_interval_change-keeps_example :
    get "id-fan" (apply_retry_interval_change 600 retrying).controller.cycles
    ≡ some (cycle_of "id-fan" fan 20 true none)
unfolding get
apply_retry_interval_change-keeps_example =
    apply_retry_interval_change-keeps 600 100 retrying "id-fan" (cycle_of "id-fan" fan 20 true none)
      refl refl retrying_fits refl (inl refl)
