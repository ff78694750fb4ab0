-- ===== src/Tests/Restarts.antt =====
-- The rule over a restart: disabled, with two claimed cycles and a last execution.
use ha_runtime_auto_off.Prelude.{
  ◌≡◌, refl, false, true, none, some, is_some, get, put, pop, values, keep_keys, contains, str_le,
}
use ha_runtime_auto_off.Helpers.{walk, device_area, effective_area_id}
use ha_runtime_auto_off.Hass.{get_device}
use ha_runtime_auto_off.Controller.Errors.{
  entry_error, identity_or_area_error, shabbat_block_reason,
}
use ha_runtime_auto_off.Controller.Sync.{sync_state, sync_entities, sync_cycles, track_active}
use ha_runtime_auto_off.Controller.Reconcile.{
  before, min_cycle, trigger_of, claim_due, reconcile_pending, reconcile,
}
use ha_runtime_auto_off.Controller.Save.{save}
use ha_runtime_auto_off.Controller.Deadline.{cancel_deadline}
use ha_runtime_auto_off.Controller.Handlers.{stop_begin, Reading}
use ha_runtime_auto_off.Tests.{lamp, home, state, both_on, active, tally_text}
use ha_runtime_auto_off.Tests.Running.{lamp_tracked}
use ha_runtime_auto_off.Tests.Switched.{lamp_on}
use ha_runtime_auto_off.Controller.{Controller}
use ha_runtime_auto_off.Controller.Events.{
  state_changed_starting, state_changed_running, async_state_changed,
}
use ha_runtime_auto_off.Controller.Steps.{state_changed, stopping}
use ha_runtime_auto_off.Controller.Starts.{start_of}
use ha_runtime_auto_off.Controller.Starts.Runs.{RunsOn, here, next, RunsOn-start_of}

-- Home Assistant while it starts.
abbrev booting : Reading
booting = record {
  hass = record both_on { running = false };
  sync_now = 200;
  now = 200;
  stamp = 200;
  store_ok = true;
}

-- After the start, with the lamp unavailable.
abbrev booted : Reading
booted = record {
  hass = home (state "unavailable" 210) none none;
  sync_now = 220;
  now = 220;
  stamp = 220;
  store_ok = true;
}

-- The lamp is unavailable but for an event, and then the rule is stopped.
abbrev first_step : Controller
first_step = (async_state_changed tally_text booted lamp_on (active false)).controller

abbrev second_step : Controller
second_step = stop_begin first_step

first_there : is_some (start_of "id-lamp" first_step.cycles) ≡ true
unfolding async_state_changed state_changed_running state_changed_starting get sync_cycles
    sync_entities sync_state track_active identity_or_area_error entry_error effective_area_id
    device_area walk get_device contains put pop values keep_keys reconcile reconcile_pending
    claim_due trigger_of min_cycle before shabbat_block_reason str_le save cancel_deadline
first_there = refl

second_there : is_some (start_of "id-lamp" second_step.cycles) ≡ true
unfolding async_state_changed state_changed_running state_changed_starting get sync_cycles
    sync_entities sync_state track_active identity_or_area_error entry_error effective_area_id
    device_area walk get_device contains put pop values keep_keys reconcile reconcile_pending
    claim_due trigger_of min_cycle before shabbat_block_reason str_le save cancel_deadline
    stop_begin
second_there = refl

lamp_start : start_of "id-lamp" (active false).cycles ≡ some 10
unfolding get
lamp_start = refl

lamp_runs : RunsOn tally_text "id-lamp" (active false) second_step
lamp_runs =
    next (next here (state_changed booted lamp_on) refl first_there) stopping refl second_there

RunsOn-start_of_example : start_of "id-lamp" second_step.cycles ≡ some 10
RunsOn-start_of_example =
    RunsOn-start_of tally_text "id-lamp" lamp 10 (lamp_tracked (active false) refl refl) lamp_start
      lamp_runs
