-- ===== src/Tests/Switched.antt =====
-- The rule switched off.
use ha_runtime_auto_off.Prelude.{◌≡◌, refl, none, true, false}
use ha_runtime_auto_off.Models.{Status}
use ha_runtime_auto_off.Controller.{Controller}
use ha_runtime_auto_off.Controller.Sync.{StateEvent}
use ha_runtime_auto_off.Controller.Handlers.{async_started, resume_until_execution}
use ha_runtime_auto_off.Controller.Events.{async_state_changed, async_deadline_reached}
use ha_runtime_auto_off.Controller.Execute.{no_tally}
use ha_runtime_auto_off.Controller.Finish.{finish_execution}
use ha_runtime_auto_off.Controller.Disabled.{disabled_starts_nothing}
use ha_runtime_auto_off.Tests.{lamp, state, active, tally_text}
use ha_runtime_auto_off.Tests.Running.{lamp_plan}
use ha_runtime_auto_off.Tests.Entries.{working}

abbrev paused : Controller
paused = record (active false) {
  enabled = false;
  action_inhibited = true;
  status = Status.disabled;
}

abbrev pub lamp_on : StateEvent
lamp_on = record { entity_id = lamp; new_state = state "on" 90 }

disabled_starts_nothing_example :
    ((async_state_changed tally_text (working 100) lamp_on paused).plan ≡ none)
    × ((async_deadline_reached tally_text 0 (working 100) paused).plan ≡ none)
    × ((async_started tally_text (working 100) paused).plan ≡ none)
    × ((resume_until_execution tally_text 100 (working 100) paused).plan ≡ none)
    × ((finish_execution tally_text (working 100) 100 lamp_plan no_tally paused).plan ≡ none)
disabled_starts_nothing_example =
    disabled_starts_nothing tally_text (working 100) paused lamp_on 0 100 100 lamp_plan no_tally
      refl
