-- ===== src/Tests/Follow.antt =====
-- The entities of a rule that count down, of which one is broken.
use mathlib.Core.List.{Memᴰ}
use ha_runtime_auto_off.Prelude.{String, Bool, refl, false, none, some, [], ◌∷◌, str_eq, ◌≡◌}
use ha_runtime_auto_off.Models.Values.{add_unique}
use ha_runtime_auto_off.Controller.Handlers.{
  setup_until_execution, async_started, resume_until_execution,
}
use ha_runtime_auto_off.Controller.Events.{async_state_changed, async_deadline_reached}
use ha_runtime_auto_off.Controller.Finish.{finish_execution}
use ha_runtime_auto_off.Controller.Execute.{no_tally}
use ha_runtime_auto_off.Sensors.{async_turn_on, async_turn_off}
use ha_runtime_auto_off.Sensors.Listeners.{Subscribers, async_add_listener, added_to_hass}
use ha_runtime_auto_off.Sensors.Notified.{Listens, Follows, entities_follow}
use ha_runtime_auto_off.Tests.{tally_text, active}
use ha_runtime_auto_off.Tests.Running.{lamp_plan}
use ha_runtime_auto_off.Tests.Switched.{lamp_on}
use ha_runtime_auto_off.Tests.Entries.{working}

abbrev status_broken : String → Bool
status_broken l = str_eq l "status"

abbrev subscribers : Subscribers
subscribers = record { state_listeners = "status" ∷ "enabled" ∷ []; activity_listeners = [] }

subscribed :
    added_to_hass "enabled"
      (added_to_hass "status" (record { state_listeners = []; activity_listeners = [] }))
    ≡ subscribers
unfolding async_add_listener add_unique
subscribed = refl

switch-Listens : Listens status_broken subscribers "enabled"
switch-Listens = record { registered = Memᴰ.tail (Memᴰ.head refl); works = refl; writes = refl }

-- One theorem, for the methods.
entities_follow_example :
    Follows tally_text status_broken subscribers "enabled"
      (active false)
      (setup_until_execution tally_text (some none) 50 (working 50) (active false))
    × Follows tally_text status_broken subscribers "enabled"
        (active false)
        (async_started tally_text (working 50) (active false))
    × Follows tally_text status_broken subscribers "enabled"
        (active false)
        (async_state_changed tally_text (working 50) lamp_on (active false))
    × Follows tally_text status_broken subscribers "enabled"
        (active false)
        (async_deadline_reached tally_text 0 (working 50) (active false))
    × Follows tally_text status_broken subscribers "enabled"
        (active false)
        (async_turn_on tally_text (working 50) (active false))
    × Follows tally_text status_broken subscribers "enabled"
        (active false)
        (async_turn_off tally_text (working 50) (active false))
    × Follows tally_text status_broken subscribers "enabled"
        (active false)
        (resume_until_execution tally_text 50 (working 50) (active false))
    × Follows tally_text status_broken subscribers "enabled"
        (active false)
        (finish_execution tally_text (working 50) 50 lamp_plan no_tally (active false))
entities_follow_example =
    entities_follow tally_text status_broken subscribers "enabled" switch-Listens (working 50)
      (active false) (some none) lamp_on 0 50 50 lamp_plan no_tally
