-- ===== src/Tests/Storage.antt =====
-- What is read and written: areas, options, cycles, executions, and the saved payload.
use ha_runtime_auto_off.Prelude.{
  String, ◌≡◌, ◌↔◌, refl, true, false, Option, none, some, [], ◌∷◌, get, values, contains,
}
use ha_runtime_auto_off.Helpers.{walk, device_area}
use ha_runtime_auto_off.Hass.{get_device}
use ha_runtime_auto_off.Helpers.Area.{HasArea, device_area_iff, walk_ends}
use ha_runtime_auto_off.Models.{LastExecution}
use ha_runtime_auto_off.Models.Values.{Number, strip, optional_string, take_chars}
use ha_runtime_auto_off.Models.Cycle.{IsClean}
use ha_runtime_auto_off.Models.Execution.Roundtrip.{IsTidy}
use ha_runtime_auto_off.Models.Rule.{from_mapping, as_dict}
use ha_runtime_auto_off.Models.Rule.Roundtrip.{IsCleanRule, from_mapping-as_dict}
use ha_runtime_auto_off.Controller.{Controller}
use ha_runtime_auto_off.Controller.Save.{payload}
use ha_runtime_auto_off.Controller.Save.Roundtrip.{IsStorable, restore_value, restore-payload}
use ha_runtime_auto_off.Tests.{
  lamp, fan, devices, rule, fresh, active, tally_text, tally_text-ReadsBack,
}

device_area_iff_example : (device_area devices "plug" ≡ some "room") ↔ HasArea devices "plug" "room"
device_area_iff_example = device_area_iff devices "plug" "room"

-- The plug and the hub are each other's parents.
walk_ends_example : (r : Option String) × (walk devices 4 (get_device "plug" devices) [] ≡ some r)
walk_ends_example = walk_ends devices "plug"

abbrev no_numbers : String → Option Number
no_numbers s = none

clean_rule : IsCleanRule rule
unfolding optional_string strip contains
clean_rule = record {
  name = refl;
  area_id = refl;
  entities = (refl, refl, (refl, refl, tt));
  rule_id = refl;
  shabbat_entity = refl;
}

from_mapping-as_dict_example : from_mapping no_numbers (as_dict rule) ≡ rule
from_mapping-as_dict_example = from_mapping-as_dict no_numbers rule clean_rule

IsClean-lamp : IsClean "id-lamp" × IsClean lamp
unfolding optional_string strip
IsClean-lamp = (refl, refl)

IsClean-fan : IsClean "id-fan" × IsClean fan
unfolding optional_string strip
IsClean-fan = (refl, refl)

abbrev execution : LastExecution
execution = record {
  trigger_entity = lamp;
  occurred_at = 75;
  successful_entities = lamp ∷ [];
  skipped_entities = [];
  failed_entities = (fan, "service_timeout") ∷ [];
}

tidy : IsTidy execution
unfolding optional_string strip contains get take_chars
tidy = record {
  trigger = refl;
  successful = (refl, refl, tt);
  skipped = tt;
  failed = (refl, refl, refl, tt);
}

abbrev pub saved : Controller
saved = record (active true) { enabled = false; last_execution = some execution }

pub storable : IsStorable saved
unfolding values get
storable = record {
  keyed = (refl, refl, (refl, refl, tt));
  cycles = (IsClean-lamp, (IsClean-fan, tt));
  execution = tidy;
}

restore-payload_example :
    ((restore_value tally_text (payload tally_text saved) fresh).enabled ≡ false)
    × ((restore_value tally_text (payload tally_text saved) fresh).stored_retry_interval ≡ some 300)
    × ((restore_value tally_text (payload tally_text saved) fresh).last_execution ≡ some execution)
    × (get "id-fan" (restore_value tally_text (payload tally_text saved) fresh).cycles
        ≡ get "id-fan" saved.cycles)
restore-payload_example =
    restore-payload tally_text saved fresh "id-fan" tally_text-ReadsBack storable refl refl
