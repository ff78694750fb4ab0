-- ===== src/Tests/Flows.antt =====
-- A rule entered in the forms, and read from the entry.
use ha_runtime_auto_off.Prelude.{
  String, ◌≡◌, refl, true, false, Option, none, some, [], ◌∷◌, is_some, str_eq, if◌then◌else◌,
  contains, str_le, arith,
}
use ha_runtime_auto_off.Hass.{get_device}
use ha_runtime_auto_off.Helpers.{walk, device_area, effective_area_id}
use ha_runtime_auto_off.Models.Values.{Number, optional_string, add_unique, strip, lstrip, rstrip}
use ha_runtime_auto_off.Flow.{
  is_candidate, insert_text, sorted_set, turn_off_entities_in_area, resolve_entity_ids, accept_room,
  accept_entities, unique, starts_with, all_in, Working,
}
use ha_runtime_auto_off.Flow.Duration.{pos}
use ha_runtime_auto_off.Flow.Steps.{
  Home, RoomInput, DelayInput, Turned, ask_entities, answer_entities, async_step_entities,
  async_step_room, async_step_delay, saved,
}
use ha_runtime_auto_off.Flow.Walk.{
  nothing_entered, creating, Asks, Walk, opened, room, entities, delay, IsGood, IsComplete,
}
use ha_runtime_auto_off.Flow.Created.{Walk-IsGood}
use ha_runtime_auto_off.Flow.Unchanged.{Choice, options_of, IsPossible}
use ha_runtime_auto_off.Flow.Unchanged.Saved.{resubmitted, resubmitted-saved}
use ha_runtime_auto_off.Models.{TriggerPolicy}
use ha_runtime_auto_off.Models.Cycle.{IsClean}
use mathlib.Core.List.{Memᴰ}
use ha_runtime_auto_off.Models.Rule.{from_mapping}
use ha_runtime_auto_off.Entry.{resolve_runtime_config}
use ha_runtime_auto_off.Controller.{init}
use ha_runtime_auto_off.Flow.Stored.{entry_options, entry_data}
use ha_runtime_auto_off.Flow.Handover.{IsReadable, entered_rule, from_mapping-entry_options}
use ha_runtime_auto_off.Tests.{lamp, fan, both_on, lamp_entry, fan_entry}

abbrev flow_home : Home
flow_home = record { hass = both_on; entries = lamp_entry ∷ fan_entry ∷ []; resolve = some }

abbrev hall : RoomInput
hall = record { name = " Hall "; area_id = "room" }

abbrev a_minute : DelayInput
a_minute = record {
  delay = ("minutes", pos 1) ∷ [];
  retry_interval = ("seconds", pos 300) ∷ [];
  trigger_policy = "last";
  shabbat_entity = some "binary_sensor.shabbat";
}

abbrev at_room : Turned
at_room = async_step_room "user" flow_home none nothing_entered

abbrev at_entities : Turned
at_entities = async_step_room "user" flow_home (some hall) at_room.working

abbrev at_delay : Turned
at_delay = async_step_entities flow_home (some (fan ∷ lamp ∷ [])) at_entities.working

abbrev at_end : Turned
at_end = async_step_delay "rule" flow_home (some a_minute) at_delay.working

Asks-room : Asks "user" at_room.result
unfolding async_step_room
Asks-room = refl

Asks-entities : Asks "entities" at_entities.result
unfolding async_step_room accept_room strip lstrip rstrip async_step_entities ask_entities
Asks-entities = refl

Asks-delay : Asks "delay" at_delay.result
unfolding async_step_room accept_room strip lstrip rstrip async_step_entities ask_entities
    answer_entities accept_entities turn_off_entities_in_area is_candidate sorted_set insert_text
    resolve_entity_ids unique effective_area_id device_area walk get_device contains str_le
    add_unique
Asks-delay = refl

abbrev whole_walk : Walk creating at_end
whole_walk =
    delay
      (entities (room (opened flow_home) Asks-room flow_home hall) Asks-entities flow_home
        (fan ∷ lamp ∷ []))
      Asks-delay "rule" flow_home a_minute

Walk-IsGood_example : IsGood creating at_end.result
Walk-IsGood_example = Walk-IsGood creating whole_walk

-- The lamp alone, after a minute.
abbrev hall_options : Working
hall_options = record {
  name = some "Hall";
  area_id = some "room";
  entities = some ("id-lamp" ∷ []);
  delay_seconds = some (pos 60000000);
  retry_interval_seconds = some (pos 300000000);
  trigger_policy = some TriggerPolicy.last;
  shabbat_entity = some "id-shabbat";
}

IsClean-hall : IsClean "Hall"
unfolding optional_string strip lstrip rstrip
IsClean-hall = refl

IsClean-room : IsClean "room"
unfolding optional_string strip lstrip rstrip
IsClean-room = refl

IsClean-lamp : IsClean lamp
unfolding optional_string strip lstrip rstrip
IsClean-lamp = refl

IsClean-sensor : IsClean "binary_sensor.shabbat"
unfolding optional_string strip lstrip rstrip
IsClean-sensor = refl

IsClean-rule : IsClean "rule"
unfolding optional_string strip lstrip rstrip
IsClean-rule = refl

lamp_offered : is_candidate both_on "room" lamp_entry ≡ true
unfolding is_candidate effective_area_id
lamp_offered = refl

sensor_named : starts_with "binary_sensor." "binary_sensor.shabbat" ≡ true
unfolding starts_with
sensor_named = refl

abbrev complete : IsComplete "Hall" hall_options
complete = record {
  choice = record {
    in_room = record {
      title = "Hall";
      area = "room";
      named = refl;
      clean = IsClean-hall;
      placed = refl;
    };
    on_list = record {
      home = flow_home;
      chosen = lamp ∷ [];
      listed = refl;
      fine = record {
        distinct = (tt, tt);
        some_entity = refl;
        offered = ((lamp_entry, Memᴰ.head refl, refl, lamp_offered), tt);
      };
    };
  };
  titled = refl;
  times = record {
    home = flow_home;
    delay = pos 60000000;
    retry = pos 300000000;
    policy = TriggerPolicy.last;
    reference = some "binary_sensor.shabbat";
    sensor = some "binary_sensor.shabbat";
    delayed = refl;
    delay_fits = (omega arith, omega arith);
    retried = refl;
    retry_fits = (omega arith, omega arith);
    decided = refl;
    watched = refl;
    is_sensor = ("binary_sensor.shabbat", refl, refl, sensor_named);
  };
}

-- The reader of references, on the identifiers of the registry.
abbrev entity_of : String → Option String
entity_of s =
    if str_eq s "id-lamp"
    then some lamp
    else if str_eq s "id-shabbat"
    then some "binary_sensor.shabbat"
    else none

abbrev readable : IsReadable "Hall" hall_options complete entity_of
readable = record {
  area = IsClean-room;
  entities = (IsClean-lamp, tt);
  back = (refl, tt);
  sensor = (refl, IsClean-sensor);
}

abbrev no_number : String → Option Number
no_number s = none

from_mapping-entry_options_example :
    (from_mapping no_number
        (resolve_runtime_config entity_of (entry_data "rule") (entry_options hall_options))
      ≡ entered_rule "Hall" hall_options complete "rule")
    × (is_some (init both_on "rule" (entered_rule "Hall" hall_options complete "rule")) ≡ true)
from_mapping-entry_options_example =
    from_mapping-entry_options "Hall" hall_options complete no_number entity_of both_on "rule"
      IsClean-rule readable

-- The resolver of references, on entities and on the identifiers of the registry.
abbrev either_of : String → Option String
either_of s =
    if str_eq s "id-lamp"
    then some lamp
    else if str_eq s "id-shabbat"
    then some "binary_sensor.shabbat"
    else some s

abbrev edit_home : Home
edit_home = record { hass = both_on; entries = lamp_entry ∷ fan_entry ∷ []; resolve = either_of }

abbrev hall_choice : Choice
hall_choice = record {
  name = "Hall";
  area = "room";
  entities = lamp ∷ [];
  delay = 60;
  retry = 300;
  policy = TriggerPolicy.last;
  sensor = some "binary_sensor.shabbat";
}

lamp_allowed :
    all_in
      (lamp ∷ [])
      (turn_off_entities_in_area both_on (lamp_entry ∷ fan_entry ∷ []) either_of "room" [])
    ≡ true
unfolding turn_off_entities_in_area is_candidate sorted_set insert_text resolve_entity_ids
    effective_area_id device_area walk get_device contains str_le
lamp_allowed = refl

lamp_new : contains lamp [] ≡ false
unfolding contains
lamp_new = refl

abbrev possible : IsPossible edit_home hall_choice
possible = record {
  named = IsClean-hall;
  placed = refl;
  known = ((refl, refl, refl), lamp_new, tt);
  some_entity = refl;
  allowed = lamp_allowed;
  delay_fits = omega arith;
  retry_positive = omega arith;
  retry_fits = omega arith;
  sensor = ((refl, refl, refl), refl, sensor_named);
}

resubmitted-saved_example :
    resubmitted "Old hall" edit_home (options_of edit_home hall_choice)
    ≡ record { working = hall_options; result = saved "Hall" hall_options }
resubmitted-saved_example = resubmitted-saved "Old hall" edit_home hall_choice possible
