-- ===== src/Flow/Steps.antt =====
-- The steps of the two flows of config_flow.py: `RuntimeAutoOffConfigFlow`, which makes an entry, and
-- `RuntimeAutoOffOptionsFlow`, which edits one. What Home Assistant draws of a form is left out; the
-- values that the code gives to it, and its errors, are the result of a step.
use ha_runtime_auto_off.Prelude.{
  String, Bool, not, ◌&&◌, Option, none, some, List, [], ◌∷◌, Dict, filter, contains, is_empty,
  is_none, str_eq, if◌then◌else◌,
}
use ha_runtime_auto_off.Hass.{RegistryEntry, Hass}
use ha_runtime_auto_off.Models.{TriggerPolicy}
use ha_runtime_auto_off.Models.Values.{add_unique, nonempty}
use ha_runtime_auto_off.Flow.Duration.{ℤ, pos, duration_to_seconds, shown_duration}
use ha_runtime_auto_off.Flow.{
  turn_off_entities_in_area, Working, Accepted, accept_room, accept_entities, accept_delay,
}

-- What a step reads of Home Assistant: its registries and services, and the resolver of
-- references.
pub record Home : Type 0 where
  pub hass : Hass
  pub entries : List RegistryEntry
  pub resolve : String → Option String

-- What the user hands in.
pub record RoomInput : Type 0 where
  pub name : String
  pub area_id : String

pub record DelayInput : Type 0 where
  pub delay : Dict ℤ
  pub retry_interval : Dict ℤ
  pub trigger_policy : String
  pub shabbat_entity : Option String

-- The values that a form starts from: defaults, candidates, and a suggestion for the sensor.
pub data Schema : Type 0 where
  room_fields : String → Option String → Schema
  no_fields : Schema
  entity_fields : (candidates selected : List String) → Schema
  delay_fields : (delay retry : Dict ℤ) → TriggerPolicy → Option String → Schema

-- The result of a step: a form with its errors; an entry with its title, its rule's id and its
-- options; the new options of an entry with the title it has then; or a `KeyError`.
pub data FlowResult : Type 0 where
  form : String → Schema → Dict String → FlowResult
  created : (title rule_id : String) → Working → FlowResult
  saved : (title : String) → Working → FlowResult
  key_error : String → FlowResult

-- A step leaves `_working` and a result.
pub record Turned : Type 0 where
  pub working : Working
  pub result : FlowResult

abbrev pub or_else {ℓ} : {A : Type ℓ} → A → Option A → A
or_else default none = default
or_else default (some x) = x

-- `value` where it is not empty.
abbrev pub truthy : Option String → Option String
truthy none = none
truthy (some s) = nonempty s

-- `_room_schema`
unfoldable pub room_schema : Working → Schema
room_schema w = room_fields (or_else "" w.name) (truthy w.area_id)

-- `_display_entity_ids`, from what is displayed so far.
unfoldable pub display_entity_ids :
    (String → Option String) → List String → List String → List String
unfolding add_unique
display_entity_ids resolve displayed [] = displayed
display_entity_ids resolve displayed (x ∷ xs) =
    display_entity_ids resolve (add_unique displayed (or_else x (truthy (resolve x)))) xs

-- `_entities_schema`
unfoldable pub entities_schema : Home → List String → Working → Schema
unfolding display_entity_ids contains
entities_schema home candidates w =
    let displayed = display_entity_ids home.resolve [] (or_else [] w.entities) in
    if is_empty candidates
    then no_fields
    else entity_fields candidates (filter (λ e. contains e candidates) displayed)

-- `DEFAULT_DELAY_SECONDS` and `DEFAULT_RETRY_INTERVAL_SECONDS`: an hour, and five minutes.
abbrev pub default_delay_seconds : ℤ
default_delay_seconds = pos 3600000000

abbrev pub default_retry_interval_seconds : ℤ
default_retry_interval_seconds = pos 300000000

-- The suggestion for the Shabbat sensor.
abbrev pub suggested_sensor : (String → Option String) → Option String → Option String
suggested_sensor resolve none = none
suggested_sensor resolve (some reference) =
    if str_eq reference "" then none else truthy (resolve reference)

-- `_delay_schema`
unfoldable pub delay_schema : Home → Working → Schema
unfolding shown_duration
delay_schema home w =
    delay_fields (shown_duration (or_else default_delay_seconds w.delay_seconds))
      (shown_duration (or_else default_retry_interval_seconds w.retry_interval_seconds))
      (or_else TriggerPolicy.first w.trigger_policy)
      (suggested_sensor home.resolve w.shabbat_entity)

abbrev pub ask_room : String → Dict String → Working → Turned
ask_room step errors w = record { working = w; result = form step (room_schema w) errors }

abbrev pub ask_delay : Home → Dict String → Working → Turned
ask_delay home errors w = record { working = w; result = form "delay" (delay_schema home w) errors }

-- The form of the entities, in the area of `_working`.
unfoldable pub ask_entities : Home → String → Dict String → Working → Turned
ask_entities home area errors w =
    let offered =
      turn_off_entities_in_area home.hass home.entries home.resolve area (or_else [] w.entities) in
    record {
      working = w;
      result =
          form "entities" (entities_schema home offered w)
            (if is_empty offered then ("base", "no_supported_entities") ∷ [] else errors);
    }

-- The entities handed in, where the area offers some; the next step asks for the delay.
unfoldable pub answer_entities : Home → String → List String → Working → Turned
answer_entities home area references w =
    let offered =
      turn_off_entities_in_area home.hass home.entries home.resolve area (or_else [] w.entities) in
    let a = accept_entities home.hass home.entries home.resolve area references w in
    if is_empty offered
    then ask_entities home area [] w
    else if is_empty a.errors
    then ask_delay home [] a.working
    else ask_entities home area a.errors a.working

abbrev pub failed_key : String → Working → Turned
failed_key key w = record { working = w; result = key_error key }

-- `async_step_entities`, the same in both flows; `none` is a call without input.
unfoldable pub async_step_entities : Home → Option (List String) → Working → Turned
async_step_entities home input w = elim w.area_id [
  | none ↦ failed_key "area_id" w
  | some area ↦ elim input [
    | none ↦ ask_entities home area [] w
    | some references ↦ answer_entities home area references w
  ]
]

-- `async_step_entities` of the flow that edits an entry: the same text.
abbrev pub edit_step_entities : Home → Option (List String) → Working → Turned
edit_step_entities = async_step_entities

-- The first step of a flow, named `step`: `async_step_user`, or `async_step_init` behind the
-- reading of the options.
unfoldable pub async_step_room : String → Home → Option RoomInput → Working → Turned
async_step_room step home none w = ask_room step [] w
async_step_room step home (some input) w =
    let a = accept_room input.name input.area_id w in
    if is_empty a.errors
    then async_step_entities home none a.working
    else ask_room step a.errors a.working

-- `_accept_delay` on the durations of the form.
unfoldable pub accepted_delay : Home → DelayInput → Working → Accepted
accepted_delay home input w =
    accept_delay home.hass home.resolve (duration_to_seconds input.delay)
      (duration_to_seconds input.retry_interval) input.trigger_policy input.shabbat_entity w

-- The last step, up to what is done with the complete options.
unfoldable pub answer_delay : (Working → FlowResult) → Home → Option DelayInput → Working → Turned
answer_delay finish home none w = ask_delay home [] w
answer_delay finish home (some input) w =
    let a = accepted_delay home input w in
    if is_empty a.errors
    then record { working = a.working; result = finish a.working }
    else ask_delay home a.errors a.working

-- The end of the flow that makes an entry; `rule_id` is the new identifier.
abbrev pub create_entry : String → Working → FlowResult
create_entry rule_id w = elim w.name [
  | none ↦ key_error "name"
  | some title ↦ created title rule_id w
]

-- `RuntimeAutoOffConfigFlow.async_step_delay`
unfoldable pub async_step_delay : String → Home → Option DelayInput → Working → Turned
async_step_delay rule_id = answer_delay (create_entry rule_id)

-- The end of the flow that edits an entry, whose title follows the name.
abbrev pub save_options : String → Working → FlowResult
save_options title w = elim w.name [
  | none ↦ key_error "name"
  | some name ↦ saved (if not (str_eq title name) then name else title) w
]

-- `RuntimeAutoOffOptionsFlow.async_step_delay`, on an entry with the title.
unfoldable pub edit_step_delay : String → Home → Option DelayInput → Working → Turned
edit_step_delay title = answer_delay (save_options title)

-- `not self._working`
abbrev pub is_unset : Working → Bool
is_unset w =
    is_none w.name
    && is_none w.area_id
    && is_none w.entities
    && is_none w.delay_seconds
    && is_none w.retry_interval_seconds
    && is_none w.trigger_policy
    && is_none w.shabbat_entity

-- A missing retry interval is the delay.
abbrev pub with_retry_interval : Working → Working
with_retry_interval w = record w {
  retry_interval_seconds =
      some
        (or_else (or_else default_retry_interval_seconds w.delay_seconds) w.retry_interval_seconds);
}

-- `async_step_init`, on an entry with the options.
unfoldable pub async_step_init : Working → Home → Option RoomInput → Working → Turned
async_step_init options home input w =
    async_step_room "init" home input (if is_unset w then with_retry_interval options else w)
