-- ===== src/Flow/Unchanged/Saved.antt =====
-- The flow of config_flow.py that edits an entry, when each form is handed in as it is shown.
use ha_runtime_auto_off.Prelude.{
  ◌*◌, String, ◌≡◌, refl, ap, Option, none, some, List, [], map, str_eq, str_eq_iff, Bool-cases,
  inl, inr,
}
use ha_runtime_auto_off.Flow.Duration.{pos, seconds_to_duration, shown_duration}
use ha_runtime_auto_off.Flow.{
  Working, canonical_reference, turn_off_entities_in_area, accept_room, accept_entities,
  accept_delay,
}
use ha_runtime_auto_off.Flow.Steps.{
  Home, RoomInput, DelayInput, Schema, room_fields, entity_fields, delay_fields, FlowResult, form,
  saved, Turned, room_schema, entities_schema, delay_schema, ask_entities, answer_entities,
  async_step_entities, async_step_room, accepted_delay, answer_delay, edit_step_delay,
  async_step_init,
}
use ha_runtime_auto_off.Flow.Walk.{nothing_entered}
use ha_runtime_auto_off.Flow.Unchanged.{
  Choice, options_of, IsPossible, display-map, unique-known, resolve-known, filter-offered,
  offered-busy,
}
use ha_runtime_auto_off.Flow.Unchanged.Fields.{
  policy_text, strip-clean, suggested_sensor-same, resolve_shabbat-same, whole_seconds, valid_delay,
  valid_retry, trigger_policy_of-policy_text,
}

-- What a form holds when nothing in it is changed.
abbrev pub room_answer : FlowResult → Option RoomInput
room_answer (form step (room_fields name (some area)) errors) =
    some (record { name = name; area_id = area })
room_answer _ = none

abbrev pub entities_answer : FlowResult → Option (List String)
entities_answer (form step (entity_fields candidates selected) errors) = some selected
entities_answer _ = none

abbrev pub delay_answer : FlowResult → Option DelayInput
delay_answer (form step (delay_fields delay retry policy sensor) errors) = some (record {
  delay = delay;
  retry_interval = retry;
  trigger_policy = policy_text policy;
  shabbat_entity = sensor;
})
delay_answer _ = none

-- The flow on an entry with the title and the options, from its start to the last form.
abbrev pub resubmitted : (title : String) → Home → Working → Turned
resubmitted title home options =
    let shown = async_step_init options home none nothing_entered in
    let placed = async_step_init options home (room_answer shown.result) shown.working in
    let chosen = async_step_entities home (entities_answer placed.result) placed.working in
    edit_step_delay title home (delay_answer chosen.result) chosen.working

module _ (home : Home) (c : Choice) (h : IsPossible home c) where
  abbrev offered : List String
  offered =
      turn_off_entities_in_area home.hass home.entries home.resolve c.area
        (map (canonical_reference home.hass) c.entities)

  abbrev at_form : String → Schema → Turned
  at_form step schema = record { working = options_of home c; result = form step schema [] }

  init-none :
      async_step_init (options_of home c) home none nothing_entered
      ≡ at_form "init" (room_fields c.name (some c.area))
  unfolding async_step_init async_step_room room_schema
  init-none = rw h.placed refl

  ask-known :
      ask_entities home c.area [] (options_of home c)
      ≡ at_form "entities" (entity_fields offered c.entities)
  unfolding ask_entities entities_schema
  ask-known =
      rw
        (
          offered-busy home c.area c.entities (map (canonical_reference home.hass) c.entities)
              h.allowed h.some_entity,
          display-map home [] c.entities h.known,
          filter-offered home c.area c.entities (map (canonical_reference home.hass) c.entities)
              h.allowed,
        )
        refl

  accept_room-same :
      accept_room c.name c.area (options_of home c)
      ≡ record { working = options_of home c; errors = [] }
  unfolding accept_room
  accept_room-same =
      let (bare, given) = strip-clean c.name h.named in
      rw (bare, given, (str_eq_iff c.area c.area).1 refl) refl

  init-room :
      async_step_init
        (options_of home c)
        home
        (some (record { name = c.name; area_id = c.area }))
        (options_of home c)
      ≡ at_form "entities" (entity_fields offered c.entities)
  unfolding async_step_init async_step_room async_step_entities
  init-room = rw accept_room-same ask-known

  accept_entities-same :
      accept_entities home.hass home.entries home.resolve c.area c.entities (options_of home c)
      ≡ record { working = options_of home c; errors = [] }
  unfolding accept_entities
  accept_entities-same =
      rw
        (
          unique-known home [] c.entities h.known,
          resolve-known home [] c.entities h.known,
          h.some_entity,
          h.allowed,
        )
        refl

  entities-known :
      async_step_entities home (some c.entities) (options_of home c)
      ≡ at_form "delay" (delay_schema home (options_of home c))
  unfolding async_step_entities answer_entities
  entities-known =
      rw
        (
          offered-busy home c.area c.entities (map (canonical_reference home.hass) c.entities)
              h.allowed h.some_entity,
          accept_entities-same,
        )
        refl

  -- The form of the delay, with its times, its policy and its sensor.
  abbrev delay_input : DelayInput
  delay_input = record {
    delay = seconds_to_duration (c.delay * 1000000);
    retry_interval = seconds_to_duration (c.retry * 1000000);
    trigger_policy = policy_text c.policy;
    shabbat_entity = c.sensor;
  }

  delay_answer-same :
      delay_answer (form "delay" (delay_schema home (options_of home c)) []) ≡ some delay_input
  unfolding delay_schema shown_duration
  delay_answer-same = rw (suggested_sensor-same home c.sensor h.sensor) refl

  accept_delay-same :
      accept_delay home.hass home.resolve
        (pos (c.delay * 1000000))
        (pos (c.retry * 1000000))
        (policy_text c.policy)
        c.sensor
        (options_of home c)
      ≡ record { working = options_of home c; errors = [] }
  unfolding accept_delay
  accept_delay-same =
      rw
        (
          valid_delay c.delay h.delay_fits,
          valid_retry c.retry h.retry_positive h.retry_fits,
          trigger_policy_of-policy_text c.policy,
          resolve_shabbat-same home c.sensor h.sensor,
        )
        refl

  accepted_delay-same :
      accepted_delay home delay_input (options_of home c)
      ≡ record { working = options_of home c; errors = [] }
  unfolding accepted_delay
  accepted_delay-same = rw (whole_seconds c.delay, whole_seconds c.retry) accept_delay-same

  edit_step_delay-saved :
      (title : String)
      → edit_step_delay title home (some delay_input) (options_of home c)
        ≡ record { working = options_of home c; result = saved c.name (options_of home c) }
  unfolding edit_step_delay answer_delay
  edit_step_delay-saved title = rw accepted_delay-same (elim (Bool-cases (str_eq title c.name)) [
    | inr other ↦ rw other refl
    | inl same ↦ rw same (
        ap (λ t. record { working = options_of home c; result = saved t (options_of home c) })
          ((str_eq_iff title c.name).0 same))
  ])

-- Editing a rule with all its options, the times in whole seconds and within their limits, whose
-- area, entities and sensor are still there: handing in each form as it is shown stores the options
-- as they were, and the entry's title becomes the name. Only the sensor may be absent.
pub resubmitted-saved :
    (title : String) (home : Home) (c : Choice)
    → IsPossible home c
    → resubmitted title home (options_of home c)
      ≡ record { working = options_of home c; result = saved c.name (options_of home c) }
resubmitted-saved title home c h =
    rw (init-none home c h, init-room home c h, entities-known home c h, delay_answer-same home c h)
      (edit_step_delay-saved home c h title)
