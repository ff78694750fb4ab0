-- ===== src/Flow/Created.antt =====
-- What the flows of config_flow.py make of the answers to their forms. The
-- lemmas are on the steps, one after the other.
pub mod Entities
pub mod Last
use ha_runtime_auto_off.Prelude.{
  refl, none, some, [], ◌∷◌, str_eq, Bool-cases, not, if◌then◌else◌, inl, inr,
}
use ha_runtime_auto_off.Models.Values.{strip}
use ha_runtime_auto_off.Models.Strip.{strip-IsClean}
use ha_runtime_auto_off.Flow.{Working, area_changed, accept_room}
use ha_runtime_auto_off.Flow.Walk.{
  nothing_entered, FlowKind, creating, editing, room_step, first_step, Asks, Walk, opened, room,
  entities, delay, HasRoom, HasChoice, IsGood,
}
use ha_runtime_auto_off.Flow.Created.Last.{last_step-IsFit}
use ha_runtime_auto_off.Flow.Created.Entities.{
  Fits, IsFit, ask_room-IsFit, async_step_entities-none, async_step_entities-IsFit,
}
use ha_runtime_auto_off.Flow.Steps.{
  Home, RoomInput, FlowResult, form, created, saved, key_error, Turned, async_step_room, is_unset,
  with_retry_interval, async_step_init,
}

async_step_room-IsFit :
    (f : FlowKind) (home : Home) (input : RoomInput) (w : Working)
    → IsFit f (async_step_room (room_step f) home (some input) w)
unfolding async_step_room accept_room
async_step_room-IsFit f home input w = elim (Bool-cases (str_eq (strip input.name) "")) [
  | inl blank ↦ rw blank (ask_room-IsFit f (("name", "name_required") ∷ []) w)
  | inr titled ↦ elim (Bool-cases (area_changed w.area_id input.area_id)) [
    | inl moved ↦
        rw (titled, moved)
          (async_step_entities-none f home
            (record w {
              name = some (strip input.name);
              area_id = some input.area_id;
              entities = none;
            })
            (record {
              title = strip input.name;
              area = input.area_id;
              named = refl;
              clean = strip-IsClean input.name titled;
              placed = refl;
            }))
    | inr stays ↦
        rw (titled, stays)
          (async_step_entities-none f home
            (record w { name = some (strip input.name); area_id = some input.area_id })
            (record {
              title = strip input.name;
              area = input.area_id;
              named = refl;
              clean = strip-IsClean input.name titled;
              placed = refl;
            }))
  ]
]

first_step-IsFit :
    (f : FlowKind) (home : Home) (input : RoomInput) (w : Working)
    → IsFit f (first_step f home (some input) w)
unfolding async_step_init
first_step-IsFit creating home input w = async_step_room-IsFit creating home input w
first_step-IsFit (editing old options) home input w =
    async_step_room-IsFit (editing old options) home input
      (if is_unset w then with_retry_interval options else w)

opened-IsFit : (f : FlowKind) (home : Home) → IsFit f (first_step f home none nothing_entered)
unfolding async_step_room async_step_init
opened-IsFit creating home = ask_room-IsFit creating [] nothing_entered
opened-IsFit (editing old options) home =
    ask_room-IsFit (editing old options) [] (with_retry_interval options)

Asks-HasRoom :
    (f : FlowKind) (w : Working) (result : FlowResult)
    → Fits f w result
    → Asks "entities" result
    → HasRoom w
Asks-HasRoom f w (form s schema errors) h asks = h.1 asks
Asks-HasRoom f w (created title rule_id options) h asks = absurd asks
Asks-HasRoom f w (saved title options) h asks = absurd asks
Asks-HasRoom f w (key_error key) h asks = absurd asks

Asks-HasChoice :
    (f : FlowKind) (w : Working) (result : FlowResult)
    → Fits f w result
    → Asks "delay" result
    → HasChoice w
Asks-HasChoice f w (form s schema errors) h asks = h.2 asks
Asks-HasChoice f w (created title rule_id options) h asks = absurd asks
Asks-HasChoice f w (saved title options) h asks = absurd asks
Asks-HasChoice f w (key_error key) h asks = absurd asks

Walk-IsFit : (f : FlowKind) {t : Turned} → Walk f t → IsFit f t
Walk-IsFit f (opened home) = opened-IsFit f home
Walk-IsFit f (room {t} before asks home input) = first_step-IsFit f home input t.working
Walk-IsFit f (entities {t} before asks home references) =
    async_step_entities-IsFit f home references t.working
      (Asks-HasRoom f t.working t.result (Walk-IsFit f before) asks)
Walk-IsFit f (delay {t} before asks rule_id home input) =
    last_step-IsFit f rule_id home input t.working
      (Asks-HasChoice f t.working t.result (Walk-IsFit f before) asks)

Fits-IsGood : (f : FlowKind) (w : Working) (result : FlowResult) → Fits f w result → IsGood f result
Fits-IsGood f w (form s schema errors) h = h.0
Fits-IsGood f w (created title rule_id options) h = h
Fits-IsGood f w (saved title options) h = h
Fits-IsGood f w (key_error key) h = absurd h

-- Whatever is answered to the forms of a new rule or of one that is edited, and however Home Assistant
-- changes in between: no step misses a value that an earlier one should have left, and options are
-- stored only with a title that is their name, which is not blank and has no space around it, an
-- area, distinct entities that this area offered when they were chosen, at least one, in their
-- canonical form, a delay of at most thirty days, a retry interval that is positive and at most as
-- long, a policy, and no Shabbat sensor or a binary sensor. Only the flow that makes an entry makes
-- one.
pub Walk-IsGood : (f : FlowKind) {t : Turned} → Walk f t → IsGood f t.result
Walk-IsGood f {t} walk = Fits-IsGood f t.working t.result (Walk-IsFit f walk)
