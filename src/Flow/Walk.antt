-- ===== src/Flow/Walk.antt =====
-- The walks through the two flows of config_flow.py, and what complete options are. The
-- manager of flows of Home Assistant hands the user's input to the step whose form is shown.
use ha_runtime_auto_off.Prelude.{String, ◌≡◌, ◌⊎◌, Option, none, some, List, map}
use ha_runtime_auto_off.Models.{TriggerPolicy}
use ha_runtime_auto_off.Models.Cycle.{IsClean}
use ha_runtime_auto_off.Flow.Duration.{ℤ}
use ha_runtime_auto_off.Flow.{Working, canonical_reference}
use ha_runtime_auto_off.Flow.Chosen.{IsChosen}
use ha_runtime_auto_off.Flow.Limits.{IsWithin, IsSensor}
use ha_runtime_auto_off.Flow.Steps.{
  Home, RoomInput, DelayInput, FlowResult, form, created, saved, key_error, Turned,
  async_step_entities, async_step_room, async_step_delay, async_step_init, edit_step_delay,
}

-- `_working` of a new flow.
abbrev pub nothing_entered : Working
nothing_entered = record {
  name = none;
  area_id = none;
  entities = none;
  delay_seconds = none;
  retry_interval_seconds = none;
  trigger_policy = none;
  shabbat_entity = none;
}

-- The result is the form of the step.
abbrev pub Asks : String → FlowResult → Type 0
Asks step (form s schema errors) = s ≡ step
Asks step _ = ⊥

-- `RuntimeAutoOffConfigFlow`, or `RuntimeAutoOffOptionsFlow` on an entry with a title and options.
pub data FlowKind : Type 0 where
  creating : FlowKind
  editing : (title : String) (options : Working) → FlowKind

abbrev pub room_step : FlowKind → String
room_step creating = "user"
room_step (editing title options) = "init"

abbrev pub first_step : FlowKind → Home → Option RoomInput → Working → Turned
first_step creating = async_step_room "user"
first_step (editing title options) = async_step_init options

-- `rule_id` is the new identifier, where one is made.
abbrev pub last_step : FlowKind → (rule_id : String) → Home → Option DelayInput → Working → Turned
last_step creating rule_id = async_step_delay rule_id
last_step (editing title options) rule_id = edit_step_delay title

-- A flow from its start on: every input goes to the step that is asked, and Home Assistant may
-- change from one step to the next.
pub data Walk (f : FlowKind) : Turned → Type 0 where
  opened : (home : Home) → Walk f (first_step f home none nothing_entered)
  room :
      {t : Turned}
      → Walk f t
      → Asks (room_step f) t.result
      → (home : Home) (input : RoomInput) → Walk f (first_step f home (some input) t.working)
  entities :
      {t : Turned}
      → Walk f t
      → Asks "entities" t.result
      → (home : Home) (references : List String)
      → Walk f (async_step_entities home (some references) t.working)
  delay :
      {t : Turned}
      → Walk f t
      → Asks "delay" t.result
      → (rule_id : String) (home : Home) (input : DelayInput)
      → Walk f (last_step f rule_id home (some input) t.working)

pub record HasRoom (w : Working) : Type 0 where
  pub title : String
  pub area : String
  pub named : w.name ≡ some title
  pub clean : IsClean title
  pub placed : w.area_id ≡ some area

-- The entities were chosen among those that the area offered at the time.
pub record HasEntities (area : String) (w : Working) : Type 0 where
  pub home : Home
  pub chosen : List String
  pub listed : w.entities ≡ some (map (canonical_reference home.hass) chosen)
  pub fine : IsChosen home.hass home.entries home.resolve area chosen

pub record HasChoice (w : Working) : Type 0 where
  pub in_room : HasRoom w
  pub on_list : HasEntities in_room.area w

pub record HasDelay (w : Working) : Type 0 where
  pub home : Home
  pub delay : ℤ
  pub retry : ℤ
  pub policy : TriggerPolicy
  pub reference : Option String
  pub sensor : Option String
  pub delayed : w.delay_seconds ≡ some delay
  pub delay_fits : IsWithin 0 delay
  pub retried : w.retry_interval_seconds ≡ some retry
  pub retry_fits : IsWithin 1 retry
  pub decided : w.trigger_policy ≡ some policy
  pub watched :
      w.shabbat_entity
      ≡ elim sensor [ none ↦ none | some e ↦ some (canonical_reference home.hass e) ]
  pub is_sensor : IsSensor home.resolve reference sensor

-- The options of an entry with the title.
pub record IsComplete (title : String) (w : Working) : Type 0 where
  pub choice : HasChoice w
  pub titled : choice.in_room.title ≡ title
  pub times : HasDelay w

-- The form of one of the three steps.
abbrev pub IsStep : FlowKind → String → Type 0
IsStep f step = (step ≡ room_step f) ⊎ (step ≡ "entities") ⊎ (step ≡ "delay")

abbrev pub IsCreating : FlowKind → Type 0
IsCreating creating = Unit
IsCreating (editing title options) = ⊥

abbrev pub IsEditing : FlowKind → Type 0
IsEditing creating = ⊥
IsEditing (editing title options) = Unit

-- A form of the flow; or complete options, of a new entry or of the one that is edited.
abbrev pub IsGood : FlowKind → FlowResult → Type 0
IsGood f (form step schema errors) = IsStep f step
IsGood f (created title rule_id options) = IsCreating f × IsComplete title options
IsGood f (saved title options) = IsEditing f × IsComplete title options
IsGood f (key_error key) = ⊥
