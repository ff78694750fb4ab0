-- ===== src/Flow/Created/Entities.antt =====
-- The form of the room, and the step of the entities of config_flow.py: what they leave for the
-- steps behind them.
use ha_runtime_auto_off.Prelude.{
  String, ◌≡◌, refl, sym, subst, false, none, some, List, [], map, is_empty, str_eq, Bool-cases,
  inl, inr, arith, Dict, str_eq_iff,
}
use ha_runtime_auto_off.Flow.{
  Working, canonical_reference, accept_entities, turn_off_entities_in_area,
}
use ha_runtime_auto_off.Flow.Chosen.{IsChosen, accept_entities-IsChosen}
use ha_runtime_auto_off.Flow.Walk.{
  FlowKind, creating, editing, room_step, IsCreating, IsEditing, HasRoom, HasChoice, IsComplete,
  IsStep,
}
use ha_runtime_auto_off.Flow.Steps.{
  Home, FlowResult, form, created, saved, key_error, Turned, or_else, ask_room, ask_delay,
  ask_entities, answer_entities, async_step_entities,
}

abbrev pub Fits : FlowKind → Working → FlowResult → Type 0
Fits f w (form s schema errors) =
    IsStep f s × (s ≡ "entities" → HasRoom w) × (s ≡ "delay" → HasChoice w)
Fits f w (created title rule_id options) = IsCreating f × IsComplete title options
Fits f w (saved title options) = IsEditing f × IsComplete title options
Fits f w (key_error key) = ⊥

abbrev pub IsFit : FlowKind → Turned → Type 0
IsFit f t = Fits f t.working t.result

apart : (s t : String) → str_eq s t ≡ false → s ≡ t → ⊥
apart s t h e = ground (arith, (str_eq_iff s t).1 e)

pub ask_room-IsFit :
    (f : FlowKind) (errors : Dict String) (w : Working) → IsFit f (ask_room (room_step f) errors w)
ask_room-IsFit creating errors w = (
  inl refl,
  λ e. absurd (apart "user" "entities" refl e),
  λ e. absurd (apart "user" "delay" refl e),
)
ask_room-IsFit (editing title options) errors w = (
  inl refl,
  λ e. absurd (apart "init" "entities" refl e),
  λ e. absurd (apart "init" "delay" refl e),
)

module _ (f : FlowKind) where
  ask_entities-IsFit :
      (home : Home) (area : String) (errors : Dict String) (w : Working)
      → HasRoom w
      → IsFit f (ask_entities home area errors w)
  unfolding ask_entities
  ask_entities-IsFit home area errors w h =
      (inr (inl refl), λ e. h, λ e. absurd (apart "entities" "delay" refl e))

  pub ask_delay-IsFit :
      (home : Home) (errors : Dict String) (w : Working)
      → HasChoice w
      → IsFit f (ask_delay home errors w)
  ask_delay-IsFit home errors w h = (inr (inr refl), λ e. h.in_room, λ e. h)

  async_step_entities-ask_entities :
      (home : Home) (area : String) (w : Working)
      → w.area_id ≡ some area
      → async_step_entities home none w ≡ ask_entities home area [] w
  unfolding async_step_entities
  async_step_entities-ask_entities home area w h = ground (arith, h)

  async_step_entities-answer_entities :
      (home : Home) (area : String) (references : List String) (w : Working)
      → w.area_id ≡ some area
      → async_step_entities home (some references) w ≡ answer_entities home area references w
  unfolding async_step_entities
  async_step_entities-answer_entities home area references w h = ground (arith, h)

  pub async_step_entities-none :
      (home : Home) (w : Working) → HasRoom w → IsFit f (async_step_entities home none w)
  async_step_entities-none home w h =
      subst (IsFit f) (sym (async_step_entities-ask_entities home h.area w h.placed))
        (ask_entities-IsFit home h.area [] w h)

  -- The entities change nothing of the room.
  chosen-HasChoice :
      (home : Home) (es : List String) (w : Working) (h : HasRoom w)
      → IsChosen home.hass home.entries home.resolve h.area es
      → HasChoice (record w { entities = some (map (canonical_reference home.hass) es) })
  chosen-HasChoice home es w h fine = record {
    in_room = record {
      title = h.title;
      area = h.area;
      named = h.named;
      clean = h.clean;
      placed = h.placed;
    };
    on_list = record { home = home; chosen = es; listed = refl; fine = fine };
  }

  answer_entities-IsFit :
      (home : Home) (references : List String) (w : Working) (h : HasRoom w)
      → IsFit f (answer_entities home h.area references w)
  unfolding answer_entities
  answer_entities-IsFit home references w h =
      let offered =
        turn_off_entities_in_area home.hass home.entries home.resolve h.area
          (or_else [] w.entities) in
      elim (Bool-cases (is_empty offered)) [
        | inl nobody ↦ rw nobody (ask_entities-IsFit home h.area [] w h)
        | inr busy ↦
            elim (accept_entities-IsChosen home.hass home.entries home.resolve h.area references
              w) [
                | inl (es, same, fine) ↦
                    rw (busy, same)
                      (ask_delay-IsFit home []
                        (record w { entities = some (map (canonical_reference home.hass) es) })
                        (chosen-HasChoice home es w h fine))
                | inr (wrong, kept) ↦
                    rw (busy, wrong, kept)
                      (ask_entities-IsFit home h.area
                        (accept_entities home.hass home.entries home.resolve h.area references
                          w).errors
                        w h)
              ]
      ]

  pub async_step_entities-IsFit :
      (home : Home) (references : List String) (w : Working)
      → HasRoom w
      → IsFit f (async_step_entities home (some references) w)
  async_step_entities-IsFit home references w h =
      subst (IsFit f) (sym (async_step_entities-answer_entities home h.area references w h.placed))
        (answer_entities-IsFit home references w h)
