-- ===== src/Flow/Created/Last.antt =====
-- The last step of the flows of config_flow.py.
use ha_runtime_auto_off.Prelude.{
  String, ◌≡◌, refl, sym, subst, Option, some, str_eq, not, if◌then◌else◌, inl, inr, arith,
  str_eq_iff,
}
use ha_runtime_auto_off.Models.{TriggerPolicy}
use ha_runtime_auto_off.Flow.Duration.{ℤ, duration_to_seconds}
use ha_runtime_auto_off.Flow.{Working, accept_delay, set_delay}
use ha_runtime_auto_off.Flow.Limits.{IsWithin, IsSensor, accept_delay-IsWithin}
use ha_runtime_auto_off.Flow.Walk.{FlowKind, creating, editing, last_step, HasChoice, IsComplete}
use ha_runtime_auto_off.Flow.Created.Entities.{Fits, IsFit, ask_delay-IsFit}
use ha_runtime_auto_off.Flow.Steps.{
  Home, DelayInput, FlowResult, saved, accepted_delay, answer_delay, create_entry, async_step_delay,
  save_options, edit_step_delay,
}

-- The last form changes nothing of the choice.
done-IsComplete :
    (home : Home) (d r : ℤ) (p : TriggerPolicy) (reference e : Option String) (w : Working)
    (h : HasChoice w)
    → IsWithin 0 d
    → IsWithin 1 r
    → IsSensor home.resolve reference e
    → IsComplete h.in_room.title (set_delay home.hass d r p e w)
done-IsComplete home d r p reference e w h within again is_sensor = record {
  choice = record {
    in_room = record {
      title = h.in_room.title;
      area = h.in_room.area;
      named = h.in_room.named;
      clean = h.in_room.clean;
      placed = h.in_room.placed;
    };
    on_list = record {
      home = h.on_list.home;
      chosen = h.on_list.chosen;
      listed = h.on_list.listed;
      fine = h.on_list.fine;
    };
  };
  titled = refl;
  times = record {
    home = home;
    delay = d;
    retry = r;
    policy = p;
    reference = reference;
    sensor = e;
    delayed = refl;
    delay_fits = within;
    retried = refl;
    retry_fits = again;
    decided = refl;
    watched = refl;
    is_sensor = is_sensor;
  };
}

create_entry-Fits :
    (rule_id title : String) (w w' : Working)
    → w.name ≡ some title
    → IsComplete title w
    → Fits creating w' (create_entry rule_id w)
create_entry-Fits rule_id title w w' named h = ground (arith, named, h)

-- The title that an edited entry has then is the name.
new_title : (title name : String) → (if not (str_eq title name) then name else title) ≡ name
new_title title name = ground (arith, str_eq_iff title name)

save_options-saved :
    (title name : String) (w : Working)
    → w.name ≡ some name
    → save_options title w ≡ saved (if not (str_eq title name) then name else title) w
save_options-saved title name w named = ground (arith, named)

save_options-Fits :
    (old : String) (options : Working) (name : String) (w w' : Working)
    → w.name ≡ some name
    → IsComplete name w
    → Fits (editing old options) w' (save_options old w)
save_options-Fits old options name w w' named h =
    subst (Fits (editing old options) w') (sym (save_options-saved old name w named))
      (tt, subst (λ title. IsComplete title w) (sym (new_title old name)) h)

module _ (f : FlowKind) (finish : Working → FlowResult)
    (fits : (name : String) (w w' : Working)
      → w.name ≡ some name
      → IsComplete name w
      → Fits f w' (finish w)) where
  answer_delay-IsFit :
      (home : Home) (input : DelayInput) (w : Working)
      → HasChoice w
      → IsFit f (answer_delay finish home (some input) w)
  unfolding answer_delay accepted_delay
  answer_delay-IsFit home input w h =
      let d = duration_to_seconds input.delay in
      let r = duration_to_seconds input.retry_interval in
      elim (accept_delay-IsWithin home.hass home.resolve d r input.trigger_policy
        input.shabbat_entity w) [
          | inl (p, e, same, within, again, known, sensor) ↦ rw same (
              fits h.in_room.title (set_delay home.hass d r p e w) (set_delay home.hass d r p e w)
                h.in_room.named
                (done-IsComplete home d r p input.shabbat_entity e w h within again sensor))
          | inr (wrong, kept) ↦
              rw (wrong, kept)
                (ask_delay-IsFit f home
                  (accept_delay home.hass home.resolve d r input.trigger_policy input.shabbat_entity
                    w).errors
                  w h)
        ]

pub last_step-IsFit :
    (f : FlowKind) (rule_id : String) (home : Home) (input : DelayInput) (w : Working)
    → HasChoice w
    → IsFit f (last_step f rule_id home (some input) w)
unfolding async_step_delay edit_step_delay
last_step-IsFit creating rule_id home input w h =
    answer_delay-IsFit creating (create_entry rule_id) (create_entry-Fits rule_id) home input w h
last_step-IsFit (editing old options) rule_id home input w h =
    answer_delay-IsFit (editing old options) (save_options old) (save_options-Fits old options) home
      input w h
