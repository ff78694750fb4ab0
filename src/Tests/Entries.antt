-- ===== src/Tests/Entries.antt =====
-- The forms of the rule, its entry, its sensors, and a store that fails.
use ha_runtime_auto_off.Prelude.{
  ℕ, String, ◌≡◌, ◌⊎◌, refl, true, false, Option, none, some, List, [], ◌∷◌, get, put, pop, values,
  map, keep_keys, contains, is_some, is_empty, str_le, ◌≢◌, ◌<◌, str_eq_iff, arith, subst, sym,
}
use ha_runtime_auto_off.Hass.{RegistryEntry, get_device}
use ha_runtime_auto_off.Helpers.{walk, device_area, effective_area_id}
use ha_runtime_auto_off.Models.{TriggerPolicy}
use ha_runtime_auto_off.Controller.Errors.{
  entry_error, identity_or_area_error, shabbat_block_reason,
}
use ha_runtime_auto_off.Controller.Deadline.{cancel_deadline}
use ha_runtime_auto_off.Controller.Sync.{sync_state, sync_entities, sync_cycles, track_active}
use ha_runtime_auto_off.Controller.Reconcile.{
  before, min_cycle, trigger_of, claim_due, reconcile_pending, reconcile,
}
use ha_runtime_auto_off.Controller.Reconcile.Stuck.{IsStuck}
use ha_runtime_auto_off.Controller.Save.{payload, is_saved}
use ha_runtime_auto_off.Controller.Handlers.{Reading}
use ha_runtime_auto_off.Controller.Events.{async_deadline_reached}
use ha_runtime_auto_off.Controller.Events.Unsaved.{decided, async_deadline_reached-IsStuck}
use ha_runtime_auto_off.Flow.{
  Working, accept_entities, accept_delay, set_delay, canonical_reference, trigger_policy_of,
}
use ha_runtime_auto_off.Flow.Duration.{pos}
use ha_runtime_auto_off.Flow.Chosen.{IsChosen, accept_entities-IsChosen}
use ha_runtime_auto_off.Flow.Limits.{IsWithin, IsSensor, accept_delay-IsWithin}
use ha_runtime_auto_off.Tests.{
  lamp, fan, both_on, lamp_entry, fan_entry, running_cycles, tally_text, rule, active,
}
use ha_runtime_auto_off.Tests.Running.{unblocked, lamp_cycle, fan_cycle, pending_both}
use ha_runtime_auto_off.Tests.Executions.{counting, lamp_first}
use ha_runtime_auto_off.Sensors.{shown}
use ha_runtime_auto_off.Sensors.Countdown.{AreApart, ShowsCountdown, reconcile-ShowsCountdown}
use ha_runtime_auto_off.Models.{deadline}

-- A reading of a store that fails.
abbrev failing : ℕ → Reading
failing now = record { hass = both_on; sync_now = now; now = now; stamp = now; store_ok = false }

abbrev pub working : ℕ → Reading
working now = record { hass = both_on; sync_now = now; now = now; stamp = now; store_ok = true }

due_claimed : is_some (decided tally_text 1 (failing 70) counting).plan ≡ true
unfolding sync_cycles sync_entities sync_state track_active identity_or_area_error entry_error
    effective_area_id device_area walk get_device contains get put pop values keep_keys reconcile
    reconcile_pending claim_due trigger_of min_cycle before shabbat_block_reason str_le
due_claimed = refl

due_unsaved :
    is_saved
      (payload tally_text (decided tally_text 1 (failing 70) counting).controller)
      (decided tally_text 1 (failing 70) counting).controller.last_saved_payload
    ≡ false
unfolding sync_cycles sync_entities sync_state track_active identity_or_area_error entry_error
    effective_area_id device_area walk get_device contains get put pop values keep_keys reconcile
    reconcile_pending claim_due trigger_of min_cycle before shabbat_block_reason str_le
    cancel_deadline
due_unsaved = refl

async_deadline_reached-IsStuck_example :
    ((async_deadline_reached tally_text 1 (failing 70) counting).raised ≡ true)
    × ((async_deadline_reached tally_text 1 (failing 70) counting).plan ≡ none)
    × IsStuck (async_deadline_reached tally_text 1 (failing 70) counting).controller
async_deadline_reached-IsStuck_example =
    async_deadline_reached-IsStuck tally_text 1 (failing 70) counting refl refl refl due_claimed
      due_unsaved

abbrev blank : Working
blank = record {
  name = some "Hall";
  area_id = some "room";
  entities = none;
  delay_seconds = none;
  retry_interval_seconds = none;
  trigger_policy = none;
  shabbat_entity = none;
}

abbrev entries : List RegistryEntry
entries = lamp_entry ∷ fan_entry ∷ []

accept_entities-IsChosen_example :
    ((es : List String) × (accept_entities both_on entries some "room" (fan ∷ lamp ∷ fan ∷ []) blank
        ≡ record {
          working = record blank { entities = some (map (canonical_reference both_on) es) };
          errors = [];
        })
      × IsChosen both_on entries some "room" es)
    ⊎ (is_empty (accept_entities both_on entries some "room" (fan ∷ lamp ∷ fan ∷ []) blank).errors
        ≡ false)
      × ((accept_entities both_on entries some "room" (fan ∷ lamp ∷ fan ∷ []) blank).working
          ≡ blank)
accept_entities-IsChosen_example =
    accept_entities-IsChosen both_on entries some "room" (fan ∷ lamp ∷ fan ∷ []) blank

accept_delay-IsWithin_example :
    ((p : TriggerPolicy) × (e : Option String) × (accept_delay both_on some
          (pos 60000000)
          (pos 300000000)
          "last"
          none
          blank
        ≡ record {
          working = set_delay both_on (pos 60000000) (pos 300000000) p e blank;
          errors = [];
        })
      × IsWithin 0 (pos 60000000)
      × IsWithin 1 (pos 300000000)
      × (trigger_policy_of "last" ≡ some p)
      × IsSensor some none e)
    ⊎ (is_empty (accept_delay both_on some (pos 60000000) (pos 300000000) "last" none blank).errors
        ≡ false)
      × ((accept_delay both_on some (pos 60000000) (pos 300000000) "last" none blank).working
          ≡ blank)
accept_delay-IsWithin_example =
    accept_delay-IsWithin both_on some (pos 60000000) (pos 300000000) "last" none blank

fan-lamp : fan ≢ lamp
fan-lamp e = absurd (ground (arith, (str_eq_iff "fan.fan" "light.lamp").1 e))

apart_cycles : AreApart (values (running_cycles false))
unfolding values
apart_cycles = ((fan-lamp, tt), (tt, tt))

reconcile-ShowsCountdown_example :
    ShowsCountdown rule
      (trigger_of rule lamp_cycle (fan_cycle ∷ []))
      (shown (reconcile both_on 50 50 (active false)).controller)
reconcile-ShowsCountdown_example =
    reconcile-ShowsCountdown both_on 50 50 (active false) lamp_cycle (fan_cycle ∷ []) refl
      (unblocked false) pending_both
      (subst (λ t. 50 < deadline 60 t) (sym lamp_first) (omega arith)) apart_cycles
