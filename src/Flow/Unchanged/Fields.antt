-- ===== src/Flow/Unchanged/Fields.antt =====
-- The single fields that the forms of config_flow.py show and take back.
use ha_runtime_auto_off.Prelude.{
  subst, ℕ, ◌*◌, String, ◌≡◌, refl, ap, ◌∙◌, true, false, Option, none, some, str_eq, str_eq_iff,
  Bool-cases, inl, inr, arith, ◌≤◌,
}
use ha_runtime_auto_off.Models.{TriggerPolicy}
use ha_runtime_auto_off.Models.Values.{is_blank, nonempty, strip, optional_string}
use ha_runtime_auto_off.Models.Cycle.{IsClean}
use ha_runtime_auto_off.Flow.Duration.{
  pos, seconds_to_duration, duration_to_seconds, duration_to_seconds-seconds_to_duration,
}
use ha_runtime_auto_off.Flow.{
  canonical_reference, resolve_shabbat, is_valid_delay, is_valid_retry_interval, trigger_policy_of,
}
use ha_runtime_auto_off.Flow.Steps.{Home, suggested_sensor}
use ha_runtime_auto_off.Flow.Unchanged.{IsKnownSensor}

-- The policy as the form hands it in.
abbrev pub policy_text : TriggerPolicy → String
policy_text TriggerPolicy.first = "first"
policy_text TriggerPolicy.last = "last"

some_injective : (s t : String) → some s ≡ some t → s ≡ t
some_injective s t h = cc h

nonempty-same : (s t : String) → nonempty s ≡ some t → (s ≡ t) × (str_eq t "" ≡ false)
nonempty-same String.[] t h = absurd (ground arith)
nonempty-same (String.◌∷◌ c s) t h =
    let same = some_injective (String.◌∷◌ c s) t h in
    (
      same,
      subst (λ u. str_eq u "" ≡ false) same
          (elim (Bool-cases (str_eq (String.◌∷◌ c s) "")) [
            | inl blank ↦
                absurd (ground (arith, ap is_blank ((str_eq_iff (String.◌∷◌ c s) "").0 blank)))
            | inr given ↦ given
          ]),
    )

pub strip-clean : (s : String) → IsClean s → (strip s ≡ s) × (str_eq s "" ≡ false)
unfolding optional_string
strip-clean s h = nonempty-same (strip s) s h

pub suggested_sensor-same :
    (home : Home) (sensor : Option String)
    → IsKnownSensor home sensor
    → suggested_sensor home.resolve
        (elim sensor [ none ↦ none | some e ↦ some (canonical_reference home.hass e) ])
      ≡ sensor
suggested_sensor-same home none h = refl
suggested_sensor-same home (some e) ((_, back, given), stored, _) = rw (stored, back, given) refl

pub resolve_shabbat-same :
    (home : Home) (sensor : Option String)
    → IsKnownSensor home sensor
    → resolve_shabbat home.resolve sensor ≡ some sensor
resolve_shabbat-same home none h = refl
resolve_shabbat-same home (some e) ((leads, _, given), _, binary) =
    rw ((nonempty-same e e given).1, leads, binary) refl

pub whole_seconds :
    (n : ℕ) → duration_to_seconds (seconds_to_duration (n * 1000000)) ≡ pos (n * 1000000)
whole_seconds n = duration_to_seconds-seconds_to_duration (n * 1000000) ∙ ap pos (omega arith)

pub valid_delay : (n : ℕ) → n ≤ 2592000 → is_valid_delay (pos (n * 1000000)) ≡ true
valid_delay n h = ground arith

pub valid_retry : (n : ℕ) → 1 ≤ n → n ≤ 2592000 → is_valid_retry_interval (pos (n * 1000000)) ≡ true
valid_retry n one h = ground arith

pub trigger_policy_of-policy_text : (p : TriggerPolicy) → trigger_policy_of (policy_text p) ≡ some p
trigger_policy_of-policy_text TriggerPolicy.first = refl
trigger_policy_of-policy_text TriggerPolicy.last = refl
