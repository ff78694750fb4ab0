-- ===== src/Flow/Stored.antt =====
-- The options of an entry, as the flow of config_flow.py stores them, and how `__init__.py` and
-- models.py read them. The order of a dictionary does not matter to them.
use mathlib.Core.Option
use ha_runtime_auto_off.Prelude.{
  ℕ, String, ◌≡◌, refl, ◌∙◌, ap, Option, none, some, List, [], ◌∷◌, map, All, arith,
}
use ha_runtime_auto_off.Models.{RuleConfig, TriggerPolicy}
use ha_runtime_auto_off.Models.Values.{
  Number, pos, negsuc, Value, number, text, array, Fields, end, field, get_field, optional_string,
  string_sequence,
}
use ha_runtime_auto_off.Models.Cycle.{IsClean}
use ha_runtime_auto_off.Models.Execution.Roundtrip.{AreNew, string_sequence-text_items}
use ha_runtime_auto_off.Models.Execution.{text_items}
use ha_runtime_auto_off.Models.Rule.{
  float_of, finite_or, at_least_zero, policy_of, policy_value, or_default, from_mapping,
}
use ha_runtime_auto_off.Flow.Duration.{ℤ, pos as whole, negsuc as negative}
use ha_runtime_auto_off.Flow.{Working}
use ha_runtime_auto_off.Entry.{
  put_field, merge, resolve_reference, resolve_items, resolve_value, resolve_fields,
  resolve_runtime_config,
}

-- An option that may be missing.
abbrev pub option_field : String → Option Value → Fields → Fields
option_field key none fs = fs
option_field key (some v) fs = field key v fs

abbrev pub number_of : ℤ → Number
number_of (whole n) = pos n
number_of (negative n) = negsuc n

-- `_working` as the options of the entry.
unfoldable pub entry_options : Working → Fields
entry_options w = option_field "name" (Option.map text w.name) (
    option_field "area_id" (Option.map text w.area_id) (
      option_field "entities" (Option.map (λ es. array (text_items es)) w.entities) (
        option_field "delay_seconds" (Option.map (λ z. number (number_of z)) w.delay_seconds) (
          option_field "retry_interval_seconds"
            (Option.map (λ z. number (number_of z)) w.retry_interval_seconds)
            (option_field "trigger_policy" (Option.map policy_value w.trigger_policy)
              (option_field "shabbat_entity" (Option.map text w.shabbat_entity) end))))))

-- The data of the entry: `{CONF_RULE_ID: rule_id}`.
abbrev pub entry_data : String → Fields
entry_data rule_id = field "rule_id" (text rule_id) end

abbrev pub full_options :
    (name area : String) → List String → ℤ → ℤ → TriggerPolicy → Option String → Fields
full_options name area entities d r p sensor = field "name" (text name) (
    field "area_id" (text area) (
      field "entities" (array (text_items entities)) (
        field "delay_seconds" (number (number_of d)) (
          field "retry_interval_seconds" (number (number_of r)) (
            field "trigger_policy" (policy_value p)
              (option_field "shabbat_entity" (Option.map text sensor) end))))))

pub entry_options-full :
    (w : Working) (name area : String) (entities : List String) (d r : ℤ) (p : TriggerPolicy)
    (sensor : Option String)
    → w.name ≡ some name
    → w.area_id ≡ some area
    → w.entities ≡ some entities
    → w.delay_seconds ≡ some d
    → w.retry_interval_seconds ≡ some r
    → w.trigger_policy ≡ some p
    → w.shabbat_entity ≡ sensor
    → entry_options w ≡ full_options name area entities d r p sensor
unfolding entry_options
entry_options-full w name area entities d r p sensor hn ha he hd hr hp hs = ground arith

-- `at_least_zero` of a time of the flow.
abbrev pub microseconds : ℤ → ℕ
microseconds (whole n) = n
microseconds (negative n) = 0

-- The reader of references leads from the stored ones back to the entities.
abbrev pub LeadsBack : (String → Option String) → (String → String) → String → Type 0
LeadsBack validate canonical e = validate (canonical e) ≡ some e

abbrev pub SensorLeadsBack : (String → Option String) → (String → String) → Option String → Type 0
SensorLeadsBack validate canonical none = Unit
SensorLeadsBack validate canonical (some e) = LeadsBack validate canonical e × IsClean e

module _ (validate : String → Option String) (canonical : String → String) where
  resolve_reference-canonical :
      (e : String) → LeadsBack validate canonical e → resolve_reference validate (canonical e) ≡ e
  resolve_reference-canonical e h = ground (arith, h)

  resolve_items-text_items :
      (es : List String)
      → All (LeadsBack validate canonical) es
      → resolve_items validate (text_items (map canonical es)) ≡ text_items es
  unfolding resolve_items
  resolve_items-text_items [] h = refl
  resolve_items-text_items (e ∷ es) (here, later) =
      cc (resolve_reference-canonical e here, resolve_items-text_items es later)

  resolved_text :
      (e : String)
      → LeadsBack validate canonical e
      → IsClean e
      → optional_string (text (resolve_reference validate (canonical e))) ≡ some e
  resolved_text e back clean =
      ap (λ s. optional_string (text s)) (resolve_reference-canonical e back) ∙ clean

  resolved_sequence :
      (es : List String)
      → All (LeadsBack validate canonical) es
      → AreNew [] es
      → string_sequence (array (resolve_items validate (text_items (map canonical es)))) ≡ es
  resolved_sequence es back new =
      ap (λ vs. string_sequence (array vs)) (resolve_items-text_items es back)
      ∙ string_sequence-text_items es new

policy_of-resolve_value :
    (validate : String → Option String) (p : TriggerPolicy)
    → policy_of (resolve_value validate "trigger_policy" (policy_value p)) ≡ p
policy_of-resolve_value validate TriggerPolicy.first = refl
policy_of-resolve_value validate TriggerPolicy.last = refl

finite_time :
    (default : Number) (read : String → Option Number) (z : ℤ)
    → at_least_zero (finite_or default (float_of read (number (number_of z)))) ≡ microseconds z
finite_time default read (whole n) = refl
finite_time default read (negative n) = refl

abbrev pub rule_of :
    (rule_id name area : String) → List String → ℤ → ℤ → TriggerPolicy → Option String → RuleConfig
rule_of rule_id name area es d r p sensor = record {
  name = name;
  area_id = some area;
  entities = es;
  delay_seconds = microseconds d;
  rule_id = rule_id;
  retry_interval_seconds = microseconds r;
  trigger_policy = p;
  shabbat_entity = sensor;
}

module _ (read : String → Option Number) (validate : String → Option String)
    (canonical canonical' : String → String) (rule_id name area : String) (es : List String)
    (d r : ℤ) (p : TriggerPolicy) (hi : IsClean rule_id) (hn : IsClean name) (ha : IsClean area)
    (he : AreNew [] es) (back : All (LeadsBack validate canonical) es) where
  pub read_full :
      (sensor : Option String)
      → SensorLeadsBack validate canonical' sensor
      → from_mapping read (
          resolve_runtime_config validate
            (entry_data rule_id)
            (full_options name area (map canonical es) d r p (Option.map canonical' sensor)))
        ≡ rule_of rule_id name area es d r p sensor
  unfolding from_mapping get_field resolve_fields merge put_field optional_string string_sequence
  read_full none hs = cc (
    ap (or_default "Runtime Auto-Off") hn,
    ha,
    resolved_sequence validate canonical es back he,
    ap (or_default "") hi,
    finite_time (pos 3600000000) read d,
    finite_time (finite_or (pos 3600000000) (some (number_of d))) read r,
    policy_of-resolve_value validate p,
  )
  read_full (some e) hs = cc (
    ap (or_default "Runtime Auto-Off") hn,
    ha,
    resolved_sequence validate canonical es back he,
    ap (or_default "") hi,
    finite_time (pos 3600000000) read d,
    finite_time (finite_or (pos 3600000000) (some (number_of d))) read r,
    policy_of-resolve_value validate p,
    resolved_text validate canonical' e hs.0 hs.1,
  )
