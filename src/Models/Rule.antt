-- ===== src/Models/Rule.antt =====
-- `RuleConfig.from_mapping` and `RuleConfig.as_dict` of models.py. `float` of a text is a parameter,
-- as it belongs to Python; durations become whole microseconds, as in `timedelta`.
pub mod Roundtrip
use ha_runtime_auto_off.Prelude.{ℕ, String, Bool, Option, none, some, List, str_eq, if◌then◌else◌}
use ha_runtime_auto_off.Models.{RuleConfig, TriggerPolicy}
use ha_runtime_auto_off.Models.Values.{
  Number, pos, negsuc, Value, null, number, text, array, Fields, end, field, get_field,
  optional_string, string_sequence,
}
use ha_runtime_auto_off.Models.Execution.{text_items}

-- `float(x)` under its guards; `none` stands for `math.nan` in place of an error or a Boolean.
abbrev pub float_of : (String → Option Number) → Value → Option Number
float_of read (number n) = some n
float_of read (text s) = read s
float_of read _ = none

-- A value that is not finite gives way to the default.
abbrev pub finite_or : Number → Option Number → Number
finite_or default (some (pos n)) = pos n
finite_or default (some (negsuc n)) = negsuc n
finite_or default _ = default

-- `max(0.0, x)`
abbrev pub at_least_zero : Number → ℕ
at_least_zero (pos n) = n
at_least_zero _ = 0

-- `DEFAULT_DELAY_SECONDS`, an hour.
abbrev pub default_delay : Number
default_delay = pos 3600000000

-- `TriggerPolicy(x)`, or the first policy for anything that is not one.
abbrev pub policy_of : Value → TriggerPolicy
policy_of (text s) = if str_eq s "last" then TriggerPolicy.last else TriggerPolicy.first
policy_of _ = TriggerPolicy.first

abbrev pub policy_value : TriggerPolicy → Value
policy_value TriggerPolicy.first = text "first"
policy_value TriggerPolicy.last = text "last"

-- `x or default`
abbrev pub or_default : String → Option String → String
or_default default none = default
or_default default (some s) = s

-- A missing option and `None` lead to the same default here.
unfoldable pub from_mapping : (String → Option Number) → Fields → RuleConfig
from_mapping read options =
    let delay = finite_or default_delay (float_of read (get_field "delay_seconds" options)) in
    let retry = finite_or delay (float_of read (get_field "retry_interval_seconds" options)) in
    record {
      name = or_default "Runtime Auto-Off" (optional_string (get_field "name" options));
      area_id = optional_string (get_field "area_id" options);
      entities = string_sequence (get_field "entities" options);
      delay_seconds = at_least_zero delay;
      rule_id = or_default "" (optional_string (get_field "rule_id" options));
      retry_interval_seconds = at_least_zero retry;
      trigger_policy = policy_of (get_field "trigger_policy" options);
      shabbat_entity = optional_string (get_field "shabbat_entity" options);
    }

abbrev pub text_or_null : Option String → Value
text_or_null none = null
text_or_null (some s) = text s

abbrev pub shabbat_field : Option String → Fields
shabbat_field none = end
shabbat_field (some e) = field "shabbat_entity" (text e) end

unfoldable pub as_dict : RuleConfig → Fields
as_dict c = field "name" (text c.name) (
    field "area_id" (text_or_null c.area_id) (
      field "entities" (array (text_items c.entities)) (
        field "delay_seconds" (number (pos c.delay_seconds)) (
          field "retry_interval_seconds" (number (pos c.retry_interval_seconds)) (
            field "trigger_policy" (policy_value c.trigger_policy)
              (field "rule_id" (text c.rule_id) (shabbat_field c.shabbat_entity)))))))
