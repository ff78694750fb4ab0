-- ===== src/Sensors/Attributes.antt =====
-- entity.py, device.py, and the attributes of binary_sensor.py: the identity of the entities of a
-- rule, and what they show beside their values. `str` of a rule's id, which is a text, is left out.
use Prim.Native.String.{◌++◌ as concat}
use ha_runtime_auto_off.Prelude.{ℕ, String, List, [], ◌∷◌, Dict, filter, contains}
use ha_runtime_auto_off.Models.{RuleConfig}
use ha_runtime_auto_off.Models.Values.{
  pos, number, text, array, object, Fields, end, field, DatetimeText,
}
use ha_runtime_auto_off.Models.Rule.{policy_value, text_or_null}
use ha_runtime_auto_off.Models.Execution.{text_items}
use ha_runtime_auto_off.Controller.{Controller}
use ha_runtime_auto_off.Flow.{sorted_set}
use ha_runtime_auto_off.Entry.{put_field}
use ha_runtime_auto_off.Sensors.{active_since}

-- `DeviceInfo`
pub record DeviceInfo : Type 0 where
  pub domain : String
  pub identifier : String
  pub configuration_url : String
  pub manufacturer : String
  pub model : String
  pub device_name : String

unfoldable pub rule_device_info : (entry_id rule_id name : String) → DeviceInfo
rule_device_info entry_id rule_id name = record {
  domain = "runtime_auto_off";
  identifier = rule_id;
  configuration_url =
      concat "homeassistant://config/integrations/integration/runtime_auto_off#config_entry="
        entry_id;
  manufacturer = "SmplWise (SW)";
  model = "Runtime shutdown rule";
  device_name = name;
}

-- The fields that `RuntimeAutoOffEntity.__init__` sets, beside the controller.
pub record RuleEntity : Type 0 where
  pub unique_id : String
  pub translation_key : String
  pub device_info : DeviceInfo

unfoldable pub rule_entity : (entry_id rule_id name key translation_key : String) → RuleEntity
unfolding rule_device_info
rule_entity entry_id rule_id name key translation_key = record {
  unique_id = concat rule_id (concat "_" key);
  translation_key = translation_key;
  device_info = rule_device_info entry_id rule_id name;
}

-- The keys of the entities that the platforms add; each is its own translation key.
abbrev pub sensor_keys : List String
sensor_keys =
    "status" ∷ "trigger_entity" ∷ "trigger_active_since" ∷ "next_shutdown" ∷ "next_shutdown_kind"
    ∷ "last_shutdown" ∷ "configured_runtime" ∷ "retry_interval" ∷ []

abbrev pub binary_sensor_keys : List String
binary_sensor_keys = "any_active" ∷ []

abbrev pub switch_keys : List String
switch_keys = "enabled" ∷ []

abbrev pub event_keys : List String
event_keys = "activity" ∷ []

-- The attributes that all entities of a rule have.
unfoldable pub extra_state_attributes : RuleConfig → Fields
extra_state_attributes c = field "area_id" (text_or_null c.area_id) (
    field "name" (text c.name) (
      field "delay_seconds" (number (pos c.delay_seconds)) (
        field "retry_interval_seconds" (number (pos c.retry_interval_seconds))
          (field "trigger_policy" (policy_value c.trigger_policy) end))))

-- `set(d)`, as a list that may repeat.
unfoldable pub keys {ℓ} : {V : Type ℓ} → Dict V → List String
keys [] = []
keys ((k, v) ∷ d) = k ∷ keys d

-- `sorted(set(a) & set(b))`
unfoldable pub sorted_common : List String → List String → List String
unfolding sorted_set contains
sorted_common a b = sorted_set (filter (λ k. contains k b) a)

unfoldable pub assumed_active : Controller → List String
unfolding active_since keys sorted_common
assumed_active c = sorted_common (keys (active_since c)) (keys c.unavailable_entities)

module _ (dt : DatetimeText) where
  abbrev pub time_fields : Dict ℕ → Fields
  time_fields [] = end
  time_fields ((e, t) ∷ d) = field e (text (dt.isoformat t)) (time_fields d)

  -- Those of the binary sensor.
  unfoldable pub active_attributes : Controller → Fields
  unfolding extra_state_attributes put_field active_since assumed_active
  active_attributes c =
      put_field "assumed_active_while_unavailable" (array (text_items (assumed_active c))) (
        put_field "active_since" (object (time_fields (active_since c)))
          (extra_state_attributes c.config))
