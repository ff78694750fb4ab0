-- ===== src/Models/Execution.antt =====
-- `LastExecution.as_dict` and `LastExecution.from_dict` of models.py.
pub mod Roundtrip
use ha_runtime_auto_off.Prelude.{
  ℕ, String, ◌≡◌, refl, ap, Bool, true, false, Option, none, some, List, [], ◌∷◌, Dict, arith,
}
use ha_runtime_auto_off.Models.{LastExecution}
use ha_runtime_auto_off.Models.Values.{
  Value, null, bool, text, array, object, Items, nil, cons, Fields, end, field, get_field, strip,
  nonempty, optional_string, string_sequence, string_mapping, DatetimeText, parse_datetime,
}

-- `list(xs)` and `dict(d)` as values.
abbrev pub text_items : List String → Items
text_items [] = nil
text_items (x ∷ xs) = cons (text x) (text_items xs)

abbrev pub text_fields : Dict String → Fields
text_fields [] = end
text_fields ((k, v) ∷ d) = field k (text v) (text_fields d)

module _ (dt : DatetimeText) where
  unfoldable pub execution_as_dict : LastExecution → Fields
  execution_as_dict e = field "trigger_entity" (text e.trigger_entity) (
      field "occurred_at" (text (dt.isoformat e.occurred_at)) (
        field "successful_entities" (array (text_items e.successful_entities)) (
          field "skipped_entities" (object (text_fields e.skipped_entities))
            (field "failed_entities" (object (text_fields e.failed_entities)) end))))

  abbrev pub build_execution :
      Option String
      → Option ℕ
      → List String
      → Option (Dict String)
      → Option (Dict String)
      → Option LastExecution
  build_execution (some trigger) (some occurred) successes (some skipped) (some failed) =
      some (record {
        trigger_entity = trigger;
        occurred_at = occurred;
        successful_entities = successes;
        skipped_entities = skipped;
        failed_entities = failed;
      })
  build_execution _ _ _ _ _ = none

  unfoldable pub execution_from_dict : Fields → Option LastExecution
  unfolding get_field optional_string parse_datetime string_sequence string_mapping
  execution_from_dict fs =
      build_execution (optional_string (get_field "trigger_entity" fs))
        (parse_datetime dt (get_field "occurred_at" fs))
        (string_sequence (get_field "successful_entities" fs))
        (string_mapping (get_field "skipped_entities" fs))
        (string_mapping (get_field "failed_entities" fs))
