-- ===== src/Models/Execution/Roundtrip.antt =====
-- A stored execution is read back as it was.
use ha_runtime_auto_off.Prelude.{
  ℕ, String, ◌≡◌, refl, sym, ap, ◌∙◌, false, none, some, List, [], ◌∷◌, ◌++◌, Dict, get, put,
  contains, snoc-append, append_nil, arith,
}
use ha_runtime_auto_off.Models.{LastExecution}
use ha_runtime_auto_off.Models.Values.{
  array, object, get_field, is_blank, add_unique, collect_strings, string_sequence, take_chars,
  collect_mapping, string_mapping, DatetimeText, aware_time,
}
use ha_runtime_auto_off.Models.Cycle.{IsClean, ReadsBack}
use ha_runtime_auto_off.Models.Execution.{
  text_items, text_fields, execution_as_dict, execution_from_dict,
}

-- Clean texts without repetition, none of them among `seen`.
abbrev pub AreNew : List String → List String → Type 0
AreNew seen [] = Unit
AreNew seen (x ∷ xs) = IsClean x × (contains x seen ≡ false) × AreNew (seen ++ x ∷ []) xs

collect_strings-text_items :
    (seen xs : List String) → AreNew seen xs → collect_strings seen (text_items xs) ≡ seen ++ xs
unfolding collect_strings add_unique
collect_strings-text_items seen [] h = sym (append_nil seen)
collect_strings-text_items seen (x ∷ xs) (clean, new, rest) =
    ap (λ o. collect_strings (elim o [ none ↦ seen | some s ↦ add_unique seen s ]) (text_items xs))
      clean
    ∙ rw new (collect_strings-text_items (seen ++ x ∷ []) xs rest ∙ snoc-append seen xs x)

-- Named reasons that fit: no name is empty or repeated, and no reason is longer than 500.
abbrev pub AreShort : Dict String → Dict String → Type 0
AreShort seen [] = Unit
AreShort seen ((k, v) ∷ d) =
    (is_blank k ≡ false)
    × (take_chars 500 v ≡ v)
    × (get k seen ≡ none)
    × AreShort (seen ++ (k, v) ∷ []) d

put_new : (k v : String) (d : Dict String) → get k d ≡ none → put k v d ≡ d ++ (k, v) ∷ []
unfolding get put
put_new k v [] h = refl
put_new k v ((j, w) ∷ d) h = ground (arith, put_new k v d)

collect_mapping-text_fields :
    (seen d : Dict String)
    → AreShort seen d
    → collect_mapping seen (text_fields d) ≡ some (seen ++ d)
unfolding collect_mapping
collect_mapping-text_fields seen [] h = ap some (sym (append_nil seen))
collect_mapping-text_fields seen ((k, v) ∷ d) (named, short, new, rest) =
    rw (named, short, put_new k v seen new)
      (collect_mapping-text_fields (seen ++ (k, v) ∷ []) d rest
        ∙ ap some (snoc-append seen d (k, v)))

pub string_sequence-text_items :
    (xs : List String) → AreNew [] xs → string_sequence (array (text_items xs)) ≡ xs
unfolding string_sequence
string_sequence-text_items xs h = collect_strings-text_items [] xs h

string_mapping-text_fields :
    (d : Dict String) → AreShort [] d → string_mapping (object (text_fields d)) ≡ some d
unfolding string_mapping
string_mapping-text_fields d h = collect_mapping-text_fields [] d h

-- The texts of an execution are clean, and fit.
pub record IsTidy (e : LastExecution) : Type 0 where
  pub trigger : IsClean e.trigger_entity
  pub successful : AreNew [] e.successful_entities
  pub skipped : AreShort [] e.skipped_entities
  pub failed : AreShort [] e.failed_entities

-- An execution is read back from its dictionary as it was, in the same order, if its texts are
-- tidy and times are read back as they are written.
pub execution_from_dict-execution_as_dict :
    (dt : DatetimeText) (e : LastExecution)
    → ((t : ℕ) → ReadsBack dt t)
    → IsTidy e
    → execution_from_dict dt (execution_as_dict dt e) ≡ some e
unfolding execution_from_dict execution_as_dict get_field
execution_from_dict-execution_as_dict dt e reads tidy = cc (
  tidy.trigger,
  ap aware_time (reads e.occurred_at),
  string_sequence-text_items e.successful_entities tidy.successful,
  string_mapping-text_fields e.skipped_entities tidy.skipped,
  string_mapping-text_fields e.failed_entities tidy.failed,
)
