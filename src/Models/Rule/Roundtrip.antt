-- ===== src/Models/Rule/Roundtrip.antt =====
-- A rule's configuration is read back as it was, and names no entity twice.
use ha_runtime_auto_off.Prelude.{
  String, ◌≡◌, ◌≢◌, refl, sym, ap, false, Option, none, some, List, [], ◌∷◌, All, IsDistinct,
  snoc-IsDistinct, contains, str_eq_iff, arith, Bool-cases, Option-cases, inl, inr,
}
use ha_runtime_auto_off.Models.{RuleConfig, TriggerPolicy}
use ha_runtime_auto_off.Models.Values.{
  Number, Value, null, bool, number, text, array, object, Items, nil, cons, Fields, get_field,
  strip, optional_string, add_unique, collect_strings, string_sequence,
}
use ha_runtime_auto_off.Models.Cycle.{IsClean}
use ha_runtime_auto_off.Models.Execution.Roundtrip.{AreNew, string_sequence-text_items}
use ha_runtime_auto_off.Models.Rule.{
  policy_of, policy_value, or_default, from_mapping, text_or_null, shabbat_field, as_dict,
}

not_contained : (e : String) (xs : List String) → contains e xs ≡ false → All (λ x. e ≢ x) xs
unfolding contains
not_contained e [] h = tt
not_contained e (x ∷ xs) h =
    (λ p. absurd (ground (arith, (str_eq_iff x e).1 (sym p))), not_contained e xs (ground arith))

pub add_unique-IsDistinct :
    (xs : List String) (e : String) → IsDistinct xs → IsDistinct (add_unique xs e)
unfolding add_unique
add_unique-IsDistinct xs e h = elim (Bool-cases (contains e xs)) [
  | inl old ↦ rw old h
  | inr new ↦ rw new (snoc-IsDistinct xs e h (not_contained e xs new))
]

collect_strings-IsDistinct :
    (seen : List String) (vs : Items) → IsDistinct seen → IsDistinct (collect_strings seen vs)
unfolding collect_strings
collect_strings-IsDistinct seen nil h = h
collect_strings-IsDistinct seen (cons v vs) h = elim (Option-cases (optional_string v)) [
  | inl no_text ↦ rw no_text (collect_strings-IsDistinct seen vs h)
  | inr (s, clean) ↦
      rw clean (collect_strings-IsDistinct (add_unique seen s) vs (add_unique-IsDistinct seen s h))
]

string_sequence-IsDistinct : (v : Value) → IsDistinct (string_sequence v)
unfolding string_sequence
string_sequence-IsDistinct (text s) = collect_strings-IsDistinct [] (cons (text s) nil) tt
string_sequence-IsDistinct (array vs) = collect_strings-IsDistinct [] vs tt
string_sequence-IsDistinct null = tt
string_sequence-IsDistinct (bool b) = tt
string_sequence-IsDistinct (number n) = tt
string_sequence-IsDistinct (object fs) = tt

-- Whatever the options hold, the rule that is read from them names no entity twice.
pub from_mapping-IsDistinct :
    (read : String → Option Number) (options : Fields)
    → IsDistinct (from_mapping read options).entities
unfolding from_mapping
from_mapping-IsDistinct read options = string_sequence-IsDistinct (get_field "entities" options)

abbrev IsCleanOption : Option String → Type 0
IsCleanOption none = Unit
IsCleanOption (some s) = IsClean s

-- The texts of a configuration are clean; only the rule's id may be empty.
pub record IsCleanRule (c : RuleConfig) : Type 0 where
  pub name : IsClean c.name
  pub area_id : IsCleanOption c.area_id
  pub entities : AreNew [] c.entities
  pub rule_id : or_default "" (optional_string (text c.rule_id)) ≡ c.rule_id
  pub shabbat_entity : IsCleanOption c.shabbat_entity

optional_text : (o : Option String) → IsCleanOption o → optional_string (text_or_null o) ≡ o
unfolding optional_string strip
optional_text none h = refl
optional_text (some s) h = unfold optional_string in h

shabbat_text :
    (o : Option String)
    → IsCleanOption o
    → optional_string (get_field "shabbat_entity" (shabbat_field o)) ≡ o
unfolding get_field optional_string strip
shabbat_text none h = refl
shabbat_text (some s) h = h

policy_of-policy_value : (p : TriggerPolicy) → policy_of (policy_value p) ≡ p
policy_of-policy_value TriggerPolicy.first = refl
policy_of-policy_value TriggerPolicy.last = refl

-- A configuration with clean texts is read back from its dictionary as it was.
pub from_mapping-as_dict :
    (read : String → Option Number) (c : RuleConfig)
    → IsCleanRule c
    → from_mapping read (as_dict c) ≡ c
unfolding from_mapping as_dict get_field
from_mapping-as_dict read c h = cc (
  ap (or_default "Runtime Auto-Off") h.name,
  optional_text c.area_id h.area_id,
  string_sequence-text_items c.entities h.entities,
  h.rule_id,
  policy_of-policy_value c.trigger_policy,
  shabbat_text c.shabbat_entity h.shabbat_entity,
)
