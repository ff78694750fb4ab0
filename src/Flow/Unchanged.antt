-- ===== src/Flow/Unchanged.antt =====
-- The options of a rule whose entities are still there, and the entities that the flow of
-- config_flow.py then shows and takes back.
pub mod Fields
pub mod Saved
use ha_runtime_auto_off.Prelude.{
  ℕ, ◌*◌, ◌≤◌, String, ◌≡◌, refl, sym, ap, ◌∙◌, Bool, true, false, Option, none, some, List, [],
  ◌∷◌, ◌++◌, map, filter, contains, is_empty, str_eq, snoc-append, append_nil, subst, str_lt,
  str_eq_iff, Bool-cases, inl, inr, ◌||◌, arith,
}
use ha_runtime_auto_off.Models.{TriggerPolicy}
use ha_runtime_auto_off.Models.Values.{add_unique, nonempty}
use ha_runtime_auto_off.Models.Cycle.{IsClean}
use ha_runtime_auto_off.Flow.Duration.{pos}
use ha_runtime_auto_off.Flow.{
  resolve_entity_ids, nothing_resolved, canonical_reference, insert_text, sorted_set,
  turn_off_entities_in_area, is_candidate, is_kept, Working, unique, all_in, starts_with,
}
use ha_runtime_auto_off.Flow.Steps.{Home, display_entity_ids}

-- What the user chose, the times in whole seconds.
pub record Choice : Type 0 where
  pub name : String
  pub area : String
  pub entities : List String
  pub delay : ℕ
  pub retry : ℕ
  pub policy : TriggerPolicy
  pub sensor : Option String

-- The options that hold it.
abbrev pub options_of : Home → Choice → Working
options_of home c = record {
  name = some c.name;
  area_id = some c.area;
  entities = some (map (canonical_reference home.hass) c.entities);
  delay_seconds = some (pos (c.delay * 1000000));
  retry_interval_seconds = some (pos (c.retry * 1000000));
  trigger_policy = some c.policy;
  shabbat_entity = elim c.sensor [ none ↦ none | some e ↦ some (canonical_reference home.hass e) ];
}

-- Both the entity and the reference to it that is stored lead to the entity.
abbrev pub IsKnown : Home → String → Type 0
IsKnown home e =
    (home.resolve e ≡ some e)
    × (home.resolve (canonical_reference home.hass e) ≡ some e)
    × (nonempty e ≡ some e)

-- Known entities, without repetition, none of them among `seen`.
abbrev pub AreKnown : Home → List String → List String → Type 0
AreKnown home seen [] = Unit
AreKnown home seen (e ∷ es) =
    IsKnown home e × (contains e seen ≡ false) × AreKnown home (seen ++ e ∷ []) es

abbrev pub IsKnownSensor : Home → Option String → Type 0
IsKnownSensor home none = Unit
IsKnownSensor home (some e) =
    IsKnown home e
    × (str_eq (canonical_reference home.hass e) "" ≡ false)
    × (starts_with "binary_sensor." e ≡ true)

-- The choice is still possible in the home.
pub record IsPossible (home : Home) (c : Choice) : Type 0 where
  pub named : IsClean c.name
  pub placed : nonempty c.area ≡ some c.area
  pub known : AreKnown home [] c.entities
  pub some_entity : is_empty c.entities ≡ false
  pub allowed :
      all_in c.entities (turn_off_entities_in_area home.hass home.entries home.resolve c.area [])
      ≡ true
  pub delay_fits : c.delay ≤ 2592000
  pub retry_positive : 1 ≤ c.retry
  pub retry_fits : c.retry ≤ 2592000
  pub sensor : IsKnownSensor home c.sensor

add_unique_new :
    (seen : List String) (e : String) → contains e seen ≡ false → add_unique seen e ≡ seen ++ e ∷ []
unfolding add_unique
add_unique_new seen e new = rw new refl

module _ (home : Home) where
  display-cons :
      (seen xs : List String) (x e : String)
      → home.resolve x ≡ some e
      → nonempty e ≡ some e
      → contains e seen ≡ false
      → display_entity_ids home.resolve seen (x ∷ xs)
        ≡ display_entity_ids home.resolve (seen ++ e ∷ []) xs
  unfolding display_entity_ids
  display-cons seen xs x e leads given new = rw (leads, given, add_unique_new seen e new) refl

  -- The stored references are displayed as the entities.
  pub display-map :
      (seen es : List String)
      → AreKnown home seen es
      → display_entity_ids home.resolve seen (map (canonical_reference home.hass) es) ≡ seen ++ es
  unfolding display_entity_ids
  display-map seen [] h = sym (append_nil seen)
  display-map seen (e ∷ es) ((_, back, given), new, rest) =
      display-cons seen (map (canonical_reference home.hass) es) (canonical_reference home.hass e) e
        back given new
      ∙ display-map (seen ++ e ∷ []) es rest
      ∙ snoc-append seen es e

  pub unique-known : (seen es : List String) → AreKnown home seen es → unique seen es ≡ seen ++ es
  unfolding unique
  unique-known seen [] h = sym (append_nil seen)
  unique-known seen (e ∷ es) (_, new, rest) =
      rw (add_unique_new seen e new) (unique-known (seen ++ e ∷ []) es rest ∙ snoc-append seen es e)

  pub resolve-known :
      (seen es : List String)
      → AreKnown home seen es
      → resolve_entity_ids home.resolve es (record { resolved = seen; unresolved = false })
        ≡ record { resolved = seen ++ es; unresolved = false }
  unfolding resolve_entity_ids
  resolve-known seen [] h =
      ap (λ l. record { resolved = l; unresolved = false }) (sym (append_nil seen))
  resolve-known seen (e ∷ es) ((leads, _, _), new, rest) =
      rw (leads, add_unique_new seen e new)
        (resolve-known (seen ++ e ∷ []) es rest
          ∙ ap (λ l. record { resolved = l; unresolved = false }) (snoc-append seen es e))

or_same : (a b : Bool) → (a || b) ≡ (a || (a || b))
or_same true b = refl
or_same false b = refl

or_swap : (a b c : Bool) → (a || (b || c)) ≡ (b || (a || c))
or_swap true b c = ground arith
or_swap false b c = ground arith

contains-insert_text :
    (y e : String) (xs : List String)
    → contains y (insert_text e xs) ≡ (str_eq e y || contains y xs)
unfolding contains insert_text
contains-insert_text y e [] = refl
contains-insert_text y e (x ∷ xs) = elim (Bool-cases (str_eq x e)) [
  | inl same ↦ rw (same, sym ((str_eq_iff x e).0 same)) (or_same (str_eq x y) (contains y xs))
  | inr other ↦ elim (Bool-cases (str_lt e x)) [
    | inl less ↦ rw (other, less) refl
    | inr more ↦
        rw (other, more, contains-insert_text y e xs)
          (or_swap (str_eq x y) (str_eq e y) (contains y xs))
  ]
]

-- A set keeps what the list has.
sorted_set-append :
    (y : String) (xs ys : List String)
    → contains y (sorted_set xs) ≡ true
    → contains y (sorted_set (xs ++ ys)) ≡ true
unfolding sorted_set contains
sorted_set-append y [] ys h = ground arith
sorted_set-append y (x ∷ xs) ys h = ground (
  arith,
  contains-insert_text y x (sorted_set xs),
  contains-insert_text y x (sorted_set (xs ++ ys)),
  sorted_set-append y xs ys,
)

contains-busy : (x : String) (xs : List String) → contains x xs ≡ true → is_empty xs ≡ false
unfolding contains
contains-busy x [] k = ground arith
contains-busy x (y ∷ xs) k = refl

module _ (home : Home) (area : String) where
  -- An entity that is offered without a selection is offered with one.
  offered_still :
      (e : String) (selected : List String)
      → contains e (turn_off_entities_in_area home.hass home.entries home.resolve area []) ≡ true
      → contains e (turn_off_entities_in_area home.hass home.entries home.resolve area selected)
        ≡ true
  unfolding turn_off_entities_in_area resolve_entity_ids
  offered_still e selected h =
      let own =
        map (λ entry. entry.entity_id) (filter (is_candidate home.hass area) home.entries) in
      sorted_set-append e own
        (filter (is_kept home.hass)
          (resolve_entity_ids home.resolve selected nothing_resolved).resolved)
        (subst (λ l. contains e (sorted_set l) ≡ true) (append_nil own) h)

  -- All the entities stay in the selection of the form.
  pub filter-offered :
      (es selected : List String)
      → all_in es (turn_off_entities_in_area home.hass home.entries home.resolve area []) ≡ true
      → filter
          (λ e.
            contains e
              (turn_off_entities_in_area home.hass home.entries home.resolve area selected))
          es
        ≡ es
  filter-offered [] selected h = refl
  filter-offered (e ∷ es) selected h =
      rw (offered_still e selected (ground arith))
        (ap (λ l. e ∷ l) (filter-offered es selected (ground arith)))

  pub offered-busy :
      (es selected : List String)
      → all_in es (turn_off_entities_in_area home.hass home.entries home.resolve area []) ≡ true
      → is_empty es ≡ false
      → is_empty (turn_off_entities_in_area home.hass home.entries home.resolve area selected)
        ≡ false
  offered-busy [] selected h some_entity = ground arith
  offered-busy (e ∷ es) selected h some_entity =
      contains-busy e (turn_off_entities_in_area home.hass home.entries home.resolve area selected)
        (offered_still e selected (ground arith))
