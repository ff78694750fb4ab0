-- ===== src/Flow/Chosen.antt =====
-- Which entities `_accept_entities` lets through.
use mathlib.Core.List.{Memᴰ}
use ha_runtime_auto_off.Prelude.{
  String, ◌≡◌, ◌⊎◌, refl, sym, true, false, Option, none, some, List, [], ◌∷◌, ◌++◌, map, filter,
  mem-filter, All, IsDistinct, contains, is_empty, str_eq, str_eq_iff, arith, Bool-cases, inl, inr,
}
use ha_runtime_auto_off.Hass.{RegistryEntry, Hass}
use ha_runtime_auto_off.Models.Rule.Roundtrip.{add_unique-IsDistinct}
use ha_runtime_auto_off.Flow.{
  Resolved, resolve_one, resolve_entity_ids, nothing_resolved, canonical_reference, is_candidate,
  insert_text, sorted_set, turn_off_entities_in_area, Working, unique, all_in, accept_entities,
}

resolve_one-IsDistinct :
    (e : Option String) (r : Resolved)
    → IsDistinct r.resolved
    → IsDistinct (resolve_one e r).resolved
resolve_one-IsDistinct none r h = h
resolve_one-IsDistinct (some e) r h = add_unique-IsDistinct r.resolved e h

resolve_entity_ids-IsDistinct :
    (resolve : String → Option String) (xs : List String) (r : Resolved)
    → IsDistinct r.resolved
    → IsDistinct (resolve_entity_ids resolve xs r).resolved
unfolding resolve_entity_ids
resolve_entity_ids-IsDistinct resolve [] r h = h
resolve_entity_ids-IsDistinct resolve (x ∷ xs) r h =
    resolve_entity_ids-IsDistinct resolve xs (resolve_one (resolve x) r)
      (resolve_one-IsDistinct (resolve x) r h)

contains-insert_text :
    (y e : String) (xs : List String)
    → contains y (insert_text e xs) ≡ true
    → (e ≡ y) ⊎ (contains y xs ≡ true)
unfolding contains insert_text
contains-insert_text y e [] h = inl (ground (arith, str_eq_iff e y))
contains-insert_text y e (x ∷ xs) h = elim (Bool-cases (str_eq e y)) [
  | inl here ↦ inl ((str_eq_iff e y).0 here)
  | inr other ↦ inr (elim (Bool-cases (contains y (insert_text e xs))) [
    | inl later ↦ elim (contains-insert_text y e xs later) [
      | inl here ↦ absurd (ground (arith, (str_eq_iff e y).1 here))
      | inr old ↦ ground arith
    ]
    | inr gone ↦ ground arith
  ])
]

contains-sorted_set :
    (y : String) (xs : List String) → contains y (sorted_set xs) ≡ true → Memᴰ y xs
unfolding sorted_set contains
contains-sorted_set y [] h = absurd (ground arith)
contains-sorted_set y (x ∷ xs) h = elim (contains-insert_text y x (sorted_set xs) h) [
  | inl here ↦ Memᴰ.head (sym here)
  | inr later ↦ Memᴰ.tail (contains-sorted_set y xs later)
]

mem_append_nil : (y : String) (xs : List String) → Memᴰ y (xs ++ []) → Memᴰ y xs
mem_append_nil y [] m = m
mem_append_nil y (x ∷ xs) (Memᴰ.head same) = Memᴰ.head same
mem_append_nil y (x ∷ xs) (Memᴰ.tail m) = Memᴰ.tail (mem_append_nil y xs m)

mem-map :
    (f : RegistryEntry → String) (y : String) (xs : List RegistryEntry)
    → Memᴰ y (map f xs)
    → (x : RegistryEntry) × Memᴰ x xs × (f x ≡ y)
mem-map f y [] m = elim m [ ]
mem-map f y (x ∷ xs) (Memᴰ.head same) = (x, Memᴰ.head refl, sym same)
mem-map f y (x ∷ xs) (Memᴰ.tail m) =
    let (x', m', same) = mem-map f y xs m in (x', Memᴰ.tail m', same)

module _ (hass : Hass) (entries : List RegistryEntry) (resolve : String → Option String)
    (area : String) where
  -- `e` is the entity of an entry that the area offers.
  abbrev pub IsOffered : String → Type 0
  IsOffered e =
      (entry : RegistryEntry) × Memᴰ entry entries
      × (entry.entity_id ≡ e)
      × (is_candidate hass area entry ≡ true)

  contains-IsOffered :
      (e : String)
      → contains e (turn_off_entities_in_area hass entries resolve area []) ≡ true
      → IsOffered e
  unfolding turn_off_entities_in_area resolve_entity_ids
  contains-IsOffered e h =
      let (entry, m, same) =
        mem-map (λ entry. entry.entity_id) e (filter (is_candidate hass area) entries)
          (mem_append_nil e
            (map (λ entry. entry.entity_id) (filter (is_candidate hass area) entries))
            (contains-sorted_set e
              (map (λ entry. entry.entity_id) (filter (is_candidate hass area) entries) ++ [])
              h)) in
      let (passed, member) = mem-filter (is_candidate hass area) entry entries m in
      (entry, member, same, passed)

  all_in-IsOffered :
      (es : List String)
      → all_in es (turn_off_entities_in_area hass entries resolve area []) ≡ true
      → All IsOffered es
  all_in-IsOffered [] h = tt
  all_in-IsOffered (e ∷ es) h =
      (contains-IsOffered e (ground arith), all_in-IsOffered es (ground arith))

  -- The new list of entities, each of which the area offers.
  pub record IsChosen (es : List String) : Type 0 where
    pub distinct : IsDistinct es
    pub some_entity : is_empty es ≡ false
    pub offered : All IsOffered es

  -- The entities of a rule are replaced by distinct ones that the area offers, at least one, and
  -- stored by their canonical references; or else an error is reported and nothing changes.
  pub accept_entities-IsChosen :
      (references : List String) (w : Working)
      → ((es : List String) × (accept_entities hass entries resolve area references w ≡ record {
        working = record w { entities = some (map (canonical_reference hass) es) };
        errors = [];
      })
          × IsChosen es)
        ⊎ (is_empty (accept_entities hass entries resolve area references w).errors ≡ false)
          × ((accept_entities hass entries resolve area references w).working ≡ w)
  unfolding accept_entities
  accept_entities-IsChosen references w =
      let r = resolve_entity_ids resolve (unique [] references) nothing_resolved in
      let allowed = turn_off_entities_in_area hass entries resolve area [] in
      elim (Bool-cases r.unresolved) [
        | inl missing ↦ inr (rw missing (refl, refl))
        | inr found ↦ elim (Bool-cases (is_empty r.resolved)) [
          | inl nobody ↦ inr (rw (found, nobody) (refl, refl))
          | inr busy ↦ elim (Bool-cases (all_in r.resolved allowed)) [
            | inr stranger ↦ inr (rw (found, busy, stranger) (refl, refl))
            | inl fine ↦ inl (
              r.resolved,
              rw (found, busy, fine) refl,
              record {
                distinct =
                    resolve_entity_ids-IsDistinct resolve (unique [] references) nothing_resolved
                      tt;
                some_entity = busy;
                offered = all_in-IsOffered r.resolved fine;
              },
            )
          ]
        ]
      ]
