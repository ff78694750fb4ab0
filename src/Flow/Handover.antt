-- ===== src/Flow/Handover.antt =====
-- A rule from the form to the controller: what the flow of config_flow.py stores is what
-- `async_setup_entry` of `__init__.py` hands to the constructor.
use mathlib.Core.Option
use ha_runtime_auto_off.Prelude.{
  String, ◌≡◌, ◌≢◌, refl, sym, subst, ◌∙◌, ap, true, false, is_some, is_empty, contains, str_eq,
  str_eq_iff, ◌++◌, IsDistinct, Bool-cases, inl, inr, Option, none, some, List, [], ◌∷◌, map, All,
  arith,
}
use ha_runtime_auto_off.Hass.{Hass}
use ha_runtime_auto_off.Controller.{init}
use ha_runtime_auto_off.Models.{RuleConfig}
use ha_runtime_auto_off.Models.Values.{Number}
use ha_runtime_auto_off.Models.Cycle.{IsClean}
use ha_runtime_auto_off.Models.Execution.Roundtrip.{AreNew}
use ha_runtime_auto_off.Models.Rule.{from_mapping}
use ha_runtime_auto_off.Flow.{Working, canonical_reference}
use ha_runtime_auto_off.Flow.Walk.{IsComplete}
use ha_runtime_auto_off.Entry.{resolve_runtime_config}
use ha_runtime_auto_off.Flow.Stored.{
  entry_options, entry_data, entry_options-full, LeadsBack, SensorLeadsBack, rule_of, read_full,
}

contains-snoc :
    (y x : String) (xs : List String)
    → contains y xs ≡ false
    → y ≢ x
    → contains y (xs ++ x ∷ []) ≡ false
unfolding contains
contains-snoc y x [] h n = elim (Bool-cases (str_eq x y)) [
  | inl same ↦ absurd (n (sym ((str_eq_iff x y).0 same)))
  | inr other ↦ ground arith
]
contains-snoc y x (z ∷ zs) h n = ground (arith, contains-snoc y x zs (ground arith) n)

-- None of `xs` is among `seen`, nor is `x`.
apart_from :
    (x : String) (seen xs : List String)
    → All (λ y. contains y seen ≡ false) xs
    → All (λ y. y ≢ x) xs
    → All (λ y. contains y (seen ++ x ∷ []) ≡ false) xs
apart_from x seen [] h n = tt
apart_from x seen (y ∷ ys) (old, olds) (other, others) =
    (contains-snoc y x seen old other, apart_from x seen ys olds others)

IsDistinct-AreNew :
    (seen xs : List String)
    → All IsClean xs
    → IsDistinct xs
    → All (λ y. contains y seen ≡ false) xs
    → AreNew seen xs
IsDistinct-AreNew seen [] clean distinct old = tt
IsDistinct-AreNew seen (x ∷ xs) (clean, cleans) (others, distinct) (old, olds) = (
  clean,
  old,
  IsDistinct-AreNew (seen ++ x ∷ []) xs cleans distinct (apart_from x seen xs olds others),
)

none_seen : (xs : List String) → All (λ y. contains y [] ≡ false) xs
unfolding contains
none_seen [] = tt
none_seen (x ∷ xs) = (refl, none_seen xs)

init-some :
    (hass : Hass) (id : String) (config : RuleConfig)
    → is_empty config.entities ≡ false
    → is_some (init hass id config) ≡ true
unfolding init
init-some hass id config h = ground arith

canonical_sensor :
    (hass : Hass) (o : Option String)
    → (elim o [ none ↦ none | some e ↦ some (canonical_reference hass e) ])
      ≡ Option.map (canonical_reference hass) o
canonical_sensor hass none = refl
canonical_sensor hass (some e) = refl

module _ (title : String) (w : Working) (h : IsComplete title w) where
  abbrev pub entered_rule : String → RuleConfig
  entered_rule rule_id =
      rule_of rule_id title h.choice.in_room.area h.choice.on_list.chosen h.times.delay
        h.times.retry h.times.policy h.times.sensor

  -- The texts of the options are clean, and the reader of references leads from the canonical form
  -- of an entity back to it.
  pub record IsReadable (validate : String → Option String) : Type 0 where
    pub area : IsClean h.choice.in_room.area
    pub entities : All IsClean h.choice.on_list.chosen
    pub back :
        All
          (LeadsBack validate (canonical_reference h.choice.on_list.home.hass))
          h.choice.on_list.chosen
    pub sensor : SensorLeadsBack validate (canonical_reference h.times.home.hass) h.times.sensor

  -- Complete options, as the flow makes them, are read as the rule that the user entered: its
  -- name, its area, the entities chosen, the two times, the policy and the sensor; and the
  -- constructor of the controller takes this rule, which has an entity. The identifier, the area
  -- and the entities are clean texts, and the reader of references leads from the canonical form
  -- of an entity back to it.
  pub from_mapping-entry_options :
      (read : String → Option Number) (validate : String → Option String) (hass : Hass)
      (rule_id : String)
      → IsClean rule_id
      → IsReadable validate
      → (from_mapping read (resolve_runtime_config validate (entry_data rule_id) (entry_options w))
          ≡ entered_rule rule_id)
        × (is_some (init hass rule_id (entered_rule rule_id)) ≡ true)
  from_mapping-entry_options read validate hass rule_id hi ok =
      let c = h.choice.in_room in
      let l = h.choice.on_list in
      let t = h.times in
      let full =
        entry_options-full w title c.area (map (canonical_reference l.home.hass) l.chosen) t.delay
          t.retry t.policy (Option.map (canonical_reference t.home.hass) t.sensor)
          (c.named ∙ ap some h.titled) c.placed l.listed t.delayed t.retried t.decided
          (t.watched ∙ canonical_sensor t.home.hass t.sensor) in
      let new = IsDistinct-AreNew [] l.chosen ok.entities l.fine.distinct (none_seen l.chosen) in
      (
        ap (λ fs. from_mapping read (resolve_runtime_config validate (entry_data rule_id) fs)) full
            ∙ read_full read validate (canonical_reference l.home.hass)
                (canonical_reference t.home.hass) rule_id title c.area l.chosen t.delay t.retry
                t.policy hi (subst IsClean h.titled c.clean) ok.area new ok.back t.sensor ok.sensor,
        init-some hass rule_id (entered_rule rule_id) l.fine.some_entity,
      )
