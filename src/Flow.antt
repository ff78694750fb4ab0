-- ===== src/Flow.antt =====
-- custom_components/runtime_auto_off/config_flow.py: the entities that its forms offer, and what
-- they accept. The forms themselves, and `async_resolve_entity_id` of the entity registry, belong
-- to Home Assistant; the latter is the argument `resolve`, and `entries` are the registry's entries.
pub mod Duration
pub mod Chosen
pub mod Limits
pub mod Steps
pub mod Walk
pub mod Created
pub mod Stored
pub mod Handover
pub mod Unchanged
use ha_runtime_auto_off.Prelude.{
  ℕ, String, Bool, true, false, not, ◌&&◌, ◌||◌, Option, none, some, List, [], ◌∷◌, ◌++◌, map,
  contains, leb, ltb, is_none, is_some, is_empty, str_eq, str_lt, str_le, opt_str_eq, if◌then◌else◌,
  Dict, filter,
}
use ha_runtime_auto_off.Hass.{RegistryEntry, Hass}
use ha_runtime_auto_off.Helpers.{effective_area_id}
use ha_runtime_auto_off.Models.{TriggerPolicy}
use ha_runtime_auto_off.Models.Values.{strip, add_unique}
use ha_runtime_auto_off.Controller.Errors.{is_rule_control}
use ha_runtime_auto_off.Flow.Duration.{ℤ, pos, negsuc}

pub record Resolved : Type 0 where
  pub resolved : List String
  pub unresolved : Bool

abbrev pub resolve_one : Option String → Resolved → Resolved
resolve_one none r = record r { unresolved = true }
resolve_one (some e) r = record r { resolved = add_unique r.resolved e }

-- `_resolve_entity_ids`, from what is resolved so far.
unfoldable pub resolve_entity_ids : (String → Option String) → List String → Resolved → Resolved
resolve_entity_ids resolve [] r = r
resolve_entity_ids resolve (x ∷ xs) r = resolve_entity_ids resolve xs (resolve_one (resolve x) r)

abbrev pub nothing_resolved : Resolved
nothing_resolved = record { resolved = []; unresolved = false }

-- `_canonical_reference`
abbrev pub canonical_reference : Hass → String → String
canonical_reference hass e = elim (hass.registry e) [ none ↦ e | some entry ↦ entry.id ]

-- The conditions of the comprehension in `_turn_off_entities_in_area`.
unfoldable pub is_candidate : Hass → String → RegistryEntry → Bool
is_candidate hass area entry =
    not entry.disabled
    && not (is_rule_control entry.platform)
    && opt_str_eq (effective_area_id hass entry) (some area)
    && hass.has_service (hass.domain entry.entity_id) "turn_off"

-- An entity that was selected before stays, unless it controls a rule.
abbrev pub is_kept : Hass → String → Bool
is_kept hass e = elim (hass.registry e) [
  | none ↦ true
  | some entry ↦ not (is_rule_control entry.platform)
]

-- A set in the order of `sorted`.
unfoldable pub insert_text : String → List String → List String
insert_text e [] = e ∷ []
insert_text e (x ∷ xs) =
    let rest = insert_text e xs in
    if str_eq x e then x ∷ xs else if str_lt e x then e ∷ x ∷ xs else x ∷ rest

unfoldable pub sorted_set : List String → List String
sorted_set [] = []
sorted_set (x ∷ xs) = insert_text x (sorted_set xs)

-- `_turn_off_entities_in_area`
unfoldable pub turn_off_entities_in_area :
    Hass → List RegistryEntry → (String → Option String) → String → List String → List String
turn_off_entities_in_area hass entries resolve area selected = sorted_set (
    map (λ entry. entry.entity_id) (filter (is_candidate hass area) entries)
    ++ filter (is_kept hass) (resolve_entity_ids resolve selected nothing_resolved).resolved)

-- `_working`, with `none` for a missing key.
pub record Working : Type 0 where
  pub name : Option String
  pub area_id : Option String
  pub entities : Option (List String)
  pub delay_seconds : Option ℤ
  pub retry_interval_seconds : Option ℤ
  pub trigger_policy : Option TriggerPolicy
  pub shabbat_entity : Option String

-- What an `_accept` method leaves, and the errors that it returns.
pub record Accepted : Type 0 where
  pub working : Working
  pub errors : Dict String

abbrev pub refused : Working → String → String → Accepted
refused w field error = record { working = w; errors = (field, error) ∷ [] }

abbrev pub area_changed : Option String → String → Bool
area_changed none area = false
area_changed (some old) area = not (str_eq old area)

-- `_accept_room`
unfoldable pub accept_room : (name area : String) → Working → Accepted
unfolding strip
accept_room name area w =
    let w' = record w { name = some (strip name); area_id = some area } in
    if str_eq (strip name) ""
    then refused w "name" "name_required"
    else if area_changed w.area_id area
    then record { working = record w' { entities = none }; errors = [] }
    else record { working = w'; errors = [] }

-- `list(dict.fromkeys(xs))`
unfoldable pub unique : List String → List String → List String
unique seen [] = seen
unique seen (x ∷ xs) = unique (add_unique seen x) xs

-- `set(xs) <= allowed`
abbrev pub all_in : List String → List String → Bool
all_in [] allowed = true
all_in (x ∷ xs) allowed = contains x allowed && all_in xs allowed

-- `_accept_entities`, in the area of `_working`.
unfoldable pub accept_entities :
    Hass → List RegistryEntry → (String → Option String) → String → List String → Working → Accepted
accept_entities hass entries resolve area references w =
    let r = resolve_entity_ids resolve (unique [] references) nothing_resolved in
    let allowed = turn_off_entities_in_area hass entries resolve area [] in
    if r.unresolved
    then refused w "entities" "entity_not_found"
    else if is_empty r.resolved
    then refused w "entities" "entities_required"
    else if not (all_in r.resolved allowed)
    then refused w "entities" "entity_not_allowed"
    else record {
      working = record w { entities = some (map (canonical_reference hass) r.resolved) };
      errors = [];
    }

-- `MAX_DELAY_SECONDS`, thirty days.
abbrev pub max_delay : ℕ
max_delay = 2592000000000

abbrev pub is_valid_delay : ℤ → Bool
is_valid_delay (pos n) = leb n max_delay
is_valid_delay (negsuc n) = false

abbrev pub is_valid_retry_interval : ℤ → Bool
is_valid_retry_interval (pos n) = ltb 0 n && leb n max_delay
is_valid_retry_interval (negsuc n) = false

-- `TriggerPolicy(x)` of a text, with `none` for its `ValueError`.
abbrev pub trigger_policy_of : String → Option TriggerPolicy
trigger_policy_of s =
    if str_eq s "first"
    then some TriggerPolicy.first
    else if str_eq s "last"
    then some TriggerPolicy.last
    else none

-- `s.startswith(prefix)`
unfoldable pub starts_with : String → String → Bool
starts_with String.[] s = true
starts_with (String.◌∷◌ c p) String.[] = false
starts_with (String.◌∷◌ c p) (String.◌∷◌ d s) =
    str_eq (String.◌∷◌ c String.[]) (String.◌∷◌ d String.[]) && starts_with p s

-- The reference to the Shabbat sensor: absent or empty, resolved, or an error.
abbrev pub resolve_shabbat : (String → Option String) → Option String → Option (Option String)
resolve_shabbat resolve none = some none
resolve_shabbat resolve (some reference) =
    if str_eq reference "" then some none else elim (resolve reference) [
      | none ↦ none
      | some e ↦ if starts_with "binary_sensor." e then some (some e) else none
    ]

abbrev pub set_delay : Hass → ℤ → ℤ → TriggerPolicy → Option String → Working → Working
set_delay hass delay retry policy shabbat w = record w {
  delay_seconds = some delay;
  retry_interval_seconds = some retry;
  trigger_policy = some policy;
  shabbat_entity = elim shabbat [ none ↦ none | some e ↦ some (canonical_reference hass e) ];
}

-- `_accept_delay`, on the seconds of the two durations.
unfoldable pub accept_delay :
    Hass → (String → Option String) → ℤ → ℤ → String → Option String → Working → Accepted
accept_delay hass resolve delay retry policy shabbat w =
    if not (is_valid_delay delay)
    then refused w "delay" "invalid_delay"
    else if not (is_valid_retry_interval retry)
    then refused w "retry_interval" "invalid_retry_interval"
    else elim (trigger_policy_of policy) [
      | none ↦ refused w "trigger_policy" "invalid_trigger_policy"
      | some p ↦ elim (resolve_shabbat resolve shabbat) [
        | none ↦ refused w "shabbat_entity" "entity_not_found"
        | some e ↦ record { working = set_delay hass delay retry p e w; errors = [] }
      ]
    ]
