-- ===== src/Helpers.antt =====
-- custom_components/runtime_auto_off/helpers.py: the area of an entity, its own or its device's.
-- The walk to the parent devices takes fuel; Helpers/Area.antt shows that the fuel given suffices.
pub mod Unseen
pub mod Area
use ha_runtime_auto_off.Prelude.{
  ℕ, zero, suc, String, Option, none, some, List, [], ◌∷◌, length, contains, if◌then◌else◌,
}
use ha_runtime_auto_off.Hass.{RegistryEntry, Device, Hass, get_device}

-- `registry.async_get(parent_id) if parent_id is not None else None`
abbrev pub parent_device : List Device → Device → Option Device
parent_device ds d = elim d.parent_device_id [ none ↦ none | some id ↦ get_device id ds ]

-- The `while` loop. The outer `none` is fuel that ran out.
unfoldable pub walk : List Device → ℕ → Option Device → List String → Option (Option String)
unfolding contains get_device
walk ds zero device seen = none
walk ds (suc fuel) none seen = some none
walk ds (suc fuel) (some d) seen =
    let next = walk ds fuel (parent_device ds d) (d.id ∷ seen) in
    if contains d.id seen
    then some none
    else elim d.area_id [ some area ↦ some (some area) | none ↦ next ]

abbrev area_found : Option (Option String) → Option String
area_found none = none
area_found (some area) = area

unfoldable pub device_area : List Device → String → Option String
unfolding walk
device_area ds id = area_found (walk ds (suc (suc (length ds))) (get_device id ds) [])

unfoldable pub effective_area_id : Hass → RegistryEntry → Option String
unfolding device_area
effective_area_id hass entry = elim entry.area_id [
  | some area ↦ some area
  | none ↦ elim entry.device_id [ none ↦ none | some id ↦ device_area hass.devices id ]
]
