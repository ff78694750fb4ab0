-- ===== src/Helpers/Unseen.antt =====
-- The devices that the walk of `effective_area_id` has not seen, and those that it meets.
use ha_runtime_auto_off.Prelude.{
  ℕ, suc, ◌≤◌, ◌<◌, String, ◌≡◌, inl, inr, false, Option, none, some, List, [], ◌∷◌, arith, length,
  contains, str_eq_iff, Option-cases, if◌then◌else◌,
}
use ha_runtime_auto_off.Hass.{Device, get_device}
use ha_runtime_auto_off.Helpers.{parent_device}

-- How many devices of the registry the walk has not seen.
pub unseen : List String → List Device → ℕ
unseen seen [] = 0
unseen seen (d ∷ ds) = let rest = unseen seen ds in if contains d.id seen then rest else suc rest

pub unseen-le-length : (seen : List String) (ds : List Device) → unseen seen ds ≤ length ds
unfolding unseen
unseen-le-length seen [] = omega arith
unseen-le-length seen (d ∷ ds) = ground (arith, unseen-le-length seen ds)

pub unseen-cons-le :
    (i : String) (seen : List String) (ds : List Device) → unseen (i ∷ seen) ds ≤ unseen seen ds
unfolding unseen contains
unseen-cons-le i seen [] = omega arith
unseen-cons-le i seen (d ∷ ds) = ground (arith, unseen-cons-le i seen ds)

-- A device found in the registry is counted once it is entered in `seen`.
pub unseen-cons-lt :
    (i : String) (seen : List String) (ds : List Device) (d : Device)
    → get_device i ds ≡ some d
    → contains d.id seen ≡ false
    → unseen (d.id ∷ seen) ds < unseen seen ds
unfolding unseen contains get_device
unseen-cons-lt i seen [] d h n = ground arith
unseen-cons-lt i seen (e ∷ ds) d h n = ground (
  arith,
  unseen-cons-lt i seen ds d,
  unseen-cons-le d.id seen ds,
  str_eq_iff e.id i,
  str_eq_iff e.id d.id,
  str_eq_iff d.id e.id,
)

-- The device at hand, if there is one, is one of the registry.
abbrev pub IsFound : List Device → Option Device → Type 0
IsFound ds none = Unit
IsFound ds (some d) = (i : String) × (get_device i ds ≡ some d)

pub get_device-IsFound : (ds : List Device) (i : String) → IsFound ds (get_device i ds)
get_device-IsFound ds i = elim (Option-cases (get_device i ds)) [
  | inl e ↦ rw e tt
  | inr (d, e) ↦ rw e (i, e)
]

pub parent_device-IsFound : (ds : List Device) (d : Device) → IsFound ds (parent_device ds d)
parent_device-IsFound ds d = elim (Option-cases d.parent_device_id) [
  | inl e ↦ rw e tt
  | inr (i, e) ↦ rw e (get_device-IsFound ds i)
]
