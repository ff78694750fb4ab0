-- ===== src/Helpers/Area.antt =====
-- The walk of `effective_area_id`: it ends, also on devices that are their own ancestors.
use ha_runtime_auto_off.Prelude.{
  ℕ, zero, suc, ◌<◌, String, ◌≡◌, refl, ◌↔◌, inl, inr, true, false, Option, none, some, List, [],
  ◌∷◌, arith, length, contains, str_eq, str_eq_iff, subst, Bool-cases, Option-cases,
}
use ha_runtime_auto_off.Hass.{Device, get_device}
use ha_runtime_auto_off.Helpers.{parent_device, walk, device_area}
use ha_runtime_auto_off.Helpers.Unseen.{
  unseen, unseen-le-length, unseen-cons-lt, IsFound, get_device-IsFound, parent_device-IsFound,
}

-- With more fuel than unseen devices the walk does not run out of it.
walk_total :
    (ds : List Device) (fuel : ℕ) (o : Option Device) (seen : List String)
    → IsFound ds o
    → unseen seen ds < fuel
    → (r : Option String) × (walk ds (suc fuel) o seen ≡ some r)
unfolding walk
walk_total ds fuel none seen found h = (none, refl)
walk_total ds zero (some d) seen found h = absurd (omega arith)
walk_total ds (suc fuel) (some d) seen (i, e) h = elim (Bool-cases (contains d.id seen)) [
  | inl cycle ↦ (none, ground arith)
  | inr fresh ↦
      let (r, ends) =
        walk_total ds fuel (parent_device ds d) (d.id ∷ seen) (parent_device-IsFound ds d)
          (omega (arith, unseen-cons-lt i seen ds d e fresh)) in
      elim (Option-cases d.area_id) [
        | inl e ↦ (r, ground (arith, ends))
        | inr (a, e) ↦ (some a, ground arith)
      ]
]

-- The loop over the parents of a device ends, whatever the registry holds and also if the devices are
-- their own ancestors: it goes round at most once for each device, and once more to leave.
pub walk_ends :
    (ds : List Device) (id : String)
    → (r : Option String) × (walk ds (suc (suc (length ds))) (get_device id ds) [] ≡ some r)
unfolding contains
walk_ends ds id =
    let few = unseen-le-length [] ds in
    walk_total ds (suc (length ds)) (get_device id ds) [] (get_device-IsFound ds id)
      (omega (arith, few))

-- The area `a` is that of the device or, while the devices have none, of the nearest parent; the
-- number counts the steps to it.
pub data Inherits (ds : List Device) : ℕ → Device → String → Type 0 where
  own : {d : Device} {a : String} (n : ℕ) → n ≡ 0 → d.area_id ≡ some a → Inherits ds n d a
  parent :
      {d : Device} {a : String} (n m : ℕ) (p : Device)
      → n ≡ suc m
      → d.area_id ≡ none
      → parent_device ds d ≡ some p
      → Inherits ds m p a
      → Inherits ds n d a

walk-none :
    (ds : List Device) (fuel : ℕ) (seen : List String) (a : String)
    → walk ds fuel none seen ≡ some (some a)
    → ⊥
unfolding walk
walk-none ds zero seen a h = ground arith
walk-none ds (suc fuel) seen a h = ground arith

walk-Inherits :
    (ds : List Device) (fuel : ℕ) (d : Device) (seen : List String) (a : String)
    → walk ds fuel (some d) seen ≡ some (some a)
    → (n : ℕ) × Inherits ds n d a
unfolding walk
walk-Inherits ds zero d seen a h = absurd (ground arith)
walk-Inherits ds (suc fuel) d seen a h = elim (Bool-cases (contains d.id seen)) [
  | inl cycle ↦ absurd (ground arith)
  | inr fresh ↦ elim (Option-cases d.area_id) [
    | inr (b, e) ↦ let same : b ≡ a = ground arith in (0, Inherits.own 0 refl (rw (← same) e))
    | inl e ↦ elim (Option-cases (parent_device ds d)) [
      | inl gone ↦ absurd (walk-none ds fuel (d.id ∷ seen) a (ground arith))
      | inr (p, up) ↦
          let (n, i) = walk-Inherits ds fuel p (d.id ∷ seen) a (ground arith) in
          (suc n, Inherits.parent (suc n) n p refl e up i)
    ]
  ]
]

-- Two derivations from one device take the same number of steps and end at the same area.
Inherits-unique :
    {ds : List Device} {n m : ℕ} {d : Device} {a b : String}
    → Inherits ds n d a
    → Inherits ds m d b
    → (n ≡ m) × (a ≡ b)
Inherits-unique (Inherits.own n z e) (Inherits.own m z' e') = ground arith
Inherits-unique (Inherits.own n z e) (Inherits.parent m m' p s e' up i) = absurd (ground arith)
Inherits-unique (Inherits.parent n n' p s e up i) (Inherits.own m z' e') = absurd (ground arith)
Inherits-unique {ds} {b = b} (Inherits.parent n n' p s e up i)
      (Inherits.parent m m' q s' e' up' j) =
    let same : q ≡ p = ground arith in
    let r = Inherits-unique i (subst (λ x. Inherits ds m' x b) same j) in ground (arith, r)

get_device_id : (i : String) (ds : List Device) (d : Device) → get_device i ds ≡ some d → d.id ≡ i
unfolding get_device
get_device_id i [] d h = absurd (ground arith)
get_device_id i (e ∷ ds) d h = ground (arith, get_device_id i ds d, str_eq_iff e.id i)

IsFound-unique :
    (ds : List Device) (d e : Device)
    → IsFound ds (some d)
    → IsFound ds (some e)
    → d.id ≡ e.id
    → e ≡ d
IsFound-unique ds d e (i, p) (j, q) same =
    let pi = get_device_id i ds d p in let qj = get_device_id j ds e q in cc (pi, qj)

-- Every device that the walk has seen is more than `n` steps from its area.
abbrev Above : List Device → List String → ℕ → Type 0
Above ds seen n =
    (e : Device) (m : ℕ) (b : String)
    → IsFound ds (some e)
    → contains e.id seen ≡ true
    → Inherits ds m e b
    → n < m

Above-cons :
    (ds : List Device) (seen : List String) (n m : ℕ) (d : Device) (a : String)
    → IsFound ds (some d)
    → Inherits ds n d a
    → n ≡ suc m
    → Above ds seen n
    → Above ds (d.id ∷ seen) m
unfolding contains
Above-cons ds seen n m d a found i s above e k b found' seen' j =
    elim (Bool-cases (str_eq d.id e.id)) [
      | inl same ↦
          let eq = IsFound-unique ds d e found found' ((str_eq_iff d.id e.id).0 same) in
          let steps = Inherits-unique i (subst (λ x. Inherits ds k x b) eq j) in
          omega (arith, steps.0)
      | inr other ↦ omega (arith, above e k b found' (rw other at seen') j)
    ]

not_seen :
    (ds : List Device) (seen : List String) (n : ℕ) (d : Device) (a : String)
    → IsFound ds (some d)
    → Above ds seen n
    → Inherits ds n d a
    → contains d.id seen ≡ false
not_seen ds seen n d a found above i = elim (Bool-cases (contains d.id seen)) [
  | inl old ↦ absurd (let late = above d n a found old i in omega (arith, late))
  | inr fresh ↦ fresh
]

Inherits-walk :
    (ds : List Device) (fuel n : ℕ) (d : Device) (seen : List String) (a : String)
    → IsFound ds (some d)
    → Above ds seen n
    → unseen seen ds < fuel
    → Inherits ds n d a
    → walk ds (suc fuel) (some d) seen ≡ some (some a)
unfolding walk
Inherits-walk ds zero n d seen a found above h i = absurd (omega arith)
Inherits-walk ds (suc fuel) n d seen a found above h (Inherits.own k z e) =
    ground (arith, not_seen ds seen n d a found above (Inherits.own k z e))
Inherits-walk ds (suc fuel) n d seen a found above h (Inherits.parent k m p s e up i) =
    let whole : Inherits ds n d a = Inherits.parent k m p s e up i in
    let fresh = not_seen ds seen n d a found above whole in
    let found' : IsFound ds (some p) = subst (IsFound ds) up (parent_device-IsFound ds d) in
    let fewer = unseen-cons-lt found.0 seen ds d found.1 fresh in
    let rest =
      Inherits-walk ds fuel m p (d.id ∷ seen) a found'
        (Above-cons ds seen n m d a found whole s above) (omega (arith, fewer)) i in
    ground (arith, rest, fresh)

-- `id` names a device of the registry, and `a` is the area that it inherits.
abbrev pub HasArea : List Device → String → String → Type 0
HasArea ds id a = (d : Device) × (get_device id ds ≡ some d) × ((n : ℕ) × Inherits ds n d a)

device_area_sound :
    (ds : List Device) (id a : String) → device_area ds id ≡ some a → HasArea ds id a
unfolding device_area
device_area_sound ds id a h = elim (Option-cases (get_device id ds)) [
  | inl gone ↦ absurd (walk-none ds (suc (suc (length ds))) [] a (ground arith))
  | inr (d, found) ↦ (d, found, walk-Inherits ds (suc (suc (length ds))) d [] a (ground arith))
]

device_area_complete :
    (ds : List Device) (id a : String) → HasArea ds id a → device_area ds id ≡ some a
unfolding device_area contains
device_area_complete ds id a (d, found, (n, i)) =
    let ends =
      Inherits-walk ds (suc (length ds)) n d [] a (id, found)
        (λ e m b p seen j. absurd (ground arith))
        (let few = unseen-le-length [] ds in omega (arith, few)) i in
    ground (arith, ends)

-- The area found through a device id is exactly the one of the nearest device, from that device up
-- through the parents, that has an area: there is none if no such device exists, and the walk ends
-- also where the parents form a ring.
pub device_area_iff :
    (ds : List Device) (id a : String) → (device_area ds id ≡ some a) ↔ HasArea ds id a
device_area_iff ds id a = (device_area_sound ds id a, device_area_complete ds id a)
