-- ===== src/Controller/Sync/Cycles.antt =====
-- What `_sync_cycles_locked` does to the cycle of one entity.
use mathlib.Core.Option
use ha_runtime_auto_off.Prelude.{
  ℕ, min, ◌||◌, String, ◌≡◌, ◌≢◌, refl, ◌∙◌, ap, true, Option, none, some, List, [], ◌∷◌, ◌++◌,
  arith, Dict, All, get, values, contains, get-put, get-pop, get-keep_keys, str_eq, str_eq_iff,
  Bool-cases, Option-cases, if◌then◌else◌, inl, inr,
}
use ha_runtime_auto_off.Hass.{HaState, Hass}
use ha_runtime_auto_off.Models.{RuntimeCycle, new_cycle}
use ha_runtime_auto_off.Controller.{Controller}
use ha_runtime_auto_off.Controller.Errors.{is_lost, is_off, identity_or_area_error}
use ha_runtime_auto_off.Controller.Sync.{
  StateEvent, Tracking, renamed, rename, observed, track_found, sync_state, sync_keyed, sync_entity,
  sync_entities, tracking_start, sync_cycles,
}

get-rename :
    (key e j : String) (d : Dict RuntimeCycle)
    → get j (rename key e d)
      ≡ (if str_eq key j then Option.map (renamed e) (get key d) else get j d)
unfolding rename
get-rename key e j d = elim (Option-cases (get key d)) [
  | inl gone ↦ ground (arith, str_eq_iff key j)
  | inr (cycle, there) ↦
      ground (arith, str_eq_iff key j, get-put key j (record cycle { entity_id = e }) d)
]

-- The cycle after a round, by the entity's error, its state and the cycle before.
unfoldable pub next_cycle :
    ℕ → String → String → Option String → Option HaState → Option RuntimeCycle → Option RuntimeCycle
next_cycle now key e (some error) state old = none
next_cycle now key e none none old = Option.map (renamed e) old
next_cycle now key e none (some s) none =
    if is_lost s.state || is_off s.state
    then none
    else some (new_cycle key e (min s.last_changed now))
next_cycle now key e none (some s) (some cycle) =
    if is_lost s.state
    then some (renamed e cycle)
    else if is_off s.state
    then none
    else some (renamed e cycle)

get-track_found :
    (now : ℕ) (key e : String) (changed : ℕ) (j : String) (o : Option RuntimeCycle)
    (d : Dict RuntimeCycle)
    → get key d ≡ o
    → get j (track_found now key e changed o d) ≡ (
        if str_eq key j
        then some
            (elim o [ none ↦ new_cycle key e (min changed now) | some cycle ↦ renamed e cycle ])
        else get j d)
get-track_found now key e changed j none d h = get-put key j (new_cycle key e (min changed now)) d
get-track_found now key e changed j (some cycle) d h = ground (arith, get-rename key e j d)

module _ (now : ℕ) (key e : String) (s : HaState) (j : String) (t : Tracking) where
  get-sync_known :
      (o : Option RuntimeCycle)
      → get key t.cycles ≡ o
      → get j (sync_state now key e none (some s) t).cycles
        ≡ (if str_eq key j then next_cycle now key e none (some s) o else get j t.cycles)
  unfolding sync_state next_cycle
  get-sync_known none h = ground (
    arith,
    get-pop key j t.cycles,
    get-rename key e j t.cycles,
    get-track_found now key e s.last_changed j none t.cycles h,
  )
  get-sync_known (some cycle) h = ground (
    arith,
    get-pop key j t.cycles,
    get-rename key e j t.cycles,
    get-track_found now key e s.last_changed j (some cycle) t.cycles h,
  )

get-sync_state :
    (now : ℕ) (key e : String) (error : Option String) (state : Option HaState) (j : String)
    (t : Tracking)
    → get j (sync_state now key e error state t).cycles ≡ (
        if str_eq key j
        then next_cycle now key e error state (get key t.cycles)
        else get j t.cycles)
unfolding sync_state next_cycle
get-sync_state now key e (some error) state j t = get-pop key j t.cycles
get-sync_state now key e none none j t = get-rename key e j t.cycles
get-sync_state now key e none (some s) j t = get-sync_known now key e s j t (get key t.cycles) refl

-- No entity of the list has the key `k`.
abbrev pub NoneKeyed : Controller → String → List String → Type 0
NoneKeyed c k = All (λ e. get e c.stable_key_by_entity ≢ some k)

-- The key `k` belongs to the entity `e` of the rule, and to no other entity of it.
pub record Tracks (c : Controller) (k e : String) : Type 0 where
  pub earlier : List String
  pub later : List String
  pub entities : c.config.entities ≡ earlier ++ e ∷ later
  pub key : get e c.stable_key_by_entity ≡ some k
  pub none_earlier : NoneKeyed c k earlier
  pub none_later : NoneKeyed c k later

-- A dictionary's value stands among its values.
contains-values : (e k : String) (d : Dict String) → get e d ≡ some k → contains k (values d) ≡ true
unfolding get contains values
contains-values e k [] h = absurd (ground arith)
contains-values e k ((j, v) ∷ d) h = ground (arith, contains-values e k d, str_eq_iff v k)

module _ (c : Controller) (hass : Hass) (now : ℕ) (event : Option StateEvent) (k : String) where
  get-sync_keyed_ne :
      (e : String) (key error : Option String) (state : Option HaState) (t : Tracking)
      → key ≢ some k
      → get k (sync_keyed now e key error state t).cycles ≡ get k t.cycles
  get-sync_keyed_ne e none error state t h = refl
  get-sync_keyed_ne e (some key) error state t h = elim (Bool-cases (str_eq key k)) [
    | inl same ↦ absurd (h (ap some ((str_eq_iff key k).0 same)))
    | inr other ↦ get-sync_state now key e error state k t ∙ rw other
  ]

  get-sync_entities_ne :
      (es : List String) (t : Tracking)
      → NoneKeyed c k es
      → get k (sync_entities c hass now event es t).cycles ≡ get k t.cycles
  unfolding sync_entities
  get-sync_entities_ne [] t h = refl
  get-sync_entities_ne (e ∷ es) t h =
      get-sync_entities_ne es (sync_entity c hass now event e t) h.1
      ∙ get-sync_keyed_ne e (get e c.stable_key_by_entity) (identity_or_area_error c hass e)
          (observed hass event e) t h.0

  get-sync_entities :
      (xs : List String) (e : String) (ys : List String) (t : Tracking)
      → NoneKeyed c k xs
      → get e c.stable_key_by_entity ≡ some k
      → NoneKeyed c k ys
      → get k (sync_entities c hass now event (xs ++ e ∷ ys) t).cycles
        ≡ next_cycle now k e
            (identity_or_area_error c hass e)
            (observed hass event e)
            (get k t.cycles)
  unfolding sync_entities
  get-sync_entities [] e ys t hx here hy =
      get-sync_entities_ne ys (sync_entity c hass now event e t) hy
      ∙ rw here (
          get-sync_state now k e (identity_or_area_error c hass e) (observed hass event e) k t
          ∙ rw ((str_eq_iff k k).1 refl))
  get-sync_entities (x ∷ xs) e ys t hx here hy =
      get-sync_entities xs e ys (sync_entity c hass now event x t) hx.1 here hy
      ∙ ap (next_cycle now k e (identity_or_area_error c hass e) (observed hass event e)) (
          get-sync_keyed_ne x (get x c.stable_key_by_entity) (identity_or_area_error c hass x)
            (observed hass event x) t hx.0)

  -- The cycle of a tracked entity after the method.
  pub get-sync_cycles :
      (e : String)
      → Tracks c k e
      → get k (sync_cycles hass now event c).cycles
        ≡ next_cycle now k e
            (identity_or_area_error c hass e)
            (observed hass event e)
            (get k c.cycles)
  unfolding sync_cycles
  get-sync_cycles e tr =
      let kept : contains k (values c.stable_key_by_entity) ≡ true =
        contains-values e k c.stable_key_by_entity tr.key in
      let start : get k (tracking_start c).cycles ≡ get k c.cycles =
        get-keep_keys (λ j. contains j (values c.stable_key_by_entity)) k c.cycles ∙ rw kept in
      rw tr.entities (
        get-sync_entities tr.earlier e tr.later (tracking_start c) tr.none_earlier tr.key
          tr.none_later
        ∙ ap (next_cycle now k e (identity_or_area_error c hass e) (observed hass event e)) start)
