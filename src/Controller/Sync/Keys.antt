-- ===== src/Controller/Sync/Keys.antt =====
-- The dictionary of cycles is keyed by the cycles' own keys, without repetition, and
-- `_sync_cycles_locked` keeps it so.
use ha_runtime_auto_off.Prelude.{
  ℕ, min, String, ◌≡◌, refl, Bool, Option, none, some, List, [], ◌∷◌, arith, Dict, get, put, pop,
  values, contains, keep_keys, map_values, get-put, get-pop, get-keep_keys, get-map_values,
  str_eq_iff, Option-cases, inl, inr,
}
use ha_runtime_auto_off.Hass.{HaState, Hass}
use ha_runtime_auto_off.Models.{RuntimeCycle, new_cycle}
use ha_runtime_auto_off.Controller.{Controller}
use ha_runtime_auto_off.Controller.Errors.{identity_or_area_error}
use ha_runtime_auto_off.Controller.Sync.{
  StateEvent, Tracking, rename, observed, track_active, track_found, sync_state, sync_keyed,
  sync_entity, sync_entities, tracking_start, sync_cycles,
}

abbrev pub IsKeyed : Dict RuntimeCycle → Type 0
IsKeyed [] = Unit
IsKeyed ((k, cycle) ∷ d) = (cycle.stable_key ≡ k) × (get k d ≡ none) × IsKeyed d

pub put-IsKeyed :
    (k : String) (cycle : RuntimeCycle) (d : Dict RuntimeCycle)
    → cycle.stable_key ≡ k
    → IsKeyed d
    → IsKeyed (put k cycle d)
unfolding put get
put-IsKeyed k cycle [] e h = (e, refl, tt)
put-IsKeyed k cycle ((j, old) ∷ d) e h =
    ground (arith, str_eq_iff j k, put-IsKeyed k cycle d, get-put k j cycle d, str_eq_iff k j)

pub pop-IsKeyed : (k : String) (d : Dict RuntimeCycle) → IsKeyed d → IsKeyed (pop k d)
unfolding pop
pop-IsKeyed k [] h = tt
pop-IsKeyed k ((j, old) ∷ d) h = ground (arith, pop-IsKeyed k d, get-pop k j d)

pub keep_keys-IsKeyed :
    (p : String → Bool) (d : Dict RuntimeCycle) → IsKeyed d → IsKeyed (keep_keys p d)
unfolding keep_keys
keep_keys-IsKeyed p [] h = tt
keep_keys-IsKeyed p ((j, old) ∷ d) h = ground (arith, keep_keys-IsKeyed p d, get-keep_keys p j d)

pub map_values-IsKeyed :
    (f : RuntimeCycle → RuntimeCycle) (d : Dict RuntimeCycle)
    → ((cycle : RuntimeCycle) → (f cycle).stable_key ≡ cycle.stable_key)
    → IsKeyed d
    → IsKeyed (map_values f d)
unfolding map_values
map_values-IsKeyed f [] same h = tt
map_values-IsKeyed f ((j, old) ∷ d) same h =
    ground (arith, same old, map_values-IsKeyed f d same, get-map_values f j d)

-- In a keyed dictionary a cycle is found under its own key.
pub get-stable_key :
    (k : String) (cycle : RuntimeCycle) (d : Dict RuntimeCycle)
    → IsKeyed d
    → get k d ≡ some cycle
    → cycle.stable_key ≡ k
unfolding get
get-stable_key k cycle [] h e = absurd (ground arith)
get-stable_key k cycle ((j, old) ∷ d) h e = ground (arith, str_eq_iff j k, get-stable_key k cycle d)

rename-IsKeyed : (key e : String) (d : Dict RuntimeCycle) → IsKeyed d → IsKeyed (rename key e d)
unfolding rename
rename-IsKeyed key e d h = elim (Option-cases (get key d)) [
  | inl gone ↦ ground arith
  | inr (cycle, there) ↦
      let same = get-stable_key key cycle d h there in
      ground (arith, put-IsKeyed key (record cycle { entity_id = e }) d same h)
]

track_found-IsKeyed :
    (now : ℕ) (key e : String) (changed : ℕ) (o : Option RuntimeCycle) (d : Dict RuntimeCycle)
    → IsKeyed d
    → IsKeyed (track_found now key e changed o d)
track_found-IsKeyed now key e changed none d h =
    put-IsKeyed key (new_cycle key e (min changed now)) d refl h
track_found-IsKeyed now key e changed (some cycle) d h = rename-IsKeyed key e d h

track_active-IsKeyed :
    (now : ℕ) (key e : String) (changed : ℕ) (d : Dict RuntimeCycle)
    → IsKeyed d
    → IsKeyed (track_active now key e changed d)
unfolding track_active
track_active-IsKeyed now key e changed d h = track_found-IsKeyed now key e changed (get key d) d h

sync_state-IsKeyed :
    (now : ℕ) (key e : String) (error : Option String) (state : Option HaState) (t : Tracking)
    → IsKeyed t.cycles
    → IsKeyed (sync_state now key e error state t).cycles
unfolding sync_state
sync_state-IsKeyed now key e (some error) state t h = pop-IsKeyed key t.cycles h
sync_state-IsKeyed now key e none none t h = rename-IsKeyed key e t.cycles h
sync_state-IsKeyed now key e none (some s) t h = ground (
  arith,
  pop-IsKeyed key t.cycles h,
  rename-IsKeyed key e t.cycles h,
  track_active-IsKeyed now key e s.last_changed t.cycles h,
)

sync_keyed-IsKeyed :
    (now : ℕ) (e : String) (key error : Option String) (state : Option HaState) (t : Tracking)
    → IsKeyed t.cycles
    → IsKeyed (sync_keyed now e key error state t).cycles
sync_keyed-IsKeyed now e none error state t h = h
sync_keyed-IsKeyed now e (some key) error state t h = sync_state-IsKeyed now key e error state t h

sync_entities-IsKeyed :
    (c : Controller) (hass : Hass) (now : ℕ) (event : Option StateEvent) (es : List String)
    (t : Tracking)
    → IsKeyed t.cycles
    → IsKeyed (sync_entities c hass now event es t).cycles
unfolding sync_entities
sync_entities-IsKeyed c hass now event [] t h = h
sync_entities-IsKeyed c hass now event (e ∷ es) t h =
    sync_entities-IsKeyed c hass now event es (sync_entity c hass now event e t) (
      sync_keyed-IsKeyed now e (get e c.stable_key_by_entity) (identity_or_area_error c hass e)
        (observed hass event e) t h)

pub sync_cycles-IsKeyed :
    (hass : Hass) (now : ℕ) (event : Option StateEvent) (c : Controller)
    → IsKeyed c.cycles
    → IsKeyed (sync_cycles hass now event c).cycles
unfolding sync_cycles
sync_cycles-IsKeyed hass now event c h =
    sync_entities-IsKeyed c hass now event c.config.entities (tracking_start c)
      (keep_keys-IsKeyed (λ k. contains k (values c.stable_key_by_entity)) c.cycles h)
