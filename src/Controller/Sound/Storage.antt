-- ===== src/Controller/Sound/Storage.antt =====
-- The invariant after restoring stored cycles and moving their retries.
use ha_runtime_auto_off.Prelude.{
  ℕ, ◌≡◌, refl, Option, none, some, [], ◌∷◌, Dict, get, arith, subst, String, Option-cases, inl,
  inr,
}
use ha_runtime_auto_off.Models.{RuntimeCycle, LastExecution}
use ha_runtime_auto_off.Models.Values.{
  DatetimeText, Value, array, object, Items, nil, cons, Fields, get_field,
}
use ha_runtime_auto_off.Models.Cycle.{cycle_from_dict}
use ha_runtime_auto_off.Controller.{Controller}
use ha_runtime_auto_off.Controller.Sync.Keys.{IsKeyed, put-IsKeyed}
use ha_runtime_auto_off.Controller.Rearm.{
  move_retry, move_retries, cons_moved, apply_retry_interval_change,
}
use ha_runtime_auto_off.Controller.Save.{restored_items, restored_cycles, add_cycle, restore}
use ha_runtime_auto_off.Controller.Sound.{IsSound}

add_cycle-IsKeyed :
    (dt : DatetimeText) (o : Option RuntimeCycle) (d : Dict RuntimeCycle)
    → IsKeyed d
    → IsKeyed (add_cycle dt o d)
add_cycle-IsKeyed dt none d h = h
add_cycle-IsKeyed dt (some cycle) d h = put-IsKeyed cycle.stable_key cycle d refl h

restored_items-IsKeyed :
    (dt : DatetimeText) (vs : Items) (d : Dict RuntimeCycle)
    → IsKeyed d
    → IsKeyed (restored_items dt vs d)
unfolding restored_items
restored_items-IsKeyed dt nil d h = h
restored_items-IsKeyed dt (cons (object fs) vs) d h =
    restored_items-IsKeyed dt vs (add_cycle dt (cycle_from_dict dt fs) d)
      (add_cycle-IsKeyed dt (cycle_from_dict dt fs) d h)
restored_items-IsKeyed dt (cons _ vs) d h = restored_items-IsKeyed dt vs d h

restored_cycles-IsKeyed :
    (dt : DatetimeText) (v : Value) (d : Dict RuntimeCycle)
    → IsKeyed d
    → IsKeyed (restored_cycles dt v d)
restored_cycles-IsKeyed dt (array vs) d h = restored_items-IsKeyed dt vs d h
restored_cycles-IsKeyed dt _ d h = h

-- Whatever the store holds, what is restored from it satisfies the invariant.
pub restore-IsSound :
    (dt : DatetimeText) (stored : Option Fields) (c : Controller)
    → IsSound c
    → IsSound (restore dt stored c)
unfolding restore
restore-IsSound dt none c h = h
restore-IsSound dt (some fs) c h = record {
  keyed = restored_cycles-IsKeyed dt (get_field "cycles" fs) c.cycles h.keyed;
  timed = record { armed = h.timed.armed; kinded = h.timed.kinded };
}

-- The keys of a moved dictionary are those of the dictionary, in order.
abbrev Moved : Dict RuntimeCycle → Option (Dict RuntimeCycle) → Type 0
Moved d none = Unit
Moved d (some d') = IsKeyed d' × ((k : String) → get k d ≡ none → get k d' ≡ none)

move_retry-stable_key :
    (now : ℕ) (stored : Option ℕ) (last : Option LastExecution) (current : ℕ)
    (cycle new : RuntimeCycle)
    → move_retry now stored last current cycle ≡ some new
    → new.stable_key ≡ cycle.stable_key
unfolding move_retry
move_retry-stable_key now stored last current cycle new h = ground arith

cons_moved-Moved :
    (k : String) (cycle : RuntimeCycle) (d : Dict RuntimeCycle) (o : Option RuntimeCycle)
    (r : Option (Dict RuntimeCycle))
    → ((new : RuntimeCycle) → o ≡ some new → new.stable_key ≡ cycle.stable_key)
    → IsKeyed ((k, cycle) ∷ d)
    → Moved d r
    → Moved ((k, cycle) ∷ d) (cons_moved k o r)
unfolding get
cons_moved-Moved k cycle d none r same h m = tt
cons_moved-Moved k cycle d (some new) none same h m = tt
cons_moved-Moved k cycle d (some new) (some d') same h m =
    ((ground (arith, same new refl), m.1 k h.1, m.0), λ j e. ground (arith, m.1 j))

move_retries-Moved :
    (now : ℕ) (stored : Option ℕ) (last : Option LastExecution) (current : ℕ)
    (d : Dict RuntimeCycle)
    → IsKeyed d
    → Moved d (move_retries now stored last current d)
unfolding move_retries
move_retries-Moved now stored last current [] h = (tt, λ k e. e)
move_retries-Moved now stored last current ((k, cycle) ∷ d) h =
    cons_moved-Moved k cycle d (move_retry now stored last current cycle)
      (move_retries now stored last current d)
      (λ new e. move_retry-stable_key now stored last current cycle new e) h
      (move_retries-Moved now stored last current d h.2)

pub apply_retry_interval_change-IsSound :
    (now : ℕ) (c : Controller) → IsSound c → IsSound (apply_retry_interval_change now c).controller
unfolding apply_retry_interval_change
apply_retry_interval_change-IsSound now c h =
    let stored = c.stored_retry_interval in
    let current = c.config.retry_interval_seconds in
    let moved = move_retries-Moved now stored c.last_execution current c.cycles h.keyed in
    elim (Option-cases (move_retries now stored c.last_execution current c.cycles)) [
      | inl gone ↦ ground (arith, gone)
      | inr (d, there) ↦
          let keyed : Moved c.cycles (some d) = subst (Moved c.cycles) there moved in
          ground (arith, there, keyed.0)
    ]
