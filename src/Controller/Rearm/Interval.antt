-- ===== src/Controller/Rearm/Interval.antt =====
-- A changed retry interval moves the retries that are waiting.
use ha_runtime_auto_off.Prelude.{
  ℕ, zero, suc, ◌+◌, ◌-◌, ◌≤◌, ◌<◌, String, ◌≡◌, refl, true, false, Option, none, some, [], ◌∷◌,
  ◌∙◌, ap, ◌⊎◌, Dict, get, arith, str_eq, Bool-cases, Option-cases, inl, inr,
}
use ha_runtime_auto_off.Models.{RuntimeCycle, LastExecution}
use ha_runtime_auto_off.Controller.{Controller}
use ha_runtime_auto_off.Controller.Rearm.{
  is_close, move_retry, cons_moved, move_retries, apply_retry_interval_change,
}

module _ (now : ℕ) (stored : Option ℕ) (last : Option LastExecution) (current : ℕ) where
  cons_moved-cases :
      (j : String) (m : Option RuntimeCycle) (rest : Option (Dict RuntimeCycle))
      {d : Dict RuntimeCycle}
      → cons_moved j m rest ≡ some d
      → (x : RuntimeCycle) × (e : Dict RuntimeCycle) × (m ≡ some x)
        × (rest ≡ some e)
        × (d ≡ (j, x) ∷ e)
  cons_moved-cases j none rest h = absurd (ground arith)
  cons_moved-cases j (some x) none h = absurd (ground arith)
  cons_moved-cases j (some x) (some e) h = (x, e, refl, refl, ground arith)

  -- Each cycle is found again as the moved cycle, of which none has overflowed.
  all_moved :
      (k : String) (cycle : RuntimeCycle) (d d' : Dict RuntimeCycle)
      → move_retries now stored last current d ≡ some d'
      → get k d ≡ some cycle
      → (x : RuntimeCycle) × (move_retry now stored last current cycle ≡ some x)
        × (get k d' ≡ some x)
  unfolding move_retries get
  all_moved k cycle [] d' h found = absurd (ground arith)
  all_moved k cycle ((j, x) ∷ d) d' h found =
      let (x', e, moved, rest, same) =
        cons_moved-cases j (move_retry now stored last current x)
          (move_retries now stored last current d) h in
      elim (Bool-cases (str_eq j k)) [
        | inl here ↦ (x', ground arith, ground arith)
        | inr other ↦
            let (y, ready, ih) = all_moved k cycle d e rest (ground arith) in
            (y, ready, ground arith)
      ]

move_retry-pending :
    (now s current retry : ℕ) (last : Option LastExecution) (cycle x : RuntimeCycle)
    → 0 < s
    → cycle.handled ≡ false
    → cycle.retry_at ≡ some retry
    → move_retry now (some s) last current cycle ≡ some x
    → (s ≤ retry) × (x ≡ record cycle { retry_at = some (retry - s + current) })
unfolding move_retry
move_retry-pending now zero current retry last cycle x positive free at h = absurd (omega arith)
move_retry-pending now (suc s) current retry last cycle x positive free at h = ground arith

move_retry-other :
    (now : ℕ) (stored : Option ℕ) (current : ℕ) (last : Option LastExecution)
    (cycle x : RuntimeCycle)
    → (cycle.handled ≡ true) ⊎ (cycle.retry_at ≡ none)
    → move_retry now stored last current cycle ≡ some x
    → x ≡ cycle
unfolding move_retry
move_retry-other now stored current last cycle x (inl claimed) h =
    elim (Option-cases cycle.retry_at) [ inl first ↦ ground arith | inr (r, at) ↦ ground arith ]
move_retry-other now stored current last cycle x (inr first) h = ground arith

module _ (now s : ℕ) (c : Controller) (k : String) (cycle : RuntimeCycle) where
  changed-moves :
      is_close s c.config.retry_interval_seconds ≡ false
      → c.stored_retry_interval ≡ some s
      → (apply_retry_interval_change now c).overflowed ≡ false
      → move_retries now (some s) c.last_execution c.config.retry_interval_seconds c.cycles
        ≡ some (apply_retry_interval_change now c).controller.cycles
  unfolding apply_retry_interval_change
  changed-moves far known fits =
      elim (Option-cases (
        move_retries now c.stored_retry_interval c.last_execution c.config.retry_interval_seconds
          c.cycles)) [ inl overflow ↦ absurd (ground arith) | inr (d, moved) ↦ ground arith ]

  -- After a change of a positive retry interval, if no time overflows: a pending retry is moved to
  -- the new interval after the same attempt.
  pub apply_retry_interval_change-moves :
      (retry : ℕ)
      → c.stored_retry_interval ≡ some s
      → 0 < s
      → is_close s c.config.retry_interval_seconds ≡ false
      → (apply_retry_interval_change now c).overflowed ≡ false
      → get k c.cycles ≡ some cycle
      → cycle.handled ≡ false
      → cycle.retry_at ≡ some retry
      → (s ≤ retry)
        × (get k (apply_retry_interval_change now c).controller.cycles
            ≡ some (record cycle { retry_at = some (retry - s + c.config.retry_interval_seconds) }))
  apply_retry_interval_change-moves retry known positive far fits found free at =
      let current = c.config.retry_interval_seconds in
      let (x, moved, here) =
        all_moved now (some s) c.last_execution current k cycle c.cycles
          (apply_retry_interval_change now c).controller.cycles (changed-moves far known fits)
          found in
      let (early, same) =
        move_retry-pending now s current retry c.last_execution cycle x positive free at moved in
      (early, here ∙ ap some same)

  -- After a change of the retry interval, if no time overflows: a cycle that is claimed, or has
  -- no retry, is as it was.
  pub apply_retry_interval_change-keeps :
      c.stored_retry_interval ≡ some s
      → is_close s c.config.retry_interval_seconds ≡ false
      → (apply_retry_interval_change now c).overflowed ≡ false
      → get k c.cycles ≡ some cycle
      → (cycle.handled ≡ true) ⊎ (cycle.retry_at ≡ none)
      → get k (apply_retry_interval_change now c).controller.cycles ≡ some cycle
  apply_retry_interval_change-keeps known far fits found other =
      let current = c.config.retry_interval_seconds in
      let (x, moved, here) =
        all_moved now (some s) c.last_execution current k cycle c.cycles
          (apply_retry_interval_change now c).controller.cycles (changed-moves far known fits)
          found in
      here ∙ ap some (move_retry-other now (some s) current c.last_execution cycle x other moved)
