-- ===== src/Controller/Rearm.antt =====
-- `_rearm_interrupted_cycles_locked` and `_apply_retry_interval_change_locked` of controller.py.
pub mod Interval
use ha_runtime_auto_off.Prelude.{
  ℕ, zero, suc, ◌+◌, ◌-◌, Bool, true, false, not, ◌&&◌, Option, none, some, [], ◌∷◌, Dict,
  map_values, leb, ◌==◌, String, if◌then◌else◌,
}
use ha_runtime_auto_off.Models.{RuntimeCycle, LastExecution}
use ha_runtime_auto_off.Controller.{Controller}

abbrev pub rearm_cycle : ℕ → RuntimeCycle → RuntimeCycle
rearm_cycle at cycle =
    if cycle.handled then record cycle { handled = false; retry_at = some at } else cycle

-- Whether the loop has met a claimed cycle.
unfoldable pub any_handled : Dict RuntimeCycle → Bool
any_handled [] = false
any_handled ((k, cycle) ∷ d) = let rest = any_handled d in if cycle.handled then true else rest

pub record Rearmed : Type 0 where
  pub controller : Controller
  pub rearmed : Bool

unfoldable pub rearm_interrupted : ℕ → Controller → Rearmed
rearm_interrupted now c =
    if c.config.retry_interval_seconds == 0
    then record { controller = c; rearmed = false }
    else record {
      controller = record c {
        cycles = map_values (rearm_cycle (now + c.config.retry_interval_seconds)) c.cycles;
      };
      rearmed = any_handled c.cycles;
    }

-- `math.isclose(a, b, rel_tol=0, abs_tol=1e-6)`: at most one microsecond apart.
abbrev pub is_close : ℕ → ℕ → Bool
is_close a b = leb (a - b) 1 && leb (b - a) 1

-- The time of the attempt whose retry is pending. `none` is the `OverflowError` of a difference
-- that lies before the first `datetime`.
abbrev pub attempted_at : ℕ → Option ℕ → Option LastExecution → ℕ → Option ℕ
attempted_at now none none retry = some now
attempted_at now none (some e) retry = some e.occurred_at
attempted_at now (some zero) none retry = some now
attempted_at now (some zero) (some e) retry = some e.occurred_at
attempted_at now (some (suc s)) last retry =
    if leb (suc s) retry then some (retry - suc s) else none

-- The last moment that `datetime` can hold, at the end of the year 9999.
abbrev pub max_time : ℕ
max_time = 315537897599999999

-- `at + timedelta(seconds=...)`; `none` is the `OverflowError` of a sum past the last `datetime`.
abbrev pub add_time : ℕ → ℕ → Option ℕ
add_time at interval = if leb (at + interval) max_time then some (at + interval) else none

-- One cycle of the loop.
unfoldable pub move_retry :
    ℕ → Option ℕ → Option LastExecution → ℕ → RuntimeCycle → Option RuntimeCycle
move_retry now stored last current cycle = elim cycle.retry_at [
  | none ↦ some cycle
  | some retry ↦ if cycle.handled then some cycle else elim (attempted_at now stored last retry) [
    | none ↦ none
    | some at ↦ elim (add_time at current) [
      | none ↦ none
      | some moved ↦ some (record cycle { retry_at = some moved })
    ]
  ]
]

abbrev pub cons_moved :
    String → Option RuntimeCycle → Option (Dict RuntimeCycle) → Option (Dict RuntimeCycle)
cons_moved k (some cycle) (some d) = some ((k, cycle) ∷ d)
cons_moved k _ _ = none

unfoldable pub move_retries :
    ℕ → Option ℕ → Option LastExecution → ℕ → Dict RuntimeCycle → Option (Dict RuntimeCycle)
move_retries now stored last current [] = some []
move_retries now stored last current ((k, cycle) ∷ d) =
    cons_moved k (move_retry now stored last current cycle) (move_retries now stored last current d)

-- The stored interval is the one in use.
abbrev pub is_unchanged : Option ℕ → ℕ → Bool
is_unchanged none current = false
is_unchanged (some stored) current = is_close stored current

-- The controller after the method, and whether it raised. Its own result is not used.
pub record Changed : Type 0 where
  pub controller : Controller
  pub overflowed : Bool

unfoldable pub apply_retry_interval_change : ℕ → Controller → Changed
apply_retry_interval_change now c =
    let current = c.config.retry_interval_seconds in
    let c' = record c { stored_retry_interval = some current } in
    let moved = move_retries now c.stored_retry_interval c.last_execution current c.cycles in
    if is_unchanged c.stored_retry_interval current
    then record { controller = c'; overflowed = false }
    else elim moved [
      | none ↦ record { controller = c'; overflowed = true }
      | some d ↦ record { controller = record c' { cycles = d }; overflowed = false }
    ]
