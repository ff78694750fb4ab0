-- ===== src/Controller/Tasks.antt =====
-- `_execution_tasks`, `_execution_lock` and `_execution_idle` of controller.py: how `_async_execute`
-- lets one execution run at a time, and how `async_stop` waits for them. A task is a number. An
-- `asyncio.Lock` is a flag and the tasks that wait for it, in order: its release wakes the first of
-- them, which takes the lock when it runs next; until then the lock is free, and others queue up.
pub mod Ordered
use ha_runtime_auto_off.Prelude.{
  ℕ, ◌≡◌, Bool, true, false, not, ◌&&◌, ◌||◌, ◌==◌, List, [], ◌∷◌, ◌++◌, is_empty, if◌then◌else◌,
}

-- `t in tasks`
unfoldable pub has_task : ℕ → List ℕ → Bool
has_task t [] = false
has_task t (u ∷ us) = (u == t) || has_task t us

-- `tasks.add(t)`
unfoldable pub add_task : ℕ → List ℕ → List ℕ
unfolding has_task
add_task t ts = if has_task t ts then ts else t ∷ ts

-- `tasks.discard(t)`
unfoldable pub discard_task : ℕ → List ℕ → List ℕ
discard_task t [] = []
discard_task t (u ∷ us) = let rest = discard_task t us in if u == t then rest else u ∷ rest

-- The tasks in `_async_execute`, and which of them are in `_async_execute_serialized`; the lock's
-- flag, those who wait for it, and whether the first of them was woken; and the idle event.
pub record Gate : Type 0 where
  pub tasks : List ℕ
  pub running : List ℕ
  pub locked : Bool
  pub waiting : List ℕ
  pub woken : Bool
  pub idle : Bool

-- The gate that the constructor makes.
abbrev pub new_gate : Gate
new_gate = record {
  tasks = [];
  running = [];
  locked = false;
  waiting = [];
  woken = false;
  idle = true;
}

-- `_async_execute` up to the lock.
unfoldable pub enter : ℕ → Gate → Gate
unfolding add_task
enter t g = record g { tasks = add_task t g.tasks; idle = false }

-- `async with self._execution_lock`: a free lock that nobody waits for is taken, and the execution
-- begins; or else the task waits.
unfoldable pub acquire : ℕ → Gate → Gate
acquire t g =
    if g.locked || not (is_empty g.waiting)
    then record g { waiting = g.waiting ++ t ∷ [] }
    else record g { locked = true; running = t ∷ g.running }

-- The first who waits is woken, if there is one.
abbrev pub wake : Gate → Gate
wake g = record g { woken = not (is_empty g.waiting) }

-- The woken task takes the lock, and its execution begins.
unfoldable pub wake_up : ℕ → List ℕ → Gate → Gate
wake_up t rest g = record g {
  locked = true;
  waiting = rest;
  woken = false;
  running = t ∷ g.running;
}

-- The end of the execution and of `async with`.
unfoldable pub release : ℕ → Gate → Gate
unfolding discard_task
release t g = wake (record g { locked = false; running = discard_task t g.running })

abbrev pub is_first : ℕ → List ℕ → Bool
is_first t [] = false
is_first t (u ∷ us) = u == t

-- A task that is cancelled while it waits. If the lock is free, the next one is woken.
unfoldable pub give_up : ℕ → Gate → Gate
unfolding discard_task
give_up t g =
    let g' = record g {
      waiting = discard_task t g.waiting;
      woken = g.woken && not (is_first t g.waiting);
    } in
    if g.locked then g' else wake g'

-- `finally`
unfoldable pub leave : ℕ → Gate → Gate
unfolding discard_task
leave t g =
    let ts = discard_task t g.tasks in
    record g { tasks = ts; idle = if is_empty ts then true else g.idle }

-- Whether `await self._execution_idle.wait()` of `async_stop` is over.
abbrev pub stop_goes_on : Gate → Bool
stop_goes_on g = g.idle

-- What the tasks do, in any order: a task that is not in `_async_execute` enters it, a woken task
-- begins its execution, an execution ends, a task that waits is cancelled, and one that neither runs
-- nor waits leaves.
pub data GateStep (g : Gate) : Gate → Type 0 where
  arrives : (t : ℕ) → has_task t g.tasks ≡ false → GateStep g (acquire t (enter t g))
  wakes :
      (t : ℕ) (rest : List ℕ)
      → g.waiting ≡ t ∷ rest
      → g.woken ≡ true
      → GateStep g (wake_up t rest g)
  releases : (t : ℕ) → has_task t g.running ≡ true → GateStep g (release t g)
  cancels : (t : ℕ) → has_task t g.waiting ≡ true → GateStep g (give_up t g)
  leaves :
      (t : ℕ)
      → has_task t g.tasks ≡ true
      → has_task t g.running ≡ false
      → has_task t g.waiting ≡ false
      → GateStep g (leave t g)

pub data GateReach : Gate → Type 0 where
  begun : GateReach new_gate
  then_step : {g h : Gate} → GateReach g → GateStep g h → GateReach h
