-- ===== src/Controller/Tasks/Ordered.antt =====
-- The invariant of the tasks that run executions.
use ha_runtime_auto_off.Prelude.{
  length, ◌≤◌, ℕ, ◌≡◌, refl, sym, subst, ◌∙◌, true, false, not, ◌&&◌, ◌||◌, ◌==◌, List, [], ◌∷◌,
  ◌++◌, is_empty, arith, Bool-cases, inl, inr,
}
use ha_runtime_auto_off.Controller.Tasks.{
  has_task, add_task, discard_task, Gate, new_gate, enter, acquire, release, give_up, leave,
  wake_up, wakes, stop_goes_on, GateStep, arrives, releases, cancels, leaves, GateReach, begun,
  then_step,
}

has_task-add_task : (t u : ℕ) (ts : List ℕ) → has_task u (add_task t ts) ≡ (t == u) || has_task u ts
unfolding has_task add_task
has_task-add_task t u ts = ground arith

has_task-discard_task :
    (t u : ℕ) (ts : List ℕ) → has_task u (discard_task t ts) ≡ not (t == u) && has_task u ts
unfolding has_task discard_task
has_task-discard_task t u [] = ground arith
has_task-discard_task t u (v ∷ vs) = ground (arith, has_task-discard_task t u vs)

has_task-append : (t u : ℕ) (ts : List ℕ) → has_task u (ts ++ t ∷ []) ≡ (t == u) || has_task u ts
unfolding has_task
has_task-append t u [] = ground arith
has_task-append t u (v ∷ vs) = ground (arith, has_task-append t u vs)

-- No task waits twice.
abbrev WaitOnce : List ℕ → Type 0
WaitOnce [] = Unit
WaitOnce (t ∷ ts) = (has_task t ts ≡ false) × WaitOnce ts

-- At most one task runs an execution, and the lock is taken exactly while one does. Those that run
-- or wait are registered, nobody waits twice or while he runs, and the first who waits is woken
-- exactly while the lock is free. `async_stop` goes on exactly while no task is registered.
pub record IsOrdered (g : Gate) : Type 0 where
  pub alone : length g.running ≤ 1
  pub taken : g.locked ≡ not (is_empty g.running)
  pub running : (t : ℕ) → has_task t g.running ≡ true → has_task t g.tasks ≡ true
  pub queued : (t : ℕ) → has_task t g.waiting ≡ true → has_task t g.tasks ≡ true
  pub apart : (t : ℕ) → has_task t g.running ≡ true → has_task t g.waiting ≡ false
  pub once : WaitOnce g.waiting
  pub woken : g.woken ≡ not g.locked && not (is_empty g.waiting)
  pub counted : stop_goes_on g ≡ is_empty g.tasks

append-WaitOnce :
    (t : ℕ) (ts : List ℕ) → WaitOnce ts → has_task t ts ≡ false → WaitOnce (ts ++ t ∷ [])
unfolding has_task
append-WaitOnce t [] h new = (refl, tt)
append-WaitOnce t (u ∷ us) (alone, rest) new =
    (ground (arith, has_task-append t u us), append-WaitOnce t us rest (ground arith))

discard_task-WaitOnce : (t : ℕ) (ts : List ℕ) → WaitOnce ts → WaitOnce (discard_task t ts)
unfolding discard_task
discard_task-WaitOnce t [] h = tt
discard_task-WaitOnce t (u ∷ us) (alone, rest) = elim (Bool-cases (u == t)) [
  | inl same ↦ rw same (discard_task-WaitOnce t us rest)
  | inr other ↦
      rw other (ground (arith, has_task-discard_task t u us), discard_task-WaitOnce t us rest)
]

new_gate-IsOrdered : IsOrdered new_gate
unfolding has_task
new_gate-IsOrdered = record {
  alone = omega arith;
  taken = refl;
  running = λ t h. ground arith;
  queued = λ t h. ground arith;
  apart = λ t h. ground arith;
  once = tt;
  woken = refl;
  counted = refl;
}

nobody_runs :
    (ts : List ℕ) → length ts ≤ 1 → (t : ℕ) → has_task t ts ≡ true → discard_task t ts ≡ []
unfolding has_task discard_task
nobody_runs [] one t h = refl
nobody_runs (u ∷ []) one t h = ground arith
nobody_runs (u ∷ v ∷ vs) one t h = absurd (omega (arith, one))

append-busy : (t : ℕ) (ts : List ℕ) → is_empty (ts ++ t ∷ []) ≡ false
append-busy t [] = refl
append-busy t (u ∷ us) = refl

release-IsOrdered :
    (t : ℕ) (g : Gate) → has_task t g.running ≡ true → IsOrdered g → IsOrdered (release t g)
unfolding release has_task
release-IsOrdered t g runs h =
    let gone = nobody_runs g.running h.alone t runs in
    record {
      alone = rw gone (omega arith);
      taken = rw gone refl;
      running = λ u e. absurd (ground (arith, gone));
      queued = h.queued;
      apart = λ u e. absurd (ground (arith, gone));
      once = h.once;
      woken = refl;
      counted = h.counted;
    }

no_element : (ts : List ℕ) → not (is_empty ts) ≡ false → ts ≡ []
no_element [] e = refl
no_element (t ∷ ts) e = ground arith

free-nobody : (g : Gate) → IsOrdered g → g.locked ≡ false → g.running ≡ []
free-nobody g h free = no_element g.running (sym h.taken ∙ free)

wake_up-IsOrdered :
    (t : ℕ) (rest : List ℕ) (g : Gate)
    → g.waiting ≡ t ∷ rest
    → g.woken ≡ true
    → IsOrdered g
    → IsOrdered (wake_up t rest g)
unfolding wake_up has_task
wake_up-IsOrdered t rest g first woken h =
    let nobody = free-nobody g h (ground (arith, h.woken)) in
    let once : WaitOnce (t ∷ rest) = subst WaitOnce first h.once in
    record {
      alone = rw nobody (omega arith);
      taken = refl;
      running = λ u e. h.queued u (rw first (ground (arith, nobody)));
      queued = λ u e. h.queued u (rw first (ground arith));
      apart = λ u e. ground (arith, nobody, once.0);
      once = once.1;
      woken = refl;
      counted = h.counted;
    }

add_task-busy : (t : ℕ) (ts : List ℕ) → has_task t ts ≡ false → false ≡ is_empty (add_task t ts)
unfolding add_task
add_task-busy t ts new = ground arith

arrives-IsOrdered :
    (t : ℕ) (g : Gate)
    → has_task t g.tasks ≡ false
    → IsOrdered g
    → IsOrdered (acquire t (enter t g))
unfolding acquire enter has_task
arrives-IsOrdered t g new h = elim (Bool-cases (g.locked || not (is_empty g.waiting))) [
  | inr free ↦
      (let nobody = free-nobody g h (ground (arith, free)) in
        let calm = no_element g.waiting (ground (arith, free)) in
        rw (free, nobody, calm)
          (record {
            alone = omega arith;
            taken = refl;
            running = λ u e. ground (arith, has_task-add_task t u g.tasks);
            queued = λ u e. absurd (ground arith);
            apart = λ u e. refl;
            once = tt;
            woken = ground (arith, h.woken, calm);
            counted = add_task-busy t g.tasks new;
          }))
  | inl taken ↦ rw taken (record {
    alone = h.alone;
    taken = h.taken;
    running = λ u e. ground (arith, has_task-add_task t u g.tasks, h.running u);
    queued = λ u e.
        ground (arith, has_task-add_task t u g.tasks, has_task-append t u g.waiting, h.queued u);
    apart = λ u e. ground (arith, has_task-append t u g.waiting, h.running u e, h.apart u e);
    once = append-WaitOnce t g.waiting h.once (ground (arith, h.queued t));
    woken = ground (arith, h.woken, append-busy t g.waiting);
    counted = add_task-busy t g.tasks new;
  })
]

give_up-waiting : (t : ℕ) (g : Gate) → (give_up t g).waiting ≡ discard_task t g.waiting
unfolding give_up
give_up-waiting t g = ground arith

give_up-woken :
    (t : ℕ) (g : Gate)
    → g.woken ≡ not g.locked && not (is_empty g.waiting)
    → (give_up t g).woken ≡ not g.locked && not (is_empty (discard_task t g.waiting))
unfolding give_up
give_up-woken t g h = ground (arith, h)

give_up-rest :
    (t : ℕ) (g : Gate)
    → ((give_up t g).tasks ≡ g.tasks)
      × ((give_up t g).running ≡ g.running)
      × ((give_up t g).locked ≡ g.locked)
      × ((give_up t g).idle ≡ g.idle)
unfolding give_up
give_up-rest t g = ground arith

cancels-IsOrdered : (t : ℕ) (g : Gate) → IsOrdered g → IsOrdered (give_up t g)
cancels-IsOrdered t g h =
    let (tasks, running, locked, idle) = give_up-rest t g in
    let waiting = give_up-waiting t g in
    record {
      alone = rw running h.alone;
      taken = rw (running, locked) h.taken;
      running = rw (running, tasks) h.running;
      queued =
          rw (waiting, tasks)
            (λ u e. h.queued u (ground (arith, has_task-discard_task t u g.waiting)));
      apart =
          rw (waiting, running)
            (λ u e. ground (arith, has_task-discard_task t u g.waiting, h.apart u e));
      once = rw waiting (discard_task-WaitOnce t g.waiting h.once);
      woken = rw (waiting, locked) (give_up-woken t g h.woken);
      counted = rw (idle, tasks) h.counted;
    }

has_task-some : (t : ℕ) (ts : List ℕ) → has_task t ts ≡ true → is_empty ts ≡ false
unfolding has_task
has_task-some t [] h = ground arith
has_task-some t (u ∷ us) h = refl

leaves-IsOrdered :
    (t : ℕ) (g : Gate)
    → has_task t g.tasks ≡ true
    → has_task t g.running ≡ false
    → has_task t g.waiting ≡ false
    → IsOrdered g
    → IsOrdered (leave t g)
unfolding leave
leaves-IsOrdered t g there done gone h = record {
  alone = h.alone;
  taken = h.taken;
  running = λ u e. ground (arith, has_task-discard_task t u g.tasks, h.running u e);
  queued = λ u e. ground (arith, has_task-discard_task t u g.tasks, h.queued u e);
  apart = h.apart;
  once = h.once;
  woken = h.woken;
  counted = ground (arith, h.counted, has_task-some t g.tasks there);
}

GateStep-IsOrdered : {g h : Gate} → GateStep g h → IsOrdered g → IsOrdered h
GateStep-IsOrdered {g} (arrives t new) ordered = arrives-IsOrdered t g new ordered
GateStep-IsOrdered {g} (wakes t rest first woken) ordered =
    wake_up-IsOrdered t rest g first woken ordered
GateStep-IsOrdered {g} (releases t runs) ordered = release-IsOrdered t g runs ordered
GateStep-IsOrdered {g} (cancels t waits) ordered = cancels-IsOrdered t g ordered
GateStep-IsOrdered {g} (leaves t there done gone) ordered =
    leaves-IsOrdered t g there done gone ordered

-- In whatever order tasks enter, begin their executions, end them, are cancelled and leave: at most
-- one execution runs at a time, and the lock is taken exactly while one runs; the tasks that run or
-- wait are registered, no task waits twice or while it runs, and the first who waits is woken exactly
-- while the lock is free. The wait of `async_stop` is over exactly while no task is registered.
pub GateReach-IsOrdered : {g : Gate} → GateReach g → IsOrdered g
GateReach-IsOrdered begun = new_gate-IsOrdered
GateReach-IsOrdered (then_step reach step) = GateStep-IsOrdered step (GateReach-IsOrdered reach)
