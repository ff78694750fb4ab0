-- ===== src/Tests/Tasks.antt =====
-- Two executions, of which the second waits for the first.
use ha_runtime_auto_off.Prelude.{◌≡◌, refl, true, false, [], ◌∷◌}
use ha_runtime_auto_off.Controller.Tasks.{
  has_task, add_task, discard_task, wake_up, wakes, Gate, new_gate, enter, acquire, release,
  GateReach, begun, then_step, arrives, releases,
}
use ha_runtime_auto_off.Controller.Tasks.Ordered.{IsOrdered, GateReach-IsOrdered}

abbrev one_runs : Gate
one_runs = acquire 1 (enter 1 new_gate)

abbrev two_wait : Gate
two_wait = acquire 2 (enter 2 one_runs)

one_new : has_task 1 new_gate.tasks ≡ false
unfolding has_task
one_new = refl

two_new : has_task 2 one_runs.tasks ≡ false
unfolding has_task acquire enter add_task
two_new = refl

one_in : has_task 1 two_wait.running ≡ true
unfolding has_task acquire enter
one_in = refl

abbrev one_done : Gate
one_done = release 1 two_wait

second_waits : one_done.waiting ≡ 2 ∷ []
unfolding release acquire enter
second_waits = refl

second_woken : one_done.woken ≡ true
unfolding release acquire enter
second_woken = refl

second_runs : (wake_up 2 [] one_done).running ≡ 2 ∷ []
unfolding wake_up release discard_task acquire enter
second_runs = refl

two_tasks : GateReach (wake_up 2 [] one_done)
two_tasks =
    then_step
      (then_step (then_step (then_step begun (arrives 1 one_new)) (arrives 2 two_new))
        (releases 1 one_in))
      (wakes 2 [] second_waits second_woken)

GateReach-IsOrdered_example : IsOrdered (wake_up 2 [] one_done)
GateReach-IsOrdered_example = GateReach-IsOrdered two_tasks
