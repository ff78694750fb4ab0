-- ===== src/Controller/Deadline.antt =====
-- `_schedule_deadline_locked` and `_cancel_deadline_locked` of controller.py.
use ha_runtime_auto_off.Prelude.{ℕ, ◌+◌, ◌&&◌, none, some, is_some, opt_nat_eq, if◌then◌else◌}
use ha_runtime_auto_off.Controller.{Controller}

unfoldable pub cancel_deadline : Controller → Controller
cancel_deadline c = record c {
  timer_generation = c.timer_generation + 1;
  unsub_deadline = none;
  next_deadline = none;
  next_shutdown_kind = none;
}

-- The rest of `_schedule_deadline_locked`, behind `_cancel_deadline_locked`.
abbrev start_timer : ℕ → Controller → Controller
start_timer due c = record c {
  timer_generation = c.timer_generation + 1;
  next_deadline = some due;
  unsub_deadline = some (record { generation = c.timer_generation + 1; due = due });
}

unfoldable pub schedule_deadline : ℕ → Controller → Controller
unfolding cancel_deadline
schedule_deadline due c =
    if is_some c.unsub_deadline && opt_nat_eq c.next_deadline (some due)
    then c
    else start_timer due (cancel_deadline c)
