-- ===== src/Controller/Events.antt =====
-- `async_set_enabled`, `_async_state_changed` and `_async_deadline_reached` of controller.py, up to
-- the execution that they start.
pub mod Once
pub mod Unsaved
use ha_runtime_auto_off.Prelude.{
  ℕ, String, Bool, true, false, not, ◌&&◌, ◌||◌, Option, none, some, List, [], ◌∷◌, ◌++◌, ◌==◌,
  if◌then◌else◌,
}
use ha_runtime_auto_off.Hass.{Hass}
use ha_runtime_auto_off.Models.{Status}
use ha_runtime_auto_off.Models.Values.{DatetimeText}
use ha_runtime_auto_off.Controller.{Controller}
use ha_runtime_auto_off.Controller.Deadline.{cancel_deadline}
use ha_runtime_auto_off.Controller.Sync.{StateEvent, sync_cycles}
use ha_runtime_auto_off.Controller.Reconcile.{Reconciled, reconcile}
use ha_runtime_auto_off.Controller.Save.{save}
use ha_runtime_auto_off.Controller.Handlers.{
  Outcome, Reading, notify, unchanged, store_effects, conclude, is_cancelled, cancelled_event,
  note_activity,
}

-- `a == b` of Booleans.
abbrev pub same : Bool → Bool → Bool
same true b = b
same false b = not b

-- `async_set_enabled` before the lock. The waiters that it wakes read the flag.
unfoldable pub inhibit : Bool → Controller → Controller
inhibit enabled c = if enabled then c else record c { action_inhibited = true }

unfoldable pub enable : Reading → Controller → Reconciled
enable w c =
    let c' = record c { action_inhibited = false } in
    if c.starting
    then record {
      controller = record c' { status = Status.initializing };
      plan = none;
      activity = none;
    }
    else reconcile w.hass w.now w.stamp (sync_cycles w.hass w.sync_now none c')

unfoldable pub disable : Reading → Controller → Reconciled
disable w c =
    let event = cancelled_event "controller_disabled" w.stamp in
    record {
      controller = note_activity event (record (cancel_deadline c) { status = Status.disabled });
      plan = none;
      activity = some event;
    }

module _ (dt : DatetimeText) where
  -- `async_set_enabled` under the lock.
  unfoldable pub set_enabled_locked : Reading → Bool → Controller → Outcome
  set_enabled_locked w enabled c =
      let c' = record c { enabled = enabled } in
      let r = if enabled then enable w c' else disable w c' in
      if c.unloaded || same enabled c.enabled
      then unchanged c
      else conclude r.activity r.plan (save dt false w.store_ok r.controller)

  -- The whole method, where nothing runs while it waits for the lock.
  unfoldable pub async_set_enabled : Reading → Bool → Controller → Outcome
  async_set_enabled w enabled c = set_enabled_locked w enabled (inhibit enabled c)

  -- While starting: the cycles follow the event, and nothing is reconciled.
  unfoldable pub state_changed_starting : Reading → StateEvent → Controller → Outcome
  state_changed_starting w event c =
      conclude none none (save dt false w.store_ok (sync_cycles w.hass w.sync_now (some event) c))

  unfoldable pub state_changed_running : Reading → StateEvent → Controller → Outcome
  state_changed_running w event c =
      let r = reconcile w.hass w.now w.stamp (sync_cycles w.hass w.sync_now (some event) c) in
      let cancelled = cancelled_event "no_pending_active_cycle" w.stamp in
      if is_cancelled c.next_deadline r
      then conclude (some cancelled) none
          (save dt false w.store_ok (note_activity cancelled r.controller))
      else conclude r.activity r.plan (save dt false w.store_ok r.controller)

  unfoldable pub async_state_changed : Reading → StateEvent → Controller → Outcome
  async_state_changed w event c =
      if not c.setup_complete || c.unloaded
      then unchanged c
      else if c.starting
      then state_changed_starting w event c
      else state_changed_running w event c

  -- `w.now` is the time that the timer hands over.
  unfoldable pub async_deadline_reached : ℕ → Reading → Controller → Outcome
  async_deadline_reached generation w c =
      let c' = record c { unsub_deadline = none; next_deadline = none } in
      let r = reconcile w.hass w.now w.stamp (sync_cycles w.hass w.sync_now none c') in
      if c.unloaded || not (generation == c.timer_generation)
      then unchanged c
      else conclude r.activity r.plan (save dt false w.store_ok r.controller)
