-- ===== src/Controller/Handlers.antt =====
-- The public methods and callbacks of controller.py, up to the execution that they start. Each
-- stretch under `_lock` is one function: nothing else that takes the lock runs in between.
use ha_runtime_auto_off.Prelude.{
  ℕ, String, Bool, true, false, not, ◌&&◌, ◌||◌, Option, none, some, List, [], ◌∷◌, ◌++◌, is_none,
  is_some, if◌then◌else◌,
}
use ha_runtime_auto_off.Hass.{Hass}
use ha_runtime_auto_off.Models.{Status, ActivityEvent, ActivityEventType, ActivityData}
use ha_runtime_auto_off.Models.Values.{Value, Fields, DatetimeText}
use ha_runtime_auto_off.Controller.{Controller, ExecutionPlan}
use ha_runtime_auto_off.Controller.Deadline.{cancel_deadline}
use ha_runtime_auto_off.Controller.Sync.{sync_cycles}
use ha_runtime_auto_off.Controller.Rearm.{rearm_interrupted, apply_retry_interval_change}
use ha_runtime_auto_off.Controller.Reconcile.{Reconciled, new_activity, reconcile}
use ha_runtime_auto_off.Controller.Save.{Saved, save, restore}

-- What others see of a method: `_notify_state_listeners`, `_publish_activity`, and the payload
-- given to `Store.async_save`.
pub data Effect : Type 0 where
  notify : Effect
  publish : ActivityEvent → Effect
  store : Value → Effect

-- After a method: the controller, the effects in order, the plan that `_async_execute` is called
-- with next, and whether an exception leaves the method.
pub record Outcome : Type 0 where
  pub controller : Controller
  pub effects : List Effect
  pub plan : Option ExecutionPlan
  pub raised : Bool

-- What one stretch under the lock reads: Home Assistant, the clock for `_sync_cycles_locked`, for
-- the argument `now`, and for a new activity, and the outcome of the store.
pub record Reading : Type 0 where
  pub hass : Hass
  pub sync_now : ℕ
  pub now : ℕ
  pub stamp : ℕ
  pub store_ok : Bool

abbrev pub unchanged : Controller → Outcome
unchanged c = record { controller = c; effects = []; plan = none; raised = false }

abbrev pub store_effects : Option Value → List Effect
store_effects none = []
store_effects (some v) = store v ∷ []

abbrev pub publish_effects : Option ActivityEvent → List Effect
publish_effects none = []
publish_effects (some a) = publish a ∷ []

-- The common end: save, and if that succeeds notify, publish and execute.
abbrev pub conclude : Option ActivityEvent → Option ExecutionPlan → Saved → Outcome
conclude activity plan saved =
    if saved.failed
    then record { controller = saved.controller; effects = []; plan = none; raised = true }
    else record {
      controller = saved.controller;
      effects = store_effects saved.stored ++ notify ∷ publish_effects activity;
      plan = plan;
      raised = false;
    }

abbrev pub subscribe : Controller → Controller
subscribe c = record c { unsub_state = true }

abbrev pub unsubscribe : Controller → Controller
unsubscribe c = record c { unsub_state = false }

abbrev pub cancel_startup : Controller → Controller
cancel_startup c = record c { unsub_started = false }

unfoldable pub rollback_failed_setup : Controller → Controller
rollback_failed_setup c = record (cancel_deadline (cancel_startup (unsubscribe c))) {
  cycles = [];
  setup_complete = false;
  unloaded = true;
  action_inhibited = true;
}

abbrev pub roll_back : Controller → Outcome
roll_back c = record {
  controller = rollback_failed_setup c;
  effects = [];
  plan = none;
  raised = true;
}

-- An activity for a countdown that is gone.
abbrev pub is_cancelled : Option ℕ → Reconciled → Bool
is_cancelled previous r =
    is_none r.activity && is_some previous && is_none r.controller.next_deadline && is_none r.plan

abbrev pub cancelled_event : String → ℕ → ActivityEvent
cancelled_event reason stamp =
    new_activity ActivityEventType.cancelled stamp (ActivityData.reason reason)

abbrev pub note_activity : ActivityEvent → Controller → Controller
note_activity a c = record c { last_activity = some a }

-- The end of a setup on a running Home Assistant, from the save on.
unfoldable pub setup_end : Reconciled → Saved → Outcome
setup_end r saved =
    let done = saved.controller in
    if saved.failed then roll_back done else record {
      controller = record done { action_inhibited = not done.enabled };
      effects = store_effects saved.stored ++ notify ∷ publish_effects r.activity;
      plan = r.plan;
      raised = false;
    }

abbrev pub set_complete : Controller → Controller
set_complete c = record c { setup_complete = true }

-- `async_stop` before the lock. The waiters that it wakes read the flags.
unfoldable pub stop_begin : Controller → Controller
stop_begin c =
    let c' = cancel_startup (unsubscribe c) in
    if c.unloaded then c' else record c' { unloaded = true; action_inhibited = true }

-- The end of `async_unload`, behind `async_stop`.
unfoldable pub unload_end : Controller → Controller
unload_end c = record c { setup_complete = false }

-- What `async_resume` undoes when it fails.
unfoldable pub rollback_resume : Controller → Controller
rollback_resume c = record (cancel_deadline (cancel_startup (unsubscribe c))) {
  unloaded = true;
  action_inhibited = true;
}

unfoldable pub resume_begin : Controller → Controller
resume_begin c = record (subscribe c) { unloaded = false; action_inhibited = not c.enabled }

-- A start that happened while the rule was stopped is made up for at `now`.
unfoldable pub resume_armed : ℕ → Controller → Controller
resume_armed now c =
    if c.starting then (rearm_interrupted now (record c { starting = false })).controller else c

-- The end of a resumption, from the save on.
unfoldable pub resume_end : Reconciled → Saved → Outcome
resume_end r saved =
    if saved.failed
    then record {
      controller = rollback_resume saved.controller;
      effects = [];
      plan = none;
      raised = true;
    }
    else conclude r.activity r.plan saved

module _ (dt : DatetimeText) where
  -- Setup on a running Home Assistant, behind the restoring.
  unfoldable pub setup_running : Reading → Controller → Outcome
  setup_running w c =
      let synced = sync_cycles w.hass w.sync_now none c in
      let armed = (rearm_interrupted w.now synced).controller in
      let r = reconcile w.hass w.now w.stamp armed in
      setup_end r (save dt true w.store_ok (set_complete r.controller))

  -- Setup while Home Assistant is starting: the rest is left to `_async_started`.
  unfoldable pub setup_starting : Controller → Outcome
  setup_starting c = record {
    controller = record c {
      starting = true;
      setup_complete = true;
      action_inhibited = not c.enabled;
      status = if c.enabled then c.status else Status.disabled;
      unsub_started = true;
    };
    effects = notify ∷ [];
    plan = none;
    raised = false;
  }

  -- `async_setup` up to the execution. `stored` is what the store loads, and `none` where loading raises.
  unfoldable pub setup_until_execution : Option (Option Fields) → ℕ → Reading → Controller → Outcome
  setup_until_execution none interval_now w c = roll_back c
  setup_until_execution (some stored) interval_now w c =
      let restored = restore dt stored (record (subscribe c) { unloaded = false }) in
      let changed = apply_retry_interval_change interval_now restored in
      if changed.overflowed
      then roll_back changed.controller
      else if not w.hass.running
      then setup_starting changed.controller
      else setup_running w changed.controller

  unfoldable pub async_started : Reading → Controller → Outcome
  async_started w c =
      let c' = record c { unsub_started = false } in
      let synced = sync_cycles w.hass w.sync_now none (record c' { starting = false }) in
      let armed = (rearm_interrupted w.now synced).controller in
      let r = reconcile w.hass w.now w.stamp armed in
      if c.unloaded || not c.starting
      then unchanged c'
      else conclude r.activity r.plan (save dt true w.store_ok r.controller)

  -- `async_stop` under the lock; a failure of the store is only logged.
  unfoldable pub stop_locked : Bool → Controller → Outcome
  stop_locked store_ok c =
      let saved = save dt true store_ok (cancel_deadline c) in
      record {
        controller = saved.controller;
        effects = store_effects saved.stored;
        plan = none;
        raised = false;
      }

  -- The whole method. Other tasks run while it waits for the lock, and while it waits for the
  -- executions: what they make of the controller is `before` and `behind`.
  unfoldable pub async_stop :
      (before behind : Controller → Controller) → Bool → Controller → Outcome
  async_stop before behind store_ok c =
      let begun = stop_begin c in
      let locked = stop_locked store_ok (before begun) in
      if c.unloaded
      then unchanged (behind begun)
      else record locked { controller = behind locked.controller }

  unfoldable pub async_unload :
      (before behind : Controller → Controller) → Bool → Controller → Outcome
  async_unload before behind store_ok c =
      let stopped = async_stop before behind store_ok c in
      record stopped { controller = unload_end stopped.controller }

  -- `async_resume` up to the execution. `rearm_now` is the time read for the rearming, and `w.now` that for the reconciling.
  unfoldable pub resume_until_execution : ℕ → Reading → Controller → Outcome
  resume_until_execution rearm_now w c =
      let c' = resume_begin c in
      let armed = resume_armed rearm_now (sync_cycles w.hass w.sync_now none c') in
      let r = reconcile w.hass w.now w.stamp armed in
      if not c.setup_complete || not c.unloaded
      then unchanged c
      else if c.starting && not w.hass.running
      then unchanged (record c' { unsub_started = true })
      else resume_end r (save dt false w.store_ok r.controller)

-- What is there when `_async_execute` is over: the controller, and whether an exception leaves it.
-- Other tasks run during an execution, so that this is an argument.
pub record Executed : Type 0 where
  pub controller : Controller
  pub raised : Bool

-- The end of `async_setup` and of `async_resume`, from the execution on, with what they undo.
unfoldable pub run_plan :
    (Controller → Controller) → (ExecutionPlan → Controller → Executed) → Outcome → Outcome
run_plan rollback execute o = elim o.plan [
  | none ↦ o
  | some plan ↦
      let e = execute plan o.controller in
      record o {
        controller = if e.raised then rollback e.controller else e.controller;
        raised = e.raised;
      }
]

module _ (dt : DatetimeText) (execute : ExecutionPlan → Controller → Executed) where
  unfoldable pub async_setup : Option (Option Fields) → ℕ → Reading → Controller → Outcome
  async_setup stored interval_now w c =
      run_plan rollback_failed_setup execute (setup_until_execution dt stored interval_now w c)

  unfoldable pub async_resume : ℕ → Reading → Controller → Outcome
  async_resume rearm_now w c =
      run_plan rollback_resume execute (resume_until_execution dt rearm_now w c)
