-- ===== src/Tests/Unloads.antt =====
-- The rule of the tests set up and unloaded, with other tasks under way.
use ha_runtime_auto_off.Prelude.{
  ◌≤◌, ◌<◌, ◌≡◌, ◌⊎◌, refl, true, false, none, some, [], ◌∷◌, get, put, pop, values, map_values,
  keep_keys, contains, is_some, arith,
}
use ha_runtime_auto_off.Hass.{get_device}
use ha_runtime_auto_off.Helpers.{walk, device_area, effective_area_id}
use ha_runtime_auto_off.Controller.{Controller, ExecutionPlan}
use ha_runtime_auto_off.Controller.Errors.{
  entry_error, identity_or_area_error, shabbat_block_reason,
}
use ha_runtime_auto_off.Controller.Deadline.{cancel_deadline}
use ha_runtime_auto_off.Controller.Sync.{
  StateEvent, sync_state, sync_entities, sync_cycles, track_active,
}
use ha_runtime_auto_off.Controller.Reconcile.{min_cycle, pending, trigger_of}
use ha_runtime_auto_off.Controller.Save.{save}
use ha_runtime_auto_off.Controller.Handlers.{
  Executed, stop_begin, stop_locked, async_stop, resume_begin, resume_armed, setup_until_execution,
  run_plan, async_setup,
}
use ha_runtime_auto_off.Controller.Events.{async_state_changed}
use ha_runtime_auto_off.Controller.Finish.{unclaim_all, execute_blocked}
use ha_runtime_auto_off.Controller.Steps.{state_changed, blocked}
use ha_runtime_auto_off.Controller.Stopped.{here, next}
use ha_runtime_auto_off.Entry.{Platforms, Others, set_up, stopped, async_unload_entry}
use ha_runtime_auto_off.Entry.Unload.{IsQuiet, AreSteps, async_unload_entry-IsQuiet}
use ha_runtime_auto_off.Entry.Setup.{set_up-IsQuiet}
use ha_runtime_auto_off.Entry.Refused.{refusal, async_unload_entry-GoesOn}
use ha_runtime_auto_off.Entry.Resume.{trigger, due_at, IsRunning, IsCounting, ready}
use ha_runtime_auto_off.Entry.Leftover.{
  unloading, due_at as left_at, IsLeft, async_unload_entry-IsLeft,
}
use ha_runtime_auto_off.Tests.{lamp, fan, both_on, fresh, tally_text, active, cycle_of}
use ha_runtime_auto_off.Tests.Running.{lamp_cycle, fan_cycle}
use ha_runtime_auto_off.Tests.Executions.{counting}
use ha_runtime_auto_off.Tests.Entries.{working}

-- An execution that an exception leaves.
abbrev breaking : ExecutionPlan → Controller → Executed
breaking plan c = record { controller = c; raised = true }

-- The lamp reports `on` again.
abbrev lamp_event : StateEvent
lamp_event = record { entity_id = lamp; new_state = both_on.states lamp }

abbrev reporting : Controller → Controller
reporting c = (async_state_changed tally_text (working 60) lamp_event c).controller

abbrev gate_then : Controller → Controller
gate_then c = (execute_blocked tally_text (working 60) c).controller

abbrev others : Others
others = record { before = gate_then; behind = reporting }

reporting-steps : AreSteps tally_text false reporting
reporting-steps c = next here (state_changed (working 60) lamp_event) refl

gate-steps : AreSteps tally_text true gate_then
gate-steps c = next here (blocked (working 60)) refl

async_unload_entry-IsQuiet_example :
    IsQuiet
      (async_unload_entry tally_text breaking others reporting others true true Platforms.unloaded
        100
        (working 100)
        counting).controller
    × ((async_unload_entry tally_text breaking others reporting others true true Platforms.unloaded
          100
          (working 100)
          counting).controller.setup_complete
        ≡ false)
async_unload_entry-IsQuiet_example =
    async_unload_entry-IsQuiet tally_text breaking others others reporting true true 100
      (working 100) counting refl gate-steps reporting-steps reporting-steps reporting-steps

-- The store cannot be loaded.
set_up_failed :
    (set_up tally_text breaking true none 50 (working 50) others true fresh).result ≡ none
unfolding set_up async_setup setup_until_execution run_plan
set_up_failed = refl

set_up-IsQuiet_example :
    (true ≡ false)
      × ((set_up tally_text breaking true none 50 (working 50) others true fresh).controller
          ≡ fresh)
    ⊎ ((async_setup tally_text breaking none 50 (working 50) fresh).controller.cycles ≡ [])
      × IsQuiet (set_up tally_text breaking true none 50 (working 50) others true fresh).controller
set_up-IsQuiet_example =
    set_up-IsQuiet tally_text breaking (working 50) others true none 50 true fresh reporting-steps
      set_up_failed

-- Only reports come in while the entry is unloaded.
abbrev reports : Others
reports = record { before = λ c. c; behind = reporting }

idle-steps : AreSteps tally_text true (λ c. c)
idle-steps c = here

abbrev halted : Controller
halted = stopped tally_text breaking reports reporting true counting

resumed_free : shabbat_block_reason (ready 50 (working 50) halted) both_on ≡ none
unfolding shabbat_block_reason resume_armed resume_begin sync_cycles async_stop async_state_changed
    stop_begin stop_locked cancel_deadline save
resumed_free = refl

resumed_pending : pending (ready 50 (working 50) halted) ≡ lamp_cycle ∷ fan_cycle ∷ []
unfolding resume_armed resume_begin sync_cycles sync_entities sync_state track_active
    identity_or_area_error entry_error effective_area_id device_area walk get_device contains get
    put pop values keep_keys async_stop async_state_changed stop_begin stop_locked cancel_deadline
    save
resumed_pending = refl

-- The lamp has gone off while an execution was under way, and the fan is left.
abbrev fan_left : Controller
fan_left = record (active true) { cycles = ("id-fan", cycle_of "id-fan" fan 20 true none) ∷ [] }

abbrev fan_locked : Controller
fan_locked = (stop_locked tally_text true (stop_begin fan_left)).controller

fan_free : shabbat_block_reason (unclaim_all fan_locked) both_on ≡ none
unfolding shabbat_block_reason stop_locked stop_begin cancel_deadline save
fan_free = refl

fan_pending : pending (unclaim_all fan_locked) ≡ fan_cycle ∷ []
unfolding values map_values stop_locked stop_begin cancel_deadline save
fan_pending = refl

-- The refusal at 50, before the lamp's deadline at 70.
async_unload_entry-GoesOn_example :
    (50 < due_at tally_text breaking 50 (working 50) halted lamp_cycle (fan_cycle ∷ []))
      × IsRunning counting
          (refusal tally_text breaking reports reports reporting true true 50
            (working 50)
            counting
            lamp_cycle
            (fan_cycle ∷ [])).controller
      × IsCounting
          (trigger tally_text breaking 50 (working 50) halted lamp_cycle (fan_cycle ∷ []))
          (ready 50 (working 50) halted)
          (refusal tally_text breaking reports reports reporting true true 50
            (working 50)
            counting
            lamp_cycle
            (fan_cycle ∷ [])).controller
      × ((refusal tally_text breaking reports reports reporting true true 50
            (working 50)
            counting
            lamp_cycle
            (fan_cycle ∷ [])).plan
          ≡ none)
      × ((refusal tally_text breaking reports reports reporting true true 50
            (working 50)
            counting
            lamp_cycle
            (fan_cycle ∷ [])).result
          ≡ some false)
    ⊎ (due_at tally_text breaking 50 (working 50) halted lamp_cycle (fan_cycle ∷ []) ≤ 50)
      × (is_some
            (refusal tally_text breaking reports reports reporting true true 50
              (working 50)
              counting
              lamp_cycle
              (fan_cycle ∷ [])).plan
          ≡ true)
async_unload_entry-GoesOn_example =
    async_unload_entry-GoesOn tally_text breaking reports reports reporting true true 50
      (working 50) counting lamp_cycle (fan_cycle ∷ []) refl refl refl idle-steps reporting-steps
      reporting-steps refl refl resumed_free resumed_pending

fan_ahead :
    75 < left_at tally_text breaking true true 100 (working 100) (working 75) fan_left fan_cycle []
unfolding stop_locked stop_begin cancel_deadline save trigger_of min_cycle
fan_ahead = omega arith

async_unload_entry-IsLeft_example :
    IsLeft
      (left_at tally_text breaking true true 100 (working 100) (working 75) fan_left fan_cycle [])
      (unloading tally_text breaking true true 100
        (working 100)
        (working 75)
        fan_left
        fan_cycle
        []).controller
    × ((unloading tally_text breaking true true 100
          (working 100)
          (working 75)
          fan_left
          fan_cycle
          []).result
        ≡ some true)
async_unload_entry-IsLeft_example =
    async_unload_entry-IsLeft tally_text breaking true true 100 (working 100) (working 75) fan_left
      fan_cycle [] refl refl fan_free fan_pending fan_ahead
