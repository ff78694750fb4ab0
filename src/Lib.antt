-- ===== src/Lib.antt =====
-- Verification library of SmplWise Runtime Auto-Off, a Home Assistant integration that switches
-- the entities of a rule off when one of them has been on for too long.
--
-- The program (paths from the repository's root, in custom_components/runtime_auto_off/):
-- controller.py keeps one controller per rule. It holds a cycle for each entity that is on: since
-- when, whether an execution has claimed it, and when it is tried again. Every event (a state
-- change, the timer, a switch, the start of Home Assistant) takes the lock, matches the cycles to
-- the states, reconciles (counts down to a deadline, or claims all cycles for one execution), saves
-- and publishes; an execution then calls the services and takes the lock once more to record the
-- outcome and arm the retry. __init__.py sets a controller up for each entry, and config_flow.py
-- asks for the rule. models.py has the records and their dictionaries, and helpers.py finds the
-- area of an entity.
--
-- Where it is modelled:
-- - Prelude.antt and its children: tests, lists, texts in Python's order, and dictionaries in the
--   order of insertion.
-- - Hass.antt: what is read of Home Assistant, which is not code of the repository: the states, the
--   registries and the services are an argument of the definitions.
-- - Models.antt and its children: models.py. RuleConfig.from_mapping and as_dict are in
--   Models/Rule.antt, RuntimeCycle.as_dict and from_dict in Models/Cycle.antt, those of
--   LastExecution in Models/Execution.antt, ActivityEvent.as_dict in Models/Activity.antt, the
--   checks of `__post_init__` in Models/Checked.antt, and the readers of values in
--   Models/Values.antt. The isoformat of times and its parser are the record DatetimeText, and
--   `float` of a text is an argument.
-- - Helpers.antt: effective_area_id of helpers.py. The walk to the parents takes one unit of fuel
--   for each device, and two more; Helpers/Area.antt shows that this is enough.
-- - Controller.antt: the fields and the constructor of RuntimeAutoOffController. A method is a
--   function from the controller to what it returns and the new controller, without `_locked` and
--   leading underscores: Errors (_identity_or_area_error, _target_runtime_error,
--   _shabbat_block_reason), Deadline (the timer), Sync (_sync_cycles_locked), Rearm
--   (_rearm_interrupted_cycles_locked, _apply_retry_interval_change_locked), Reconcile
--   (_reconcile_locked), Save (_async_save_locked, _restore_locked), Handlers (async_setup,
--   _async_started, async_stop, async_unload, async_resume), Events (async_set_enabled,
--   _async_state_changed, _async_deadline_reached), Execute (_async_confirm_turn_off and the loop
--   over the targets), Finish (_async_execute and _async_execute_serialized around it).
-- - Controller/Steps.antt: the controller as a transition system. A step is a stretch of a method
--   in which nothing else writes the controller, and steps follow in any order.
-- - Controller/Restart.antt: a stop, the next setup and the start of Home Assistant together.
-- - Controller/Tasks.antt and its child: the tasks that run executions, their lock, and the event
--   that async_stop waits for.
-- - Controller/Starts.antt and its children: the starts of the clocks over the steps.
-- - Controller/Timed.antt and Controller/Sound.antt: the lemmas of the invariant.
-- - Flow.antt and its children: config_flow.py, the durations (Flow/Duration.antt), the entities
--   that are offered, the methods _accept_room, _accept_entities and _accept_delay, and the steps of
--   both flows with the values that their forms start from (Flow/Steps.antt). Flow/Walk.antt has
--   the walks through the two flows, Flow/Unchanged.antt and its children a walk in which each form
--   is handed in as it is shown, Flow/Stored.antt the options that a flow stores, and
--   Flow/Handover.antt what __init__.py and models.py read of them. `async_resolve_entity_id` of
--   the registry is an argument.
-- - Entry.antt and its children: _resolve_runtime_config, async_setup_entry and async_unload_entry
--   of __init__.py. What other tasks make of the controller while a stop waits is an argument, and
--   Controller/Stopped.antt has the steps that they may take then.
-- - Sensors.antt and its children: the properties of the controller that its entities read, and what
--   sensor.py, binary_sensor.py and switch.py show; the attributes and identities of entity.py and
--   device.py (Sensors/Attributes.antt), the listeners of the controller and the entities of
--   entity.py and event.py that are such listeners (Sensors/Listeners.antt), and the diagnostics of
--   controller.py and diagnostics.py (Sensors/Diagnostics.antt).
-- - Tests.antt and its children: a rule over a lamp and a fan, and the theorems applied to it.
--
-- Conventions. A time is the number of microseconds since the first `datetime`, and a duration is
-- a number of microseconds: both are what `datetime` and `timedelta` hold, and the flow of the
-- configuration lets no negative duration pass. What a handler reads after an `await` is an argument
-- (`Reading`, `Moment`, `Turn`), so that every interleaving is covered. An exception of the store is
-- the flag `store_ok`, and an exception that leaves a handler is the flag `raised` of its outcome.
-- The recursion of an execution on its follow-up plan is in the outcome, as the plan.
-- async_setup and async_resume are cut where their execution begins (setup_until_execution,
-- resume_until_execution), and what the execution leaves is an argument of the whole method.
--
-- Not modelled: times past the year 9999 outside the change of the retry interval (the sums of
-- RuntimeCycle.deadline and of a new retry then raise an OverflowError, while the flow keeps a
-- duration below thirty days); the drawing of the forms; the calls of the platforms, and
-- the base classes of the entities, which belong to Home Assistant; logging; translations and
-- images.
pub mod Prelude
pub mod Models
pub mod Hass
pub mod Helpers
pub mod Controller
pub mod Flow
pub mod Entry
pub mod Sensors
pub mod Tests
