-- ===== src/Controller/Execute.antt =====
-- `_async_confirm_turn_off` and the loop of `_async_execute_serialized` of controller.py.
-- What happens at each `await` is an argument: the answer of the service, the states reported
-- while the shutdown is confirmed, and what other tasks have done to the controller's flags.
pub mod Targets
pub mod Loop
pub mod Calls
use Prim.Native.String.{◌++◌ as concat}
use ha_runtime_auto_off.Prelude.{
  String, Bool, false, ◌||◌, Option, none, some, List, [], ◌∷◌, ◌++◌, Dict, put, str_eq,
  if◌then◌else◌,
}
use ha_runtime_auto_off.Hass.{Hass}
use ha_runtime_auto_off.Models.{RuleConfig}
use ha_runtime_auto_off.Controller.{Controller}
use ha_runtime_auto_off.Controller.Errors.{target_runtime_error, shabbat_block_reason}

-- What a task finds when it goes on after an `await`: Home Assistant, and the flags of the
-- controller, which other tasks may have changed. Its configuration never changes.
pub record Moment : Type 0 where
  pub hass : Hass
  pub unloaded : Bool
  pub action_inhibited : Bool

-- `services.async_call` under its timeout: it returns, takes too long, or raises an exception of
-- the named type.
pub data ServiceResult : Type 0 where
  returned timed_out : ServiceResult
  raised_error : String → ServiceResult

-- `result()` of the confirmation.
unfoldable pub confirmation : Controller → String → Moment → Option String
confirmation c e m = elim (target_runtime_error c m.hass e) [
  | some error ↦ if str_eq error "already_off" then none else some (concat "post_turn_off_" error)
  | none ↦
      if m.unloaded || m.action_inhibited
      then some "controller_stopped"
      else elim (shabbat_block_reason c m.hass) [
        | some block ↦ some block
        | none ↦ some "turn_off_not_confirmed"
      ]
]

-- The outcome that keeps the loop waiting.
abbrev pub is_unconfirmed : Option String → Bool
is_unconfirmed none = false
is_unconfirmed (some s) = str_eq s "turn_off_not_confirmed"

-- `_async_confirm_turn_off`. `wakes` are the moments at which the loop looks, and `last` is the
-- moment at which the timeout ends it, if no look has.
unfoldable pub confirm_turn_off : Controller → String → List Moment → Moment → Option String
confirm_turn_off c e [] last = confirmation c e last
confirm_turn_off c e (m ∷ ms) last =
    let rest = confirm_turn_off c e ms last in
    let outcome = confirmation c e m in if is_unconfirmed outcome then rest else outcome

-- The world of one target: the moment of the checks before the call, the answer of the service if
-- it is called, and the moments of the confirmation if it returns.
pub record Turn : Type 0 where
  pub start : Moment
  pub result : ServiceResult
  pub wakes : List Moment
  pub timeout : Moment

-- The three collections of an execution, and the service calls made, in order.
pub record Tally : Type 0 where
  pub successful : List String
  pub skipped : Dict String
  pub failures : Dict String
  pub calls : List String

abbrev pub succeed : String → Tally → Tally
succeed e t = record t { successful = t.successful ++ e ∷ [] }

abbrev pub skip : String → String → Tally → Tally
skip e why t = record t { skipped = put e why t.skipped }

abbrev pub fail : String → String → Tally → Tally
fail e why t = record t { failures = put e why t.failures }

abbrev pub settle : String → Option String → Tally → Tally
settle e none t = succeed e t
settle e (some error) t = fail e error t

-- The service call for one target, and what follows it.
unfoldable pub call_service : Controller → String → Turn → Tally → Tally
call_service c e turn t =
    let t' = record t { calls = t.calls ++ e ∷ [] } in
    elim turn.result [
      | timed_out ↦ fail e "service_timeout" t'
      | raised_error type ↦ fail e type t'
      | returned ↦ settle e (confirm_turn_off c e turn.wakes turn.timeout) t'
    ]

abbrev pub check_target : Controller → String → Turn → Option String → Tally → Tally
check_target c e turn none t = call_service c e turn t
check_target c e turn (some error) t =
    if str_eq error "already_off" then skip e error t else fail e error t

-- One round of the loop over `plan.target_entities`.
unfoldable pub turn_off_target : Controller → String → Turn → Tally → Tally
turn_off_target c e turn t = elim (shabbat_block_reason c turn.start.hass) [
  | some block ↦ skip e block t
  | none ↦
      if turn.start.unloaded || turn.start.action_inhibited
      then fail e "controller_stopped" t
      else check_target c e turn (target_runtime_error c turn.start.hass e) t
]

abbrev pub no_tally : Tally
no_tally = record { successful = []; skipped = []; failures = []; calls = [] }

-- The loop; `world` says what each target meets.
unfoldable pub turn_off_targets : Controller → (String → Turn) → List String → Tally → Tally
turn_off_targets c world [] t = t
turn_off_targets c world (e ∷ es) t = turn_off_targets c world es (turn_off_target c e (world e) t)
