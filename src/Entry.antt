-- ===== src/Entry.antt =====
-- custom_components/runtime_auto_off/__init__.py: how an entry is set up and unloaded. The
-- platforms, the registries and the reader of entity references belong to Home Assistant.
pub mod Unload
pub mod Resume
pub mod Refused
pub mod Leftover
pub mod Setup
use ha_runtime_auto_off.Prelude.{
  ℕ, String, Bool, true, false, not, Option, none, some, str_eq, if◌then◌else◌,
}
use ha_runtime_auto_off.Hass.{Hass}
use ha_runtime_auto_off.Models.Values.{
  Number, Value, text, array, Items, nil, cons, Fields, end, field, DatetimeText,
}
use ha_runtime_auto_off.Models.Rule.{from_mapping}
use ha_runtime_auto_off.Controller.{Controller, ExecutionPlan, init}
use ha_runtime_auto_off.Controller.Handlers.{
  Outcome, Reading, Executed, async_setup, async_stop, async_unload, async_resume,
}

-- `config[key] = value`
unfoldable pub put_field : String → Value → Fields → Fields
put_field k v end = field k v end
put_field k v (field j w fs) = if str_eq j k then field j v fs else field j w (put_field k v fs)

-- `{**data, **options}`
unfoldable pub merge : Fields → Fields → Fields
merge base end = base
merge base (field k v fs) = merge (put_field k v base) fs

-- `resolve`: a reference that is not valid stays as it is.
abbrev pub resolve_reference : (String → Option String) → String → String
resolve_reference validate reference = elim (validate reference) [ none ↦ reference | some e ↦ e ]

abbrev pub resolve_item : (String → Option String) → Value → Value
resolve_item validate (text s) = text (resolve_reference validate s)
resolve_item validate v = v

unfoldable pub resolve_items : (String → Option String) → Items → Items
resolve_items validate nil = nil
resolve_items validate (cons v vs) = cons (resolve_item validate v) (resolve_items validate vs)

-- The two references of a configuration, by key.
abbrev pub resolve_value : (String → Option String) → String → Value → Value
resolve_value validate key (array vs) =
    if str_eq key "entities" then array (resolve_items validate vs) else array vs
resolve_value validate key (text s) =
    if str_eq key "shabbat_entity" then text (resolve_reference validate s) else text s
resolve_value validate key v = v

unfoldable pub resolve_fields : (String → Option String) → Fields → Fields
resolve_fields validate end = end
resolve_fields validate (field k v fs) =
    field k (resolve_value validate k v) (resolve_fields validate fs)

-- `_resolve_runtime_config`
abbrev pub resolve_runtime_config : (String → Option String) → Fields → Fields → Fields
resolve_runtime_config validate base options = resolve_fields validate (merge base options)

-- What a handler of the entry leaves: the controller, the execution that it awaited, and its
-- result, with `none` for an exception.
pub record EntryResult : Type 0 where
  pub controller : Controller
  pub plan : Option ExecutionPlan
  pub result : Option Bool

-- `async_unload_platforms`: all unloaded, one refused, or an exception.
pub data Platforms : Type 0 where
  unloaded refused raised_error : Platforms

-- What other tasks make of the controller while a stop waits for the lock, and while it waits for
-- the executions.
pub record Others : Type 0 where
  pub before : Controller → Controller
  pub behind : Controller → Controller

module _ (dt : DatetimeText) (execute : ExecutionPlan → Controller → Executed) where
  -- `async_setup_entry`, from the setup of the platforms on; `forwarded` is whether that succeeds.
  -- After a failed setup of the controller it is unloaded: `store_ok` is for what that saves, and
  -- others may run meanwhile.
  unfoldable pub set_up :
      (forwarded : Bool)
      → Option (Option Fields)
      → ℕ
      → Reading
      → Others
      → Bool
      → Controller
      → EntryResult
  set_up forwarded stored at w others store_ok c =
      let o = async_setup dt execute stored at w c in
      let undone = async_unload dt others.before others.behind store_ok o.controller in
      if not forwarded
      then record { controller = c; plan = none; result = none }
      else if o.raised
      then record { controller = undone.controller; plan = o.plan; result = none }
      else record { controller = o.controller; plan = o.plan; result = some true }

  -- The whole of it; `none` is the `ValueError` of a rule without entities.
  unfoldable pub async_setup_entry :
      (String → Option Number)
      → (String → Option String)
      → Hass
      → String
      → Fields
      → Fields
      → (forwarded : Bool) → Option (Option Fields)
      → ℕ
      → Reading
      → Others
      → Bool
      → Option EntryResult
  async_setup_entry read validate hass id base options forwarded stored at w others store_ok =
      elim (init hass id (from_mapping read (resolve_runtime_config validate base options))) [
        | none ↦ none
        | some c ↦ some (set_up forwarded stored at w others store_ok c)
      ]

  abbrev pub resumed : Option Bool → Outcome → EntryResult
  resumed result o = record {
    controller = o.controller;
    plan = o.plan;
    result = if o.raised then none else result;
  }

  -- The controller behind the first stop of `async_unload_entry`; `platform_tasks` is what others
  -- make of it while the platforms unload.
  abbrev pub stopped :
      Others → (platform_tasks : Controller → Controller) → Bool → Controller → Controller
  stopped others platform_tasks store_ok c =
      platform_tasks (async_stop dt others.before others.behind store_ok c).controller

  -- `async_unload_entry`; `again` and `again_ok` are for the second stop.
  unfoldable pub async_unload_entry :
      Others
      → (platform_tasks : Controller → Controller) → (again : Others) → (store_ok again_ok : Bool)
      → Platforms
      → ℕ
      → Reading
      → Controller
      → EntryResult
  async_unload_entry others platform_tasks again store_ok again_ok platforms rearm_now w c =
      let d = stopped others platform_tasks store_ok c in
      elim platforms [
        | unloaded ↦ record {
          controller = (async_unload dt again.before again.behind again_ok d).controller;
          plan = none;
          result = some true;
        }
        | refused ↦ resumed (some false) (async_resume dt execute rearm_now w d)
        | raised_error ↦ resumed none (async_resume dt execute rearm_now w d)
      ]
