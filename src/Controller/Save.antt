-- ===== src/Controller/Save.antt =====
-- `_async_save_locked` and `_restore_locked` of controller.py, and the payload between them.
pub mod Roundtrip
use ha_runtime_auto_off.Prelude.{
  ℕ, suc, String, Bool, true, false, not, ◌&&◌, ◌||◌, Option, none, some, List, [], ◌∷◌, Dict, get,
  put, values, str_eq, str_lt, str_le, ◌==◌, is_none, if◌then◌else◌,
}
use ha_runtime_auto_off.Models.{RuntimeCycle, RuleConfig, LastExecution}
use ha_runtime_auto_off.Models.Values.{
  Number, pos, negsuc, infinity, neg_infinity, nan, Value, null, bool, number, text, array, object,
  Items, nil, cons, Fields, end, field, get_field, DatetimeText,
}
use ha_runtime_auto_off.Models.Cycle.{cycle_as_dict, cycle_from_dict}
use ha_runtime_auto_off.Models.Execution.{execution_as_dict, execution_from_dict}
use ha_runtime_auto_off.Controller.{Controller}

-- `sorted(cycles, key=lambda item: item.stable_key)`, a stable sort.
unfoldable pub insert_cycle : RuntimeCycle → List RuntimeCycle → List RuntimeCycle
unfolding str_le
insert_cycle c [] = c ∷ []
insert_cycle c (d ∷ ds) =
    let rest = d ∷ insert_cycle c ds in
    if str_lt d.stable_key c.stable_key then rest else c ∷ d ∷ ds

unfoldable pub sort_cycles : List RuntimeCycle → List RuntimeCycle
unfolding insert_cycle
sort_cycles [] = []
sort_cycles (c ∷ cs) = insert_cycle c (sort_cycles cs)

module _ (dt : DatetimeText) where
  unfoldable pub cycle_items : List RuntimeCycle → Items
  cycle_items [] = nil
  cycle_items (c ∷ cs) = cons (object (cycle_as_dict dt c)) (cycle_items cs)

  abbrev pub execution_value : Option LastExecution → Value
  execution_value none = null
  execution_value (some e) = object (execution_as_dict dt e)

  unfoldable pub payload : Controller → Value
  payload c = object (
      field "enabled" (bool c.enabled) (
        field "retry_interval_seconds" (number (pos c.config.retry_interval_seconds)) (
          field "cycles" (array (cycle_items (sort_cycles (values c.cycles))))
            (field "last_execution" (execution_value c.last_execution) end))))

-- `==` of numbers; a number that is not one equals none.
abbrev num_eq : Number → Number → Bool
num_eq (pos a) (pos b) = a == b
num_eq (negsuc a) (negsuc b) = a == b
num_eq infinity infinity = true
num_eq neg_infinity neg_infinity = true
num_eq _ _ = false

abbrev bool_eq : Bool → Bool → Bool
bool_eq true b = b
bool_eq false b = not b

abbrev count_fields : Fields → ℕ
count_fields end = 0
count_fields (field k v fs) = suc (count_fields fs)

abbrev has_field : String → Fields → Bool
has_field k end = false
has_field k (field j v fs) = str_eq j k || has_field k fs

-- `==` of payloads; dictionaries are compared without regard to order. (Payloads hold no number
-- where others hold a Boolean, so that `True == 1` does not matter.)
unfoldable mutual
  pub value_eq : Value → Value → Bool
  value_eq null null = true
  value_eq (bool a) (bool b) = bool_eq a b
  value_eq (number a) (number b) = num_eq a b
  value_eq (text a) (text b) = str_eq a b
  value_eq (array xs) (array ys) = items_eq xs ys
  value_eq (object fs) (object gs) = (count_fields fs == count_fields gs) && fields_within fs gs
  value_eq _ _ = false

  pub items_eq : Items → Items → Bool
  items_eq nil nil = true
  items_eq (cons x xs) (cons y ys) = value_eq x y && items_eq xs ys
  items_eq _ _ = false

  pub fields_within : Fields → Fields → Bool
  fields_within end gs = true
  fields_within (field k v fs) gs =
      has_field k gs && value_eq v (get_field k gs) && fields_within fs gs

abbrev pub is_saved : Value → Option Value → Bool
is_saved new none = false
is_saved new (some old) = value_eq new old

-- The controller, what was handed to `Store.async_save`, and whether that raised.
pub record Saved : Type 0 where
  pub controller : Controller
  pub stored : Option Value
  pub failed : Bool

module _ (dt : DatetimeText) where
  -- `store_ok` is the outcome of `Store.async_save`, if it is called.
  unfoldable pub save : (force store_ok : Bool) → Controller → Saved
  save force store_ok c =
      let new = payload dt c in
      if not force && is_saved new c.last_saved_payload
      then record { controller = c; stored = none; failed = false }
      else if store_ok
      then record {
        controller = record c { last_saved_payload = some new };
        stored = some new;
        failed = false;
      }
      else record { controller = c; stored = none; failed = true }

  abbrev pub restored_enabled : Value → Bool → Bool
  restored_enabled (bool b) old = b
  restored_enabled _ old = old

  -- A finite number that is not negative.
  abbrev pub restored_interval : Value → Option ℕ → Option ℕ
  restored_interval (number (pos n)) old = some n
  restored_interval _ old = old

  abbrev pub add_cycle : Option RuntimeCycle → Dict RuntimeCycle → Dict RuntimeCycle
  add_cycle none cycles = cycles
  add_cycle (some cycle) cycles = put cycle.stable_key cycle cycles

  unfoldable pub restored_items : Items → Dict RuntimeCycle → Dict RuntimeCycle
  restored_items nil cycles = cycles
  restored_items (cons (object fs) vs) cycles =
      restored_items vs (add_cycle (cycle_from_dict dt fs) cycles)
  restored_items (cons _ vs) cycles = restored_items vs cycles

  abbrev pub restored_cycles : Value → Dict RuntimeCycle → Dict RuntimeCycle
  restored_cycles (array vs) cycles = restored_items vs cycles
  restored_cycles _ cycles = cycles

  abbrev pub restored_execution : Value → Option LastExecution → Option LastExecution
  restored_execution (object fs) old = execution_from_dict dt fs
  restored_execution _ old = old

  -- `none` is a store with no file.
  unfoldable pub restore : Option Fields → Controller → Controller
  restore none c = c
  restore (some stored) c = record c {
    enabled = restored_enabled (get_field "enabled" stored) c.enabled;
    stored_retry_interval =
        restored_interval (get_field "retry_interval_seconds" stored) c.stored_retry_interval;
    cycles = restored_cycles (get_field "cycles" stored) c.cycles;
    last_execution = restored_execution (get_field "last_execution" stored) c.last_execution;
  }
