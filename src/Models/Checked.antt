-- ===== src/Models/Checked.antt =====
-- `__post_init__` of the records of models.py: the checks on what their constructors are given. A
-- constructor that raises `ValueError` gives `none` here.
use ha_runtime_auto_off.Prelude.{
  ℕ, String, ◌≡◌, refl, ap, Bool, false, ◌||◌, Option, none, some, List, if◌then◌else◌, Dict, arith,
}
use ha_runtime_auto_off.Models.{
  RuleConfig, TriggerPolicy, RuntimeCycle, LastExecution, ActivityEventType, ActivityData,
  ActivityEvent,
}
use ha_runtime_auto_off.Models.Values.{
  Value, null, bool, number, text, array, object, Fields, get_field, is_blank, nonempty, strip,
  optional_string, DatetimeText, parse_datetime, string_sequence, string_mapping,
}
use ha_runtime_auto_off.Models.Rule.{policy_of, policy_value}
use ha_runtime_auto_off.Models.Cycle.{build_cycle, cycle_from_dict, is_true}
use ha_runtime_auto_off.Models.Execution.{build_execution, execution_from_dict}

-- A `datetime`: with a time zone it is a moment, which `as_utc` keeps; `tzinfo` may be absent.
pub data Datetime : Type 0 where
  naive : ℕ → Datetime
  aware : ℕ → Datetime

-- `as_utc(t)` under the check of `tzinfo`.
abbrev pub as_utc : Datetime → Option ℕ
as_utc (naive t) = none
as_utc (aware t) = some t

-- A retry time may be absent; the outer `none` is the error.
abbrev pub optional_utc : Option Datetime → Option (Option ℕ)
optional_utc none = some none
optional_utc (some (naive t)) = none
optional_utc (some (aware t)) = some (some t)

abbrev pub checked_cycle :
    String → String → Bool → Option ℕ → Option (Option ℕ) → Option RuntimeCycle
checked_cycle key entity handled (some started) (some retry) = some (record {
  stable_key = key;
  entity_id = entity;
  started_at = started;
  handled = handled;
  retry_at = retry;
})
checked_cycle key entity handled _ _ = none

-- `RuntimeCycle(key, entity_id, started_at, handled, retry_at)`
unfoldable pub make_cycle :
    String → String → Datetime → Bool → Option Datetime → Option RuntimeCycle
make_cycle key entity started handled retry =
    if is_blank key || is_blank entity
    then none
    else checked_cycle key entity handled (as_utc started) (optional_utc retry)

abbrev pub checked_execution :
    String → Option ℕ → List String → Dict String → Dict String → Option LastExecution
checked_execution trigger (some occurred) successes skipped failed = some (record {
  trigger_entity = trigger;
  occurred_at = occurred;
  successful_entities = successes;
  skipped_entities = skipped;
  failed_entities = failed;
})
checked_execution trigger none successes skipped failed = none

-- `LastExecution(trigger, occurred_at, successes, skipped, failed)`
unfoldable pub make_execution :
    String → Datetime → List String → Dict String → Dict String → Option LastExecution
make_execution trigger occurred successes skipped failed =
    if is_blank trigger
    then none
    else checked_execution trigger (as_utc occurred) successes skipped failed

-- `ActivityEvent(event_type, occurred_at, data)`
unfoldable pub make_activity : ActivityEventType → Datetime → ActivityData → Option ActivityEvent
make_activity kind (naive t) content = none
make_activity kind (aware t) content =
    some (record { event_type = kind; occurred_at = t; content = content })

-- `self.delay_seconds if self.retry_interval_seconds is None else ...`
abbrev pub or_delay : ℕ → Option ℕ → ℕ
or_delay delay none = delay
or_delay delay (some interval) = interval

-- `RuleConfig(...)`, whose retry interval may be absent and whose policy may be any value.
unfoldable pub make_rule :
    String
    → Option String
    → List String
    → ℕ
    → String
    → Option ℕ
    → Value
    → Option String
    → RuleConfig
make_rule name area entities delay id retry policy shabbat = record {
  name = name;
  area_id = area;
  entities = entities;
  delay_seconds = delay;
  rule_id = id;
  retry_interval_seconds = or_delay delay retry;
  trigger_policy = policy_of policy;
  shabbat_entity = shabbat;
}

-- `replace(config, rule_id=id)`, which goes through the constructor.
unfoldable pub replace_rule_id : String → RuleConfig → RuleConfig
unfolding make_rule
replace_rule_id id c =
    make_rule c.name c.area_id c.entities c.delay_seconds id (some c.retry_interval_seconds)
      (policy_value c.trigger_policy) c.shabbat_entity

policy_of-policy_value : (p : TriggerPolicy) → policy_of (policy_value p) ≡ p
policy_of-policy_value TriggerPolicy.first = refl
policy_of-policy_value TriggerPolicy.last = refl

-- The constructor leaves the other fields of a rule as they are.
pub replace_rule_id_lem :
    (id : String) (c : RuleConfig) → replace_rule_id id c ≡ record c { rule_id = id }
unfolding replace_rule_id make_rule
replace_rule_id_lem id c =
    ap (λ p. record c { rule_id = id; trigger_policy = p })
      (policy_of-policy_value c.trigger_policy)

nonempty-blank : (s t : String) → nonempty s ≡ some t → is_blank t ≡ false
nonempty-blank String.[] t eq = ground arith
nonempty-blank (String.◌∷◌ c s) t eq = ground arith

-- A text that `_optional_string` returns is not empty.
pub optional_string-blank :
    (v : Value) → (t : String) → optional_string v ≡ some t → is_blank t ≡ false
unfolding optional_string
optional_string-blank (text s) t eq = nonempty-blank (strip s) t eq
optional_string-blank null t eq = ground arith
optional_string-blank (bool b) t eq = ground arith
optional_string-blank (number n) t eq = ground arith
optional_string-blank (array vs) t eq = ground arith
optional_string-blank (object fs) t eq = ground arith

-- Every text present is not empty.
abbrev IsNamed : Option String → Type 0
IsNamed none = Unit
IsNamed (some s) = is_blank s ≡ false

optional_string-IsNamed : (v : Value) → IsNamed (optional_string v)
optional_string-IsNamed v = named (optional_string v) (λ t eq. optional_string-blank v t eq)
  where
    named : (o : Option String) → ((t : String) → o ≡ some t → is_blank t ≡ false) → IsNamed o
    named none h = tt
    named (some t) h = h t refl

abbrev datetime_of : Option ℕ → Option Datetime
datetime_of none = none
datetime_of (some t) = some (aware t)

-- The arguments with which a record is built again.
abbrev pub rebuilt_cycle : RuntimeCycle → Option RuntimeCycle
rebuilt_cycle c =
    make_cycle c.stable_key c.entity_id (aware c.started_at) c.handled (datetime_of c.retry_at)

abbrev pub rebuilt_execution : LastExecution → Option LastExecution
rebuilt_execution e =
    make_execution e.trigger_entity (aware e.occurred_at) e.successful_entities e.skipped_entities
      e.failed_entities

retry_given : (at : Option ℕ) → optional_utc (datetime_of at) ≡ some at
retry_given none = refl
retry_given (some t) = refl

-- A cycle with a key and an entity is built.
pub rebuilt_cycle-named :
    (c : RuntimeCycle)
    → is_blank c.stable_key ≡ false
    → is_blank c.entity_id ≡ false
    → rebuilt_cycle c ≡ some c
unfolding make_cycle
rebuilt_cycle-named c k e = rw (k, e, retry_given c.retry_at) refl

pub rebuilt_execution-named :
    (e : LastExecution) → is_blank e.trigger_entity ≡ false → rebuilt_execution e ≡ some e
unfolding make_execution
rebuilt_execution-named e t = rw t refl

module _ (dt : DatetimeText) where
  build_cycle-rebuilt :
      (key entity : Option String) (started : Option ℕ) (handled : Bool) (raw : Value)
      (c : RuntimeCycle)
      → IsNamed key
      → IsNamed entity
      → build_cycle dt key entity started handled raw ≡ some c
      → rebuilt_cycle c ≡ some c
  unfolding parse_datetime
  build_cycle-rebuilt (some key) (some entity) (some at) handled null c k e eq =
      rebuilt_cycle-named c (ground (arith, k)) (ground (arith, e))
  build_cycle-rebuilt (some key) (some entity) (some at) handled (text s) c k e eq =
      rebuilt_cycle-named c (ground (arith, k)) (ground (arith, e))
  build_cycle-rebuilt key entity started handled raw c k e eq = ground arith

  -- No dictionary makes the constructor raise: a cycle that is read satisfies its checks.
  pub cycle_from_dict-rebuilt :
      (fs : Fields) (c : RuntimeCycle) → cycle_from_dict dt fs ≡ some c → rebuilt_cycle c ≡ some c
  unfolding cycle_from_dict
  cycle_from_dict-rebuilt fs c =
      build_cycle-rebuilt (optional_string (get_field "stable_key" fs))
        (optional_string (get_field "entity_id" fs)) (parse_datetime dt (get_field "started_at" fs))
        (is_true (get_field "handled" fs)) (get_field "retry_at" fs) c
        (optional_string-IsNamed (get_field "stable_key" fs))
        (optional_string-IsNamed (get_field "entity_id" fs))

  build_execution-rebuilt :
      (trigger : Option String) (occurred : Option ℕ) (successes : List String)
      (skipped failed : Option (Dict String)) (e : LastExecution)
      → IsNamed trigger
      → build_execution dt trigger occurred successes skipped failed ≡ some e
      → rebuilt_execution e ≡ some e
  build_execution-rebuilt (some t) (some at) successes (some s) (some f) e named eq =
      rebuilt_execution-named e (ground (arith, named))
  build_execution-rebuilt trigger occurred successes skipped failed e named eq = ground arith

  -- The same of an execution that is read.
  pub execution_from_dict-rebuilt :
      (fs : Fields) (e : LastExecution)
      → execution_from_dict dt fs ≡ some e
      → rebuilt_execution e ≡ some e
  unfolding execution_from_dict
  execution_from_dict-rebuilt fs e =
      build_execution-rebuilt (optional_string (get_field "trigger_entity" fs))
        (parse_datetime dt (get_field "occurred_at" fs))
        (string_sequence (get_field "successful_entities" fs))
        (string_mapping (get_field "skipped_entities" fs))
        (string_mapping (get_field "failed_entities" fs)) e
        (optional_string-IsNamed (get_field "trigger_entity" fs))
