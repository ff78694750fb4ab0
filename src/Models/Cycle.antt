-- ===== src/Models/Cycle.antt =====
-- `RuntimeCycle.as_dict` and `RuntimeCycle.from_dict` of models.py.
use ha_runtime_auto_off.Prelude.{ℕ, String, ◌≡◌, refl, ap, Bool, false, Option, none, some, arith}
use ha_runtime_auto_off.Models.{RuntimeCycle}
use ha_runtime_auto_off.Models.Values.{
  Value, null, bool, text, Fields, end, field, get_field, optional_string, DatetimeText, aware,
  aware_time, parse_datetime,
}

-- `value.isoformat() if value else None`
abbrev pub time_value : DatetimeText → Option ℕ → Value
time_value dt none = null
time_value dt (some t) = text (dt.isoformat t)

-- `x is True`
abbrev pub is_true : Value → Bool
is_true (bool b) = b
is_true _ = false

module _ (dt : DatetimeText) where
  unfoldable pub cycle_as_dict : RuntimeCycle → Fields
  cycle_as_dict c = field "stable_key" (text c.stable_key) (
      field "entity_id" (text c.entity_id) (
        field "started_at" (text (dt.isoformat c.started_at))
          (field "handled" (bool c.handled) (field "retry_at" (time_value dt c.retry_at) end))))

  -- The last checks of `from_dict`, on the values read.
  abbrev pub build_cycle :
      Option String → Option String → Option ℕ → Bool → Value → Option RuntimeCycle
  build_cycle (some key) (some entity) (some started) handled null = some (record {
    stable_key = key;
    entity_id = entity;
    started_at = started;
    handled = handled;
    retry_at = none;
  })
  build_cycle (some key) (some entity) (some started) handled raw = elim (parse_datetime dt raw) [
    | none ↦ none
    | some at ↦ some (record {
      stable_key = key;
      entity_id = entity;
      started_at = started;
      handled = handled;
      retry_at = some at;
    })
  ]
  build_cycle _ _ _ _ _ = none

  unfoldable pub cycle_from_dict : Fields → Option RuntimeCycle
  unfolding get_field optional_string parse_datetime
  cycle_from_dict fs =
      build_cycle (optional_string (get_field "stable_key" fs))
        (optional_string (get_field "entity_id" fs)) (parse_datetime dt (get_field "started_at" fs))
        (is_true (get_field "handled" fs)) (get_field "retry_at" fs)

-- A text that `_optional_string` returns as it is.
abbrev pub IsClean : String → Type 0
IsClean s = optional_string (text s) ≡ some s

-- The reader of times takes back what the writer of times writes.
abbrev pub ReadsBack : DatetimeText → ℕ → Type 0
ReadsBack dt t = dt.parse (dt.isoformat t) ≡ aware t

module _ (dt : DatetimeText) (reads : (t : ℕ) → ReadsBack dt t) where
  build_cycle-time_value :
      (key entity : String) (started : ℕ) (handled : Bool) (at : Option ℕ)
      → build_cycle dt (some key) (some entity) (some started) handled (time_value dt at)
        ≡ some (record {
          stable_key = key;
          entity_id = entity;
          started_at = started;
          handled = handled;
          retry_at = at;
        })
  unfolding parse_datetime
  build_cycle-time_value key entity started handled none = refl
  build_cycle-time_value key entity started handled (some t) = ground (arith, reads t)

  -- A cycle with clean texts is read back from its dictionary as it was, if times are read back
  -- as they are written.
  pub cycle_from_dict-cycle_as_dict :
      (c : RuntimeCycle)
      → IsClean c.stable_key
      → IsClean c.entity_id
      → cycle_from_dict dt (cycle_as_dict dt c) ≡ some c
  unfolding cycle_from_dict cycle_as_dict
  cycle_from_dict-cycle_as_dict c k e = cc (
    k,
    e,
    ap aware_time (reads c.started_at),
    build_cycle-time_value c.stable_key c.entity_id c.started_at c.handled c.retry_at,
  )
