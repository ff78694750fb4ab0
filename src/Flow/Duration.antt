-- ===== src/Flow/Duration.antt =====
-- `_seconds_to_duration` and `_duration_to_seconds` of config_flow.py. Seconds are counted in
-- microseconds, as elsewhere, and the units of a duration are whole numbers, which may be negative
-- in what a form hands over.
use ha_runtime_auto_off.Prelude.{
  ℕ, zero, suc, ◌+◌, ◌-◌, ◌*◌, ◌/◌, ◌%◌, ◌≡◌, ap, ◌∙◌, String, not, ◌||◌, none, some, [], ◌∷◌, ◌++◌,
  Dict, get, leb, ◌==◌, is_empty, arith, if◌then◌else◌,
}

-- Whole numbers; `negsuc n` is -(n + 1).
pub data ℤ : Type 0 where
  pos negsuc : ℕ → ℤ

abbrev minus : ℕ → ℕ → ℤ
minus a b = if leb b a then pos (a - b) else negsuc (b - suc a)

abbrev pub +ℤ : ℤ → ℤ → ℤ
+ℤ (pos a) (pos b) = pos (a + b)
+ℤ (pos a) (negsuc b) = minus a (suc b)
+ℤ (negsuc a) (pos b) = minus b (suc a)
+ℤ (negsuc a) (negsuc b) = negsuc (suc (a + b))

-- `n` times a unit of `u + 1`.
abbrev pub times : ℕ → ℤ → ℤ
times u (pos n) = pos (n * suc u)
times u (negsuc n) = negsuc (n * suc u + u)

-- `result[unit] = n` if `n` is not 0, on a fresh dictionary: each unit comes once.
abbrev pub unit : String → ℕ → Dict ℤ
unit name n = if n == 0 then [] else (name, pos n) ∷ []

-- The dictionary of the four numbers.
abbrev pub fields_of : ℕ → ℕ → ℕ → ℕ → Dict ℤ
fields_of d h m s =
    let front = unit "days" d ++ unit "hours" h ++ unit "minutes" m in
    front ++ (if not (s == 0) || is_empty front then ("seconds", pos s) ∷ [] else [])

unfoldable pub seconds_to_duration : ℕ → Dict ℤ
seconds_to_duration seconds =
    let remaining = seconds / 1000000 in
    fields_of (remaining / 86400) (remaining % 86400 / 3600) (remaining % 86400 % 3600 / 60)
      (remaining % 86400 % 3600 % 60)

-- A negative number of whole seconds, -(n + 1): `divmod` rounds down, so that the days are negative
-- and the rest is not.
abbrev pub negative_fields : ℕ → Dict ℤ
negative_fields n =
    let rest = 86399 - n % 86400 in
    ("days", negsuc (n / 86400)) ∷ unit "hours" (rest / 3600)
    ++ unit "minutes" (rest % 3600 / 60)
    ++ unit "seconds" (rest % 3600 % 60)

abbrev pub shown_fields : ℕ → Dict ℤ
shown_fields zero = fields_of 0 0 0 0
shown_fields (suc n) = negative_fields n

-- `_seconds_to_duration` of a stored time, which may be negative; `int` rounds towards 0.
unfoldable pub shown_duration : ℤ → Dict ℤ
shown_duration (pos n) = seconds_to_duration n
shown_duration (negsuc n) = shown_fields (suc n / 1000000)

-- `value.get(unit, 0)`
abbrev pub get_unit : String → Dict ℤ → ℤ
get_unit name value = elim (get name value) [ none ↦ pos 0 | some n ↦ n ]

unfoldable pub duration_to_seconds : Dict ℤ → ℤ
unfolding get
duration_to_seconds value = +ℤ (times 86399999999 (get_unit "days" value)) (
    +ℤ (times 3599999999 (get_unit "hours" value)) (
      +ℤ (times 59999999 (get_unit "minutes" value))
        (+ℤ (times 999999 (get_unit "seconds" value)) (times 999 (get_unit "milliseconds" value)))))

module _ (d h m s : ℕ) where
  days_of : get_unit "days" (fields_of d h m s) ≡ pos d
  unfolding get
  days_of = ground arith

  hours_of : get_unit "hours" (fields_of d h m s) ≡ pos h
  unfolding get
  hours_of = ground arith

  minutes_of : get_unit "minutes" (fields_of d h m s) ≡ pos m
  unfolding get
  minutes_of = ground arith

  seconds_of : get_unit "seconds" (fields_of d h m s) ≡ pos s
  unfolding get
  seconds_of = ground arith

  milliseconds_of : get_unit "milliseconds" (fields_of d h m s) ≡ pos 0
  unfolding get
  milliseconds_of = ground arith

sum_of :
    (v : Dict ℤ) (d h m s : ℕ)
    → get_unit "days" v ≡ pos d
    → get_unit "hours" v ≡ pos h
    → get_unit "minutes" v ≡ pos m
    → get_unit "seconds" v ≡ pos s
    → get_unit "milliseconds" v ≡ pos 0
    → duration_to_seconds v ≡ pos ((((d * 86400 + h * 3600) + m * 60) + s) * 1000000)
unfolding duration_to_seconds
sum_of v d h m s days hours minutes seconds millis =
    rw (days, hours, minutes, seconds, millis) (ap pos (omega arith))

split_seconds :
    (n : ℕ)
    → ((n / 86400 * 86400 + n % 86400 / 3600 * 3600) + n % 86400 % 3600 / 60 * 60)
        + n % 86400 % 3600 % 60
      ≡ n
split_seconds n = omega arith

-- The form shows the whole seconds of a time, and reads them back.
pub duration_to_seconds-seconds_to_duration :
    (seconds : ℕ)
    → duration_to_seconds (seconds_to_duration seconds) ≡ pos (seconds / 1000000 * 1000000)
unfolding seconds_to_duration
duration_to_seconds-seconds_to_duration seconds =
    let n = seconds / 1000000 in
    let d = n / 86400 in
    let h = n % 86400 / 3600 in
    let m = n % 86400 % 3600 / 60 in
    let s = n % 86400 % 3600 % 60 in
    sum_of (fields_of d h m s) d h m s (days_of d h m s) (hours_of d h m s) (minutes_of d h m s)
      (seconds_of d h m s) (milliseconds_of d h m s)
    ∙ ap (λ k. pos (k * 1000000)) (split_seconds n)
