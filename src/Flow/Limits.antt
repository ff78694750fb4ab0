-- ===== src/Flow/Limits.antt =====
-- Which durations and references `_accept_delay` lets through.
use ha_runtime_auto_off.Prelude.{
  ℕ, ◌≤◌, String, ◌≡◌, ◌⊎◌, refl, true, false, Option, none, some, [], is_empty, arith, str_eq,
  Bool-cases, Option-cases, inl, inr,
}
use ha_runtime_auto_off.Hass.{Hass}
use ha_runtime_auto_off.Models.{TriggerPolicy}
use ha_runtime_auto_off.Flow.Duration.{ℤ, pos, negsuc}
use ha_runtime_auto_off.Flow.{
  Working, is_valid_delay, is_valid_retry_interval, trigger_policy_of, starts_with, resolve_shabbat,
  set_delay, accept_delay,
}

-- At least `least`, and at most thirty days.
abbrev pub IsWithin : ℕ → ℤ → Type 0
IsWithin least (pos n) = (least ≤ n) × (n ≤ 2592000000000)
IsWithin least (negsuc n) = ⊥

valid-IsWithin : (z : ℤ) → is_valid_delay z ≡ true → IsWithin 0 z
valid-IsWithin (pos n) h = (omega arith, ground arith)
valid-IsWithin (negsuc n) h = ground arith

valid_retry-IsWithin : (z : ℤ) → is_valid_retry_interval z ≡ true → IsWithin 1 z
valid_retry-IsWithin (pos n) h = (ground arith, ground arith)
valid_retry-IsWithin (negsuc n) h = ground arith

-- The sensor is none, or a binary sensor that the reference leads to.
abbrev pub IsSensor : (String → Option String) → Option String → Option String → Type 0
IsSensor resolve reference none = Unit
IsSensor resolve reference (some e) =
    (r : String) × (reference ≡ some r)
    × (resolve r ≡ some e)
    × (starts_with "binary_sensor." e ≡ true)

IsSensor-found :
    (resolve : String → Option String) (reference e : Option String)
    → resolve_shabbat resolve reference ≡ some e
    → IsSensor resolve reference e
IsSensor-found resolve reference none h = tt
IsSensor-found resolve none (some e) h = absurd (ground arith)
IsSensor-found resolve (some r) (some e) h = elim (Bool-cases (str_eq r "")) [
  | inl blank ↦ absurd (ground arith)
  | inr given ↦ elim (Option-cases (resolve r)) [
    | inl missing ↦ absurd (ground arith)
    | inr (e', found) ↦ elim (Bool-cases (starts_with "binary_sensor." e')) [
      | inl sensor ↦ (r, refl, ground arith, ground arith)
      | inr other ↦ absurd (ground arith)
    ]
  ]
]

module _ (hass : Hass) (resolve : String → Option String) (delay retry : ℤ) (policy : String)
    (reference : Option String) (w : Working) where
  -- The durations and the sensor are stored only within their limits: a delay from nothing to
  -- thirty days, a retry interval that is positive and at most as long, a known policy, and no
  -- sensor or a binary sensor that the reference leads to; or else an error is reported and
  -- nothing changes.
  pub accept_delay-IsWithin :
      ((p : TriggerPolicy) × (e : Option String) × (accept_delay hass resolve delay retry policy
            reference w
          ≡ record { working = set_delay hass delay retry p e w; errors = [] })
        × IsWithin 0 delay
        × IsWithin 1 retry
        × (trigger_policy_of policy ≡ some p)
        × IsSensor resolve reference e)
      ⊎ (is_empty (accept_delay hass resolve delay retry policy reference w).errors ≡ false)
        × ((accept_delay hass resolve delay retry policy reference w).working ≡ w)
  unfolding accept_delay
  accept_delay-IsWithin = elim (Bool-cases (is_valid_delay delay)) [
    | inr long ↦ inr (rw long (refl, refl))
    | inl fits ↦ elim (Bool-cases (is_valid_retry_interval retry)) [
      | inr long ↦ inr (rw (fits, long) (refl, refl))
      | inl again ↦ elim (Option-cases (trigger_policy_of policy)) [
        | inl unknown ↦ inr (rw (fits, again, unknown) (refl, refl))
        | inr (p, known) ↦ elim (Option-cases (resolve_shabbat resolve reference)) [
          | inl missing ↦ inr (rw (fits, again, known, missing) (refl, refl))
          | inr (e, found) ↦ inl (
            p,
            e,
            rw (fits, again, known, found) refl,
            valid-IsWithin delay fits,
            valid_retry-IsWithin retry again,
            known,
            IsSensor-found resolve reference e found,
          )
        ]
      ]
    ]
  ]
