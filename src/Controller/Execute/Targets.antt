-- ===== src/Controller/Execute/Targets.antt =====
-- What the loop over the targets does to each of them: whom it calls, and where each one ends.
use mathlib.Core.List.{Memᴰ}
use ha_runtime_auto_off.Prelude.{
  String, ◌≡◌, ◌≢◌, ◌⊎◌, refl, sym, ◌∙◌, subst, true, false, ◌||◌, Option, none, some, List, [],
  ◌∷◌, ◌++◌, arith, contains, is_some, get, get-put, str_eq, str_eq_iff, Bool-cases, Option-cases,
  inl, inr,
}
use ha_runtime_auto_off.Controller.{Controller}
use ha_runtime_auto_off.Controller.Errors.{target_runtime_error, shabbat_block_reason}
use ha_runtime_auto_off.Controller.Execute.{
  Moment, ServiceResult, confirmation, is_unconfirmed, confirm_turn_off, Turn, Tally, succeed, skip,
  fail, settle, call_service, check_target, turn_off_target,
}

-- At the moment `m` nothing keeps the controller from switching `e` off.
abbrev pub IsCleared : Controller → String → Moment → Type 0
IsCleared c e m =
    (shabbat_block_reason c m.hass ≡ none)
    × (m.unloaded ≡ false)
    × (m.action_inhibited ≡ false)
    × (target_runtime_error c m.hass e ≡ none)

-- One of the moments at which the state of `e` is `off`, all identity checks being passed.
abbrev pub SeenOff : Controller → String → List Moment → Type 0
SeenOff c e ms = (m : Moment) × Memᴰ m ms × (target_runtime_error c m.hass e ≡ some "already_off")

pub contains-snoc :
    (y e : String) (xs : List String) → contains y (xs ++ e ∷ []) ≡ (contains y xs || str_eq e y)
unfolding contains
contains-snoc y e [] = ground arith
contains-snoc y e (x ∷ xs) = ground (arith, contains-snoc y e xs)

module _ (c : Controller) (e : String) where
  confirmation-off :
      (m : Moment)
      → confirmation c e m ≡ none
      → target_runtime_error c m.hass e ≡ some "already_off"
  unfolding confirmation
  confirmation-off m h = elim (Option-cases (target_runtime_error c m.hass e)) [
    | inl free ↦ absurd (ground arith)
    | inr (s, error) ↦ ground (arith, str_eq_iff s "already_off")
  ]

  confirm_turn_off-SeenOff :
      (ms : List Moment) (last : Moment)
      → confirm_turn_off c e ms last ≡ none
      → SeenOff c e (ms ++ last ∷ [])
  unfolding confirm_turn_off
  confirm_turn_off-SeenOff [] last h = (last, Memᴰ.head refl, confirmation-off last h)
  confirm_turn_off-SeenOff (m ∷ ms) last h =
      elim (Bool-cases (is_unconfirmed (confirmation c e m))) [
        | inl waiting ↦
            let (m', mem, off) = confirm_turn_off-SeenOff ms last (ground arith) in
            (m', Memᴰ.tail mem, off)
        | inr done ↦ (m, Memᴰ.head refl, confirmation-off m (ground arith))
      ]

abbrev pub called : String → Tally → Tally
called e t = record t { calls = t.calls ++ e ∷ [] }

-- The target is left out: skipped or failed for a reason, with no call made.
abbrev pub LeftOut : String → Tally → Tally → Type 0
LeftOut e t t' = (r : String) × ((t' ≡ skip e r t) ⊎ (t' ≡ fail e r t))

-- The call was made, and failed for a reason or was seen to work.
abbrev pub Called : Controller → String → Turn → Tally → Tally → Type 0
Called c e turn t t' =
    (turn.result ≡ ServiceResult.returned)
      × SeenOff c e (turn.wakes ++ turn.timeout ∷ [])
      × (t' ≡ succeed e (called e t))
    ⊎ (r : String) × (t' ≡ fail e r (called e t))

module _ (c : Controller) (e : String) (turn : Turn) (t : Tally) where
  settle-Called :
      (o : Option String)
      → turn.result ≡ ServiceResult.returned
      → confirm_turn_off c e turn.wakes turn.timeout ≡ o
      → Called c e turn t (settle e o (called e t))
  settle-Called none back h =
      inl (back, confirm_turn_off-SeenOff c e turn.wakes turn.timeout h, refl)
  settle-Called (some r) back h = inr (r, refl)

  call_service-at :
      (result : ServiceResult)
      → turn.result ≡ result
      → Called c e turn t (elim result [
        | ServiceResult.timed_out ↦ fail e "service_timeout" (called e t)
        | ServiceResult.raised_error type ↦ fail e type (called e t)
        | ServiceResult.returned ↦
            settle e (confirm_turn_off c e turn.wakes turn.timeout) (called e t)
      ])
  call_service-at ServiceResult.timed_out same = inr ("service_timeout", refl)
  call_service-at (ServiceResult.raised_error type) same = inr (type, refl)
  call_service-at ServiceResult.returned same =
      settle-Called (confirm_turn_off c e turn.wakes turn.timeout) same refl

  pub call_service-Called : Called c e turn t (call_service c e turn t)
  unfolding call_service
  call_service-Called = call_service-at turn.result refl

  check_target-LeftOut : (r : String) → LeftOut e t (check_target c e turn (some r) t)
  check_target-LeftOut r = elim (Bool-cases (str_eq r "already_off")) [
    | inl off ↦ (r, inl (rw off refl))
    | inr on ↦ (r, inr (rw on refl))
  ]

  left_out :
      (r : String)
      → turn_off_target c e turn t ≡ check_target c e turn (some r) t
      → LeftOut e t (turn_off_target c e turn t)
  left_out r same = subst (LeftOut e t) (sym same) (check_target-LeftOut r)

  pub turn_off_target-LeftOut :
      ¬ IsCleared c e turn.start → LeftOut e t (turn_off_target c e turn t)
  unfolding turn_off_target
  turn_off_target-LeftOut held = elim (Option-cases (shabbat_block_reason c turn.start.hass)) [
    | inr (block, shut) ↦ (block, inl (ground arith))
    | inl free ↦ elim (Bool-cases (turn.start.unloaded || turn.start.action_inhibited)) [
      | inl stopped ↦ ("controller_stopped", inr (ground arith))
      | inr going ↦ elim (Option-cases (target_runtime_error c turn.start.hass e)) [
        | inr (r, error) ↦ left_out r (ground arith)
        | inl fine ↦ absurd (held (free, ground arith, ground arith, fine))
      ]
    ]
  ]

  pub turn_off_target-call :
      IsCleared c e turn.start → turn_off_target c e turn t ≡ call_service c e turn t
  unfolding turn_off_target
  turn_off_target-call (free, loaded, allowed, fine) = ground arith

  pub IsCleared-cases : IsCleared c e turn.start ⊎ ¬ IsCleared c e turn.start
  IsCleared-cases = elim (Option-cases (shabbat_block_reason c turn.start.hass)) [
    | inr (block, shut) ↦ inr (λ h. absurd (cc (h.0, shut)))
    | inl free ↦ elim (Bool-cases (turn.start.unloaded || turn.start.action_inhibited)) [
      | inl stopped ↦ inr (λ h. absurd (ground arith))
      | inr going ↦ elim (Option-cases (target_runtime_error c turn.start.hass e)) [
        | inr (r, error) ↦ inr (λ h. absurd (cc (h.3, error)))
        | inl fine ↦ inl (free, ground arith, ground arith, fine)
      ]
    ]
  ]

-- Where `y` stands in the collections of two tallies is the same.
pub record IsSame (y : String) (t t' : Tally) : Type 0 where
  pub successful : contains y t'.successful ≡ contains y t.successful
  pub skipped : get y t'.skipped ≡ get y t.skipped
  pub failures : get y t'.failures ≡ get y t.failures
  pub calls : contains y t'.calls ≡ contains y t.calls

-- `y` stands in none of the three collections; in exactly one of them.
abbrev pub IsFresh : String → Tally → Type 0
IsFresh y t =
    (contains y t.successful ≡ false) × (get y t.skipped ≡ none) × (get y t.failures ≡ none)

abbrev pub IsOnce : String → Tally → Type 0
IsOnce y t =
    (contains y t.successful ≡ true) × (get y t.skipped ≡ none) × (get y t.failures ≡ none)
    ⊎ (contains y t.successful ≡ false)
      × (is_some (get y t.skipped) ≡ true)
      × (get y t.failures ≡ none)
    ⊎ (contains y t.successful ≡ false)
      × (get y t.skipped ≡ none)
      × (is_some (get y t.failures) ≡ true)

module _ (y e : String) (t : Tally) where
  pub skip-IsSame : (r : String) → e ≢ y → IsSame y t (skip e r t)
  skip-IsSame r other = ground (arith, get-put e y r t.skipped, str_eq_iff e y)

  pub fail-IsSame : (r : String) → e ≢ y → IsSame y t (fail e r t)
  fail-IsSame r other = ground (arith, get-put e y r t.failures, str_eq_iff e y)

  pub succeed-IsSame : e ≢ y → IsSame y t (succeed e t)
  succeed-IsSame other = ground (arith, contains-snoc y e t.successful, str_eq_iff e y)

  pub called-IsSame : e ≢ y → IsSame y t (called e t)
  called-IsSame other = ground (arith, contains-snoc y e t.calls, str_eq_iff e y)

pub IsSame-trans :
    {y : String} {t t' t'' : Tally} → IsSame y t t' → IsSame y t' t'' → IsSame y t t''
IsSame-trans h h' = record {
  successful = h'.successful ∙ h.successful;
  skipped = h'.skipped ∙ h.skipped;
  failures = h'.failures ∙ h.failures;
  calls = h'.calls ∙ h.calls;
}

pub skip-IsOnce : (y r : String) (t : Tally) → IsFresh y t → IsOnce y (skip y r t)
skip-IsOnce y r t h = inr (inl (h.0, ground (arith, get-put y y r t.skipped, str_eq_iff y y), h.2))

pub fail-IsOnce : (y r : String) (t : Tally) → IsFresh y t → IsOnce y (fail y r t)
fail-IsOnce y r t h = inr (inr (h.0, h.1, ground (arith, get-put y y r t.failures, str_eq_iff y y)))

pub succeed-IsOnce : (y : String) (t : Tally) → IsFresh y t → IsOnce y (succeed y t)
succeed-IsOnce y t h =
    inl (ground (arith, contains-snoc y y t.successful, str_eq_iff y y), h.1, h.2)
