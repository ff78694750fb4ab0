-- ===== src/Controller/Sync/Clock.antt =====
-- When `_sync_cycles_locked` keeps, ends and starts the runtime clock of an entity.
use ha_runtime_auto_off.Prelude.{
  ℕ, min, String, ◌≡◌, ◌↔◌, ◌⊎◌, refl, ◌∙◌, true, false, Option, none, some, is_some, arith, get,
  ap, subst, sym, str_eq_iff, inl, inr, Bool-cases,
}
use ha_runtime_auto_off.Hass.{HaState, Hass}
use ha_runtime_auto_off.Models.{RuntimeCycle, new_cycle}
use ha_runtime_auto_off.Controller.{Controller}
use ha_runtime_auto_off.Controller.Errors.{is_lost, is_off, identity_or_area_error}
use ha_runtime_auto_off.Controller.Sync.{StateEvent, observed, renamed, sync_cycles}
use ha_runtime_auto_off.Controller.Sync.Cycles.{Tracks, next_cycle, get-sync_cycles}

-- A state that was reported, and is `off`.
abbrev pub IsOff : Option HaState → Type 0
IsOff none = ⊥
IsOff (some s) = s.state ≡ "off"

-- The cycle goes on: all but the entity's name is as it was.
abbrev pub GoesOn : String → RuntimeCycle → Option RuntimeCycle → Type 0
GoesOn e old none = ⊥
GoesOn e old (some new) =
    (new.started_at ≡ old.started_at)
    × (new.handled ≡ old.handled)
    × (new.retry_at ≡ old.retry_at)
    × (new.stable_key ≡ old.stable_key)
    × (new.entity_id ≡ e)

next_cycle_ends :
    (now : ℕ) (k e : String) (error : Option String) (state : Option HaState) (old : RuntimeCycle)
    → (is_some error ≡ true) ⊎ IsOff state
    → next_cycle now k e error state (some old) ≡ none
unfolding next_cycle
next_cycle_ends now k e (some x) state old h = refl
next_cycle_ends now k e none none old h = ground arith
next_cycle_ends now k e none (some s) old h = elim h [
  | inl no_error ↦ absurd (ground arith)
  | inr off ↦ ground (arith, ap is_lost off, ap is_off off)
]

renamed-GoesOn : (e : String) (old : RuntimeCycle) → GoesOn e old (some (renamed e old))
renamed-GoesOn e old = ground (arith, str_eq_iff old.entity_id e)

next_cycle-GoesOn :
    (now : ℕ) (k e : String) (error : Option String) (state : Option HaState) (old : RuntimeCycle)
    → error ≡ none
    → ¬ IsOff state
    → GoesOn e old (next_cycle now k e error state (some old))
unfolding next_cycle
next_cycle-GoesOn now k e (some x) state old h n = absurd (ground arith)
next_cycle-GoesOn now k e none none old h n = renamed-GoesOn e old
next_cycle-GoesOn now k e none (some s) old h n = elim (Bool-cases (is_off s.state)) [
  | inl off ↦ absurd (n ((str_eq_iff s.state "off").0 off))
  | inr on ↦ ground (arith, renamed-GoesOn e old)
]

-- The entity passes the checks and reports an active state, at which `new` begins.
abbrev pub Begins : ℕ → String → String → Option String → Option HaState → RuntimeCycle → Type 0
Begins now k e error state new =
    (error ≡ none)
    × ((s : HaState) × (state ≡ some s)
        × (is_lost s.state ≡ false)
        × (is_off s.state ≡ false)
        × (new ≡ new_cycle k e (min s.last_changed now)))

next_cycle-Begins :
    (now : ℕ) (k e : String) (error : Option String) (state : Option HaState) (new : RuntimeCycle)
    → (next_cycle now k e error state none ≡ some new) ↔ Begins now k e error state new
unfolding next_cycle
next_cycle-Begins now k e (some x) state new =
    (λ p. absurd (ground arith), λ q. absurd (ground arith))
next_cycle-Begins now k e none none new = (λ p. absurd (ground arith), λ q. absurd (ground arith))
next_cycle-Begins now k e none (some s) new =
    (λ p. (refl, (s, refl, ground arith, ground arith, ground arith)), λ q. ground arith)

module _ (hass : Hass) (now : ℕ) (event : Option StateEvent) (c : Controller) (k e : String) where
  -- The clock of an entity of the rule that is tracked under its key and passes the identity
  -- checks survives every state but a reported `off`: unknown, unavailable and missing states
  -- keep its start, its claim and its retry.
  pub sync_cycles-GoesOn :
      (old : RuntimeCycle)
      → Tracks c k e
      → get k c.cycles ≡ some old
      → identity_or_area_error c hass e ≡ none
      → ¬ IsOff (observed hass event e)
      → GoesOn e old (get k (sync_cycles hass now event c).cycles)
  sync_cycles-GoesOn old tr here ok on =
      subst (GoesOn e old)
        (sym (
          get-sync_cycles c hass now event k e tr
          ∙ ap (next_cycle now k e (identity_or_area_error c hass e) (observed hass event e)) here))
        (next_cycle-GoesOn now k e (identity_or_area_error c hass e) (observed hass event e) old ok
          on)

  -- For an entity of the rule that is tracked under its key, a failed identity check and a
  -- reported `off` both end the clock.
  pub sync_cycles_ends :
      (old : RuntimeCycle)
      → Tracks c k e
      → get k c.cycles ≡ some old
      → (is_some (identity_or_area_error c hass e) ≡ true) ⊎ IsOff (observed hass event e)
      → get k (sync_cycles hass now event c).cycles ≡ none
  sync_cycles_ends old tr here stop =
      get-sync_cycles c hass now event k e tr
      ∙ ap (next_cycle now k e (identity_or_area_error c hass e) (observed hass event e)) here
      ∙ next_cycle_ends now k e (identity_or_area_error c hass e) (observed hass event e) old stop

  -- An entity of the rule that is tracked under its key and has no clock gets one exactly when
  -- it passes the identity checks and reports a state that is neither off, unknown nor
  -- unavailable; the clock then starts at the last change, or at the present if that comes
  -- first.
  pub sync_cycles_starts :
      (new : RuntimeCycle)
      → Tracks c k e
      → get k c.cycles ≡ none
      → (get k (sync_cycles hass now event c).cycles ≡ some new)
        ↔ Begins now k e (identity_or_area_error c hass e) (observed hass event e) new
  sync_cycles_starts new tr gone =
      let same =
        get-sync_cycles c hass now event k e tr
        ∙ ap (next_cycle now k e (identity_or_area_error c hass e) (observed hass event e)) gone in
      let starts =
        next_cycle-Begins now k e (identity_or_area_error c hass e) (observed hass event e) new in
      (λ p. starts.0 (sym same ∙ p), λ q. same ∙ starts.1 q)
