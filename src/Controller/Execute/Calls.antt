-- ===== src/Controller/Execute/Calls.antt =====
-- Whom the loop over the targets calls, and whom it reports as switched off.
use mathlib.Core.List.{Memᴰ}
use ha_runtime_auto_off.Prelude.{
  String, ◌≡◌, ◌↔◌, ◌⊎◌, sym, subst, true, List, [], ◌∷◌, ◌++◌, arith, contains, str_eq_iff,
  Bool-cases, inl, inr,
}
use ha_runtime_auto_off.Controller.{Controller}
use ha_runtime_auto_off.Controller.Execute.{
  ServiceResult, Turn, Tally, turn_off_target, no_tally, turn_off_targets,
}
use ha_runtime_auto_off.Controller.Execute.Targets.{IsCleared, SeenOff, called, contains-snoc}
use ha_runtime_auto_off.Controller.Execute.Loop.{fate}

-- The call for `e` was allowed, returned, and was seen to work.
abbrev pub IsTurnedOff : Controller → String → Turn → Type 0
IsTurnedOff c e turn =
    IsCleared c e turn.start
    × (turn.result ≡ ServiceResult.returned)
    × SeenOff c e (turn.wakes ++ turn.timeout ∷ [])

module _ (c : Controller) (e : String) (turn : Turn) (t : Tally) (y : String) where
  contains-called : contains y (called e t).calls ≡ true → (contains y t.calls ≡ true) ⊎ (e ≡ y)
  contains-called h = elim (Bool-cases (contains y t.calls)) [
    | inl old ↦ inl old
    | inr new ↦ inr (ground (arith, contains-snoc y e t.calls, str_eq_iff e y))
  ]

  turn-calls :
      contains y (turn_off_target c e turn t).calls ≡ true
      → (contains y t.calls ≡ true) ⊎ (e ≡ y) × IsCleared c e turn.start
  turn-calls h = elim (fate c e turn t) [
    | inl (clear, inl (back, off, same)) ↦ elim (contains-called (ground arith)) [
      | inl old ↦ inl old
      | inr here ↦ inr (here, clear)
    ]
    | inl (clear, inr (r, same)) ↦ elim (contains-called (ground arith)) [
      | inl old ↦ inl old
      | inr here ↦ inr (here, clear)
    ]
    | inr (held, (r, inl same)) ↦ inl (ground arith)
    | inr (held, (r, inr same)) ↦ inl (ground arith)
  ]

  turn-calls_kept : contains y t.calls ≡ true → contains y (turn_off_target c e turn t).calls ≡ true
  turn-calls_kept h = elim (fate c e turn t) [
    | inl (clear, inl (back, off, same)) ↦ ground (arith, contains-snoc y e t.calls)
    | inl (clear, inr (r, same)) ↦ ground (arith, contains-snoc y e t.calls)
    | inr (held, (r, inl same)) ↦ ground arith
    | inr (held, (r, inr same)) ↦ ground arith
  ]

  turn-calls_made :
      e ≡ y → IsCleared c e turn.start → contains y (turn_off_target c e turn t).calls ≡ true
  turn-calls_made here clear = elim (fate c e turn t) [
    | inl (_, inl (back, off, same)) ↦ ground (arith, contains-snoc y e t.calls, str_eq_iff e y)
    | inl (_, inr (r, same)) ↦ ground (arith, contains-snoc y e t.calls, str_eq_iff e y)
    | inr (held, out) ↦ absurd (held clear)
  ]

  turn-successful :
      contains y (turn_off_target c e turn t).successful ≡ true
      → (contains y t.successful ≡ true) ⊎ (e ≡ y) × IsTurnedOff c e turn
  turn-successful h = elim (fate c e turn t) [
    | inl (clear, inl (back, off, same)) ↦ elim (Bool-cases (contains y t.successful)) [
      | inl old ↦ inl old
      | inr new ↦
          inr (ground (arith, contains-snoc y e t.successful, str_eq_iff e y), (clear, back, off))
    ]
    | inl (clear, inr (r, same)) ↦ inl (ground arith)
    | inr (held, (r, inl same)) ↦ inl (ground arith)
    | inr (held, (r, inr same)) ↦ inl (ground arith)
  ]

module _ (c : Controller) (world : String → Turn) where
  targets-calls :
      (y : String) (es : List String) (t : Tally)
      → contains y (turn_off_targets c world es t).calls ≡ true
      → (contains y t.calls ≡ true) ⊎ Memᴰ y es × IsCleared c y (world y).start
  unfolding turn_off_targets
  targets-calls y [] t h = inl h
  targets-calls y (e ∷ es) t h = elim (targets-calls y es (turn_off_target c e (world e) t) h) [
    | inr (m, clear) ↦ inr (Memᴰ.tail m, clear)
    | inl before ↦ elim (turn-calls c e (world e) t y before) [
      | inl old ↦ inl old
      | inr (here, clear) ↦
          inr (Memᴰ.head (sym here), subst (λ x. IsCleared c x (world x).start) here clear)
    ]
  ]

  targets-calls_kept :
      (y : String) (es : List String) (t : Tally)
      → contains y t.calls ≡ true
      → contains y (turn_off_targets c world es t).calls ≡ true
  unfolding turn_off_targets
  targets-calls_kept y [] t h = h
  targets-calls_kept y (e ∷ es) t h =
      targets-calls_kept y es (turn_off_target c e (world e) t)
        (turn-calls_kept c e (world e) t y h)

  targets-calls_made :
      (y : String) (es : List String) (t : Tally)
      → Memᴰ y es
      → IsCleared c y (world y).start
      → contains y (turn_off_targets c world es t).calls ≡ true
  unfolding turn_off_targets
  targets-calls_made y [] t m clear = elim m [ ]
  targets-calls_made y (e ∷ es) t (Memᴰ.head same) clear =
      targets-calls_kept y es (turn_off_target c e (world e) t) (
        turn-calls_made c e (world e) t y (sym same)
          (subst (λ x. IsCleared c x (world x).start) same clear))
  targets-calls_made y (e ∷ es) t (Memᴰ.tail m) clear =
      targets-calls_made y es (turn_off_target c e (world e) t) m clear

  targets-successful :
      (y : String) (es : List String) (t : Tally)
      → contains y (turn_off_targets c world es t).successful ≡ true
      → (contains y t.successful ≡ true) ⊎ Memᴰ y es × IsTurnedOff c y (world y)
  unfolding turn_off_targets
  targets-successful y [] t h = inl h
  targets-successful y (e ∷ es) t h =
      elim (targets-successful y es (turn_off_target c e (world e) t) h) [
        | inr (m, off) ↦ inr (Memᴰ.tail m, off)
        | inl before ↦ elim (turn-successful c e (world e) t y before) [
          | inl old ↦ inl old
          | inr (here, off) ↦
              inr (Memᴰ.head (sym here), subst (λ x. IsTurnedOff c x (world x)) here off)
        ]
      ]

  -- The service is called for exactly those targets that are cleared at the moment
  -- of their own turn: the Shabbat condition does not block, the controller is neither unloaded nor
  -- inhibited, and the entity passes the identity, area, service and state checks.
  pub turn_off_targets-calls :
      (y : String) (es : List String)
      → (contains y (turn_off_targets c world es no_tally).calls ≡ true)
        ↔ Memᴰ y es × IsCleared c y (world y).start
  unfolding contains
  turn_off_targets-calls y es = (
    λ h. elim (targets-calls y es no_tally h) [ inl old ↦ absurd (ground arith) | inr made ↦ made ],
    λ h. targets-calls_made y es no_tally h.0 h.1,
  )

  -- An entity is reported as switched off only if its turn cleared it, its service call returned,
  -- and at one of the moments of its confirmation its state was seen to be `off`, with every
  -- identity check passed.
  pub turn_off_targets-IsTurnedOff :
      (y : String) (es : List String)
      → contains y (turn_off_targets c world es no_tally).successful ≡ true
      → Memᴰ y es × IsTurnedOff c y (world y)
  unfolding contains
  turn_off_targets-IsTurnedOff y es h = elim (targets-successful y es no_tally h) [
    | inl old ↦ absurd (ground arith)
    | inr off ↦ off
  ]
