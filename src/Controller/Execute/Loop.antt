-- ===== src/Controller/Execute/Loop.antt =====
-- Each target of the loop ends in one of its three collections.
use mathlib.Core.List.{Memᴰ}
use ha_runtime_auto_off.Prelude.{
  String, ◌≡◌, ◌≢◌, ◌⊎◌, refl, sym, ap, ◌∙◌, subst, List, [], ◌∷◌, arith, All, IsDistinct, contains,
  is_some, get, str_eq, str_eq_iff, Bool-cases, inl, inr,
}
use ha_runtime_auto_off.Controller.{Controller}
use ha_runtime_auto_off.Controller.Execute.{
  Turn, Tally, turn_off_target, no_tally, turn_off_targets,
}
use ha_runtime_auto_off.Controller.Execute.Targets.{
  IsCleared, called, LeftOut, Called, turn_off_target-LeftOut, turn_off_target-call,
  call_service-Called, IsCleared-cases, IsSame, IsFresh, IsOnce, skip-IsSame, fail-IsSame,
  succeed-IsSame, called-IsSame, IsSame-trans, skip-IsOnce, fail-IsOnce, succeed-IsOnce,
}

mem_other : (y e : String) (es : List String) → Memᴰ y (e ∷ es) → e ≢ y → Memᴰ y es
mem_other y e es (Memᴰ.head same) other = absurd (other (sym same))
mem_other y e es (Memᴰ.tail m) other = m

module _ (c : Controller) (e : String) (turn : Turn) (t : Tally) where
  Called-IsSame : (y : String) (t' : Tally) → e ≢ y → Called c e turn t t' → IsSame y t t'
  Called-IsSame y t' other (inl (back, off, same)) =
      subst (IsSame y t) (sym same)
        (IsSame-trans (called-IsSame y e t other) (succeed-IsSame y e (called e t) other))
  Called-IsSame y t' other (inr (r, same)) =
      subst (IsSame y t) (sym same)
        (IsSame-trans (called-IsSame y e t other) (fail-IsSame y e (called e t) r other))

  LeftOut-IsSame : (y : String) (t' : Tally) → e ≢ y → LeftOut e t t' → IsSame y t t'
  LeftOut-IsSame y t' other (r, inl same) =
      subst (IsSame y t) (sym same) (skip-IsSame y e t r other)
  LeftOut-IsSame y t' other (r, inr same) =
      subst (IsSame y t) (sym same) (fail-IsSame y e t r other)

  -- What a round does to its target.
  abbrev pub Fate : Tally → Type 0
  Fate t' =
      IsCleared c e turn.start × Called c e turn t t'
      ⊎ (¬ IsCleared c e turn.start) × LeftOut e t t'

  pub fate : Fate (turn_off_target c e turn t)
  fate = elim (IsCleared-cases c e turn t) [
    | inl clear ↦ inl (
      clear,
      subst (Called c e turn t) (sym (turn_off_target-call c e turn t clear))
          (call_service-Called c e turn t),
    )
    | inr held ↦ inr (held, turn_off_target-LeftOut c e turn t held)
  ]

  turn-IsSame : (y : String) → e ≢ y → IsSame y t (turn_off_target c e turn t)
  turn-IsSame y other = elim fate [
    | inl (clear, call) ↦ Called-IsSame y (turn_off_target c e turn t) other call
    | inr (held, out) ↦ LeftOut-IsSame y (turn_off_target c e turn t) other out
  ]

  turn-IsOnce : IsFresh e t → IsOnce e (turn_off_target c e turn t)
  turn-IsOnce fresh = elim fate [
    | inl (clear, inl (back, off, same)) ↦
        subst (IsOnce e) (sym same) (succeed-IsOnce e (called e t) fresh)
    | inl (clear, inr (r, same)) ↦ subst (IsOnce e) (sym same) (fail-IsOnce e r (called e t) fresh)
    | inr (held, (r, inl same)) ↦ subst (IsOnce e) (sym same) (skip-IsOnce e r t fresh)
    | inr (held, (r, inr same)) ↦ subst (IsOnce e) (sym same) (fail-IsOnce e r t fresh)
  ]

IsSame-IsFresh : {y : String} {t t' : Tally} → IsSame y t t' → IsFresh y t → IsFresh y t'
IsSame-IsFresh same h = (same.successful ∙ h.0, same.skipped ∙ h.1, same.failures ∙ h.2)

IsSame-IsOnce : {y : String} {t t' : Tally} → IsSame y t t' → IsOnce y t → IsOnce y t'
IsSame-IsOnce same (inl h) = inl (same.successful ∙ h.0, same.skipped ∙ h.1, same.failures ∙ h.2)
IsSame-IsOnce same (inr (inl h)) =
    inr (inl (same.successful ∙ h.0, ap is_some same.skipped ∙ h.1, same.failures ∙ h.2))
IsSame-IsOnce same (inr (inr h)) =
    inr (inr (same.successful ∙ h.0, same.skipped ∙ h.1, ap is_some same.failures ∙ h.2))

module _ (c : Controller) (world : String → Turn) where
  others-IsSame :
      (y : String) (es : List String) (t : Tally)
      → All (λ x. x ≢ y) es
      → IsSame y t (turn_off_targets c world es t)
  unfolding turn_off_targets
  others-IsSame y [] t h = record {
    successful = refl;
    skipped = refl;
    failures = refl;
    calls = refl;
  }
  others-IsSame y (e ∷ es) t h =
      IsSame-trans (turn-IsSame c e (world e) t y h.0)
        (others-IsSame y es (turn_off_target c e (world e) t) h.1)

  targets-IsOnce :
      (y : String) (es : List String) (t : Tally)
      → IsDistinct es
      → Memᴰ y es
      → IsFresh y t
      → IsOnce y (turn_off_targets c world es t)
  unfolding turn_off_targets
  targets-IsOnce y [] t apart m fresh = elim m [ ]
  targets-IsOnce y (e ∷ es) t (apart, rest) m fresh = elim (Bool-cases (str_eq e y)) [
    | inl same ↦
        let e_y : e ≡ y = (str_eq_iff e y).0 same in
        let here : IsOnce e (turn_off_target c e (world e) t) =
          turn-IsOnce c e (world e) t (subst (λ x. IsFresh x t) (sym e_y) fresh) in
        subst (λ x. IsOnce x (turn_off_targets c world es (turn_off_target c e (world e) t))) e_y
          (IsSame-IsOnce (others-IsSame e es (turn_off_target c e (world e) t) apart) here)
    | inr differ ↦
        let other : e ≢ y = λ p. absurd (ground (arith, (str_eq_iff e y).1 p)) in
        targets-IsOnce y es (turn_off_target c e (world e) t) rest (mem_other y e es m other)
          (IsSame-IsFresh (turn-IsSame c e (world e) t y other) fresh)
  ]

  -- Each of the targets, if they are distinct, ends the loop in exactly one of the
  -- three collections: switched off, skipped or failed.
  pub turn_off_targets-IsOnce :
      (y : String) (es : List String)
      → IsDistinct es
      → Memᴰ y es
      → IsOnce y (turn_off_targets c world es no_tally)
  unfolding contains get
  turn_off_targets-IsOnce y es apart m = targets-IsOnce y es no_tally apart m (refl, refl, refl)
