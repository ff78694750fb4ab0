-- ===== src/Models/Strip.antt =====
-- What `str.strip` leaves, it leaves again.
use Prim.Native.Char.{Char}
use ha_runtime_auto_off.Prelude.{
  String, ◌≡◌, refl, ap, ◌∙◌, false, ◌&&◌, ◌⊎◌, some, str_eq, Bool-cases, inl, inr, arith,
}
use ha_runtime_auto_off.Models.Values.{
  is_space, lstrip, rstrip, is_blank, strip, nonempty, optional_string,
}
use ha_runtime_auto_off.Models.Cycle.{IsClean}

rstrip-rstrip : (s : String) → rstrip (rstrip s) ≡ rstrip s
unfolding rstrip
rstrip-rstrip String.[] = refl
rstrip-rstrip (String.◌∷◌ c s) = elim (Bool-cases (is_blank (rstrip s) && is_space c)) [
  | inl gone ↦ rw gone refl
  | inr kept ↦ rw (kept, rstrip-rstrip s, kept) refl
]

-- Nothing is left, or what is left begins with a character that is not removed.
rstrip-visible :
    (c : Char) (s : String) → is_space c ≡ false → rstrip (String.◌∷◌ c s) ≡ String.◌∷◌ c (rstrip s)
unfolding rstrip
rstrip-visible c s seen = elim (Bool-cases (is_blank (rstrip s))) [
  | inl empty ↦ rw (empty, seen) refl
  | inr full ↦ rw full refl
]

strip_left :
    (s : String)
    → (rstrip (lstrip s) ≡ String.[]) ⊎ (lstrip (rstrip (lstrip s)) ≡ rstrip (lstrip s))
unfolding lstrip rstrip
strip_left String.[] = inl refl
strip_left (String.◌∷◌ c s) = elim (Bool-cases (is_space c)) [
  | inl space ↦ rw space (strip_left s)
  | inr seen ↦ rw (seen, rstrip-visible c s seen, seen) (inr refl)
]

strip-strip : (s : String) → strip (strip s) ≡ strip s
unfolding strip
strip-strip s = elim (strip_left s) [
  | inl blank ↦ rw blank refl
  | inr same ↦ ap rstrip same ∙ rstrip-rstrip (lstrip s)
]

nonempty-some : (s : String) → str_eq s "" ≡ false → nonempty s ≡ some s
nonempty-some String.[] h = ground arith
nonempty-some (String.◌∷◌ c s) h = refl

-- A stripped text that is not blank is clean.
pub strip-IsClean : (s : String) → str_eq (strip s) "" ≡ false → IsClean (strip s)
unfolding optional_string
strip-IsClean s h = ap nonempty (strip-strip s) ∙ nonempty-some (strip s) h
