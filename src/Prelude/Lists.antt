-- ===== src/Prelude/Lists.antt =====
-- Lists measured by native numbers, filtered by Boolean tests, and predicates on their elements.
use Prim.Native.Nat.{ℕ, suc, ◌+◌}
use mathlib.Core.Path.{◌≡◌, refl, sym, ap, subst, ◌∙◌}
use mathlib.Core.Bool.{Bool, true, false}
use mathlib.Core.List.{List, [], ◌∷◌, ◌++◌, Memᴰ}
use mathlib.Core.Logic.{◌≢◌, inl, inr}
use native.Mathlib.Omega.{arith}
use ha_runtime_auto_off.Prelude.Tests.{Bool-cases, if◌then◌else◌}

module _ {ℓ} {A : Type ℓ} where
  abbrev pub length : List A → ℕ
  length [] = 0
  length (x ∷ xs) = suc (length xs)

  pub length-append : (xs ys : List A) → length (xs ++ ys) ≡ length xs + length ys
  length-append [] ys = omega arith
  length-append (x ∷ xs) ys = omega (arith, length-append xs ys)

  abbrev pub is_empty : List A → Bool
  is_empty [] = true
  is_empty (x ∷ xs) = false

  abbrev pub filter : (A → Bool) → List A → List A
  filter p [] = []
  filter p (x ∷ xs) = let rest = filter p xs in if p x then x ∷ rest else rest

  -- A predicate by recursion computes to tuples, which the tactics read and build.
  abbrev pub All {κ} : (A → Type κ) → List A → Type κ
  All P [] = Unit
  All P (x ∷ xs) = P x × All P xs

  pub All_at {κ} : (P : A → Type κ) (x : A) (xs : List A) → All P xs → Memᴰ x xs → P x
  All_at P x [] h m = elim m [ ]
  All_at P x (y ∷ xs) h (Memᴰ.head e) = subst P (sym e) h.0
  All_at P x (y ∷ xs) h (Memᴰ.tail m) = All_at P x xs h.1 m

  -- An element of a filtered list passed the test and stood in the list.
  abbrev pub Passed : (A → Bool) → A → List A → Type ℓ
  Passed p x xs = (p x ≡ true) × Memᴰ x xs

  mem-filter-cons :
      (p : A → Bool) (x y : A) (xs : List A) (b : Bool)
      → p y ≡ b
      → (Memᴰ x (filter p xs) → Passed p x xs)
      → Memᴰ x (if b then y ∷ filter p xs else filter p xs)
      → Passed p x (y ∷ xs)
  mem-filter-cons p x y xs true e ih (Memᴰ.head same) = (ap p same ∙ e, Memᴰ.head same)
  mem-filter-cons p x y xs true e ih (Memᴰ.tail m) = let (t, m') = ih m in (t, Memᴰ.tail m')
  mem-filter-cons p x y xs false e ih m = let (t, m') = ih m in (t, Memᴰ.tail m')

  pub mem-filter : (p : A → Bool) (x : A) (xs : List A) → Memᴰ x (filter p xs) → Passed p x xs
  mem-filter p x [] m = elim m [ ]
  mem-filter p x (y ∷ xs) m = mem-filter-cons p x y xs (p y) refl (mem-filter p x xs) m

  pub filter-mem :
      (p : A → Bool) (x : A) (xs : List A) → p x ≡ true → Memᴰ x xs → Memᴰ x (filter p xs)
  filter-mem p x [] e m = elim m [ ]
  filter-mem p x (y ∷ xs) e (Memᴰ.head same) = rw (ap p (sym same) ∙ e) (Memᴰ.head same)
  filter-mem p x (y ∷ xs) e (Memᴰ.tail m) = elim (Bool-cases (p y)) [
    | inl yes_y ↦ rw yes_y (Memᴰ.tail (filter-mem p x xs e m))
    | inr no_y ↦ rw no_y (filter-mem p x xs e m)
  ]

module _ {ℓ} {A : Type ℓ} where
  -- No element stands in the list twice.
  abbrev pub IsDistinct : List A → Type ℓ
  IsDistinct [] = Unit
  IsDistinct (x ∷ xs) = All (λ y. y ≢ x) xs × IsDistinct xs

  snoc-All : (P : A → Type ℓ) (xs : List A) {x : A} → All P xs → P x → All P (xs ++ x ∷ [])
  snoc-All P [] h p = (p, tt)
  snoc-All P (y ∷ xs) h p = (h.0, snoc-All P xs h.1 p)

  pub snoc-IsDistinct :
      (xs : List A) (x : A) → IsDistinct xs → All (λ y. x ≢ y) xs → IsDistinct (xs ++ x ∷ [])
  snoc-IsDistinct [] x h new = (tt, tt)
  snoc-IsDistinct (y ∷ xs) x (apart, rest) (differs, new) =
      (snoc-All (λ z. z ≢ y) xs apart differs, snoc-IsDistinct xs x rest new)

module _ {ℓ} {A : Type ℓ} where
  pub snoc-append : (xs ys : List A) (x : A) → (xs ++ x ∷ []) ++ ys ≡ xs ++ x ∷ ys
  snoc-append [] ys x = refl
  snoc-append (y ∷ xs) ys x = ap (λ l. y ∷ l) (snoc-append xs ys x)

  pub append_nil : (xs : List A) → xs ++ [] ≡ xs
  append_nil [] = refl
  append_nil (x ∷ xs) = ap (λ l. x ∷ l) (append_nil xs)
