-- ===== src/Prelude/Dicts.antt =====
-- Python's `dict` with text keys: pairs in the order of insertion, written in place.
use Prim.Native.String.{String}
use mathlib.Core.Path.{◌≡◌, refl}
use mathlib.Core.Bool.{Bool, false, ◌||◌}
use mathlib.Core.Option
use mathlib.Core.Option.{Option, none, some}
use mathlib.Core.List.{List, [], ◌∷◌}
use mathlib.Core.Logic.{inl, inr}
use native.Mathlib.Omega.{arith}
use ha_runtime_auto_off.Prelude.Tests.{Bool-cases, if◌then◌else◌}
use ha_runtime_auto_off.Prelude.Text.{str_eq, str_eq_iff}

abbrev pub Dict {ℓ} : Type ℓ → Type ℓ
Dict V = List (String × V)

-- `k in xs`
unfoldable pub contains : String → List String → Bool
contains k [] = false
contains k (x ∷ xs) = str_eq x k || contains k xs

module _ {ℓ} {V : Type ℓ} where
  -- `d.get(k)`
  unfoldable pub get : String → Dict V → Option V
  get k [] = none
  get k ((j, v) ∷ d) = if str_eq j k then some v else get k d

  -- `d[k] = v`
  unfoldable pub put : String → V → Dict V → Dict V
  put k v [] = (k, v) ∷ []
  put k v ((j, w) ∷ d) = if str_eq j k then (j, v) ∷ d else (j, w) ∷ put k v d

  -- `d.pop(k, None)`
  unfoldable pub pop : String → Dict V → Dict V
  pop k [] = []
  pop k ((j, v) ∷ d) = let rest = pop k d in if str_eq j k then rest else (j, v) ∷ rest

  -- `d.values()`
  unfoldable pub values : Dict V → List V
  values [] = []
  values ((k, v) ∷ d) = v ∷ values d

  -- `{k: v for k, v in d.items() if p k}`
  unfoldable pub keep_keys : (String → Bool) → Dict V → Dict V
  keep_keys p [] = []
  keep_keys p ((k, v) ∷ d) = let rest = keep_keys p d in if p k then (k, v) ∷ rest else rest

  pub get-put :
      (k j : String) (v : V) (d : Dict V)
      → get j (put k v d) ≡ (if str_eq k j then some v else get j d)
  unfolding get put
  get-put k j v [] = refl
  get-put k j v ((i, w) ∷ d) =
      ground (arith, str_eq_iff k j, str_eq_iff i k, str_eq_iff i j, get-put k j v d)

  pub get-pop :
      (k j : String) (d : Dict V) → get j (pop k d) ≡ (if str_eq k j then none else get j d)
  unfolding get pop
  get-pop k j [] = ground arith
  get-pop k j ((i, w) ∷ d) =
      ground (arith, str_eq_iff k j, str_eq_iff i k, str_eq_iff i j, get-pop k j d)

  pub get-keep_keys :
      (p : String → Bool) (j : String) (d : Dict V)
      → get j (keep_keys p d) ≡ (if p j then get j d else none)
  unfolding get keep_keys
  get-keep_keys p j [] = ground arith
  get-keep_keys p j ((i, w) ∷ d) = elim (Bool-cases (str_eq i j)) [
    | inl e ↦ rw ((str_eq_iff i j).0 e) (ground (arith, get-keep_keys p j d, str_eq_iff j j))
    | inr e ↦ ground (arith, get-keep_keys p j d)
  ]

  -- `{k: f(v) for k, v in d.items()}`
  unfoldable pub map_values : (V → V) → Dict V → Dict V
  map_values f [] = []
  map_values f ((k, v) ∷ d) = (k, f v) ∷ map_values f d

  pub get-map_values :
      (f : V → V) (j : String) (d : Dict V) → get j (map_values f d) ≡ Option.map f (get j d)
  unfolding get map_values
  get-map_values f j [] = refl
  get-map_values f j ((i, w) ∷ d) = ground (arith, get-map_values f j d)
