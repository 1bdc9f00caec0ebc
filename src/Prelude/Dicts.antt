-- ===== src/Prelude/Dicts.antt =====
-- Python dictionaries with text keys, as association lists in the order of insertion.
use Prim.Native.String.{String}
use mathlib.Core.Path.{◌≡◌, refl}
use mathlib.Core.Option.{Option, none, some}
use mathlib.Core.List.{List, [], ◌∷◌}
use native.Mathlib.Omega.{arith}
use text.Mathlib.Text.{◌==◌}
use text.Mathlib.TextEquality.{eq_iff}
use ok.Prelude.Tests.{if◌then◌else◌}

abbrev pub Dict {ℓ} : Type ℓ → Type ℓ
Dict V = List (String × V)

module _ {ℓ} {V : Type ℓ} where
  -- `d.get(key)`
  unfoldable pub get : Dict V → String → Option V
  get [] key = none
  get ((k, v) ∷ d) key = if k == key then some v else get d key

  -- `d[key] = value`: a key that is there keeps its place
  unfoldable pub put : String → V → Dict V → Dict V
  put key value [] = (key, value) ∷ []
  put key value ((k, v) ∷ d) = if k == key then (k, value) ∷ d else (k, v) ∷ put key value d

  -- `d.pop(key, None)`
  unfoldable pub pop : String → Dict V → Dict V
  pop key [] = []
  pop key ((k, v) ∷ d) = let rest = pop key d in if k == key then rest else (k, v) ∷ rest

  unfoldable pub values : Dict V → List V
  values [] = []
  values ((k, v) ∷ d) = v ∷ values d

  pub get-put :
      (key j : String) (value : V) (d : Dict V)
      → get (put key value d) j ≡ (if key == j then some value else get d j)
  unfolding get put
  get-put key j value [] = refl
  get-put key j value ((k, v) ∷ d) =
      ground (arith, eq_iff k key, eq_iff k j, eq_iff key j, get-put key j value d)

  pub get-pop :
      (key j : String) (d : Dict V) → get (pop key d) j ≡ (if key == j then none else get d j)
  unfolding get pop
  get-pop key j [] = ground arith
  get-pop key j ((k, v) ∷ d) =
      ground (arith, eq_iff k key, eq_iff k j, eq_iff key j, get-pop key j d)
