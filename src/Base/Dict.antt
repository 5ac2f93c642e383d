-- ===== src/Base/Dict.antt =====
-- `std::map` from numbers: the pairs in ascending order of their keys.
use Prim.Native.Nat.{ℕ}
use mathlib.Core.Path.{◌≡◌, refl}
use mathlib.Core.List.{List, [], ◌∷◌}
use mathlib.Core.Option.{Option, none, some}
use native.Mathlib.Omega.{arith}
use maritime_mesh_network.Base.Tests.{◌==◌, ltb, if◌then◌else◌}

module _ {ℓ} {V : Type ℓ} where
  unfoldable pub lookup : ℕ → List (ℕ × V) → Option V
  lookup key [] = none
  lookup key ((first, value) ∷ rest) = if first == key then some value else lookup key rest

  -- `m[key] = value`.
  unfoldable pub insert : ℕ → V → List (ℕ × V) → List (ℕ × V)
  insert key value [] = (key, value) ∷ []
  insert key value ((first, old) ∷ rest) =
      if first == key
      then (key, value) ∷ rest
      else if ltb key first
      then (key, value) ∷ (first, old) ∷ rest
      else (first, old) ∷ insert key value rest

  unfoldable pub erase : ℕ → List (ℕ × V) → List (ℕ × V)
  erase key [] = []
  erase key ((first, value) ∷ rest) = if first == key then rest else (first, value) ∷ erase key rest

  -- What a search finds after a write, at the written key and at the others.
  pub lookup-insert :
      (key asked : ℕ) (value : V) (dict : List (ℕ × V))
      → lookup asked (insert key value dict)
        ≡ (if key == asked then some value else lookup asked dict)
  unfolding lookup insert
  lookup-insert key asked value [] = refl
  lookup-insert key asked value ((first, old) ∷ rest) =
      ground (arith, lookup-insert key asked value rest)
