-- ===== src/Base/Lists.antt =====
-- Lists measured by native numbers, membership by recursion, and `std::set` of numbers.
use Prim.Native.Nat.{ℕ, suc, ◌+◌}
use mathlib.Core.Path.{◌≡◌, ap}
use mathlib.Core.Logic.{◌⊎◌}
use mathlib.Core.Bool.{Bool, false, ◌||◌}
use mathlib.Core.List.{List, [], ◌∷◌, ◌++◌}
use native.Mathlib.Omega.{arith}
use maritime_mesh_network.Base.Tests.{◌==◌, if◌then◌else◌}

module _ {ℓ} {A : Type ℓ} where
  abbrev pub length : List A → ℕ
  length [] = 0
  length (x ∷ xs) = suc (length xs)

  pub length-append : (xs ys : List A) → length (xs ++ ys) ≡ length xs + length ys
  length-append [] ys = omega arith
  length-append (x ∷ xs) ys = omega (arith, length-append xs ys)

  -- A property of every element, by recursion on the list.
  abbrev pub All {κ} : (A → Type κ) → List A → Type κ
  All P [] = Unit {κ}
  All P (x ∷ xs) = P x × All P xs

  abbrev pub any : (A → Bool) → List A → Bool
  any p [] = false
  any p (x ∷ xs) = p x || any p xs

  -- `std::vector::erase` in a loop over the whole vector: the elements that fail the test stay.
  abbrev pub remove_if : (A → Bool) → List A → List A
  remove_if p [] = []
  remove_if p (x ∷ xs) = if p x then remove_if p xs else x ∷ remove_if p xs

-- Membership by recursion on the list, which the tactics read.
abbrev pub In : {A : Type 0} → A → List A → Type 0
In x [] = ⊥
In x (y ∷ ys) = (x ≡ y) ⊎ In x ys

-- A `std::set` of addresses: the elements inserted, each once. Only membership is ever asked.
abbrev pub elem : ℕ → List ℕ → Bool
elem a [] = false
elem a (x ∷ xs) = x == a || elem a xs

unfoldable pub set_insert : ℕ → List ℕ → List ℕ
set_insert a xs = if elem a xs then xs else a ∷ xs

pub elem-set_insert : (a b : ℕ) (xs : List ℕ) → elem b (set_insert a xs) ≡ (a == b || elem b xs)
unfolding set_insert
elem-set_insert a b xs = ground (arith, elem_eq xs)
  where
    elem_eq : (ys : List ℕ) → a ≡ b → elem a ys ≡ elem b ys
    elem_eq ys e = ap (λ c. elem c ys) e
