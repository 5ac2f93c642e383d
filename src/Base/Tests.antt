-- ===== src/Base/Tests.antt =====
-- Boolean tests on the native numbers, the conditional, and splits that keep an equation.
use Prim.Native.Nat.{ℕ, ◌≤◌, ◌<◌, compare, Ordering}
use mathlib.Core.Path.{◌≡◌, refl}
use mathlib.Core.Logic.{◌↔◌, ◌⊎◌, inl, inr}
use mathlib.Core.Bool.{Bool, true, false}
use mathlib.Core.Option.{Option, none, some}
use native.Mathlib.Omega.{arith}

abbrev pub ltb : ℕ → ℕ → Bool
ltb a b = elim (compare a b) [ Ordering.lt ↦ true | _ ↦ false ]

abbrev pub leb : ℕ → ℕ → Bool
leb a b = elim (compare a b) [ Ordering.gt ↦ false | _ ↦ true ]

infix 50 ◌==◌
abbrev pub ◌==◌ : ℕ → ℕ → Bool
a == b = elim (compare a b) [ Ordering.eq ↦ true | _ ↦ false ]

infix 1 if◌then◌else◌
abbrev pub if◌then◌else◌ {ℓ} : {A : Type ℓ} → Bool → A → A → A
if true then x else y = x
if false then x else y = y

abbrev pub is_some {ℓ} : {A : Type ℓ} → Option A → Bool
is_some none = false
is_some (some a) = true

-- A property of the result, if there is one.
abbrev pub OnSome {ℓ κ} : {A : Type ℓ} → (A → Type κ) → Option A → Type κ
OnSome P none = Unit
OnSome P (some a) = P a

pub ltb→lt : (a b : ℕ) → ltb a b ≡ true → a < b
ltb→lt a b h = ground arith

pub lt→ltb : (a b : ℕ) → a < b → ltb a b ≡ true
lt→ltb a b h = ground arith

pub leb→le : (a b : ℕ) → leb a b ≡ true → a ≤ b
leb→le a b h = ground arith

pub ==_iff : (a b : ℕ) → ((a == b) ≡ true) ↔ (a ≡ b)
==_iff a b = ground arith

pub ruleset tests = (arith, ltb→lt, lt→ltb, leb→le)

pub Bool-cases : (b : Bool) → (b ≡ true) ⊎ (b ≡ false)
Bool-cases true = inl refl
Bool-cases false = inr refl

pub Option-cases {ℓ} : {A : Type ℓ} (o : Option A) → (o ≡ none) ⊎ ((a : A) × (o ≡ some a))
Option-cases none = inl refl
Option-cases (some a) = inr (a, refl)

-- What holds of both results of a test holds of the result.
pub if-cases {ℓ κ} :
    {U : Type ℓ} (P : U → Type κ) (b : Bool) (f g : U) → P f → P g → P (if b then f else g)
if-cases P true f g a c = a
if-cases P false f g a c = c

-- The same for a case on an option, with the equation of the case.
pub elim-cases {ℓ κ} :
    {T : Type ℓ} {U : Type ℓ} (P : U → Type κ) (o : Option T) (n : U) (k : T → U)
    → (o ≡ none → P n)
    → ((t : T) → o ≡ some t → P (k t))
    → P (elim o [ none ↦ n | some t ↦ k t ])
elim-cases P none n k a c = a refl
elim-cases P (some t) n k a c = c t refl

pub OnSome-then {ℓ κ μ} :
    {A B : Type ℓ} (P : B → Type κ) (Q : A → Type μ) (o : Option A) (k : A → Option B)
    → OnSome Q o
    → ((a : A) → Q a → OnSome P (k a))
    → OnSome P (elim o [ none ↦ none | some a ↦ k a ])
OnSome-then P Q none k h f = tt
OnSome-then P Q (some a) k h f = f a h
