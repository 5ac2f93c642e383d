-- ===== src/Base/Vector.antt =====
-- `std::vector` through a pointer to one of its elements, which is an index: reading, writing and
-- erasing there, and what that does to the other elements.
use Prim.Native.Nat.{ℕ, zero, suc}
use mathlib.Core.Path.{◌≡◌, refl, sym, ap, ◌∙◌}
use mathlib.Core.Logic.{◌≢◌, ◌⊎◌, inl, inr}
use mathlib.Core.Option.{Option, none, some}
use mathlib.Core.List.{List, [], ◌∷◌, ◌++◌}
use maritime_mesh_network.Base.Lists.{All, In, length}

module _ {ℓ} {A : Type ℓ} where
  abbrev pub get_elem? : List A → ℕ → Option A
  get_elem? [] i = none
  get_elem? (x ∷ xs) zero = some x
  get_elem? (x ∷ xs) (suc i) = get_elem? xs i

  -- `*p = f (*p)`.
  abbrev pub modify : ℕ → (A → A) → List A → List A
  modify i f [] = []
  modify zero f (x ∷ xs) = f x ∷ xs
  modify (suc i) f (x ∷ xs) = x ∷ modify i f xs

  -- `v.erase (p)`.
  abbrev pub remove_at : ℕ → List A → List A
  remove_at i [] = []
  remove_at zero (x ∷ xs) = xs
  remove_at (suc i) (x ∷ xs) = x ∷ remove_at i xs

  module _ {κ} (P : A → Type κ) where
    pub All-get : (xs : List A) (i : ℕ) (a : A) → All P xs → get_elem? xs i ≡ some a → P a
    All-get [] i a h e = cc
    All-get (x ∷ xs) zero a h e = let r : x ≡ a = cc in rw (← r) h.0
    All-get (x ∷ xs) (suc i) a h e = All-get xs i a h.1 e

    pub All-remove_at : (i : ℕ) (xs : List A) → All P xs → All P (remove_at i xs)
    All-remove_at i [] h = h
    All-remove_at zero (x ∷ xs) h = h.1
    All-remove_at (suc i) (x ∷ xs) h = (h.0, All-remove_at i xs h.1)

    pub All-modify :
        (i : ℕ) (f : A → A) (xs : List A)
        → ((a : A) → get_elem? xs i ≡ some a → P a → P (f a))
        → All P xs
        → All P (modify i f xs)
    All-modify i f [] keeps h = h
    All-modify zero f (x ∷ xs) keeps h = (keeps x refl h.0, h.1)
    All-modify (suc i) f (x ∷ xs) keeps h = (h.0, All-modify i f xs keeps h.1)

    pub All-append : (xs ys : List A) → All P xs → All P ys → All P (xs ++ ys)
    All-append [] ys hx hy = hy
    All-append (x ∷ xs) ys hx hy = (hx.0, All-append xs ys hx.1 hy)

  pub All_map {κ μ} :
      {P : A → Type κ} {Q : A → Type μ}
      → ((a : A) → P a → Q a)
      → (xs : List A) → All P xs
      → All Q xs
  All_map f [] h = tt
  All_map f (x ∷ xs) h = (f x h.0, All_map f xs h.1)

  pub All_of {κ} : {P : A → Type κ} → ((a : A) → P a) → (xs : List A) → All P xs
  All_of f [] = tt
  All_of f (x ∷ xs) = (f x, All_of f xs)

  module _ {K : Type 0} (key : A → K) where
    -- No two elements have the same key.
    abbrev pub Distinct : List A → Type ℓ
    Distinct [] = Unit
    Distinct (x ∷ xs) = All (λ y. key y ≢ key x) xs × Distinct xs

    pub Distinct-remove_at :
        (i : ℕ) (xs : List A) (a : A)
        → get_elem? xs i ≡ some a
        → Distinct xs
        → Distinct (remove_at i xs) × All (λ y. key y ≢ key a) (remove_at i xs)
    Distinct-remove_at i [] a e h = cc
    Distinct-remove_at zero (x ∷ xs) a e h = let r : x ≡ a = cc in (h.1, rw (← r) h.0)
    Distinct-remove_at (suc i) (x ∷ xs) a e h =
        let (d, others) = Distinct-remove_at i xs a e h.1 in
        (
          (All-remove_at (λ y. key y ≢ key x) i xs h.0, d),
          ((λ q. All-get (λ y. key y ≢ key x) xs i a h.0 e (sym q)), others),
        )

    pub Distinct-modify :
        (i : ℕ) (f : A → A) (xs : List A)
        → ((a : A) → get_elem? xs i ≡ some a → key (f a) ≡ key a)
        → Distinct xs
        → Distinct (modify i f xs)
    Distinct-modify i f [] keeps h = h
    Distinct-modify zero f (x ∷ xs) keeps h = (rw (keeps x refl) h.0, h.1)
    Distinct-modify (suc i) f (x ∷ xs) keeps h = (
      All-modify (λ y. key y ≢ key x) i f xs (λ a e n. rw (keeps a e) n) h.0,
      Distinct-modify i f xs keeps h.1,
    )

    pub Distinct-append :
        (xs : List A) (a : A) → Distinct xs → All (λ y. key y ≢ key a) xs → Distinct (xs ++ a ∷ [])
    Distinct-append [] a h n = (tt, tt)
    Distinct-append (x ∷ xs) a h n = (
      All-append (λ y. key y ≢ key x) xs (a ∷ []) h.0 ((λ q. n.0 (sym q)), tt),
      Distinct-append xs a h.1 n.1,
    )

    -- The element with a key is one.
    pub Distinct-unique :
        (i j : ℕ) (xs : List A) (a b : A)
        → Distinct xs
        → get_elem? xs i ≡ some a
        → get_elem? xs j ≡ some b
        → key a ≡ key b
        → a ≡ b
    Distinct-unique i j [] a b h e f k = absurd cc
    Distinct-unique zero zero (x ∷ xs) a b h e f k = cc
    Distinct-unique zero (suc j) (x ∷ xs) a b h e f k =
        let p : x ≡ a = cc in
        absurd (All-get (λ y. key y ≢ key x) xs j b h.0 f (sym k ∙ ap key (sym p)))
    Distinct-unique (suc i) zero (x ∷ xs) a b h e f k =
        let p : x ≡ b = cc in
        absurd (All-get (λ y. key y ≢ key x) xs i a h.0 e (k ∙ ap key (sym p)))
    Distinct-unique (suc i) (suc j) (x ∷ xs) a b h e f k = Distinct-unique i j xs a b h.1 e f k

-- What is taken out of a list is one element.
pub In-remove_at :
    {A : Type 0} (i : ℕ) (xs : List A) (a b : A)
    → get_elem? xs i ≡ some b
    → In a xs
    → (a ≡ b) ⊎ In a (remove_at i xs)
In-remove_at i [] a b e h = absurd h
In-remove_at zero (x ∷ xs) a b e (inl q) = let p : x ≡ b = cc in inl (q ∙ p)
In-remove_at zero (x ∷ xs) a b e (inr h) = inr h
In-remove_at (suc i) (x ∷ xs) a b e (inl q) = inr (inl q)
In-remove_at (suc i) (x ∷ xs) a b e (inr h) = elim (In-remove_at i xs a b e h) [
  | inl p ↦ inl p
  | inr k ↦ inr (inr k)
]

pub get-append_last :
    {A : Type 0} (xs : List A) (a : A) → get_elem? (xs ++ a ∷ []) (length xs) ≡ some a
get-append_last [] a = refl
get-append_last (x ∷ xs) a = get-append_last xs a

pub get-modify :
    {A : Type 0} (i : ℕ) (f : A → A) (xs : List A) (a : A)
    → get_elem? xs i ≡ some a
    → get_elem? (modify i f xs) i ≡ some (f a)
get-modify i f [] a e = absurd cc
get-modify zero f (x ∷ xs) a e = let p : x ≡ a = cc in ap (λ y. some (f y)) p
get-modify (suc i) f (x ∷ xs) a e = get-modify i f xs a e

pub In-modify :
    {A : Type 0} (i : ℕ) (f : A → A) (xs : List A) (a b : A)
    → get_elem? xs i ≡ some b
    → In a xs
    → (a ≡ b) ⊎ In a (modify i f xs)
In-modify i f [] a b e h = absurd h
In-modify zero f (x ∷ xs) a b e (inl q) = let p : x ≡ b = cc in inl (q ∙ p)
In-modify zero f (x ∷ xs) a b e (inr h) = inr (inr h)
In-modify (suc i) f (x ∷ xs) a b e (inl q) = inr (inl q)
In-modify (suc i) f (x ∷ xs) a b e (inr h) = elim (In-modify i f xs a b e h) [
  | inl p ↦ inl p
  | inr k ↦ inr (inr k)
]

pub get-In : {A : Type 0} (xs : List A) (i : ℕ) (a : A) → get_elem? xs i ≡ some a → In a xs
get-In [] i a e = absurd cc
get-In (x ∷ xs) zero a e = inl cc
get-In (x ∷ xs) (suc i) a e = inr (get-In xs i a e)

pub In-append_left : {A : Type 0} (a : A) (xs ys : List A) → In a xs → In a (xs ++ ys)
In-append_left a [] ys h = absurd h
In-append_left a (x ∷ xs) ys (inl e) = inl e
In-append_left a (x ∷ xs) ys (inr h) = inr (In-append_left a xs ys h)

pub In-append_right : {A : Type 0} (a : A) (xs ys : List A) → In a ys → In a (xs ++ ys)
In-append_right a [] ys h = h
In-append_right a (x ∷ xs) ys h = inr (In-append_right a xs ys h)
