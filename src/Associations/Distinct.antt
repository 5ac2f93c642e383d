-- ===== src/Associations/Distinct.antt =====
-- Lists of associations without repetition, as RoutingProtocol/ocean-protocol.cc keeps them.
use maritime_mesh_network.Base.{
  ◌≡◌, ◌∙◌, sym, refl, true, false, not, Bool, Bool-cases, inl, inr, ◌&&◌, ◌||◌, List, [], ◌∷◌,
  ◌++◌, any, arith, if◌then◌else◌,
}
use maritime_mesh_network.Repositories.{Association}
use maritime_mesh_network.Associations.{same_network}

-- The association is in the list.
abbrev pub announces : List Association → Association → Bool
announces l a = any (λ b. same_network b a) l

-- The list without the first association that is equal to the given one.
abbrev pub without_first : Association → List Association → List Association
without_first a [] = []
without_first a (b ∷ l) = if same_network b a then l else b ∷ without_first a l

-- No association is in the list twice.
abbrev pub IsDistinct : List Association → Type 0
IsDistinct [] = Unit {0}
IsDistinct (a ∷ l) = (announces l a ≡ false) × IsDistinct l

pub announces-last :
    (l : List Association) (a c : Association)
    → announces (l ++ a ∷ []) c ≡ (announces l c || same_network a c)
announces-last [] a c = ground arith
announces-last (b ∷ l) a c = ground (arith, announces-last l a c)

pub same_network_sym : (a b : Association) → same_network a b ≡ same_network b a
same_network_sym a b = ground arith

pub same_network_trans :
    (a b c : Association) → same_network a b ≡ true → same_network a c ≡ same_network b c
same_network_trans a b c h = ground arith

pub IsDistinct-last :
    (l : List Association) (a : Association)
    → announces l a ≡ false
    → IsDistinct l
    → IsDistinct (l ++ a ∷ [])
IsDistinct-last [] a h d = (refl, tt)
IsDistinct-last (b ∷ l) a h (n, d) =
    let apart : same_network b a ≡ false = ground arith in
    let other : same_network a b ≡ false = same_network_sym a b ∙ apart in
    let rest : announces l a ≡ false = ground arith in
    (announces-last l a b ∙ rw (n, other), IsDistinct-last l a rest d)

pub announces-without_first :
    (l : List Association) (a c : Association)
    → announces l c ≡ false
    → announces (without_first a l) c ≡ false
announces-without_first [] a c h = h
announces-without_first (b ∷ l) a c h =
    let apart : same_network b c ≡ false = ground arith in
    let rest : announces l c ≡ false = ground arith in
    elim (Bool-cases (same_network b a)) [
      | inl e ↦ rw e rest
      | inr e ↦ rw e (rw (apart, announces-without_first l a c rest))
    ]

pub IsDistinct-without_first :
    (l : List Association) (a : Association) → IsDistinct l → IsDistinct (without_first a l)
IsDistinct-without_first [] a d = d
IsDistinct-without_first (b ∷ l) a (n, d) = elim (Bool-cases (same_network b a)) [
  | inl e ↦ rw e d
  | inr e ↦ rw e (announces-without_first l a b n, IsDistinct-without_first l a d)
]

announces_same :
    (l : List Association) (a c : Association)
    → same_network a c ≡ true
    → announces l a ≡ announces l c
announces_same [] a c h = refl
announces_same (b ∷ l) a c h = ground (arith, announces_same l a c)

-- In a list of distinct associations an erasure takes the association out.
pub announces-erase :
    (l : List Association) (a c : Association)
    → IsDistinct l
    → announces (without_first a l) c ≡ (announces l c && not (same_network a c))
announces-erase [] a c d = refl
announces-erase (b ∷ l) a c (n, d) = elim (Bool-cases (same_network b a)) [
  | inl e ↦
      let same : same_network b c ≡ same_network a c = same_network_trans b a c e in
      elim (Bool-cases (same_network b c)) [
        | inl f ↦
            let gone : announces l c ≡ false = sym (announces_same l b c f) ∙ n in
            rw e (gone ∙ rw (f, sym same ∙ f))
        | inr f ↦ rw e (rw (f, sym same ∙ f) (ground arith))
      ]
  | inr e ↦ elim (Bool-cases (same_network b c)) [
    | inl f ↦ let apart : same_network a c ≡ false = ground arith in rw e (rw (f, apart))
    | inr f ↦ rw e (rw f (announces-erase l a c d))
  ]
]
