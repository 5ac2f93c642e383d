-- ===== src/Generate/Types.antt =====
-- The type of a neighbor in `SendHello` of RoutingProtocol/ocean-protocol.cc: what the search
-- through the neighbor tuples finds.
use maritime_mesh_network.Base.{
  ℕ, ◌==◌, ◌≡◌, ◌⊎◌, inl, inr, refl, sym, ap, true, false, some, List, [], ◌∷◌, In, arith,
  if◌then◌else◌, Bool, Bool-cases, ==_iff, ◌∙◌,
}
use maritime_mesh_network.Repositories.{Ipv4Address, NeighborTuple, is_sym}
use maritime_mesh_network.Generate.{neighbor_type_of}

-- Some neighbor tuple has the address and this symmetry.
abbrev pub HasTuple : List NeighborTuple → Ipv4Address → Bool → Type 0
HasTuple nbs addr symmetric =
    (nb : NeighborTuple) × In nb nbs
    × (nb.neighbor_main_addr ≡ addr)
    × (is_sym nb.status ≡ symmetric)

pub neighbor_type_of_tuple :
    (nbs : List NeighborTuple) (addr : Ipv4Address) (k : ℕ)
    → neighbor_type_of nbs addr ≡ some k
    → ((k ≡ 1) × HasTuple nbs addr true) ⊎ ((k ≡ 0) × HasTuple nbs addr false)
unfolding neighbor_type_of
neighbor_type_of_tuple [] addr k h = cc
neighbor_type_of_tuple (nb ∷ nbs) addr k h = elim (Bool-cases (nb.neighbor_main_addr == addr)) [
  | inl e ↦
      let same : nb.neighbor_main_addr ≡ addr = (==_iff nb.neighbor_main_addr addr).0 e in
      elim (Bool-cases (is_sym nb.status)) [
        | inl s ↦ inl (ground arith, (nb, inl refl, same, s))
        | inr s ↦ inr (ground arith, (nb, inl refl, same, s))
      ]
  | inr e ↦
      let h' : neighbor_type_of nbs addr ≡ some k = rw e at h in
      elim (neighbor_type_of_tuple nbs addr k h') [
        | inl (q, (t, i, a, s)) ↦ inl (q, (t, inr i, a, s))
        | inr (q, (t, i, a, s)) ↦ inr (q, (t, inr i, a, s))
      ]
]

pub listed_type :
    (nbs : List NeighborTuple) (addr : Ipv4Address) (nb : NeighborTuple)
    → In nb nbs
    → nb.neighbor_main_addr ≡ addr
    → (k : ℕ) × (neighbor_type_of nbs addr ≡ some k)
unfolding neighbor_type_of
listed_type [] addr nb i e = absurd i
listed_type (n ∷ nbs) addr nb i e = elim (Bool-cases (n.neighbor_main_addr == addr)) [
  | inl q ↦ (if is_sym n.status then 1 else 0, rw q refl)
  | inr q ↦ elim i [
    | inl s ↦
        let same : n.neighbor_main_addr ≡ addr = sym (ap (λ z. z.neighbor_main_addr) s) ∙ e in
        absurd (
          let hit = (==_iff n.neighbor_main_addr addr).1 same in
          let bad : false ≡ true = sym q ∙ hit in cc)
    | inr j ↦ let (k, r) = listed_type nbs addr nb j e in (k, rw q r)
  ]
]
