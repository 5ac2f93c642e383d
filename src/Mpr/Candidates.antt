-- ===== src/Mpr/Candidates.antt =====
-- Which tuples of the 2-hop neighbor set `MprComputation` of RoutingProtocol/ocean-protocol.cc puts
-- into N2, told from the neighbor set itself.
use maritime_mesh_network.Base.{
  ℕ, zero, suc, ◌==◌, ◌<◌, ◌≡◌, ◌≢◌, ◌↔◌, ◌⊎◌, ◌∙◌, sym, subst, refl, true, false, not, Bool-cases,
  inl, inr, some, List, [], ◌∷◌, get_elem?, All, arith,
}
use maritime_mesh_network.Repositories.{
  Ipv4Address, NeighborTuple, TwoHopNeighborTuple, Status, status_sym, status_not_sym, is_sym,
  will_never,
}
use maritime_mesh_network.Mpr.{
  symmetric_neighbors, reached_willingly, is_member, two_hop_candidates,
}
use maritime_mesh_network.Mpr.Pairs.{reaches}
use maritime_mesh_network.Mpr.Start.{reaches-two_hop_candidates}

-- The first symmetric neighbor with the address `b` has a willingness other than WILL_NEVER.
pub record IsWillingFirst (neighbors : List NeighborTuple) (b : Ipv4Address) : Type 0 where
  pub neighbor : NeighborTuple
  pub at : ℕ
  pub held : get_elem? neighbors at ≡ some neighbor
  pub symmetric : neighbor.status ≡ status_sym
  pub address : neighbor.neighbor_main_addr ≡ b
  pub willing : neighbor.willingness ≢ will_never
  pub first :
      (j : ℕ) (o : NeighborTuple)
      → j < at
      → get_elem? neighbors j ≡ some o
      → o.status ≡ status_sym
      → o.neighbor_main_addr ≢ b

-- No symmetric neighbor has the address `a`.
abbrev pub IsNoNeighbor : List NeighborTuple → Ipv4Address → Type 0
IsNoNeighbor neighbors a = All (λ nb. nb.status ≡ status_sym → nb.neighbor_main_addr ≢ a) neighbors

-- A neighbor is symmetric or is passed over.
status-cases :
    (s : Status) → ((is_sym s ≡ true) × (s ≡ status_sym)) ⊎ ((is_sym s ≡ false) × (s ≢ status_sym))
status-cases status_sym = inl (refl, refl)
status-cases status_not_sym = inr (refl, λ e. cc)

-- The first tuple decides the two searches, or is passed over by both.
hit-cases :
    (nb : NeighborTuple) (nbs : List NeighborTuple) (b : Ipv4Address)
    → let rest = symmetric_neighbors nbs in
      let all = symmetric_neighbors (nb ∷ nbs) in
      ((nb.status ≡ status_sym)
        × (nb.neighbor_main_addr ≡ b)
        × (reached_willingly all b ≡ not (nb.willingness == will_never))
        × (is_member all b ≡ true))
      ⊎ ((nb.status ≡ status_sym → nb.neighbor_main_addr ≢ b)
          × (reached_willingly all b ≡ reached_willingly rest b)
          × (is_member all b ≡ is_member rest b))
unfolding reached_willingly is_member symmetric_neighbors
hit-cases nb nbs b = elim (status-cases nb.status) [
  | inr (e, other) ↦ inr (λ q. absurd (other q), rw e refl, rw e refl)
  | inl (e, same) ↦ elim (Bool-cases (nb.neighbor_main_addr == b)) [
    | inl q ↦ inl (same, ground arith, rw (e, q) refl, rw (e, q) refl)
    | inr q ↦ inr (λ r. ground arith, rw (e, q) refl, rw (e, q) refl)
  ]
]

first_of :
    (nb : NeighborTuple) (nbs : List NeighborTuple) (b : Ipv4Address) (at : ℕ)
    → (nb.status ≡ status_sym → nb.neighbor_main_addr ≢ b)
    → ((j : ℕ) (o : NeighborTuple)
        → j < at
        → get_elem? nbs j ≡ some o
        → o.status ≡ status_sym
        → o.neighbor_main_addr ≢ b)
    → (j : ℕ) (o : NeighborTuple) → j < suc at
    → get_elem? (nb ∷ nbs) j ≡ some o
    → o.status ≡ status_sym
    → o.neighbor_main_addr ≢ b
first_of nb nbs b at miss h zero o lt g q =
    let e : nb ≡ o = cc in
    subst (λ (u : NeighborTuple). u.status ≡ status_sym → u.neighbor_main_addr ≢ b) e miss q
first_of nb nbs b at miss h (suc j) o lt g q = h j o (omega arith) g q

reached-IsWillingFirst :
    (neighbors : List NeighborTuple) (b : Ipv4Address)
    → reached_willingly (symmetric_neighbors neighbors) b ≡ true
    → IsWillingFirst neighbors b
unfolding reached_willingly symmetric_neighbors
reached-IsWillingFirst [] b h = cc
reached-IsWillingFirst (nb ∷ nbs) b h = elim (hit-cases nb nbs b) [
  | inl (same, addr, r, m) ↦ record {
    neighbor = nb;
    at = 0;
    held = refl;
    symmetric = same;
    address = addr;
    willing = ground arith;
    first = λ j o lt g q. absurd (omega arith);
  }
  | inr (miss, r, m) ↦
      let w = reached-IsWillingFirst nbs b (sym r ∙ h) in
      record {
        neighbor = w.neighbor;
        at = suc w.at;
        held = w.held;
        symmetric = w.symmetric;
        address = w.address;
        willing = w.willing;
        first = first_of nb nbs b w.at miss w.first;
      }
]

first_reached :
    (neighbors : List NeighborTuple) (b : Ipv4Address) (i : ℕ) (o : NeighborTuple)
    → get_elem? neighbors i ≡ some o
    → o.status ≡ status_sym
    → o.neighbor_main_addr ≡ b
    → o.willingness ≢ will_never
    → ((j : ℕ) (u : NeighborTuple)
        → j < i
        → get_elem? neighbors j ≡ some u
        → u.status ≡ status_sym
        → u.neighbor_main_addr ≢ b)
    → reached_willingly (symmetric_neighbors neighbors) b ≡ true
first_reached [] b i o g q a w f = cc
first_reached (nb ∷ nbs) b zero o g q a w f =
    let e : nb ≡ o = cc in
    elim (hit-cases nb nbs b) [
      | inl (same, addr, r, m) ↦
          r
          ∙ subst (λ (u : NeighborTuple). not (u.willingness == will_never) ≡ true) (sym e)
              (ground arith)
      | inr (miss, r, m) ↦ absurd (
          subst (λ (u : NeighborTuple). u.status ≡ status_sym → u.neighbor_main_addr ≢ b) e miss q
            a)
    ]
first_reached (nb ∷ nbs) b (suc i) o g q a w f = elim (hit-cases nb nbs b) [
  | inl (same, addr, r, m) ↦ absurd (f 0 nb (omega arith) refl same addr)
  | inr (miss, r, m) ↦
      r ∙ first_reached nbs b i o g q a w (λ j u lt held. f (suc j) u (omega arith) held)
]

not_member-IsNoNeighbor :
    (neighbors : List NeighborTuple) (a : Ipv4Address)
    → (is_member (symmetric_neighbors neighbors) a ≡ false) ↔ IsNoNeighbor neighbors a
unfolding is_member symmetric_neighbors
not_member-IsNoNeighbor [] a = (λ e. tt, λ h. refl)
not_member-IsNoNeighbor (nb ∷ nbs) a =
    let (to, from) = not_member-IsNoNeighbor nbs a in
    elim (hit-cases nb nbs a) [
      | inl (same, addr, r, m) ↦ (λ e. cc, λ h. absurd (h.0 same addr))
      | inr (miss, r, m) ↦ (λ e. (miss, to (sym m ∙ e)), λ h. m ∙ from h.1)
    ]

-- `MprComputation` has to cover the 2-hop neighbor `a` behind the neighbor `b` exactly if the 2-hop
-- neighbor set has this pair, `a` is neither the node itself nor the address of a symmetric neighbor,
-- and the first symmetric neighbor with the address `b` has a willingness other than WILL_NEVER.
pub two_hop_candidates_lem :
    (main : Ipv4Address) (neighbors : List NeighborTuple) (two_hops : List TwoHopNeighborTuple)
    (b a : Ipv4Address)
    → (reaches (two_hop_candidates main (symmetric_neighbors neighbors) two_hops) b a ≡ true)
      ↔ (reaches two_hops b a ≡ true)
        × (a ≢ main)
        × IsWillingFirst neighbors b
        × IsNoNeighbor neighbors a
two_hop_candidates_lem main neighbors two_hops b a =
    let n = symmetric_neighbors neighbors in
    let e = reaches-two_hop_candidates main n two_hops b a in
    let (to, from) = not_member-IsNoNeighbor neighbors a in
    (
      λ h. (
        ground (arith, e),
        ground (arith, e),
        reached-IsWillingFirst neighbors b (ground (arith, e)),
        to (ground (arith, e)),
      ),
      λ h.
          let (r, other, w, none_left) = h in
          let reached =
            first_reached neighbors b w.at w.neighbor w.held w.symmetric w.address w.willing
              w.first in
          ground (arith, e, reached, from none_left),
    )
