-- ===== src/Mpr/Compute/Progress.antt =====
-- One round of the loop of step 4 of `MprComputation` of RoutingProtocol/ocean-protocol.cc: it
-- elects a willing neighbor, and N2 gets shorter.
use maritime_mesh_network.Base.{
  ℕ, ◌==◌, ◌≡◌, ◌≢◌, ◌<◌, inl, inr, refl, true, List, [], ◌∷◌, length, arith, In, Bool-cases,
}
use maritime_mesh_network.Repositories.{Ipv4Address, NeighborTuple, TwoHopNeighborTuple}
use maritime_mesh_network.Mpr.{Selection}
use maritime_mesh_network.Mpr.Pairs.{reaches, is_willing, IsSound, elect-IsSound}
use maritime_mesh_network.Mpr.Pairs.Shrink.{length-cover}
use maritime_mesh_network.Mpr.Choice.{reachability}
use maritime_mesh_network.Mpr.Choice.Best.{choose_best}
use maritime_mesh_network.Mpr.Compute.{cover_round}

-- A neighbor with reachability reaches some node.
reaches_of_reachability :
    (n2 : List TwoHopNeighborTuple) (nb : NeighborTuple)
    → reachability n2 nb ≢ 0
    → (a : Ipv4Address) × (reaches n2 nb.neighbor_main_addr a ≡ true)
unfolding reachability
reaches_of_reachability [] nb h = absurd (h refl)
reaches_of_reachability (t ∷ ts) nb h =
    elim (Bool-cases (nb.neighbor_main_addr == t.neighbor_main_addr)) [
      | inl e ↦ (t.two_hop_neighbor_addr, ground arith)
      | inr e ↦ let (a, r) = reaches_of_reachability ts nb (rw e at h) in (a, ground arith)
    ]

-- The first tuple of N2 gives its neighbor reachability.
reachability_first :
    (t : TwoHopNeighborTuple) (ts : List TwoHopNeighborTuple) (nb : NeighborTuple)
    → nb.neighbor_main_addr ≡ t.neighbor_main_addr
    → reachability (t ∷ ts) nb ≢ 0
unfolding reachability
reachability_first t ts nb e = ground arith

member_of_willing :
    (n : List NeighborTuple) (b : Ipv4Address)
    → is_willing n b ≡ true
    → (nb : NeighborTuple) × In nb n × (nb.neighbor_main_addr ≡ b)
member_of_willing [] b h = cc
member_of_willing (x ∷ n) b h = elim (Bool-cases (x.neighbor_main_addr == b)) [
  | inl e ↦ (x, inl refl, ground arith)
  | inr e ↦ let (nb, m, q) = member_of_willing n b (ground arith) in (nb, inr m, q)
]

module _ (deg : NeighborTuple → ℕ) (n : List NeighborTuple) (n2₀ : List TwoHopNeighborTuple)
    (w : (b a : Ipv4Address) → reaches n2₀ b a ≡ true → is_willing n b ≡ true) where
  -- While a tuple is left, a round keeps the invariant and shortens N2.
  pub cover_round_progress :
      (s : Selection) (t : TwoHopNeighborTuple) (ts : List TwoHopNeighborTuple)
      → s.n2 ≡ t ∷ ts
      → IsSound n n2₀ s
      → IsSound n n2₀ (cover_round deg n s) × (length (cover_round deg n s).n2 < length s.n2)
  unfolding cover_round
  cover_round_progress s t ts e h =
      let first : reaches s.n2 t.neighbor_main_addr t.two_hop_neighbor_addr ≡ true =
        rw e (ground arith) in
      let (nb, m, q) = member_of_willing n t.neighbor_main_addr (w _ _ (h.kept _ _ first)) in
      let (best, chosen, _, z, _) =
        choose_best deg n s.n2 nb m (rw e (reachability_first t ts nb q)) in
      let (a, r) = reaches_of_reachability s.n2 best z in
      rw (chosen, cover_round)
        (
          elect-IsSound n n2₀ best.neighbor_main_addr s (w _ a (h.kept _ a r)) h,
          length-cover best.neighbor_main_addr a s r,
        )
