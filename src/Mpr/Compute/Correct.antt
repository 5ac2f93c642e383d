-- ===== src/Mpr/Compute/Correct.antt =====
-- `MprComputation` of RoutingProtocol/ocean-protocol.cc ends, and its result is an MPR set.
use maritime_mesh_network.Base.{
  ℕ, zero, suc, ◌≡◌, ◌≢◌, ◌≤◌, inl, inr, refl, true, false, Option, some, List, [], ◌∷◌, length,
  elem, arith,
}
use maritime_mesh_network.Repositories.{Ipv4Address, NeighborTuple, TwoHopNeighborTuple}
use maritime_mesh_network.Mpr.{
  Selection, symmetric_neighbors, two_hop_candidates, reached_willingly, is_member, first_steps,
}
use maritime_mesh_network.Mpr.Pairs.{reaches, is_willing, IsCovered, IsSound}
use maritime_mesh_network.Mpr.Pairs.Bound.{length-first_steps}
use maritime_mesh_network.Mpr.Start.{
  reaches-two_hop_candidates, candidates_willing, first_steps-IsSound,
}
use maritime_mesh_network.Mpr.Choice.{degree}
use maritime_mesh_network.Mpr.Compute.{cover_round, cover_loop, mpr_computation}
use maritime_mesh_network.Mpr.Compute.Progress.{cover_round_progress}

module _ (deg : NeighborTuple → ℕ) (n : List NeighborTuple) (n2₀ : List TwoHopNeighborTuple)
    (w : (b a : Ipv4Address) → reaches n2₀ b a ≡ true → is_willing n b ≡ true) where
  -- The loop ends with N2 empty and the invariant kept.
  cover_loop_ends :
      (fuel : ℕ) (mprs : List Ipv4Address) (n2 : List TwoHopNeighborTuple)
      → let s : Selection = record { mpr_set = mprs; n2 = n2 } in
        length n2 ≤ fuel
        → IsSound n n2₀ s
        → (t : Selection) × (cover_loop deg n fuel s ≡ some t) × (t.n2 ≡ []) × IsSound n n2₀ t
  unfolding cover_loop
  cover_loop_ends zero mprs [] le h = (_, refl, refl, h)
  cover_loop_ends (suc fuel) mprs [] le h = (_, refl, refl, h)
  cover_loop_ends zero mprs (t ∷ ts) le h = absurd (omega arith)
  cover_loop_ends (suc fuel) mprs (t ∷ ts) le h =
      let s : Selection = record { mpr_set = mprs; n2 = t ∷ ts } in
      let (h', less) = cover_round_progress deg n n2₀ w s t ts refl h in
      cover_loop_ends fuel (cover_round deg n s).mpr_set (cover_round deg n s).n2 (omega arith) h'

IsCovered-at_end :
    (n : List NeighborTuple) (n2₀ : List TwoHopNeighborTuple) (t : Selection)
    → t.n2 ≡ []
    → IsSound n n2₀ t
    → (b a : Ipv4Address) → reaches n2₀ b a ≡ true
    → IsCovered t.mpr_set n2₀ a
IsCovered-at_end n n2₀ t e h b a r = elim (h.covered b a r) [
  | inr c ↦ c
  | inl left ↦ absurd (let bad : reaches [] b a ≡ true = rw e at left in cc)
]

-- What an MPR set of the node is: every member is the main address of a symmetric neighbor whose
-- willingness is not WILL_NEVER, and for every 2-hop tuple (b, a) whose node `a` is neither the
-- node itself nor a symmetric neighbor, and whose neighbor `b` is first found among the symmetric
-- neighbors with a willingness other than WILL_NEVER, some member reaches `a`.
pub record IsMprSet (main : Ipv4Address) (n : List NeighborTuple)
    (two_hops : List TwoHopNeighborTuple) (mprs : List Ipv4Address) : Type 0 where
  pub willing : (c : Ipv4Address) → elem c mprs ≡ true → is_willing n c ≡ true
  pub covers :
      (b a : Ipv4Address)
      → reaches two_hops b a ≡ true
      → a ≢ main
      → reached_willingly n b ≡ true
      → is_member n a ≡ false
      → IsCovered mprs two_hops a

module _ (main : Ipv4Address) (neighbors : List NeighborTuple)
    (two_hops : List TwoHopNeighborTuple) where
  covers_raw :
      (t : Selection)
      → let n = symmetric_neighbors neighbors in
        let n2 = two_hop_candidates main n two_hops in
        t.n2 ≡ [] → IsSound n n2 t → IsMprSet main n two_hops t.mpr_set
  covers_raw t e h = record {
    willing = h.willing;
    covers = λ b a r ne w m.
        let n = symmetric_neighbors neighbors in
        let n2 = two_hop_candidates main n two_hops in
        let raw = λ (x : Ipv4Address). reaches-two_hop_candidates main n two_hops x a in
        let (c, q, p) = IsCovered-at_end n n2 t e h b a (ground (arith, raw b)) in
        (c, q, ground (arith, raw c));
  }

  -- `MprComputation` ends on every neighbor set and 2-hop neighbor set, within as many rounds of
  -- its loop as there are 2-hop tuples, and hands an MPR set of the node to `SetMprSet`.
  pub mpr_computation-IsMprSet :
      (find : Ipv4Address → Option NeighborTuple)
      → (mprs : List Ipv4Address) × (mpr_computation find main neighbors two_hops ≡ some mprs)
        × IsMprSet main (symmetric_neighbors neighbors) two_hops mprs
  unfolding mpr_computation
  mpr_computation-IsMprSet find =
      let n = symmetric_neighbors neighbors in
      let s = first_steps main neighbors two_hops in
      let (t, e, empty, h) =
        cover_loop_ends (degree find two_hops) n (two_hop_candidates main n two_hops)
          (candidates_willing main n two_hops) (length two_hops) s.mpr_set s.n2
          (length-first_steps main neighbors two_hops)
          (first_steps-IsSound main neighbors two_hops) in
      (t.mpr_set, rw (e, mpr_computation), covers_raw t empty h)
