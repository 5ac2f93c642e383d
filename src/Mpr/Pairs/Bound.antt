-- ===== src/Mpr/Pairs/Bound.antt =====
-- The tuples of the 2-hop neighbor set bound those that the first steps of `MprComputation` of
-- RoutingProtocol/ocean-protocol.cc leave in N2.
use maritime_mesh_network.Base.{
  ◌==◌, ◌≤◌, inl, inr, List, [], ◌∷◌, length, arith, Bool-cases, Bool, true, false, if◌then◌else◌,
}
use maritime_mesh_network.Repositories.{
  Ipv4Address, NeighborTuple, TwoHopNeighborTuple, will_always,
}
use maritime_mesh_network.Mpr.{
  Selection, elect, elect_always, hops_through, cover_two_hop_neighbors, two_hop_candidates,
  sole_step, first_steps, symmetric_neighbors, in_n2,
}
use maritime_mesh_network.Mpr.Pairs.Shrink.{length-erase_hops}

length-elect : (b : Ipv4Address) (s : Selection) → length (elect b s).n2 ≤ length s.n2
unfolding elect cover_two_hop_neighbors
length-elect b s = length-erase_hops (hops_through b s.n2) s.n2

length-elect_if :
    (always : Bool) (b : Ipv4Address) (s : Selection)
    → length (if always then elect b s else s).n2 ≤ length s.n2
length-elect_if true b s = length-elect b s
length-elect_if false b s = omega arith

length-elect_always :
    (nbs : List NeighborTuple) (s : Selection) → length (elect_always nbs s).n2 ≤ length s.n2
unfolding elect_always
length-elect_always [] s = omega arith
length-elect_always (nb ∷ nbs) s =
    let always = nb.willingness == will_always in
    let b = nb.neighbor_main_addr in
    omega
      (arith, length-elect_always nbs (if always then elect b s else s), length-elect_if always b s)

length-two_hop_candidates :
    (main : Ipv4Address) (n : List NeighborTuple) (ts : List TwoHopNeighborTuple)
    → length (two_hop_candidates main n ts) ≤ length ts
unfolding two_hop_candidates
length-two_hop_candidates main n [] = omega arith
length-two_hop_candidates main n (t ∷ ts) = elim (Bool-cases (in_n2 main n t)) [
  | inl e ↦ rw e (omega (arith, length-two_hop_candidates main n ts))
  | inr e ↦ rw e (omega (arith, length-two_hop_candidates main n ts))
]

length-sole_step : (s : Selection) → length (sole_step s).n2 ≤ length s.n2
unfolding sole_step
length-sole_step s = length-erase_hops _ s.n2

pub length-first_steps :
    (main : Ipv4Address) (neighbors : List NeighborTuple) (two_hops : List TwoHopNeighborTuple)
    → length (first_steps main neighbors two_hops).n2 ≤ length two_hops
unfolding first_steps
length-first_steps main neighbors two_hops =
    let n = symmetric_neighbors neighbors in
    let n2 = two_hop_candidates main n two_hops in
    let s : Selection = record { mpr_set = []; n2 = n2 } in
    omega (
      arith,
      length-sole_step (elect_always n s),
      length-elect_always n s,
      length-two_hop_candidates main n two_hops,
    )
