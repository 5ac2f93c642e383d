-- ===== src/Tests/Relays.antt =====
-- The selection of multipoint relays of RoutingProtocol/ocean-protocol.cc on a small network: the
-- node 1 with the neighbors 2, 3, 4 and 5, of which 5 is not willing.
use maritime_mesh_network.Base.{
  ℕ, ◌==◌, ◌≡◌, ◌≢◌, ◌↔◌, true, ◌&&◌, not, refl, inl, Option, none, some, List, [], ◌∷◌, In,
  set_insert, if◌then◌else◌, arith,
}
use maritime_mesh_network.Base.Int.{pos}
use maritime_mesh_network.Repositories.{
  Ipv4Address, NeighborTuple, TwoHopNeighborTuple, status_sym, will_never, will_default,
}
use maritime_mesh_network.Mpr.{
  symmetric_neighbors, two_hop_candidates, cover_two_hop_neighbors, reached_willingly, is_member,
  first_steps, sole_step, elect_sole, note_covered, only_one, elect_always, elect, erase_hops,
  hops_through, in_n2,
}
use maritime_mesh_network.Mpr.Pairs.{reaches, reaches-cover}
use maritime_mesh_network.Mpr.Candidates.{IsWillingFirst, IsNoNeighbor, two_hop_candidates_lem}
use maritime_mesh_network.Mpr.Choice.{
  degree, reachability, choose, consider_all, consider_nodes, consider, fill_buckets, push_node,
  insert_sorted,
}
use maritime_mesh_network.Mpr.Choice.Order.{Ranks}
use maritime_mesh_network.Mpr.Choice.Best.{choose_best}
use maritime_mesh_network.Mpr.Choice.Degree.{degree-eq-zero}
use maritime_mesh_network.Mpr.Compute.{mpr_computation, cover_loop, cover_round}
use maritime_mesh_network.Mpr.Compute.Correct.{IsMprSet, mpr_computation-IsMprSet}

abbrev neighbor : Ipv4Address → ℕ → NeighborTuple
neighbor a w = record { neighbor_main_addr = a; status = status_sym; willingness = w }

abbrev hop : Ipv4Address → Ipv4Address → TwoHopNeighborTuple
hop b a = record { neighbor_main_addr = b; two_hop_neighbor_addr = a; expiration_time = pos 0 }

abbrev neighbors : List NeighborTuple
neighbors =
    neighbor 2 will_default ∷ neighbor 3 will_default ∷ neighbor 4 6 ∷ neighbor 5 will_never ∷ []

abbrev two_hops : List TwoHopNeighborTuple
two_hops = hop 2 10 ∷ hop 3 10 ∷ hop 3 11 ∷ hop 4 11 ∷ hop 5 12 ∷ hop 2 3 ∷ hop 2 1 ∷ hop 4 13 ∷ []

abbrev find : Ipv4Address → Option NeighborTuple
find a =
    if a == 2
    then some (neighbor 2 will_default)
    else if a == 3
    then some (neighbor 3 will_default)
    else if a == 4
    then some (neighbor 4 6)
    else if a == 5
    then some (neighbor 5 will_never)
    else none

mpr_computation_run : mpr_computation find 1 neighbors two_hops ≡ some (2 ∷ 4 ∷ [])
unfolding mpr_computation cover_loop cover_round choose consider_all consider_nodes consider
    fill_buckets push_node insert_sorted reachability degree first_steps sole_step elect_sole
    note_covered only_one elect_always elect cover_two_hop_neighbors erase_hops hops_through
    two_hop_candidates in_n2 is_member reached_willingly symmetric_neighbors set_insert
mpr_computation_run = refl

mpr_computation-IsMprSet_example :
    (mprs : List Ipv4Address) × (mpr_computation find 1 neighbors two_hops ≡ some mprs)
    × IsMprSet 1 (symmetric_neighbors neighbors) two_hops mprs
mpr_computation-IsMprSet_example = mpr_computation-IsMprSet 1 neighbors two_hops find

abbrev last_hops : List TwoHopNeighborTuple
last_hops = hop 2 20 ∷ hop 2 21 ∷ hop 3 20 ∷ hop 3 21 ∷ []

last_reachability : reachability last_hops (neighbor 2 will_default) ≢ 0
unfolding reachability
last_reachability = ground arith

choose_best_example :
    (m : NeighborTuple) × ((choose (degree find two_hops) neighbors last_hops).max ≡ some m)
    × In m neighbors
    × (reachability last_hops m ≢ 0)
    × Ranks
        (degree find two_hops)
        (reachability last_hops (neighbor 2 will_default))
        (neighbor 2 will_default)
        (reachability last_hops m)
        m
choose_best_example =
    choose_best (degree find two_hops) neighbors last_hops (neighbor 2 will_default) (inl refl)
      last_reachability

degree-eq-zero_example : degree find two_hops (neighbor 2 will_default) ≡ 0
degree-eq-zero_example = degree-eq-zero find two_hops (neighbor 2 will_default) refl

two_hop_candidates_lem_example :
    (reaches (two_hop_candidates 1 (symmetric_neighbors neighbors) two_hops) 3 10 ≡ true)
    ↔ (reaches two_hops 3 10 ≡ true)
      × (◌≢◌ {A = ℕ} 10 1)
      × IsWillingFirst neighbors 3
      × IsNoNeighbor neighbors 10
two_hop_candidates_lem_example = two_hop_candidates_lem 1 neighbors two_hops 3 10

-- The node 10 is to be covered.
is_candidate : reaches (two_hop_candidates 1 (symmetric_neighbors neighbors) two_hops) 3 10 ≡ true
unfolding two_hop_candidates symmetric_neighbors in_n2 reached_willingly is_member
is_candidate = refl

reaches-cover_example :
    reaches (cover_two_hop_neighbors 2 two_hops) 3 10
    ≡ (reaches two_hops 3 10 && not (reaches two_hops 2 10))
reaches-cover_example = reaches-cover 2 two_hops 3 10
