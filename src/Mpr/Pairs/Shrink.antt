-- ===== src/Mpr/Pairs/Shrink.antt =====
-- `CoverTwoHopNeighbors` of RoutingProtocol/ocean-protocol.cc erases a tuple when the neighbor
-- reaches some node.
use maritime_mesh_network.Base.{◌≡◌, ◌≤◌, ◌<◌, true, List, [], ◌∷◌, length, elem, arith}
use maritime_mesh_network.Repositories.{Ipv4Address, TwoHopNeighborTuple}
use maritime_mesh_network.Mpr.{Selection, elect, hops_through, erase_hops, cover_two_hop_neighbors}
use maritime_mesh_network.Mpr.Pairs.{reaches, elem-hops_through}

pub length-erase_hops :
    (s : List Ipv4Address) (n2 : List TwoHopNeighborTuple) → length (erase_hops s n2) ≤ length n2
unfolding erase_hops
length-erase_hops s [] = omega arith
length-erase_hops s (t ∷ ts) = ground (arith, length-erase_hops s ts)

length-erase_hops_lt :
    (s : List Ipv4Address) (n2 : List TwoHopNeighborTuple) (b a : Ipv4Address)
    → elem a s ≡ true
    → reaches n2 b a ≡ true
    → length (erase_hops s n2) < length n2
unfolding erase_hops
length-erase_hops_lt s [] b a m r = cc
length-erase_hops_lt s (t ∷ ts) b a m r =
    ground (arith, length-erase_hops s ts, length-erase_hops_lt s ts b a m)

pub length-cover :
    (b a : Ipv4Address) (s : Selection)
    → reaches s.n2 b a ≡ true
    → length (elect b s).n2 < length s.n2
unfolding elect cover_two_hop_neighbors
length-cover b a s r =
    length-erase_hops_lt (hops_through b s.n2) s.n2 b a (rw (elem-hops_through b a s.n2) r) r
