-- ===== src/Mpr.antt =====
-- The selection of multipoint relays: `MprComputation` and `CoverTwoHopNeighbors` of
-- RoutingProtocol/ocean-protocol.cc, up to the loop of step 4, which is in `Mpr.Compute`. The
-- neighbor set and the 2-hop neighbor set that the code reads from `m_state` are arguments.
pub mod Pairs
pub mod Start
pub mod Candidates
pub mod Choice
pub mod Compute
use maritime_mesh_network.Base.{
  ◌==◌, Bool, true, false, not, ◌&&◌, List, [], ◌∷◌, if◌then◌else◌, elem, set_insert, remove_if,
}
use maritime_mesh_network.Repositories.{
  Ipv4Address, NeighborTuple, TwoHopNeighborTuple, is_sym, will_never, will_always,
}

-- `N`: the symmetric neighbors.
unfoldable pub symmetric_neighbors : List NeighborTuple → List NeighborTuple
symmetric_neighbors [] = []
symmetric_neighbors (nb ∷ nbs) =
    let rest = symmetric_neighbors nbs in if is_sym nb.status then nb ∷ rest else rest

-- The first member of N with the given main address has a willingness other than WILL_NEVER.
unfoldable pub reached_willingly : List NeighborTuple → Ipv4Address → Bool
reached_willingly [] addr = false
reached_willingly (nb ∷ nbs) addr =
    if nb.neighbor_main_addr == addr
    then not (nb.willingness == will_never)
    else reached_willingly nbs addr

-- Some member of N has the given main address.
unfoldable pub is_member : List NeighborTuple → Ipv4Address → Bool
is_member [] addr = false
is_member (nb ∷ nbs) addr = if nb.neighbor_main_addr == addr then true else is_member nbs addr

-- The three exclusions (ii), (i) and (iii), in the order of the code.
unfoldable pub in_n2 : Ipv4Address → List NeighborTuple → TwoHopNeighborTuple → Bool
in_n2 main n t =
    if t.two_hop_neighbor_addr == main
    then false
    else if not (reached_willingly n t.neighbor_main_addr)
    then false
    else if is_member n t.two_hop_neighbor_addr
    then false
    else true

-- `N2`: the tuples of the 2-hop neighbor set that have to be covered.
unfoldable pub two_hop_candidates :
    Ipv4Address → List NeighborTuple → List TwoHopNeighborTuple → List TwoHopNeighborTuple
unfolding in_n2
two_hop_candidates main n [] = []
two_hop_candidates main n (t ∷ ts) =
    let rest = two_hop_candidates main n ts in if in_n2 main n t then t ∷ rest else rest

-- The set `toRemove` of `CoverTwoHopNeighbors`.
unfoldable pub hops_through : Ipv4Address → List TwoHopNeighborTuple → List Ipv4Address
hops_through addr [] = []
hops_through addr (t ∷ ts) =
    let rest = hops_through addr ts in
    if t.neighbor_main_addr == addr then set_insert t.two_hop_neighbor_addr rest else rest

-- Erases the tuples whose 2-hop address is in the set.
unfoldable pub erase_hops : List Ipv4Address → List TwoHopNeighborTuple → List TwoHopNeighborTuple
erase_hops covered = remove_if (λ t. elem t.two_hop_neighbor_addr covered)

unfoldable pub cover_two_hop_neighbors :
    Ipv4Address → List TwoHopNeighborTuple → List TwoHopNeighborTuple
unfolding hops_through erase_hops
cover_two_hop_neighbors addr n2 = erase_hops (hops_through addr n2) n2

-- The two variables that the steps of the computation share.
pub record Selection : Type 0 where
  pub mpr_set : List Ipv4Address
  pub n2 : List TwoHopNeighborTuple

-- `mprSet.insert (addr); CoverTwoHopNeighbors (addr, N2)`.
unfoldable pub elect : Ipv4Address → Selection → Selection
unfolding cover_two_hop_neighbors
elect addr s = record {
  mpr_set = set_insert addr s.mpr_set;
  n2 = cover_two_hop_neighbors addr s.n2;
}

-- Step 1: the members of N with willingness WILL_ALWAYS.
unfoldable pub elect_always : List NeighborTuple → Selection → Selection
unfolding elect
elect_always [] s = s
elect_always (nb ∷ nbs) s =
    elect_always nbs (if nb.willingness == will_always then elect nb.neighbor_main_addr s else s)

-- No tuple of the list reaches the same 2-hop neighbor through another neighbor.
unfoldable pub only_one : TwoHopNeighborTuple → List TwoHopNeighborTuple → Bool
only_one t [] = true
only_one t (o ∷ os) =
    if (o.two_hop_neighbor_addr == t.two_hop_neighbor_addr)
      && not (o.neighbor_main_addr == t.neighbor_main_addr)
    then false
    else only_one t os

-- The variables of step 3.
pub record Sole : Type 0 where
  pub mpr_set : List Ipv4Address
  pub covered : List Ipv4Address

-- Inserts the 2-hop neighbors that the newly elected MPR reaches.
unfoldable pub note_covered :
    Ipv4Address → List TwoHopNeighborTuple → List Ipv4Address → List Ipv4Address
note_covered addr [] covered = covered
note_covered addr (o ∷ os) covered =
    note_covered addr os
      (if o.neighbor_main_addr == addr then set_insert o.two_hop_neighbor_addr covered else covered)

-- The loop of step 3 over `N2`, which does not change meanwhile.
unfoldable pub elect_sole : List TwoHopNeighborTuple → List TwoHopNeighborTuple → Sole → Sole
unfolding only_one note_covered
elect_sole n2 [] s = s
elect_sole n2 (t ∷ ts) s = elect_sole n2 ts (
    if only_one t n2
    then record {
      mpr_set = set_insert t.neighbor_main_addr s.mpr_set;
      covered = note_covered t.neighbor_main_addr n2 s.covered;
    }
    else s)

-- Step 3: the only neighbors that reach some node of N2, then the removal of what they cover.
unfoldable pub sole_step : Selection → Selection
unfolding elect_sole erase_hops
sole_step s =
    let sole = elect_sole s.n2 s.n2 (record { mpr_set = s.mpr_set; covered = [] }) in
    record { mpr_set = sole.mpr_set; n2 = erase_hops sole.covered s.n2 }

-- Steps 1 and 3, which precede the loop.
unfoldable pub first_steps : Ipv4Address → List NeighborTuple → List TwoHopNeighborTuple → Selection
unfolding symmetric_neighbors two_hop_candidates elect_always sole_step
first_steps main neighbors two_hops =
    let n = symmetric_neighbors neighbors in
    sole_step (elect_always n (record { mpr_set = []; n2 = two_hop_candidates main n two_hops }))
