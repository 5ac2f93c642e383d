-- ===== src/Routing/Build.antt =====
-- `RoutingTableComputation` of RoutingProtocol/ocean-protocol.cc, steps 1 to 4. The sets that the
-- code reads from `m_state` are arguments; the routes to other networks, step 5, are in `Routing.Hna`.
pub mod Neighbors
pub mod Topology
pub mod Rooted
pub mod Within
pub mod Extension
pub mod Hops
use maritime_mesh_network.Base.{
  ℕ, zero, suc, ◌+◌, ◌==◌, Bool, true, false, not, ◌&&◌, Option, none, some, List, [], ◌∷◌,
  if◌then◌else◌, is_some, length,
}
use maritime_mesh_network.Base.Int.{leb_ℤ}
use maritime_mesh_network.Repositories.{
  Ipv4Address, LinkTuple, NeighborTuple, TwoHopNeighborTuple, TopologyTuple, IfaceAssocTuple,
  is_sym, will_never,
}
use maritime_mesh_network.Repositories.Clock.{Time}
use maritime_mesh_network.Routing.{
  Table, Ipv4, RoutingTableEntry, lookup, clear, add_entry, add_entry_at,
}

-- The variables of the loop over the links of one neighbor.
pub record LinkScan : Type 0 where
  pub table : Table
  pub nb_main_addr : Bool
  pub lt : Option LinkTuple

-- The link belongs to the neighbor and has not expired.
unfoldable pub is_link_of : (Ipv4Address → Ipv4Address) → Time → NeighborTuple → LinkTuple → Bool
is_link_of get_main now nb l =
    get_main l.neighbor_iface_addr == nb.neighbor_main_addr && leb_ℤ now l.time

module _ (ipv4 : Ipv4) (get_main : Ipv4Address → Ipv4Address) (now : Time) where
  unfoldable pub scan_link : NeighborTuple → LinkTuple → LinkScan → LinkScan
  unfolding is_link_of
  scan_link nb l s =
      if is_link_of get_main now nb l
      then record {
        table =
            add_entry_at ipv4 l.neighbor_iface_addr l.neighbor_iface_addr l.local_iface_addr 1
              s.table;
        nb_main_addr =
            if l.neighbor_iface_addr == nb.neighbor_main_addr then true else s.nb_main_addr;
        lt = some l;
      }
      else s

  unfoldable pub scan_links : NeighborTuple → List LinkTuple → LinkScan → LinkScan
  unfolding scan_link
  scan_links nb [] s = s
  scan_links nb (l ∷ ls) s = scan_links nb ls (scan_link nb l s)

  -- The entry for the main address of the neighbor, if no link has it.
  unfoldable pub add_main : NeighborTuple → LinkScan → Table
  add_main nb s = if s.nb_main_addr then s.table else elim s.lt [
    | none ↦ s.table
    | some l ↦
        add_entry_at ipv4 nb.neighbor_main_addr l.neighbor_iface_addr l.local_iface_addr 1 s.table
  ]

  -- Step 2 for one neighbor.
  unfoldable pub add_neighbor : List LinkTuple → NeighborTuple → Table → Table
  unfolding scan_links add_main
  add_neighbor links nb table =
      if is_sym nb.status
      then add_main nb
          (scan_links nb links (record { table = table; nb_main_addr = false; lt = none }))
      else table

  unfoldable pub add_neighbors : List LinkTuple → List NeighborTuple → Table → Table
  unfolding add_neighbor
  add_neighbors links [] table = table
  add_neighbors links (nb ∷ nbs) table = add_neighbors links nbs (add_neighbor links nb table)

-- Some neighbor with the address has a willingness other than WILL_NEVER.
unfoldable pub is_attached : List NeighborTuple → Ipv4Address → Bool
is_attached [] addr = false
is_attached (nb ∷ nbs) addr =
    if nb.neighbor_main_addr == addr && not (nb.willingness == will_never)
    then true
    else is_attached nbs addr

module _ (find_sym : Ipv4Address → Option NeighborTuple) (main : Ipv4Address)
    (neighbors : List NeighborTuple) where
  -- Step 3 for one 2-hop tuple; `find_sym` is `m_state.FindSymNeighborTuple`.
  unfoldable pub add_two_hop : TwoHopNeighborTuple → Table → Table
  unfolding is_attached
  add_two_hop t table =
      if is_some (find_sym t.two_hop_neighbor_addr)
      then table
      else if t.two_hop_neighbor_addr == main
      then table
      else if not (is_attached neighbors t.neighbor_main_addr)
      then table
      else elim (lookup t.neighbor_main_addr table) [
        | none ↦ table
        | some e ↦ add_entry t.two_hop_neighbor_addr e.next_addr e.interface 2 table
      ]

  unfoldable pub add_two_hops : List TwoHopNeighborTuple → Table → Table
  unfolding add_two_hop
  add_two_hops [] table = table
  add_two_hops (t ∷ ts) table = add_two_hops ts (add_two_hop t table)

-- The table and the flag `added` of one round of the loop over `h`.
pub record Round : Type 0 where
  pub table : Table
  pub added : Bool

-- Step 3.1 for one topology tuple.
unfoldable pub add_topology : ℕ → TopologyTuple → Round → Round
add_topology h t r =
    if is_some (lookup t.dest_addr r.table) then r else elim (lookup t.last_addr r.table) [
      | none ↦ r
      | some e ↦
          if e.distance == h
          then record {
            table = add_entry t.dest_addr e.next_addr e.interface (h + 1) r.table;
            added = true;
          }
          else r
    ]

unfoldable pub topology_round : ℕ → List TopologyTuple → Round → Round
unfolding add_topology
topology_round h [] r = r
topology_round h (t ∷ ts) r = topology_round h ts (add_topology h t r)

-- `for (uint32_t h = 2;; h++)`, with fuel; `none` means that the fuel ran out.
unfoldable pub topology_loop : List TopologyTuple → ℕ → ℕ → Table → Option Table
unfolding topology_round
topology_loop topology zero h table = none
topology_loop topology (suc fuel) h table =
    let r = topology_round h topology (record { table = table; added = false }) in
    let more = topology_loop topology fuel (h + 1) r.table in if r.added then more else some r.table

-- Step 4 for one tuple of the multiple interface association base.
unfoldable pub add_iface_assoc : IfaceAssocTuple → Table → Table
add_iface_assoc t table = elim (lookup t.main_addr table) [
  | none ↦ table
  | some e ↦
      if is_some (lookup t.iface_addr table)
      then table
      else add_entry t.iface_addr e.next_addr e.interface e.distance table
]

unfoldable pub add_iface_assocs : List IfaceAssocTuple → Table → Table
unfolding add_iface_assoc
add_iface_assocs [] table = table
add_iface_assocs (t ∷ ts) table = add_iface_assocs ts (add_iface_assoc t table)

-- What the computation reads: `m_state`, `m_mainAddress`, `Simulator::Now ()` and `m_ipv4`.
pub record Inputs : Type 0 where
  pub ipv4 : Ipv4
  pub get_main : Ipv4Address → Ipv4Address
  pub find_sym : Ipv4Address → Option NeighborTuple
  pub now : Time
  pub main : Ipv4Address
  pub links : List LinkTuple
  pub neighbors : List NeighborTuple
  pub two_hops : List TwoHopNeighborTuple
  pub topology : List TopologyTuple
  pub iface_assocs : List IfaceAssocTuple

-- The table before the loop over `h`.
unfoldable pub near_routes : Inputs → Table
unfolding add_neighbors add_two_hops
near_routes x =
    add_two_hops x.find_sym x.main x.neighbors x.two_hops
      (add_neighbors x.ipv4 x.get_main x.now x.links x.neighbors clear)

-- Steps 1 to 3. A round of the loop over `h` that adds an entry leaves fewer topology tuples
-- without a route, so one round more than there are tuples is enough.
unfoldable pub far_routes : Inputs → Option Table
unfolding near_routes topology_loop
far_routes x = topology_loop x.topology (suc (length x.topology)) 2 (near_routes x)

-- Steps 1 to 4.
unfoldable pub routing_table : Inputs → Option Table
unfolding far_routes add_iface_assocs
routing_table x = elim (far_routes x) [
  | none ↦ none
  | some table ↦ some (add_iface_assocs x.iface_assocs table)
]
