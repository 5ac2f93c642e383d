-- ===== src/Protocol/Links.antt =====
-- What follows a change of a link in RoutingProtocol/ocean-protocol.cc: `LinkTupleAdded`,
-- `LinkTupleUpdated`, `RemoveLinkTuple` and `NeighborLoss`, with the two computations that the last
-- one starts, on the state of the protocol.
pub mod Symmetric
pub mod Ends
use maritime_mesh_network.Base.{
  ℕ, ◌==◌, ◌&&◌, Bool, Option, none, some, List, any, modify, if◌then◌else◌,
}
use maritime_mesh_network.Base.Int.{leb_ℤ}
use maritime_mesh_network.Repositories.{
  Ipv4Address, LinkTuple, NeighborTuple, Status, status_sym, status_not_sym, will_default,
}
use maritime_mesh_network.Repositories.Clock.{Time}
use maritime_mesh_network.Repositories.Interface.{found}
use maritime_mesh_network.Mpr.Compute.{mpr_computation}
use maritime_mesh_network.Routing.Build.{Inputs, routing_table}
use maritime_mesh_network.Routing.Hna.{hna_routes}
use maritime_mesh_network.Protocol.{
  Protocol, OlsrState, Context, main_address_of, add_neighbor_tuple,
}

module _ {H S : Type 0} (st : OlsrState S) (x : Context H) where
  -- `MprComputation` on the sets of the state, and `SetMprSet`. The computation always ends.
  unfoldable pub elected : Protocol H S → Option (List Ipv4Address)
  unfolding found mpr_computation
  elected s =
      mpr_computation (λ a. found st.neighbor a s.neighbors) s.main_address s.neighbors
        s.two_hop_neighbors

  unfoldable pub update_mpr_set : Protocol H S → Protocol H S
  unfolding elected
  update_mpr_set s = elim (elected s) [ none ↦ s | some mprs ↦ record s { mpr_set = mprs } ]

  -- What `RoutingTableComputation` reads.
  unfoldable pub routing_inputs : Protocol H S → Inputs
  unfolding main_address_of
  routing_inputs s = record {
    ipv4 = x.ipv4;
    get_main = main_address_of st s;
    find_sym = λ a. st.find_sym_neighbor_tuple a s.neighbors;
    now = x.now;
    main = s.main_address;
    links = s.links;
    neighbors = s.neighbors;
    two_hops = s.two_hop_neighbors;
    topology = s.topology;
    iface_assocs = s.iface_assocs;
  }

  -- Steps 1 to 4, and step 5; both always end.
  unfoldable pub update_routing_table : Protocol H S → Protocol H S
  unfolding routing_inputs routing_table
  update_routing_table s = elim (routing_table (routing_inputs s)) [
    | none ↦ s
    | some table ↦ record s { table = table }
  ]

  unfoldable pub update_hna_routes : Protocol H S → Protocol H S
  unfolding hna_routes
  update_hna_routes s =
      elim (hna_routes st.static_routing s.table s.associations s.association_set
        s.hna_routing_table) [ none ↦ s | some routes ↦ record s { hna_routing_table = routes } ]

  unfoldable pub routing_table_computation : Protocol H S → Protocol H S
  unfolding update_routing_table update_hna_routes
  routing_table_computation s = update_hna_routes (update_routing_table s)

  unfoldable pub link_tuple_added : LinkTuple → ℕ → Protocol H S → Protocol H S
  unfolding main_address_of add_neighbor_tuple
  link_tuple_added tuple willingness s =
      add_neighbor_tuple st
        (record {
          neighbor_main_addr = main_address_of st s tuple.neighbor_iface_addr;
          status = if leb_ℤ x.now tuple.sym_time then status_sym else status_not_sym;
          willingness = willingness;
        })
        s

  unfoldable pub remove_link_tuple : LinkTuple → Protocol H S → Protocol H S
  unfolding main_address_of
  remove_link_tuple tuple s = record s {
    neighbors =
        st.erase_neighbor_tuple (main_address_of st s tuple.neighbor_iface_addr) s.neighbors;
    links = st.link.erase tuple s.links;
  }

  -- A link to the neighbor with this main address is symmetric.
  unfoldable pub is_symmetric_to : Protocol H S → Ipv4Address → LinkTuple → Bool
  unfolding main_address_of
  is_symmetric_to s addr l =
      main_address_of st s l.neighbor_iface_addr == addr && leb_ℤ x.now l.sym_time

  -- The rest of `LinkTupleUpdated`, with the pointer to the neighbor tuple.
  unfoldable pub update_status : ℕ → Protocol H S → Protocol H S
  unfolding is_symmetric_to
  update_status i s = record s {
    neighbors =
        modify i
          (λ (nb : NeighborTuple). record nb {
            status =
                if any (is_symmetric_to s nb.neighbor_main_addr) s.links
                then status_sym
                else status_not_sym;
          })
          s.neighbors;
  }

  -- The first `if` of `LinkTupleUpdated`.
  unfoldable pub ensure_neighbor : LinkTuple → ℕ → Protocol H S → Protocol H S
  unfolding main_address_of link_tuple_added
  ensure_neighbor tuple willingness s =
      elim (st.neighbor.find (main_address_of st s tuple.neighbor_iface_addr) s.neighbors) [
        | none ↦ link_tuple_added tuple willingness s
        | some i ↦ s
      ]

  unfoldable pub link_tuple_updated : LinkTuple → ℕ → Protocol H S → Protocol H S
  unfolding ensure_neighbor main_address_of update_status
  link_tuple_updated tuple willingness s =
      let added = ensure_neighbor tuple willingness s in
      elim (st.neighbor.find (main_address_of st added tuple.neighbor_iface_addr) added.neighbors) [
        | none ↦ added
        | some i ↦ update_status i added
      ]

  unfoldable pub neighbor_loss : LinkTuple → Protocol H S → Protocol H S
  unfolding link_tuple_updated main_address_of update_mpr_set routing_table_computation
  neighbor_loss tuple s =
      let updated = link_tuple_updated tuple will_default s in
      let main = main_address_of st updated tuple.neighbor_iface_addr in
      routing_table_computation (
        update_mpr_set (record updated {
          two_hop_neighbors = st.erase_two_hop_neighbor_tuples main updated.two_hop_neighbors;
          mpr_selectors = st.erase_mpr_selector_tuples main updated.mpr_selectors;
        }))
