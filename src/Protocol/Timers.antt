-- ===== src/Protocol/Timers.antt =====
-- The `…TupleTimerExpire` functions of RoutingProtocol/ocean-protocol.cc.
use maritime_mesh_network.Base.{ℕ, false, none, some, if◌then◌else◌}
use maritime_mesh_network.Base.Int.{ltb_ℤ}
use maritime_mesh_network.Repositories.{Ipv4Address, Ipv4Mask, LinkTuple}
use maritime_mesh_network.Repositories.Clock.{min_time}
use maritime_mesh_network.Repositories.Interface.{found}
use maritime_mesh_network.Protocol.{
  Protocol, OlsrState, Context, Event, dup_tuple, link_tuple, nb2hop_tuple, mpr_sel_tuple,
  topology_tuple, iface_assoc_tuple, association_tuple, schedule, remove_duplicate_tuple,
  remove_two_hop_neighbor_tuple, remove_mpr_selector_tuple, remove_topology_tuple,
  remove_iface_assoc_tuple, remove_association_tuple,
}
use maritime_mesh_network.Protocol.Links.{remove_link_tuple, neighbor_loss}

module _ {H S : Type 0} (st : OlsrState S) (x : Context H) where
  unfoldable pub dup_tuple_timer_expire : Ipv4Address → ℕ → Protocol H S → Protocol H S
  unfolding found schedule remove_duplicate_tuple
  dup_tuple_timer_expire address sequence_number s =
      elim (found st.duplicate (address, sequence_number) s.duplicates) [
        | none ↦ s
        | some tuple ↦
            if ltb_ℤ tuple.expiration_time x.now
            then remove_duplicate_tuple st tuple s
            else schedule x.now tuple.expiration_time (dup_tuple address sequence_number) s
      ]

  -- The branch of a link that is no longer symmetric.
  unfoldable pub lose_link : LinkTuple → Protocol H S → Protocol H S
  lose_link tuple s =
      let lost = neighbor_loss st x tuple s in
      if s.link_tuple_timer_first_time
      then record s { link_tuple_timer_first_time = false }
      else lost

  unfoldable pub link_tuple_timer_expire : Ipv4Address → Protocol H S → Protocol H S
  unfolding found schedule remove_link_tuple lose_link
  link_tuple_timer_expire neighbor_iface_addr s = elim (found st.link neighbor_iface_addr s.links) [
    | none ↦ s
    | some tuple ↦
        if ltb_ℤ tuple.time x.now
        then remove_link_tuple st x tuple s
        else if ltb_ℤ tuple.sym_time x.now
        then schedule x.now tuple.time (link_tuple neighbor_iface_addr) (lose_link tuple s)
        else schedule x.now (min_time tuple.time tuple.sym_time) (link_tuple neighbor_iface_addr) s
  ]

  unfoldable pub nb2hop_tuple_timer_expire : Ipv4Address → Ipv4Address → Protocol H S → Protocol H S
  unfolding found schedule remove_two_hop_neighbor_tuple
  nb2hop_tuple_timer_expire neighbor_main_addr two_hop_neighbor_addr s =
      elim (found st.two_hop (neighbor_main_addr, two_hop_neighbor_addr) s.two_hop_neighbors) [
        | none ↦ s
        | some tuple ↦
            if ltb_ℤ tuple.expiration_time x.now
            then remove_two_hop_neighbor_tuple st tuple s
            else schedule x.now tuple.expiration_time
                (nb2hop_tuple neighbor_main_addr two_hop_neighbor_addr) s
      ]

  unfoldable pub mpr_sel_tuple_timer_expire : Ipv4Address → Protocol H S → Protocol H S
  unfolding found schedule remove_mpr_selector_tuple
  mpr_sel_tuple_timer_expire main_addr s = elim (found st.mpr_selector main_addr s.mpr_selectors) [
    | none ↦ s
    | some tuple ↦
        if ltb_ℤ tuple.expiration_time x.now
        then remove_mpr_selector_tuple st tuple s
        else schedule x.now tuple.expiration_time (mpr_sel_tuple main_addr) s
  ]

  unfoldable pub topology_tuple_timer_expire :
      Ipv4Address → Ipv4Address → Protocol H S → Protocol H S
  unfolding found schedule remove_topology_tuple
  topology_tuple_timer_expire dest_addr last_addr s =
      elim (found st.topology (dest_addr, last_addr) s.topology) [
        | none ↦ s
        | some tuple ↦
            if ltb_ℤ tuple.expiration_time x.now
            then remove_topology_tuple st tuple s
            else schedule x.now tuple.expiration_time
                (topology_tuple tuple.dest_addr tuple.last_addr) s
      ]

  unfoldable pub iface_assoc_tuple_timer_expire : Ipv4Address → Protocol H S → Protocol H S
  unfolding found schedule remove_iface_assoc_tuple
  iface_assoc_tuple_timer_expire iface_addr s =
      elim (found st.iface_assoc iface_addr s.iface_assocs) [
        | none ↦ s
        | some tuple ↦
            if ltb_ℤ tuple.time x.now
            then remove_iface_assoc_tuple st tuple s
            else schedule x.now tuple.time (iface_assoc_tuple iface_addr) s
      ]

  unfoldable pub association_tuple_timer_expire :
      Ipv4Address → Ipv4Address → Ipv4Mask → Protocol H S → Protocol H S
  unfolding found schedule remove_association_tuple
  association_tuple_timer_expire gateway_addr network_addr netmask s =
      elim (found st.association (gateway_addr, network_addr, netmask) s.association_set) [
        | none ↦ s
        | some tuple ↦
            if ltb_ℤ tuple.expiration_time x.now
            then remove_association_tuple st tuple s
            else schedule x.now tuple.expiration_time
                (association_tuple gateway_addr network_addr netmask) s
      ]

  -- The call that an event makes.
  unfoldable pub run_event : Event → Protocol H S → Protocol H S
  unfolding dup_tuple_timer_expire link_tuple_timer_expire nb2hop_tuple_timer_expire
      mpr_sel_tuple_timer_expire topology_tuple_timer_expire iface_assoc_tuple_timer_expire
      association_tuple_timer_expire
  run_event (dup_tuple address number) s = dup_tuple_timer_expire address number s
  run_event (link_tuple addr) s = link_tuple_timer_expire addr s
  run_event (nb2hop_tuple main addr) s = nb2hop_tuple_timer_expire main addr s
  run_event (mpr_sel_tuple addr) s = mpr_sel_tuple_timer_expire addr s
  run_event (topology_tuple dest last) s = topology_tuple_timer_expire dest last s
  run_event (iface_assoc_tuple addr) s = iface_assoc_tuple_timer_expire addr s
  run_event (association_tuple gateway network mask) s =
      association_tuple_timer_expire gateway network mask s
