-- ===== src/Handlers/Mid.antt =====
-- `ProcessMid` of RoutingProtocol/ocean-protocol.cc.
use maritime_mesh_network.Base.{
  ◌==◌, ◌&&◌, Bool, none, some, List, [], ◌∷◌, map, any, if◌then◌else◌,
}
use maritime_mesh_network.Base.Int.{◌+ℤ◌}
use maritime_mesh_network.Repositories.{
  Ipv4Address, IfaceAssocTuple, NeighborTuple, TwoHopNeighborTuple,
}
use maritime_mesh_network.Repositories.Clock.{Time}
use maritime_mesh_network.Wire.Body.{Mid}
use maritime_mesh_network.Wire.Message.{OceanMessageHeader}
use maritime_mesh_network.Protocol.{
  Protocol, OlsrState, Context, iface_assoc_tuple, schedule, add_iface_assoc_tuple, main_address_of,
}
use maritime_mesh_network.Handlers.{get_message_v_time}

unfoldable pub is_interface_of : Ipv4Address → Ipv4Address → IfaceAssocTuple → Bool
is_interface_of originator addr t = t.iface_addr == addr && t.main_addr == originator

module _ {H S : Type 0} (st : OlsrState S) (x : Context H) where
  -- Step 2 for one address: every tuple of the interface is renewed, or one is added.
  unfoldable pub associate_interface :
      Ipv4Address → Time → Ipv4Address → Protocol H S → Protocol H S
  unfolding is_interface_of schedule add_iface_assoc_tuple
  associate_interface originator expiry addr s =
      let added = schedule x.now expiry (iface_assoc_tuple addr) (
        add_iface_assoc_tuple st
          (record { iface_addr = addr; main_addr = originator; time = expiry }) s) in
      if any (is_interface_of originator addr) s.iface_assocs
      then record s {
        iface_assocs =
            map
              (λ (t : IfaceAssocTuple).
                if is_interface_of originator addr t then record t { time = expiry } else t)
              s.iface_assocs;
      }
      else added

  unfoldable pub associate_interfaces :
      Ipv4Address → Time → List Ipv4Address → Protocol H S → Protocol H S
  unfolding associate_interface
  associate_interfaces originator expiry [] s = s
  associate_interfaces originator expiry (addr ∷ addrs) s =
      associate_interfaces originator expiry addrs (associate_interface originator expiry addr s)

  -- Step 3: the neighbors and 2-hop neighbors are renamed to main addresses.
  unfoldable pub rename_neighbors : Protocol H S → Protocol H S
  unfolding main_address_of
  rename_neighbors s = record s {
    neighbors =
        map
          (λ (t : NeighborTuple). record t {
            neighbor_main_addr = main_address_of st s t.neighbor_main_addr;
          })
          s.neighbors;
    two_hop_neighbors =
        map
          (λ (t : TwoHopNeighborTuple). record t {
            neighbor_main_addr = main_address_of st s t.neighbor_main_addr;
            two_hop_neighbor_addr = main_address_of st s t.two_hop_neighbor_addr;
          })
          s.two_hop_neighbors;
  }

  unfoldable pub process_mid :
      OceanMessageHeader H → Mid → Ipv4Address → Protocol H S → Protocol H S
  unfolding get_message_v_time associate_interfaces rename_neighbors
  process_mid msg mid sender_iface s = elim (st.find_sym_link_tuple sender_iface x.now s.links) [
    | none ↦ s
    | some link ↦ rename_neighbors (
        associate_interfaces msg.header.originator_address (x.now +ℤ get_message_v_time x msg)
          mid.interface_addresses s)
  ]
