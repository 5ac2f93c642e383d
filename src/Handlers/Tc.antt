-- ===== src/Handlers/Tc.antt =====
-- `ProcessTc` of RoutingProtocol/ocean-protocol.cc.
pub mod Accepted
pub mod Processed
use maritime_mesh_network.Base.{ℕ, none, some, List, [], ◌∷◌, modify}
use maritime_mesh_network.Base.Int.{◌+ℤ◌}
use maritime_mesh_network.Repositories.{Ipv4Address, TopologyTuple}
use maritime_mesh_network.Repositories.Clock.{Time}
use maritime_mesh_network.Wire.Body.{Tc}
use maritime_mesh_network.Wire.Message.{OceanMessageHeader}
use maritime_mesh_network.Protocol.{
  Protocol, OlsrState, Context, topology_tuple, schedule, add_topology_tuple,
}
use maritime_mesh_network.Handlers.{get_message_v_time}

module _ {H S : Type 0} (st : OlsrState S) (x : Context H) where
  -- Step 4 for one address, with the originator, the ANSN and the new expiration time.
  unfoldable pub advertise : Ipv4Address → ℕ → Time → Ipv4Address → Protocol H S → Protocol H S
  unfolding schedule add_topology_tuple
  advertise originator ansn expiry addr s = elim (st.topology.find (addr, originator) s.topology) [
    | some i ↦ record s {
      topology = modify i (λ (t : TopologyTuple). record t { expiration_time = expiry }) s.topology;
    }
    | none ↦ schedule x.now expiry (topology_tuple addr originator) (
        add_topology_tuple st
          (record {
            dest_addr = addr;
            last_addr = originator;
            sequence_number = ansn;
            expiration_time = expiry;
          })
          s)
  ]

  unfoldable pub advertise_all :
      Ipv4Address → ℕ → Time → List Ipv4Address → Protocol H S → Protocol H S
  unfolding advertise
  advertise_all originator ansn expiry [] s = s
  advertise_all originator ansn expiry (addr ∷ addrs) s =
      advertise_all originator ansn expiry addrs (advertise originator ansn expiry addr s)

  unfoldable pub process_tc : OceanMessageHeader H → Tc → Ipv4Address → Protocol H S → Protocol H S
  unfolding get_message_v_time advertise_all
  process_tc msg tc sender_iface s =
      let originator = msg.header.originator_address in
      elim (st.find_sym_link_tuple sender_iface x.now s.links) [
        | none ↦ s
        | some link ↦ elim (st.find_newer_topology_tuple originator tc.ansn s.topology) [
          | some newer ↦ s
          | none ↦
              advertise_all originator tc.ansn (x.now +ℤ get_message_v_time x msg)
                tc.neighbor_addresses
                (record s {
                  topology = st.erase_older_topology_tuples originator tc.ansn s.topology;
                })
        ]
      ]
