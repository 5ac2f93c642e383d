-- ===== src/Handlers/Hna.antt =====
-- `ProcessHna` of RoutingProtocol/ocean-protocol.cc.
use maritime_mesh_network.Base.{none, some, List, [], ◌∷◌, modify}
use maritime_mesh_network.Base.Int.{◌+ℤ◌}
use maritime_mesh_network.Repositories.{Ipv4Address, AssociationTuple}
use maritime_mesh_network.Repositories.Clock.{Time}
use maritime_mesh_network.Wire.Body.{Hna, HnaAssociation}
use maritime_mesh_network.Wire.Message.{OceanMessageHeader}
use maritime_mesh_network.Protocol.{
  Protocol, OlsrState, Context, association_tuple, schedule, add_association_tuple,
}
use maritime_mesh_network.Handlers.{get_message_v_time}

module _ {H S : Type 0} (st : OlsrState S) (x : Context H) where
  -- Step 2 for one pair of a network address and a mask.
  unfoldable pub associate : Ipv4Address → Time → HnaAssociation → Protocol H S → Protocol H S
  unfolding schedule add_association_tuple
  associate originator expiry a s =
      elim (st.association.find (originator, a.address, a.mask) s.association_set) [
        | some i ↦ record s {
          association_set =
              modify i (λ (t : AssociationTuple). record t { expiration_time = expiry })
                s.association_set;
        }
        | none ↦ schedule x.now expiry (association_tuple originator a.address a.mask) (
            add_association_tuple st
              (record {
                gateway_addr = originator;
                network_addr = a.address;
                netmask = a.mask;
                expiration_time = expiry;
              })
              s)
      ]

  unfoldable pub associate_all :
      Ipv4Address → Time → List HnaAssociation → Protocol H S → Protocol H S
  unfolding associate
  associate_all originator expiry [] s = s
  associate_all originator expiry (a ∷ rest) s =
      associate_all originator expiry rest (associate originator expiry a s)

  unfoldable pub process_hna :
      OceanMessageHeader H → Hna → Ipv4Address → Protocol H S → Protocol H S
  unfolding get_message_v_time associate_all
  process_hna msg hna sender_iface s = elim (st.find_sym_link_tuple sender_iface x.now s.links) [
    | none ↦ s
    | some link ↦
        associate_all msg.header.originator_address (x.now +ℤ get_message_v_time x msg)
          hna.associations s
  ]
