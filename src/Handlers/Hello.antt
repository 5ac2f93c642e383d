-- ===== src/Handlers/Hello.antt =====
-- `ProcessHello` of RoutingProtocol/ocean-protocol.cc, with `PopulateNeighborSet`,
-- `PopulateTwoHopNeighborSet` and `PopulateMprSelectorSet`.
pub mod Elsewhere
pub mod Selected
use maritime_mesh_network.Base.{
  ℕ, ◌/◌, ◌==◌, ◌&&◌, ◌||◌, Option, none, some, List, [], ◌∷◌, modify, if◌then◌else◌,
}
use maritime_mesh_network.Base.Int.{◌+ℤ◌, leb_ℤ}
use maritime_mesh_network.Repositories.{
  Ipv4Address, LinkTuple, NeighborTuple, TwoHopNeighborTuple, MprSelectorTuple,
}
use maritime_mesh_network.Repositories.Clock.{Time}
use maritime_mesh_network.Generate.{olsr_not_neigh, olsr_sym_neigh, olsr_mpr_neigh}
use maritime_mesh_network.Wire.Body.{LinkMessage, Hello}
use maritime_mesh_network.Wire.Message.{OceanMessageHeader}
use maritime_mesh_network.Protocol.{
  Protocol, OlsrState, Context, nb2hop_tuple, mpr_sel_tuple, schedule, main_address_of,
  add_two_hop_neighbor_tuple, add_mpr_selector_tuple,
}
use maritime_mesh_network.Protocol.Links.{update_mpr_set}
use maritime_mesh_network.Handlers.{get_message_v_time}
use maritime_mesh_network.Handlers.Sensing.{neighbor_type_in, link_sensing}

module _ {H S : Type 0} (st : OlsrState S) (x : Context H) where
  unfoldable pub populate_neighbor_set : OceanMessageHeader H → Hello → Protocol H S → Protocol H S
  populate_neighbor_set msg hello s =
      elim (st.neighbor.find msg.header.originator_address s.neighbors) [
        | none ↦ s
        | some i ↦ record s {
          neighbors =
              modify i (λ (t : NeighborTuple). record t { willingness = hello.willingness })
                s.neighbors;
        }
      ]

  -- The 2-hop neighbor is renewed, or one is added.
  unfoldable pub add_two_hop_neighbor :
      Ipv4Address → Time → Ipv4Address → Protocol H S → Protocol H S
  unfolding add_two_hop_neighbor_tuple schedule
  add_two_hop_neighbor originator expiry addr s =
      elim (st.two_hop.find (originator, addr) s.two_hop_neighbors) [
        | none ↦ schedule x.now expiry (nb2hop_tuple originator addr) (
            add_two_hop_neighbor_tuple st
              (record {
                neighbor_main_addr = originator;
                two_hop_neighbor_addr = addr;
                expiration_time = expiry;
              })
              s)
        | some i ↦ record s {
          two_hop_neighbors =
              modify i (λ (t : TwoHopNeighborTuple). record t { expiration_time = expiry })
                s.two_hop_neighbors;
        }
      ]

  -- One address of a link message with the neighbor type `nt`.
  unfoldable pub hear_address : Ipv4Address → Time → ℕ → Ipv4Address → Protocol H S → Protocol H S
  unfolding add_two_hop_neighbor main_address_of
  hear_address originator expiry nt iface_addr s =
      let addr = main_address_of st s iface_addr in
      if nt == olsr_sym_neigh || nt == olsr_mpr_neigh
      then (if addr == s.main_address then s else add_two_hop_neighbor originator expiry addr s)
      else if nt == olsr_not_neigh
      then record s {
        two_hop_neighbors = st.erase_two_hop_neighbor_tuples_to originator addr s.two_hop_neighbors;
      }
      else s

  unfoldable pub hear_addresses :
      Ipv4Address → Time → ℕ → List Ipv4Address → Protocol H S → Protocol H S
  unfolding hear_address
  hear_addresses originator expiry nt [] s = s
  hear_addresses originator expiry nt (addr ∷ addrs) s =
      hear_addresses originator expiry nt addrs (hear_address originator expiry nt addr s)

  unfoldable pub hear_messages : Ipv4Address → Time → List LinkMessage → Protocol H S → Protocol H S
  unfolding hear_addresses
  hear_messages originator expiry [] s = s
  hear_messages originator expiry (lm ∷ lms) s =
      hear_messages originator expiry lms
        (hear_addresses originator expiry (neighbor_type_in lm) lm.neighbor_interface_addresses s)

  -- The outer loop: the links that it runs over do not change.
  unfoldable pub hear_links :
      Ipv4Address → Time → List LinkMessage → List LinkTuple → Protocol H S → Protocol H S
  unfolding hear_messages main_address_of
  hear_links originator expiry lms [] s = s
  hear_links originator expiry lms (l ∷ ls) s = hear_links originator expiry lms ls (
      if main_address_of st s l.neighbor_iface_addr == originator && leb_ℤ x.now l.sym_time
      then hear_messages originator expiry lms s
      else s)

  unfoldable pub populate_two_hop_neighbor_set :
      OceanMessageHeader H → Hello → Protocol H S → Protocol H S
  unfolding get_message_v_time hear_links
  populate_two_hop_neighbor_set msg hello s =
      hear_links msg.header.originator_address (x.now +ℤ get_message_v_time x msg)
        hello.link_messages s.links s

  -- One address of a link message with the neighbor type MPR_NEIGH.
  unfoldable pub select_mpr : Ipv4Address → Time → Ipv4Address → Protocol H S → Protocol H S
  unfolding main_address_of add_mpr_selector_tuple schedule
  select_mpr originator expiry iface_addr s =
      let selected : Protocol H S = elim (st.mpr_selector.find originator s.mpr_selectors) [
        | none ↦ schedule x.now expiry (mpr_sel_tuple originator) (
            add_mpr_selector_tuple st (record { main_addr = originator; expiration_time = expiry })
              s)
        | some i ↦ record s {
          mpr_selectors =
              modify i (λ (t : MprSelectorTuple). record t { expiration_time = expiry })
                s.mpr_selectors;
        }
      ] in
      if main_address_of st s iface_addr == s.main_address then selected else s

  unfoldable pub select_mprs : Ipv4Address → Time → List Ipv4Address → Protocol H S → Protocol H S
  unfolding select_mpr
  select_mprs originator expiry [] s = s
  select_mprs originator expiry (addr ∷ addrs) s =
      select_mprs originator expiry addrs (select_mpr originator expiry addr s)

  -- The neighbor type is `linkCode >> 2` here, without a mask.
  unfoldable pub select_from : Ipv4Address → Time → List LinkMessage → Protocol H S → Protocol H S
  unfolding select_mprs
  select_from originator expiry [] s = s
  select_from originator expiry (lm ∷ lms) s = select_from originator expiry lms (
      if lm.link_code / 4 == olsr_mpr_neigh
      then select_mprs originator expiry lm.neighbor_interface_addresses s
      else s)

  unfoldable pub populate_mpr_selector_set :
      OceanMessageHeader H → Hello → Protocol H S → Protocol H S
  unfolding get_message_v_time select_from
  populate_mpr_selector_set msg hello s =
      select_from msg.header.originator_address (x.now +ℤ get_message_v_time x msg)
        hello.link_messages s

  unfoldable pub process_hello :
      OceanMessageHeader H
      → Hello
      → Ipv4Address
      → Ipv4Address
      → Protocol H S
      → Option (Protocol H S)
  unfolding link_sensing populate_neighbor_set populate_two_hop_neighbor_set update_mpr_set
      populate_mpr_selector_set
  process_hello msg hello receiver_iface sender_iface s =
      elim (link_sensing st x msg hello receiver_iface sender_iface s) [
        | none ↦ none
        | some sensed ↦ some (
            populate_mpr_selector_set msg hello (
              update_mpr_set st x
                (populate_two_hop_neighbor_set msg hello (populate_neighbor_set msg hello sensed))))
      ]
