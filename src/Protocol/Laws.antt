-- ===== src/Protocol/Laws.antt =====
-- The documented behaviour of ns-3's `OlsrState` that the theorems use, as named hypotheses.
use maritime_mesh_network.Base.{
  ℕ, ◌==◌, ltb, ◌≡◌, ◌≤◌, ◌&&◌, Bool, none, some, List, get_elem?, remove_if, All,
}
use maritime_mesh_network.Base.Int.{◌≤ℤ◌}
use maritime_mesh_network.Repositories.{
  Ipv4Address, Ipv4Mask, IfaceAssocTuple, LinkTuple, NeighborTuple, TwoHopNeighborTuple,
  MprSelectorTuple, DuplicateTuple, TopologyTuple, AssociationTuple,
}
use maritime_mesh_network.Repositories.Clock.{Time}
use maritime_mesh_network.Repositories.Interface.{IsRepository}
use maritime_mesh_network.Protocol.{OlsrState, Event, dup_tuple, topology_tuple, association_tuple}

-- The keys of the tuples, and the events of the keys.
abbrev pub link_key : LinkTuple → Ipv4Address
link_key t = t.neighbor_iface_addr

abbrev pub neighbor_key : NeighborTuple → Ipv4Address
neighbor_key t = t.neighbor_main_addr

abbrev pub two_hop_key : TwoHopNeighborTuple → Ipv4Address × Ipv4Address
two_hop_key t = (t.neighbor_main_addr, t.two_hop_neighbor_addr)

abbrev pub selector_key : MprSelectorTuple → Ipv4Address
selector_key t = t.main_addr

abbrev pub duplicate_key : DuplicateTuple → Ipv4Address × ℕ
duplicate_key t = (t.address, t.sequence_number)

abbrev pub topology_key : TopologyTuple → Ipv4Address × Ipv4Address
topology_key t = (t.dest_addr, t.last_addr)

abbrev pub iface_assoc_key : IfaceAssocTuple → Ipv4Address
iface_assoc_key t = t.iface_addr

abbrev pub association_key : AssociationTuple → Ipv4Address × Ipv4Address × Ipv4Mask
association_key t = (t.gateway_addr, t.network_addr, t.netmask)

abbrev pub duplicate_event : Ipv4Address × ℕ → Event
duplicate_event k = dup_tuple k.0 k.1

abbrev pub topology_event : Ipv4Address × Ipv4Address → Event
topology_event k = topology_tuple k.0 k.1

abbrev pub association_event : Ipv4Address × Ipv4Address × Ipv4Mask → Event
association_event k = association_tuple k.0 k.1 k.2

-- A topology tuple of this originator with a lower ANSN.
abbrev pub is_older : Ipv4Address → ℕ → TopologyTuple → Bool
is_older last ansn t = t.last_addr == last && ltb t.sequence_number ansn

pub record IsOlsrState {S : Type 0} (st : OlsrState S) : Type 0 where
  pub link : IsRepository link_key st.link
  pub neighbor : IsRepository neighbor_key st.neighbor
  pub two_hop : IsRepository two_hop_key st.two_hop
  pub mpr_selector : IsRepository selector_key st.mpr_selector
  pub duplicate : IsRepository duplicate_key st.duplicate
  pub topology : IsRepository topology_key st.topology
  pub iface_assoc : IsRepository iface_assoc_key st.iface_assoc
  pub association : IsRepository association_key st.association
  pub sym_link :
      (a : Ipv4Address) (now : Time) (v : List LinkTuple) (i : ℕ)
      → st.find_sym_link_tuple a now v ≡ some i
      → (t : LinkTuple) × (get_elem? v i ≡ some t)
        × (t.neighbor_iface_addr ≡ a)
        × (now ≤ℤ t.sym_time)
  pub no_newer :
      (a : Ipv4Address) (ansn : ℕ) (v : List TopologyTuple)
      → st.find_newer_topology_tuple a ansn v ≡ none
      → All (λ t. t.last_addr ≡ a → t.sequence_number ≤ ansn) v
  pub older :
      (a : Ipv4Address) (ansn : ℕ) (v : List TopologyTuple)
      → st.erase_older_topology_tuples a ansn v ≡ remove_if (is_older a ansn) v
  pub selectors :
      (a : Ipv4Address) (v : List MprSelectorTuple)
      → st.erase_mpr_selector_tuples a v ≡ remove_if (λ t. t.main_addr == a) v
  pub two_hops_to :
      (a b : Ipv4Address) (v : List TwoHopNeighborTuple)
      → st.erase_two_hop_neighbor_tuples_to a b v
        ≡ remove_if (λ t. t.neighbor_main_addr == a && t.two_hop_neighbor_addr == b) v
