-- ===== src/Protocol.antt =====
-- The state of `OceanProtocol` in RoutingProtocol/ocean-protocol.cc that the message handlers and
-- the timers share, the calls of ns-3 that they make, and the functions that add and remove tuples.
-- `m_state` is its vectors; an event is scheduled at the current time plus the delay.
pub mod Links
pub mod Timers
pub mod Timed
pub mod Laws
pub mod Tracked
use maritime_mesh_network.Base.{ℕ, Bool, Option, none, some, List, ◌∷◌, get_elem?}
use maritime_mesh_network.Base.Int.{ℤ, ◌+ℤ◌}
use maritime_mesh_network.Repositories.{
  Ipv4Address, Ipv4Mask, IfaceAssocTuple, LinkTuple, NeighborTuple, TwoHopNeighborTuple,
  MprSelectorTuple, DuplicateTuple, TopologyTuple, AssociationTuple, Association,
}
use maritime_mesh_network.Repositories.Clock.{Time, delay}
use maritime_mesh_network.Repositories.Interface.{Repository, found}
use maritime_mesh_network.Routing.{Table, Ipv4, get_main_address}
use maritime_mesh_network.Routing.Hna.{StaticRouting}
use maritime_mesh_network.Queue.{Sender, next_sequence_number}

-- A call of one of the `…TupleTimerExpire` functions, with its arguments.
pub data Event : Type 0 where
  dup_tuple : Ipv4Address → ℕ → Event
  link_tuple : Ipv4Address → Event
  nb2hop_tuple : Ipv4Address → Ipv4Address → Event
  mpr_sel_tuple : Ipv4Address → Event
  topology_tuple : Ipv4Address → Ipv4Address → Event
  iface_assoc_tuple : Ipv4Address → Event
  association_tuple : Ipv4Address → Ipv4Address → Ipv4Mask → Event

-- `H` is the type of the heights, `S` that of the states of `m_hnaRoutingTable`.
pub record Protocol (H S : Type 0) : Type 0 where
  pub main_address : Ipv4Address
  pub links : List LinkTuple
  pub neighbors : List NeighborTuple
  pub two_hop_neighbors : List TwoHopNeighborTuple
  pub mpr_set : List Ipv4Address
  pub mpr_selectors : List MprSelectorTuple
  pub duplicates : List DuplicateTuple
  pub topology : List TopologyTuple
  pub iface_assocs : List IfaceAssocTuple
  pub association_set : List AssociationTuple
  pub associations : List Association
  pub ansn : ℕ
  pub predict_height : H
  pub link_tuple_timer_first_time : Bool
  pub table : Table
  pub hna_routing_table : S
  pub sender : Sender H
  pub events : List (Time × Event)

-- The calls of ns-3's `OlsrState` on the vectors, and of `Ipv4StaticRouting`.
pub record OlsrState (S : Type 0) : Type 0 where
  pub link : Repository Ipv4Address LinkTuple
  pub neighbor : Repository Ipv4Address NeighborTuple
  pub two_hop : Repository (Ipv4Address × Ipv4Address) TwoHopNeighborTuple
  pub mpr_selector : Repository Ipv4Address MprSelectorTuple
  pub duplicate : Repository (Ipv4Address × ℕ) DuplicateTuple
  pub topology : Repository (Ipv4Address × Ipv4Address) TopologyTuple
  pub iface_assoc : Repository Ipv4Address IfaceAssocTuple
  pub association : Repository (Ipv4Address × Ipv4Address × Ipv4Mask) AssociationTuple
  pub find_sym_link_tuple : Ipv4Address → Time → List LinkTuple → Option ℕ
  pub find_sym_neighbor_tuple : Ipv4Address → List NeighborTuple → Option NeighborTuple
  pub find_newer_topology_tuple : Ipv4Address → ℕ → List TopologyTuple → Option ℕ
  pub erase_older_topology_tuples : Ipv4Address → ℕ → List TopologyTuple → List TopologyTuple
  pub erase_neighbor_tuple : Ipv4Address → List NeighborTuple → List NeighborTuple
  pub erase_two_hop_neighbor_tuples :
      Ipv4Address → List TwoHopNeighborTuple → List TwoHopNeighborTuple
  pub erase_two_hop_neighbor_tuples_to :
      Ipv4Address → Ipv4Address → List TwoHopNeighborTuple → List TwoHopNeighborTuple
  pub erase_mpr_selector_tuples : Ipv4Address → List MprSelectorTuple → List MprSelectorTuple
  pub static_routing : StaticRouting S

-- What a handler reads at the moment it runs: `Simulator::Now ()`, the height that the mobility
-- model predicts, a height in whole micrometres, `Seconds (OLSR_OCEAN_HOLD_TIME)` (what ns-3 makes
-- of a number of seconds that is a `Time` itself), a random JITTER, `m_helloInterval` and `m_ipv4`.
pub record Context (H : Type 0) : Type 0 where
  pub now : Time
  pub predicted_height : H
  pub micrometres : H → ℤ
  pub ocean_hold_time : Time
  pub jitter : Time
  pub hello_interval : Time
  pub ipv4 : Ipv4

module _ {H S : Type 0} where
  -- `Simulator::Schedule (DELAY (time), event)`.
  unfoldable pub schedule : Time → Time → Event → Protocol H S → Protocol H S
  schedule now time event s = record s { events = (now +ℤ delay now time, event) ∷ s.events }

  unfoldable pub increment_ansn : Protocol H S → Protocol H S
  increment_ansn s = record s { ansn = next_sequence_number s.ansn }

  module _ (st : OlsrState S) where
    -- `GetMainAddress`.
    unfoldable pub main_address_of : Protocol H S → Ipv4Address → Ipv4Address
    unfolding found get_main_address
    main_address_of s addr = get_main_address (λ a. found st.iface_assoc a s.iface_assocs) addr

    unfoldable pub add_duplicate_tuple : DuplicateTuple → Protocol H S → Protocol H S
    add_duplicate_tuple t s = record s { duplicates = st.duplicate.insert t s.duplicates }

    unfoldable pub remove_duplicate_tuple : DuplicateTuple → Protocol H S → Protocol H S
    remove_duplicate_tuple t s = record s { duplicates = st.duplicate.erase t s.duplicates }

    unfoldable pub add_neighbor_tuple : NeighborTuple → Protocol H S → Protocol H S
    unfolding increment_ansn
    add_neighbor_tuple t s =
        increment_ansn (record s { neighbors = st.neighbor.insert t s.neighbors })

    unfoldable pub remove_neighbor_tuple : NeighborTuple → Protocol H S → Protocol H S
    unfolding increment_ansn
    remove_neighbor_tuple t s =
        increment_ansn (record s { neighbors = st.neighbor.erase t s.neighbors })

    unfoldable pub add_two_hop_neighbor_tuple : TwoHopNeighborTuple → Protocol H S → Protocol H S
    add_two_hop_neighbor_tuple t s = record s {
      two_hop_neighbors = st.two_hop.insert t s.two_hop_neighbors;
    }

    unfoldable pub remove_two_hop_neighbor_tuple : TwoHopNeighborTuple → Protocol H S → Protocol H S
    remove_two_hop_neighbor_tuple t s = record s {
      two_hop_neighbors = st.two_hop.erase t s.two_hop_neighbors;
    }

    unfoldable pub add_mpr_selector_tuple : MprSelectorTuple → Protocol H S → Protocol H S
    unfolding increment_ansn
    add_mpr_selector_tuple t s =
        increment_ansn (record s { mpr_selectors = st.mpr_selector.insert t s.mpr_selectors })

    unfoldable pub remove_mpr_selector_tuple : MprSelectorTuple → Protocol H S → Protocol H S
    unfolding increment_ansn
    remove_mpr_selector_tuple t s =
        increment_ansn (record s { mpr_selectors = st.mpr_selector.erase t s.mpr_selectors })

    unfoldable pub add_topology_tuple : TopologyTuple → Protocol H S → Protocol H S
    add_topology_tuple t s = record s { topology = st.topology.insert t s.topology }

    unfoldable pub remove_topology_tuple : TopologyTuple → Protocol H S → Protocol H S
    remove_topology_tuple t s = record s { topology = st.topology.erase t s.topology }

    unfoldable pub add_iface_assoc_tuple : IfaceAssocTuple → Protocol H S → Protocol H S
    add_iface_assoc_tuple t s = record s { iface_assocs = st.iface_assoc.insert t s.iface_assocs }

    unfoldable pub remove_iface_assoc_tuple : IfaceAssocTuple → Protocol H S → Protocol H S
    remove_iface_assoc_tuple t s = record s { iface_assocs = st.iface_assoc.erase t s.iface_assocs }

    unfoldable pub add_association_tuple : AssociationTuple → Protocol H S → Protocol H S
    add_association_tuple t s = record s {
      association_set = st.association.insert t s.association_set;
    }

    unfoldable pub remove_association_tuple : AssociationTuple → Protocol H S → Protocol H S
    remove_association_tuple t s = record s {
      association_set = st.association.erase t s.association_set;
    }
