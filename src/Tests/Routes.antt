-- ===== src/Tests/Routes.antt =====
-- The routing table of RoutingProtocol/ocean-protocol.cc for the node 1: a link to its neighbor 2,
-- the node 3 behind 2, and the topology tuples 3 - 4 and 4 - 5; the node 4 has a second address 40.
use maritime_mesh_network.Base.{
  suc, ◌==◌, ◌≡◌, refl, false, none, some, [], ◌∷◌, if◌then◌else◌, is_some, arith,
}
use maritime_mesh_network.Base.Dict
use maritime_mesh_network.Base.Int.{pos}
use maritime_mesh_network.Repositories.{
  Ipv4Address, NeighborTuple, TopologyTuple, status_sym, will_default,
}
use maritime_mesh_network.Routing.{
  Table, RoutingTableEntry, lookup, add_entry, add_entry_at, has_address, interface_with,
}
use maritime_mesh_network.Routing.Build.{
  Inputs, routing_table, far_routes, near_routes, is_link_of, scan_link, scan_links, add_main,
  add_neighbor, add_neighbors, is_attached, add_two_hop, add_two_hops, add_topology, topology_round,
  topology_loop, add_iface_assoc, add_iface_assocs,
}
use maritime_mesh_network.Routing.Entries.{entry, IsRooted}
use maritime_mesh_network.Routing.Build.Neighbors.{is_sym_main}
use maritime_mesh_network.Routing.Build.Rooted.{IsConsistent, backing, routing_table-IsRooted}
use maritime_mesh_network.Routing.Build.Hops.{IsHopTable, far_routes-IsHopTable}
use maritime_mesh_network.Routing.Send.{any_device, route_output}
use maritime_mesh_network.Routing.Send.Direct.{route_output_by_table, answer}

abbrev neighbor : NeighborTuple
neighbor = record { neighbor_main_addr = 2; status = status_sym; willingness = will_default }

abbrev topology : Ipv4Address → Ipv4Address → TopologyTuple
topology dest last = record {
  dest_addr = dest;
  last_addr = last;
  sequence_number = 1;
  expiration_time = pos 9;
}

abbrev inputs : Inputs
inputs = record {
  ipv4 = record {
    n_interfaces = 2;
    n_addresses = λ _. 1;
    get_address = λ i _. if i == 1 then 1 else 127;
  };
  get_main = λ a. a;
  find_sym = λ a. if 2 == a then some neighbor else none;
  now = pos 5;
  main = 1;
  links =
      record {
        local_iface_addr = 1;
        neighbor_iface_addr = 2;
        sym_time = pos 9;
        asym_time = pos 9;
        time = pos 9;
      }
      ∷ [];
  neighbors = neighbor ∷ [];
  two_hops =
      record { neighbor_main_addr = 2; two_hop_neighbor_addr = 3; expiration_time = pos 9 } ∷ [];
  topology = topology 5 4 ∷ topology 4 3 ∷ [];
  iface_assocs = record { iface_addr = 40; main_addr = 4; time = pos 9 } ∷ [];
}

abbrev table : Table
table =
    (2, entry 2 2 1 1)
    ∷ (3, entry 3 2 1 2)
    ∷ (4, entry 4 2 1 3)
    ∷ (5, entry 5 2 1 4)
    ∷ (40, entry 40 2 1 3)
    ∷ []

routing_table_run : routing_table inputs ≡ some table
unfolding routing_table far_routes near_routes is_link_of scan_link scan_links add_main add_neighbor
    add_neighbors is_attached add_two_hop add_two_hops add_topology topology_round topology_loop
    add_iface_assoc add_iface_assocs add_entry add_entry_at has_address interface_with Dict.lookup
    Dict.insert
routing_table_run = refl

inputs_find_sym :
    (a : Ipv4Address) → is_some (inputs.find_sym a) ≡ false → is_sym_main inputs.neighbors a ≡ false
inputs_find_sym a h = ground arith

inputs-IsConsistent : IsConsistent inputs
inputs-IsConsistent = record {
  neighbors_normal = (λ _. refl, tt);
  two_hops_normal = (refl, tt);
  find_sym_complete = inputs_find_sym;
}

routing_table-IsRooted_example :
    (t : Table) × (routing_table inputs ≡ some t) × IsRooted (backing inputs) t
routing_table-IsRooted_example = routing_table-IsRooted inputs inputs-IsConsistent

far_routes-IsHopTable_example :
    (t : Table) × (far_routes inputs ≡ some t) × IsHopTable inputs.topology t
far_routes-IsHopTable_example = far_routes-IsHopTable inputs

lookup_far : lookup 5 table ≡ some (entry 5 2 1 4)
unfolding Dict.lookup
lookup_far = refl

route_output_by_table_example :
    (f : RoutingTableEntry) × (lookup 2 table ≡ some f)
    × (f.next_addr ≡ 2)
    × (f.distance ≡ 1)
    × (route_output inputs.ipv4 (λ _. none) table (suc 7) 5 any_device
        ≡ answer inputs.ipv4 5 any_device 2 f.interface)
route_output_by_table_example =
    route_output_by_table inputs (λ _. none) table 5 (entry 5 2 1 4) 7 any_device
      inputs-IsConsistent routing_table_run lookup_far
