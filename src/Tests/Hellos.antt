-- ===== src/Tests/Hellos.antt =====
-- The messages that the node 1 of RoutingProtocol/ocean-protocol.cc generates: it has a symmetric
-- link to its multipoint relay 2, an asymmetric one to 3, and a link to 4, which it does not know.
use maritime_mesh_network.Base.{
  ℕ, ◌*◌, ◌==◌, ◌≡◌, ◌≢◌, ◌≤◌, ◌⊎◌, refl, none, some, List, [], ◌∷◌, map, arith, if◌then◌else◌,
}
use maritime_mesh_network.Base.Int.{pos}
use maritime_mesh_network.Repositories.{
  Ipv4Address, LinkTuple, MprSelectorTuple, Association, status_sym, status_not_sym,
}
use maritime_mesh_network.Wire.Message.{hello, tc, hna}
use maritime_mesh_network.Emf.{emf_to_seconds}
use maritime_mesh_network.Queue.{next_sequence_number}
use maritime_mesh_network.Generate.{
  Node, HelloInputs, link_messages, neighbor_type, neighbor_type_of, link_type, link_message,
  send_hello, send_tc, send_hna, to_hna,
}
use maritime_mesh_network.Generate.Periodic.{
  IsAnnounced, interval_after, tc_timer_expire, hna_timer_expire, announcements_lem,
}
use maritime_mesh_network.Generate.Links.{IsHello, link_messages-IsHello}
use maritime_mesh_network.Generate.Queued.{
  IsQueued, send_hello-IsQueued, send_tc-IsQueued, send_hna_lem,
}

abbrev inputs : HelloInputs
inputs = record {
  get_main = λ a. a;
  now = pos 100;
  neighbors =
      record { neighbor_main_addr = 2; status = status_sym; willingness = 3 }
      ∷ record { neighbor_main_addr = 3; status = status_not_sym; willingness = 3 }
      ∷ [];
  find_mpr_address = λ a. a == 2;
  find_neighbor_interfaces = λ a. if a == 2 then 20 ∷ [] else [];
}

abbrev link : Ipv4Address → ℕ → LinkTuple
link a sym_time = record {
  local_iface_addr = 1;
  neighbor_iface_addr = a;
  sym_time = pos sym_time;
  asym_time = pos 200;
  time = pos 300;
}

abbrev links : List LinkTuple
links = link 2 200 ∷ link 3 50 ∷ link 4 200 ∷ []

link_messages_run :
    link_messages inputs 1 links
    ≡ record { link_code = 10; neighbor_interface_addresses = 2 ∷ 20 ∷ [] }
      ∷ record { link_code = 1; neighbor_interface_addresses = 3 ∷ [] }
      ∷ []
unfolding link_messages neighbor_type neighbor_type_of link_message link_type
link_messages_run = refl

link_messages-IsHello_example : IsHello inputs 1 links (link_messages inputs 1 links)
link_messages-IsHello_example = link_messages-IsHello inputs 1 links

abbrev node : Node ℕ
node = record {
  main_address = 1;
  willingness = 3;
  hello_interval = 512;
  tc_interval = 1280;
  mid_interval = 1280;
  hna_interval = 1280;
  message_sequence_number = 65535;
  ansn = 7;
  sender = record {
    queued_messages = [];
    queued_messages_timer = none;
    packet_sequence_number = 65535;
  };
}

send_hello-IsQueued_example :
    (h_time : ℕ) × (32 * emf_to_seconds h_time ≤ 33 * 512)
    × (31 * 512 ≤ 32 * emf_to_seconds h_time)
    × (node' : Node ℕ) × (send_hello inputs links 4 (pos 9) node ≡ some node')
    × IsQueued
        (3 * 512)
        1
        4
        (hello (record {
          h_time = h_time;
          willingness = 3;
          link_messages = link_messages inputs 1 links;
        }))
        node
        node'
send_hello-IsQueued_example =
    send_hello-IsQueued inputs links 4 (pos 9) node (omega arith) (omega arith)

abbrev selectors : List MprSelectorTuple
selectors = record { main_addr = 2; expiration_time = pos 400 } ∷ []

send_tc-IsQueued_example :
    (node' : Node ℕ) × (send_tc selectors 4 (pos 9) node ≡ some node')
    × IsQueued (3 * 1280) 255 4 (tc (record { ansn = 7; neighbor_addresses = 2 ∷ [] })) node node'
send_tc-IsQueued_example = send_tc-IsQueued selectors 4 (pos 9) node (omega arith, omega arith)

abbrev associations : List Association
associations = record { network_addr = 0xc0a80000; netmask = 0xffff0000 } ∷ []

send_hna_lem_example :
    (node' : Node ℕ) × (send_hna associations 4 (pos 9) node ≡ some node')
    × ((associations ≡ [])
          × (node' ≡ record node { message_sequence_number = next_sequence_number 65535 })
        ⊎ (associations ≢ [])
          × IsQueued
              (3 * 1280)
              255
              4
              (hna (record { associations = map to_hna associations }))
              node
              node')
send_hna_lem_example = send_hna_lem associations 4 (pos 9) node (omega arith, omega arith)

-- One selector, and no association.
announcements_lem_example :
    IsAnnounced selectors
      (tc (record { ansn = 7; neighbor_addresses = 2 ∷ [] }))
      (3 * 1280)
      4
      (interval_after (pos 50) 1280)
      node
      (tc_timer_expire selectors 4 (pos 9) (pos 50) node)
    × IsAnnounced {T = Association} []
        (hna (record { associations = [] }))
        (3 * 1280)
        4
        (interval_after (pos 50) 1280)
        node
        (hna_timer_expire [] 4 (pos 9) (pos 50) node)
announcements_lem_example =
    announcements_lem selectors [] 4 (pos 9) (pos 50) node (omega arith, omega arith)
      (omega arith, omega arith)
