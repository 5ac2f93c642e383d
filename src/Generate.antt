-- ===== src/Generate.antt =====
-- The generation of messages: `SendHello`, `SendTc`, `SendMid` and `SendHna` of
-- RoutingProtocol/ocean-protocol.cc. What the code reads from `m_state` and `m_ipv4` are arguments.
pub mod Types
pub mod Links
pub mod Queued
pub mod Periodic
use maritime_mesh_network.Base.{
  ℕ, zero, suc, ◌+◌, ◌*◌, ◌%◌, ◌==◌, Bool, true, false, not, ◌&&◌, Option, none, some, List, [],
  ◌∷◌, map, if◌then◌else◌, elem,
}
use maritime_mesh_network.Base.Int.{leb_ℤ}
use maritime_mesh_network.Repositories.{
  Ipv4Address, LinkTuple, NeighborTuple, MprSelectorTuple, Association, is_sym,
}
use maritime_mesh_network.Repositories.Clock.{Time}
use maritime_mesh_network.Emf.{seconds_to_emf}
use maritime_mesh_network.Routing.{Ipv4}
use maritime_mesh_network.Wire.Body.{LinkMessage, HnaAssociation}
use maritime_mesh_network.Wire.Message.{
  Body, hello, tc, mid, hna, MessageHeader, OceanMessageHeader,
}
use maritime_mesh_network.Queue.{Sender, queue_message, next_sequence_number}

-- `OLSR_ASYM_LINK`, `OLSR_SYM_LINK` and `OLSR_LOST_LINK`; `OLSR_NOT_NEIGH`, `OLSR_SYM_NEIGH` and
-- `OLSR_MPR_NEIGH`.
abbrev pub olsr_asym_link : ℕ
olsr_asym_link = 1

abbrev pub olsr_sym_link : ℕ
olsr_sym_link = 2

abbrev pub olsr_lost_link : ℕ
olsr_lost_link = 3

abbrev pub olsr_not_neigh : ℕ
olsr_not_neigh = 0

abbrev pub olsr_sym_neigh : ℕ
olsr_sym_neigh = 1

abbrev pub olsr_mpr_neigh : ℕ
olsr_mpr_neigh = 2

-- The object's fields that the generation uses. An interval is counted in 256ths of a second.
pub record Node (H : Type 0) : Type 0 where
  pub main_address : Ipv4Address
  pub willingness : ℕ
  pub hello_interval : ℕ
  pub tc_interval : ℕ
  pub mid_interval : ℕ
  pub hna_interval : ℕ
  pub message_sequence_number : ℕ
  pub ansn : ℕ
  pub sender : Sender H

unfoldable pub link_type : Time → LinkTuple → ℕ
link_type now l =
    if leb_ℤ now l.sym_time
    then olsr_sym_link
    else if leb_ℤ now l.asym_time
    then olsr_asym_link
    else olsr_lost_link

-- The first neighbor tuple with the address decides; none means that the link is not reported.
unfoldable pub neighbor_type_of : List NeighborTuple → Ipv4Address → Option ℕ
neighbor_type_of [] addr = none
neighbor_type_of (nb ∷ nbs) addr =
    if nb.neighbor_main_addr == addr
    then some (if is_sym nb.status then olsr_sym_neigh else olsr_not_neigh)
    else neighbor_type_of nbs addr

-- What `SendHello` reads: `GetMainAddress`, the time, the links and neighbors, `FindMprAddress` and
-- `FindNeighborInterfaces`.
pub record HelloInputs : Type 0 where
  pub get_main : Ipv4Address → Ipv4Address
  pub now : Time
  pub neighbors : List NeighborTuple
  pub find_mpr_address : Ipv4Address → Bool
  pub find_neighbor_interfaces : Ipv4Address → List Ipv4Address

module _ (x : HelloInputs) where
  unfoldable pub neighbor_type : LinkTuple → Option ℕ
  unfolding neighbor_type_of
  neighbor_type l =
      let main = x.get_main l.neighbor_iface_addr in
      if x.find_mpr_address main then some olsr_mpr_neigh else neighbor_type_of x.neighbors main

  -- `(link_type & 0x03) | ((nb_type << 2) & 0x0f)`: the two masks have no bit in common.
  unfoldable pub link_message : LinkTuple → ℕ → LinkMessage
  unfolding link_type
  link_message l nb_type = record {
    link_code = link_type x.now l % 4 + nb_type * 4 % 16;
    neighbor_interface_addresses =
        l.neighbor_iface_addr ∷ x.find_neighbor_interfaces l.neighbor_iface_addr;
  }

  -- The loop over the links.
  unfoldable pub link_messages : Ipv4Address → List LinkTuple → List LinkMessage
  unfolding neighbor_type link_message
  link_messages main [] = []
  link_messages main (l ∷ ls) =
      let rest = link_messages main ls in
      if x.get_main l.local_iface_addr == main && leb_ℤ x.now l.time
      then elim (neighbor_type l) [ none ↦ rest | some nb_type ↦ link_message l nb_type ∷ rest ]
      else rest

-- `Ipv4Address ("127.0.0.1")`.
abbrev pub loopback : Ipv4Address
loopback = 0x7f000001

abbrev pub to_hna : Association → HnaAssociation
to_hna a = record { address = a.network_addr; mask = a.netmask }

-- The loop of `SendMid` over the interfaces, from the `i`th on, `k` rounds before its end.
pub other_addresses : Ipv4 → List ℕ → Ipv4Address → ℕ → ℕ → List Ipv4Address
other_addresses ipv4 exclusions main zero i = []
other_addresses ipv4 exclusions main (suc k) i =
    let rest = other_addresses ipv4 exclusions main k (i + 1) in
    let addr = ipv4.get_address i 0 in
    if not (addr == main) && (not (addr == loopback) && not (elem i exclusions))
    then addr ∷ rest
    else rest

module _ {H : Type 0} where
  -- A message with the next sequence number goes to the queue; `hold` is its validity time. `none`
  -- stands for the failed assertion of `SecondsToEmf`.
  pub send : ℕ → ℕ → H → Body → Time → Node H → Option (Node H)
  send hold ttl height body jitter node =
      let number = next_sequence_number node.message_sequence_number in
      elim (seconds_to_emf hold) [
        | none ↦ none
        | some v_time ↦ some (record node {
          message_sequence_number = number;
          sender =
              queue_message
                (record {
                  header = record {
                    v_time = v_time;
                    originator_address = node.main_address;
                    time_to_live = ttl;
                    hop_count = 0;
                    message_sequence_number = number;
                    body = body;
                  };
                  predict_height = height;
                })
                jitter node.sender;
        })
      ]

  -- `height` is the prediction that `Record` takes from the mobility model.
  pub send_hello : HelloInputs → List LinkTuple → H → Time → Node H → Option (Node H)
  unfolding send link_messages
  send_hello x links height jitter node = elim (seconds_to_emf node.hello_interval) [
    | none ↦ none
    | some h_time ↦
        send (3 * node.hello_interval) 1 height
          (hello (record {
            h_time = h_time;
            willingness = node.willingness;
            link_messages = link_messages x node.main_address links;
          }))
          jitter node
  ]

  pub send_tc : List MprSelectorTuple → H → Time → Node H → Option (Node H)
  unfolding send
  send_tc selectors height jitter node =
      send (3 * node.tc_interval) 255 height
        (tc (record {
          ansn = node.ansn;
          neighbor_addresses = map (λ (t : MprSelectorTuple). t.main_addr) selectors;
        }))
        jitter node

  -- `SendHna` takes a sequence number, and then returns if there are no associations. The code
  -- leaves the predicted height of the message uninitialised: `height` is any value.
  pub send_hna : List Association → H → Time → Node H → Option (Node H)
  unfolding send
  send_hna associations height jitter node = elim (seconds_to_emf (3 * node.hna_interval)) [
    | none ↦ none
    | some v_time ↦ elim associations [
      | [] ↦ some (record node {
        message_sequence_number = next_sequence_number node.message_sequence_number;
      })
      | a ∷ rest ↦
          send (3 * node.hna_interval) 255 height
            (hna (record { associations = map to_hna (a ∷ rest) })) jitter node
    ]
  ]

  -- `SendMid` returns at once if no other interface takes part; `height` is uninitialised here too.
  pub send_mid : Ipv4 → List ℕ → H → Time → Node H → Option (Node H)
  unfolding send other_addresses
  send_mid ipv4 exclusions height jitter node =
      elim (other_addresses ipv4 exclusions node.main_address ipv4.n_interfaces 0) [
        | [] ↦ some node
        | a ∷ rest ↦
            send (3 * node.mid_interval) 255 height
              (mid (record { interface_addresses = a ∷ rest })) jitter node
      ]
