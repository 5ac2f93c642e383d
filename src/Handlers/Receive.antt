-- ===== src/Handlers/Receive.antt =====
-- The loop of `RecvOlsr` in RoutingProtocol/ocean-protocol.cc over the messages of a packet, from
-- the packet's source address and the address of the interface that it came in by.
use maritime_mesh_network.Base.{
  ℕ, ◌==◌, Bool, true, false, not, ◌||◌, Option, none, some, List, [], ◌∷◌, elem, get_elem?,
  if◌then◌else◌,
}
use maritime_mesh_network.Repositories.{Ipv4Address, DuplicateTuple}
use maritime_mesh_network.Wire.Message.{Body, hello, tc, mid, hna, OceanMessageHeader}
use maritime_mesh_network.Protocol.{Protocol, OlsrState, Context}
use maritime_mesh_network.Protocol.Links.{routing_table_computation}
use maritime_mesh_network.Handlers.Tc.{process_tc}
use maritime_mesh_network.Handlers.Hna.{process_hna}
use maritime_mesh_network.Handlers.Mid.{process_mid}
use maritime_mesh_network.Handlers.Hello.{process_hello}
use maritime_mesh_network.Handlers.Forward.{forward_default}

-- The variable `do_forwarding`: the receiver's interface is not in the list of the duplicate.
unfoldable pub do_forwarding : List DuplicateTuple → ℕ → Ipv4Address → Bool
do_forwarding dups i receiver_iface = elim (get_elem? dups i) [
  | none ↦ true
  | some t ↦ not (elem receiver_iface t.iface_list)
]

unfoldable pub is_hello : Body → Bool
is_hello (hello m) = true
is_hello _ = false

module _ {H S : Type 0} (st : OlsrState S) (x : Context H)
    (receiver_iface sender : Ipv4Address) where
  -- The `switch` on the type of the message.
  unfoldable pub process : OceanMessageHeader H → Protocol H S → Option (Protocol H S)
  unfolding process_hello process_tc process_mid process_hna
  process msg s = elim msg.header.body [
    | hello m ↦ process_hello st x msg m receiver_iface sender s
    | tc m ↦ some (process_tc st x msg m sender s)
    | mid m ↦ some (process_mid st x msg m sender s)
    | hna m ↦ some (process_hna st x msg m sender s)
  ]

  -- One message that is not dropped.
  unfoldable pub accept_message : OceanMessageHeader H → Protocol H S → Option (Protocol H S)
  unfolding process is_hello forward_default do_forwarding
  accept_message msg s =
      let forward : Option ℕ → Protocol H S → Protocol H S = λ duplicated t.
        if is_hello msg.header.body
        then t
        else forward_default st x msg duplicated receiver_iface sender t in
      elim (st.duplicate.find (msg.header.originator_address, msg.header.message_sequence_number)
        s.duplicates) [
          | none ↦ elim (process msg s) [ none ↦ none | some t ↦ some (forward none t) ]
          | some i ↦
              some (if do_forwarding s.duplicates i receiver_iface then forward (some i) s else s)
        ]

  unfoldable pub receive_message : OceanMessageHeader H → Protocol H S → Option (Protocol H S)
  unfolding accept_message
  receive_message msg s =
      if msg.header.time_to_live == 0 || msg.header.originator_address == s.main_address
      then some s
      else accept_message msg s

  unfoldable pub receive_all : List (OceanMessageHeader H) → Protocol H S → Option (Protocol H S)
  unfolding receive_message
  receive_all [] s = some s
  receive_all (msg ∷ msgs) s = elim (receive_message msg s) [
    | none ↦ none
    | some t ↦ receive_all msgs t
  ]

  -- The messages of a packet, and then the routing table.
  unfoldable pub recv_olsr : List (OceanMessageHeader H) → Protocol H S → Option (Protocol H S)
  unfolding receive_all routing_table_computation
  recv_olsr msgs s = elim (receive_all msgs s) [
    | none ↦ none
    | some t ↦ some (routing_table_computation st x t)
  ]
