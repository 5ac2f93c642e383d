-- ===== src/Tests/Queues.antt =====
-- The queue of messages of RoutingProtocol/ocean-protocol.cc: two messages are queued, and the
-- timer expires.
use maritime_mesh_network.Base.{
  ℕ, ◌+◌, ◌-◌, ◌*◌, ◌/◌, ◌^◌, ◌≡◌, ◌<◌, refl, inl, none, some, [], ◌∷◌, map, All, In, arith,
  is_some, true,
}
use maritime_mesh_network.Base.Int.{pos}
use maritime_mesh_network.Wire.Body.{
  write_hello, write_hna, write_link_messages, write_link_message, write_addresses,
  write_associations,
}
use maritime_mesh_network.Wire.Message.{write_ocean, write_header, write_body}
use maritime_mesh_network.Wire.Packet.{receive_packet}
use maritime_mesh_network.Wire.Packet.RoundTrip.{arrived, messages_length}
use maritime_mesh_network.Queue.{
  Sender, Sent, Sockets, Batch, set_ipv4, queue_message, send_queued_messages, expire, add_messages,
  add_message, send_packet, sent_packet, next_sequence_number,
}
use maritime_mesh_network.Queue.Batches.{contained, Numbered, last_number, IsSent}
use maritime_mesh_network.Queue.Delivery.{send_queued_messages_lem, receive-send_queued_messages}
use maritime_mesh_network.Queue.Order.{Run, started, queued, expired, InOrder, Run-InOrder}
use maritime_mesh_network.Tests.Bytes.{bytes, bytes-IsBuffer}
use maritime_mesh_network.Tests.Wires.{
  heights, heights-IsHeights, hello_message, hna_message, hello_message-Fits, hna_message-Fits,
}

abbrev sockets : Sockets
sockets = record {
  send_sockets = (0x0a000001, 0xffffff00) ∷ [];
  subnet_directed_broadcast = λ a m. a / (2 ^ 32 - m) * (2 ^ 32 - m) + (2 ^ 32 - m - 1);
}

abbrev sender : Sender ℕ
sender = record {
  queued_messages = hello_message ∷ hna_message ∷ [];
  queued_messages_timer = none;
  packet_sequence_number = 65535;
}

abbrev start : Batch ℕ
start = record {
  packet = [];
  msglist = [];
  num_messages = 0;
  packet_sequence_number = 65535;
  sent = [];
}

abbrev packet : Sent ℕ
packet =
    sent_packet bytes heights sockets
      (add_messages bytes heights sockets start sender.queued_messages)

packet_sent : (send_queued_messages bytes heights sockets sender).1 ≡ packet ∷ []
unfolding send_queued_messages add_messages add_message send_packet sent_packet write_ocean
    write_header write_body write_hello write_link_messages write_link_message write_addresses
    write_hna write_associations
packet_sent = refl

packet_header : packet.header ≡ record { packet_length = 64; packet_sequence_number = 0 }
unfolding add_messages add_message sent_packet next_sequence_number write_ocean write_header
    write_body write_hello write_hna write_link_messages write_link_message write_addresses
    write_associations
packet_header = refl

packet_messages : packet.contained_messages ≡ hello_message ∷ hna_message ∷ []
unfolding add_messages add_message sent_packet
packet_messages = refl

packet_destinations : packet.destinations ≡ 0x0a0000ff ∷ []
unfolding sent_packet
packet_destinations = refl

packet_is_sent : In packet (send_queued_messages bytes heights sockets sender).1
packet_is_sent = rw packet_sent (inl refl)

packet_small : 4 + messages_length packet.contained_messages < 2 ^ 16
packet_small = rw packet_messages (omega arith)

send_queued_messages_lem_example :
    ((send_queued_messages bytes heights sockets sender).0.queued_messages ≡ [])
    × (contained (send_queued_messages bytes heights sockets sender).1 ≡ sender.queued_messages)
    × All (IsSent bytes heights sockets) (send_queued_messages bytes heights sockets sender).1
    × Numbered 65535 (send_queued_messages bytes heights sockets sender).1
    × ((send_queued_messages bytes heights sockets sender).0.packet_sequence_number
        ≡ last_number 65535 (send_queued_messages bytes heights sockets sender).1)
    × ((send_queued_messages bytes heights sockets sender).0.queued_messages_timer
        ≡ sender.queued_messages_timer)
send_queued_messages_lem_example = send_queued_messages_lem bytes-IsBuffer heights sockets sender

receive-send_queued_messages_example :
    receive_packet bytes heights packet.packet
    ≡ some (packet.header, map (arrived heights) packet.contained_messages)
receive-send_queued_messages_example =
    receive-send_queued_messages bytes-IsBuffer heights sockets heights-IsHeights sender packet
      (hello_message-Fits, (hna_message-Fits, tt)) packet_is_sent packet_small

abbrev one : Sender ℕ
one = queue_message hello_message (pos 3) (set_ipv4 ℕ)

abbrev two : Sender ℕ
two = queue_message hna_message (pos 4) one

two_running : is_some two.queued_messages_timer ≡ true
unfolding queue_message set_ipv4
two_running = refl

run :
    Run bytes heights sockets
      (hello_message ∷ hna_message ∷ [])
      (expire bytes heights sockets two).1
      (expire bytes heights sockets two).0
run =
    expired (hello_message ∷ hna_message ∷ []) [] two
      (queued (hello_message ∷ []) [] one hna_message (pos 4)
        (queued [] [] (set_ipv4 ℕ) hello_message (pos 3) started))
      two_running

Run-InOrder_example :
    InOrder bytes heights sockets
      (hello_message ∷ hna_message ∷ [])
      (expire bytes heights sockets two).1
      (expire bytes heights sockets two).0
Run-InOrder_example =
    Run-InOrder bytes heights sockets bytes-IsBuffer (hello_message ∷ hna_message ∷ [])
      (expire bytes heights sockets two).1 (expire bytes heights sockets two).0 run
