-- ===== src/Queue.antt =====
-- The sending of queued messages: `QueueMessage`, `SendPacket`, `SendQueuedMessages` and the
-- sequence numbers of RoutingProtocol/ocean-protocol.cc.
pub mod Batches
pub mod Delivery
pub mod Order
use maritime_mesh_network.Base.{
  ℕ, ◌+◌, ◌%◌, ◌^◌, ◌==◌, Option, none, some, List, [], ◌∷◌, ◌++◌, map, if◌then◌else◌, length,
  is_some,
}
use maritime_mesh_network.Repositories.{Ipv4Address, Ipv4Mask}
use maritime_mesh_network.Repositories.Clock.{Time}
use maritime_mesh_network.Wire.{Buffer}
use maritime_mesh_network.Wire.Message.{Heights, OceanMessageHeader, write_ocean}
use maritime_mesh_network.Wire.Packet.{PacketHeader, olsr_pkt_header_size, write_packet_header}

-- `OLSR_MAX_MSGS` and `OLSR_MAX_SEQ_NUM`.
abbrev pub olsr_max_msgs : ℕ
olsr_max_msgs = 64

abbrev pub olsr_max_seq_num : ℕ
olsr_max_seq_num = 65535

-- `GetPacketSequenceNumber`, `GetMessageSequenceNumber` and `IncrementAnsn`: the number after the
-- one of the state, which is also the new state.
unfoldable pub next_sequence_number : ℕ → ℕ
next_sequence_number n = (n + 1) % (olsr_max_seq_num + 1)

-- The part of the object that the sending uses. A timer that is running is the delay that it was
-- scheduled with.
pub record Sender (H : Type 0) : Type 0 where
  pub queued_messages : List (OceanMessageHeader H)
  pub queued_messages_timer : Option Time
  pub packet_sequence_number : ℕ

-- `SetIpv4`: no message is queued, and the number is the last one before 0.
unfoldable pub set_ipv4 : (H : Type 0) → Sender H
set_ipv4 H = record {
  queued_messages = [];
  queued_messages_timer = none;
  packet_sequence_number = olsr_max_seq_num;
}

unfoldable pub queue_message : {H : Type 0} → OceanMessageHeader H → Time → Sender H → Sender H
queue_message message delay s = record s {
  queued_messages = s.queued_messages ++ message ∷ [];
  queued_messages_timer =
      if is_some s.queued_messages_timer then s.queued_messages_timer else some delay;
}

-- A packet that was sent: its header and messages as they are traced, its bytes, and the addresses
-- that a copy is sent to.
pub record Sent (H : Type 0) : Type 0 where
  pub header : PacketHeader
  pub contained_messages : List (OceanMessageHeader H)
  pub packet : List ℕ
  pub destinations : List Ipv4Address

-- The local address and the mask of each sending socket, and
-- `Ipv4Address::GetSubnetDirectedBroadcast`.
pub record Sockets : Type 0 where
  pub send_sockets : List (Ipv4Address × Ipv4Mask)
  pub subnet_directed_broadcast : Ipv4Address → Ipv4Mask → Ipv4Address

-- The variables of `SendQueuedMessages`, the sequence number, and the packets sent so far.
pub record Batch (H : Type 0) : Type 0 where
  pub packet : List ℕ
  pub msglist : List (OceanMessageHeader H)
  pub num_messages : ℕ
  pub packet_sequence_number : ℕ
  pub sent : List (Sent H)

module _ (b : Buffer) {H : Type 0} (heights : Heights H) (sockets : Sockets) where
  -- The packet that `SendPacket` makes of the current messages.
  unfoldable pub sent_packet : Batch H → Sent H
  sent_packet batch =
      let header : PacketHeader = record {
        packet_length = (olsr_pkt_header_size + length batch.packet) % 2 ^ 16;
        packet_sequence_number = next_sequence_number batch.packet_sequence_number;
      } in
      record {
        header = header;
        contained_messages = batch.msglist;
        packet = write_packet_header b header ++ batch.packet;
        destinations =
            map (λ (s : Ipv4Address × Ipv4Mask). sockets.subnet_directed_broadcast s.0 s.1)
              sockets.send_sockets;
      }

  unfoldable pub send_packet : Batch H → Batch H
  send_packet batch = record batch {
    packet_sequence_number = next_sequence_number batch.packet_sequence_number;
    sent = batch.sent ++ sent_packet batch ∷ [];
  }

  -- One round of the loop: a message is added, and a full packet is sent.
  unfoldable pub add_message : Batch H → OceanMessageHeader H → Batch H
  add_message batch message =
      let added = record batch {
        packet = batch.packet ++ write_ocean b heights message;
        msglist = batch.msglist ++ message ∷ [];
        num_messages = batch.num_messages + 1;
      } in
      if added.num_messages == olsr_max_msgs
      then record (send_packet added) { packet = []; msglist = []; num_messages = 0 }
      else added

  unfoldable pub add_messages : Batch H → List (OceanMessageHeader H) → Batch H
  add_messages batch [] = batch
  add_messages batch (message ∷ messages) = add_messages (add_message batch message) messages

  -- The new state, and the packets sent.
  unfoldable pub send_queued_messages : Sender H → Sender H × List (Sent H)
  send_queued_messages s =
      let batch =
        add_messages
          (record {
            packet = [];
            msglist = [];
            num_messages = 0;
            packet_sequence_number = s.packet_sequence_number;
            sent = [];
          })
          s.queued_messages in
      let last = if length batch.packet == 0 then batch else send_packet batch in
      (
        record s { queued_messages = []; packet_sequence_number = last.packet_sequence_number },
        last.sent,
      )

  -- The timer expires, and calls the function that `SetIpv4` has set.
  unfoldable pub expire : Sender H → Sender H × List (Sent H)
  expire s = send_queued_messages (record s { queued_messages_timer = none })
