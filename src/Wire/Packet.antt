-- ===== src/Wire/Packet.antt =====
-- Packets: `PacketHeader` of RoutingProtocol/olsr-header.cc, the bytes that `SendPacket` sends, and
-- the loop of `RecvOlsr` in RoutingProtocol/ocean-protocol.cc that takes a packet apart.
pub mod RoundTrip
use maritime_mesh_network.Base.{
  ℕ, zero, suc, ◌+◌, ◌-◌, ◌%◌, ◌^◌, ◌==◌, ltb, Option, none, some, List, [], ◌∷◌, ◌++◌,
  if◌then◌else◌, length,
}
use maritime_mesh_network.Wire.{Reader, pure, ◌>>=◌, Buffer}
use maritime_mesh_network.Wire.Message.{
  Heights, OceanMessageHeader, serialized_size, ocean_olsr_msg_header_size, write_ocean, read_ocean,
}

pub record PacketHeader : Type 0 where
  pub packet_length : ℕ
  pub packet_sequence_number : ℕ

-- `OLSR_PKT_HEADER_SIZE`.
abbrev pub olsr_pkt_header_size : ℕ
olsr_pkt_header_size = 4

module _ (b : Buffer) where
  unfoldable pub write_packet_header : PacketHeader → List ℕ
  write_packet_header h =
      b.write_hton_u16 h.packet_length ++ b.write_hton_u16 h.packet_sequence_number

  -- The header, and the size that is returned.
  unfoldable pub read_packet_header : Reader (PacketHeader × ℕ)
  read_packet_header = do
    packet_length ← b.read_ntoh_u16
    packet_sequence_number ← b.read_ntoh_u16
    pure (
      record { packet_length = packet_length; packet_sequence_number = packet_sequence_number },
      olsr_pkt_header_size,
    )

  module _ {H : Type 0} (heights : Heights H) where
    -- The messages one after another, as `packet->AddAtEnd (p)` puts them.
    unfoldable pub write_messages : List (OceanMessageHeader H) → List ℕ
    write_messages [] = []
    write_messages (m ∷ ms) = write_ocean b heights m ++ write_messages ms

    -- `while (sizeLeft)`, with fuel: each round takes a message off the packet. A message of size 0
    -- is a failed assertion.
    unfoldable pub receive_messages : ℕ → ℕ → List ℕ → Option (List (OceanMessageHeader H))
    receive_messages zero size_left packet = none
    receive_messages (suc fuel) size_left packet =
        if size_left == 0 then some [] else elim (read_ocean b heights packet) [
          | none ↦ none
          | some ((m, n), rest) ↦
              if n == 0
              then none
              else elim (receive_messages fuel
                  ((size_left + 2 ^ 32 - serialized_size ocean_olsr_msg_header_size m.header)
                    % 2 ^ 32)
                  (b.remove_at_start n packet)) [
                    | none ↦ none
                    | some messages ↦ some (m ∷ messages)
                  ]
        ]

    -- From the header on: `none` stands for a failed assertion or a read past the end.
    unfoldable pub receive_packet : List ℕ → Option (PacketHeader × List (OceanMessageHeader H))
    receive_packet packet = elim (read_packet_header packet) [
      | none ↦ none
      | some ((h, n), rest) ↦
          if ltb h.packet_length olsr_pkt_header_size
          then none
          else elim (receive_messages (suc (length packet)) (h.packet_length - olsr_pkt_header_size)
              (b.remove_at_start n packet)) [ none ↦ none | some messages ↦ some (h, messages) ]
    ]
