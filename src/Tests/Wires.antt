-- ===== src/Tests/Wires.antt =====
-- Messages and packets of RoutingProtocol/olsr-header.cc and RoutingProtocol/ocean-olsr-header.cc.
-- A height is counted in millionths of a metre, above -20 metres.
use maritime_mesh_network.Base.{
  ℕ, ◌*◌, ◌%◌, ◌^◌, ◌<◌, ◌≤◌, ◌≡◌, refl, some, [], ◌∷◌, ◌++◌, map, arith, length,
}
use maritime_mesh_network.Wire.Body.{hna_size, write_hna, write_associations}
use maritime_mesh_network.Wire.Message.{
  Body, hello, hna, Heights, IsHeights, OceanMessageHeader, write_ocean, read_ocean,
  serialized_size, body_size, write_header, write_body,
}
use maritime_mesh_network.Wire.Message.RoundTrip.{length-write_ocean, read-write_ocean}
use maritime_mesh_network.Wire.Packet.{
  PacketHeader, write_packet_header, write_messages, receive_packet,
}
use maritime_mesh_network.Wire.Packet.RoundTrip.{Fits, arrived, receive-write_packet}
use maritime_mesh_network.Emf.{seconds_to_emf, emf_to_seconds}
use maritime_mesh_network.Emf.Rounding.{seconds_to_emf-emf_to_seconds, seconds_to_emf_bounds}
use maritime_mesh_network.Tests.Bytes.{bytes, bytes-IsBuffer}

abbrev pub heights : Heights ℕ
heights = record { to_word = λ h. h % 2 ^ 32; of_word = λ w. w }

pub heights-IsHeights : IsHeights heights
heights-IsHeights h = omega arith

abbrev pub message : Body → OceanMessageHeader ℕ
message body = record {
  header = record {
    v_time = 134;
    originator_address = 0x0a000001;
    time_to_live = 255;
    hop_count = 3;
    message_sequence_number = 65535;
    body = body;
  };
  predict_height = 20_500_000;
}

abbrev pub hello_message : OceanMessageHeader ℕ
hello_message = message (
    hello (record {
      h_time = 5;
      willingness = 3;
      link_messages =
          record { link_code = 6; neighbor_interface_addresses = 0x0a000002 ∷ 0x0a000003 ∷ [] }
          ∷ record { link_code = 1; neighbor_interface_addresses = [] }
          ∷ [];
    }))

abbrev pub hna_message : OceanMessageHeader ℕ
hna_message =
    message
      (hna (record { associations = record { address = 0xc0a80000; mask = 0xffff0000 } ∷ [] }))

pub hello_message-Fits : Fits hello_message
hello_message-Fits = record {
  v_time = omega arith;
  originator_address = omega arith;
  time_to_live = omega arith;
  hop_count = omega arith;
  message_sequence_number = omega arith;
  body = (
    omega arith,
    omega arith,
    (
      record { code = omega arith; addresses = (omega arith, (omega arith, tt)) },
      (record { code = omega arith; addresses = tt }, tt),
    ),
  );
  size = omega arith;
}

pub hna_message-Fits : Fits hna_message
hna_message-Fits = record {
  v_time = omega arith;
  originator_address = omega arith;
  time_to_live = omega arith;
  hop_count = omega arith;
  message_sequence_number = omega arith;
  body = ((omega arith, omega arith), tt);
  size = omega arith;
}

write_ocean_run :
    write_ocean bytes heights hna_message
    ≡ 32 ∷ 206 ∷ 56 ∷ 1 ∷ 4 ∷ 134 ∷ 0 ∷ 24 ∷ 10 ∷ 0 ∷ 0 ∷ 1 ∷ 255 ∷ 3 ∷ 255 ∷ 255 ∷ 192 ∷ 168 ∷ 0
      ∷ 0 ∷ 255 ∷ 255 ∷ 0 ∷ 0 ∷ []
unfolding write_ocean write_header serialized_size body_size hna_size write_body write_hna
    write_associations
write_ocean_run = refl

length-write_ocean_example :
    length (write_ocean bytes heights hello_message) ≡ serialized_size 16 hello_message.header
length-write_ocean_example =
    length-write_ocean bytes-IsBuffer heights heights-IsHeights hello_message hello_message-Fits

read-write_ocean_example :
    read_ocean bytes heights (write_ocean bytes heights hello_message ++ 7 ∷ [])
    ≡ some (
      (
        record hello_message {
          predict_height = heights.of_word (heights.to_word hello_message.predict_height);
        },
        serialized_size 16 hello_message.header,
      ),
      7 ∷ [],
    )
read-write_ocean_example =
    read-write_ocean bytes-IsBuffer heights heights-IsHeights hello_message (7 ∷ [])
      hello_message-Fits

abbrev header : PacketHeader
header = record { packet_length = 64; packet_sequence_number = 9 }

receive-write_packet_example :
    receive_packet bytes heights (
      write_packet_header bytes header
      ++ write_messages bytes heights (hello_message ∷ hna_message ∷ []))
    ≡ some (header, map (arrived heights) (hello_message ∷ hna_message ∷ []))
receive-write_packet_example =
    receive-write_packet bytes-IsBuffer heights heights-IsHeights header
      (hello_message ∷ hna_message ∷ []) refl (omega arith) (omega arith)
      (hello_message-Fits, (hna_message-Fits, tt))

seconds_to_emf-emf_to_seconds_example : seconds_to_emf (emf_to_seconds 134) ≡ some 134
seconds_to_emf-emf_to_seconds_example = seconds_to_emf-emf_to_seconds 134 (omega arith)

seconds_to_emf_bounds_example :
    (v : ℕ) × (seconds_to_emf 1537 ≡ some v)
    × (v < 256)
    × (32 * emf_to_seconds v ≤ 33 * 1537)
    × (31 * 1537 ≤ 32 * emf_to_seconds v)
seconds_to_emf_bounds_example = seconds_to_emf_bounds 1537 (omega arith) (omega arith)
