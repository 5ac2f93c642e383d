-- ===== src/Wire/Message.antt =====
-- The messages: `MessageHeader` of RoutingProtocol/olsr-header.cc, and `OceanMessageHeader` of
-- RoutingProtocol/ocean-olsr-header.cc, which puts the predicted height of the sender in front.
-- The type of a message is that of its body.
pub mod Fields
pub mod RoundTrip
use maritime_mesh_network.Base.{
  ℕ, ◌+◌, ◌-◌, ◌%◌, ◌^◌, ◌<◌, ◌==◌, leb, Bool, ◌&&◌, Option, none, some, List, ◌++◌, if◌then◌else◌,
}
use maritime_mesh_network.Repositories.{Ipv4Address}
use maritime_mesh_network.Wire.{Reader, pure, failed, ◌>>=◌, Buffer}
use maritime_mesh_network.Wire.Body.{
  Mid, Hello, Tc, Hna, mid_size, hello_size, tc_size, hna_size, write_mid, write_hello, write_tc,
  write_hna, read_mid, read_hello, read_tc, read_hna,
}

pub data Body : Type 0 where
  hello : Hello → Body
  tc : Tc → Body
  mid : Mid → Body
  hna : Hna → Body

-- The values of the enumeration `MessageType`.
abbrev pub message_type : Body → ℕ
message_type (hello m) = 1
message_type (tc m) = 2
message_type (mid m) = 3
message_type (hna m) = 4

pub record MessageHeader : Type 0 where
  pub v_time : ℕ
  pub originator_address : Ipv4Address
  pub time_to_live : ℕ
  pub hop_count : ℕ
  pub message_sequence_number : ℕ
  pub body : Body

-- `OLSR_MSG_HEADER_SIZE` and `OCEAN_OLSR_MSG_HEADER_SIZE`.
abbrev pub olsr_msg_header_size : ℕ
olsr_msg_header_size = 12

abbrev pub ocean_olsr_msg_header_size : ℕ
ocean_olsr_msg_header_size = 16

unfoldable pub body_size : Body → ℕ
body_size (hello m) = hello_size m
body_size (tc m) = tc_size m
body_size (mid m) = mid_size m
body_size (hna m) = hna_size m

-- `GetSerializedSize`, with the size of the header of either class.
unfoldable pub serialized_size : ℕ → MessageHeader → ℕ
serialized_size header_size m = (header_size + body_size m.body) % 2 ^ 32

-- The doubles that a predicted height is converted by, `uint32_t ((h + 20) * 1000000)` and
-- `double (w) / 1000000 - 20`.
pub record Heights (H : Type 0) : Type 0 where
  pub to_word : H → ℕ
  pub of_word : ℕ → H

-- The conversion to `uint32_t` has 32 bits.
abbrev pub IsHeights : {H : Type 0} → Heights H → Type 0
IsHeights {H} heights = (h : H) → heights.to_word h < 2 ^ 32

pub record OceanMessageHeader (H : Type 0) : Type 0 where
  pub header : MessageHeader
  pub predict_height : H

module _ (b : Buffer) where
  unfoldable pub write_body : Body → List ℕ
  write_body (hello m) = write_hello b m
  write_body (tc m) = write_tc b m
  write_body (mid m) = write_mid b m
  write_body (hna m) = write_hna b m

  -- `MessageHeader::Serialize`, with the size of the header of either class.
  unfoldable pub write_header : ℕ → MessageHeader → List ℕ
  write_header header_size m =
      b.write_u8 (message_type m.body)
      ++ (b.write_u8 m.v_time
          ++ (b.write_hton_u16 (serialized_size header_size m % 2 ^ 16)
              ++ (b.write_hton_u32 m.originator_address
                  ++ (b.write_u8 m.time_to_live
                      ++ (b.write_u8 m.hop_count
                          ++ (b.write_hton_u16 m.message_sequence_number ++ write_body m.body))))))

  -- The `switch` of `Deserialize`, after the assertion on the type.
  unfoldable pub read_body : ℕ → ℕ → Reader (Body × ℕ)
  read_body type size =
      if type == 3
      then (do (m, n) ← read_mid b size; pure (mid m, n))
      else if type == 1
      then (do (m, n) ← read_hello b size; pure (hello m, n))
      else if type == 2
      then (do (m, n) ← read_tc b size; pure (tc m, n))
      else if type == 4
      then (do (m, n) ← read_hna b size; pure (hna m, n))
      else failed

  -- `MessageHeader::Deserialize`: the message and the size that is returned. The size of the body
  -- is a `uint32_t` that wraps around where the message claims to be shorter than its header.
  unfoldable pub read_header : ℕ → Reader (MessageHeader × ℕ)
  read_header header_size = do
    type ← b.read_u8
    v_time ← (if leb 1 type && leb type 4 then b.read_u8 else failed)
    message_size ← b.read_ntoh_u16
    originator_address ← b.read_ntoh_u32
    time_to_live ← b.read_u8
    hop_count ← b.read_u8
    message_sequence_number ← b.read_ntoh_u16
    (body, n) ← read_body type ((message_size + 2 ^ 32 - header_size) % 2 ^ 32)
    pure (
      record {
        v_time = v_time;
        originator_address = originator_address;
        time_to_live = time_to_live;
        hop_count = hop_count;
        message_sequence_number = message_sequence_number;
        body = body;
      },
      (header_size + n) % 2 ^ 32,
    )

  module _ {H : Type 0} (heights : Heights H) where
    unfoldable pub write_ocean : OceanMessageHeader H → List ℕ
    write_ocean m =
        b.write_u32 (heights.to_word m.predict_height)
        ++ write_header ocean_olsr_msg_header_size m.header

    unfoldable pub read_ocean : Reader (OceanMessageHeader H × ℕ)
    read_ocean = do
      word ← b.read_u32
      (m, n) ← read_header ocean_olsr_msg_header_size
      pure (record { header = m; predict_height = heights.of_word word }, n)
