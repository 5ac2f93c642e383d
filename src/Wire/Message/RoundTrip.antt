-- ===== src/Wire/Message/RoundTrip.antt =====
-- A message of RoutingProtocol/ocean-olsr-header.cc takes the bytes that `GetSerializedSize` says,
-- and is read back as it was written.
use maritime_mesh_network.Base.{
  ℕ, ◌+◌, ◌-◌, ◌%◌, ◌^◌, ◌<◌, ◌≡◌, leb, true, ◌&&◌, refl, some, List, ◌++◌, arith, length,
  length-append,
}
use mathlib.Core.List.{append_assoc}
use maritime_mesh_network.Wire.{◌>>=◌, Buffer, IsBuffer}
use maritime_mesh_network.Wire.Body.Address.{IsWord}
use maritime_mesh_network.Wire.Message.{
  Body, hello, tc, mid, hna, message_type, MessageHeader, serialized_size, write_body, write_header,
  read_header, Heights, IsHeights, OceanMessageHeader, write_ocean, read_ocean,
}
use maritime_mesh_network.Wire.Message.Fields.{
  body_length, BodyFits, body_size_lem, length-write_body, read-write_body,
}

-- The fields of a message fit their widths, and the message with its header of the given size is
-- no longer than its size field can say.
pub record HeaderFits (header_size : ℕ) (m : MessageHeader) : Type 0 where
  pub v_time : m.v_time < 2 ^ 8
  pub originator_address : IsWord m.originator_address
  pub time_to_live : m.time_to_live < 2 ^ 8
  pub hop_count : m.hop_count < 2 ^ 8
  pub message_sequence_number : m.message_sequence_number < 2 ^ 16
  pub body : BodyFits m.body
  pub size : header_size + body_length m.body < 2 ^ 16

pub serialized_size_lem :
    {header_size : ℕ} {m : MessageHeader}
    → HeaderFits header_size m
    → serialized_size header_size m ≡ header_size + body_length m.body
unfolding serialized_size
serialized_size_lem {header_size} {m} fits =
    let e = body_size_lem m.body (omega arith) in omega arith

type_range : (body : Body) → (leb 1 (message_type body) && leb (message_type body) 4) ≡ true
type_range (hello m) = refl
type_range (tc m) = refl
type_range (mid m) = refl
type_range (hna m) = refl

type_small : (body : Body) → message_type body < 2 ^ 8
type_small (hello m) = omega arith
type_small (tc m) = omega arith
type_small (mid m) = omega arith
type_small (hna m) = omega arith

module _ {b : Buffer} (laws : IsBuffer b) where
  length-write_header :
      (header_size : ℕ) (m : MessageHeader)
      → length (write_header b header_size m) ≡ 12 + body_length m.body
  unfolding write_header
  length-write_header header_size m =
      let size = serialized_size header_size m % 2 ^ 16 in
      let t7 = write_body b m.body in
      let t6 = b.write_hton_u16 m.message_sequence_number ++ t7 in
      let t5 = b.write_u8 m.hop_count ++ t6 in
      let t4 = b.write_u8 m.time_to_live ++ t5 in
      let t3 = b.write_hton_u32 m.originator_address ++ t4 in
      let t2 = b.write_hton_u16 size ++ t3 in
      let e1 = length-append (b.write_u8 (message_type m.body)) (b.write_u8 m.v_time ++ t2) in
      let e2 = length-append (b.write_u8 m.v_time) t2 in
      let e3 = length-append (b.write_hton_u16 size) t3 in
      let e4 = length-append (b.write_hton_u32 m.originator_address) t4 in
      let e5 = length-append (b.write_u8 m.time_to_live) t5 in
      let e6 = length-append (b.write_u8 m.hop_count) t6 in
      let e7 = length-append (b.write_hton_u16 m.message_sequence_number) t7 in
      let l1 = laws.length-u8 (message_type m.body) in
      let l2 = laws.length-u8 m.v_time in
      let l3 = laws.length-hton_u16 size in
      let l4 = laws.length-hton_u32 m.originator_address in
      let l5 = laws.length-u8 m.time_to_live in
      let l6 = laws.length-u8 m.hop_count in
      let l7 = laws.length-hton_u16 m.message_sequence_number in
      omega (arith, length-write_body laws m.body)

  read-write_header :
      (header_size : ℕ) (m : MessageHeader) (rest : List ℕ)
      → HeaderFits header_size m
      → read_header b header_size (write_header b header_size m ++ rest)
        ≡ some ((m, serialized_size header_size m), rest)
  unfolding write_header read_header
  read-write_header header_size m rest fits =
      let length' : ℕ = header_size + body_length m.body in
      let known : serialized_size header_size m ≡ length' = serialized_size_lem fits in
      let size : length' % 2 ^ 16 ≡ length' = omega arith in
      let back : (length' + 2 ^ 32 - header_size) % 2 ^ 32 ≡ body_length m.body = omega arith in
      let total : length' % 2 ^ 32 ≡ length' = omega arith in
      let t7 = write_body b m.body in
      let t6 = b.write_hton_u16 m.message_sequence_number ++ t7 in
      let t5 = b.write_u8 m.hop_count ++ t6 in
      let t4 = b.write_u8 m.time_to_live ++ t5 in
      let t3 = b.write_hton_u32 m.originator_address ++ t4 in
      let t2 = b.write_hton_u16 length' ++ t3 in
      let r7 = t7 ++ rest in
      let r6 = b.write_hton_u16 m.message_sequence_number ++ r7 in
      let r5 = b.write_u8 m.hop_count ++ r6 in
      let r4 = b.write_u8 m.time_to_live ++ r5 in
      let r3 = b.write_hton_u32 m.originator_address ++ r4 in
      let r2 = b.write_hton_u16 length' ++ r3 in
      rw (
        known,
        size,
        append_assoc (b.write_u8 (message_type m.body)) (b.write_u8 m.v_time ++ t2) rest,
        append_assoc (b.write_u8 m.v_time) t2 rest,
        append_assoc (b.write_hton_u16 length') t3 rest,
        append_assoc (b.write_hton_u32 m.originator_address) t4 rest,
        append_assoc (b.write_u8 m.time_to_live) t5 rest,
        append_assoc (b.write_u8 m.hop_count) t6 rest,
        append_assoc (b.write_hton_u16 m.message_sequence_number) t7 rest,
        laws.u8 (message_type m.body) (b.write_u8 m.v_time ++ r2) (type_small m.body),
        type_range m.body,
        laws.u8 m.v_time r2 fits.v_time,
        laws.ntoh_u16 length' r3 fits.size,
        laws.ntoh_u32 m.originator_address r4 fits.originator_address,
        laws.u8 m.time_to_live r5 fits.time_to_live,
        laws.u8 m.hop_count r6 fits.hop_count,
        laws.ntoh_u16 m.message_sequence_number r7 fits.message_sequence_number,
        back,
        read-write_body laws m.body rest fits.body (omega arith),
        total,
        ◌>>=◌,
      )

  module _ {H : Type 0} (heights : Heights H) (words : IsHeights heights) where
    -- A message whose fields fit takes as many bytes as its `GetSerializedSize` says.
    pub length-write_ocean :
        (m : OceanMessageHeader H)
        → HeaderFits 16 m.header
        → length (write_ocean b heights m) ≡ serialized_size 16 m.header
    unfolding write_ocean
    length-write_ocean m fits =
        let word = b.write_u32 (heights.to_word m.predict_height) in
        let e = length-append word (write_header b 16 m.header) in
        let l = laws.length-u32 (heights.to_word m.predict_height) in
        let h = length-write_header 16 m.header in omega (arith, serialized_size_lem fits)

    -- A message whose fields fit, followed by any bytes, is read back with the same header and
    -- body, its predicted height rounded to the word that is sent, and the size returned is that of
    -- `GetSerializedSize`; the bytes that follow are left.
    pub read-write_ocean :
        (m : OceanMessageHeader H) (rest : List ℕ)
        → HeaderFits 16 m.header
        → read_ocean b heights (write_ocean b heights m ++ rest)
          ≡ some (
            (
              record m { predict_height = heights.of_word (heights.to_word m.predict_height) },
              serialized_size 16 m.header,
            ),
            rest,
          )
    unfolding write_ocean read_ocean
    read-write_ocean m rest fits =
        let word = heights.to_word m.predict_height in
        let tail = write_header b 16 m.header in
        rw (
          append_assoc (b.write_u32 word) tail rest,
          laws.u32 word (tail ++ rest) (words m.predict_height),
          read-write_header 16 m.header rest fits,
          ◌>>=◌,
        )
