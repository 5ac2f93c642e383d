-- ===== src/Wire/Packet/RoundTrip.antt =====
-- A packet of RoutingProtocol/ocean-protocol.cc is taken apart into the messages that it was put
-- together from.
use maritime_mesh_network.Base.{
  ℕ, zero, suc, ◌+◌, ◌-◌, ◌%◌, ◌^◌, ◌≤◌, ◌<◌, ◌≡◌, ◌==◌, ltb, false, refl, some, List, [], ◌∷◌,
  ◌++◌, map, arith, length, length-append, All, subst,
}
use mathlib.Core.List.{append_assoc}
use maritime_mesh_network.Wire.{◌>>=◌, Buffer, IsBuffer}
use maritime_mesh_network.Wire.Message.{
  Heights, IsHeights, OceanMessageHeader, serialized_size, write_ocean,
}
use maritime_mesh_network.Wire.Message.Fields.{body_length}
use maritime_mesh_network.Wire.Message.RoundTrip.{
  HeaderFits, serialized_size_lem, length-write_ocean, read-write_ocean,
}
use maritime_mesh_network.Wire.Packet.{
  PacketHeader, write_packet_header, read_packet_header, write_messages, receive_messages,
  receive_packet,
}

-- The bytes of the messages of a packet.
abbrev pub messages_length : {H : Type 0} → List (OceanMessageHeader H) → ℕ
messages_length [] = 0
messages_length (m ∷ ms) = 16 + body_length m.header.body + messages_length ms

abbrev pub Fits : {H : Type 0} → OceanMessageHeader H → Type 0
Fits m = HeaderFits 16 m.header

messages_count : {H : Type 0} (ms : List (OceanMessageHeader H)) → length ms ≤ messages_length ms
messages_count [] = omega arith
messages_count (m ∷ ms) = omega (arith, messages_count ms)

-- The message with its predicted height as the receiver has it.
abbrev pub arrived : {H : Type 0} → Heights H → OceanMessageHeader H → OceanMessageHeader H
arrived heights m = record m { predict_height = heights.of_word (heights.to_word m.predict_height) }

module _ {b : Buffer} (laws : IsBuffer b) {H : Type 0} (heights : Heights H)
    (words : IsHeights heights) where
  pub length-write_messages :
      (ms : List (OceanMessageHeader H))
      → All Fits ms
      → length (write_messages b heights ms) ≡ messages_length ms
  unfolding write_messages
  length-write_messages [] fits = refl
  length-write_messages (m ∷ ms) (fit, fits) =
      let e = length-append (write_ocean b heights m) (write_messages b heights ms) in
      let l = length-write_ocean laws heights words m fit in
      let s = serialized_size_lem fit in omega (arith, length-write_messages ms fits)

  receive-write_messages :
      (fuel : ℕ) (ms : List (OceanMessageHeader H))
      → length ms < fuel
      → messages_length ms < 2 ^ 32
      → All Fits ms
      → receive_messages b heights fuel (messages_length ms) (write_messages b heights ms)
        ≡ some (map (arrived heights) ms)
  unfolding receive_messages write_messages
  receive-write_messages zero ms h small fits = absurd (omega arith)
  receive-write_messages (suc fuel) [] h small fits = refl
  receive-write_messages (suc fuel) (m ∷ ms) h small (fit, fits) =
      let tail = write_messages b heights ms in
      let size : ℕ = 16 + body_length m.header.body in
      let known : serialized_size 16 m.header ≡ size = serialized_size_lem fit in
      let left : ℕ = size + messages_length ms in
      let more : (left == 0) ≡ false = ground arith in
      let some_size : (size == 0) ≡ false = ground arith in
      let next : (left + 2 ^ 32 - size) % 2 ^ 32 ≡ messages_length ms = omega arith in
      let written : length (write_ocean b heights m) ≡ size =
        omega (arith, length-write_ocean laws heights words m fit) in
      let cut : b.remove_at_start size (write_ocean b heights m ++ tail) ≡ tail =
        subst (λ n. b.remove_at_start n (write_ocean b heights m ++ tail) ≡ tail) written
          (laws.remove (write_ocean b heights m) tail) in
      rw (
        more,
        read-write_ocean laws heights words m tail fit,
        known,
        some_size,
        next,
        cut,
        receive-write_messages fuel ms (omega arith) (omega arith) fits,
      )

  read-write_packet_header :
      (h : PacketHeader) (rest : List ℕ)
      → h.packet_length < 2 ^ 16
      → h.packet_sequence_number < 2 ^ 16
      → read_packet_header b (write_packet_header b h ++ rest) ≡ some ((h, 4), rest)
  unfolding read_packet_header write_packet_header
  read-write_packet_header h rest l s =
      let tail = b.write_hton_u16 h.packet_sequence_number in
      rw (
        append_assoc (b.write_hton_u16 h.packet_length) tail rest,
        laws.ntoh_u16 h.packet_length (tail ++ rest) l,
        laws.ntoh_u16 h.packet_sequence_number rest s,
        ◌>>=◌,
      )

  length-write_packet_header : (h : PacketHeader) → length (write_packet_header b h) ≡ 4
  unfolding write_packet_header
  length-write_packet_header h =
      let e =
        length-append (b.write_hton_u16 h.packet_length)
          (b.write_hton_u16 h.packet_sequence_number) in
      let l = laws.length-hton_u16 h.packet_length in
      let m = laws.length-hton_u16 h.packet_sequence_number in omega arith

  -- A packet of messages that fit, whose header says its length, is received as its header and its
  -- messages in their order, with the predicted heights rounded to the words that are sent.
  pub receive-write_packet :
      (h : PacketHeader) (ms : List (OceanMessageHeader H))
      → h.packet_length ≡ 4 + messages_length ms
      → h.packet_length < 2 ^ 16
      → h.packet_sequence_number < 2 ^ 16
      → All Fits ms
      → receive_packet b heights (write_packet_header b h ++ write_messages b heights ms)
        ≡ some (h, map (arrived heights) ms)
  unfolding receive_packet
  receive-write_packet h ms e l s fits =
      let tail = write_messages b heights ms in
      let head = write_packet_header b h in
      let long : ltb h.packet_length 4 ≡ false = ground arith in
      let left : h.packet_length - 4 ≡ messages_length ms = omega arith in
      let head_size : length head ≡ 4 = length-write_packet_header h in
      let cut : b.remove_at_start 4 (head ++ tail) ≡ tail =
        subst (λ n. b.remove_at_start n (head ++ tail) ≡ tail) head_size (laws.remove head tail) in
      let total = length-append head tail in
      let written = length-write_messages ms fits in
      let count = messages_count ms in
      rw (
        read-write_packet_header h tail l s,
        long,
        left,
        cut,
        receive-write_messages (suc (length (head ++ tail))) ms (omega arith) (omega arith) fits,
        receive_packet,
      )
