-- ===== src/Wire/Body/Link.antt =====
-- The link messages of a HELLO are read back as they were written: the loop
-- `while (helloSizeLeft)` of `Hello::Deserialize` in RoutingProtocol/olsr-header.cc.
use maritime_mesh_network.Base.{
  ℕ, zero, suc, ◌+◌, ◌-◌, ◌*◌, ◌/◌, ◌%◌, ◌^◌, ◌<◌, ◌==◌, ltb, ◌≡◌, refl, false, some, List, [], ◌∷◌,
  ◌++◌, arith, length, length-append, All,
}
use mathlib.Core.List.{append_assoc}
use maritime_mesh_network.Wire.{◌>>=◌, Buffer, IsBuffer}
use maritime_mesh_network.Wire.Body.{
  LinkMessage, write_addresses, write_link_message, write_link_messages, read_link_message,
  read_link_messages, link_messages_size,
}
use maritime_mesh_network.Wire.Body.Address.{IsWord, length-write_addresses, read-write_addresses}

-- The bytes of the link messages, without wrap-around.
abbrev pub link_length : LinkMessage → ℕ
link_length lm = 4 + length lm.neighbor_interface_addresses * 4

abbrev pub links_length : List LinkMessage → ℕ
links_length [] = 0
links_length (lm ∷ lms) = link_length lm + links_length lms

-- The fields fit their widths.
pub record LinkFits (lm : LinkMessage) : Type 0 where
  pub code : lm.link_code < 2 ^ 8
  pub addresses : All IsWord lm.neighbor_interface_addresses

pub link_messages_size_lem :
    (size : ℕ) (lms : List LinkMessage)
    → size + links_length lms < 2 ^ 32
    → link_messages_size size lms ≡ size + links_length lms
unfolding link_messages_size
link_messages_size_lem size [] h = omega arith
link_messages_size_lem size (lm ∷ lms) h =
    let l = length lm.neighbor_interface_addresses in
    let e : (size + 4 + 4 * l) % 2 ^ 32 ≡ size + 4 + 4 * l = omega arith in
    rw e (omega (arith, link_messages_size_lem (size + 4 + 4 * l) lms (omega arith)))

module _ {b : Buffer} (laws : IsBuffer b) where
  length-write_link_message : (lm : LinkMessage) → length (write_link_message b lm) ≡ link_length lm
  unfolding write_link_message
  length-write_link_message lm =
      let l = lm.neighbor_interface_addresses in
      let tail = write_addresses b l in
      let size = (4 + length l * 4) % 2 ^ 16 in
      let e0 =
        length-append (b.write_u8 lm.link_code) (b.write_u8 0 ++ (b.write_hton_u16 size ++ tail)) in
      let e1 = length-append (b.write_u8 0) (b.write_hton_u16 size ++ tail) in
      let e2 = length-append (b.write_hton_u16 size) tail in
      let l0 = laws.length-u8 lm.link_code in
      let l1 = laws.length-u8 0 in
      let l2 = laws.length-hton_u16 size in let l3 = length-write_addresses laws l in omega arith

  pub length-write_link_messages :
      (lms : List LinkMessage) → length (write_link_messages b lms) ≡ links_length lms
  unfolding write_link_messages
  length-write_link_messages [] = refl
  length-write_link_messages (lm ∷ lms) =
      let e = length-append (write_link_message b lm) (write_link_messages b lms) in
      let l = length-write_link_message lm in omega (arith, length-write_link_messages lms)

  read-write_link_message :
      (lm : LinkMessage) (rest : List ℕ)
      → LinkFits lm
      → link_length lm < 2 ^ 16
      → read_link_message b (write_link_message b lm ++ rest) ≡ some ((lm, link_length lm), rest)
  unfolding write_link_message read_link_message
  read-write_link_message lm rest fits small =
      let l = lm.neighbor_interface_addresses in
      let tail = write_addresses b l in
      let wrap : (4 + length l * 4) % 2 ^ 16 ≡ 4 + length l * 4 = omega arith in
      let size : ℕ = 4 + length l * 4 in
      let e0 =
        append_assoc (b.write_u8 lm.link_code) (b.write_u8 0 ++ (b.write_hton_u16 size ++ tail))
          rest in
      let e1 = append_assoc (b.write_u8 0) (b.write_hton_u16 size ++ tail) rest in
      let e2 = append_assoc (b.write_hton_u16 size) tail rest in
      let r2 = b.write_hton_u16 size ++ (tail ++ rest) in
      let big : ltb size 4 ≡ false = ground arith in
      let even : (size - 4) % 4 ≡ 0 = omega arith in
      let count : (size - 4) / 4 ≡ length l = omega arith in
      rw (
        wrap,
        e0,
        e1,
        e2,
        laws.u8 lm.link_code (b.write_u8 0 ++ r2) fits.code,
        laws.u8 0 r2 (omega arith),
        laws.ntoh_u16 size (tail ++ rest) small,
        big,
        even,
        count,
        read-write_addresses laws l rest fits.addresses,
        ◌>>=◌,
      )

  pub read-write_link_messages :
      (fuel : ℕ) (lms : List LinkMessage) (rest : List ℕ)
      → length lms < fuel
      → links_length lms < 2 ^ 16
      → All LinkFits lms
      → read_link_messages b fuel (links_length lms) (write_link_messages b lms ++ rest)
        ≡ some (lms, rest)
  unfolding write_link_messages read_link_messages
  read-write_link_messages zero lms rest h small fits = absurd (omega arith)
  read-write_link_messages (suc fuel) [] rest h small fits = refl
  read-write_link_messages (suc fuel) (lm ∷ lms) rest h small (fit, fits) =
      let tail = write_link_messages b lms in
      let left : ℕ = link_length lm + links_length lms in
      let nonzero : (left == 0) ≡ false = ground arith in
      let big : ltb left 4 ≡ false = ground arith in
      let next : (left + 2 ^ 16 - link_length lm) % 2 ^ 16 ≡ links_length lms = omega arith in
      rw (
        nonzero,
        big,
        append_assoc (write_link_message b lm) tail rest,
        read-write_link_message lm (tail ++ rest) fit (omega arith),
        next,
        read-write_link_messages fuel lms rest (omega arith) (omega arith) fits,
        ◌>>=◌,
      )
