-- ===== src/Wire/Message/Fields.antt =====
-- What fits a message of RoutingProtocol/olsr-header.cc: the ranges of its fields, and the length
-- of its body without wrap-around. A body that fits is read back as it was written.
use maritime_mesh_network.Base.{
  ℕ, suc, ◌+◌, ◌-◌, ◌*◌, ◌/◌, ◌%◌, ◌^◌, ◌≤◌, ◌<◌, ◌≡◌, ltb, false, some, List, [], ◌∷◌, ◌++◌, arith,
  length, length-append, All,
}
use mathlib.Core.List.{append_assoc}
use maritime_mesh_network.Wire.{◌>>=◌, Buffer, IsBuffer}
use maritime_mesh_network.Wire.Body.{
  Mid, Hello, Tc, Hna, LinkMessage, mid_size, hello_size, tc_size, hna_size, write_mid, write_hello,
  write_tc, write_hna, read_mid, read_hello, read_tc, read_hna, write_addresses,
  write_link_messages,
}
use maritime_mesh_network.Wire.Body.Address.{
  IsWord, IsAssociation, length-write_addresses, read-write_addresses, length-write_associations,
  read-write_associations,
}
use maritime_mesh_network.Wire.Body.Link.{
  LinkFits, links_length, link_messages_size_lem, length-write_link_messages,
  read-write_link_messages,
}
use maritime_mesh_network.Wire.Message.{
  Body, hello, tc, mid, hna, message_type, body_size, write_body, read_body,
}

abbrev pub body_length : Body → ℕ
body_length (hello m) = 4 + links_length m.link_messages
body_length (tc m) = 4 + length m.neighbor_addresses * 4
body_length (mid m) = length m.interface_addresses * 4
body_length (hna m) = length m.associations * 8

abbrev pub BodyFits : Body → Type 0
BodyFits (hello m) = (m.h_time < 2 ^ 8) × (m.willingness < 2 ^ 8) × All LinkFits m.link_messages
BodyFits (tc m) = (m.ansn < 2 ^ 16) × All IsWord m.neighbor_addresses
BodyFits (mid m) = All IsWord m.interface_addresses
BodyFits (hna m) = All IsAssociation m.associations

-- The size that the code computes is the length, below 2 ^ 16.
pub body_size_lem : (body : Body) → body_length body < 2 ^ 16 → body_size body ≡ body_length body
unfolding body_size mid_size hello_size tc_size hna_size
body_size_lem (hello m) h = link_messages_size_lem 4 m.link_messages (omega arith)
body_size_lem (tc m) h = omega arith
body_size_lem (mid m) h = omega arith
body_size_lem (hna m) h = omega arith

links_count : (lms : List LinkMessage) → length lms ≤ links_length lms
links_count [] = omega arith
links_count (lm ∷ lms) = omega (arith, links_count lms)

module _ {b : Buffer} (laws : IsBuffer b) where
  pub length-write_body : (body : Body) → length (write_body b body) ≡ body_length body
  unfolding write_body write_mid write_hello write_tc write_hna
  length-write_body (hello m) =
      let links = write_link_messages b m.link_messages in
      let e0 =
        length-append (b.write_u16 0)
          (b.write_u8 m.h_time ++ (b.write_u8 m.willingness ++ links)) in
      let e1 = length-append (b.write_u8 m.h_time) (b.write_u8 m.willingness ++ links) in
      let e2 = length-append (b.write_u8 m.willingness) links in
      let l0 = laws.length-u16 0 in
      let l1 = laws.length-u8 m.h_time in
      let l2 = laws.length-u8 m.willingness in
      omega (arith, length-write_link_messages laws m.link_messages)
  length-write_body (tc m) =
      let tail = write_addresses b m.neighbor_addresses in
      let e0 = length-append (b.write_hton_u16 m.ansn) (b.write_hton_u16 0 ++ tail) in
      let e1 = length-append (b.write_hton_u16 0) tail in
      let l0 = laws.length-hton_u16 m.ansn in
      let l1 = laws.length-hton_u16 0 in
      omega (arith, length-write_addresses laws m.neighbor_addresses)
  length-write_body (mid m) = length-write_addresses laws m.interface_addresses
  length-write_body (hna m) = length-write_associations laws m.associations

  read-write_hello :
      (m : Hello) (rest : List ℕ)
      → BodyFits (hello m)
      → body_length (hello m) < 2 ^ 16
      → read_hello b (body_length (hello m)) (write_hello b m ++ rest)
        ≡ some ((m, body_length (hello m)), rest)
  unfolding write_hello read_hello
  read-write_hello m rest (t, w, fits) small =
      let links = write_link_messages b m.link_messages in
      let size : ℕ = 4 + links_length m.link_messages in
      let e0 =
        append_assoc (b.write_u16 0) (b.write_u8 m.h_time ++ (b.write_u8 m.willingness ++ links))
          rest in
      let e1 = append_assoc (b.write_u8 m.h_time) (b.write_u8 m.willingness ++ links) rest in
      let e2 = append_assoc (b.write_u8 m.willingness) links rest in
      let big : ltb size 4 ≡ false = ground arith in
      let left : (size % 2 ^ 16 + 2 ^ 16 - 4) % 2 ^ 16 ≡ links_length m.link_messages =
        omega arith in
      let count = links_count m.link_messages in
      let total = length-append links rest in
      let written = length-write_link_messages laws m.link_messages in
      let read =
        read-write_link_messages laws (suc (length (links ++ rest))) m.link_messages rest
          (omega arith) (omega arith) fits in
      rw (
        big,
        e0,
        e1,
        e2,
        laws.u16_zero (b.write_u8 m.h_time ++ (b.write_u8 m.willingness ++ (links ++ rest))),
        laws.u8 m.h_time (b.write_u8 m.willingness ++ (links ++ rest)) t,
        laws.u8 m.willingness (links ++ rest) w,
        left,
        read,
        ◌>>=◌,
      )

  read-write_tc :
      (m : Tc) (rest : List ℕ)
      → BodyFits (tc m)
      → read_tc b (body_length (tc m)) (write_tc b m ++ rest) ≡ some ((m, body_length (tc m)), rest)
  unfolding write_tc read_tc
  read-write_tc m rest (s, fits) =
      let l = m.neighbor_addresses in
      let tail = write_addresses b l in
      let size : ℕ = 4 + length l * 4 in
      let e0 = append_assoc (b.write_hton_u16 m.ansn) (b.write_hton_u16 0 ++ tail) rest in
      let e1 = append_assoc (b.write_hton_u16 0) tail rest in
      let big : ltb size 4 ≡ false = ground arith in
      let even : (size - 4) % 4 ≡ 0 = omega arith in
      let count : (size - 4) / 4 ≡ length l = omega arith in
      rw (
        big,
        e0,
        e1,
        laws.ntoh_u16 m.ansn (b.write_hton_u16 0 ++ (tail ++ rest)) s,
        laws.ntoh_u16 0 (tail ++ rest) (omega arith),
        even,
        count,
        read-write_addresses laws l rest fits,
        ◌>>=◌,
      )

  read-write_mid :
      (m : Mid) (rest : List ℕ)
      → BodyFits (mid m)
      → body_length (mid m) < 2 ^ 16
      → read_mid b (body_length (mid m)) (write_mid b m ++ rest)
        ≡ some ((m, body_length (mid m)), rest)
  unfolding write_mid read_mid mid_size
  read-write_mid m rest fits small =
      let l = m.interface_addresses in
      let even : length l * 4 % 4 ≡ 0 = omega arith in
      let count : length l * 4 / 4 ≡ length l = omega arith in
      let same : length l * 4 % 2 ^ 32 ≡ length l * 4 = omega arith in
      rw (even, count, read-write_addresses laws l rest fits, ◌>>=◌, same)

  read-write_hna :
      (m : Hna) (rest : List ℕ)
      → BodyFits (hna m)
      → read_hna b (body_length (hna m)) (write_hna b m ++ rest)
        ≡ some ((m, body_length (hna m)), rest)
  unfolding write_hna read_hna
  read-write_hna m rest fits =
      let l = m.associations in
      let even : length l * 8 % 8 ≡ 0 = omega arith in
      let count : length l * 8 / 4 / 2 ≡ length l = omega arith in
      rw (even, count, read-write_associations laws l rest fits, ◌>>=◌)

  pub read-write_body :
      (body : Body) (rest : List ℕ)
      → BodyFits body
      → body_length body < 2 ^ 16
      → read_body b (message_type body) (body_length body) (write_body b body ++ rest)
        ≡ some ((body, body_length body), rest)
  unfolding read_body write_body
  read-write_body (hello m) rest fits small = rw (read-write_hello m rest fits small, ◌>>=◌)
  read-write_body (tc m) rest fits small = rw (read-write_tc m rest fits, ◌>>=◌)
  read-write_body (mid m) rest fits small = rw (read-write_mid m rest fits small, ◌>>=◌)
  read-write_body (hna m) rest fits small = rw (read-write_hna m rest fits, ◌>>=◌)
