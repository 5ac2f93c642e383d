-- ===== src/Wire/Body/Address.antt =====
-- The vectors of addresses and of associations of a message are read back as they were written.
use maritime_mesh_network.Base.{
  ℕ, ◌*◌, ◌^◌, ◌<◌, ◌≡◌, refl, some, List, [], ◌∷◌, ◌++◌, arith, length, length-append, All,
}
use mathlib.Core.List.{append_assoc}
use maritime_mesh_network.Repositories.{Ipv4Address}
use maritime_mesh_network.Wire.{◌>>=◌, Buffer, IsBuffer}
use maritime_mesh_network.Wire.Body.{
  HnaAssociation, write_addresses, read_addresses, write_associations, read_associations,
}

abbrev pub IsWord : ℕ → Type 0
IsWord a = a < 2 ^ 32

abbrev pub IsAssociation : HnaAssociation → Type 0
IsAssociation a = IsWord a.address × IsWord a.mask

module _ {b : Buffer} (laws : IsBuffer b) where
  pub length-write_addresses : (l : List Ipv4Address) → length (write_addresses b l) ≡ length l * 4
  unfolding write_addresses
  length-write_addresses [] = refl
  length-write_addresses (a ∷ l) =
      let e = length-append (b.write_hton_u32 a) (write_addresses b l) in
      let f = laws.length-hton_u32 a in omega (arith, length-write_addresses l)

  pub read-write_addresses :
      (l : List Ipv4Address) (rest : List ℕ)
      → All IsWord l
      → read_addresses b (length l) (write_addresses b l ++ rest) ≡ some (l, rest)
  unfolding write_addresses read_addresses
  read-write_addresses [] rest h = refl
  read-write_addresses (a ∷ l) rest (h, hs) = rw (
    append_assoc,
    laws.ntoh_u32 a (write_addresses b l ++ rest) h,
    read-write_addresses l rest hs,
    ◌>>=◌,
  )

  pub length-write_associations :
      (l : List HnaAssociation) → length (write_associations b l) ≡ length l * 8
  unfolding write_associations
  length-write_associations [] = refl
  length-write_associations (a ∷ l) =
      let tail = write_associations b l in
      let e = length-append (b.write_hton_u32 a.address) (b.write_hton_u32 a.mask ++ tail) in
      let f = length-append (b.write_hton_u32 a.mask) tail in
      let g = laws.length-hton_u32 a.address in
      let h = laws.length-hton_u32 a.mask in omega (arith, length-write_associations l)

  pub read-write_associations :
      (l : List HnaAssociation) (rest : List ℕ)
      → All IsAssociation l
      → read_associations b (length l) (write_associations b l ++ rest) ≡ some (l, rest)
  unfolding write_associations read_associations
  read-write_associations [] rest h = refl
  read-write_associations (a ∷ l) rest ((ha, hm), hs) =
      let tail = write_associations b l in
      let e = append_assoc (b.write_hton_u32 a.address) (b.write_hton_u32 a.mask ++ tail) rest in
      let f = append_assoc (b.write_hton_u32 a.mask) tail rest in
      rw (
        e,
        f,
        laws.ntoh_u32 a.address (b.write_hton_u32 a.mask ++ (tail ++ rest)) ha,
        laws.ntoh_u32 a.mask (tail ++ rest) hm,
        read-write_associations l rest hs,
        ◌>>=◌,
      )
