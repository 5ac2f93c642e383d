-- ===== src/Wire.antt =====
-- Byte buffers: what RoutingProtocol/olsr-header.cc and RoutingProtocol/ocean-olsr-header.cc use of
-- ns-3's `Buffer::Iterator` and `Packet`, as an interface over lists of bytes, and the readers that
-- the messages are parsed by.
pub mod Body
pub mod Message
pub mod Packet
use maritime_mesh_network.Base.{ℕ, ◌^◌, ◌<◌, ◌≡◌, Option, none, some, List, ◌++◌, length}

-- A read gives the value and the bytes after it, or `none` past the end of the buffer.
abbrev pub Reader : Type 0 → Type 0
Reader A = List ℕ → Option (A × List ℕ)

abbrev pub pure : {A : Type 0} → A → Reader A
pure a bytes = some (a, bytes)

-- A failed `NS_ASSERT`.
abbrev pub failed : {A : Type 0} → Reader A
failed bytes = none

infixl 5 ◌>>=◌
abbrev pub ◌>>=◌ : {A B : Type 0} → Reader A → (A → Reader B) → Reader B
◌>>=◌ m f bytes = elim (m bytes) [ none ↦ none | some (a, rest) ↦ f a rest ]

-- The calls of the source: `WriteU8`, `WriteU16`, `WriteU32`, `WriteHtonU16`, `WriteHtonU32`, the
-- corresponding reads, and `Packet::RemoveAtStart`, by which `RemoveHeader` takes off what a header
-- has read.
pub record Buffer : Type 0 where
  pub write_u8 : ℕ → List ℕ
  pub write_u16 : ℕ → List ℕ
  pub write_u32 : ℕ → List ℕ
  pub write_hton_u16 : ℕ → List ℕ
  pub write_hton_u32 : ℕ → List ℕ
  pub read_u8 : Reader ℕ
  pub read_u32 : Reader ℕ
  pub read_ntoh_u16 : Reader ℕ
  pub read_ntoh_u32 : Reader ℕ
  pub remove_at_start : ℕ → List ℕ → List ℕ

-- The documented behaviour: each write takes its width, and the read of the same width and byte
-- order gives the value back. A zero is the same in either byte order.
pub record IsBuffer (b : Buffer) : Type 0 where
  pub length-u8 : (n : ℕ) → length (b.write_u8 n) ≡ 1
  pub length-u16 : (n : ℕ) → length (b.write_u16 n) ≡ 2
  pub length-u32 : (n : ℕ) → length (b.write_u32 n) ≡ 4
  pub length-hton_u16 : (n : ℕ) → length (b.write_hton_u16 n) ≡ 2
  pub length-hton_u32 : (n : ℕ) → length (b.write_hton_u32 n) ≡ 4
  pub u8 : (n : ℕ) (rest : List ℕ) → n < 2 ^ 8 → b.read_u8 (b.write_u8 n ++ rest) ≡ some (n, rest)
  pub u16_zero : (rest : List ℕ) → b.read_ntoh_u16 (b.write_u16 0 ++ rest) ≡ some (0, rest)
  pub u32 :
      (n : ℕ) (rest : List ℕ) → n < 2 ^ 32 → b.read_u32 (b.write_u32 n ++ rest) ≡ some (n, rest)
  pub ntoh_u16 :
      (n : ℕ) (rest : List ℕ)
      → n < 2 ^ 16
      → b.read_ntoh_u16 (b.write_hton_u16 n ++ rest) ≡ some (n, rest)
  pub ntoh_u32 :
      (n : ℕ) (rest : List ℕ)
      → n < 2 ^ 32
      → b.read_ntoh_u32 (b.write_hton_u32 n ++ rest) ≡ some (n, rest)
  pub remove : (xs ys : List ℕ) → b.remove_at_start (length xs) (xs ++ ys) ≡ ys
