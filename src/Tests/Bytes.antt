-- ===== src/Tests/Bytes.antt =====
-- A buffer of bytes that keeps the laws of `Wire.IsBuffer`: the network order is big-endian, and
-- the order of the host little-endian.
use maritime_mesh_network.Base.{
  ℕ, zero, suc, ◌+◌, ◌*◌, ◌/◌, ◌%◌, ◌^◌, ◌<◌, ◌≡◌, refl, none, some, List, [], ◌∷◌, ◌++◌, length,
  arith,
}
use maritime_mesh_network.Wire.{Reader, Buffer, IsBuffer}

abbrev big : ℕ → List ℕ
big n = (n / 2 ^ 24) ∷ (n / 2 ^ 16 % 256) ∷ (n / 256 % 256) ∷ (n % 256) ∷ []

abbrev little : ℕ → List ℕ
little n = (n % 256) ∷ (n / 256 % 256) ∷ (n / 2 ^ 16 % 256) ∷ (n / 2 ^ 24) ∷ []

abbrev read_byte : Reader ℕ
read_byte [] = none
read_byte (a ∷ rest) = some (a, rest)

abbrev read_pair : Reader ℕ
read_pair (a ∷ b ∷ rest) = some (a * 256 + b, rest)
read_pair _ = none

abbrev read_big : Reader ℕ
read_big (a ∷ b ∷ c ∷ d ∷ rest) = some (((a * 256 + b) * 256 + c) * 256 + d, rest)
read_big _ = none

abbrev read_little : Reader ℕ
read_little (a ∷ b ∷ c ∷ d ∷ rest) = some (((d * 256 + c) * 256 + b) * 256 + a, rest)
read_little _ = none

abbrev drop : ℕ → List ℕ → List ℕ
drop zero xs = xs
drop (suc n) [] = []
drop (suc n) (x ∷ xs) = drop n xs

abbrev pub bytes : Buffer
bytes = record {
  write_u8 = λ n. n ∷ [];
  write_u16 = λ n. (n % 256) ∷ (n / 256) ∷ [];
  write_u32 = little;
  write_hton_u16 = λ n. (n / 256) ∷ (n % 256) ∷ [];
  write_hton_u32 = big;
  read_u8 = read_byte;
  read_u32 = read_little;
  read_ntoh_u16 = read_pair;
  read_ntoh_u32 = read_big;
  remove_at_start = drop;
}

read_little_lem :
    (n : ℕ) (rest : List ℕ) → n < 2 ^ 32 → read_little (little n ++ rest) ≡ some (n, rest)
read_little_lem n rest h =
    let e : ((n / 2 ^ 24 * 256 + n / 2 ^ 16 % 256) * 256 + n / 256 % 256) * 256 + n % 256 ≡ n =
      omega arith in
    rw e

read_big_lem : (n : ℕ) (rest : List ℕ) → n < 2 ^ 32 → read_big (big n ++ rest) ≡ some (n, rest)
read_big_lem n rest h =
    let e : ((n / 2 ^ 24 * 256 + n / 2 ^ 16 % 256) * 256 + n / 256 % 256) * 256 + n % 256 ≡ n =
      omega arith in
    rw e

read_pair_lem :
    (n : ℕ) (rest : List ℕ) → n < 2 ^ 16 → read_pair ((n / 256) ∷ (n % 256) ∷ rest) ≡ some (n, rest)
read_pair_lem n rest h = let e : n / 256 * 256 + n % 256 ≡ n = omega arith in rw e

drop_lem : (xs ys : List ℕ) → drop (length xs) (xs ++ ys) ≡ ys
drop_lem [] ys = refl
drop_lem (x ∷ xs) ys = drop_lem xs ys

pub bytes-IsBuffer : IsBuffer bytes
bytes-IsBuffer = record {
  length-u8 = λ n. refl;
  length-u16 = λ n. refl;
  length-u32 = λ n. refl;
  length-hton_u16 = λ n. refl;
  length-hton_u32 = λ n. refl;
  u8 = λ n rest h. refl;
  u16_zero = λ rest. refl;
  u32 = read_little_lem;
  ntoh_u16 = read_pair_lem;
  ntoh_u32 = read_big_lem;
  remove = drop_lem;
}
