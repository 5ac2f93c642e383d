-- ===== src/Emf.antt =====
-- The mantissa/exponent format of times: `SecondsToEmf` and `EmfToSeconds` of
-- RoutingProtocol/olsr-header.cc. A time is counted in 256ths of a second, so that `OLSR_C` is 16;
-- on such times the divisions and products of the code's doubles are exact.
pub mod Rounding
use maritime_mesh_network.Base.{
  ℕ, zero, suc, ◌+◌, ◌-◌, ◌*◌, ◌/◌, ◌%◌, ◌^◌, ◌==◌, ltb, leb, Bool, Option, none, some,
  if◌then◌else◌,
}

-- `OLSR_C`, 0.0625 seconds.
abbrev pub olsr_c : ℕ
olsr_c = 16

-- `for (b = 1; (seconds / OLSR_C) >= (1 << b); ++b)`, with fuel; the result is the final `b`.
pub exponent_loop : ℕ → ℕ → ℕ → Option ℕ
exponent_loop t zero b = none
exponent_loop t (suc fuel) b =
    let more = exponent_loop t fuel (b + 1) in if leb (olsr_c * 2 ^ b) t then more else some b

-- `std::ceil (16 * (seconds / (OLSR_C * (1 << b)) - 1) - 0.5)`. The quotient less 16.5 has the
-- denominator 2 ^ (b + 1), and is more than -1.
pub mantissa : ℕ → ℕ → ℕ
mantissa t b = (2 * t - 31 * 2 ^ b - 1) / (2 * 2 ^ b)

-- The last steps: `a` is 16 where the rounding reaches the next power of two; `none` stands for a
-- failed assertion.
pub pack_emf : ℕ → ℕ → Option ℕ
pack_emf a b =
    let a' = if a == 16 then 0 else a in
    let b' = if a == 16 then b + 1 else b in
    if ltb a' 16 then if ltb b' 16 then some ((a' * 16 + b') % 256) else none else none

unfoldable pub seconds_to_emf : ℕ → Option ℕ
unfolding exponent_loop mantissa pack_emf
seconds_to_emf t =
    if leb olsr_c t
    then elim (exponent_loop t (suc t) 1) [
      | none ↦ none
      | some b ↦ pack_emf (mantissa t (b - 1)) (b - 1)
    ]
    else none

unfoldable pub emf_to_seconds : ℕ → ℕ
emf_to_seconds v = (16 + v / 16) * 2 ^ (v % 16)
