-- ===== src/Emf/Rounding.antt =====
-- What the time format of RoutingProtocol/olsr-header.cc keeps of a time.
use maritime_mesh_network.Base.{
  ℕ, zero, suc, ◌+◌, ◌-◌, ◌*◌, ◌/◌, ◌%◌, ◌^◌, ◌≡◌, ◌≤◌, ◌<◌, ◌==◌, leb, Bool, true, false, Option,
  none, some, arith, refl, Bool-cases, inl, inr, if◌then◌else◌,
}
use native.Mathlib.Decide.{dec_lt}
use native.Mathlib.Nat.{div-add-mod, mod-lt, zero-add}
use native.Mathlib.Numerals.{towards_suc}
use maritime_mesh_network.Emf.{
  olsr_c, exponent_loop, mantissa, pack_emf, seconds_to_emf, emf_to_seconds,
}

-- The byte `v` is the encoding of the time that it stands for.
abbrev is_encoded_by : Option ℕ → ℕ → Bool
is_encoded_by none v = false
is_encoded_by (some w) v = w == v

is_encoded_by_eq : (o : Option ℕ) (v : ℕ) → is_encoded_by o v ≡ true → o ≡ some v
is_encoded_by_eq none v h = cc
is_encoded_by_eq (some w) v h = ground arith

-- The bytes below `count` are.
round_trips : ℕ → Bool
round_trips zero = true
round_trips (suc v) =
    if is_encoded_by (seconds_to_emf (emf_to_seconds v)) v then round_trips v else false

round_trips_at :
    (count v : ℕ)
    → v < count
    → round_trips count ≡ true
    → is_encoded_by (seconds_to_emf (emf_to_seconds v)) v ≡ true
unfolding round_trips
round_trips_at zero v lt h = absurd (omega arith)
round_trips_at (suc count) v lt h =
    elim (Bool-cases (is_encoded_by (seconds_to_emf (emf_to_seconds count)) count)) [
      | inr bad ↦ absurd (let none_good : false ≡ true = rw bad at h in cc)
      | inl good ↦ elim (dec_lt v count) [
        | yes below ↦ round_trips_at count v below (rw good at h)
        | no last ↦ let e : v ≡ count = omega arith in rw e good
      ]
    ]

bytes_round_trip : round_trips 256 ≡ true
unfolding round_trips seconds_to_emf emf_to_seconds
bytes_round_trip = refl

-- Every byte is the encoding of the time that it stands for.
pub seconds_to_emf-emf_to_seconds : (v : ℕ) → v < 256 → seconds_to_emf (emf_to_seconds v) ≡ some v
seconds_to_emf-emf_to_seconds v h =
    is_encoded_by_eq (seconds_to_emf (emf_to_seconds v)) v (round_trips_at 256 v h bytes_round_trip)

pow_step : (c : ℕ) → 2 ^ (c + 1) ≡ 2 * 2 ^ c
pow_step c = simp towards_suc (omega arith)

lt-pow : (n : ℕ) → n < 2 ^ n
lt-pow zero = omega arith
lt-pow (suc n) = let step : 2 ^ suc n ≡ 2 * 2 ^ n = omega arith in omega (arith, step, lt-pow n)

-- The loop ends with the least exponent above the time.
exponent_loop_ends :
    (t fuel c : ℕ)
    → 16 * 2 ^ c ≤ t
    → t < 16 * 2 ^ (c + fuel)
    → (d : ℕ) × (exponent_loop t fuel (c + 1) ≡ some (d + 1)) × (16 * 2 ^ d ≤ t) × (t < 32 * 2 ^ d)
unfolding exponent_loop
exponent_loop_ends t zero c le lt =
    let e : c + 0 ≡ c = omega arith in absurd (let lt' : t < 16 * 2 ^ c = rw e at lt in omega arith)
exponent_loop_ends t (suc fuel) c le lt = elim (Bool-cases (leb (16 * 2 ^ (c + 1)) t)) [
  | inr stop ↦ (c, rw stop, le, ground (arith, pow_step c))
  | inl more ↦
      let e : c + suc fuel ≡ (c + 1) + fuel = omega arith in
      rw more (exponent_loop_ends t fuel (c + 1) (ground arith) (rw e at lt))
]

-- Half a unit of the mantissa, at the scale `p` of the exponent.
mantissa_bounds :
    (t p a : ℕ)
    → 16 * p ≤ t
    → t < 32 * p
    → 0 < p
    → a ≡ (2 * t - 31 * p - 1) / (2 * p)
    → (a ≤ 16) × (2 * ((16 + a) * p) ≤ 2 * t + p) × (2 * t ≤ 2 * ((16 + a) * p) + p)
mantissa_bounds t p a lo hi pos e =
    let x : ℕ = 2 * t - 31 * p - 1 in
    let whole : 2 * p * a + x % (2 * p) ≡ x = rw e (div-add-mod x (2 * p)) in
    let part : x % (2 * p) < 2 * p = mod-lt x (omega arith) in
    (grind arith, omega arith, omega arith)

mantissa_below : (t p a : ℕ) → 0 < p → t < 31 * p → a ≡ (2 * t - 31 * p - 1) / (2 * p) → a < 16
mantissa_below t p a pos lt e =
    let x : ℕ = 2 * t - 31 * p - 1 in
    let whole : 2 * p * a + x % (2 * p) ≡ x = rw e (div-add-mod x (2 * p)) in grind arith

pow-ge : (k : ℕ) → 2 ^ 16 ≤ 2 ^ (k + 16)
pow-ge zero = omega arith
pow-ge (suc k) =
    let e : suc k + 16 ≡ (k + 16) + 1 = omega arith in
    rw e (omega (arith, pow_step (k + 16), pow-ge k))

exponent_small : (d t : ℕ) → 16 * 2 ^ d ≤ t → t < 31 * 2 ^ 15 → d < 16
exponent_small d t le lt = elim (dec_lt d 16) [
  | yes p ↦ p
  | no p ↦
      let e : (d - 16) + 16 ≡ d = omega arith in
      let big : 2 ^ 16 ≤ 2 ^ d = rw e at (pow-ge (d - 16)) in absurd (omega arith)
]

-- What is packed from an exponent and a mantissa that rounds to 16 at most.
pack_emf_value :
    (a b : ℕ)
    → a ≤ 16
    → b < 16
    → (a ≡ 16 → b < 15)
    → (v : ℕ) × (pack_emf a b ≡ some v) × (v < 256) × (emf_to_seconds v ≡ (16 + a) * 2 ^ b)
unfolding pack_emf emf_to_seconds
pack_emf_value a b ha hb top = elim (Bool-cases (a == 16)) [
  | inl e ↦
      let e' : a ≡ 16 = ground arith in
      let lt : b < 15 = top e' in
      (
        b + 1,
        rw e' (ground arith),
        omega arith,
        rw e' (
            let q : (b + 1) / 16 ≡ 0 = omega arith in
            let r : (b + 1) % 16 ≡ b + 1 = omega arith in rw (q, r) (omega (arith, pow_step b))),
      )
  | inr e ↦
      let lt : a < 16 = ground arith in
      (
        a * 16 + b,
        ground arith,
        omega arith,
        (let q : (a * 16 + b) / 16 ≡ a = omega arith in
            let r : (a * 16 + b) % 16 ≡ b = omega arith in rw (q, r)),
      )
]

top_small : (t d : ℕ) → d < 16 → t < 31 * 2 ^ 15 → 0 < 2 ^ d → mantissa t d ≡ 16 → d < 15
unfolding mantissa
top_small t d small hi pos q = elim (dec_lt d 15) [
  | yes p ↦ p
  | no p ↦
      let e : d ≡ 15 = omega arith in
      let lt : t < 31 * 2 ^ d = rw e hi in
      let below : mantissa t d < 16 = mantissa_below t (2 ^ d) (mantissa t d) pos lt refl in
      absurd (omega arith)
]

seconds_to_emf_of :
    (t d v : ℕ)
    → 16 ≤ t
    → exponent_loop t (suc t) 1 ≡ some (d + 1)
    → pack_emf (mantissa t d) d ≡ some v
    → seconds_to_emf t ≡ some v
unfolding seconds_to_emf
seconds_to_emf_of t d v lo e p =
    let le : leb olsr_c t ≡ true = ground arith in
    let back : d + 1 - 1 ≡ d = omega arith in rw (le, e, back) p

-- From a 16th of a second up to 31 * 2 ^ 15 256ths (3968 seconds) a time is encoded, and what the
-- byte stands for is off by a 32nd of the time at most.
pub seconds_to_emf_bounds :
    (t : ℕ)
    → 16 ≤ t
    → t < 31 * 2 ^ 15
    → (v : ℕ) × (seconds_to_emf t ≡ some v)
      × (v < 256)
      × (32 * emf_to_seconds v ≤ 33 * t)
      × (31 * t ≤ 32 * emf_to_seconds v)
unfolding seconds_to_emf mantissa
seconds_to_emf_bounds t lo hi =
    let start : t < 16 * 2 ^ (0 + suc t) = rw zero-add (omega (arith, lt-pow (suc t))) in
    let (d, e, le, lt) = exponent_loop_ends t (suc t) 0 (omega arith) start in
    let small : d < 16 = exponent_small d t le hi in
    let pos : 0 < 2 ^ d = omega (arith, lt-pow d) in
    let (a16, up, down) = mantissa_bounds t (2 ^ d) (mantissa t d) le lt pos refl in
    let top : mantissa t d ≡ 16 → d < 15 = top_small t d small hi pos in
    let (v, p, lt256, same) = pack_emf_value (mantissa t d) d a16 small top in
    (v, seconds_to_emf_of t d v lo e p, lt256, omega arith, omega arith)
