-- ===== src/Tests/Heights.antt =====
-- The theorems on the mobility model at a concrete file of heights, with whole numbers for doubles.
use maritime_mesh_network.Base.{
  ◌+◌, ◌*◌, ◌/◌, ◌^◌, ◌<◌, ◌≤◌, ◌≡◌, ◌⊎◌, refl, ltb, if◌then◌else◌, get_elem?, none, some, List, [],
  ◌∷◌, ◌++◌, arith,
}
use maritime_mesh_network.Base.Int.{ℤ, pos, negsuc, pos_part, neg_part, sub_ℕ, ◌+ℤ◌, ◌-ℤ◌}
use maritime_mesh_network.Mobility.{
  Doubles, Mobility, init_path, skip_values, read_values, between, interpolate_at, interpolate,
  get_height, get_predicted_height, do_initialize,
}
use maritime_mesh_network.Mobility.Rows.{concat_rows}
use maritime_mesh_network.Mobility.Height.{get_predicted_height_lem}

abbrev times_ℤ : ℤ → ℤ → ℤ
times_ℤ a b =
    sub_ℕ (pos_part a * pos_part b + neg_part a * neg_part b)
      (pos_part a * neg_part b + neg_part a * pos_part b)

-- Whole numbers, with a division that drops the fraction; a time of n counts as n seconds.
abbrev whole : Doubles ℤ
whole = record {
  add = λ a b. a +ℤ b;
  sub = λ a b. a -ℤ b;
  mul = times_ℤ;
  div = λ a b. sub_ℕ (pos_part a / pos_part b) (neg_part a / pos_part b);
  from_int = pos;
  to_uint16 = λ a. if ltb (pos_part a) (2 ^ 16) then some (pos_part a) else none;
  get_seconds = λ t. t;
}

abbrev file_header : List ℤ
file_header = pos 1025 ∷ pos 2000 ∷ pos 15 ∷ pos 10 ∷ pos 3 ∷ []

abbrev calm : List ℤ
calm = pos 0 ∷ pos 1 ∷ pos 0 ∷ []

abbrev rough : List ℤ
rough = pos 40 ∷ negsuc 19 ∷ pos 20 ∷ []

abbrev rows : List (List ℤ)
rows = calm ∷ rough ∷ []

abbrev new_node : Mobility ℤ
new_node = record { timestep = pos 100; path = []; height = pos 0 }

abbrev buoy : Mobility ℤ
buoy = record { timestep = pos 100; path = rough; height = pos 40 }

started :
    do_initialize whole (some (file_header ++ concat_rows rows)) 1 3 new_node (pos 0) ≡ some buoy
unfolding do_initialize init_path skip_values read_values get_height interpolate interpolate_at
    between ◌+ℤ◌ ◌-ℤ◌
started = refl

get_predicted_height_lem_example :
    ((2 < 3)
      × (before : ℤ) × (after : ℤ) × (get_elem? rough 1 ≡ some before)
      × (get_elem? rough 2 ≡ some after)
      × (get_predicted_height whole buoy (pos 20) (pos 130)
          ≡ some (
              sub_ℕ
                (pos_part
                    (times_ℤ before (pos 200 -ℤ pos 150) +ℤ times_ℤ after (pos 150 -ℤ pos 100))
                  / 100)
                (neg_part
                    (times_ℤ before (pos 200 -ℤ pos 150) +ℤ times_ℤ after (pos 150 -ℤ pos 100))
                  / 100))))
    ⊎ (3 ≤ 2) × (get_predicted_height whole buoy (pos 20) (pos 130) ≡ none)
unfolding ◌+ℤ◌ ◌-ℤ◌
get_predicted_height_lem_example =
    get_predicted_height_lem whole file_header rows 3 1 rough new_node buoy (pos 0) (pos 20)
      (pos 130) 1 refl (refl, (refl, tt)) refl (omega arith) (omega arith) started refl

-- Three quarters of the way from -20 to 20, the node is at 10.
at_175 : get_predicted_height whole buoy (pos 45) (pos 130) ≡ some (pos 10)
unfolding get_predicted_height interpolate interpolate_at between ◌+ℤ◌ ◌-ℤ◌
at_175 = refl

-- At the last sample, `m_path[T + 1]` is outside the path.
at_200 : get_predicted_height whole buoy (pos 70) (pos 130) ≡ none
unfolding get_predicted_height interpolate interpolate_at ◌+ℤ◌ ◌-ℤ◌
at_200 = refl
