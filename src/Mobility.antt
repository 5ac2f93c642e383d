-- ===== src/Mobility.antt =====
-- src/MobilityModel/ocean-mobility-model.cc: the heights of a node, read from a file and
-- interpolated. The arithmetic of doubles is a parameter: nothing is assumed of its rounding.
use maritime_mesh_network.Base.{
  ℕ, zero, suc, ◌+◌, ◌*◌, ◌%◌, ◌^◌, Option, none, some, List, [], ◌∷◌, get_elem?, ltb,
  if◌then◌else◌,
}
use maritime_mesh_network.Repositories.Clock.{Time}
pub mod Rows
pub mod Height

infixl 5 ◌>>=◌
abbrev ◌>>=◌ {ℓ κ} : {A : Type ℓ} {B : Type κ} → Option A → (A → Option B) → Option B
none >>= f = none
some a >>= f = f a

-- The operations on doubles that the code uses. `to_uint16` drops the fraction; it is `none` where
-- C++ leaves the conversion undefined, since the result does not fit.
pub record Doubles (D : Type 0) : Type 0 where
  pub add : D → D → D
  pub sub : D → D → D
  pub mul : D → D → D
  pub div : D → D → D
  pub from_int : ℕ → D
  pub to_uint16 : D → Option ℕ
  pub get_seconds : Time → D

pub record Mobility (D : Type 0) : Type 0 where
  pub timestep : D
  pub path : List D
  -- `m_position.z`.
  pub height : D

-- The values that `InitPath` reads into `temp`.
unfoldable pub skip_values : {D : Type 0} → ℕ → List D → List D
skip_values zero file = file
skip_values (suc n) [] = []
skip_values (suc n) (value ∷ file) = skip_values n file

module _ {D : Type 0} (d : Doubles D) where
  -- The loop that reads `m_path`, of fewer than 2^32 rounds. What a stream at its end does not give
  -- keeps the zero of `resize`.
  unfoldable pub read_values : ℕ → List D → List D
  read_values zero file = []
  read_values (suc n) [] = d.from_int 0 ∷ read_values n []
  read_values (suc n) (value ∷ file) = value ∷ read_values n file

  -- `InitPath` of the node with id `index`, where `m_path` is empty. `none` is the fatal error of a
  -- missing file, or a loop without end: the counter `uint32_t i` never gets to 2^32 steps.
  unfoldable pub init_path : Option (List D) → ℕ → ℕ → Option (List D)
  init_path none index steps = none
  init_path (some file) index steps =
      if ltb steps (2 ^ 32)
      then some (read_values steps (skip_values (index * steps % 2 ^ 32) (skip_values 5 file)))
      else none

  -- The expression that `GetHeight` and `GetPredictedHeight` share, with `T` as `sample`.
  unfoldable pub between : D → D → ℕ → D → D → D
  between before after sample timestep time =
      d.div
        (d.add (d.mul before (d.sub (d.mul (d.from_int (sample + 1)) timestep) time))
          (d.mul after (d.sub time (d.mul (d.from_int sample) timestep))))
        timestep

  -- The reads of `m_path`; `none` is a read past its end.
  unfoldable pub interpolate_at : List D → D → D → ℕ → Option D
  interpolate_at path timestep time sample = do
    before ← get_elem? path sample
    after ← get_elem? path (sample + 1)
    some (between before after sample timestep time)

  unfoldable pub interpolate : List D → D → D → Option D
  interpolate path timestep time = do
    sample ← d.to_uint16 (d.div time timestep)
    interpolate_at path timestep time sample

  -- `GetHeight` at the time `now`: the result and the node with its new position.
  unfoldable pub get_height : Mobility D → Time → Option (D × Mobility D)
  get_height m now = do
    result ← interpolate m.path m.timestep (d.get_seconds now)
    some (result, record m { height = result })

  unfoldable pub get_predicted_height : Mobility D → Time → Time → Option D
  get_predicted_height m now t =
      interpolate m.path m.timestep (d.add (d.get_seconds now) (d.get_seconds t))

  -- `DoInitialize` at the time `now`.
  unfoldable pub do_initialize : Option (List D) → ℕ → ℕ → Mobility D → Time → Option (Mobility D)
  do_initialize file index steps m now = do
    path ← init_path file index steps
    r ← get_height (record m { path = path }) now
    some r.1
