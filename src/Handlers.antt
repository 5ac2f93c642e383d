-- ===== src/Handlers.antt =====
-- The message handlers of RoutingProtocol/ocean-protocol.cc. Here is the validity time of a
-- message, `GetMessageVTime`, which all of them use.
pub mod Validity
pub mod Tc
pub mod Hna
pub mod Mid
pub mod Sensing
pub mod Hello
pub mod Forward
pub mod Receive
pub mod Tracked
use maritime_mesh_network.Base.{ℕ, ◌+◌, ◌*◌, ltb, Bool, if◌then◌else◌}
use maritime_mesh_network.Base.Int.{ℤ, pos, pos_part, neg_part, ◌-ℤ◌}
use maritime_mesh_network.Repositories.Clock.{Time}
use maritime_mesh_network.Emf.{emf_to_seconds}
use maritime_mesh_network.Wire.Message.{hello, tc, mid, hna, OceanMessageHeader}
use maritime_mesh_network.Protocol.{Context}

-- `MessageHeader::GetVTime`: a 256th of a second is 3906250 ticks.
unfoldable pub get_v_time : ℕ → Time
unfolding emf_to_seconds
get_v_time v_time = pos (emf_to_seconds v_time * 3_906_250)

-- The square of the distance of a height from 4.8 m, in square micrometres.
unfoldable pub squared_drop : ℤ → ℕ
squared_drop height =
    let d = pos 4_800_000 -ℤ height in (pos_part d + neg_part d) * (pos_part d + neg_part d)

-- The threshold of 49.24 square metres.
unfoldable pub is_too_low : ℤ → ℤ → Bool
unfolding squared_drop
is_too_low rx tx = ltb 49_240_000_000_000 (squared_drop rx + squared_drop tx)

unfoldable pub get_message_v_time : {H : Type 0} → Context H → OceanMessageHeader H → Time
unfolding get_v_time is_too_low
get_message_v_time x msg = elim msg.header.body [
  | mid m ↦ get_v_time msg.header.v_time
  | hna m ↦ get_v_time msg.header.v_time
  | tc m ↦ x.ocean_hold_time
  | hello m ↦
      if is_too_low (x.micrometres x.predicted_height) (x.micrometres msg.predict_height)
      then pos 0
      else x.ocean_hold_time
]
