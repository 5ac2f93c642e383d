-- ===== src/Repositories/Clock.antt =====
-- ns-3's `Time` as a whole number of nanoseconds, and the macro `DELAY` of
-- RoutingProtocol/ocean-protocol.cc.
use maritime_mesh_network.Base.{ℕ, ◌*◌, if◌then◌else◌}
use maritime_mesh_network.Base.Int.{ℤ, pos, ◌+ℤ◌, ◌-ℤ◌, ltb_ℤ}

abbrev pub Time : Type 0
Time = ℤ

-- `Seconds (n)`.
abbrev pub seconds : ℕ → Time
seconds n = pos (n * 1_000_000_000)

-- `std::min` and `std::max` of two times.
abbrev pub min_time : Time → Time → Time
min_time a b = if ltb_ℤ b a then b else a

abbrev pub max_time : Time → Time → Time
max_time a b = if ltb_ℤ a b then b else a

-- `DELAY (time)` at the current time `now`: `Seconds (0.000001)` is 1000 ticks.
unfoldable pub delay : Time → Time → Time
delay now time = if ltb_ℤ time now then pos 1000 else time -ℤ now +ℤ pos 1000
