-- ===== src/Handlers/Validity.antt =====
-- How far from 4.8 m the two heights may lie for a HELLO message to count.
use maritime_mesh_network.Base.{
  ℕ, ◌+◌, ◌-◌, ◌*◌, ◌≤◌, ◌≡◌, refl, true, false, inl, inr, ◌⊎◌, some, arith,
}
use maritime_mesh_network.Base.Int.{ℤ, pos, pos_part, neg_part, ◌-ℤ◌}
use maritime_mesh_network.Wire.Body.{Hello}
use maritime_mesh_network.Wire.Message.{hello, OceanMessageHeader}
use maritime_mesh_network.Repositories.{Ipv4Address}
use maritime_mesh_network.Protocol.{Protocol, OlsrState, Context}
use maritime_mesh_network.Handlers.Sensing.{link_sensing}
use maritime_mesh_network.Handlers.{squared_drop, is_too_low, get_message_v_time}

square_mono : (a b : ℕ) → a ≤ b → a * a ≤ b * b
square_mono a b h = let k = b - a in let e : b ≡ a + k = omega arith in rw e (omega arith)

-- The distance of a height from 4.8 m, in micrometres.
abbrev pub drop : ℤ → ℕ
drop height = let d = pos 4_800_000 -ℤ height in pos_part d + neg_part d

-- Both heights are within 4.961 m.
near : (rx tx : ℤ) → drop rx ≤ 4_961_000 → drop tx ≤ 4_961_000 → is_too_low rx tx ≡ false
unfolding is_too_low squared_drop
near rx tx a b =
    let p : drop rx * drop rx ≤ 24_611_521_000_000 = square_mono (drop rx) 4_961_000 a in
    let q : drop tx * drop tx ≤ 24_611_521_000_000 = square_mono (drop tx) 4_961_000 b in
    ground (arith, p, q)

-- One of them is 7.018 m away or more.
far : (rx tx : ℤ) → (7_018_000 ≤ drop rx) ⊎ (7_018_000 ≤ drop tx) → is_too_low rx tx ≡ true
unfolding is_too_low squared_drop
far rx tx (inl a) =
    let p : 49_252_324_000_000 ≤ drop rx * drop rx = square_mono 7_018_000 (drop rx) a in
    ground (arith, p)
far rx tx (inr b) =
    let p : 49_252_324_000_000 ≤ drop tx * drop tx = square_mono 7_018_000 (drop tx) b in
    ground (arith, p)

module _ {H S : Type 0} (st : OlsrState S) (x : Context H) where
  -- If the height that the receiver predicts for itself, or the one that a HELLO message carries, is
  -- 7.018 m or more away from 4.8 m, then `LinkSensing` only records the predicted height.
  pub link_sensing-too_low :
      (msg : OceanMessageHeader H) (m : Hello) (receiver sender : Ipv4Address) (s : Protocol H S)
      → msg.header.body ≡ hello m
      → (7_018_000 ≤ drop (x.micrometres x.predicted_height))
        ⊎ (7_018_000 ≤ drop (x.micrometres msg.predict_height))
      → link_sensing st x msg m receiver sender s
        ≡ some (record s { predict_height = x.predicted_height })
  unfolding link_sensing get_message_v_time
  link_sensing-too_low msg m receiver sender s e away =
      let low = far (x.micrometres x.predicted_height) (x.micrometres msg.predict_height) away in
      let zero_time : get_message_v_time x msg ≡ pos 0 =
        rw (e, get_message_v_time) (rw (low, get_message_v_time) refl) in
      rw (zero_time, link_sensing) refl

  -- If both heights are within 4.961 m of 4.8 m, a HELLO message is valid for the hold time.
  pub get_message_v_time-near :
      (msg : OceanMessageHeader H) (m : Hello)
      → msg.header.body ≡ hello m
      → drop (x.micrometres x.predicted_height) ≤ 4_961_000
      → drop (x.micrometres msg.predict_height) ≤ 4_961_000
      → get_message_v_time x msg ≡ x.ocean_hold_time
  unfolding get_message_v_time
  get_message_v_time-near msg m e a b =
      let high = near (x.micrometres x.predicted_height) (x.micrometres msg.predict_height) a b in
      rw (e, get_message_v_time) (rw (high, get_message_v_time) refl)
