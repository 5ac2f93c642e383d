-- ===== src/Generate/Periodic.antt =====
-- The timers that send the four kinds of messages: `HelloTimerExpire`, `TcTimerExpire`,
-- `MidTimerExpire` and `HnaTimerExpire` of RoutingProtocol/ocean-protocol.cc. A result is the
-- object and the time at which the timer will expire again.
use maritime_mesh_network.Base.{
  ℕ, ◌*◌, ◌≡◌, ◌≢◌, ◌⊎◌, inl, inr, refl, ap, Option, none, some, List, [], ◌∷◌, map,
}
use maritime_mesh_network.Base.Int.{pos, ◌+ℤ◌}
use maritime_mesh_network.Repositories.{LinkTuple, MprSelectorTuple, Association}
use maritime_mesh_network.Repositories.Clock.{Time}
use maritime_mesh_network.Routing.{Ipv4}
use maritime_mesh_network.Wire.Message.{Body, tc, hna}
use maritime_mesh_network.Generate.{
  Node, HelloInputs, send_hello, send_tc, send_mid, send_hna, to_hna,
}
use maritime_mesh_network.Generate.Queued.{IsHold, IsQueued, send_tc-IsQueued, send_hna_lem}

-- A 256th of a second has 3906250 nanoseconds.
abbrev pub interval_after : Time → ℕ → Time
interval_after now interval = now +ℤ pos (interval * 3_906_250)

-- The timer is scheduled after the message was sent.
abbrev pub again_at : {N : Type 0} → Time → Option N → Option (N × Time)
again_at next none = none
again_at next (some node) = some (node, next)

module _ {H : Type 0} where
  unfoldable pub hello_timer_expire :
      HelloInputs → List LinkTuple → H → Time → Node H → Option (Node H × Time)
  hello_timer_expire x links height jitter node =
      again_at (interval_after x.now node.hello_interval) (send_hello x links height jitter node)

  unfoldable pub tc_timer_expire :
      List MprSelectorTuple → H → Time → Time → Node H → Option (Node H × Time)
  tc_timer_expire [] height jitter now node = some (node, interval_after now node.tc_interval)
  tc_timer_expire (t ∷ selectors) height jitter now node =
      again_at (interval_after now node.tc_interval) (send_tc (t ∷ selectors) height jitter node)

  unfoldable pub mid_timer_expire :
      Ipv4 → List ℕ → H → Time → Time → Node H → Option (Node H × Time)
  mid_timer_expire ipv4 exclusions height jitter now node =
      again_at (interval_after now node.mid_interval) (send_mid ipv4 exclusions height jitter node)

  unfoldable pub hna_timer_expire :
      List Association → H → Time → Time → Node H → Option (Node H × Time)
  hna_timer_expire [] height jitter now node = some (node, interval_after now node.hna_interval)
  hna_timer_expire (a ∷ associations) height jitter now node =
      again_at (interval_after now node.hna_interval)
        (send_hna (a ∷ associations) height jitter node)

  -- The timer goes on at `next`; one message with this body was queued if there are items to
  -- announce, and nothing has changed if there are none.
  abbrev pub IsAnnounced :
      {T : Type 0} → List T → Body → ℕ → H → Time → Node H → Option (Node H × Time) → Type 0
  IsAnnounced items content hold height next node result =
      (node' : Node H) × (result ≡ some (node', next))
      × ((items ≡ []) × (node' ≡ node) ⊎ (items ≢ []) × IsQueued hold 255 height content node node')

  tc-IsAnnounced :
      (selectors : List MprSelectorTuple) (height : H) (jitter now : Time) (node : Node H)
      → IsHold (3 * node.tc_interval)
      → IsAnnounced selectors
          (tc (record {
            ansn = node.ansn;
            neighbor_addresses = map (λ (t : MprSelectorTuple). t.main_addr) selectors;
          }))
          (3 * node.tc_interval)
          height
          (interval_after now node.tc_interval)
          node
          (tc_timer_expire selectors height jitter now node)
  unfolding tc_timer_expire
  tc-IsAnnounced [] height jitter now node h = (node, refl, inl (refl, refl))
  tc-IsAnnounced (t ∷ selectors) height jitter now node h =
      let (node', s, q) = send_tc-IsQueued (t ∷ selectors) height jitter node h in
      (node', ap (again_at (interval_after now node.tc_interval)) s, inr (λ none_left. cc, q))

  hna-IsAnnounced :
      (associations : List Association) (height : H) (jitter now : Time) (node : Node H)
      → IsHold (3 * node.hna_interval)
      → IsAnnounced associations
          (hna (record { associations = map to_hna associations }))
          (3 * node.hna_interval)
          height
          (interval_after now node.hna_interval)
          node
          (hna_timer_expire associations height jitter now node)
  unfolding hna_timer_expire
  hna-IsAnnounced [] height jitter now node h = (node, refl, inl (refl, refl))
  hna-IsAnnounced (a ∷ rest) height jitter now node h =
      let (node', s, q) = send_hna_lem (a ∷ rest) height jitter node h in
      (
        node',
        ap (again_at (interval_after now node.hna_interval)) s,
        elim q [ inl (e, u) ↦ absurd cc | inr k ↦ inr k ],
      )

  -- With intervals whose triples are a 16th of a second up to 3968 seconds, the timers of TC and HNA
  -- messages go on after one interval. Each queues one message of all MPR selectors, or of all
  -- local associations, if there are any; if there are none, the object is left as it is, its
  -- sequence number included.
  pub announcements_lem :
      (selectors : List MprSelectorTuple) (associations : List Association) (height : H)
      (jitter now : Time) (node : Node H)
      → IsHold (3 * node.tc_interval)
      → IsHold (3 * node.hna_interval)
      → IsAnnounced selectors
          (tc (record {
            ansn = node.ansn;
            neighbor_addresses = map (λ (t : MprSelectorTuple). t.main_addr) selectors;
          }))
          (3 * node.tc_interval)
          height
          (interval_after now node.tc_interval)
          node
          (tc_timer_expire selectors height jitter now node)
        × IsAnnounced associations
            (hna (record { associations = map to_hna associations }))
            (3 * node.hna_interval)
            height
            (interval_after now node.hna_interval)
            node
            (hna_timer_expire associations height jitter now node)
  announcements_lem selectors associations height jitter now node t h = (
    tc-IsAnnounced selectors height jitter now node t,
    hna-IsAnnounced associations height jitter now node h,
  )
