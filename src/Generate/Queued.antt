-- ===== src/Generate/Queued.antt =====
-- What `SendHello`, `SendTc`, `SendMid` and `SendHna` of RoutingProtocol/ocean-protocol.cc put into
-- the queue of messages.
use maritime_mesh_network.Base.{
  ℕ, ◌*◌, ◌^◌, ◌≤◌, ◌<◌, ◌≡◌, ◌≢◌, ◌⊎◌, inl, inr, refl, true, some, List, [], ◌∷◌, ◌++◌, map,
  is_some, arith,
}
use maritime_mesh_network.Repositories.{MprSelectorTuple, LinkTuple, Association}
use maritime_mesh_network.Repositories.Clock.{Time}
use maritime_mesh_network.Emf.{emf_to_seconds}
use maritime_mesh_network.Emf.Rounding.{seconds_to_emf_bounds}
use maritime_mesh_network.Routing.{Ipv4}
use maritime_mesh_network.Wire.Message.{Body, hello, tc, mid, hna, OceanMessageHeader}
use maritime_mesh_network.Queue.{queue_message, next_sequence_number}
use maritime_mesh_network.Generate.{
  Node, HelloInputs, link_messages, send, send_hello, send_tc, send_hna, send_mid, to_hna,
  other_addresses,
}

-- One message was added to the queue, and its timer is running: the message is from the node, with
-- the number after the last one used, which is kept, with this time to live and this body, and with
-- a validity time that is off the given one by a 32nd of it at most. Nothing else has changed.
pub record IsQueued {H : Type 0} (hold ttl : ℕ) (h : H) (content : Body) (node node' : Node H)
    : Type 0 where
  pub message : OceanMessageHeader H
  pub queued : node'.sender.queued_messages ≡ node.sender.queued_messages ++ message ∷ []
  pub running : is_some node'.sender.queued_messages_timer ≡ true
  pub originator : message.header.originator_address ≡ node.main_address
  pub number : message.header.message_sequence_number ≡ node'.message_sequence_number
  pub next : node'.message_sequence_number ≡ next_sequence_number node.message_sequence_number
  pub time_to_live : message.header.time_to_live ≡ ttl
  pub hop_count : message.header.hop_count ≡ 0
  pub height : message.predict_height ≡ h
  pub body : message.header.body ≡ content
  pub v_time : message.header.v_time < 2 ^ 8
  pub not_longer : 32 * emf_to_seconds message.header.v_time ≤ 33 * hold
  pub not_shorter : 31 * hold ≤ 32 * emf_to_seconds message.header.v_time
  pub others : node' ≡ record node {
    message_sequence_number = node'.message_sequence_number;
    sender = node'.sender;
  }

-- A hold time that the format of times can say.
abbrev pub IsHold : ℕ → Type 0
IsHold t = (16 ≤ t) × (t < 31 * 2 ^ 15)

List-cases : {A : Type 0} (l : List A) → (l ≡ []) ⊎ ((a : A) × (rest : List A) × (l ≡ a ∷ rest))
List-cases [] = inl refl
List-cases (a ∷ rest) = inr (a, rest, refl)

module _ {H : Type 0} where
  send-IsQueued :
      (hold ttl : ℕ) (height : H) (body : Body) (jitter : Time) (node : Node H)
      → IsHold hold
      → (node' : Node H) × (send hold ttl height body jitter node ≡ some node')
        × IsQueued hold ttl height body node node'
  unfolding send queue_message
  send-IsQueued hold ttl height body jitter node (lo, hi) =
      let (v, e, small, up, down) = seconds_to_emf_bounds hold lo hi in
      let number = next_sequence_number node.message_sequence_number in
      let message : OceanMessageHeader H = record {
        header = record {
          v_time = v;
          originator_address = node.main_address;
          time_to_live = ttl;
          hop_count = 0;
          message_sequence_number = number;
          body = body;
        };
        predict_height = height;
      } in
      (
        record node {
          message_sequence_number = number;
          sender = queue_message message jitter node.sender;
        },
        rw (e, send),
        record {
          message = message;
          queued = refl;
          running = ground arith;
          originator = refl;
          number = refl;
          next = refl;
          time_to_live = refl;
          hop_count = refl;
          height = refl;
          body = refl;
          v_time = small;
          not_longer = up;
          not_shorter = down;
          others = refl;
        },
      )

  -- With a HELLO interval of a 16th of a second up to 1322 seconds `SendHello` queues one HELLO,
  -- which goes one hop, is valid for three intervals within a 32nd, and carries the willingness,
  -- the reports on the links, and the interval as a code within a 32nd.
  pub send_hello-IsQueued :
      (x : HelloInputs) (links : List LinkTuple) (height : H) (jitter : Time) (node : Node H)
      → 16 ≤ node.hello_interval
      → 3 * node.hello_interval < 31 * 2 ^ 15
      → (h_time : ℕ) × (32 * emf_to_seconds h_time ≤ 33 * node.hello_interval)
        × (31 * node.hello_interval ≤ 32 * emf_to_seconds h_time)
        × (node' : Node H) × (send_hello x links height jitter node ≡ some node')
        × IsQueued
            (3 * node.hello_interval)
            1
            height
            (hello (record {
              h_time = h_time;
              willingness = node.willingness;
              link_messages = link_messages x node.main_address links;
            }))
            node
            node'
  unfolding send_hello
  send_hello-IsQueued x links height jitter node lo hi =
      let (v, e, small, up, down) = seconds_to_emf_bounds node.hello_interval lo (omega arith) in
      let (node', s, q) =
        send-IsQueued (3 * node.hello_interval) 1 height
          (hello (record {
            h_time = v;
            willingness = node.willingness;
            link_messages = link_messages x node.main_address links;
          }))
          jitter node (omega arith, hi) in
      (v, up, down, node', rw (e, send_hello) s, q)

  -- With a TC interval whose triple is a 16th of a second up to 3968 seconds `SendTc` queues one TC
  -- with the advertised sequence number and the main addresses of all multipoint relay selectors.
  pub send_tc-IsQueued :
      (selectors : List MprSelectorTuple) (height : H) (jitter : Time) (node : Node H)
      → IsHold (3 * node.tc_interval)
      → (node' : Node H) × (send_tc selectors height jitter node ≡ some node')
        × IsQueued
            (3 * node.tc_interval)
            255
            height
            (tc (record {
              ansn = node.ansn;
              neighbor_addresses = map (λ (t : MprSelectorTuple). t.main_addr) selectors;
            }))
            node
            node'
  unfolding send_tc
  send_tc-IsQueued selectors height jitter node h =
      send-IsQueued (3 * node.tc_interval) 255 height _ jitter node h

  -- With an HNA interval whose triple is a 16th of a second up to 3968 seconds `SendHna` queues one
  -- HNA message of all local associations, if there are any. If there are none it queues nothing,
  -- but a sequence number is used up.
  pub send_hna_lem :
      (associations : List Association) (height : H) (jitter : Time) (node : Node H)
      → IsHold (3 * node.hna_interval)
      → (node' : Node H) × (send_hna associations height jitter node ≡ some node')
        × ((associations ≡ [])
              × (node' ≡ record node {
                message_sequence_number = next_sequence_number node.message_sequence_number;
              })
            ⊎ (associations ≢ [])
              × IsQueued
                  (3 * node.hna_interval)
                  255
                  height
                  (hna (record { associations = map to_hna associations }))
                  node
                  node')
  unfolding send_hna
  send_hna_lem [] height jitter node (lo, hi) =
      let (v, e, small, up, down) = seconds_to_emf_bounds (3 * node.hna_interval) lo hi in
      (_, rw (e, send_hna), inl (refl, refl))
  send_hna_lem (a ∷ rest) height jitter node (lo, hi) =
      let (v, e, small, up, down) = seconds_to_emf_bounds (3 * node.hna_interval) lo hi in
      let (node', s, q) =
        send-IsQueued (3 * node.hna_interval) 255 height
          (hna (record { associations = map to_hna (a ∷ rest) })) jitter node (lo, hi) in
      (node', rw (e, send_hna) s, inr (λ none_left. cc, q))

  -- `SendMid` queues one MID message of the addresses of the other interfaces that take part, and
  -- changes nothing if there are none.
  send_mid_lem :
      (ipv4 : Ipv4) (exclusions : List ℕ) (height : H) (jitter : Time) (node : Node H)
      → IsHold (3 * node.mid_interval)
      → let others = other_addresses ipv4 exclusions node.main_address ipv4.n_interfaces 0 in
        (node' : Node H) × (send_mid ipv4 exclusions height jitter node ≡ some node')
        × ((others ≡ []) × (node' ≡ node)
            ⊎ (others ≢ [])
              × IsQueued
                  (3 * node.mid_interval)
                  255
                  height
                  (mid (record { interface_addresses = others }))
                  node
                  node')
  unfolding send_mid
  send_mid_lem ipv4 exclusions height jitter node h =
      let others = other_addresses ipv4 exclusions node.main_address ipv4.n_interfaces 0 in
      elim (List-cases others) [
        | inl e ↦ (node, rw (e, send_mid), inl (e, refl))
        | inr (a, rest, e) ↦
            let (node', s, q) =
              send-IsQueued (3 * node.mid_interval) 255 height
                (mid (record { interface_addresses = others })) jitter node h in
            (node', rw (e, send_mid) (rw e at s), inr (λ none_left. cc, q))
      ]
