-- ===== src/Handlers/Sensing.antt =====
-- `LinkSensing` of RoutingProtocol/ocean-protocol.cc. `none` stands for the fatal error on a bad
-- link type.
pub mod Fatal
use maritime_mesh_network.Base.{
  ℕ, ◌/◌, ◌%◌, ◌==◌, Bool, true, false, not, ◌&&◌, ◌||◌, Option, none, some, List, [], ◌∷◌, elem,
  get_elem?, modify, if◌then◌else◌,
}
use maritime_mesh_network.Base.Int.{pos, ◌+ℤ◌, ◌-ℤ◌, leb_ℤ}
use maritime_mesh_network.Repositories.{Ipv4Address, LinkTuple}
use maritime_mesh_network.Repositories.Clock.{Time, seconds, min_time, max_time}
use maritime_mesh_network.Generate.{
  olsr_asym_link, olsr_sym_link, olsr_lost_link, olsr_not_neigh, olsr_sym_neigh, olsr_mpr_neigh,
}
use maritime_mesh_network.Wire.Body.{LinkMessage, Hello}
use maritime_mesh_network.Wire.Message.{OceanMessageHeader}
use maritime_mesh_network.Protocol.{Protocol, OlsrState, Context, link_tuple, schedule}
use maritime_mesh_network.Protocol.Links.{link_tuple_added, link_tuple_updated}
use maritime_mesh_network.Handlers.{get_message_v_time}

-- `linkCode & 0x03` and `(linkCode >> 2) & 0x03`.
abbrev pub link_type_in : LinkMessage → ℕ
link_type_in lm = lm.link_code % 4

abbrev pub neighbor_type_in : LinkMessage → ℕ
neighbor_type_in lm = lm.link_code / 4 % 4

-- The link code is one that must not be processed.
unfoldable pub is_invalid : LinkMessage → Bool
is_invalid lm =
    let lt = link_type_in lm in
    let nt = neighbor_type_in lm in
    (lt == olsr_sym_link && nt == olsr_not_neigh)
    || (not (nt == olsr_sym_neigh) && (not (nt == olsr_mpr_neigh) && not (nt == olsr_not_neigh)))

-- `GetMessageVTime (msg) == Seconds (0)`.
abbrev pub is_zero : Time → Bool
is_zero v = leb_ℤ v (pos 0) && leb_ℤ (pos 0) v

-- The tuple that `link_tuple` points to, and the variable `updated`.
pub record Sensed : Type 0 where
  pub tuple : LinkTuple
  pub updated : Bool

-- What the loop over the link messages reads: the times, and the address of the receiver.
pub record Sense : Type 0 where
  pub now : Time
  pub v_time : Time
  pub neighb_hold_time : Time
  pub receiver_iface : Ipv4Address

module _ (y : Sense) where
  -- The message names the receiver's interface: the cases of the link type.
  unfoldable pub sense_link : ℕ → LinkTuple → Option Sensed
  sense_link lt t =
      if lt == olsr_lost_link
      then some (record { tuple = record t { sym_time = y.now -ℤ seconds 1 }; updated = true })
      else if lt == olsr_sym_link || lt == olsr_asym_link
      then some (record {
        tuple = record t {
          sym_time = y.now +ℤ y.v_time;
          time = y.now +ℤ y.v_time +ℤ y.neighb_hold_time;
        };
        updated = true;
      })
      else none

  unfoldable pub sense_message : LinkMessage → Sensed → Option Sensed
  unfolding is_invalid sense_link
  sense_message lm c =
      if is_invalid lm
      then some c
      else if elem y.receiver_iface lm.neighbor_interface_addresses
      then sense_link (link_type_in lm) c.tuple
      else some c

  unfoldable pub sense_messages : List LinkMessage → Sensed → Option Sensed
  unfolding sense_message
  sense_messages [] c = some c
  sense_messages (lm ∷ lms) c = elim (sense_message lm c) [
    | none ↦ none
    | some d ↦ sense_messages lms d
  ]

module _ {H S : Type 0} (st : OlsrState S) (x : Context H) where
  -- `if (updated)` and `if (created)`, with the tuple as it is in the vector.
  unfoldable pub report_sensed : Bool → ℕ → Sensed → Protocol H S → Protocol H S
  unfolding link_tuple_added link_tuple_updated schedule
  report_sensed created willingness c s =
      let reported = if c.updated then link_tuple_updated st x c.tuple willingness s else s in
      if created
      then schedule x.now (min_time c.tuple.time c.tuple.sym_time)
          (link_tuple c.tuple.neighbor_iface_addr)
          (link_tuple_added st x c.tuple willingness reported)
      else reported

  -- From the assignment to `asymTime` to the end of the loop over the link messages.
  unfoldable pub sense_tuple : Time → Hello → Ipv4Address → Bool → LinkTuple → Option Sensed
  unfolding sense_messages
  sense_tuple v hello receiver_iface created t =
      sense_messages
        (record {
          now = x.now;
          v_time = v;
          neighb_hold_time = x.hello_interval +ℤ x.hello_interval +ℤ x.hello_interval;
          receiver_iface = receiver_iface;
        })
        hello.link_messages
        (record { tuple = record t { asym_time = x.now +ℤ v }; updated = not created })

  -- The assignment to `time` after the loop.
  unfoldable pub last_time : Sensed → Sensed
  last_time c = record c {
    tuple = record c.tuple { time = max_time c.tuple.time c.tuple.asym_time };
  }

  -- From the assignment to `asymTime` to the end, with the pointer to the tuple.
  unfoldable pub sense :
      Time → Hello → Ipv4Address → Bool → ℕ → Protocol H S → Option (Protocol H S)
  unfolding sense_tuple last_time report_sensed
  sense v hello receiver_iface created i s = elim (get_elem? s.links i) [
    | none ↦ none
    | some t ↦ elim (sense_tuple v hello receiver_iface created t) [
      | none ↦ none
      | some c ↦ some (
          report_sensed created hello.willingness (last_time c)
            (record s { links = modify i (λ t. (last_time c).tuple) s.links }))
    ]
  ]

  -- The tuple of a link that is not known.
  unfoldable pub new_link_tuple : Time → Ipv4Address → Ipv4Address → LinkTuple
  new_link_tuple v receiver_iface sender_iface = record {
    local_iface_addr = receiver_iface;
    neighbor_iface_addr = sender_iface;
    sym_time = x.now -ℤ seconds 1;
    asym_time = pos 0;
    time = x.now +ℤ v;
  }

  -- The reference that `InsertLinkTuple` returns is to the tuple that a search then finds.
  unfoldable pub link_sensing :
      OceanMessageHeader H
      → Hello
      → Ipv4Address
      → Ipv4Address
      → Protocol H S
      → Option (Protocol H S)
  unfolding get_message_v_time new_link_tuple sense
  link_sensing msg hello receiver_iface sender_iface s =
      let recorded = record s { predict_height = x.predicted_height } in
      let v = get_message_v_time x msg in
      if is_zero v then some recorded else elim (st.link.find sender_iface s.links) [
        | some i ↦ sense v hello receiver_iface false i recorded
        | none ↦
            let inserted = record recorded {
              links = st.link.insert (new_link_tuple v receiver_iface sender_iface) s.links;
            } in
            elim (st.link.find sender_iface inserted.links) [
              | none ↦ none
              | some i ↦ sense v hello receiver_iface true i inserted
            ]
      ]
