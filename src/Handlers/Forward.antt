-- ===== src/Handlers/Forward.antt =====
-- `ForwardDefault` of RoutingProtocol/ocean-protocol.cc.
pub mod Relayed
pub mod Once
use maritime_mesh_network.Base.{
  ℕ, ◌+◌, ◌-◌, ◌%◌, ◌^◌, ltb, Bool, true, false, Option, none, some, List, [], ◌∷◌, ◌++◌, get_elem?,
  modify, is_some, if◌then◌else◌,
}
use maritime_mesh_network.Base.Int.{◌+ℤ◌}
use maritime_mesh_network.Repositories.{Ipv4Address, DuplicateTuple}
use maritime_mesh_network.Repositories.Clock.{Time, seconds}
use maritime_mesh_network.Wire.Message.{OceanMessageHeader}
use maritime_mesh_network.Queue.{queue_message}
use maritime_mesh_network.Protocol.{
  Protocol, OlsrState, Context, dup_tuple, main_address_of, add_duplicate_tuple,
}

-- `OLSR_DUP_HOLD_TIME`.
abbrev pub olsr_dup_hold_time : Time
olsr_dup_hold_time = seconds 30

-- The message as it is sent on; the fields have 8 bits.
unfoldable pub relayed_copy : {H : Type 0} → OceanMessageHeader H → OceanMessageHeader H
relayed_copy m = record m {
  header = record m.header {
    time_to_live = m.header.time_to_live - 1;
    hop_count = (m.header.hop_count + 1) % 2 ^ 8;
  };
}

-- `duplicated != NULL && duplicated->retransmitted`, with the pointer.
unfoldable pub is_retransmitted : List DuplicateTuple → Option ℕ → Bool
is_retransmitted dups none = false
is_retransmitted dups (some i) = elim (get_elem? dups i) [ none ↦ false | some t ↦ t.retransmitted ]

module _ {H S : Type 0} (st : OlsrState S) (x : Context H) where
  -- The variable `retransmitted`: the TTL is greater than 1, and the sender is an MPR selector.
  unfoldable pub is_to_forward : OceanMessageHeader H → Ipv4Address → Protocol H S → Bool
  unfolding main_address_of
  is_to_forward msg sender_address s =
      let selector =
        is_some (st.mpr_selector.find (main_address_of st s sender_address) s.mpr_selectors) in
      if ltb 1 msg.header.time_to_live then selector else false

  -- The duplicate tuple is updated, or one is added.
  unfoldable pub note_duplicate :
      OceanMessageHeader H → Option ℕ → Ipv4Address → Bool → Protocol H S → Protocol H S
  unfolding add_duplicate_tuple
  note_duplicate msg none local_iface retransmitted s =
      let added =
        add_duplicate_tuple st
          (record {
            address = msg.header.originator_address;
            sequence_number = msg.header.message_sequence_number;
            retransmitted = retransmitted;
            iface_list = local_iface ∷ [];
            expiration_time = x.now +ℤ olsr_dup_hold_time;
          })
          s in
      record added {
        events =
            (
              x.now +ℤ olsr_dup_hold_time,
              dup_tuple msg.header.originator_address msg.header.message_sequence_number,
            )
            ∷ added.events;
      }
  note_duplicate msg (some i) local_iface retransmitted s = record s {
    duplicates =
        modify i
          (λ (t : DuplicateTuple). record t {
            expiration_time = x.now +ℤ olsr_dup_hold_time;
            retransmitted = retransmitted;
            iface_list = t.iface_list ++ local_iface ∷ [];
          })
          s.duplicates;
  }

  unfoldable pub forward_default :
      OceanMessageHeader H → Option ℕ → Ipv4Address → Ipv4Address → Protocol H S → Protocol H S
  unfolding is_retransmitted is_to_forward relayed_copy queue_message note_duplicate
  forward_default msg duplicated local_iface sender_address s =
      elim (st.find_sym_link_tuple sender_address x.now s.links) [
        | none ↦ s
        | some link ↦
            if is_retransmitted s.duplicates duplicated
            then s
            else if is_to_forward msg sender_address s
            then note_duplicate msg duplicated local_iface true
                (record s { sender = queue_message (relayed_copy msg) x.jitter s.sender })
            else note_duplicate msg duplicated local_iface false s
      ]
