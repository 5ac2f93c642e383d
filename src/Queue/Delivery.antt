-- ===== src/Queue/Delivery.antt =====
-- What `SendQueuedMessages` of RoutingProtocol/ocean-protocol.cc sends, and what its receivers take
-- out of the packets.
use maritime_mesh_network.Base.{
  ℕ, ◌+◌, ◌^◌, ◌≤◌, ◌<◌, ◌≡◌, ◌==◌, refl, sym, ap, ◌∙◌, false, inl, inr, some, List, [], ◌∷◌, ◌++◌,
  map, arith, length, length-append, All, In, Bool-cases, subst, ==_iff,
}
use mathlib.Core.List.{append-nil}
use maritime_mesh_network.Wire.{Buffer, IsBuffer}
use maritime_mesh_network.Wire.Message.{
  Heights, IsHeights, OceanMessageHeader, write_ocean, write_header,
}
use maritime_mesh_network.Wire.Packet.{write_messages, receive_packet}
use maritime_mesh_network.Wire.Packet.RoundTrip.{
  Fits, arrived, messages_length, length-write_messages, receive-write_packet,
}
use maritime_mesh_network.Queue.{Sender, Sent, Sockets, Batch, add_messages, send_queued_messages}
use maritime_mesh_network.Queue.Batches.{
  contained, Numbered, last_number, IsSent, IsBatch, send_packet-IsBatch, add_messages-IsBatch,
}

All-In {κ} : {A : Type 0} (P : A → Type κ) (xs : List A) (x : A) → All P xs → In x xs → P x
All-In P [] x h i = elim i [ ]
All-In P (y ∷ xs) x (h, hs) (inl e) = subst P (sym e) h
All-In P (y ∷ xs) x (h, hs) (inr i) = All-In P xs x hs i

All-split {κ} :
    {A : Type 0} (P : A → Type κ) (xs ys : List A) → All P (xs ++ ys) → All P xs × All P ys
All-split P [] ys h = (tt, h)
All-split P (x ∷ xs) ys (h, hs) = let (left, right) = All-split P xs ys hs in ((h, left), right)

All-contained :
    {H : Type 0} (P : OceanMessageHeader H → Type 0) (ps : List (Sent H)) (p : Sent H)
    → All P (contained ps)
    → In p ps
    → All P p.contained_messages
All-contained P [] p h i = elim i [ ]
All-contained P (q ∷ ps) p h (inl e) =
    subst (λ r. All P r.contained_messages) (sym e)
      (All-split P q.contained_messages (contained ps) h).0
All-contained P (q ∷ ps) p h (inr i) =
    All-contained P ps p (All-split P q.contained_messages (contained ps) h).1 i

module _ {b : Buffer} (laws : IsBuffer b) {H : Type 0} (heights : Heights H)
    (sockets : Sockets) where
  -- No message is left in the current packet, or there are bytes to send.
  empty_packet :
      (ms : List (OceanMessageHeader H)) → length (write_messages b heights ms) ≡ 0 → ms ≡ []
  unfolding write_messages write_ocean
  empty_packet [] e = refl
  empty_packet (m ∷ ms) e =
      let word = b.write_u32 (heights.to_word m.predict_height) in
      let tail = write_header b 16 m.header in
      let e0 = length-append (word ++ tail) (write_messages b heights ms) in
      let e1 = length-append word tail in
      let l = laws.length-u32 (heights.to_word m.predict_height) in absurd (omega arith)

  filled_packet :
      (ms : List (OceanMessageHeader H))
      → (length (write_messages b heights ms) == 0) ≡ false
      → 1 ≤ length ms
  unfolding write_messages
  filled_packet [] e = cc
  filled_packet (m ∷ ms) e = omega arith

  abbrev start_batch : ℕ → Batch H
  start_batch first = record {
    packet = [];
    msglist = [];
    num_messages = 0;
    packet_sequence_number = first;
    sent = [];
  }

  start-IsBatch : (first : ℕ) → IsBatch b heights sockets first [] (start_batch first)
  unfolding write_messages
  start-IsBatch first = record {
    messages = refl;
    packet = refl;
    count = refl;
    sent = tt;
    numbered = tt;
    number = refl;
  }

  -- All queued messages are sent, in the order of the queue and each once, in packets of 1 to 64
  -- messages; a packet has the bytes of its messages after a header with its length modulo 2 ^ 16,
  -- and goes to the broadcast address of every socket; the packets are numbered one after another
  -- from the number after the last one used, which is kept; the queue is empty, and the timer as before.
  pub send_queued_messages_lem :
      (s : Sender H)
      → ((send_queued_messages b heights sockets s).0.queued_messages ≡ [])
        × (contained (send_queued_messages b heights sockets s).1 ≡ s.queued_messages)
        × All (IsSent b heights sockets) (send_queued_messages b heights sockets s).1
        × Numbered s.packet_sequence_number (send_queued_messages b heights sockets s).1
        × ((send_queued_messages b heights sockets s).0.packet_sequence_number
            ≡ last_number s.packet_sequence_number (send_queued_messages b heights sockets s).1)
        × ((send_queued_messages b heights sockets s).0.queued_messages_timer
            ≡ s.queued_messages_timer)
  unfolding send_queued_messages
  send_queued_messages_lem s =
      let first = s.packet_sequence_number in
      let start : Batch H = start_batch first in
      let batch = add_messages b heights sockets start s.queued_messages in
      let (inv, room) =
        add_messages-IsBatch b heights sockets first [] start s.queued_messages
          (start-IsBatch first, omega arith) in
      elim (Bool-cases (length batch.packet == 0)) [
        | inl e ↦
            let none_left : length (write_messages b heights batch.msglist) ≡ 0 =
              sym (ap length inv.packet) ∙ (==_iff _ _).0 e in
            let last : batch.msglist ≡ [] = empty_packet batch.msglist none_left in
            let all : contained batch.sent ≡ s.queued_messages =
              sym (append-nil _) ∙ ap (λ l. contained batch.sent ++ l) (sym last) ∙ inv.messages in
            rw e (refl, all, inv.sent, inv.numbered, inv.number, refl)
        | inr e ↦
            let e' : (length (write_messages b heights batch.msglist) == 0) ≡ false =
              subst (λ l. (length l == 0) ≡ false) inv.packet e in
            let some_left = filled_packet batch.msglist e' in
            let done =
              send_packet-IsBatch b heights sockets first s.queued_messages batch inv (omega arith)
                (omega arith) in
            let all = sym (append-nil _) ∙ done.messages in
            rw e (refl, all, done.sent, done.numbered, done.number, refl)
      ]

  -- A packet sent of a queue of messages that fit, with less than 2 ^ 16 bytes, is received as its
  -- header and its messages, with the predicted heights rounded to the words that are sent.
  pub receive-send_queued_messages :
      IsHeights heights
      → (s : Sender H) (p : Sent H) → All Fits s.queued_messages
      → In p (send_queued_messages b heights sockets s).1
      → 4 + messages_length p.contained_messages < 2 ^ 16
      → receive_packet b heights p.packet
        ≡ some (p.header, map (arrived heights) p.contained_messages)
  receive-send_queued_messages words s p fits i small =
      let l = send_queued_messages_lem s in
      let good : All Fits (contained (send_queued_messages b heights sockets s).1) =
        subst (λ ms. All Fits ms) (sym l.1) fits in
      let fit : All Fits p.contained_messages =
        All-contained Fits (send_queued_messages b heights sockets s).1 p good i in
      let q : IsSent b heights sockets p =
        All-In (IsSent b heights sockets) (send_queued_messages b heights sockets s).1 p l.2 i in
      let written = length-write_messages laws heights words p.contained_messages fit in
      let e : p.header.packet_length ≡ 4 + messages_length p.contained_messages =
        omega (arith, q.packet_length) in
      rw (q.bytes) (
        receive-write_packet laws heights words p.header p.contained_messages e (omega arith)
          q.number fit)
