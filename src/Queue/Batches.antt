-- ===== src/Queue/Batches.antt =====
-- How `SendQueuedMessages` of RoutingProtocol/ocean-protocol.cc puts the messages into packets: the
-- invariant of its loop.
use maritime_mesh_network.Base.{
  ℕ, ◌+◌, ◌%◌, ◌^◌, ◌≤◌, ◌<◌, ◌≡◌, ◌==◌, refl, sym, ap, ◌∙◌, inl, inr, List, [], ◌∷◌, ◌++◌, map,
  arith, length, length-append, All, Bool-cases,
}
use mathlib.Core.List.{append_assoc, append-nil}
use maritime_mesh_network.Wire.{Buffer}
use maritime_mesh_network.Wire.Message.{Heights, OceanMessageHeader, write_ocean}
use maritime_mesh_network.Wire.Packet.{write_packet_header, write_messages}
use maritime_mesh_network.Queue.{
  Sent, Sockets, Batch, next_sequence_number, sent_packet, send_packet, add_message, add_messages,
}

-- The messages of the packets, in the order of sending.
abbrev pub contained : {H : Type 0} → List (Sent H) → List (OceanMessageHeader H)
contained [] = []
contained (p ∷ ps) = p.contained_messages ++ contained ps

-- The packets are numbered one after another, from the number after the given one.
abbrev pub Numbered : {H : Type 0} → ℕ → List (Sent H) → Type 0
Numbered n [] = Unit {0}
Numbered n (p ∷ ps) =
    (p.header.packet_sequence_number ≡ next_sequence_number n)
    × Numbered p.header.packet_sequence_number ps

abbrev pub last_number : {H : Type 0} → ℕ → List (Sent H) → ℕ
last_number n [] = n
last_number n (p ∷ ps) = last_number p.header.packet_sequence_number ps

contained-append :
    {H : Type 0} (ps : List (Sent H)) (p : Sent H)
    → contained (ps ++ p ∷ []) ≡ contained ps ++ p.contained_messages
contained-append [] p = append-nil p.contained_messages
contained-append (q ∷ ps) p =
    rw (contained-append ps p)
      (sym (append_assoc q.contained_messages (contained ps) p.contained_messages))

last_number-append :
    {H : Type 0} (n : ℕ) (ps : List (Sent H)) (p : Sent H)
    → last_number n (ps ++ p ∷ []) ≡ p.header.packet_sequence_number
last_number-append n [] p = refl
last_number-append n (q ∷ ps) p = last_number-append q.header.packet_sequence_number ps p

Numbered-append :
    {H : Type 0} (n : ℕ) (ps : List (Sent H)) (p : Sent H)
    → Numbered n ps
    → p.header.packet_sequence_number ≡ next_sequence_number (last_number n ps)
    → Numbered n (ps ++ p ∷ [])
Numbered-append n [] p h e = (e, tt)
Numbered-append n (q ∷ ps) p (h, hs) e =
    (h, Numbered-append q.header.packet_sequence_number ps p hs e)

All-append {ℓ κ} :
    {A : Type ℓ} (P : A → Type κ) (xs : List A) (x : A) → All P xs → P x → All P (xs ++ x ∷ [])
All-append P [] x h p = (p, tt)
All-append P (y ∷ xs) x (h, hs) p = (h, All-append P xs x hs p)

module _ (b : Buffer) {H : Type 0} (heights : Heights H) (sockets : Sockets) where
  write_messages-append :
      (ms : List (OceanMessageHeader H)) (m : OceanMessageHeader H)
      → write_messages b heights (ms ++ m ∷ [])
        ≡ write_messages b heights ms ++ write_ocean b heights m
  unfolding write_messages
  write_messages-append [] m = append-nil (write_ocean b heights m)
  write_messages-append (n ∷ ms) m = rw (write_messages-append ms m) (
      sym (
        append_assoc (write_ocean b heights n) (write_messages b heights ms)
          (write_ocean b heights m)))

  -- A packet of 1 to 64 messages: the bytes are those of its header and of its messages, the header
  -- says its length, and a copy goes to the broadcast address of every socket.
  pub record IsSent (p : Sent H) : Type 0 where
    pub not_empty : 1 ≤ length p.contained_messages
    pub at_most : length p.contained_messages ≤ 64
    pub bytes :
        p.packet ≡ write_packet_header b p.header ++ write_messages b heights p.contained_messages
    pub packet_length :
        p.header.packet_length
        ≡ (4 + length (write_messages b heights p.contained_messages)) % 2 ^ 16
    pub number : p.header.packet_sequence_number < 2 ^ 16
    pub destinations :
        p.destinations ≡ map (λ s. sockets.subnet_directed_broadcast s.0 s.1) sockets.send_sockets

  -- The messages `done` are in the packets sent and in the current one.
  pub record IsBatch (first : ℕ) (done : List (OceanMessageHeader H)) (batch : Batch H)
      : Type 0 where
    pub messages : contained batch.sent ++ batch.msglist ≡ done
    pub packet : batch.packet ≡ write_messages b heights batch.msglist
    pub count : batch.num_messages ≡ length batch.msglist
    pub sent : All IsSent batch.sent
    pub numbered : Numbered first batch.sent
    pub number : batch.packet_sequence_number ≡ last_number first batch.sent

  abbrev pub emptied : Batch H → Batch H
  emptied batch = record batch { packet = []; msglist = []; num_messages = 0 }

  sent_packet-IsSent :
      (first : ℕ) (done : List (OceanMessageHeader H)) (batch : Batch H)
      → IsBatch first done batch
      → 1 ≤ batch.num_messages
      → batch.num_messages ≤ 64
      → IsSent (sent_packet b heights sockets batch)
  unfolding sent_packet next_sequence_number
  sent_packet-IsSent first done batch h lo hi = record {
    not_empty = omega arith;
    at_most = omega arith;
    bytes = rw h.packet;
    packet_length = rw h.packet;
    number = omega arith;
    destinations = refl;
  }

  sent_number :
      (first : ℕ) (done : List (OceanMessageHeader H)) (batch : Batch H)
      → IsBatch first done batch
      → (sent_packet b heights sockets batch).header.packet_sequence_number
        ≡ next_sequence_number (last_number first batch.sent)
  unfolding sent_packet
  sent_number first done batch h = ap next_sequence_number h.number

  pub send_packet-IsBatch :
      (first : ℕ) (done : List (OceanMessageHeader H)) (batch : Batch H)
      → IsBatch first done batch
      → 1 ≤ batch.num_messages
      → batch.num_messages ≤ 64
      → IsBatch first done (emptied (send_packet b heights sockets batch))
  unfolding send_packet sent_packet write_messages
  send_packet-IsBatch first done batch h lo hi =
      let p = sent_packet b heights sockets batch in
      record {
        messages =
            append-nil (contained (batch.sent ++ p ∷ []))
            ∙ contained-append batch.sent p
            ∙ h.messages;
        packet = refl;
        count = refl;
        sent = All-append IsSent batch.sent p h.sent (sent_packet-IsSent first done batch h lo hi);
        numbered = Numbered-append first batch.sent p h.numbered (sent_number first done batch h);
        number = sym (last_number-append first batch.sent p);
      }

  added-IsBatch :
      (first : ℕ) (done : List (OceanMessageHeader H)) (batch : Batch H) (m : OceanMessageHeader H)
      → IsBatch first done batch
      → IsBatch first (done ++ m ∷ []) (record batch {
        packet = batch.packet ++ write_ocean b heights m;
        msglist = batch.msglist ++ m ∷ [];
        num_messages = batch.num_messages + 1;
      })
  added-IsBatch first done batch m h = record {
    messages =
        sym (append_assoc (contained batch.sent) batch.msglist (m ∷ []))
        ∙ ap (λ l. l ++ m ∷ []) h.messages;
    packet =
        ap (λ l. l ++ write_ocean b heights m) h.packet
        ∙ sym (write_messages-append batch.msglist m);
    count = omega (arith, length-append batch.msglist (m ∷ []), h.count);
    sent = h.sent;
    numbered = h.numbered;
    number = h.number;
  }

  add_message-IsBatch :
      (first : ℕ) (done : List (OceanMessageHeader H)) (batch : Batch H) (m : OceanMessageHeader H)
      → IsBatch first done batch × (batch.num_messages < 64)
      → IsBatch first (done ++ m ∷ []) (add_message b heights sockets batch m)
        × ((add_message b heights sockets batch m).num_messages < 64)
  unfolding add_message
  add_message-IsBatch first done batch m (h, room) =
      let added = record batch {
        packet = batch.packet ++ write_ocean b heights m;
        msglist = batch.msglist ++ m ∷ [];
        num_messages = batch.num_messages + 1;
      } in
      let kept : IsBatch first (done ++ m ∷ []) added = added-IsBatch first done batch m h in
      elim (Bool-cases (batch.num_messages + 1 == 64)) [
        | inl e ↦ rw e (
          send_packet-IsBatch first (done ++ m ∷ []) added kept (omega arith) (omega arith),
          omega arith,
        )
        | inr e ↦ rw e (kept, ground arith)
      ]

  pub add_messages-IsBatch :
      (first : ℕ) (done : List (OceanMessageHeader H)) (batch : Batch H)
      (ms : List (OceanMessageHeader H))
      → IsBatch first done batch × (batch.num_messages < 64)
      → IsBatch first (done ++ ms) (add_messages b heights sockets batch ms)
        × ((add_messages b heights sockets batch ms).num_messages < 64)
  unfolding add_messages
  add_messages-IsBatch first done batch [] h = rw (append-nil done) h
  add_messages-IsBatch first done batch (m ∷ ms) h =
      let e : (done ++ m ∷ []) ++ ms ≡ done ++ m ∷ ms = append_assoc done (m ∷ []) ms in
      rw (← e) (
        add_messages-IsBatch first (done ++ m ∷ []) (add_message b heights sockets batch m) ms
          (add_message-IsBatch first done batch m h))
