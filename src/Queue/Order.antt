-- ===== src/Queue/Order.antt =====
-- The queue of messages of RoutingProtocol/ocean-protocol.cc over time: messages are queued, and
-- the timer expires while it is running.
use maritime_mesh_network.Base.{
  ℕ, ◌≡◌, refl, sym, ap, ◌∙◌, true, none, List, [], ◌∷◌, ◌++◌, arith, All, is_some, subst,
}
use mathlib.Core.List.{append_assoc, append-nil}
use maritime_mesh_network.Repositories.Clock.{Time}
use maritime_mesh_network.Wire.{Buffer, IsBuffer}
use maritime_mesh_network.Wire.Message.{Heights, OceanMessageHeader}
use maritime_mesh_network.Queue.{
  Sender, Sent, Sockets, set_ipv4, queue_message, expire, olsr_max_seq_num,
}
use maritime_mesh_network.Queue.Batches.{contained, Numbered, last_number, IsSent}
use maritime_mesh_network.Queue.Delivery.{send_queued_messages_lem}

contained-concat :
    {H : Type 0} (ps qs : List (Sent H)) → contained (ps ++ qs) ≡ contained ps ++ contained qs
contained-concat [] qs = refl
contained-concat (p ∷ ps) qs =
    rw (contained-concat ps qs)
      (sym (append_assoc p.contained_messages (contained ps) (contained qs)))

Numbered-concat :
    {H : Type 0} (n : ℕ) (ps qs : List (Sent H))
    → Numbered n ps
    → Numbered (last_number n ps) qs
    → Numbered n (ps ++ qs)
Numbered-concat n [] qs h k = k
Numbered-concat n (p ∷ ps) qs (h, hs) k =
    (h, Numbered-concat p.header.packet_sequence_number ps qs hs k)

last_number-concat :
    {H : Type 0} (n : ℕ) (ps qs : List (Sent H))
    → last_number n (ps ++ qs) ≡ last_number (last_number n ps) qs
last_number-concat n [] qs = refl
last_number-concat n (p ∷ ps) qs = last_number-concat p.header.packet_sequence_number ps qs

All-concat {κ} :
    {A : Type 0} (P : A → Type κ) (xs ys : List A) → All P xs → All P ys → All P (xs ++ ys)
All-concat P [] ys h k = k
All-concat P (x ∷ xs) ys (h, hs) k = (h, All-concat P xs ys hs k)

-- What is left in the queue has a running timer.
pub data Pending (H : Type 0) (s : Sender H) : Type 0 where
  nothing_left : s.queued_messages ≡ [] → Pending H s
  running : is_some s.queued_messages_timer ≡ true → Pending H s

module _ (b : Buffer) {H : Type 0} (heights : Heights H) (sockets : Sockets) where
  -- The messages queued so far, the packets sent so far, and the state that this leads to.
  pub data Run : List (OceanMessageHeader H) → List (Sent H) → Sender H → Type 0 where
    started : Run [] [] (set_ipv4 H)
    queued :
        (ms : List (OceanMessageHeader H)) (ps : List (Sent H)) (s : Sender H)
        (message : OceanMessageHeader H) (delay : Time)
        → Run ms ps s
        → Run (ms ++ message ∷ []) ps (queue_message message delay s)
    expired :
        (ms : List (OceanMessageHeader H)) (ps : List (Sent H)) (s : Sender H)
        → Run ms ps s
        → is_some s.queued_messages_timer ≡ true
        → Run ms (ps ++ (expire b heights sockets s).1) (expire b heights sockets s).0

  -- What the queue promises, after the messages `ms` were queued and the packets `ps` sent.
  pub record InOrder (ms : List (OceanMessageHeader H)) (ps : List (Sent H)) (s : Sender H)
      : Type 0 where
    pub messages : contained ps ++ s.queued_messages ≡ ms
    pub pending : Pending H s
    pub sent : All (IsSent b heights sockets) ps
    pub numbered : Numbered olsr_max_seq_num ps
    pub number : s.packet_sequence_number ≡ last_number olsr_max_seq_num ps

  expire-InOrder :
      IsBuffer b
      → (ms : List (OceanMessageHeader H)) (ps : List (Sent H)) (s : Sender H) → InOrder ms ps s
      → InOrder ms (ps ++ (expire b heights sockets s).1) (expire b heights sockets s).0
  unfolding expire
  expire-InOrder laws ms ps s h =
      let stopped : Sender H = record s { queued_messages_timer = none } in
      let l = send_queued_messages_lem laws heights sockets stopped in
      let new = (expire b heights sockets s).1 in
      let all : contained (ps ++ new) ≡ ms =
        contained-concat ps new ∙ ap (λ q. contained ps ++ q) l.1 ∙ h.messages in
      record {
        messages =
            ap (λ q. contained (ps ++ new) ++ q) l.0 ∙ append-nil (contained (ps ++ new)) ∙ all;
        pending = Pending.nothing_left l.0;
        sent = All-concat (IsSent b heights sockets) ps new h.sent l.2;
        numbered =
            Numbered-concat olsr_max_seq_num ps new h.numbered
              (subst (λ n. Numbered n new) h.number l.3);
        number =
            l.4
            ∙ ap (λ n. last_number n new) h.number
            ∙ sym (last_number-concat olsr_max_seq_num ps new);
      }

  queue_message-InOrder :
      (ms : List (OceanMessageHeader H)) (ps : List (Sent H)) (s : Sender H)
      (message : OceanMessageHeader H) (delay : Time)
      → InOrder ms ps s
      → InOrder (ms ++ message ∷ []) ps (queue_message message delay s)
  unfolding queue_message
  queue_message-InOrder ms ps s message delay h = record {
    messages =
        sym (append_assoc (contained ps) s.queued_messages (message ∷ []))
        ∙ ap (λ q. q ++ message ∷ []) h.messages;
    pending = Pending.running (ground arith);
    sent = h.sent;
    numbered = h.numbered;
    number = h.number;
  }

  -- Whenever messages are queued and the timer expires, the messages of the packets sent, followed
  -- by those in the queue, are all the messages queued so far, each once and in their order; a
  -- queue that is not empty has a running timer; and the packets are well formed and numbered one
  -- after another from 0.
  pub Run-InOrder :
      IsBuffer b
      → (ms : List (OceanMessageHeader H)) (ps : List (Sent H)) (s : Sender H) → Run ms ps s
      → InOrder ms ps s
  unfolding set_ipv4
  Run-InOrder laws _ _ _ Run.started = record {
    messages = refl;
    pending = Pending.nothing_left refl;
    sent = tt;
    numbered = tt;
    number = refl;
  }
  Run-InOrder laws _ _ _ (Run.queued ms ps s message delay r) =
      queue_message-InOrder ms ps s message delay (Run-InOrder laws ms ps s r)
  Run-InOrder laws _ _ _ (Run.expired ms ps s r on) =
      expire-InOrder laws ms ps s (Run-InOrder laws ms ps s r)
