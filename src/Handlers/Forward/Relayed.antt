-- ===== src/Handlers/Forward/Relayed.antt =====
-- What `ForwardDefault` sends on: only messages from a symmetric neighbor that has chosen this node
-- as MPR, and each message at most once.
use maritime_mesh_network.Base.{
  ℕ, ◌+◌, ◌%◌, ◌^◌, ap, ◌<◌, ◌≡◌, refl, subst, ◌⊎◌, inl, inr, Bool, true, false, Option, none, some,
  List, [], ◌∷◌, ◌++◌, arith, elem, get_elem?, get-append_last, get-modify, length, modify,
  Bool-cases, Option-cases,
}
use maritime_mesh_network.Base.Int.{◌+ℤ◌, ◌≤ℤ◌}
use maritime_mesh_network.Repositories.{Ipv4Address, LinkTuple, MprSelectorTuple, DuplicateTuple}
use maritime_mesh_network.Repositories.Interface.{found}
use maritime_mesh_network.Wire.Message.{OceanMessageHeader}
use maritime_mesh_network.Queue.{Sender, queue_message}
use maritime_mesh_network.Protocol.{
  Protocol, OlsrState, Context, main_address_of, add_duplicate_tuple,
}
use maritime_mesh_network.Protocol.Laws.{IsOlsrState, duplicate_key, duplicate_event}
use maritime_mesh_network.Protocol.Timed.{found-at, IsTimed-insert, IsTimed-modify}
use maritime_mesh_network.Protocol.Tracked.{IsTracked}
use maritime_mesh_network.Handlers.Forward.{
  olsr_dup_hold_time, relayed_copy, is_retransmitted, is_to_forward, note_duplicate,
  forward_default,
}

abbrev pub message_key : {H : Type 0} → OceanMessageHeader H → Ipv4Address × ℕ
message_key msg = (msg.header.originator_address, msg.header.message_sequence_number)

elem-append_last : (a : ℕ) (xs : List ℕ) → elem a (xs ++ a ∷ []) ≡ true
elem-append_last a [] = ground arith
elem-append_last a (x ∷ xs) = ground (arith, elem-append_last a xs)

module _ {H S : Type 0} (st : OlsrState S) (laws : IsOlsrState st) where
  -- The message was sent on: the link to the sender is symmetric, the TTL was above 1, the sender is
  -- an MPR selector, and the copy has one hop less to go and one more behind it.
  pub record IsRelayed (x : Context H) (msg : OceanMessageHeader H) (sender_address : Ipv4Address)
      (s t : Protocol H S) : Type 0 where
    pub link : LinkTuple
    pub link_at : ℕ
    pub in_links : get_elem? s.links link_at ≡ some link
    pub from_sender : link.neighbor_iface_addr ≡ sender_address
    pub symmetric : x.now ≤ℤ link.sym_time
    pub ttl : 1 < msg.header.time_to_live
    pub selector : MprSelectorTuple
    pub selector_at : ℕ
    pub in_selectors : get_elem? s.mpr_selectors selector_at ≡ some selector
    pub selected : selector.main_addr ≡ main_address_of st s sender_address
    pub copy : OceanMessageHeader H
    pub queued : t.sender.queued_messages ≡ s.sender.queued_messages ++ copy ∷ []
    pub one_less : copy.header.time_to_live + 1 ≡ msg.header.time_to_live
    pub one_more : copy.header.hop_count ≡ (msg.header.hop_count + 1) % 2 ^ 8
    pub originator : copy.header.originator_address ≡ msg.header.originator_address
    pub number : copy.header.message_sequence_number ≡ msg.header.message_sequence_number
    pub same_body : copy.header.body ≡ msg.header.body

  pub note_duplicate-sender :
      (x : Context H) (msg : OceanMessageHeader H) (d : Option ℕ) (iface : Ipv4Address) (b : Bool)
      (s : Protocol H S)
      → (note_duplicate st x msg d iface b s).sender ≡ s.sender
  unfolding note_duplicate add_duplicate_tuple
  note_duplicate-sender x msg none iface b s = refl
  note_duplicate-sender x msg (some i) iface b s = refl

  to_forward_facts :
      (x : Context H) (msg : OceanMessageHeader H) (sender : Ipv4Address) (s : Protocol H S)
      → is_to_forward st x msg sender s ≡ true
      → (1 < msg.header.time_to_live)
        × (i : ℕ) × (st.mpr_selector.find (main_address_of st s sender) s.mpr_selectors ≡ some i)
  unfolding is_to_forward
  to_forward_facts x msg sender s f =
      elim (Option-cases (st.mpr_selector.find (main_address_of st s sender) s.mpr_selectors)) [
        | inl n ↦ absurd (ground arith)
        | inr (i, g) ↦ (ground arith, i, g)
      ]

  forward_default-sender :
      (x : Context H) (msg : OceanMessageHeader H) (d : Option ℕ) (iface sender : Ipv4Address)
      (s : Protocol H S) (l : ℕ)
      → st.find_sym_link_tuple sender x.now s.links ≡ some l
      → is_retransmitted s.duplicates d ≡ false
      → is_to_forward st x msg sender s ≡ true
      → (forward_default st x msg d iface sender s).sender
        ≡ queue_message (relayed_copy msg) x.jitter s.sender
  unfolding forward_default
  forward_default-sender x msg d iface sender s l e r f =
      rw (e, r, f, forward_default)
        (note_duplicate-sender x msg d iface true
          (record s { sender = queue_message (relayed_copy msg) x.jitter s.sender }))

  -- `ForwardDefault` leaves the queue of messages as it is, or it sends on the message: then it has
  -- the address of a symmetric link of this node and of an MPR selector of it as its sender, its TTL
  -- was above 1, and the queue has gained a copy at its end, with a TTL of one less and a hop count
  -- of one more (in 8 bits), and with the same originator, sequence number and body.
  pub forward_default_lem :
      (x : Context H) (msg : OceanMessageHeader H) (d : Option ℕ) (iface sender : Ipv4Address)
      (s : Protocol H S)
      → ((forward_default st x msg d iface sender s).sender ≡ s.sender)
        ⊎ IsRelayed x msg sender s (forward_default st x msg d iface sender s)
  unfolding forward_default relayed_copy queue_message
  forward_default_lem x msg d iface sender s =
      elim (Option-cases (st.find_sym_link_tuple sender x.now s.links)) [
        | inl n ↦ inl (rw (n, forward_default) refl)
        | inr (l, e) ↦ elim (Bool-cases (is_retransmitted s.duplicates d)) [
          | inl r ↦ inl (rw (e, r, forward_default) refl)
          | inr r ↦ elim (Bool-cases (is_to_forward st x msg sender s)) [
            | inr f ↦
                inl (rw (e, r, f, forward_default) (note_duplicate-sender x msg d iface false s))
            | inl f ↦
                let (ttl, i, g) = to_forward_facts x msg sender s f in
                let (link, in_links, from, symmetric) = laws.sym_link sender x.now s.links l e in
                let (selector, in_selectors, selected) =
                  laws.mpr_selector.find-some (main_address_of st s sender) s.mpr_selectors i g in
                inr (record {
                  link = link;
                  link_at = l;
                  in_links = in_links;
                  from_sender = from;
                  symmetric = symmetric;
                  ttl = ttl;
                  selector = selector;
                  selector_at = i;
                  in_selectors = in_selectors;
                  selected = selected;
                  copy = relayed_copy msg;
                  queued =
                      ap (λ (q : Sender H). q.queued_messages)
                        (forward_default-sender x msg d iface sender s l e r f);
                  one_less = omega (arith, ttl);
                  one_more = refl;
                  originator = refl;
                  number = refl;
                  same_body = refl;
                })
          ]
        ]
      ]

  -- The tuple that a search for the message finds after `note_duplicate`.
  pub note_duplicate-found :
      (x : Context H) (msg : OceanMessageHeader H) (d : Option ℕ) (iface : Ipv4Address) (b : Bool)
      (s : Protocol H S)
      → st.duplicate.find (message_key msg) s.duplicates ≡ d
      → IsTracked s
      → (t : DuplicateTuple) × (found st.duplicate
            (message_key msg)
            (note_duplicate st x msg d iface b s).duplicates
          ≡ some t)
        × (t.retransmitted ≡ b)
        × (elem iface t.iface_list ≡ true)
  unfolding note_duplicate add_duplicate_tuple
  note_duplicate-found x msg none iface b s e h =
      let t : DuplicateTuple = record {
        address = msg.header.originator_address;
        sequence_number = msg.header.message_sequence_number;
        retransmitted = b;
        iface_list = iface ∷ [];
        expiration_time = x.now +ℤ olsr_dup_hold_time;
      } in
      let d =
        IsTimed-insert duplicate_key duplicate_event st.duplicate laws.duplicate t x.now
          s.duplicates s.events e h.duplicates_timed in
      (
        t,
        found-at duplicate_key duplicate_event st.duplicate laws.duplicate
            (st.duplicate.insert t s.duplicates) (length s.duplicates) t d.distinct
            (rw (laws.duplicate.insert-new t s.duplicates e) (get-append_last s.duplicates t)),
        refl,
        ground arith,
      )
  note_duplicate-found x msg (some i) iface b s e h =
      let (t, g, k) = laws.duplicate.find-some (message_key msg) s.duplicates i e in
      let renew : DuplicateTuple → DuplicateTuple = λ (u : DuplicateTuple). record u {
        expiration_time = x.now +ℤ olsr_dup_hold_time;
        retransmitted = b;
        iface_list = u.iface_list ++ iface ∷ [];
      } in
      let d =
        IsTimed-modify duplicate_key duplicate_event i renew s.duplicates s.events (λ u q. refl)
          h.duplicates_timed in
      (
        renew t,
        subst (λ k. found st.duplicate k (modify i renew s.duplicates) ≡ some (renew t)) k
            (found-at duplicate_key duplicate_event st.duplicate laws.duplicate
              (modify i renew s.duplicates) i (renew t) d.distinct
              (get-modify i renew s.duplicates t g)),
        refl,
        elem-append_last iface t.iface_list,
      )
