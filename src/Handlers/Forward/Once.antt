-- ===== src/Handlers/Forward/Once.antt =====
-- A message that arrives again: `ForwardDefault` sends it on at most once, and the loop of
-- `RecvOlsr` ignores it on an interface where it was considered before.
use maritime_mesh_network.Base.{
  ℕ, ◌≡◌, ◌≢◌, ◌⊎◌, refl, sym, ap, ◌∙◌, subst, inl, inr, Bool, true, false, not, if◌then◌else◌,
  Option, none, some, List, arith, elem, get_elem?, Bool-cases, Option-cases, if-cases, elim-cases,
}
use maritime_mesh_network.Repositories.{Ipv4Address, DuplicateTuple}
use maritime_mesh_network.Repositories.Interface.{Repository, found}
use maritime_mesh_network.Wire.Message.{OceanMessageHeader}
use maritime_mesh_network.Queue.{queue_message}
use maritime_mesh_network.Protocol.{Protocol, OlsrState, Context}
use maritime_mesh_network.Protocol.Laws.{IsOlsrState}
use maritime_mesh_network.Protocol.Tracked.{IsTracked}
use maritime_mesh_network.Handlers.Forward.{
  relayed_copy, is_retransmitted, is_to_forward, note_duplicate, forward_default,
}
use maritime_mesh_network.Handlers.Forward.Relayed.{
  message_key, note_duplicate-found, note_duplicate-sender,
}
use maritime_mesh_network.Handlers.Receive.{do_forwarding, is_hello, accept_message}

-- The flag of the tuple that a search finds.
retransmitted_found :
    (r : Repository (Ipv4Address × ℕ) DuplicateTuple) (k : Ipv4Address × ℕ)
    (v : List DuplicateTuple) (t : DuplicateTuple)
    → found r k v ≡ some t
    → is_retransmitted v (r.find k v) ≡ t.retransmitted
unfolding found is_retransmitted
retransmitted_found r k v t f = elim (Option-cases (r.find k v)) [
  | inl n ↦ absurd cc
  | inr (i, e) ↦
      let g : get_elem? v i ≡ some t = ground arith in
      rw (e, is_retransmitted) (rw (g, is_retransmitted) refl)
]

module _ {H S : Type 0} (st : OlsrState S) (laws : IsOlsrState st) where
  -- The state after a message that was searched for among the duplicates.
  abbrev pub forward :
      Context H → OceanMessageHeader H → Ipv4Address → Ipv4Address → Protocol H S → Protocol H S
  forward x msg iface sender s =
      forward_default st x msg (st.duplicate.find (message_key msg) s.duplicates) iface sender s

  -- The queue changed, so the message is marked.
  abbrev Marked : OceanMessageHeader H → Protocol H S → Protocol H S → Type 0
  Marked msg s u =
      u.sender ≢ s.sender
      → is_retransmitted u.duplicates (st.duplicate.find (message_key msg) u.duplicates) ≡ true

  forward-Marked :
      (x : Context H) (msg : OceanMessageHeader H) (iface sender : Ipv4Address) (s : Protocol H S)
      → IsTracked s
      → Marked msg s (forward x msg iface sender s)
  unfolding forward_default
  forward-Marked x msg iface sender s h =
      elim-cases (λ (u : Protocol H S). Marked msg s u)
        (st.find_sym_link_tuple sender x.now s.links) _ _ (λ n changed. absurd (changed refl))
        (λ l e.
          if-cases (λ (u : Protocol H S). Marked msg s u) (is_retransmitted s.duplicates d) _ _
            (λ changed. absurd (changed refl))
            (if-cases (λ (u : Protocol H S). Marked msg s u) (is_to_forward st x msg sender s) _ _
              (λ changed.
                let (t, f, r, i) = note_duplicate-found st laws x msg d iface true queued refl h in
                retransmitted_found st.duplicate (message_key msg) _ t f ∙ r)
              (λ changed. absurd (changed (note_duplicate-sender st laws x msg d iface false s)))))
    where
      d : Option ℕ
      d = st.duplicate.find (message_key msg) s.duplicates

      queued : Protocol H S
      queued = record s { sender = queue_message (relayed_copy msg) x.jitter s.sender }

  -- A message that is marked changes nothing.
  forward_marked :
      (y : Context H) (msg : OceanMessageHeader H) (d : Option ℕ) (iface sender : Ipv4Address)
      (s : Protocol H S)
      → is_retransmitted s.duplicates d ≡ true
      → forward_default st y msg d iface sender s ≡ s
  unfolding forward_default
  forward_marked y msg d iface sender s r =
      elim-cases (λ (u : Protocol H S). u ≡ s) (st.find_sym_link_tuple sender y.now s.links) _ _
        (λ n. refl) (λ l e. rw r refl)

  -- Once `ForwardDefault` has changed the queue of messages for a message, it leaves the whole state
  -- as it is for any message with the same originator and sequence number that arrives next, at any
  -- time, on any interface and from any sender. The state before keeps the invariant of the events.
  pub forward_once :
      (x y : Context H) (msg again : OceanMessageHeader H)
      (iface sender iface' sender' : Ipv4Address) (s : Protocol H S)
      → IsTracked s
      → (forward x msg iface sender s).sender ≢ s.sender
      → message_key again ≡ message_key msg
      → let t = forward x msg iface sender s in forward y again iface' sender' t ≡ t
  forward_once x y msg again iface sender iface' sender' s h changed e =
      let t = forward x msg iface sender s in
      forward_marked y again (st.duplicate.find (message_key again) t.duplicates) iface' sender' t (
        subst (λ k. is_retransmitted t.duplicates (st.duplicate.find k t.duplicates) ≡ true) (sym e)
          (forward-Marked x msg iface sender s h changed))

  -- The message with this key was considered on the interface, or will not be sent on.
  abbrev Known : Ipv4Address × ℕ → Ipv4Address → Protocol H S → Type 0
  Known k iface u =
      (t : DuplicateTuple) × (found st.duplicate k u.duplicates ≡ some t)
      × ((t.retransmitted ≡ true) ⊎ (elem iface t.iface_list ≡ true))

  abbrev Considered : OceanMessageHeader H → Ipv4Address → Protocol H S → Type 0
  Considered msg iface u = Known (message_key msg) iface u

  retransmitted-Considered :
      (msg : OceanMessageHeader H) (iface : Ipv4Address) (s : Protocol H S)
      → is_retransmitted s.duplicates (st.duplicate.find (message_key msg) s.duplicates) ≡ true
      → Considered msg iface s
  unfolding found is_retransmitted
  retransmitted-Considered msg iface s r =
      elim (Option-cases (st.duplicate.find (message_key msg) s.duplicates)) [
        | inl n ↦ absurd (ground arith)
        | inr (i, e) ↦ elim (Option-cases (get_elem? s.duplicates i)) [
          | inl n ↦ absurd (ground arith)
          | inr (t, g) ↦ (t, rw (e, found) g, inl (ground arith))
        ]
      ]

  forward-Considered :
      (x : Context H) (msg : OceanMessageHeader H) (iface sender : Ipv4Address) (s : Protocol H S)
      → IsTracked s
      → st.find_sym_link_tuple sender x.now s.links ≢ none
      → Considered msg iface (forward x msg iface sender s)
  unfolding forward_default
  forward-Considered x msg iface sender s h known =
      elim-cases (λ (u : Protocol H S). Considered msg iface u)
        (st.find_sym_link_tuple sender x.now s.links) _ _ (λ n. absurd (known n))
        (λ l e. elim (Bool-cases (is_retransmitted s.duplicates d)) [
          | inl r ↦ rw r (retransmitted-Considered msg iface s r)
          | inr r ↦ rw r (
              if-cases (λ (u : Protocol H S). Considered msg iface u)
                (is_to_forward st x msg sender s) _ _ (noted true queued h) (noted false s h))
        ])
    where
      d : Option ℕ
      d = st.duplicate.find (message_key msg) s.duplicates

      queued : Protocol H S
      queued = record s { sender = queue_message (relayed_copy msg) x.jitter s.sender }

      noted :
          (b : Bool) (u : Protocol H S)
          → IsTracked u
          → Considered msg iface
              (note_duplicate st x msg (st.duplicate.find (message_key msg) u.duplicates) iface b u)
      noted b u k =
          let (t, f, r, i) = note_duplicate-found st laws x msg _ iface b u refl k in (t, f, inr i)

  ignored :
      (y : Context H) (msg : OceanMessageHeader H) (iface sender : Ipv4Address) (u : Protocol H S)
      → Considered msg iface u
      → accept_message st y iface sender msg u ≡ some u
  unfolding accept_message found
  ignored y msg iface sender u (w, f, why) =
      elim-cases (λ (o : Option (Protocol H S)). o ≡ some u)
        (st.duplicate.find (message_key msg) u.duplicates) _ _ (λ n. absurd (ground arith))
        (λ i e. ap some (branch i (ground arith) why))
    where
      onward : ℕ → Protocol H S
      onward i =
          if is_hello msg.header.body then u else forward_default st y msg (some i) iface sender u

      not_forwarding :
          (i : ℕ)
          → get_elem? u.duplicates i ≡ some w
          → elem iface w.iface_list ≡ true
          → do_forwarding u.duplicates i iface ≡ false
      not_forwarding i g k = rw (g, do_forwarding) (ap not k)

      branch :
          (i : ℕ)
          → get_elem? u.duplicates i ≡ some w
          → (w.retransmitted ≡ true) ⊎ (elem iface w.iface_list ≡ true)
          → (if do_forwarding u.duplicates i iface then onward i else u) ≡ u
      branch i g (inl r) =
          if-cases (λ (v : Protocol H S). v ≡ u) (do_forwarding u.duplicates i iface) _ _
            (if-cases (λ (v : Protocol H S). v ≡ u) (is_hello msg.header.body) _ _ refl
              (forward_marked y msg (some i) iface sender u (rw (g, is_retransmitted) r)))
            refl
      branch i g (inr k) = rw (not_forwarding i g k) refl

  -- `RecvOlsr` has considered a message for forwarding, which came by a symmetric link. Any message
  -- with the same originator and sequence number that next arrives on the same interface then leaves
  -- the state as it is, whatever it holds, whenever it arrives and whoever sends it. The state before
  -- keeps the invariant of the events.
  pub receive_twice :
      (x y : Context H) (msg again : OceanMessageHeader H) (iface sender sender' : Ipv4Address)
      (s : Protocol H S)
      → IsTracked s
      → st.find_sym_link_tuple sender x.now s.links ≢ none
      → message_key again ≡ message_key msg
      → let t = forward x msg iface sender s in accept_message st y iface sender' again t ≡ some t
  receive_twice x y msg again iface sender sender' s h known same =
      let t = forward x msg iface sender s in
      ignored y again iface sender' t
        (subst (λ k. Known k iface t) (sym same) (forward-Considered x msg iface sender s h known))
