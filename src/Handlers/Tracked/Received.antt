-- ===== src/Handlers/Tracked/Received.antt =====
-- The loop of `RecvOlsr` keeps the invariant of `Protocol.Tracked`.
use maritime_mesh_network.Base.{
  ℕ, ◌==◌, ◌||◌, ◌≡◌, refl, subst, sym, Bool, true, false, if◌then◌else◌, Option, none, some, List,
  [], ◌∷◌, if-cases, elim-cases, OnSome, OnSome-then,
}
use maritime_mesh_network.Repositories.{Ipv4Address}
use maritime_mesh_network.Wire.Message.{Body, hello, tc, mid, hna, OceanMessageHeader}
use maritime_mesh_network.Queue.{queue_message}
use maritime_mesh_network.Protocol.{Protocol, OlsrState, Context, add_duplicate_tuple}
use maritime_mesh_network.Protocol.Laws.{IsOlsrState, duplicate_key, duplicate_event}
use maritime_mesh_network.Protocol.Timed.{IsTimed-modify, IsTimed-insert}
use maritime_mesh_network.Protocol.Tracked.{IsTracked, Handling, IsHandled, AreTracked-schedule}
use maritime_mesh_network.Protocol.Tracked.Kept.{routing_table_computation-keeps}
use maritime_mesh_network.Handlers.Forward.{
  relayed_copy, is_retransmitted, is_to_forward, note_duplicate, forward_default,
}
use maritime_mesh_network.Handlers.Receive.{
  do_forwarding, is_hello, process, accept_message, receive_message, receive_all, recv_olsr,
}
use maritime_mesh_network.Handlers.Tracked.{
  process_tc-IsHandled, process_mid-IsHandled, process_hna-IsHandled,
}
use maritime_mesh_network.Handlers.Tracked.Populated.{process_hello-IsHandled}

module _ {H S : Type 0} (st : OlsrState S) (laws : IsOlsrState st) (x : Context H) where
  -- The pointer is the result of the search for the message, in the duplicate tuples as they are.
  note_duplicate-IsTracked :
      (msg : OceanMessageHeader H) (duplicated : Option ℕ) (iface : Ipv4Address) (b : Bool)
      (s : Protocol H S)
      → st.duplicate.find
          (msg.header.originator_address, msg.header.message_sequence_number)
          s.duplicates
        ≡ duplicated
      → IsTracked s
      → IsTracked (note_duplicate st x msg duplicated iface b s)
  unfolding note_duplicate add_duplicate_tuple
  note_duplicate-IsTracked msg none iface b s e h =
      let m = AreTracked-schedule _ h in
      record {
        links_timed = m.links_timed;
        selectors_timed = m.selectors_timed;
        topology_timed = m.topology_timed;
        associations_timed = m.associations_timed;
        duplicates_timed =
            IsTimed-insert duplicate_key duplicate_event st.duplicate laws.duplicate _ _
              s.duplicates s.events e h.duplicates_timed;
      }
  note_duplicate-IsTracked msg (some i) iface b s e h = record {
    links_timed = h.links_timed;
    selectors_timed = h.selectors_timed;
    topology_timed = h.topology_timed;
    associations_timed = h.associations_timed;
    duplicates_timed =
        IsTimed-modify duplicate_key duplicate_event i _ s.duplicates s.events (λ t g. refl)
          h.duplicates_timed;
  }

  forward_default-IsTracked :
      (msg : OceanMessageHeader H) (duplicated : Option ℕ) (iface sender : Ipv4Address)
      (s : Protocol H S)
      → st.duplicate.find
          (msg.header.originator_address, msg.header.message_sequence_number)
          s.duplicates
        ≡ duplicated
      → IsTracked s
      → IsTracked (forward_default st x msg duplicated iface sender s)
  unfolding forward_default
  forward_default-IsTracked msg duplicated iface sender s e h =
      elim-cases (λ (u : Protocol H S). IsTracked u) (st.find_sym_link_tuple sender x.now s.links) _
        _ (λ n. h)
        (λ l g.
          if-cases (λ (u : Protocol H S). IsTracked u) (is_retransmitted s.duplicates duplicated) _
            _ h
            (if-cases (λ (u : Protocol H S). IsTracked u) (is_to_forward st x msg sender s) _ _
              (note_duplicate-IsTracked msg duplicated iface true
                (record s { sender = queue_message (relayed_copy msg) x.jitter s.sender }) e h)
              (note_duplicate-IsTracked msg duplicated iface false s e h)))

  module _ (receiver sender : Ipv4Address) where
    process-IsHandled :
        (msg : OceanMessageHeader H) (s : Protocol H S)
        → IsTracked s
        → OnSome
            (λ (u : Protocol H S). IsHandled [] s.duplicates u)
            (process st x receiver sender msg s)
    unfolding process
    process-IsHandled msg s h = go msg.header.body
      where
        with_body : Body → OceanMessageHeader H
        with_body b = record msg { header = record msg.header { body = b } }

        go :
            (b : Body)
            → OnSome
                (λ (u : Protocol H S). IsHandled [] s.duplicates u)
                (process st x receiver sender (with_body b) s)
        go (hello m) =
            process_hello-IsHandled st x laws s.duplicates (with_body (hello m)) m receiver sender s
              (h, refl)
        go (tc m) =
            process_tc-IsHandled st x laws s.duplicates (with_body (tc m)) m sender s (h, refl)
        go (mid m) =
            process_mid-IsHandled st x laws s.duplicates (with_body (mid m)) m sender s (h, refl)
        go (hna m) =
            process_hna-IsHandled st x laws s.duplicates (with_body (hna m)) m sender s (h, refl)

    accept_message-IsTracked :
        (msg : OceanMessageHeader H) (s : Protocol H S)
        → IsTracked s
        → OnSome (λ (u : Protocol H S). IsTracked u) (accept_message st x receiver sender msg s)
    unfolding accept_message
    accept_message-IsTracked msg s h =
        elim-cases (OnSome (λ (u : Protocol H S). IsTracked u)) (st.duplicate.find key s.duplicates)
          _ _
          (λ n.
            OnSome-then (λ (u : Protocol H S). IsTracked u)
              (λ (u : Protocol H S). IsHandled [] s.duplicates u)
              (process st x receiver sender msg s) _ (process-IsHandled msg s h)
              λ (t : Protocol H S) k.
                forward none t (subst (λ d. st.duplicate.find key d ≡ none) (sym k.1) n) k.0)
          (λ i e.
            if-cases (λ (u : Protocol H S). IsTracked u) (do_forwarding s.duplicates i receiver) _ _
              (forward (some i) s e h) h)
      where
        key : Ipv4Address × ℕ
        key = (msg.header.originator_address, msg.header.message_sequence_number)

        forward :
            (d : Option ℕ) (t : Protocol H S)
            → st.duplicate.find key t.duplicates ≡ d
            → IsTracked t
            → IsTracked (
                if is_hello msg.header.body
                then t
                else forward_default st x msg d receiver sender t)
        forward d t e k =
            if-cases (λ (u : Protocol H S). IsTracked u) (is_hello msg.header.body) _ _ k
              (forward_default-IsTracked msg d receiver sender t e k)

    receive_all-IsTracked :
        (msgs : List (OceanMessageHeader H)) (s : Protocol H S)
        → IsTracked s
        → OnSome (λ (u : Protocol H S). IsTracked u) (receive_all st x receiver sender msgs s)
    unfolding receive_all receive_message
    receive_all-IsTracked [] s h = h
    receive_all-IsTracked (msg ∷ msgs) s h =
        OnSome-then (λ (u : Protocol H S). IsTracked u) (λ (u : Protocol H S). IsTracked u)
          (receive_message st x receiver sender msg s) _
          (if-cases (OnSome (λ (u : Protocol H S). IsTracked u))
            (msg.header.time_to_live == 0 || msg.header.originator_address == s.main_address) _ _ h
            (accept_message-IsTracked msg s h))
          λ (t : Protocol H S). receive_all-IsTracked msgs t

    pub recv_olsr-IsTracked :
        (msgs : List (OceanMessageHeader H)) (s : Protocol H S)
        → IsTracked s
        → OnSome (λ (u : Protocol H S). IsTracked u) (recv_olsr st x receiver sender msgs s)
    unfolding recv_olsr
    recv_olsr-IsTracked msgs s h =
        OnSome-then (λ (u : Protocol H S). IsTracked u) (λ (u : Protocol H S). IsTracked u)
          (receive_all st x receiver sender msgs s) _ (receive_all-IsTracked msgs s h)
          λ (t : Protocol H S) k.
            (routing_table_computation-keeps st x (Handling [] t.duplicates) t (k, refl)).0
