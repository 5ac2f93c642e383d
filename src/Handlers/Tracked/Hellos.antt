-- ===== src/Handlers/Tracked/Hellos.antt =====
-- `ProcessHello` keeps the invariant of `Protocol.Tracked`, and leaves the duplicate tuples as they
-- are.
use maritime_mesh_network.Base.{
  ℕ, ◌≡◌, subst, sym, ◌∙◌, Bool, true, false, if◌then◌else◌, some, List, [], ◌∷◌, ◌++◌, arith,
  get_elem?, modify, if-cases, elim-cases, OnSome, OnSome-then,
}
use maritime_mesh_network.Base.Int.{◌+ℤ◌}
use maritime_mesh_network.Repositories.{Ipv4Address, LinkTuple, DuplicateTuple}
use maritime_mesh_network.Repositories.Clock.{Time, delay, min_time}
use maritime_mesh_network.Wire.Body.{LinkMessage, Hello}
use maritime_mesh_network.Wire.Message.{OceanMessageHeader}
use maritime_mesh_network.Protocol.{Protocol, OlsrState, Context, Event, link_tuple, schedule}
use maritime_mesh_network.Protocol.Laws.{IsOlsrState, link_key}
use maritime_mesh_network.Protocol.Links.{link_tuple_updated}
use maritime_mesh_network.Protocol.Timed.{IsTimed-modify, IsTimed-insert}
use maritime_mesh_network.Protocol.Tracked.{Handling, IsHandled, AreTracked-schedule}
use maritime_mesh_network.Protocol.Tracked.Kept.{link_tuple_added-keeps, link_tuple_updated-keeps}
use maritime_mesh_network.Handlers.{get_message_v_time}
use maritime_mesh_network.Handlers.Sensing.{
  Sense, Sensed, sense_link, sense_message, sense_messages, sense_tuple, last_time, report_sensed,
  sense, new_link_tuple, link_sensing, is_zero,
}

-- The loop over the link messages keeps the address of the link.
abbrev HasKey : Ipv4Address → Sensed → Type 0
HasKey k d = link_key d.tuple ≡ k

sense_message-key :
    (y : Sense) (lm : LinkMessage) (k : Ipv4Address) (c : Sensed)
    → HasKey k c
    → OnSome (HasKey k) (sense_message y lm c)
unfolding sense_message sense_link
sense_message-key y lm k c h = ground arith

sense_messages-key :
    (y : Sense) (lms : List LinkMessage) (k : Ipv4Address) (c : Sensed)
    → HasKey k c
    → OnSome (HasKey k) (sense_messages y lms c)
unfolding sense_messages
sense_messages-key y [] k c h = h
sense_messages-key y (lm ∷ lms) k c h =
    OnSome-then (HasKey k) (HasKey k) (sense_message y lm c) _ (sense_message-key y lm k c h)
      (λ d. sense_messages-key y lms k d)

module _ {H S : Type 0} (st : OlsrState S) (x : Context H) (laws : IsOlsrState st)
    (dups : List DuplicateTuple) where
  abbrev Handled : Protocol H S → Type 0
  Handled s = IsHandled [] dups s

  -- The event that a new link still lacks.
  abbrev lacking : Bool → Time → Ipv4Address → List (Time × Event)
  lacking true at k = (at, link_tuple k) ∷ []
  lacking false at k = []

  report_sensed-IsHandled :
      (created : Bool) (w : ℕ) (k : Ipv4Address) (c : Sensed) (s : Protocol H S)
      → HasKey k c
      → ((at : Time) → IsHandled (lacking created at k) dups s)
      → Handled (report_sensed st x created w c s)
  unfolding report_sensed schedule
  report_sensed-IsHandled true w k c s e h =
      let at = x.now +ℤ delay x.now (min_time c.tuple.time c.tuple.sym_time) in
      let front = lacking true at (link_key c.tuple) in
      let h' : IsHandled front dups s = rw e (h at) in
      let reported : Protocol H S = if c.updated then link_tuple_updated st x c.tuple w s else s in
      link_tuple_added-keeps st x (Handling front dups) c.tuple w reported (
        if-cases (λ (u : Protocol H S). IsHandled front dups u) c.updated _ _
          (link_tuple_updated-keeps st x (Handling front dups) c.tuple w s h') h')
  report_sensed-IsHandled false w k c s e h =
      if-cases (λ (u : Protocol H S). Handled u) c.updated _ _
        (link_tuple_updated-keeps st x (Handling [] dups) c.tuple w s (h x.now)) (h x.now)

  sense_tuple-key :
      (v : Time) (hello : Hello) (receiver : Ipv4Address) (created : Bool) (k : Ipv4Address)
      (t : LinkTuple)
      → link_key t ≡ k
      → OnSome (HasKey k) (sense_tuple st x v hello receiver created t)
  unfolding sense_tuple
  sense_tuple-key v hello receiver created k t e = sense_messages-key _ hello.link_messages k _ e

  sense-IsHandled :
      (v : Time) (hello : Hello) (receiver : Ipv4Address) (created : Bool) (k : Ipv4Address) (i : ℕ)
      (s : Protocol H S)
      → OnSome (λ (t : LinkTuple). link_key t ≡ k) (get_elem? s.links i)
      → ((at : Time) → IsHandled (lacking created at k) dups s)
      → OnSome (λ (u : Protocol H S). Handled u) (sense st x v hello receiver created i s)
  unfolding sense last_time
  sense-IsHandled v hello receiver created k i s key h =
      OnSome-then (λ (u : Protocol H S). Handled u) (λ (t : LinkTuple). link_key t ≡ k)
        (get_elem? s.links i) _ key
        λ t e.
          OnSome-then (λ (u : Protocol H S). Handled u) (HasKey k)
            (sense_tuple st x v hello receiver created t) _
            (sense_tuple-key v hello receiver created k t e)
            λ c f.
              report_sensed-IsHandled created hello.willingness k (last_time st x c)
                (record s { links = modify i (λ t. (last_time st x c).tuple) s.links }) f
                λ at.
                  let (m, same) = h at in
                  (
                    record {
                      links_timed =
                          IsTimed-modify link_key link_tuple i _ s.links
                            (lacking created at k ++ s.events)
                            (λ u g.
                              f ∙ sym (subst (OnSome (λ (w : LinkTuple). link_key w ≡ k)) g key))
                            m.links_timed;
                      selectors_timed = m.selectors_timed;
                      topology_timed = m.topology_timed;
                      associations_timed = m.associations_timed;
                      duplicates_timed = m.duplicates_timed;
                    },
                    same,
                  )

  pub link_sensing-IsHandled :
      (msg : OceanMessageHeader H) (hello : Hello) (receiver sender : Ipv4Address)
      (s : Protocol H S)
      → Handled s
      → OnSome (λ (u : Protocol H S). Handled u) (link_sensing st x msg hello receiver sender s)
  unfolding link_sensing new_link_tuple
  link_sensing-IsHandled msg hello receiver sender s (h, same) =
      if-cases (OnSome (λ (u : Protocol H S). Handled u)) (is_zero (get_message_v_time x msg)) _ _
        (h, same)
        (elim-cases (OnSome (λ (u : Protocol H S). Handled u)) (st.link.find sender s.links) _ _
          (λ n.
            elim-cases (OnSome (λ (u : Protocol H S). Handled u))
              (st.link.find sender inserted.links) _ _ (λ none. tt)
              (λ i e.
                sense-IsHandled v hello receiver true sender i inserted (at_key inserted.links i e)
                  (λ at.
                    let m = AreTracked-schedule (at, link_tuple sender) h in
                    (
                      record {
                        links_timed =
                            IsTimed-insert link_key link_tuple st.link laws.link new at s.links
                              s.events n h.links_timed;
                        selectors_timed = m.selectors_timed;
                        topology_timed = m.topology_timed;
                        associations_timed = m.associations_timed;
                        duplicates_timed = m.duplicates_timed;
                      },
                      same,
                    ))))
          (λ i e.
            sense-IsHandled v hello receiver false sender i recorded (at_key s.links i e)
              (λ at. (h, same))))
    where
      v : Time
      v = get_message_v_time x msg

      new : LinkTuple
      new = new_link_tuple st x v receiver sender

      recorded : Protocol H S
      recorded = record s { predict_height = x.predicted_height }

      inserted : Protocol H S
      inserted = record recorded { links = st.link.insert new s.links }

      at_key :
          (links : List LinkTuple) (i : ℕ)
          → st.link.find sender links ≡ some i
          → OnSome (λ (t : LinkTuple). link_key t ≡ sender) (get_elem? links i)
      at_key links i e =
          let (t, g, same) = laws.link.find-some sender links i e in
          subst (OnSome (λ (w : LinkTuple). link_key w ≡ sender)) (sym g) same
