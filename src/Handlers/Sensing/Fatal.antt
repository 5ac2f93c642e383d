-- ===== src/Handlers/Sensing/Fatal.antt =====
-- When `LinkSensing` ends in the fatal error on a bad link type.
use maritime_mesh_network.Base.{
  ℕ, ◌==◌, ◌&&◌, ◌||◌, ◌≡◌, ◌≢◌, refl, sym, ◌∙◌, subst, inl, inr, Bool, true, false, not,
  Bool-cases, Option-cases, Option, none, some, List, [], ◌∷◌, arith, any, elem, get_elem?, All-get,
  get-append_last, length, is_some, elim-cases,
}
use maritime_mesh_network.Repositories.{Ipv4Address, LinkTuple}
use maritime_mesh_network.Repositories.Clock.{Time}
use maritime_mesh_network.Wire.Body.{LinkMessage, Hello}
use maritime_mesh_network.Wire.Message.{OceanMessageHeader}
use maritime_mesh_network.Protocol.{Protocol, OlsrState, Context}
use maritime_mesh_network.Protocol.Laws.{IsOlsrState, link_key}
use maritime_mesh_network.Handlers.{get_message_v_time}
use maritime_mesh_network.Handlers.Sensing.{
  link_type_in, is_invalid, is_zero, Sense, Sensed, sense_link, sense_message, sense_messages,
  sense_tuple, sense, new_link_tuple, link_sensing,
}

-- The link message is valid, names the receiver, and has the link type UNSPEC_LINK.
abbrev pub is_fatal : Ipv4Address → LinkMessage → Bool
is_fatal receiver lm =
    link_type_in lm == 0 && (not (is_invalid lm) && elem receiver lm.neighbor_interface_addresses)

sense_message_fatal :
    (y : Sense) (lm : LinkMessage) (c : Sensed)
    → is_some (sense_message y lm c) ≡ not (is_fatal y.receiver_iface lm)
unfolding sense_message sense_link
sense_message_fatal y lm c = ground arith

sense_messages_fatal :
    (y : Sense) (lms : List LinkMessage) (c : Sensed)
    → is_some (sense_messages y lms c) ≡ not (any (is_fatal y.receiver_iface) lms)
unfolding sense_messages
sense_messages_fatal y [] c = refl
sense_messages_fatal y (lm ∷ lms) c =
    let one = sense_message_fatal y lm c in
    elim (Option-cases (sense_message y lm c)) [
      | inl n ↦ ground (arith, one)
      | inr (d, e) ↦ ground (arith, one, sense_messages_fatal y lms d)
    ]

-- A search that finds an element ends a partial computation only where the rest does.
is_some-elim :
    {A B C : Type 0} (o : Option A) (k : A → Option B) (f : A → B → C)
    → is_some (elim o [ none ↦ none | some a ↦ elim (k a) [ none ↦ none | some b ↦ some (f a b) ] ])
      ≡ elim o [ none ↦ false | some a ↦ is_some (k a) ]
is_some-elim none k f = refl
is_some-elim (some a) k f = inner (k a) (f a)
  where
    inner :
        {B C : Type 0} (p : Option B) (g : B → C)
        → is_some (elim p [ none ↦ none | some b ↦ some (g b) ]) ≡ is_some p
    inner none g = refl
    inner (some b) g = refl

module _ {H S : Type 0} (st : OlsrState S) (laws : IsOlsrState st) (x : Context H) where
  sense_fatal :
      (v : Time) (hello : Hello) (receiver sender : Ipv4Address) (created : Bool) (i : ℕ)
      (s : Protocol H S)
      → st.link.find sender s.links ≡ some i
      → is_some (sense st x v hello receiver created i s)
        ≡ not (any (is_fatal receiver) hello.link_messages)
  unfolding sense sense_tuple
  sense_fatal v hello receiver sender created i s e =
      let (t, g, k) = laws.link.find-some sender s.links i e in
      is_some-elim (get_elem? s.links i) (sense_tuple st x v hello receiver created) _
      ∙ subst
          (λ o.
            elim o as (λ _. Bool) [
              | none ↦ false
              | some u ↦ is_some (sense_tuple st x v hello receiver created u)
            ]
            ≡ not (any (is_fatal receiver) hello.link_messages))
          (sym g) (sense_messages_fatal _ hello.link_messages _)

  -- A new link is found after its insertion.
  inserted_found :
      (t : LinkTuple) (v : List LinkTuple)
      → st.link.find (link_key t) v ≡ none
      → st.link.find (link_key t) (st.link.insert t v) ≢ none
  inserted_found t v n m =
      All-get (λ u. link_key u ≢ link_key t) (st.link.insert t v) (length v) t
        (laws.link.find-none (link_key t) (st.link.insert t v) m)
        (rw (laws.link.insert-new t v n) (get-append_last v t)) refl

  -- `LinkSensing` returns exactly unless the validity time of the message is not 0 and some link message
  -- of it with a valid link code and the link type UNSPEC_LINK names the receiving interface.
  pub link_sensing_lem :
      (msg : OceanMessageHeader H) (hello : Hello) (receiver sender : Ipv4Address)
      (s : Protocol H S)
      → is_some (link_sensing st x msg hello receiver sender s)
        ≡ (is_zero (get_message_v_time x msg) || not (any (is_fatal receiver) hello.link_messages))
  unfolding link_sensing new_link_tuple
  link_sensing_lem msg hello receiver sender s = elim (Bool-cases (is_zero v)) [
    | inl z ↦ rw (z, link_sensing) refl
    | inr z ↦ rw (z, link_sensing) (sensed)
  ]
    where
      v : Time
      v = get_message_v_time x msg

      new : LinkTuple
      new = new_link_tuple st x v receiver sender

      recorded : Protocol H S
      recorded = record s { predict_height = x.predicted_height }

      inserted : Protocol H S
      inserted = record recorded { links = st.link.insert new s.links }

      Right : Option (Protocol H S) → Type 0
      Right o = is_some o ≡ not (any (is_fatal receiver) hello.link_messages)

      sensed : Right (elim (st.link.find sender s.links) [
        | some i ↦ sense st x v hello receiver false i recorded
        | none ↦ elim (st.link.find sender inserted.links) [
          | none ↦ none
          | some i ↦ sense st x v hello receiver true i inserted
        ]
      ])
      sensed =
          elim-cases Right (st.link.find sender s.links) _ _
            (λ n.
              elim-cases Right (st.link.find sender inserted.links) _ _
                (λ m. absurd (inserted_found new s.links n m))
                (λ i e. sense_fatal v hello receiver sender true i inserted e))
            (λ i e. sense_fatal v hello receiver sender false i recorded e)
