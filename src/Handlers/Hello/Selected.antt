-- ===== src/Handlers/Hello/Selected.antt =====
-- Which HELLO messages make their originator an MPR selector of the node.
use maritime_mesh_network.Base.{
  ℕ, ◌/◌, ◌==◌, ◌&&◌, ◌||◌, ◌≡◌, ◌≢◌, refl, sym, ap, ◌∙◌, inl, inr, Bool, true, false,
  if◌then◌else◌, Bool-cases, Option-cases, some, List, [], ◌∷◌, arith, any, All-get, get-modify,
  get-append_last, get_elem?, length, modify, is_some, elim-cases,
}
use maritime_mesh_network.Base.Int.{◌+ℤ◌}
use maritime_mesh_network.Repositories.{Ipv4Address, MprSelectorTuple}
use maritime_mesh_network.Repositories.Clock.{Time}
use maritime_mesh_network.Generate.{olsr_mpr_neigh}
use maritime_mesh_network.Wire.Body.{LinkMessage, Hello}
use maritime_mesh_network.Wire.Message.{OceanMessageHeader}
use maritime_mesh_network.Protocol.{
  Protocol, OlsrState, Context, schedule, main_address_of, add_mpr_selector_tuple, increment_ansn,
}
use maritime_mesh_network.Protocol.Laws.{IsOlsrState, selector_key}
use maritime_mesh_network.Handlers.{get_message_v_time}
use maritime_mesh_network.Handlers.Hello.{
  select_mpr, select_mprs, select_from, populate_mpr_selector_set,
}

or_true : (b : Bool) → (b || true) ≡ true
or_true b = ground arith

or_assoc : (a b c : Bool) → ((a || b) || c) ≡ (a || (b || c))
or_assoc a b c = ground arith

any_same :
    {A : Type 0} (p q : A → Bool) → ((a : A) → p a ≡ q a) → (xs : List A) → any p xs ≡ any q xs
any_same p q h [] = refl
any_same p q h (x ∷ xs) = rw (h x) (ap (λ b. q x || b) (any_same p q h xs))

module _ {H S : Type 0} (st : OlsrState S) where
  -- The address is one of the node's own interfaces.
  abbrev pub names : Protocol H S → Ipv4Address → Bool
  names s a = main_address_of st s a == s.main_address

  -- The link message is of the neighbor type MPR_NEIGH and names the node.
  abbrev pub selects : Protocol H S → LinkMessage → Bool
  selects s lm = lm.link_code / 4 == olsr_mpr_neigh && any (names s) lm.neighbor_interface_addresses

  -- The node is an MPR of the originator.
  abbrev pub is_selector : Ipv4Address → Protocol H S → Bool
  is_selector originator s = is_some (st.mpr_selector.find originator s.mpr_selectors)

module _ {H S : Type 0} (st : OlsrState S) (laws : IsOlsrState st) (x : Context H)
    (originator : Ipv4Address) (expiry : Time) where
  -- What the loops keep: the addresses mean the same.
  record Selects (b : Bool) (s u : Protocol H S) : Type 0 where
    selector : is_selector st originator u ≡ (is_selector st originator s || b)
    same : (a : Ipv4Address) → names st u a ≡ names st s a

  found_after :
      (v : List MprSelectorTuple) (i : ℕ) (t : MprSelectorTuple)
      → get_elem? v i ≡ some t
      → t.main_addr ≡ originator
      → is_some (st.mpr_selector.find originator v) ≡ true
  found_after v i t g k = elim (Option-cases (st.mpr_selector.find originator v)) [
    | inl n ↦ absurd (
        All-get (λ u. selector_key u ≢ originator) v i t
          (laws.mpr_selector.find-none originator v n) g k)
    | inr (j, e) ↦ rw e refl
  ]

  abbrev new : MprSelectorTuple
  new = record { main_addr = originator; expiration_time = expiry }

  abbrev renew : MprSelectorTuple → MprSelectorTuple
  renew t = record t { expiration_time = expiry }

  select_mpr-Selects :
      (a : Ipv4Address) (s : Protocol H S)
      → Selects (names st s a) s (select_mpr st x originator expiry a s)
  unfolding select_mpr schedule add_mpr_selector_tuple increment_ansn main_address_of
  select_mpr-Selects a s = elim (Bool-cases (names st s a)) [
    | inr e ↦ rw e (record { selector = ground arith; same = λ b. refl })
    | inl e ↦ rw e (
        elim-cases (λ (u : Protocol H S). Selects true s u)
          (st.mpr_selector.find originator s.mpr_selectors) _ _
          (λ n. record {
            selector =
                found_after (st.mpr_selector.insert new s.mpr_selectors) (length s.mpr_selectors)
                  new
                  (rw (laws.mpr_selector.insert-new new s.mpr_selectors n)
                    (get-append_last s.mpr_selectors new))
                  refl
                ∙ sym (or_true (is_selector st originator s));
            same = λ b. refl;
          })
          (λ i g.
            let (t, at, k) = laws.mpr_selector.find-some originator s.mpr_selectors i g in
            record {
              selector =
                  found_after (modify i renew s.mpr_selectors) i (renew t)
                    (get-modify i renew s.mpr_selectors t at) k
                  ∙ sym (or_true (is_selector st originator s));
              same = λ b. refl;
            }))
  ]

  -- One step after another.
  Selects-trans :
      (b c d : Bool) (s u v : Protocol H S)
      → Selects b s u
      → c ≡ d
      → Selects c u v
      → Selects (b || d) s v
  Selects-trans b c d s u v h e k = record {
    selector =
        k.selector
        ∙ ap (λ a. a || c) h.selector
        ∙ or_assoc (is_selector st originator s) b c
        ∙ ap (λ a. is_selector st originator s || (b || a)) e;
    same = λ a. k.same a ∙ h.same a;
  }

  Selects-refl : (s : Protocol H S) → Selects false s s
  Selects-refl s = record { selector = ground arith; same = λ a. refl }

  select_mprs-Selects :
      (addrs : List Ipv4Address) (s : Protocol H S)
      → Selects (any (names st s) addrs) s (select_mprs st x originator expiry addrs s)
  unfolding select_mprs
  select_mprs-Selects [] s = Selects-refl s
  select_mprs-Selects (a ∷ addrs) s =
      let u = select_mpr st x originator expiry a s in
      let h = select_mpr-Selects a s in
      Selects-trans (names st s a) (any (names st u) addrs) (any (names st s) addrs) s u
        (select_mprs st x originator expiry addrs u) h
        (any_same (names st u) (names st s) h.same addrs) (select_mprs-Selects addrs u)

  select_one-Selects :
      (lm : LinkMessage) (s : Protocol H S)
      → Selects (selects st s lm) s (
          if lm.link_code / 4 == olsr_mpr_neigh
          then select_mprs st x originator expiry lm.neighbor_interface_addresses s
          else s)
  select_one-Selects lm s = elim (Bool-cases (lm.link_code / 4 == olsr_mpr_neigh)) [
    | inl e ↦ rw e (select_mprs-Selects lm.neighbor_interface_addresses s)
    | inr e ↦ rw e (Selects-refl s)
  ]

  select_from-Selects :
      (lms : List LinkMessage) (s : Protocol H S)
      → Selects (any (selects st s) lms) s (select_from st x originator expiry lms s)
  unfolding select_from
  select_from-Selects [] s = Selects-refl s
  select_from-Selects (lm ∷ lms) s =
      let u =
        if lm.link_code / 4 == olsr_mpr_neigh
        then select_mprs st x originator expiry lm.neighbor_interface_addresses s
        else s in
      let h = select_one-Selects lm s in
      Selects-trans (selects st s lm) (any (selects st u) lms) (any (selects st s) lms) s u
        (select_from st x originator expiry lms u) h
        (any_same (selects st u) (selects st s)
          (λ l.
            ap (λ b. l.link_code / 4 == olsr_mpr_neigh && b)
              (any_same (names st u) (names st s) h.same l.neighbor_interface_addresses))
          lms)
        (select_from-Selects lms u)

module _ {H S : Type 0} (st : OlsrState S) (laws : IsOlsrState st) (x : Context H) where
  -- After `PopulateMprSelectorSet` the originator of a HELLO message is an MPR selector of the node
  -- exactly if it was one before, or some link message whose link code is that of MPR_NEIGH, with
  -- no further bits above, names an interface of the node.
  pub populate_mpr_selector_set_lem :
      (msg : OceanMessageHeader H) (hello : Hello) (s : Protocol H S)
      → let originator = msg.header.originator_address in
        is_selector st originator (populate_mpr_selector_set st x msg hello s)
        ≡ (is_selector st originator s || any (selects st s) hello.link_messages)
  unfolding populate_mpr_selector_set
  populate_mpr_selector_set_lem msg hello s =
      (select_from-Selects st laws x msg.header.originator_address
        (x.now +ℤ get_message_v_time x msg) hello.link_messages s).selector
