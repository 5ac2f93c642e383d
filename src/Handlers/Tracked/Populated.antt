-- ===== src/Handlers/Tracked/Populated.antt =====
-- The neighbor, 2-hop neighbor and MPR selector sets under a HELLO message: they keep the invariant
-- of `Protocol.Tracked` too, and so does `ProcessHello`.
use maritime_mesh_network.Base.{
  ℕ, ◌/◌, ◌==◌, ◌||◌, ◌&&◌, refl, if◌then◌else◌, List, [], ◌∷◌, if-cases, elim-cases, OnSome,
  OnSome-then,
}
use maritime_mesh_network.Base.Int.{leb_ℤ}
use maritime_mesh_network.Repositories.{Ipv4Address, LinkTuple, DuplicateTuple}
use maritime_mesh_network.Repositories.Clock.{Time}
use maritime_mesh_network.Generate.{olsr_not_neigh, olsr_sym_neigh, olsr_mpr_neigh}
use maritime_mesh_network.Wire.Body.{LinkMessage, Hello}
use maritime_mesh_network.Wire.Message.{OceanMessageHeader}
use maritime_mesh_network.Protocol.{
  Protocol, OlsrState, Context, mpr_sel_tuple, schedule, increment_ansn, main_address_of,
  add_two_hop_neighbor_tuple, add_mpr_selector_tuple,
}
use maritime_mesh_network.Protocol.Laws.{IsOlsrState, selector_key}
use maritime_mesh_network.Protocol.Timed.{IsTimed-modify, IsTimed-insert}
use maritime_mesh_network.Protocol.Tracked.{Handling, IsHandled, AreTracked-schedule}
use maritime_mesh_network.Protocol.Links.{update_mpr_set}
use maritime_mesh_network.Protocol.Tracked.Kept.{update_mpr_set-keeps}
use maritime_mesh_network.Handlers.Sensing.{neighbor_type_in, link_sensing}
use maritime_mesh_network.Handlers.Hello.{
  populate_neighbor_set, add_two_hop_neighbor, hear_address, hear_addresses, hear_messages,
  hear_links, populate_two_hop_neighbor_set, select_mpr, select_mprs, select_from,
  populate_mpr_selector_set, process_hello,
}
use maritime_mesh_network.Handlers.Tracked.Hellos.{link_sensing-IsHandled}

module _ {H S : Type 0} (st : OlsrState S) (x : Context H) (laws : IsOlsrState st)
    (dups : List DuplicateTuple) where
  abbrev Handled : Protocol H S → Type 0
  Handled s = IsHandled [] dups s

  add_two_hop_neighbor-IsHandled :
      (originator : Ipv4Address) (expiry : Time) (addr : Ipv4Address) (s : Protocol H S)
      → Handled s
      → Handled (add_two_hop_neighbor st x originator expiry addr s)
  unfolding add_two_hop_neighbor schedule add_two_hop_neighbor_tuple
  add_two_hop_neighbor-IsHandled originator expiry addr s (h, same) =
      elim-cases (λ (u : Protocol H S). Handled u)
        (st.two_hop.find (originator, addr) s.two_hop_neighbors) _ _
        (λ n. (AreTracked-schedule _ h, same)) (λ i e. (h, same))

  hear_address-IsHandled :
      (originator : Ipv4Address) (expiry : Time) (nt : ℕ) (a : Ipv4Address) (s : Protocol H S)
      → Handled s
      → Handled (hear_address st x originator expiry nt a s)
  unfolding hear_address
  hear_address-IsHandled originator expiry nt a s h =
      let addr = main_address_of st s a in
      if-cases (λ (u : Protocol H S). Handled u) (nt == olsr_sym_neigh || nt == olsr_mpr_neigh) _ _
        (if-cases (λ (u : Protocol H S). Handled u) (addr == s.main_address) _ _ h
          (add_two_hop_neighbor-IsHandled originator expiry addr s h))
        (if-cases (λ (u : Protocol H S). Handled u) (nt == olsr_not_neigh) _ _ h h)

  hear_addresses-IsHandled :
      (originator : Ipv4Address) (expiry : Time) (nt : ℕ) (addrs : List Ipv4Address)
      (s : Protocol H S)
      → Handled s
      → Handled (hear_addresses st x originator expiry nt addrs s)
  unfolding hear_addresses
  hear_addresses-IsHandled originator expiry nt [] s h = h
  hear_addresses-IsHandled originator expiry nt (a ∷ addrs) s h =
      hear_addresses-IsHandled originator expiry nt addrs
        (hear_address st x originator expiry nt a s)
        (hear_address-IsHandled originator expiry nt a s h)

  hear_messages-IsHandled :
      (originator : Ipv4Address) (expiry : Time) (lms : List LinkMessage) (s : Protocol H S)
      → Handled s
      → Handled (hear_messages st x originator expiry lms s)
  unfolding hear_messages
  hear_messages-IsHandled originator expiry [] s h = h
  hear_messages-IsHandled originator expiry (lm ∷ lms) s h =
      hear_messages-IsHandled originator expiry lms
        (hear_addresses st x originator expiry (neighbor_type_in lm) lm.neighbor_interface_addresses
          s)
        (hear_addresses-IsHandled originator expiry (neighbor_type_in lm)
          lm.neighbor_interface_addresses s h)

  hear_links-IsHandled :
      (originator : Ipv4Address) (expiry : Time) (lms : List LinkMessage) (ls : List LinkTuple)
      (s : Protocol H S)
      → Handled s
      → Handled (hear_links st x originator expiry lms ls s)
  unfolding hear_links
  hear_links-IsHandled originator expiry lms [] s h = h
  hear_links-IsHandled originator expiry lms (l ∷ ls) s h =
      let heard =
        main_address_of st s l.neighbor_iface_addr == originator && leb_ℤ x.now l.sym_time in
      hear_links-IsHandled originator expiry lms ls
        (if heard then hear_messages st x originator expiry lms s else s)
        (if-cases (λ (u : Protocol H S). Handled u) heard _ _
          (hear_messages-IsHandled originator expiry lms s h) h)

  select_mpr-IsHandled :
      (originator : Ipv4Address) (expiry : Time) (a : Ipv4Address) (s : Protocol H S)
      → Handled s
      → Handled (select_mpr st x originator expiry a s)
  unfolding select_mpr schedule add_mpr_selector_tuple increment_ansn
  select_mpr-IsHandled originator expiry a s (h, same) =
      if-cases (λ (u : Protocol H S). Handled u) (main_address_of st s a == s.main_address) _ _
        (elim-cases (λ (u : Protocol H S). Handled u)
          (st.mpr_selector.find originator s.mpr_selectors) _ _
          (λ n.
            let m = AreTracked-schedule _ h in
            (
              record {
                links_timed = m.links_timed;
                selectors_timed =
                    IsTimed-insert selector_key mpr_sel_tuple st.mpr_selector laws.mpr_selector _ _
                      s.mpr_selectors s.events n h.selectors_timed;
                topology_timed = m.topology_timed;
                associations_timed = m.associations_timed;
                duplicates_timed = m.duplicates_timed;
              },
              same,
            ))
          (λ i e. (
            record {
              links_timed = h.links_timed;
              selectors_timed =
                  IsTimed-modify selector_key mpr_sel_tuple i _ s.mpr_selectors s.events
                    (λ t g. refl) h.selectors_timed;
              topology_timed = h.topology_timed;
              associations_timed = h.associations_timed;
              duplicates_timed = h.duplicates_timed;
            },
            same,
          )))
        (h, same)

  select_mprs-IsHandled :
      (originator : Ipv4Address) (expiry : Time) (addrs : List Ipv4Address) (s : Protocol H S)
      → Handled s
      → Handled (select_mprs st x originator expiry addrs s)
  unfolding select_mprs
  select_mprs-IsHandled originator expiry [] s h = h
  select_mprs-IsHandled originator expiry (a ∷ addrs) s h =
      select_mprs-IsHandled originator expiry addrs (select_mpr st x originator expiry a s)
        (select_mpr-IsHandled originator expiry a s h)

  select_from-IsHandled :
      (originator : Ipv4Address) (expiry : Time) (lms : List LinkMessage) (s : Protocol H S)
      → Handled s
      → Handled (select_from st x originator expiry lms s)
  unfolding select_from
  select_from-IsHandled originator expiry [] s h = h
  select_from-IsHandled originator expiry (lm ∷ lms) s h =
      let named = lm.link_code / 4 == olsr_mpr_neigh in
      select_from-IsHandled originator expiry lms
        (if named then select_mprs st x originator expiry lm.neighbor_interface_addresses s else s)
        (if-cases (λ (u : Protocol H S). Handled u) named _ _
          (select_mprs-IsHandled originator expiry lm.neighbor_interface_addresses s h) h)

  populate_neighbor_set-IsHandled :
      (msg : OceanMessageHeader H) (hello : Hello) (s : Protocol H S)
      → Handled s
      → Handled (populate_neighbor_set st x msg hello s)
  unfolding populate_neighbor_set
  populate_neighbor_set-IsHandled msg hello s h =
      elim-cases (λ (u : Protocol H S). Handled u)
        (st.neighbor.find msg.header.originator_address s.neighbors) _ _ (λ n. h) (λ i e. h)

  pub process_hello-IsHandled :
      (msg : OceanMessageHeader H) (hello : Hello) (receiver sender : Ipv4Address)
      (s : Protocol H S)
      → Handled s
      → OnSome (λ (u : Protocol H S). Handled u) (process_hello st x msg hello receiver sender s)
  unfolding process_hello populate_two_hop_neighbor_set populate_mpr_selector_set
  process_hello-IsHandled msg hello receiver sender s h =
      OnSome-then (λ (u : Protocol H S). Handled u) (λ (u : Protocol H S). Handled u)
        (link_sensing st x msg hello receiver sender s) _
        (link_sensing-IsHandled st x laws dups msg hello receiver sender s h)
        λ (a : Protocol H S) k.
          let b = populate_neighbor_set st x msg hello a in
          let c = populate_two_hop_neighbor_set st x msg hello b in
          select_from-IsHandled msg.header.originator_address _ hello.link_messages
            (update_mpr_set st x c)
            (update_mpr_set-keeps st x (Handling [] dups) c (
              hear_links-IsHandled msg.header.originator_address _ hello.link_messages b.links b
                (populate_neighbor_set-IsHandled msg hello a k)))
