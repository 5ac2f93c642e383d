-- ===== src/Handlers/Hello/Elsewhere.antt =====
-- The 2-hop neighbors that HELLO messages name are other nodes.
use maritime_mesh_network.Base.{
  ℕ, ◌==◌, ◌&&◌, ◌||◌, ◌≢◌, inl, inr, if◌then◌else◌, Bool-cases, List, [], ◌∷◌, arith, All,
  All-append, All-modify, if-cases, elim-cases,
}
use maritime_mesh_network.Base.Int.{◌+ℤ◌, leb_ℤ}
use maritime_mesh_network.Repositories.{Ipv4Address, LinkTuple, TwoHopNeighborTuple}
use maritime_mesh_network.Repositories.Clock.{Time}
use maritime_mesh_network.Generate.{olsr_not_neigh, olsr_sym_neigh, olsr_mpr_neigh}
use maritime_mesh_network.Wire.Body.{LinkMessage, Hello}
use maritime_mesh_network.Wire.Message.{OceanMessageHeader}
use maritime_mesh_network.Protocol.{
  Protocol, OlsrState, Context, schedule, main_address_of, add_two_hop_neighbor_tuple,
}
use maritime_mesh_network.Protocol.Laws.{IsOlsrState}
use maritime_mesh_network.Protocol.Tracked.{All-remove_if}
use maritime_mesh_network.Handlers.{get_message_v_time}
use maritime_mesh_network.Handlers.Sensing.{neighbor_type_in}
use maritime_mesh_network.Handlers.Hello.{
  add_two_hop_neighbor, hear_address, hear_addresses, hear_messages, hear_links,
  populate_two_hop_neighbor_set,
}

-- No tuple names the node itself as a 2-hop neighbor.
abbrev pub IsElsewhere : {H S : Type 0} → Protocol H S → Type 0
IsElsewhere s = All (λ t. t.two_hop_neighbor_addr ≢ s.main_address) s.two_hop_neighbors

module _ {H S : Type 0} (st : OlsrState S) (laws : IsOlsrState st) (x : Context H)
    (originator : Ipv4Address) (expiry : Time) where
  add_two_hop_neighbor-IsElsewhere :
      (addr : Ipv4Address) (s : Protocol H S)
      → addr ≢ s.main_address
      → IsElsewhere s
      → IsElsewhere (add_two_hop_neighbor st x originator expiry addr s)
  unfolding add_two_hop_neighbor schedule add_two_hop_neighbor_tuple
  add_two_hop_neighbor-IsElsewhere addr s ne h =
      let t : TwoHopNeighborTuple = record {
        neighbor_main_addr = originator;
        two_hop_neighbor_addr = addr;
        expiration_time = expiry;
      } in
      elim-cases (λ (u : Protocol H S). IsElsewhere u)
        (st.two_hop.find (originator, addr) s.two_hop_neighbors) _ _
        (λ n. rw (laws.two_hop.insert-new t s.two_hop_neighbors n) (
          All-append (λ u. u.two_hop_neighbor_addr ≢ s.main_address) s.two_hop_neighbors (t ∷ []) h
            (ne, tt)))
        (λ i e.
          All-modify (λ u. u.two_hop_neighbor_addr ≢ s.main_address) i _ s.two_hop_neighbors
            (λ u g p. p) h)

  hear_address-IsElsewhere :
      (nt : ℕ) (a : Ipv4Address) (s : Protocol H S)
      → IsElsewhere s
      → IsElsewhere (hear_address st x originator expiry nt a s)
  unfolding hear_address
  hear_address-IsElsewhere nt a s h =
      let addr = main_address_of st s a in
      if-cases (λ (u : Protocol H S). IsElsewhere u) (nt == olsr_sym_neigh || nt == olsr_mpr_neigh)
        _ _
        (elim (Bool-cases (addr == s.main_address)) [
          | inl e ↦ rw e h
          | inr e ↦ rw e (add_two_hop_neighbor-IsElsewhere addr s (λ q. ground arith) h)
        ])
        (if-cases (λ (u : Protocol H S). IsElsewhere u) (nt == olsr_not_neigh) _ _
          (rw (laws.two_hops_to originator addr s.two_hop_neighbors) (
            All-remove_if (λ t. t.two_hop_neighbor_addr ≢ s.main_address)
              (λ t. t.neighbor_main_addr == originator && t.two_hop_neighbor_addr == addr)
              s.two_hop_neighbors h))
          h)

  hear_addresses-IsElsewhere :
      (nt : ℕ) (addrs : List Ipv4Address) (s : Protocol H S)
      → IsElsewhere s
      → IsElsewhere (hear_addresses st x originator expiry nt addrs s)
  unfolding hear_addresses
  hear_addresses-IsElsewhere nt [] s h = h
  hear_addresses-IsElsewhere nt (a ∷ addrs) s h =
      hear_addresses-IsElsewhere nt addrs (hear_address st x originator expiry nt a s)
        (hear_address-IsElsewhere nt a s h)

  hear_messages-IsElsewhere :
      (lms : List LinkMessage) (s : Protocol H S)
      → IsElsewhere s
      → IsElsewhere (hear_messages st x originator expiry lms s)
  unfolding hear_messages
  hear_messages-IsElsewhere [] s h = h
  hear_messages-IsElsewhere (lm ∷ lms) s h =
      hear_messages-IsElsewhere lms
        (hear_addresses st x originator expiry (neighbor_type_in lm) lm.neighbor_interface_addresses
          s)
        (hear_addresses-IsElsewhere (neighbor_type_in lm) lm.neighbor_interface_addresses s h)

  hear_links-IsElsewhere :
      (lms : List LinkMessage) (ls : List LinkTuple) (s : Protocol H S)
      → IsElsewhere s
      → IsElsewhere (hear_links st x originator expiry lms ls s)
  unfolding hear_links
  hear_links-IsElsewhere lms [] s h = h
  hear_links-IsElsewhere lms (l ∷ ls) s h =
      let heard =
        main_address_of st s l.neighbor_iface_addr == originator && leb_ℤ x.now l.sym_time in
      hear_links-IsElsewhere lms ls
        (if heard then hear_messages st x originator expiry lms s else s)
        (if-cases (λ (u : Protocol H S). IsElsewhere u) heard _ _
          (hear_messages-IsElsewhere lms s h) h)

module _ {H S : Type 0} (st : OlsrState S) (laws : IsOlsrState st) (x : Context H) where
  -- If no 2-hop tuple names the node itself as the 2-hop neighbor, then none does after
  -- `PopulateTwoHopNeighborSet`, whatever the HELLO message holds.
  pub populate_two_hop_neighbor_set-IsElsewhere :
      (msg : OceanMessageHeader H) (hello : Hello) (s : Protocol H S)
      → IsElsewhere s
      → IsElsewhere (populate_two_hop_neighbor_set st x msg hello s)
  unfolding populate_two_hop_neighbor_set
  populate_two_hop_neighbor_set-IsElsewhere msg hello s h =
      hear_links-IsElsewhere st laws x msg.header.originator_address
        (x.now +ℤ get_message_v_time x msg) hello.link_messages s.links s h
