-- ===== src/Protocol/Tracked/Examined.antt =====
-- The timers of the link, 2-hop neighbor and interface association tuples keep the invariant, and
-- so does every event that fires.
use maritime_mesh_network.Base.{◌==◌, refl, if◌then◌else◌, false, if-cases, List, [], ◌∷◌}
use maritime_mesh_network.Base.Int.{ltb_ℤ}
use maritime_mesh_network.Repositories.{Ipv4Address, LinkTuple}
use maritime_mesh_network.Repositories.Clock.{Time, min_time}
use maritime_mesh_network.Repositories.Interface.{found}
use maritime_mesh_network.Protocol.{
  Protocol, OlsrState, Context, Event, dup_tuple, link_tuple, nb2hop_tuple, mpr_sel_tuple,
  topology_tuple, iface_assoc_tuple, association_tuple, schedule, remove_two_hop_neighbor_tuple,
  remove_iface_assoc_tuple,
}
use maritime_mesh_network.Protocol.Links.{remove_link_tuple, neighbor_loss}
use maritime_mesh_network.Protocol.Timers.{
  lose_link, link_tuple_timer_expire, nb2hop_tuple_timer_expire, iface_assoc_tuple_timer_expire,
  run_event,
}
use maritime_mesh_network.Protocol.Laws.{IsOlsrState, link_key, selector_key}
use maritime_mesh_network.Protocol.Timed.{IsTimed-erase, found-none}
use maritime_mesh_network.Protocol.Tracked.{IsTracked, Handling, IsHandled, IsTimed-remove_if}
use maritime_mesh_network.Protocol.Tracked.Kept.{neighbor_loss-keeps}
use maritime_mesh_network.Protocol.Tracked.Fired.{with_events, IsTracked-drop}
use maritime_mesh_network.Protocol.Tracked.Spent.{link-IsSpent, nb2hop-IsSpent, iface_assoc-IsSpent}
use maritime_mesh_network.Protocol.Tracked.Expired.{
  timer-cases, again, topology_expire-IsTracked, selector_expire-IsTracked,
  duplicate_expire-IsTracked, association_expire-IsTracked,
}

module _ {H S : Type 0} (st : OlsrState S) (x : Context H) (laws : IsOlsrState st) (at : Time)
    (es : List (Time × Event)) where
  nb2hop_expire-IsTracked :
      (main addr : Ipv4Address) (s : Protocol H S)
      → IsTracked (with_events ((at, nb2hop_tuple main addr) ∷ es) s)
      → IsTracked (nb2hop_tuple_timer_expire st x main addr (with_events es s))
  unfolding nb2hop_tuple_timer_expire schedule remove_two_hop_neighbor_tuple
  nb2hop_expire-IsTracked main addr s h =
      let spent = IsTracked-drop s (at, nb2hop_tuple main addr) es (nb2hop-IsSpent s main addr) h in
      timer-cases (λ (u : Protocol H S). IsTracked u)
        (found st.two_hop (main, addr) s.two_hop_neighbors) (λ t. ltb_ℤ t.expiration_time x.now)
        (with_events es s) (λ t. remove_two_hop_neighbor_tuple st t (with_events es s))
        (λ t. schedule x.now t.expiration_time (nb2hop_tuple main addr) (with_events es s))
        (λ n. spent) (λ t f. spent) (λ t f. again st x laws at es _ (nb2hop_tuple main addr) s h)

  iface_assoc_expire-IsTracked :
      (addr : Ipv4Address) (s : Protocol H S)
      → IsTracked (with_events ((at, iface_assoc_tuple addr) ∷ es) s)
      → IsTracked (iface_assoc_tuple_timer_expire st x addr (with_events es s))
  unfolding iface_assoc_tuple_timer_expire schedule remove_iface_assoc_tuple
  iface_assoc_expire-IsTracked addr s h =
      let spent = IsTracked-drop s (at, iface_assoc_tuple addr) es (iface_assoc-IsSpent s addr) h in
      timer-cases (λ (u : Protocol H S). IsTracked u) (found st.iface_assoc addr s.iface_assocs)
        (λ t. ltb_ℤ t.time x.now) (with_events es s)
        (λ t. remove_iface_assoc_tuple st t (with_events es s))
        (λ t. schedule x.now t.time (iface_assoc_tuple addr) (with_events es s)) (λ n. spent)
        (λ t f. spent) (λ t f. again st x laws at es _ (iface_assoc_tuple addr) s h)

  -- The first event may still be missing.
  lose_link-IsHandled :
      (t : LinkTuple) (p : Time × Event) (s : Protocol H S)
      → IsHandled (p ∷ []) s.duplicates s
      → IsHandled (p ∷ []) s.duplicates (lose_link st x t s)
  unfolding lose_link
  lose_link-IsHandled t p s h =
      if-cases (λ (u : Protocol H S). IsHandled (p ∷ []) s.duplicates u)
        s.link_tuple_timer_first_time (record s { link_tuple_timer_first_time = false })
        (neighbor_loss st x t s) h
        (neighbor_loss-keeps st x (Handling (p ∷ []) s.duplicates) t s lost h)
    where
      lost :
          (a : Ipv4Address) (u : Protocol H S)
          → IsHandled (p ∷ []) s.duplicates u
          → IsHandled
              (p ∷ [])
              s.duplicates
              (record u { mpr_selectors = st.erase_mpr_selector_tuples a u.mpr_selectors })
      lost a u (k, same) = (
        record {
          links_timed = k.links_timed;
          selectors_timed = rw laws.selectors (
              IsTimed-remove_if selector_key mpr_sel_tuple (λ m. m.main_addr == a) u.mpr_selectors
                (p ∷ u.events) k.selectors_timed);
          topology_timed = k.topology_timed;
          associations_timed = k.associations_timed;
          duplicates_timed = k.duplicates_timed;
        },
        same,
      )

  link_expire-IsTracked :
      (addr : Ipv4Address) (s : Protocol H S)
      → IsTracked (with_events ((at, link_tuple addr) ∷ es) s)
      → IsTracked (link_tuple_timer_expire st x addr (with_events es s))
  unfolding link_tuple_timer_expire schedule remove_link_tuple
  link_expire-IsTracked addr s h =
      timer-cases (λ (u : Protocol H S). IsTracked u) (found st.link addr s.links)
        (λ t. ltb_ℤ t.time x.now) (with_events es s)
        (λ t. remove_link_tuple st x t (with_events es s))
        (λ t.
          if ltb_ℤ t.sym_time x.now
          then schedule x.now t.time (link_tuple addr) (lose_link st x t (with_events es s))
          else schedule x.now (min_time t.time t.sym_time) (link_tuple addr) (with_events es s))
        (λ n.
          IsTracked-drop s (at, link_tuple addr) es
            (link-IsSpent s addr (found-none link_key link_tuple st.link laws.link addr s.links n))
            h)
        (λ t f.
          let (kept, gone) =
            IsTimed-erase link_key link_tuple st.link laws.link addr t s.links _ f h.links_timed in
          let u : Protocol H S = record s { links = st.link.erase t s.links } in
          IsTracked-drop u (at, link_tuple addr) es (link-IsSpent u addr gone)
            (record {
              links_timed = kept;
              selectors_timed = h.selectors_timed;
              topology_timed = h.topology_timed;
              associations_timed = h.associations_timed;
              duplicates_timed = h.duplicates_timed;
            }))
        (λ t f.
          if-cases (λ (u : Protocol H S). IsTracked u) (ltb_ℤ t.sym_time x.now)
            (schedule x.now t.time (link_tuple addr) (lose_link st x t (with_events es s)))
            (schedule x.now (min_time t.time t.sym_time) (link_tuple addr) (with_events es s))
            ((lose_link-IsHandled t _ (with_events es s)
              (again st x laws at es _ (link_tuple addr) s h, refl)).0)
            (again st x laws at es _ (link_tuple addr) s h))

  -- Whichever event fires.
  pub run_event-IsTracked :
      (e : Event) (s : Protocol H S)
      → IsTracked (with_events ((at, e) ∷ es) s)
      → IsTracked (run_event st x e (with_events es s))
  unfolding run_event
  run_event-IsTracked (dup_tuple address number) s h =
      duplicate_expire-IsTracked st x laws at es address number s h
  run_event-IsTracked (link_tuple addr) s h = link_expire-IsTracked addr s h
  run_event-IsTracked (nb2hop_tuple main addr) s h = nb2hop_expire-IsTracked main addr s h
  run_event-IsTracked (mpr_sel_tuple addr) s h = selector_expire-IsTracked st x laws at es addr s h
  run_event-IsTracked (topology_tuple dest last) s h =
      topology_expire-IsTracked st x laws at es dest last s h
  run_event-IsTracked (iface_assoc_tuple addr) s h = iface_assoc_expire-IsTracked addr s h
  run_event-IsTracked (association_tuple gateway network mask) s h =
      association_expire-IsTracked st x laws at es gateway network mask s h
