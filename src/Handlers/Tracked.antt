-- ===== src/Handlers/Tracked.antt =====
-- The handlers of TC, HNA and MID messages keep the invariant of `Protocol.Tracked`, and leave the
-- duplicate tuples as they are.
pub mod Hellos
pub mod Populated
pub mod Received
use maritime_mesh_network.Base.{
  ℕ, ◌≡◌, refl, inl, inr, Bool, true, false, if◌then◌else◌, Option, none, some, List, [], ◌∷◌,
  arith, modify, map, any, if-cases, elim-cases,
}
use maritime_mesh_network.Base.Int.{◌+ℤ◌}
use maritime_mesh_network.Repositories.{
  Ipv4Address, IfaceAssocTuple, DuplicateTuple, TopologyTuple, AssociationTuple,
}
use maritime_mesh_network.Repositories.Clock.{Time}
use maritime_mesh_network.Wire.Body.{Tc, Hna, HnaAssociation, Mid}
use maritime_mesh_network.Wire.Message.{OceanMessageHeader}
use maritime_mesh_network.Protocol.{
  Protocol, OlsrState, Context, Event, topology_tuple, association_tuple, iface_assoc_tuple,
  schedule, add_topology_tuple, add_association_tuple, add_iface_assoc_tuple,
}
use maritime_mesh_network.Protocol.Laws.{
  IsOlsrState, link_key, selector_key, duplicate_key, topology_key, association_key,
  duplicate_event, topology_event, association_event, is_older,
}
use maritime_mesh_network.Protocol.Links.{routing_table_computation}
use maritime_mesh_network.Protocol.Timed.{IsTimed, IsTimed-modify, IsTimed-insert}
use maritime_mesh_network.Protocol.Tracked.{
  IsTracked, IsHandled, IsTimed-remove_if, AreTracked-schedule,
}
use maritime_mesh_network.Handlers.{get_message_v_time}
use maritime_mesh_network.Handlers.Tc.{advertise, advertise_all, process_tc}
use maritime_mesh_network.Handlers.Hna.{associate, associate_all, process_hna}
use maritime_mesh_network.Handlers.Mid.{
  is_interface_of, associate_interface, associate_interfaces, rename_neighbors, process_mid,
}

module _ {H S : Type 0} (st : OlsrState S) (x : Context H) (laws : IsOlsrState st)
    (dups : List DuplicateTuple) where
  abbrev Handled : Protocol H S → Type 0
  Handled s = IsHandled [] dups s

  pub advertise-IsHandled :
      (originator : Ipv4Address) (ansn : ℕ) (expiry : Time) (addr : Ipv4Address) (s : Protocol H S)
      → Handled s
      → Handled (advertise st x originator ansn expiry addr s)
  unfolding advertise schedule add_topology_tuple
  advertise-IsHandled originator ansn expiry addr s (h, same) =
      elim-cases (λ (u : Protocol H S). Handled u) (st.topology.find (addr, originator) s.topology)
        _ _
        (λ n.
          let m = AreTracked-schedule _ h in
          (
            record {
              links_timed = m.links_timed;
              selectors_timed = m.selectors_timed;
              topology_timed =
                  IsTimed-insert topology_key topology_event st.topology laws.topology _ _
                    s.topology s.events n h.topology_timed;
              associations_timed = m.associations_timed;
              duplicates_timed = m.duplicates_timed;
            },
            same,
          ))
        (λ i e. (
          record {
            links_timed = h.links_timed;
            selectors_timed = h.selectors_timed;
            topology_timed =
                IsTimed-modify topology_key topology_event i _ s.topology s.events (λ t e. refl)
                  h.topology_timed;
            associations_timed = h.associations_timed;
            duplicates_timed = h.duplicates_timed;
          },
          same,
        ))

  advertise_all-IsHandled :
      (originator : Ipv4Address) (ansn : ℕ) (expiry : Time) (addrs : List Ipv4Address)
      (s : Protocol H S)
      → Handled s
      → Handled (advertise_all st x originator ansn expiry addrs s)
  unfolding advertise_all
  advertise_all-IsHandled originator ansn expiry [] s h = h
  advertise_all-IsHandled originator ansn expiry (addr ∷ addrs) s h =
      advertise_all-IsHandled originator ansn expiry addrs _
        (advertise-IsHandled originator ansn expiry addr s h)

  pub process_tc-IsHandled :
      (msg : OceanMessageHeader H) (tc : Tc) (sender : Ipv4Address) (s : Protocol H S)
      → Handled s
      → Handled (process_tc st x msg tc sender s)
  unfolding process_tc
  process_tc-IsHandled msg tc sender s (h, same) =
      elim-cases (λ (u : Protocol H S). Handled u) (st.find_sym_link_tuple sender x.now s.links) _ _
        (λ n. (h, same))
        (λ l e.
          elim-cases (λ (u : Protocol H S). Handled u)
            (st.find_newer_topology_tuple msg.header.originator_address tc.ansn s.topology) _ _
            (λ n.
              advertise_all-IsHandled msg.header.originator_address tc.ansn _ tc.neighbor_addresses
                _
                (
                  record {
                    links_timed = h.links_timed;
                    selectors_timed = h.selectors_timed;
                    topology_timed = rw laws.older (
                        IsTimed-remove_if topology_key topology_event
                          (is_older msg.header.originator_address tc.ansn) s.topology s.events
                          h.topology_timed);
                    associations_timed = h.associations_timed;
                    duplicates_timed = h.duplicates_timed;
                  },
                  same,
                ))
            (λ i newer. (h, same)))

  associate-IsHandled :
      (originator : Ipv4Address) (expiry : Time) (a : HnaAssociation) (s : Protocol H S)
      → Handled s
      → Handled (associate st x originator expiry a s)
  unfolding associate schedule add_association_tuple
  associate-IsHandled originator expiry a s (h, same) =
      elim-cases (λ (u : Protocol H S). Handled u)
        (st.association.find (originator, a.address, a.mask) s.association_set) _ _
        (λ n.
          let m = AreTracked-schedule _ h in
          (
            record {
              links_timed = m.links_timed;
              selectors_timed = m.selectors_timed;
              topology_timed = m.topology_timed;
              associations_timed =
                  IsTimed-insert association_key association_event st.association laws.association _
                    _ s.association_set s.events n h.associations_timed;
              duplicates_timed = m.duplicates_timed;
            },
            same,
          ))
        (λ i e. (
          record {
            links_timed = h.links_timed;
            selectors_timed = h.selectors_timed;
            topology_timed = h.topology_timed;
            associations_timed =
                IsTimed-modify association_key association_event i _ s.association_set s.events
                  (λ t e. refl) h.associations_timed;
            duplicates_timed = h.duplicates_timed;
          },
          same,
        ))

  associate_all-IsHandled :
      (originator : Ipv4Address) (expiry : Time) (rest : List HnaAssociation) (s : Protocol H S)
      → Handled s
      → Handled (associate_all st x originator expiry rest s)
  unfolding associate_all
  associate_all-IsHandled originator expiry [] s h = h
  associate_all-IsHandled originator expiry (a ∷ rest) s h =
      associate_all-IsHandled originator expiry rest _ (associate-IsHandled originator expiry a s h)

  pub process_hna-IsHandled :
      (msg : OceanMessageHeader H) (hna : Hna) (sender : Ipv4Address) (s : Protocol H S)
      → Handled s
      → Handled (process_hna st x msg hna sender s)
  unfolding process_hna
  process_hna-IsHandled msg hna sender s h =
      elim-cases (λ (u : Protocol H S). Handled u) (st.find_sym_link_tuple sender x.now s.links) _ _
        (λ n. h) (λ l e. associate_all-IsHandled _ _ hna.associations s h)

  -- The interface associations have events of another kind, which do not matter here.
  associate_interfaces-IsHandled :
      (originator : Ipv4Address) (expiry : Time) (addrs : List Ipv4Address) (s : Protocol H S)
      → Handled s
      → Handled (associate_interfaces st x originator expiry addrs s)
  unfolding associate_interfaces associate_interface schedule add_iface_assoc_tuple
  associate_interfaces-IsHandled originator expiry [] s h = h
  associate_interfaces-IsHandled originator expiry (addr ∷ addrs) s (h, same) =
      associate_interfaces-IsHandled originator expiry addrs _ (
        if-cases (λ (u : Protocol H S). Handled u)
          (any (is_interface_of originator addr) s.iface_assocs) _ _ (h, same)
          (AreTracked-schedule _ h, same))

  pub process_mid-IsHandled :
      (msg : OceanMessageHeader H) (mid : Mid) (sender : Ipv4Address) (s : Protocol H S)
      → Handled s
      → Handled (process_mid st x msg mid sender s)
  unfolding process_mid rename_neighbors
  process_mid-IsHandled msg mid sender s h =
      elim-cases (λ (u : Protocol H S). Handled u) (st.find_sym_link_tuple sender x.now s.links) _ _
        (λ n. h) (λ l e. associate_interfaces-IsHandled _ _ mid.interface_addresses s h)
