-- ===== src/Protocol/Tracked/Fired.antt =====
-- The timers keep the invariant: the event that fires is taken out, and the tuple that it examines
-- is erased or gets an event again.
use maritime_mesh_network.Base.{List, ◌∷◌}
use maritime_mesh_network.Repositories.Clock.{Time}
use maritime_mesh_network.Protocol.{Protocol, Event, link_tuple, mpr_sel_tuple}
use maritime_mesh_network.Protocol.Laws.{
  link_key, selector_key, duplicate_key, topology_key, association_key, duplicate_event,
  topology_event, association_event,
}
use maritime_mesh_network.Protocol.Timed.{IsTimed-more, Pending, IsTimed-drop}
use maritime_mesh_network.Protocol.Tracked.{IsTracked, IsSpent}

-- The state with other events.
abbrev pub with_events : {H S : Type 0} → List (Time × Event) → Protocol H S → Protocol H S
with_events es s = record s { events = es }

module _ {H S : Type 0} (s : Protocol H S) where
  -- Events may be exchanged for others that leave every event pending.
  pub IsTracked-more :
      (es es' : List (Time × Event))
      → ((e : Event) → Pending e es → Pending e es')
      → IsTracked (with_events es s)
      → IsTracked (with_events es' s)
  IsTracked-more es es' more h = record {
    links_timed = IsTimed-more link_key link_tuple s.links es es' more h.links_timed;
    selectors_timed =
        IsTimed-more selector_key mpr_sel_tuple s.mpr_selectors es es' more h.selectors_timed;
    topology_timed =
        IsTimed-more topology_key topology_event s.topology es es' more h.topology_timed;
    associations_timed =
        IsTimed-more association_key association_event s.association_set es es' more
          h.associations_timed;
    duplicates_timed =
        IsTimed-more duplicate_key duplicate_event s.duplicates es es' more h.duplicates_timed;
  }

  -- The first event is dropped, when it is spent.
  pub IsTracked-drop :
      (p : Time × Event) (es : List (Time × Event))
      → IsSpent s p.1
      → IsTracked (with_events (p ∷ es) s)
      → IsTracked (with_events es s)
  IsTracked-drop p es n h = record {
    links_timed = IsTimed-drop link_key link_tuple s.links es p n.links h.links_timed;
    selectors_timed =
        IsTimed-drop selector_key mpr_sel_tuple s.mpr_selectors es p n.selectors h.selectors_timed;
    topology_timed =
        IsTimed-drop topology_key topology_event s.topology es p n.topology h.topology_timed;
    associations_timed =
        IsTimed-drop association_key association_event s.association_set es p n.associations
          h.associations_timed;
    duplicates_timed =
        IsTimed-drop duplicate_key duplicate_event s.duplicates es p n.duplicates
          h.duplicates_timed;
  }
