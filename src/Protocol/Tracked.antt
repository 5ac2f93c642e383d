-- ===== src/Protocol/Tracked.antt =====
-- The invariant of the repositories and the scheduled events: every link, MPR selector, topology,
-- association and duplicate tuple has an event that will examine it.
pub mod Kept
pub mod Fired
pub mod Spent
pub mod Expired
pub mod Examined
use maritime_mesh_network.Base.{
  ℕ, ◌≡◌, ◌≢◌, refl, sym, ap, inr, Bool, true, false, Bool-cases, inl, Option, none, some, List, [],
  ◌∷◌, ◌++◌, arith, All, All_map, Distinct, remove_if,
}
use maritime_mesh_network.Repositories.{
  Ipv4Address, Ipv4Mask, LinkTuple, MprSelectorTuple, DuplicateTuple, TopologyTuple,
  AssociationTuple,
}
use maritime_mesh_network.Repositories.Clock.{Time}
use maritime_mesh_network.Repositories.Interface.{IsRepository}
use maritime_mesh_network.Protocol.{
  Protocol, OlsrState, Event, dup_tuple, link_tuple, mpr_sel_tuple, topology_tuple,
  association_tuple,
}
use maritime_mesh_network.Protocol.Laws.{
  link_key, selector_key, duplicate_key, topology_key, association_key, duplicate_event,
  topology_event, association_event,
}
use maritime_mesh_network.Protocol.Timed.{IsTimed, IsTimed-more, Pending}

-- The vectors of the repositories, and the events.
pub record AreTracked (links : List LinkTuple) (selectors : List MprSelectorTuple)
    (topology : List TopologyTuple) (associations : List AssociationTuple)
    (duplicates : List DuplicateTuple) (events : List (Time × Event)) : Type 0 where
  pub links_timed : IsTimed link_key link_tuple links events
  pub selectors_timed : IsTimed selector_key mpr_sel_tuple selectors events
  pub topology_timed : IsTimed topology_key topology_event topology events
  pub associations_timed : IsTimed association_key association_event associations events
  pub duplicates_timed : IsTimed duplicate_key duplicate_event duplicates events

abbrev pub IsTracked : {H S : Type 0} → Protocol H S → Type 0
IsTracked s = AreTracked s.links s.mpr_selectors s.topology s.association_set s.duplicates s.events

-- A property of the repositories that are tracked and of the events.
abbrev pub Aspect : Type 1
Aspect =
    List LinkTuple
    → List MprSelectorTuple
    → List TopologyTuple
    → List AssociationTuple
    → List DuplicateTuple
    → List (Time × Event)
    → Type 0

abbrev pub Holds : {H S : Type 0} → Aspect → Protocol H S → Type 0
Holds P s = P s.links s.mpr_selectors s.topology s.association_set s.duplicates s.events

-- The invariant with further events in front, which are about to be scheduled, and with the
-- duplicate tuples as they were.
abbrev pub Handling : List (Time × Event) → List DuplicateTuple → Aspect
Handling front dups l m t a d es = AreTracked l m t a d (front ++ es) × (d ≡ dups)

abbrev pub IsHandled :
    {H S : Type 0} → List (Time × Event) → List DuplicateTuple → Protocol H S → Type 0
IsHandled front dups s = Holds (Handling front dups) s

-- No tuple needs the event.
pub record IsSpent {H S : Type 0} (s : Protocol H S) (e : Event) : Type 0 where
  pub links : All (λ t. link_tuple (link_key t) ≢ e) s.links
  pub selectors : All (λ t. mpr_sel_tuple (selector_key t) ≢ e) s.mpr_selectors
  pub topology : All (λ t. topology_event (topology_key t) ≢ e) s.topology
  pub associations : All (λ t. association_event (association_key t) ≢ e) s.association_set
  pub duplicates : All (λ t. duplicate_event (duplicate_key t) ≢ e) s.duplicates

-- The keys can be read off the events.
pub link_inj : (k l : Ipv4Address) → link_tuple k ≡ link_tuple l → k ≡ l
link_inj k l e = cc

pub selector_inj : (k l : Ipv4Address) → mpr_sel_tuple k ≡ mpr_sel_tuple l → k ≡ l
selector_inj k l e = cc

pub topology_inj : (k l : Ipv4Address × Ipv4Address) → topology_event k ≡ topology_event l → k ≡ l
topology_inj k l e = ground arith

pub duplicate_inj : (k l : Ipv4Address × ℕ) → duplicate_event k ≡ duplicate_event l → k ≡ l
duplicate_inj k l e = ground arith

pub association_inj :
    (k l : Ipv4Address × Ipv4Address × Ipv4Mask) → association_event k ≡ association_event l → k ≡ l
association_inj k l e = ground arith

pub All-remove_if :
    {T : Type 0} (P : T → Type 0) (p : T → Bool) (v : List T) → All P v → All P (remove_if p v)
All-remove_if P p [] h = tt
All-remove_if P p (t ∷ v) h = elim (Bool-cases (p t)) [
  | inl e ↦ rw e (All-remove_if P p v h.1)
  | inr e ↦ rw e (h.0, All-remove_if P p v h.1)
]

-- Erasing every tuple that passes a test keeps a repository timed.
module _ {K T : Type 0} (key : T → K) (event : K → Event) where
  Distinct-remove_if : (p : T → Bool) (v : List T) → Distinct key v → Distinct key (remove_if p v)
  Distinct-remove_if p [] h = tt
  Distinct-remove_if p (t ∷ v) h = elim (Bool-cases (p t)) [
    | inl e ↦ rw e (Distinct-remove_if p v h.1)
    | inr e ↦ rw e (All-remove_if (λ y. ¬ (key y ≡ key t)) p v h.0, Distinct-remove_if p v h.1)
  ]

  pub IsTimed-remove_if :
      (p : T → Bool) (v : List T) (es : List (Time × Event))
      → IsTimed key event v es
      → IsTimed key event (remove_if p v) es
  IsTimed-remove_if p v es h = record {
    distinct = Distinct-remove_if p v h.distinct;
    pending = All-remove_if (λ t. Pending (event (key t)) es) p v h.pending;
  }

  -- One more event.
  pub IsTimed-schedule :
      (v : List T) (es : List (Time × Event)) (p : Time × Event)
      → IsTimed key event v es
      → IsTimed key event v (p ∷ es)
  IsTimed-schedule v es p h = IsTimed-more key event v es (p ∷ es) (λ e q. inr q) h

pub AreTracked-schedule :
    {links : List LinkTuple} {selectors : List MprSelectorTuple} {topology : List TopologyTuple}
    {associations : List AssociationTuple} {duplicates : List DuplicateTuple}
    {events : List (Time × Event)} (p : Time × Event)
    → AreTracked links selectors topology associations duplicates events
    → AreTracked links selectors topology associations duplicates (p ∷ events)
AreTracked-schedule {links} {selectors} {topology} {associations} {duplicates} {events} p h =
    record {
      links_timed = IsTimed-schedule link_key link_tuple links events p h.links_timed;
      selectors_timed =
          IsTimed-schedule selector_key mpr_sel_tuple selectors events p h.selectors_timed;
      topology_timed =
          IsTimed-schedule topology_key topology_event topology events p h.topology_timed;
      associations_timed =
          IsTimed-schedule association_key association_event associations events p
            h.associations_timed;
      duplicates_timed =
          IsTimed-schedule duplicate_key duplicate_event duplicates events p h.duplicates_timed;
    }
