-- ===== src/System/Unexpired.antt =====
-- The timers never act early: what has not expired stays.
use maritime_mesh_network.Base.{
  ℕ, ◌≡◌, refl, subst, inl, inr, Bool, true, false, Option, none, some, List, arith, In, if-cases,
  if◌then◌else◌, Bool-cases, Distinct,
}
use maritime_mesh_network.Base.Int.{◌≤ℤ◌, ltb_ℤ}
use maritime_mesh_network.Repositories.{
  Ipv4Address, Ipv4Mask, LinkTuple, DuplicateTuple, TopologyTuple, AssociationTuple,
}
use maritime_mesh_network.Repositories.Clock.{Time, min_time}
use maritime_mesh_network.Repositories.Interface.{Repository, IsRepository, found}
use maritime_mesh_network.Protocol.{
  Protocol, OlsrState, Context, Event, dup_tuple, link_tuple, nb2hop_tuple, mpr_sel_tuple,
  topology_tuple, iface_assoc_tuple, association_tuple, schedule, remove_duplicate_tuple,
  remove_two_hop_neighbor_tuple, remove_mpr_selector_tuple, remove_topology_tuple,
  remove_iface_assoc_tuple, remove_association_tuple, increment_ansn,
}
use maritime_mesh_network.Protocol.Links.{remove_link_tuple, neighbor_loss}
use maritime_mesh_network.Protocol.Timers.{
  dup_tuple_timer_expire, lose_link, link_tuple_timer_expire, nb2hop_tuple_timer_expire,
  mpr_sel_tuple_timer_expire, topology_tuple_timer_expire, iface_assoc_tuple_timer_expire,
  association_tuple_timer_expire, run_event,
}
use maritime_mesh_network.Protocol.Laws.{
  IsOlsrState, duplicate_key, topology_key, association_key, duplicate_event, topology_event,
  association_event,
}
use maritime_mesh_network.Protocol.Timed.{In-erase}
use maritime_mesh_network.Protocol.Tracked.{IsTracked}
use maritime_mesh_network.Protocol.Tracked.Kept.{neighbor_loss-keeps}

-- Every tuple of `v` that has not expired at `now` is in `w`.
abbrev pub Outlives : {T : Type 0} → (T → Time) → Time → List T → List T → Type 0
Outlives {T} expiry now v w = (t : T) → In t v → now ≤ℤ expiry t → In t w

pub record Unexpired {H S : Type 0} (now : Time) (s : Protocol H S) (topology : List TopologyTuple)
    (associations : List AssociationTuple) (duplicates : List DuplicateTuple) : Type 0 where
  pub topology_stays : Outlives (λ t. t.expiration_time) now s.topology topology
  pub associations_stay : Outlives (λ t. t.expiration_time) now s.association_set associations
  pub duplicates_stay : Outlives (λ t. t.expiration_time) now s.duplicates duplicates

-- The unexpired topology, association and duplicate tuples of `s` are in `t`.
abbrev pub KeepsUnexpired : {H S : Type 0} → Time → Protocol H S → Protocol H S → Type 0
KeepsUnexpired now s t = Unexpired now s t.topology t.association_set t.duplicates

-- The cases of a timer, with the test.
timer-cases :
    {T U : Type 0} (P : U → Type 0) (o : Option T) (test : T → Bool) (s : U) (f g : T → U)
    → P s
    → ((t : T) → o ≡ some t → test t ≡ true → P (f t))
    → ((t : T) → o ≡ some t → P (g t))
    → P (elim o [ none ↦ s | some t ↦ if test t then f t else g t ])
timer-cases P none test s f g a b c = a
timer-cases P (some t) test s f g a b c = elim (Bool-cases (test t)) [
  | inl e ↦ rw e (b t refl e)
  | inr e ↦ rw e (c t refl)
]

not_both : (a b : Time) → ltb_ℤ a b ≡ true → ¬ (b ≤ℤ a)
not_both a b e h = ground arith

-- Erasing a tuple that has expired.
Outlives-erase :
    {K T : Type 0} (key : T → K) (event : K → Event) (r : Repository K T)
    (laws : IsRepository key r) (expiry : T → Time) (now : Time) (k : K) (t : T) (v : List T)
    → Distinct key v
    → found r k v ≡ some t
    → ltb_ℤ (expiry t) now ≡ true
    → Outlives expiry now v (r.erase t v)
Outlives-erase key event r laws expiry now k t v d f e u i fresh =
    elim (In-erase key event r laws k t u v d f i) [
      | inl q ↦ absurd (not_both (expiry t) now e (subst (λ w. now ≤ℤ expiry w) q fresh))
      | inr o ↦ o
    ]

module _ {H S : Type 0} (st : OlsrState S) (laws : IsOlsrState st) (x : Context H)
    (s : Protocol H S) (h : IsTracked s) where
  abbrev Keeps : Protocol H S → Type 0
  Keeps u = KeepsUnexpired x.now s u

  same : Keeps s
  same = record {
    topology_stays = λ t i e. i;
    associations_stay = λ t i e. i;
    duplicates_stay = λ t i e. i;
  }

  topology_keeps : (dest last : Ipv4Address) → Keeps (topology_tuple_timer_expire st x dest last s)
  unfolding topology_tuple_timer_expire schedule remove_topology_tuple
  topology_keeps dest last =
      timer-cases (λ (u : Protocol H S). Keeps u) (found st.topology (dest, last) s.topology)
        (λ t. ltb_ℤ t.expiration_time x.now) s (λ t. remove_topology_tuple st t s)
        (λ t. schedule x.now t.expiration_time (topology_tuple t.dest_addr t.last_addr) s) same
        (λ t f e. record {
          topology_stays =
              Outlives-erase topology_key topology_event st.topology laws.topology
                (λ u. u.expiration_time) x.now (dest, last) t s.topology h.topology_timed.distinct f
                e;
          associations_stay = λ u i n. i;
          duplicates_stay = λ u i n. i;
        })
        (λ t f. same)

  association_keeps :
      (gateway network : Ipv4Address) (mask : Ipv4Mask)
      → Keeps (association_tuple_timer_expire st x gateway network mask s)
  unfolding association_tuple_timer_expire schedule remove_association_tuple
  association_keeps gateway network mask =
      timer-cases (λ (u : Protocol H S). Keeps u)
        (found st.association (gateway, network, mask) s.association_set)
        (λ t. ltb_ℤ t.expiration_time x.now) s (λ t. remove_association_tuple st t s)
        (λ t. schedule x.now t.expiration_time (association_tuple gateway network mask) s) same
        (λ t f e. record {
          topology_stays = λ u i n. i;
          associations_stay =
              Outlives-erase association_key association_event st.association laws.association
                (λ u. u.expiration_time) x.now (gateway, network, mask) t s.association_set
                h.associations_timed.distinct f e;
          duplicates_stay = λ u i n. i;
        })
        (λ t f. same)

  duplicate_keeps :
      (address : Ipv4Address) (number : ℕ) → Keeps (dup_tuple_timer_expire st x address number s)
  unfolding dup_tuple_timer_expire schedule remove_duplicate_tuple
  duplicate_keeps address number =
      timer-cases (λ (u : Protocol H S). Keeps u)
        (found st.duplicate (address, number) s.duplicates) (λ t. ltb_ℤ t.expiration_time x.now) s
        (λ t. remove_duplicate_tuple st t s)
        (λ t. schedule x.now t.expiration_time (dup_tuple address number) s) same
        (λ t f e. record {
          topology_stays = λ u i n. i;
          associations_stay = λ u i n. i;
          duplicates_stay =
              Outlives-erase duplicate_key duplicate_event st.duplicate laws.duplicate
                (λ u. u.expiration_time) x.now (address, number) t s.duplicates
                h.duplicates_timed.distinct f e;
        })
        (λ t f. same)

  selector_keeps : (main : Ipv4Address) → Keeps (mpr_sel_tuple_timer_expire st x main s)
  unfolding mpr_sel_tuple_timer_expire schedule remove_mpr_selector_tuple increment_ansn
  selector_keeps main =
      timer-cases (λ (u : Protocol H S). Keeps u) (found st.mpr_selector main s.mpr_selectors)
        (λ t. ltb_ℤ t.expiration_time x.now) s (λ t. remove_mpr_selector_tuple st t s)
        (λ t. schedule x.now t.expiration_time (mpr_sel_tuple main) s) same (λ t f e. same)
        (λ t f. same)

  nb2hop_keeps : (main addr : Ipv4Address) → Keeps (nb2hop_tuple_timer_expire st x main addr s)
  unfolding nb2hop_tuple_timer_expire schedule remove_two_hop_neighbor_tuple
  nb2hop_keeps main addr =
      timer-cases (λ (u : Protocol H S). Keeps u)
        (found st.two_hop (main, addr) s.two_hop_neighbors) (λ t. ltb_ℤ t.expiration_time x.now) s
        (λ t. remove_two_hop_neighbor_tuple st t s)
        (λ t. schedule x.now t.expiration_time (nb2hop_tuple main addr) s) same (λ t f e. same)
        (λ t f. same)

  iface_assoc_keeps : (addr : Ipv4Address) → Keeps (iface_assoc_tuple_timer_expire st x addr s)
  unfolding iface_assoc_tuple_timer_expire schedule remove_iface_assoc_tuple
  iface_assoc_keeps addr =
      timer-cases (λ (u : Protocol H S). Keeps u) (found st.iface_assoc addr s.iface_assocs)
        (λ t. ltb_ℤ t.time x.now) s (λ t. remove_iface_assoc_tuple st t s)
        (λ t. schedule x.now t.time (iface_assoc_tuple addr) s) same (λ t f e. same) (λ t f. same)

  lose_link-keeps : (t : LinkTuple) → Keeps (lose_link st x t s)
  unfolding lose_link
  lose_link-keeps t =
      if-cases (λ (u : Protocol H S). Keeps u) s.link_tuple_timer_first_time
        (record s { link_tuple_timer_first_time = false }) (neighbor_loss st x t s) same
        (neighbor_loss-keeps st x (λ l m topology a d es. Unexpired x.now s topology a d) t s
          (λ a u k. k) same)

  link_keeps : (addr : Ipv4Address) → Keeps (link_tuple_timer_expire st x addr s)
  unfolding link_tuple_timer_expire schedule remove_link_tuple
  link_keeps addr =
      timer-cases (λ (u : Protocol H S). Keeps u) (found st.link addr s.links)
        (λ t. ltb_ℤ t.time x.now) s (λ t. remove_link_tuple st x t s)
        (λ t.
          if ltb_ℤ t.sym_time x.now
          then schedule x.now t.time (link_tuple addr) (lose_link st x t s)
          else schedule x.now (min_time t.time t.sym_time) (link_tuple addr) s)
        same (λ t f e. same)
        (λ t f.
          if-cases (λ (u : Protocol H S). Keeps u) (ltb_ℤ t.sym_time x.now)
            (schedule x.now t.time (link_tuple addr) (lose_link st x t s))
            (schedule x.now (min_time t.time t.sym_time) (link_tuple addr) s) (lose_link-keeps t)
            same)

  -- Whichever event fires, and whenever, in a state that keeps the invariant of the events, every
  -- topology, association and duplicate tuple that has not expired by then is still there after.
  pub run_event-KeepsUnexpired : (e : Event) → KeepsUnexpired x.now s (run_event st x e s)
  unfolding run_event
  run_event-KeepsUnexpired (dup_tuple address number) = duplicate_keeps address number
  run_event-KeepsUnexpired (link_tuple addr) = link_keeps addr
  run_event-KeepsUnexpired (nb2hop_tuple main addr) = nb2hop_keeps main addr
  run_event-KeepsUnexpired (mpr_sel_tuple addr) = selector_keeps addr
  run_event-KeepsUnexpired (topology_tuple dest last) = topology_keeps dest last
  run_event-KeepsUnexpired (iface_assoc_tuple addr) = iface_assoc_keeps addr
  run_event-KeepsUnexpired (association_tuple gateway network mask) =
      association_keeps gateway network mask
