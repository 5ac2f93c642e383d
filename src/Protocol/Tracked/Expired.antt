-- ===== src/Protocol/Tracked/Expired.antt =====
-- The timers of the topology, MPR selector, duplicate and association tuples keep the invariant.
-- The event that fires stands first, and is taken out: the tuple that it examines is gone, or is
-- erased, or gets its event again.
use maritime_mesh_network.Base.{
  ℕ, ◌≡◌, refl, subst, if◌then◌else◌, sym, inl, inr, Bool, Bool-cases, Option, none, some, List,
  ◌∷◌,
}
use maritime_mesh_network.Base.Int.{ltb_ℤ, ◌+ℤ◌}
use maritime_mesh_network.Repositories.{Ipv4Address, Ipv4Mask}
use maritime_mesh_network.Repositories.Clock.{Time, delay}
use maritime_mesh_network.Repositories.Interface.{found}
use maritime_mesh_network.Protocol.{
  Protocol, OlsrState, Context, Event, dup_tuple, mpr_sel_tuple, topology_tuple, association_tuple,
  schedule, remove_duplicate_tuple, remove_mpr_selector_tuple, remove_topology_tuple,
  remove_association_tuple, increment_ansn,
}
use maritime_mesh_network.Protocol.Timers.{
  dup_tuple_timer_expire, mpr_sel_tuple_timer_expire, topology_tuple_timer_expire,
  association_tuple_timer_expire,
}
use maritime_mesh_network.Protocol.Laws.{
  IsOlsrState, selector_key, duplicate_key, topology_key, association_key, duplicate_event,
  topology_event, association_event,
}
use maritime_mesh_network.Protocol.Timed.{IsTimed-erase, found-none, found-some}
use maritime_mesh_network.Protocol.Tracked.{IsTracked}
use maritime_mesh_network.Protocol.Tracked.Fired.{with_events, IsTracked-more, IsTracked-drop}
use maritime_mesh_network.Protocol.Tracked.Spent.{
  selector-IsSpent, topology-IsSpent, association-IsSpent, duplicate-IsSpent,
}

-- The cases of a timer: no tuple, a tuple that has expired, and one that has not.
pub timer-cases :
    {T U : Type 0} (P : U → Type 0) (o : Option T) (test : T → Bool) (s : U) (f g : T → U)
    → (o ≡ none → P s)
    → ((t : T) → o ≡ some t → P (f t))
    → ((t : T) → o ≡ some t → P (g t))
    → P (elim o [ none ↦ s | some t ↦ if test t then f t else g t ])
timer-cases P none test s f g a b c = a refl
timer-cases P (some t) test s f g a b c = elim (Bool-cases (test t)) [
  | inl e ↦ rw e (b t refl)
  | inr e ↦ rw e (c t refl)
]

module _ {H S : Type 0} (st : OlsrState S) (x : Context H) (laws : IsOlsrState st) (at : Time)
    (es : List (Time × Event)) where
  pub again :
      (later : Time) (e : Event) (s : Protocol H S)
      → IsTracked (with_events ((at, e) ∷ es) s)
      → IsTracked (with_events ((later, e) ∷ es) s)
  again later e s h = IsTracked-more s ((at, e) ∷ es) ((later, e) ∷ es) (λ f p. p) h

  pub topology_expire-IsTracked :
      (dest last : Ipv4Address) (s : Protocol H S)
      → IsTracked (with_events ((at, topology_tuple dest last) ∷ es) s)
      → IsTracked (topology_tuple_timer_expire st x dest last (with_events es s))
  unfolding topology_tuple_timer_expire schedule remove_topology_tuple
  topology_expire-IsTracked dest last s h =
      timer-cases (λ (u : Protocol H S). IsTracked u) (found st.topology (dest, last) s.topology)
        (λ t. ltb_ℤ t.expiration_time x.now) (with_events es s)
        (λ t. remove_topology_tuple st t (with_events es s))
        (λ t.
          schedule x.now t.expiration_time (topology_tuple t.dest_addr t.last_addr)
            (with_events es s))
        (λ n.
          IsTracked-drop s (at, topology_tuple dest last) es
            (topology-IsSpent s (dest, last)
              (found-none topology_key topology_event st.topology laws.topology (dest, last)
                s.topology n))
            h)
        (λ t f.
          let (kept, gone) =
            IsTimed-erase topology_key topology_event st.topology laws.topology (dest, last) t
              s.topology _ f h.topology_timed in
          let u : Protocol H S = record s { topology = st.topology.erase t s.topology } in
          IsTracked-drop u (at, topology_tuple dest last) es (topology-IsSpent u (dest, last) gone)
            (record {
              links_timed = h.links_timed;
              selectors_timed = h.selectors_timed;
              topology_timed = kept;
              associations_timed = h.associations_timed;
              duplicates_timed = h.duplicates_timed;
            }))
        (λ t f.
          subst
            (λ k.
              IsTracked
                (with_events ((x.now +ℤ delay x.now t.expiration_time, topology_event k) ∷ es) s))
            (sym (
              found-some topology_key topology_event st.topology laws.topology (dest, last)
                s.topology t f))
            (again _ (topology_tuple dest last) s h))

  pub selector_expire-IsTracked :
      (main : Ipv4Address) (s : Protocol H S)
      → IsTracked (with_events ((at, mpr_sel_tuple main) ∷ es) s)
      → IsTracked (mpr_sel_tuple_timer_expire st x main (with_events es s))
  unfolding mpr_sel_tuple_timer_expire schedule remove_mpr_selector_tuple increment_ansn
  selector_expire-IsTracked main s h =
      timer-cases (λ (u : Protocol H S). IsTracked u) (found st.mpr_selector main s.mpr_selectors)
        (λ t. ltb_ℤ t.expiration_time x.now) (with_events es s)
        (λ t. remove_mpr_selector_tuple st t (with_events es s))
        (λ t. schedule x.now t.expiration_time (mpr_sel_tuple main) (with_events es s))
        (λ n.
          IsTracked-drop s (at, mpr_sel_tuple main) es
            (selector-IsSpent s main (
              found-none selector_key mpr_sel_tuple st.mpr_selector laws.mpr_selector main
                s.mpr_selectors n))
            h)
        (λ t f.
          let (kept, gone) =
            IsTimed-erase selector_key mpr_sel_tuple st.mpr_selector laws.mpr_selector main t
              s.mpr_selectors _ f h.selectors_timed in
          let u : Protocol H S = record s {
            mpr_selectors = st.mpr_selector.erase t s.mpr_selectors;
          } in
          IsTracked-drop u (at, mpr_sel_tuple main) es (selector-IsSpent u main gone)
            (record {
              links_timed = h.links_timed;
              selectors_timed = kept;
              topology_timed = h.topology_timed;
              associations_timed = h.associations_timed;
              duplicates_timed = h.duplicates_timed;
            }))
        (λ t f. again _ (mpr_sel_tuple main) s h)

  pub duplicate_expire-IsTracked :
      (address : Ipv4Address) (number : ℕ) (s : Protocol H S)
      → IsTracked (with_events ((at, dup_tuple address number) ∷ es) s)
      → IsTracked (dup_tuple_timer_expire st x address number (with_events es s))
  unfolding dup_tuple_timer_expire schedule remove_duplicate_tuple
  duplicate_expire-IsTracked address number s h =
      timer-cases (λ (u : Protocol H S). IsTracked u)
        (found st.duplicate (address, number) s.duplicates) (λ t. ltb_ℤ t.expiration_time x.now)
        (with_events es s) (λ t. remove_duplicate_tuple st t (with_events es s))
        (λ t. schedule x.now t.expiration_time (dup_tuple address number) (with_events es s))
        (λ n.
          IsTracked-drop s (at, dup_tuple address number) es
            (duplicate-IsSpent s (address, number)
              (found-none duplicate_key duplicate_event st.duplicate laws.duplicate
                (address, number) s.duplicates n))
            h)
        (λ t f.
          let (kept, gone) =
            IsTimed-erase duplicate_key duplicate_event st.duplicate laws.duplicate
              (address, number) t s.duplicates _ f h.duplicates_timed in
          let u : Protocol H S = record s { duplicates = st.duplicate.erase t s.duplicates } in
          IsTracked-drop u (at, dup_tuple address number) es
            (duplicate-IsSpent u (address, number) gone)
            (record {
              links_timed = h.links_timed;
              selectors_timed = h.selectors_timed;
              topology_timed = h.topology_timed;
              associations_timed = h.associations_timed;
              duplicates_timed = kept;
            }))
        (λ t f. again _ (dup_tuple address number) s h)

  pub association_expire-IsTracked :
      (gateway network : Ipv4Address) (mask : Ipv4Mask) (s : Protocol H S)
      → IsTracked (with_events ((at, association_tuple gateway network mask) ∷ es) s)
      → IsTracked (association_tuple_timer_expire st x gateway network mask (with_events es s))
  unfolding association_tuple_timer_expire schedule remove_association_tuple
  association_expire-IsTracked gateway network mask s h =
      timer-cases (λ (u : Protocol H S). IsTracked u)
        (found st.association (gateway, network, mask) s.association_set)
        (λ t. ltb_ℤ t.expiration_time x.now) (with_events es s)
        (λ t. remove_association_tuple st t (with_events es s))
        (λ t.
          schedule x.now t.expiration_time (association_tuple gateway network mask)
            (with_events es s))
        (λ n.
          IsTracked-drop s (at, association_tuple gateway network mask) es
            (association-IsSpent s (gateway, network, mask)
              (found-none association_key association_event st.association laws.association
                (gateway, network, mask) s.association_set n))
            h)
        (λ t f.
          let (kept, gone) =
            IsTimed-erase association_key association_event st.association laws.association
              (gateway, network, mask) t s.association_set _ f h.associations_timed in
          let u : Protocol H S = record s {
            association_set = st.association.erase t s.association_set;
          } in
          IsTracked-drop u (at, association_tuple gateway network mask) es
            (association-IsSpent u (gateway, network, mask) gone)
            (record {
              links_timed = h.links_timed;
              selectors_timed = h.selectors_timed;
              topology_timed = h.topology_timed;
              associations_timed = kept;
              duplicates_timed = h.duplicates_timed;
            }))
        (λ t f. again _ (association_tuple gateway network mask) s h)
