-- ===== src/System/Expiry.antt =====
-- The timers act in the end: an event that finds its tuple unexpired schedules one that erases it,
-- unless the tuple is renewed in between.
use maritime_mesh_network.Base.{
  ◌≡◌, ◌≢◌, ap, inl, inr, true, false, some, ◌∷◌, arith, All, Bool-cases,
}
use maritime_mesh_network.Base.Int.{pos, ◌+ℤ◌, ◌-ℤ◌, ltb_ℤ, +ℤ_parts, -ℤ_parts}
use maritime_mesh_network.Repositories.{Ipv4Address, TopologyTuple}
use maritime_mesh_network.Repositories.Clock.{Time, delay}
use maritime_mesh_network.Repositories.Interface.{found}
use maritime_mesh_network.Protocol.{
  Protocol, OlsrState, Context, topology_tuple, schedule, remove_topology_tuple,
}
use maritime_mesh_network.Protocol.Timers.{topology_tuple_timer_expire}
use maritime_mesh_network.Protocol.Laws.{IsOlsrState, topology_key, topology_event}
use maritime_mesh_network.Protocol.Timed.{IsTimed-erase, found-some}
use maritime_mesh_network.Protocol.Tracked.{IsTracked}

-- The macro DELAY makes an event fire after the time that it was asked for.
delay_passes : (now t : Time) → ltb_ℤ t (now +ℤ delay now t) ≡ true
unfolding delay
delay_passes now t = elim (Bool-cases (ltb_ℤ t now)) [
  | inl e ↦ ground (arith, +ℤ_parts now (pos 1000))
  | inr e ↦
      ground
        (arith, +ℤ_parts now (t -ℤ now +ℤ pos 1000), +ℤ_parts (t -ℤ now) (pos 1000), -ℤ_parts t now)
]

module _ {H S : Type 0} (st : OlsrState S) (laws : IsOlsrState st) where
  -- No tuple has the key after the event has fired at a time after the expiration.
  topology_erased :
      (y : Context H) (dest last : Ipv4Address) (t : TopologyTuple) (u : Protocol H S)
      → IsTracked u
      → found st.topology (dest, last) u.topology ≡ some t
      → ltb_ℤ t.expiration_time y.now ≡ true
      → All
          (λ w. topology_key w ≢ (dest, last))
          (topology_tuple_timer_expire st y dest last u).topology
  unfolding topology_tuple_timer_expire remove_topology_tuple
  topology_erased y dest last t u h f e =
      rw (f, e, topology_tuple_timer_expire)
        ((IsTimed-erase topology_key topology_event st.topology laws.topology (dest, last) t
          u.topology u.events f h.topology_timed).1)

  -- The event of a topology tuple fires before the tuple has expired, and a next event for the same
  -- pair of addresses is scheduled. When that one fires, in a state that keeps the invariant of the
  -- events and in which the search still finds the tuple as it was, no tuple of the pair is left.
  pub topology_tuple_expires :
      (x y : Context H) (dest last : Ipv4Address) (t : TopologyTuple) (s u : Protocol H S)
      → found st.topology (dest, last) s.topology ≡ some t
      → ltb_ℤ t.expiration_time x.now ≡ false
      → y.now ≡ x.now +ℤ delay x.now t.expiration_time
      → IsTracked u
      → found st.topology (dest, last) u.topology ≡ some t
      → ((topology_tuple_timer_expire st x dest last s).events
          ≡ (y.now, topology_tuple dest last) ∷ s.events)
        × All
            (λ w. topology_key w ≢ (dest, last))
            (topology_tuple_timer_expire st y dest last u).topology
  unfolding topology_tuple_timer_expire schedule
  topology_tuple_expires x y dest last t s u f e now h g = (
    rw (f, e, now, topology_tuple_timer_expire)
        (ap (λ k. (x.now +ℤ delay x.now t.expiration_time, topology_event k) ∷ s.events)
          (found-some topology_key topology_event st.topology laws.topology (dest, last) s.topology
            t f)),
    topology_erased y dest last t u h g (rw now (delay_passes x.now t.expiration_time)),
  )
