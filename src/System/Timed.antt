-- ===== src/System/Timed.antt =====
-- Nothing is held for ever: the invariant of `Protocol.Tracked` in every reachable state.
use maritime_mesh_network.Base.{subst, sym, ◌∷◌, OnSome, remove_at}
use maritime_mesh_network.Repositories.{Ipv4Address}
use maritime_mesh_network.Protocol.{Protocol, OlsrState}
use maritime_mesh_network.Protocol.Laws.{IsOlsrState}
use maritime_mesh_network.Protocol.Timed.{Pending-front}
use maritime_mesh_network.Protocol.Tracked.{IsTracked}
use maritime_mesh_network.Protocol.Tracked.Fired.{IsTracked-more}
use maritime_mesh_network.Protocol.Tracked.Examined.{run_event-IsTracked}
use maritime_mesh_network.Handlers.Tracked.Received.{recv_olsr-IsTracked}
use maritime_mesh_network.Setup.Others.{IsOther, initialize-others}
use maritime_mesh_network.System.{initial, Step, receive, fire, start, requeue, Reach, here, next}

module _ {H S : Type 0} (st : OlsrState S) (laws : IsOlsrState st) where
  Step-IsTracked : {s t : Protocol H S} → Step st s t → IsTracked s → IsTracked t
  Step-IsTracked {s} {t} (receive x receiver sender msgs e) h =
      subst (OnSome (λ (u : Protocol H S). IsTracked u)) e
        (recv_olsr-IsTracked st laws x receiver sender msgs s h)
  Step-IsTracked {s} (fire x i e q) h =
      run_event-IsTracked st x laws x.now (remove_at i s.events) e s (
        IsTracked-more s s.events ((x.now, e) ∷ remove_at i s.events)
          (λ f p. Pending-front f i s.events (x.now, e) q p) h)
  Step-IsTracked {s} {t} (start ipv4 unset e) h =
      let (main, same) = subst (OnSome (IsOther st ipv4 s)) e (initialize-others st ipv4 unset s) in
      subst (λ (u : Protocol H S). IsTracked u) (sym same) h
  Step-IsTracked (requeue q) h = h

  initial-IsTracked :
      (main : Ipv4Address) (height : H) (hna : S) → IsTracked (initial main height hna)
  unfolding initial
  initial-IsTracked main height hna = record {
    links_timed = record { distinct = tt; pending = tt };
    selectors_timed = record { distinct = tt; pending = tt };
    topology_timed = record { distinct = tt; pending = tt };
    associations_timed = record { distinct = tt; pending = tt };
    duplicates_timed = record { distinct = tt; pending = tt };
  }

  -- In every state that a node reaches from its start, in whatever order it is initialised, packets
  -- arrive, events fire and its queue changes, no two links, MPR selectors, topology tuples,
  -- association tuples or duplicate tuples have the same key, and each of these tuples has a
  -- scheduled event that will examine it.
  pub Reach-IsTracked :
      (main : Ipv4Address) (height : H) (hna : S) {s : Protocol H S}
      → Reach st (initial main height hna) s
      → IsTracked s
  Reach-IsTracked main height hna here = initial-IsTracked main height hna
  Reach-IsTracked main height hna (next r step) =
      Step-IsTracked step (Reach-IsTracked main height hna r)
