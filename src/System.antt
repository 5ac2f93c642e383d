-- ===== src/System.antt =====
-- The node of RoutingProtocol/ocean-protocol.cc as a system: `SetIpv4` sets it up, `DoInitialize`
-- starts it, packets arrive, the events of the tuples fire, and the queue of messages changes in
-- between, in any order.
pub mod Timed
pub mod Unexpired
pub mod Expiry
use maritime_mesh_network.Base.{ℕ, ◌≡◌, true, Option, some, List, [], get_elem?, remove_at}
use maritime_mesh_network.Repositories.{Ipv4Address}
use maritime_mesh_network.Repositories.Clock.{Time}
use maritime_mesh_network.Wire.Message.{OceanMessageHeader}
use maritime_mesh_network.Queue.{Sender, set_ipv4, olsr_max_seq_num}
use maritime_mesh_network.Protocol.{Protocol, OlsrState, Context, Event}
use maritime_mesh_network.Protocol.Timers.{run_event}
use maritime_mesh_network.Routing.{Ipv4}
use maritime_mesh_network.Setup.{initialize}
use maritime_mesh_network.Handlers.Receive.{recv_olsr}

module _ {H S : Type 0} where
  -- The state after `SetIpv4`, with the main address of `SetMainInterface`, or the unset one. The
  -- predicted height is any, since it is not initialised.
  unfoldable pub initial : Ipv4Address → H → S → Protocol H S
  initial main_address height hna = record {
    main_address = main_address;
    links = [];
    neighbors = [];
    two_hop_neighbors = [];
    mpr_set = [];
    mpr_selectors = [];
    duplicates = [];
    topology = [];
    iface_assocs = [];
    association_set = [];
    associations = [];
    ansn = olsr_max_seq_num;
    predict_height = height;
    link_tuple_timer_first_time = true;
    table = [];
    hna_routing_table = hna;
    sender = set_ipv4 H;
    events = [];
  }

  -- The state in which the `i`th event is no longer scheduled.
  abbrev pub take_event : ℕ → Protocol H S → Protocol H S
  take_event i s = record s { events = remove_at i s.events }

  module _ (st : OlsrState S) where
    -- One step, at the time of its context.
    pub data Step (s : Protocol H S) : Protocol H S → Type 0 where
      receive :
          {t : Protocol H S} (x : Context H) (receiver sender : Ipv4Address)
          (msgs : List (OceanMessageHeader H))
          → recv_olsr st x receiver sender msgs s ≡ some t
          → Step s t
      fire :
          (x : Context H) (i : ℕ) (e : Event)
          → get_elem? s.events i ≡ some (x.now, e)
          → Step s (run_event st x e (take_event i s))
      start :
          {t : Protocol H S} (ipv4 : Ipv4) (unset : Ipv4Address)
          → initialize st ipv4 unset s ≡ some t
          → Step s t
      requeue : (q : Sender H) → Step s (record s { sender = q })

    pub data Reach (s : Protocol H S) : Protocol H S → Type 0 where
      here : Reach s s
      next : {t u : Protocol H S} → Reach s t → Step t u → Reach s u
