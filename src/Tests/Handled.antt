-- ===== src/Tests/Handled.antt =====
-- The theorems on the handlers and timers at a node with the main address 10 that knows the
-- neighbor 20 and one topology tuple of it.
use maritime_mesh_network.Base.{
  ℕ, ◌≡◌, ◌≢◌, refl, ap, ◌⊎◌, inl, inr, none, some, List, [], ◌∷◌, arith, All, length,
}
use maritime_mesh_network.Base.Int.{pos, ◌+ℤ◌, ◌-ℤ◌}
use maritime_mesh_network.Repositories.{LinkTuple, TopologyTuple}
use maritime_mesh_network.Repositories.Clock.{seconds, delay}
use maritime_mesh_network.Repositories.Interface.{found}
use maritime_mesh_network.Wire.Message.{tc, OceanMessageHeader}
use maritime_mesh_network.Queue.{Sender, set_ipv4}
use maritime_mesh_network.Routing.Hna.Contents.{HnaRoute}
use maritime_mesh_network.Protocol.{Protocol, Context, topology_tuple, link_tuple, mpr_sel_tuple}
use maritime_mesh_network.Protocol.Laws.{topology_key}
use maritime_mesh_network.Protocol.Timers.{run_event, topology_tuple_timer_expire}
use maritime_mesh_network.Protocol.Tracked.{IsTracked}
use maritime_mesh_network.System.{initial}
use maritime_mesh_network.System.Unexpired.{KeepsUnexpired, run_event-KeepsUnexpired}
use maritime_mesh_network.System.Expiry.{topology_tuple_expires}
use maritime_mesh_network.Handlers.Tc.{process_tc}
use maritime_mesh_network.Handlers.Tc.Processed.{IsProcessed, process_tc-IsProcessed}
use maritime_mesh_network.Handlers.Forward.{forward_default}
use maritime_mesh_network.Handlers.Forward.Relayed.{IsRelayed, forward_default_lem}
use maritime_mesh_network.Handlers.Forward.Once.{forward, forward_once, receive_twice}
use maritime_mesh_network.Handlers.Receive.{accept_message}
use maritime_mesh_network.Tests.States.{vectors, vectors-IsOlsrState}
use maritime_mesh_network.Tests.Systems.{at_time, message_of, tc_body, fresh}

abbrev pub known_link : LinkTuple
known_link = record {
  local_iface_addr = 10;
  neighbor_iface_addr = 20;
  sym_time = seconds 6;
  asym_time = seconds 6;
  time = seconds 12;
}

abbrev known_tuple : TopologyTuple
known_tuple = record {
  dest_addr = 30;
  last_addr = 20;
  sequence_number = 7;
  expiration_time = seconds 6;
}

abbrev pub known : Protocol ℕ (List HnaRoute)
known = record fresh {
  links = known_link ∷ [];
  mpr_selectors = record { main_addr = 20; expiration_time = seconds 6 } ∷ [];
  topology = known_tuple ∷ [];
  events =
      (pos 6_000_001_000, topology_tuple 30 20)
      ∷ (pos 6_000_001_000, mpr_sel_tuple 20)
      ∷ (pos 6_000_001_000, link_tuple 20)
      ∷ [];
}

known-IsTracked : IsTracked known
unfolding initial
known-IsTracked = record {
  links_timed = record { distinct = (tt, tt); pending = (inr (inr (inl refl)), tt) };
  selectors_timed = record { distinct = (tt, tt); pending = (inr (inl refl), tt) };
  topology_timed = record { distinct = (tt, tt); pending = (inl refl, tt) };
  associations_timed = record { distinct = tt; pending = tt };
  duplicates_timed = record { distinct = tt; pending = tt };
}

abbrev pub at_six : Context ℕ
at_six = record (at_time 5) { now = pos 6_000_001_000 }

abbrev pub tc_message : OceanMessageHeader ℕ
tc_message = message_of 20 9 (tc tc_body)

run_event-KeepsUnexpired_example :
    KeepsUnexpired (seconds 6) known (run_event vectors (at_time 6) (topology_tuple 30 20) known)
run_event-KeepsUnexpired_example =
    run_event-KeepsUnexpired vectors vectors-IsOlsrState (at_time 6) known known-IsTracked
      (topology_tuple 30 20)

topology_tuple_expires_example :
    ((topology_tuple_timer_expire vectors (at_time 5) 30 20 known).events
      ≡ (pos 6_000_001_000, topology_tuple 30 20) ∷ known.events)
    × All
        (λ w. topology_key w ≢ (30, 20))
        (topology_tuple_timer_expire vectors at_six 30 20 known).topology
unfolding found delay ◌+ℤ◌ ◌-ℤ◌
topology_tuple_expires_example =
    topology_tuple_expires vectors vectors-IsOlsrState (at_time 5) at_six 30 20 known_tuple known
      known refl refl refl known-IsTracked refl

forward_default_lem_example :
    ((forward_default vectors (at_time 5) tc_message none 10 20 known).sender ≡ known.sender)
    ⊎ IsRelayed vectors vectors-IsOlsrState
        (at_time 5)
        tc_message
        20
        known
        (forward_default vectors (at_time 5) tc_message none 10 20 known)
forward_default_lem_example =
    forward_default_lem vectors vectors-IsOlsrState (at_time 5) tc_message none 10 20 known

-- One more message is in the queue.
known_changes :
    (forward vectors vectors-IsOlsrState (at_time 5) tc_message 10 20 known).sender ≢ known.sender
unfolding forward_default initial set_ipv4
known_changes e =
    absurd (let n : 1 ≡ 0 = ap (λ (q : Sender ℕ). length q.queued_messages) e in omega (arith, n))

forward_once_example :
    let t = forward vectors vectors-IsOlsrState (at_time 5) tc_message 10 20 known in
    forward vectors vectors-IsOlsrState at_six tc_message 11 20 t ≡ t
forward_once_example =
    forward_once vectors vectors-IsOlsrState (at_time 5) at_six tc_message tc_message 10 20 11 20
      known known-IsTracked known_changes refl

known_symmetric : vectors.find_sym_link_tuple 20 (seconds 5) known.links ≢ none
known_symmetric e = absurd cc

receive_twice_example :
    let t = forward vectors vectors-IsOlsrState (at_time 5) tc_message 10 20 known in
    accept_message vectors at_six 10 40 tc_message t ≡ some t
receive_twice_example =
    receive_twice vectors vectors-IsOlsrState (at_time 5) at_six tc_message tc_message 10 20 40
      known known-IsTracked known_symmetric refl

process_tc-IsProcessed_example :
    IsProcessed
      (at_time 5)
      tc_message
      tc_body
      known.topology
      (process_tc vectors (at_time 5) tc_message tc_body 20 known).topology
process_tc-IsProcessed_example =
    process_tc-IsProcessed vectors vectors-IsOlsrState (at_time 5) tc_message tc_body 20 known
      known_symmetric refl
