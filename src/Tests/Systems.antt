-- ===== src/Tests/Systems.antt =====
-- A node with the main address 10 that hears the neighbor 20: a HELLO message by which 20 has
-- chosen it as MPR and names the neighbor 30, then a TC and an HNA message of 20.
use maritime_mesh_network.Base.{
  ℕ, ◌*◌, ◌≡◌, refl, true, Option, none, some, List, [], ◌∷◌, map, is_some, set_insert, get_elem?,
}
use maritime_mesh_network.Base.Int.{pos, ◌+ℤ◌, ◌-ℤ◌}
use maritime_mesh_network.Base.Dict.{lookup, insert}
use maritime_mesh_network.Mpr.{reached_willingly, is_member}
use maritime_mesh_network.Routing.{add_entry_at}
use maritime_mesh_network.Queue.{set_ipv4}
use maritime_mesh_network.Protocol.Timers.{run_event}
use maritime_mesh_network.Repositories.Clock.{Time, seconds, delay}
use maritime_mesh_network.Wire.Body.{Hello, Tc, Hna}
use maritime_mesh_network.Wire.Message.{Body, hello, tc, hna, OceanMessageHeader}
use maritime_mesh_network.Routing.Hna.Contents.{HnaRoute}
use maritime_mesh_network.Protocol.{
  Protocol, Context, Event, dup_tuple, association_tuple, topology_tuple, mpr_sel_tuple,
  nb2hop_tuple, link_tuple,
}
use maritime_mesh_network.Protocol.Tracked.{IsTracked}
use maritime_mesh_network.Handlers.Receive.{recv_olsr}
use maritime_mesh_network.System.{initial, take_event, receive, fire, Reach, here, next}
use maritime_mesh_network.System.Timed.{Reach-IsTracked}
use maritime_mesh_network.Tests.States.{vectors, vectors-IsOlsrState}

abbrev pub at_time : ℕ → Context ℕ
at_time n = record {
  now = seconds n;
  predicted_height = 4_000_000;
  micrometres = λ h. pos h;
  ocean_hold_time = seconds 1;
  jitter = pos 250_000_000;
  hello_interval = seconds 2;
  ipv4 = record { n_interfaces = 2; n_addresses = λ i. 1; get_address = λ i j. i * 10 };
}

abbrev pub message_of : ℕ → ℕ → Body → OceanMessageHeader ℕ
message_of originator number body = record {
  header = record {
    v_time = 134;
    originator_address = originator;
    time_to_live = 255;
    hop_count = 0;
    message_sequence_number = number;
    body = body;
  };
  predict_height = 5_000_000;
}

abbrev pub hello_body : Hello
hello_body = record {
  h_time = 5;
  willingness = 3;
  link_messages =
      record { link_code = 10; neighbor_interface_addresses = 10 ∷ [] }
      ∷ record { link_code = 6; neighbor_interface_addresses = 30 ∷ [] }
      ∷ [];
}

abbrev pub tc_body : Tc
tc_body = record { ansn = 7; neighbor_addresses = 10 ∷ 30 ∷ [] }

abbrev pub hna_body : Hna
hna_body = record { associations = record { address = 100; mask = 8 } ∷ [] }

abbrev pub packet : List (OceanMessageHeader ℕ)
packet =
    message_of 20 1 (hello hello_body)
    ∷ message_of 20 2 (tc tc_body)
    ∷ message_of 20 3 (hna hna_body)
    ∷ []

abbrev pub fresh : Protocol ℕ (List HnaRoute)
fresh = initial 10 0 []

abbrev pub heard : Option (Protocol ℕ (List HnaRoute))
heard = recv_olsr vectors (at_time 5) 10 20 packet fresh

abbrev or_fresh : Option (Protocol ℕ (List HnaRoute)) → Protocol ℕ (List HnaRoute)
or_fresh none = fresh
or_fresh (some s) = s

abbrev pub after : Protocol ℕ (List HnaRoute)
after = or_fresh heard

-- Every tuple has its event; the HELLO message is not forwarded and leaves no duplicate tuple.
heard_events :
    map (λ (p : Time × Event). p.1) after.events
    ≡ dup_tuple 20 3
      ∷ association_tuple 20 100 8
      ∷ dup_tuple 20 2
      ∷ topology_tuple 30 20
      ∷ topology_tuple 10 20
      ∷ mpr_sel_tuple 20
      ∷ nb2hop_tuple 20 30
      ∷ link_tuple 20
      ∷ []
unfolding initial recv_olsr ◌+ℤ◌ ◌-ℤ◌ reached_willingly is_member set_insert lookup insert
    add_entry_at
heard_events = refl

heard_some : is_some heard ≡ true
unfolding initial recv_olsr ◌+ℤ◌ ◌-ℤ◌ reached_willingly is_member set_insert lookup insert
    add_entry_at
heard_some = refl

or_fresh-some : (o : Option (Protocol ℕ (List HnaRoute))) → is_some o ≡ true → o ≡ some (or_fresh o)
or_fresh-some none e = absurd cc
or_fresh-some (some s) e = refl

pub heard_lem : heard ≡ some after
heard_lem = or_fresh-some heard heard_some

-- The TC and the HNA message wait in the queue, with one hop more.
heard_queue :
    map (λ (m : OceanMessageHeader ℕ). m.header.hop_count) after.sender.queued_messages ≡ 1 ∷ 1 ∷ []
unfolding initial recv_olsr ◌+ℤ◌ ◌-ℤ◌ reached_willingly is_member set_insert lookup insert
    add_entry_at set_ipv4
heard_queue = refl

first_event : get_elem? after.events 3 ≡ some (pos 6_000_001_000, topology_tuple 30 20)
unfolding initial recv_olsr ◌+ℤ◌ ◌-ℤ◌ reached_willingly is_member set_insert lookup insert
    add_entry_at delay
first_event = refl

-- The moment at which the event fires.
abbrev pub later_time : Context ℕ
later_time = record (at_time 5) { now = pos 6_000_001_000 }

reached :
    Reach vectors fresh (run_event vectors later_time (topology_tuple 30 20) (take_event 3 after))
reached =
    next (next here (receive (at_time 5) 10 20 packet heard_lem))
      (fire later_time 3 (topology_tuple 30 20) first_event)

Reach-IsTracked_example :
    IsTracked (run_event vectors later_time (topology_tuple 30 20) (take_event 3 after))
Reach-IsTracked_example = Reach-IsTracked vectors vectors-IsOlsrState 10 0 [] reached
