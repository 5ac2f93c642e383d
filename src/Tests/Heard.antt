-- ===== src/Tests/Heard.antt =====
-- The theorems on links, HELLO messages and validity times at the node of `Tests.Handled`.
use maritime_mesh_network.Base.{
  All, ◌≢◌, ℕ, ◌≡◌, refl, inr, true, false, not, ◌||◌, some, [], ◌∷◌, arith, any, is_some,
}
use maritime_mesh_network.Base.Int.{◌-ℤ◌}
use maritime_mesh_network.Repositories.Clock.{seconds}
use maritime_mesh_network.Repositories.Interface.{found}
use maritime_mesh_network.Wire.Body.{Hello}
use maritime_mesh_network.Wire.Message.{hello, OceanMessageHeader}
use maritime_mesh_network.Protocol.{main_address_of}
use maritime_mesh_network.Protocol.Links.{is_symmetric_to, link_tuple_updated, neighbor_loss}
use maritime_mesh_network.Protocol.Links.Symmetric.{IsUpdated, link_tuple_updated-IsUpdated}
use maritime_mesh_network.Protocol.Links.Ends.{IsComputed, neighbor_loss-IsComputed}
use maritime_mesh_network.System.{initial}
use maritime_mesh_network.Handlers.{get_message_v_time}
use maritime_mesh_network.Handlers.Sensing.{is_zero, link_sensing}
use maritime_mesh_network.Handlers.Sensing.Fatal.{is_fatal, link_sensing_lem}
use maritime_mesh_network.Handlers.Hello.{populate_two_hop_neighbor_set, populate_mpr_selector_set}
use maritime_mesh_network.Handlers.Hello.Elsewhere.{
  IsElsewhere, populate_two_hop_neighbor_set-IsElsewhere,
}
use maritime_mesh_network.Handlers.Hello.Selected.{
  is_selector, selects, populate_mpr_selector_set_lem,
}
use maritime_mesh_network.Handlers.Validity.{link_sensing-too_low, get_message_v_time-near}
use maritime_mesh_network.Tests.Networks.{listed-IsStaticRouting}
use maritime_mesh_network.Tests.States.{vectors, vectors-IsOlsrState}
use maritime_mesh_network.Tests.Systems.{at_time, message_of, hello_body}
use maritime_mesh_network.Tests.Handled.{known_link, known}

abbrev hello_message : OceanMessageHeader ℕ
hello_message = message_of 20 4 (hello hello_body)

link_tuple_updated-IsUpdated_example :
    IsUpdated vectors vectors-IsOlsrState
      (at_time 5)
      known
      20
      (link_tuple_updated vectors (at_time 5) known_link 3 known).neighbors
unfolding initial main_address_of found
link_tuple_updated-IsUpdated_example =
    link_tuple_updated-IsUpdated vectors vectors-IsOlsrState (at_time 5) known_link 3 known

-- The link is symmetric at the time.
known_is_symmetric : any (is_symmetric_to vectors (at_time 5) known 20) known.links ≡ true
unfolding initial is_symmetric_to main_address_of found
known_is_symmetric = refl

neighbor_loss-IsComputed_example :
    IsComputed vectors listed-IsStaticRouting
      (at_time 5)
      known.hna_routing_table
      (neighbor_loss vectors (at_time 5) known_link known)
    × All
        (λ m.
          m.main_addr
          ≢ main_address_of vectors (neighbor_loss vectors (at_time 5) known_link known) 20)
        (neighbor_loss vectors (at_time 5) known_link known).mpr_selectors
neighbor_loss-IsComputed_example =
    neighbor_loss-IsComputed vectors listed-IsStaticRouting (at_time 5) vectors-IsOlsrState
      known_link known

link_sensing_lem_example :
    is_some (link_sensing vectors (at_time 5) hello_message hello_body 10 20 known) ≡ (
      is_zero (get_message_v_time (at_time 5) hello_message)
      || not (any (is_fatal 10) hello_body.link_messages))
link_sensing_lem_example =
    link_sensing_lem vectors vectors-IsOlsrState (at_time 5) hello_message hello_body 10 20 known

-- A link message of UNSPEC_LINK that names the receiver ends in the fatal error.
abbrev unspecified : Hello
unspecified = record {
  h_time = 5;
  willingness = 3;
  link_messages = record { link_code = 4; neighbor_interface_addresses = 10 ∷ [] } ∷ [];
}

unspecified_fails :
    is_some (link_sensing vectors (at_time 5) hello_message unspecified 10 20 known) ≡ false
unfolding link_sensing initial ◌-ℤ◌
unspecified_fails = refl

populate_two_hop_neighbor_set-IsElsewhere_example :
    IsElsewhere (populate_two_hop_neighbor_set vectors (at_time 5) hello_message hello_body known)
unfolding initial
populate_two_hop_neighbor_set-IsElsewhere_example =
    populate_two_hop_neighbor_set-IsElsewhere vectors vectors-IsOlsrState (at_time 5) hello_message
      hello_body known tt

populate_mpr_selector_set_lem_example :
    is_selector vectors 20
      (populate_mpr_selector_set vectors (at_time 5) hello_message hello_body known)
    ≡ (is_selector vectors 20 known || any (selects vectors known) hello_body.link_messages)
populate_mpr_selector_set_lem_example =
    populate_mpr_selector_set_lem vectors vectors-IsOlsrState (at_time 5) hello_message hello_body
      known

-- A sender 12 metres up.
abbrev high_message : OceanMessageHeader ℕ
high_message = record hello_message { predict_height = 12_000_000 }

link_sensing-too_low_example :
    link_sensing vectors (at_time 5) high_message hello_body 10 20 known
    ≡ some (record known { predict_height = 4_000_000 })
unfolding ◌-ℤ◌
link_sensing-too_low_example =
    link_sensing-too_low vectors (at_time 5) high_message hello_body 10 20 known refl
      (inr (omega arith))

get_message_v_time-near_example : get_message_v_time (at_time 5) hello_message ≡ seconds 1
unfolding ◌-ℤ◌
get_message_v_time-near_example =
    get_message_v_time-near vectors (at_time 5) hello_message hello_body refl (omega arith)
      (omega arith)
