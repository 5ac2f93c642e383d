-- ===== src/Tests/Announcements.antt =====
-- The local associations of RoutingProtocol/ocean-protocol.cc as a list, and the change from one
-- associated routing table to another.
use maritime_mesh_network.Base.{
  ℕ, ◌+◌, ◌==◌, ◌≡◌, ◌<◌, ◌⊎◌, refl, true, some, Option, List, [], ◌∷◌, ◌++◌, if◌then◌else◌,
}
use maritime_mesh_network.Repositories.{Association}
use maritime_mesh_network.Associations.{
  AssociationState, RouteTable, uses_non_olsr_outgoing_interface, association_at,
  set_routing_table_association, add_all, remove_all, add_host_network_association,
  remove_host_network_association,
}
use maritime_mesh_network.Associations.Distinct.{announces, without_first, IsDistinct}
use maritime_mesh_network.Associations.Loops.{IsAssociationState, HasNetwork}
use maritime_mesh_network.Associations.Announced.{IsOfOld, set_routing_table_association_lem}

abbrev listed : AssociationState (List Association)
listed = record {
  get_associations = λ s. s;
  insert_association = λ a s. s ++ a ∷ [];
  erase_association = without_first;
}

listed-IsAssociationState : IsAssociationState listed
listed-IsAssociationState = record { inserted = λ a s. refl; erased = λ a s. refl }

abbrev network : ℕ → Association
network n = record { network_addr = n; netmask = 255 }

-- Two routes, by the interfaces 1 and 2.
abbrev table : ℕ → RouteTable
table n = record {
  n_routes = 2;
  dest_network = λ i. if i == 0 then n else n + 1;
  dest_network_mask = λ _. 255;
  interface = λ i. if i == 0 then 1 else 2;
}

abbrev before : List Association
before = network 10 ∷ network 41 ∷ []

abbrev after : List Association × Option RouteTable
after = set_routing_table_association listed (2 ∷ []) (some (table 40)) (table 60) before

announced_run : after.0 ≡ network 10 ∷ network 61 ∷ []
unfolding set_routing_table_association add_all remove_all add_host_network_association
    remove_host_network_association uses_non_olsr_outgoing_interface
announced_run = refl

set_routing_table_association_lem_example :
    (after.1 ≡ some (table 60))
    × IsDistinct after.0
    × ((i : ℕ)
        → i < 2
        → uses_non_olsr_outgoing_interface (2 ∷ []) (table 60) i ≡ true
        → announces after.0 (association_at (table 60) i) ≡ true)
    × ((c : Association)
        → announces after.0 c ≡ true
        → HasNetwork (2 ∷ []) (table 60) 0 2 c
          ⊎ (announces before c ≡ true) × (IsOfOld (2 ∷ []) (some (table 40)) c → ⊥))
set_routing_table_association_lem_example =
    set_routing_table_association_lem listed-IsAssociationState (2 ∷ []) (some (table 40))
      (table 60) before (refl, (refl, tt))
