-- ===== src/Associations.antt =====
-- The networks that the node announces: `AddHostNetworkAssociation`,
-- `RemoveHostNetworkAssociation`, `SetRoutingTableAssociation` and `UsesNonOlsrOutgoingInterface`
-- of RoutingProtocol/ocean-protocol.cc. The set of local associations is that of ns-3's
-- `OlsrState`, an interface over any type of states.
pub mod Distinct
pub mod Loops
pub mod Announced
use maritime_mesh_network.Base.{
  ℕ, zero, suc, ◌+◌, ◌==◌, Bool, ◌&&◌, Option, none, some, List, any, elem, if◌then◌else◌,
}
use maritime_mesh_network.Repositories.{Ipv4Address, Ipv4Mask, Association}

-- `GetAssociations`, `InsertAssociation` and `EraseAssociation`.
pub record AssociationState (S : Type 0) : Type 0 where
  pub get_associations : S → List Association
  pub insert_association : Association → S → S
  pub erase_association : Association → S → S

-- What the code reads of a static routing table: `GetNRoutes ()`, and of `GetRoute (i)` the
-- `GetDestNetwork ()`, `GetDestNetworkMask ()` and `GetInterface ()`.
pub record RouteTable : Type 0 where
  pub n_routes : ℕ
  pub dest_network : ℕ → Ipv4Address
  pub dest_network_mask : ℕ → Ipv4Mask
  pub interface : ℕ → ℕ

-- `m_interfaceExclusions` has the interface of the route.
unfoldable pub uses_non_olsr_outgoing_interface : List ℕ → RouteTable → ℕ → Bool
uses_non_olsr_outgoing_interface exclusions table i = elem (table.interface i) exclusions

abbrev pub association_at : RouteTable → ℕ → Association
association_at table i = record {
  network_addr = table.dest_network i;
  netmask = table.dest_network_mask i;
}

abbrev pub same_network : Association → Association → Bool
same_network a b = a.network_addr == b.network_addr && a.netmask == b.netmask

module _ {S : Type 0} (state : AssociationState S) where
  unfoldable pub add_host_network_association : Association → S → S
  add_host_network_association a s =
      if any (λ l. same_network l a) (state.get_associations s)
      then s
      else state.insert_association a s

  unfoldable pub remove_host_network_association : Association → S → S
  remove_host_network_association a s = state.erase_association a s

  module _ (exclusions : List ℕ) (table : RouteTable) where
    -- The loop over the routes of the old table, from the `i`th on, `k` rounds before its end.
    unfoldable pub remove_all : ℕ → ℕ → S → S
    remove_all zero i s = s
    remove_all (suc k) i s = remove_all k (i + 1) (
        if uses_non_olsr_outgoing_interface exclusions table i
        then remove_host_network_association (association_at table i) s
        else s)

    -- The loop over the routes of the new table.
    unfoldable pub add_all : ℕ → ℕ → S → S
    add_all zero i s = s
    add_all (suc k) i s = add_all k (i + 1) (
        if uses_non_olsr_outgoing_interface exclusions table i
        then add_host_network_association (association_at table i) s
        else s)

  -- `SetRoutingTableAssociation`: the old table, if there is one, is taken out before the new one
  -- is put in. The object then keeps the new table.
  unfoldable pub set_routing_table_association :
      List ℕ → Option RouteTable → RouteTable → S → S × Option RouteTable
  unfolding add_all remove_all
  set_routing_table_association exclusions old table s =
      let without : S = elim old [
        | none ↦ s
        | some before ↦ remove_all exclusions before before.n_routes 0 s
      ] in
      (add_all exclusions table table.n_routes 0 without, some table)
