-- ===== src/Associations/Announced.antt =====
-- What `SetRoutingTableAssociation` of RoutingProtocol/ocean-protocol.cc leaves announced.
use maritime_mesh_network.Base.{
  ℕ, ◌≡◌, ◌<◌, refl, true, inl, inr, ◌⊎◌, Option, none, some, List, arith,
}
use native.Mathlib.Nat.{zero-add}
use maritime_mesh_network.Repositories.{Association}
use maritime_mesh_network.Associations.{
  AssociationState, RouteTable, uses_non_olsr_outgoing_interface, association_at, remove_all,
  set_routing_table_association,
}
use maritime_mesh_network.Associations.Distinct.{announces, IsDistinct}
use maritime_mesh_network.Associations.Loops.{
  IsAssociationState, HasNetwork, add_all_keeps, add_all_reaches, add_all_from, remove_all_lem,
}

-- The association is a network of the old table, if there is one.
abbrev pub IsOfOld : List ℕ → Option RouteTable → Association → Type 0
IsOfOld exclusions none c = ⊥
IsOfOld exclusions (some before) c = HasNetwork exclusions before 0 before.n_routes c

module _ {S : Type 0} {state : AssociationState S} (laws : IsAssociationState state) where
  -- If the local associations are distinct, they are so afterwards, and the object keeps the new
  -- table. Every network of the new table that a route by an excluded interface leads to is then
  -- announced; and what is announced is such a network, or was announced before and is no such
  -- network of the old table.
  pub set_routing_table_association_lem :
      (exclusions : List ℕ) (old : Option RouteTable) (table : RouteTable) (s : S)
      → IsDistinct (state.get_associations s)
      → let result = set_routing_table_association state exclusions old table s in
        (result.1 ≡ some table)
        × IsDistinct (state.get_associations result.0)
        × ((i : ℕ)
            → i < table.n_routes
            → uses_non_olsr_outgoing_interface exclusions table i ≡ true
            → announces (state.get_associations result.0) (association_at table i) ≡ true)
        × ((c : Association)
            → announces (state.get_associations result.0) c ≡ true
            → HasNetwork exclusions table 0 table.n_routes c
              ⊎ (announces (state.get_associations s) c ≡ true) × (IsOfOld exclusions old c → ⊥))
  unfolding set_routing_table_association
  set_routing_table_association_lem exclusions none table s d =
      let (d', _) = add_all_keeps laws exclusions table table.n_routes 0 s d in
      (
        refl,
        d',
        λ i hi u.
            add_all_reaches laws exclusions table table.n_routes 0 s i d (omega arith) (omega arith)
              u,
        λ c h. elim (rw zero-add at (add_all_from laws exclusions table table.n_routes 0 s c h)) [
          | inl old ↦ inr (old, λ o. o)
          | inr new ↦ inl new
        ],
      )
  set_routing_table_association_lem exclusions (some before) table s d =
      let left = remove_all state exclusions before before.n_routes 0 s in
      let (d1, gone) = remove_all_lem laws exclusions before before.n_routes 0 s d in
      let (d', _) = add_all_keeps laws exclusions table table.n_routes 0 left d1 in
      (
        refl,
        d',
        λ i hi u.
            add_all_reaches laws exclusions table table.n_routes 0 left i d1 (omega arith)
              (omega arith) u,
        λ c h.
            elim (rw zero-add at (add_all_from laws exclusions table table.n_routes 0 left c h)) [
              | inl kept ↦ inr (rw zero-add at (gone c kept))
              | inr new ↦ inl new
            ],
      )
