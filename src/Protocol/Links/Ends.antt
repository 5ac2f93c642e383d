-- ===== src/Protocol/Links/Ends.antt =====
-- What `NeighborLoss` leaves: the MPR set and the routing tables fit the repositories again.
use maritime_mesh_network.Base.{
  ℕ, suc, ◌==◌, ◌≡◌, ◌≢◌, ◌∙◌, sym, refl, subst, ap, Bool-cases, inl, inr, some, none, List, [],
  ◌∷◌, arith, length, All, remove_if, elim-cases,
}
use maritime_mesh_network.Repositories.{Ipv4Address, LinkTuple, MprSelectorTuple, will_default}
use maritime_mesh_network.Repositories.Interface.{found}
use maritime_mesh_network.Mpr.{symmetric_neighbors}
use maritime_mesh_network.Mpr.Compute.Correct.{IsMprSet, mpr_computation-IsMprSet}
use maritime_mesh_network.Routing.{Table}
use maritime_mesh_network.Routing.Build.{
  Inputs, near_routes, far_routes, add_iface_assocs, routing_table,
}
use maritime_mesh_network.Routing.Build.Topology.{topology_loop_ends, absent_count-le-length}
use maritime_mesh_network.Routing.Hna.{hna_routes}
use maritime_mesh_network.Routing.Hna.Contents.{HnaRoute, IsStaticRouting}
use maritime_mesh_network.Routing.Hna.Best.{IsHnaTable, hna_routes-IsHnaTable}
use maritime_mesh_network.Protocol.{
  Protocol, OlsrState, Context, main_address_of, add_neighbor_tuple, increment_ansn,
}
use maritime_mesh_network.Protocol.Laws.{IsOlsrState}
use maritime_mesh_network.Protocol.Links.{
  elected, routing_inputs, update_mpr_set, update_routing_table, update_hna_routes,
  routing_table_computation, link_tuple_added, ensure_neighbor, update_status, link_tuple_updated,
  neighbor_loss,
}

routing_table_ends : (i : Inputs) → (table : Table) × (routing_table i ≡ some table)
unfolding routing_table far_routes
routing_table_ends i =
    let (t, e, k, before, p, last) =
      topology_loop_ends (λ h table. Unit) i.topology (λ h table p. tt) (suc (length i.topology)) 2
        (near_routes i) (omega (arith, absent_count-le-length i.topology (near_routes i))) tt in
    (add_iface_assocs i.iface_assocs t, rw (e, routing_table) refl)

no_selector :
    (a : Ipv4Address) (v : List MprSelectorTuple)
    → All (λ m. m.main_addr ≢ a) (remove_if (λ m. m.main_addr == a) v)
no_selector a [] = tt
no_selector a (m ∷ v) = elim (Bool-cases (m.main_addr == a)) [
  | inl e ↦ rw e (no_selector a v)
  | inr e ↦ rw e (λ q. ground arith, no_selector a v)
]

module _ {H S : Type 0} (st : OlsrState S) {routes : S → List HnaRoute}
    (laws : IsStaticRouting st.static_routing routes) (x : Context H) where
  -- The MPR set is one of the node for the neighbors and 2-hop neighbors that are left, the routing
  -- table is the one of the repositories that are left, and the HNA routes are those of this table,
  -- over what was not cleared of the routes `old`.
  pub record IsComputed (old : S) (u : Protocol H S) : Type 0 where
    pub mprs :
        IsMprSet u.main_address (symmetric_neighbors u.neighbors) u.two_hop_neighbors u.mpr_set
    pub computed : routing_table (routing_inputs st x u) ≡ some u.table
    pub hna :
        IsHnaTable u.table u.associations u.association_set
          (routes old)
          (routes u.hna_routing_table)

  set_mprs :
      (s : Protocol H S) (mprs : List Ipv4Address)
      → elected st x s ≡ some mprs
      → update_mpr_set st x s ≡ record s { mpr_set = mprs }
  unfolding update_mpr_set
  set_mprs s mprs e = ap (λ o. elim o [ none ↦ s | some m ↦ record s { mpr_set = m } ]) e

  set_table :
      (s : Protocol H S) (table : Table)
      → routing_table (routing_inputs st x s) ≡ some table
      → update_routing_table st x s ≡ record s { table = table }
  unfolding update_routing_table
  set_table s table e = ap (λ o. elim o [ none ↦ s | some t ↦ record s { table = t } ]) e

  set_hna :
      (s : Protocol H S) (hna : S)
      → hna_routes st.static_routing s.table s.associations s.association_set s.hna_routing_table
        ≡ some hna
      → update_hna_routes st x s ≡ record s { hna_routing_table = hna }
  unfolding update_hna_routes
  set_hna s hna e = ap (λ o. elim o [ none ↦ s | some r ↦ record s { hna_routing_table = r } ]) e

  -- Neither result is an input of the computation of the routing table.
  same_inputs :
      (s : Protocol H S) (mprs : List Ipv4Address) (table : Table) (hna : S)
      → routing_inputs st x (record s { mpr_set = mprs; table = table; hna_routing_table = hna })
        ≡ routing_inputs st x s
  unfolding routing_inputs main_address_of
  same_inputs s mprs table hna = refl

  -- The two computations set three fields, and these fit the others.
  computations_lem :
      (s : Protocol H S)
      → (mprs : List Ipv4Address) × (table : Table) × (hna : S) × (routing_table_computation st x
            (update_mpr_set st x s)
          ≡ record s { mpr_set = mprs; table = table; hna_routing_table = hna })
        × IsComputed s.hna_routing_table
            (record s { mpr_set = mprs; table = table; hna_routing_table = hna })
  unfolding elected routing_table_computation
  computations_lem s =
      let (mprs, e, m) =
        mpr_computation-IsMprSet s.main_address s.neighbors s.two_hop_neighbors
          (λ a. found st.neighbor a s.neighbors) in
      let elected_s : Protocol H S = record s { mpr_set = mprs } in
      let (table, f) = routing_table_ends (routing_inputs st x elected_s) in
      let routed : Protocol H S = record elected_s { table = table } in
      let (hna, g, h) =
        hna_routes-IsHnaTable laws table s.associations s.association_set s.hna_routing_table in
      (
        mprs,
        table,
        hna,
        ap (routing_table_computation st x) (set_mprs s mprs e)
            ∙ ap (update_hna_routes st x) (set_table elected_s table f)
            ∙ set_hna routed hna g,
        record {
          mprs = m;
          computed = ap routing_table (same_inputs elected_s mprs table hna) ∙ f;
          hna = h;
        },
      )

  ensure_neighbor-hna :
      (t : LinkTuple) (w : ℕ) (s : Protocol H S)
      → (ensure_neighbor st x t w s).hna_routing_table ≡ s.hna_routing_table
  unfolding ensure_neighbor link_tuple_added add_neighbor_tuple increment_ansn
  ensure_neighbor-hna t w s =
      elim-cases (λ (u : Protocol H S). u.hna_routing_table ≡ s.hna_routing_table)
        (st.neighbor.find (main_address_of st s t.neighbor_iface_addr) s.neighbors) _ _ (λ e. refl)
        (λ i e. refl)

  link_tuple_updated-hna :
      (t : LinkTuple) (w : ℕ) (s : Protocol H S)
      → (link_tuple_updated st x t w s).hna_routing_table ≡ s.hna_routing_table
  unfolding link_tuple_updated update_status
  link_tuple_updated-hna t w s =
      let added = ensure_neighbor st x t w s in
      elim-cases (λ (u : Protocol H S). u.hna_routing_table ≡ s.hna_routing_table)
        (st.neighbor.find (main_address_of st added t.neighbor_iface_addr) added.neighbors) _ _
        (λ e. ensure_neighbor-hna t w s) (λ i e. ensure_neighbor-hna t w s)

  -- In every state `NeighborLoss` ends, and leaves an MPR set, a routing table and HNA routes that fit
  -- the repositories that it leaves, and no MPR selector with the main address of the lost neighbor.
  pub neighbor_loss-IsComputed :
      IsOlsrState st
      → (t : LinkTuple) (s : Protocol H S)
      → let u = neighbor_loss st x t s in
        IsComputed s.hna_routing_table u
        × All (λ m. m.main_addr ≢ main_address_of st u t.neighbor_iface_addr) u.mpr_selectors
  unfolding neighbor_loss main_address_of
  neighbor_loss-IsComputed state t s =
      let updated = link_tuple_updated st x t will_default s in
      let main = main_address_of st updated t.neighbor_iface_addr in
      let loss : Protocol H S = record updated {
        two_hop_neighbors = st.erase_two_hop_neighbor_tuples main updated.two_hop_neighbors;
        mpr_selectors = st.erase_mpr_selector_tuples main updated.mpr_selectors;
      } in
      let (mprs, table, hna, e, c) = computations_lem loss in
      let erased : All (λ m. m.main_addr ≢ main) loss.mpr_selectors =
        rw (state.selectors main updated.mpr_selectors) (no_selector main updated.mpr_selectors) in
      subst
        (λ (u : Protocol H S).
          IsComputed s.hna_routing_table u
          × All (λ m. m.main_addr ≢ main_address_of st u t.neighbor_iface_addr) u.mpr_selectors)
        (sym e)
        (
          subst
              (λ old.
                IsComputed old
                  (record loss { mpr_set = mprs; table = table; hna_routing_table = hna }))
              (link_tuple_updated-hna t will_default s) c,
          erased,
        )
