-- ===== src/Routing/Hna/Best.antt =====
-- The routes that step 5 of `RoutingTableComputation` of RoutingProtocol/ocean-protocol.cc adds.
use maritime_mesh_network.Base.{
  ℕ, suc, ◌+◌, ◌/◌, ◌==◌, ltb, ◌≡◌, ◌∙◌, sym, ap, refl, true, false, Bool-cases, inl, inr, ◌⊎◌,
  Option-cases, some, List, [], ◌∷◌, ◌++◌, length, length-append, ==_iff, arith, In, subst,
}
use maritime_mesh_network.Repositories.{AssociationTuple, Association}
use maritime_mesh_network.Routing.{RoutingTableEntry, Table, lookup}
use maritime_mesh_network.Routing.Hna.{
  StaticRouting, is_local, route_index, add_route, route_by, add_association, add_associations,
  hna_routes,
}
use maritime_mesh_network.Routing.Hna.Contents.{
  HnaRoute, remove_at, remove_at-append, IsStaticRouting, route_index_cases,
}
use maritime_mesh_network.Routing.Hna.Cleared.{drop, clear_routes_half}
use maritime_mesh_network.Routing.Hna.Change.{
  In-right, Change, kept, appended, replaced, Change-HasRoute, Change-keeps, Change-from, HasRoute,
  route_of,
}

-- The route is that of a tuple that this node does not announce itself, by way of the entry of the
-- tuple's gateway.
abbrev pub IsOfTuple : Table → List Association → List AssociationTuple → HnaRoute → Type 0
IsOfTuple table locals ts x =
    (t : AssociationTuple) × (e : RoutingTableEntry) × In t ts
    × (is_local locals t ≡ false)
    × (lookup t.gateway_addr table ≡ some e)
    × (x ≡ route_of t e)

-- What step 5 leaves in the table that had the routes `old`.
pub record IsHnaTable (table : Table) (locals : List Association) (ts : List AssociationTuple)
    (old new : List HnaRoute) : Type 0 where
  pub reached :
      (t : AssociationTuple) (e : RoutingTableEntry)
      → In t ts
      → is_local locals t ≡ false
      → lookup t.gateway_addr table ≡ some e
      → HasRoute new t e.distance
  pub from :
      (x : HnaRoute)
      → In x new
      → In x (drop ((length old + 1) / 2) old) ⊎ IsOfTuple table locals ts x

module _ {S : Type 0} {r : StaticRouting S} {routes : S → List HnaRoute}
    (laws : IsStaticRouting r routes) where
  route_by-Change :
      (t : AssociationTuple) (e : RoutingTableEntry) (s : S)
      → Change t e (routes s) (routes (route_by r t e s))
  unfolding route_by add_route
  route_by-Change t e s =
      let i = route_index r s t (r.n_routes s) 0 in
      let n : r.n_routes s ≡ length (routes s) = laws.count s in
      elim (rw (← n) at (route_index_cases laws s t [] (routes s) refl)) [
        | inl last ↦
            let e' : (i == r.n_routes s) ≡ true = (==_iff i (r.n_routes s)).1 (omega arith) in
            rw e' (appended (laws.added s (route_of t e)))
        | inr (left, x, right, o, m, at_left) ↦
            let (_, _, long) = laws.read s left right x o in
            let size : length (routes s) ≡ length left + suc (length right) =
              ap length o ∙ length-append left (x ∷ right) in
            let before_end : (i == r.n_routes s) ≡ false = ground arith in
            let metric : r.metric s i ≡ x.metric = ap (r.metric s) at_left ∙ long in
            elim (Bool-cases (ltb e.distance (r.metric s i))) [
              | inl worse ↦
                  let cut : routes (r.remove_route i s) ≡ left ++ right =
                    laws.removed s i
                    ∙ ap (λ k. remove_at k (routes s)) at_left
                    ∙ ap (remove_at (length left)) o
                    ∙ remove_at-append left right x in
                  rw (before_end, worse)
                    (replaced left right x o m (ground arith) (
                      laws.added (r.remove_route i s) (route_of t e)
                      ∙ ap (λ l. l ++ route_of t e ∷ []) cut))
              | inr good ↦
                  let here : In x (routes s) =
                    subst (In x) (sym o) (In-right x left (x ∷ right) (inl refl)) in
                  rw (before_end, good) (kept (x, here, m, ground arith) refl)
            ]
      ]

  module _ (table : Table) (locals : List Association) where
    add_association_cases :
        (t : AssociationTuple) (s : S)
        → (routes (add_association r table locals t s) ≡ routes s)
          ⊎ ((e : RoutingTableEntry) × (is_local locals t ≡ false)
              × (lookup t.gateway_addr table ≡ some e)
              × Change t e (routes s) (routes (add_association r table locals t s)))
    unfolding add_association
    add_association_cases t s = elim (Bool-cases (is_local locals t)) [
      | inl own ↦ inl (rw own)
      | inr other ↦ elim (Option-cases (lookup t.gateway_addr table)) [
        | inl unknown ↦ inl (rw (other, unknown))
        | inr (e, known) ↦ inr (e, other, known, rw (other, known) (route_by-Change t e s))
      ]
    ]

    add_association_keeps :
        (t : AssociationTuple) (s : S) (u : AssociationTuple) (d : ℕ)
        → HasRoute (routes s) u d
        → HasRoute (routes (add_association r table locals t s)) u d
    add_association_keeps t s u d h = elim (add_association_cases t s) [
      | inl same ↦ subst (λ l. HasRoute l u d) (sym same) h
      | inr (e, _, _, c) ↦ Change-keeps (routes s) _ u d c h
    ]

    add_associations_keep :
        (ts : List AssociationTuple) (s : S) (u : AssociationTuple) (d : ℕ)
        → HasRoute (routes s) u d
        → HasRoute (routes (add_associations r table locals ts s)) u d
    unfolding add_associations
    add_associations_keep [] s u d h = h
    add_associations_keep (t ∷ ts) s u d h =
        add_associations_keep ts (add_association r table locals t s) u d
          (add_association_keeps t s u d h)

    add_association_reaches :
        (t : AssociationTuple) (s : S) (e : RoutingTableEntry)
        → is_local locals t ≡ false
        → lookup t.gateway_addr table ≡ some e
        → HasRoute (routes (add_association r table locals t s)) t e.distance
    unfolding add_association
    add_association_reaches t s e other known =
        rw (other, known) (Change-HasRoute (routes s) _ (route_by-Change t e s))

    add_associations_reach :
        (ts : List AssociationTuple) (s : S) (t : AssociationTuple) (e : RoutingTableEntry)
        → In t ts
        → is_local locals t ≡ false
        → lookup t.gateway_addr table ≡ some e
        → HasRoute (routes (add_associations r table locals ts s)) t e.distance
    unfolding add_associations
    add_associations_reach [] s t e i other known = absurd i
    add_associations_reach (u ∷ ts) s t e (inr i) other known =
        add_associations_reach ts (add_association r table locals u s) t e i other known
    add_associations_reach (u ∷ ts) s t e (inl same) other known =
        add_associations_keep ts (add_association r table locals u s) t e.distance (
          subst (λ z. HasRoute (routes (add_association r table locals z s)) t e.distance) same
            (add_association_reaches t s e other known))

    add_associations_from :
        (ts : List AssociationTuple) (s : S) (x : HnaRoute)
        → In x (routes (add_associations r table locals ts s))
        → In x (routes s) ⊎ IsOfTuple table locals ts x
    unfolding add_associations
    add_associations_from [] s x i = inl i
    add_associations_from (t ∷ ts) s x i =
        elim (add_associations_from ts (add_association r table locals t s) x i) [
          | inr (u, e, j, other, known, q) ↦ inr (u, e, inr j, other, known, q)
          | inl j ↦ elim (add_association_cases t s) [
            | inl same ↦ inl (subst (In x) same j)
            | inr (e, other, known, c) ↦ elim (Change-from (routes s) _ x c j) [
              | inl k ↦ inl k
              | inr q ↦ inr (t, e, inl refl, other, known, q)
            ]
          ]
        ]

    -- Step 5 ends. For every association tuple that the node does not announce itself, and whose
    -- gateway has an entry in the routing table, there is then a route to the tuple's network of at
    -- most as many hops as the gateway's entry. Every route is that of such a tuple, by the next hop,
    -- interface and distance of its gateway's entry, or one of the last half of the routes that were
    -- in the table before, which the loop that is to clear the table leaves.
    pub hna_routes-IsHnaTable :
        (ts : List AssociationTuple) (s : S)
        → (s' : S) × (hna_routes r table locals ts s ≡ some s')
          × IsHnaTable table locals ts (routes s) (routes s')
    unfolding hna_routes
    hna_routes-IsHnaTable ts s =
        let (c, e, q) = clear_routes_half laws s in
        let half : routes c ≡ drop ((length (routes s) + 1) / 2) (routes s) =
          subst (λ n. routes c ≡ drop ((n + 1) / 2) (routes s)) (laws.count s) q in
        (
          add_associations r table locals ts c,
          rw (e, hna_routes),
          record {
            reached = λ t f i other known. add_associations_reach ts c t f i other known;
            from = λ x i. elim (add_associations_from ts c x i) [
              | inl j ↦ inl (subst (In x) half j)
              | inr o ↦ inr o
            ];
          },
        )
