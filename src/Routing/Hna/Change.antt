-- ===== src/Routing/Hna/Change.antt =====
-- What one association tuple of step 5 of `RoutingTableComputation` of
-- RoutingProtocol/ocean-protocol.cc makes of a list of routes.
use maritime_mesh_network.Base.{
  ℕ, ◌≡◌, ◌≤◌, ◌∙◌, sym, ap, refl, inl, inr, ◌⊎◌, List, [], ◌∷◌, ◌++◌, arith, In, subst,
}
use maritime_mesh_network.Repositories.{AssociationTuple}
use maritime_mesh_network.Routing.{RoutingTableEntry}
use maritime_mesh_network.Routing.Hna.Contents.{HnaRoute, Matches}

pub In-append : (x : HnaRoute) (xs ys : List HnaRoute) → In x (xs ++ ys) → In x xs ⊎ In x ys
In-append x [] ys i = inr i
In-append x (y ∷ xs) ys (inl e) = inl (inl e)
In-append x (y ∷ xs) ys (inr i) = elim (In-append x xs ys i) [ inl j ↦ inl (inr j) | inr j ↦ inr j ]

pub In-left : (x : HnaRoute) (xs ys : List HnaRoute) → In x xs → In x (xs ++ ys)
In-left x (y ∷ xs) ys (inl e) = inl e
In-left x (y ∷ xs) ys (inr i) = inr (In-left x xs ys i)
In-left x [] ys i = absurd i

pub In-right : (x : HnaRoute) (xs ys : List HnaRoute) → In x ys → In x (xs ++ ys)
In-right x [] ys i = i
In-right x (y ∷ xs) ys i = inr (In-right x xs ys i)

-- The route of a tuple, by way of the gateway's entry.
abbrev pub route_of : AssociationTuple → RoutingTableEntry → HnaRoute
route_of t e = record {
  network = t.network_addr;
  mask = t.netmask;
  gateway = e.next_addr;
  interface = e.interface;
  metric = e.distance;
}

-- There is a route to the network of the tuple of at most `d` hops.
abbrev pub HasRoute : List HnaRoute → AssociationTuple → ℕ → Type 0
HasRoute rs t d = (x : HnaRoute) × In x rs × Matches t x × (x.metric ≤ d)

-- What a tuple makes of the routes: they stay, or the new route comes last, perhaps in place of a
-- longer one to the same network.
pub data Change (t : AssociationTuple) (e : RoutingTableEntry) (old new : List HnaRoute)
    : Type 0 where
  kept : HasRoute old t e.distance → new ≡ old → Change t e old new
  appended : new ≡ old ++ route_of t e ∷ [] → Change t e old new
  replaced :
      (left right : List HnaRoute) (x : HnaRoute)
      → old ≡ left ++ x ∷ right
      → Matches t x
      → e.distance ≤ x.metric
      → new ≡ (left ++ right) ++ route_of t e ∷ []
      → Change t e old new

pub Change-HasRoute :
    {t : AssociationTuple} {e : RoutingTableEntry} (old new : List HnaRoute)
    → Change t e old new
    → HasRoute new t e.distance
Change-HasRoute {t} {e} old new (kept h q) = subst (λ l. HasRoute l t e.distance) (sym q) h
Change-HasRoute {t} {e} old new (appended q) = (
  route_of t e,
  subst (In (route_of t e)) (sym q) (In-right (route_of t e) old (route_of t e ∷ []) (inl refl)),
  (refl, refl),
  omega arith,
)
Change-HasRoute {t} {e} old new (replaced left right x o m le q) = (
  route_of t e,
  subst (In (route_of t e)) (sym q)
      (In-right (route_of t e) (left ++ right) (route_of t e ∷ []) (inl refl)),
  (refl, refl),
  omega arith,
)

pub Change-keeps :
    {t : AssociationTuple} {e : RoutingTableEntry} (old new : List HnaRoute) (u : AssociationTuple)
    (d : ℕ)
    → Change t e old new
    → HasRoute old u d
    → HasRoute new u d
Change-keeps {t} {e} old new u d (kept _ q) h = subst (λ l. HasRoute l u d) (sym q) h
Change-keeps {t} {e} old new u d (appended q) (x, i, m, le) =
    (x, subst (In x) (sym q) (In-left x old (route_of t e ∷ []) i), m, le)
Change-keeps {t} {e} old new u d (replaced left right y o (my, mm) ge q) (x, i, (nx, mx), le) =
    elim (In-append x left (y ∷ right) (subst (In x) o i)) [
      | inl j ↦ (
        x,
        subst (In x) (sym q)
            (In-left x (left ++ right) (route_of t e ∷ []) (In-left x left right j)),
        (nx, mx),
        le,
      )
      | inr (inr j) ↦ (
        x,
        subst (In x) (sym q)
            (In-left x (left ++ right) (route_of t e ∷ []) (In-right x left right j)),
        (nx, mx),
        le,
      )
      | inr (inl same) ↦
          let n : x.network ≡ y.network = ap (λ z. z.network) same in
          let k : x.mask ≡ y.mask = ap (λ z. z.mask) same in
          let g : x.metric ≡ y.metric = ap (λ z. z.metric) same in
          (
            route_of t e,
            subst (In (route_of t e)) (sym q)
                (In-right (route_of t e) (left ++ right) (route_of t e ∷ []) (inl refl)),
            (sym my ∙ (sym n ∙ nx), sym mm ∙ (sym k ∙ mx)),
            omega arith,
          )
    ]

-- Every new route is an old one or that of the tuple.
pub Change-from :
    {t : AssociationTuple} {e : RoutingTableEntry} (old new : List HnaRoute) (x : HnaRoute)
    → Change t e old new
    → In x new
    → In x old ⊎ (x ≡ route_of t e)
Change-from {t} {e} old new x (kept _ q) i = inl (subst (In x) q i)
Change-from {t} {e} old new x (appended q) i =
    elim (In-append x old (route_of t e ∷ []) (subst (In x) q i)) [
      | inl j ↦ inl j
      | inr (inl s) ↦ inr s
      | inr (inr j) ↦ absurd j
    ]
Change-from {t} {e} old new x (replaced left right y o _ _ q) i =
    elim (In-append x (left ++ right) (route_of t e ∷ []) (subst (In x) q i)) [
      | inr (inl s) ↦ inr s
      | inr (inr j) ↦ absurd j
      | inl j ↦ inl (
          subst (In x) (sym o) (elim (In-append x left right j) [
            | inl k ↦ In-left x left (y ∷ right) k
            | inr k ↦ In-right x left (y ∷ right) (inr k)
          ]))
    ]
