-- ===== src/Routing/Hna/Contents.antt =====
-- What RoutingProtocol/ocean-protocol.cc relies on in ns-3's `Ipv4StaticRouting`: it keeps a list
-- of routes.
use maritime_mesh_network.Base.{
  ℕ, zero, suc, ◌+◌, ◌==◌, ◌≡◌, ◌∙◌, sym, ap, refl, Bool-cases, inl, inr, ◌⊎◌, ◌&&◌, List, [], ◌∷◌,
  ◌++◌, length, length-append, arith,
}
use mathlib.Core.List.{append_assoc}
use maritime_mesh_network.Repositories.{Ipv4Address, Ipv4Mask, AssociationTuple}
use maritime_mesh_network.Routing.Hna.{StaticRouting, route_index}

pub record HnaRoute : Type 0 where
  pub network : Ipv4Address
  pub mask : Ipv4Mask
  pub gateway : Ipv4Address
  pub interface : ℕ
  pub metric : ℕ

abbrev pub remove_at : ℕ → List HnaRoute → List HnaRoute
remove_at i [] = []
remove_at zero (x ∷ xs) = xs
remove_at (suc i) (x ∷ xs) = x ∷ remove_at i xs

-- The documented behaviour of the calls, by the list of routes: an index counts from the front, a
-- removal takes one route out, and a new route comes last.
pub record IsStaticRouting {S : Type 0} (r : StaticRouting S) (routes : S → List HnaRoute)
    : Type 0 where
  pub count : (s : S) → r.n_routes s ≡ length (routes s)
  pub read :
      (s : S) (before after : List HnaRoute) (x : HnaRoute)
      → routes s ≡ before ++ x ∷ after
      → (r.dest_network s (length before) ≡ x.network)
        × (r.dest_network_mask s (length before) ≡ x.mask)
        × (r.metric s (length before) ≡ x.metric)
  pub removed : (s : S) (i : ℕ) → routes (r.remove_route i s) ≡ remove_at i (routes s)
  pub added :
      (s : S) (x : HnaRoute)
      → routes (r.add_network_route_to x.network x.mask x.gateway x.interface x.metric s)
        ≡ routes s ++ x ∷ []

pub remove_at-append :
    (before after : List HnaRoute) (x : HnaRoute)
    → remove_at (length before) (before ++ x ∷ after) ≡ before ++ after
remove_at-append [] after x = refl
remove_at-append (y ∷ before) after x = ap (λ l. y ∷ l) (remove_at-append before after x)

-- The route is to the network of the tuple.
abbrev pub Matches : AssociationTuple → HnaRoute → Type 0
Matches t x = (x.network ≡ t.network_addr) × (x.mask ≡ t.netmask)

module _ {S : Type 0} {r : StaticRouting S} {routes : S → List HnaRoute}
    (laws : IsStaticRouting r routes) where
  -- The search ends behind the last route, or at a route to the network.
  pub route_index_cases :
      (s : S) (t : AssociationTuple) (before after : List HnaRoute)
      → routes s ≡ before ++ after
      → (route_index r s t (length after) (length before) ≡ length before + length after)
        ⊎ ((left : List HnaRoute) × (x : HnaRoute) × (right : List HnaRoute) × (routes s
              ≡ left ++ x ∷ right)
            × Matches t x
            × (route_index r s t (length after) (length before) ≡ length left))
  unfolding route_index
  route_index_cases s t before [] e = inl (omega arith)
  route_index_cases s t before (x ∷ after) e =
      let (n, m, _) = laws.read s before after x e in
      let i = length before in
      let e' : routes s ≡ (before ++ x ∷ []) ++ after =
        e ∙ sym (append_assoc before (x ∷ []) after) in
      let next : length (before ++ x ∷ []) ≡ length before + 1 =
        omega (arith, length-append before (x ∷ [])) in
      elim (Bool-cases
        (r.dest_network s i == t.network_addr && r.dest_network_mask s i == t.netmask)) [
          | inl hit ↦ inr (before, x, after, e, (ground arith, ground arith), rw hit)
          | inr miss ↦ elim (rw next at (route_index_cases s t (before ++ x ∷ []) after e')) [
            | inl last ↦ inl (rw miss (omega arith))
            | inr (left, y, right, q, found, at_left) ↦
                inr (left, y, right, q, found, rw miss at_left)
          ]
        ]
