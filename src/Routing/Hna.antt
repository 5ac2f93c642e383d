-- ===== src/Routing/Hna.antt =====
-- Step 5 of `RoutingTableComputation` of RoutingProtocol/ocean-protocol.cc: the routes to the
-- networks that other nodes announce, in `m_hnaRoutingTable`. ns-3's `Ipv4StaticRouting` is an
-- interface over any type of states.
pub mod Contents
pub mod Cleared
pub mod Change
pub mod Best
use maritime_mesh_network.Base.{
  ℕ, zero, suc, ◌+◌, ◌==◌, ltb, Bool, ◌&&◌, Option, none, some, List, [], ◌∷◌, any, if◌then◌else◌,
}
use maritime_mesh_network.Repositories.{Ipv4Address, Ipv4Mask, AssociationTuple, Association}
use maritime_mesh_network.Routing.{RoutingTableEntry, Table, lookup}

-- The calls of the source: `GetNRoutes`, `GetRoute (i).GetDestNetwork ()`,
-- `GetRoute (i).GetDestNetworkMask ()`, `GetMetric`, `RemoveRoute` and `AddNetworkRouteTo`.
pub record StaticRouting (S : Type 0) : Type 0 where
  pub n_routes : S → ℕ
  pub dest_network : S → ℕ → Ipv4Address
  pub dest_network_mask : S → ℕ → Ipv4Mask
  pub metric : S → ℕ → ℕ
  pub remove_route : ℕ → S → S
  pub add_network_route_to : Ipv4Address → Ipv4Mask → Ipv4Address → ℕ → ℕ → S → S

-- The tuple's network is announced by this node.
unfoldable pub is_local : List Association → AssociationTuple → Bool
is_local locals t = any (λ a. a.network_addr == t.network_addr && a.netmask == t.netmask) locals

module _ {S : Type 0} (r : StaticRouting S) where
  -- `for (i = 0; i < GetNRoutes (); i++) RemoveRoute (0)`, with fuel.
  unfoldable pub clear_routes : ℕ → ℕ → S → Option S
  clear_routes zero i s = none
  clear_routes (suc fuel) i s =
      let more = clear_routes fuel (i + 1) (r.remove_route 0 s) in
      if ltb i (r.n_routes s) then more else some s

  -- The loop over `routeIndex`, from `i` on, `k` rounds before its end.
  unfoldable pub route_index : S → AssociationTuple → ℕ → ℕ → ℕ
  route_index s t zero i = i
  route_index s t (suc k) i =
      let rest = route_index s t k (i + 1) in
      if r.dest_network s i == t.network_addr && r.dest_network_mask s i == t.netmask
      then i
      else rest

  unfoldable pub add_route : AssociationTuple → RoutingTableEntry → S → S
  add_route t e s =
      r.add_network_route_to t.network_addr t.netmask e.next_addr e.interface e.distance s

  -- One tuple, by way of the gateway's entry `e`.
  unfoldable pub route_by : AssociationTuple → RoutingTableEntry → S → S
  unfolding add_route route_index
  route_by t e s =
      let i = route_index s t (r.n_routes s) 0 in
      if i == r.n_routes s
      then add_route t e s
      else if ltb e.distance (r.metric s i)
      then add_route t e (r.remove_route i s)
      else s

  -- One tuple. Without an entry for the gateway nothing is removed and nothing is added.
  unfoldable pub add_association : Table → List Association → AssociationTuple → S → S
  unfolding is_local route_by
  add_association table locals t s =
      if is_local locals t
      then s
      else elim (lookup t.gateway_addr table) [ none ↦ s | some e ↦ route_by t e s ]

  unfoldable pub add_associations : Table → List Association → List AssociationTuple → S → S
  unfolding add_association
  add_associations table locals [] s = s
  add_associations table locals (t ∷ ts) s =
      add_associations table locals ts (add_association table locals t s)

  -- The whole step. One round more than there are routes is enough for the clearing.
  unfoldable pub hna_routes : Table → List Association → List AssociationTuple → S → Option S
  unfolding clear_routes add_associations
  hna_routes table locals ts s = elim (clear_routes (suc (r.n_routes s)) 0 s) [
    | none ↦ none
    | some cleared ↦ some (add_associations table locals ts cleared)
  ]
