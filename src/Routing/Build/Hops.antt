-- ===== src/Routing/Build/Hops.antt =====
-- The routes over topology tuples in the table that `RoutingTableComputation` of
-- RoutingProtocol/ocean-protocol.cc builds in steps 1 to 3.
use maritime_mesh_network.Base.{
  ℕ, suc, ◌+◌, ◌==◌, ◌≡◌, ◌≤◌, ◌<◌, refl, true, false, some, List, length, arith, In, Bool-cases,
  Option-cases, inl, inr, is_some, sym, ap, ==_iff,
}
use maritime_mesh_network.Repositories.{Ipv4Address, TopologyTuple}
use maritime_mesh_network.Routing.{RoutingTableEntry, Table, lookup}
use maritime_mesh_network.Routing.Entries.{lookup_cases}
use maritime_mesh_network.Routing.Build.{Round, topology_round, Inputs, near_routes, far_routes}
use maritime_mesh_network.Routing.Build.Topology.{
  topology_round_rule, topology_loop_ends, absent_count-le-length,
}
use maritime_mesh_network.Routing.Build.Within.{IsWithin, near_routes-IsWithin}
use maritime_mesh_network.Routing.Build.Extension.{
  begin, extended_keeps, topology_round_keeps, is_some_of, topology_round_reaches,
}

-- An entry that extends, over a topology tuple, the route to the tuple's last address: one hop
-- more, by the same next hop and interface.
abbrev pub Extends : List TopologyTuple → Table → Ipv4Address → RoutingTableEntry → Type 0
Extends ts table a e =
    (t : TopologyTuple) × In t ts
    × (t.dest_addr ≡ a)
    × (f : RoutingTableEntry) × (lookup t.last_addr table ≡ some f)
    × (f.distance + 1 ≡ e.distance)
    × (f.next_addr ≡ e.next_addr)
    × (f.interface ≡ e.interface)

-- The tables of the loop at the beginning of round `h`.
record IsSpread (ts : List TopologyTuple) (h : ℕ) (table : Table) : Type 0 where
  within : IsWithin h table
  chained :
      (a : Ipv4Address) (e : RoutingTableEntry)
      → lookup a table ≡ some e
      → 3 ≤ e.distance
      → Extends ts table a e
  closed :
      (t : TopologyTuple) (e : RoutingTableEntry)
      → In t ts
      → lookup t.last_addr table ≡ some e
      → 2 ≤ e.distance
      → e.distance < h
      → is_some (lookup t.dest_addr table) ≡ true

module _ (ts : List TopologyTuple) (h : ℕ) (table : Table) where
  abbrev end : Round
  end = topology_round h ts (begin table)

  round-IsWithin : IsWithin h table → IsWithin (h + 1) end.table
  round-IsWithin w =
      topology_round_rule (λ r. IsWithin (h + 1) r.table) h ts
        (λ t f r m absent known near p a e l.
          elim (lookup_cases t.dest_addr f.next_addr f.interface (h + 1) r.table a e l) [
            | inl (_, q) ↦ rw q (omega arith)
            | inr old ↦ p a e old
          ])
        (begin table) (λ a e l. omega (arith, w a e l))

  -- The entries within `h` hops were there before the round.
  round_old :
      (a : Ipv4Address) (e : RoutingTableEntry)
      → lookup a end.table ≡ some e
      → e.distance ≤ h
      → lookup a table ≡ some e
  round_old =
      topology_round_rule
        (λ r.
          (a : Ipv4Address) (e : RoutingTableEntry)
          → lookup a r.table ≡ some e
          → e.distance ≤ h
          → lookup a table ≡ some e)
        h ts
        (λ t f r m absent known near p a e l le.
          elim (lookup_cases t.dest_addr f.next_addr f.interface (h + 1) r.table a e l) [
            | inl (_, q) ↦ absurd (omega (arith, ap (λ (z : RoutingTableEntry). z.distance) q))
            | inr old ↦ p a e old le
          ])
        (begin table) (λ a e l le. l)

  round_chained :
      ((a : Ipv4Address) (e : RoutingTableEntry)
        → lookup a table ≡ some e
        → 3 ≤ e.distance
        → Extends ts table a e)
      → (a : Ipv4Address) (e : RoutingTableEntry) → lookup a end.table ≡ some e
      → 3 ≤ e.distance
      → Extends ts end.table a e
  round_chained start =
      topology_round_rule
        (λ r.
          (a : Ipv4Address) (e : RoutingTableEntry)
          → lookup a r.table ≡ some e
          → 3 ≤ e.distance
          → Extends ts r.table a e)
        h ts
        (λ t f r m absent known near p a e l le.
          elim (lookup_cases t.dest_addr f.next_addr f.interface (h + 1) r.table a e l) [
            | inl (d, q) ↦ (
              t,
              m,
              d,
              f,
              extended_keeps h t f r t.last_addr f absent known,
              omega (arith, ap (λ (z : RoutingTableEntry). z.distance) q),
              ap (λ (z : RoutingTableEntry). z.next_addr) (sym q),
              ap (λ (z : RoutingTableEntry). z.interface) (sym q),
            )
            | inr old ↦
                let (u, n, d, g, k, c1, c2, c3) = p a e old le in
                (u, n, d, g, extended_keeps h t f r u.last_addr g absent k, c1, c2, c3)
          ])
        (begin table) start

  -- A round that adds nothing leaves the table within `h` hops.
  round_idle : IsWithin h table → end.added ≡ false → IsWithin h end.table
  round_idle w =
      topology_round_rule (λ r. r.added ≡ false → IsWithin h r.table) h ts
        (λ t f r m absent known near p q. cc) (begin table) (λ q. w)

  round-IsSpread : IsSpread ts h table → IsSpread ts (h + 1) end.table
  round-IsSpread s = record {
    within = round-IsWithin s.within;
    chained = round_chained s.chained;
    closed = λ t e m known far le.
        let old = round_old t.last_addr e known (omega arith) in
        elim (Bool-cases (e.distance == h)) [
          | inl near ↦
              topology_round_reaches h t ts (begin table) e m old ((==_iff e.distance h).0 near)
          | inr less ↦ elim (Option-cases (lookup t.dest_addr table)) [
            | inr (f, present) ↦
                is_some_of _ (topology_round_keeps h ts (begin table) t.dest_addr f present)
            | inl absent ↦ cc (s.closed t e m old far (ground arith))
          ]
        ];
  }

-- What the distances of a table say of the topology set: an entry of three or more hops extends
-- a route over a topology tuple, and every topology tuple whose last address is reached in two or
-- more hops has a route to its destination.
pub record IsHopTable (ts : List TopologyTuple) (table : Table) : Type 0 where
  pub chained :
      (a : Ipv4Address) (e : RoutingTableEntry)
      → lookup a table ≡ some e
      → 3 ≤ e.distance
      → Extends ts table a e
  pub closed :
      (t : TopologyTuple) (e : RoutingTableEntry)
      → In t ts
      → lookup t.last_addr table ≡ some e
      → 2 ≤ e.distance
      → is_some (lookup t.dest_addr table) ≡ true

near_routes-IsSpread : (x : Inputs) → IsSpread x.topology 2 (near_routes x)
near_routes-IsSpread x =
    let w = near_routes-IsWithin x in
    record {
      within = w;
      chained = λ a e l le. absurd (omega (arith, w a e l));
      closed = λ t e m l far le. absurd (omega arith);
    }

-- Steps 1 to 3 end on every input. In the table that they build an entry of three or more hops
-- has a topology tuple to its destination, whose last address has a route of one hop less by the
-- same next hop and interface; and every topology tuple whose last address is reached in two or
-- more hops has a route to its destination.
pub far_routes-IsHopTable :
    (x : Inputs) → (table : Table) × (far_routes x ≡ some table) × IsHopTable x.topology table
unfolding far_routes
far_routes-IsHopTable x =
    let ts = x.topology in
    let (t, e, k, before, s, last) =
      topology_loop_ends (IsSpread ts) ts (round-IsSpread ts) (suc (length ts)) 2 (near_routes x)
        (omega (arith, absent_count-le-length ts (near_routes x))) (near_routes-IsSpread x) in
    let spread : IsSpread ts (k + 1) t = rw last at (round-IsSpread ts k before s) in
    let idle : IsWithin k t = (rw last at (round_idle ts k before s.within)) refl in
    (
      t,
      e,
      record {
        chained = spread.chained;
        closed = λ u f m l far. spread.closed u f m l far (omega (arith, idle u.last_addr f l));
      },
    )
