-- ===== src/Routing/Build/Rooted.antt =====
-- The table that `RoutingTableComputation` of RoutingProtocol/ocean-protocol.cc builds: every
-- entry is stored under its destination and its next hop is direct.
use maritime_mesh_network.Base.{
  ℕ, suc, ◌+◌, ◌==◌, ◌≡◌, Bool, true, false, some, List, [], ◌∷◌, length, arith, All, Bool-cases,
  Option-cases, inl, inr, is_some,
}
use maritime_mesh_network.Repositories.{
  Ipv4Address, NeighborTuple, TwoHopNeighborTuple, TopologyTuple, IfaceAssocTuple, is_sym,
}
use maritime_mesh_network.Routing.{Table, lookup, clear}
use maritime_mesh_network.Routing.Entries.{
  IsRooted, clear-IsRooted, add_via-IsRooted, fresh_of_none, fresh_of_unbacked,
}
use maritime_mesh_network.Routing.Build.{
  add_two_hop, add_two_hops, is_attached, topology_round, add_iface_assoc, add_iface_assocs, Inputs,
  near_routes, routing_table,
}
use maritime_mesh_network.Routing.Build.Neighbors.{is_sym_main, is_backed, add_neighbors-IsRooted}
use maritime_mesh_network.Routing.Build.Topology.{
  topology_round_rule, topology_loop_ends, absent_count-le-length,
}

-- What the computation relies on. Main addresses are their own main addresses, which `ProcessMid`
-- sees to, and `FindSymNeighborTuple` finds a symmetric neighbor where there is one.
pub record IsConsistent (x : Inputs) : Type 0 where
  pub neighbors_normal :
      All
        (λ (nb : NeighborTuple).
          is_sym nb.status ≡ true → x.get_main nb.neighbor_main_addr ≡ nb.neighbor_main_addr)
        x.neighbors
  pub two_hops_normal :
      All
        (λ (t : TwoHopNeighborTuple). x.get_main t.two_hop_neighbor_addr ≡ t.two_hop_neighbor_addr)
        x.two_hops
  pub find_sym_complete :
      (a : Ipv4Address) → is_some (x.find_sym a) ≡ false → is_sym_main x.neighbors a ≡ false

-- What stands behind an address that is its own next hop.
abbrev pub backing : Inputs → Ipv4Address → Bool
backing x = is_backed x.get_main x.now x.links x.neighbors

module _ (x : Inputs) (c : IsConsistent x) where
  unbacked :
      (a : Ipv4Address) → x.get_main a ≡ a → is_some (x.find_sym a) ≡ false → backing x a ≡ false
  unbacked a normal absent = rw normal (rw (c.find_sym_complete a absent) (ground arith))

  add_two_hop-IsRooted :
      (t : TwoHopNeighborTuple) (table : Table)
      → x.get_main t.two_hop_neighbor_addr ≡ t.two_hop_neighbor_addr
      → IsRooted (backing x) table
      → IsRooted (backing x) (add_two_hop x.find_sym x.main x.neighbors t table)
  unfolding add_two_hop
  add_two_hop-IsRooted t table normal h =
      let a = t.two_hop_neighbor_addr in
      elim (Bool-cases (is_some (x.find_sym a))) [
        | inl found ↦ rw found h
        | inr absent ↦ elim (Bool-cases (a == x.main)) [
          | inl self ↦ rw (absent, self) h
          | inr other ↦ elim (Bool-cases (is_attached x.neighbors t.neighbor_main_addr)) [
            | inr loose ↦ rw (absent, other, loose) h
            | inl attached ↦ elim (Option-cases (lookup t.neighbor_main_addr table)) [
              | inl unknown ↦ rw (absent, other, attached, unknown) h
              | inr (e, known) ↦
                  rw (absent, other, attached, known)
                    (add_via-IsRooted (backing x) a e.next_addr e.interface 2 table
                      (fresh_of_unbacked a table (backing x) h (unbacked a normal absent))
                      (h.direct t.neighbor_main_addr e known) h)
            ]
          ]
        ]
      ]

  add_two_hops-IsRooted :
      (ts : List TwoHopNeighborTuple) (table : Table)
      → All
          (λ (t : TwoHopNeighborTuple).
            x.get_main t.two_hop_neighbor_addr ≡ t.two_hop_neighbor_addr)
          ts
      → IsRooted (backing x) table
      → IsRooted (backing x) (add_two_hops x.find_sym x.main x.neighbors ts table)
  unfolding add_two_hops
  add_two_hops-IsRooted [] table normal h = h
  add_two_hops-IsRooted (t ∷ ts) table (first, rest) h =
      add_two_hops-IsRooted ts _ rest (add_two_hop-IsRooted t table first h)

  pub near_routes-IsRooted : IsRooted (backing x) (near_routes x)
  unfolding near_routes
  near_routes-IsRooted = add_two_hops-IsRooted x.two_hops _ c.two_hops_normal (
      add_neighbors-IsRooted x.ipv4 x.get_main x.now x.links x.neighbors x.neighbors clear
        (λ a q. q) c.neighbors_normal (clear-IsRooted (backing x)))

topology_round-IsRooted :
    (backed : Ipv4Address → Bool) (ts : List TopologyTuple) (h : ℕ) (table : Table)
    → IsRooted backed table
    → IsRooted backed (topology_round h ts (record { table = table; added = false })).table
topology_round-IsRooted backed ts h table r =
    topology_round_rule (λ s. IsRooted backed s.table) h ts
      (λ t e s m absent known near p.
        add_via-IsRooted backed t.dest_addr e.next_addr e.interface (h + 1) s.table
          (fresh_of_none t.dest_addr s.table absent) (p.direct t.last_addr e known) p)
      (record { table = table; added = false }) r

add_iface_assoc-IsRooted :
    (backed : Ipv4Address → Bool) (t : IfaceAssocTuple) (table : Table)
    → IsRooted backed table
    → IsRooted backed (add_iface_assoc t table)
unfolding add_iface_assoc
add_iface_assoc-IsRooted backed t table h = elim (Option-cases (lookup t.main_addr table)) [
  | inl unknown ↦ rw (unknown, add_iface_assoc) h
  | inr (e, known) ↦ elim (Option-cases (lookup t.iface_addr table)) [
    | inr (f, present) ↦ rw (known, add_iface_assoc) (rw present h)
    | inl absent ↦
        rw (known, add_iface_assoc)
          (rw absent (
            add_via-IsRooted backed t.iface_addr e.next_addr e.interface e.distance table
              (fresh_of_none t.iface_addr table absent) (h.direct t.main_addr e known) h))
  ]
]

add_iface_assocs-IsRooted :
    (backed : Ipv4Address → Bool) (ts : List IfaceAssocTuple) (table : Table)
    → IsRooted backed table
    → IsRooted backed (add_iface_assocs ts table)
unfolding add_iface_assocs
add_iface_assocs-IsRooted backed [] table h = h
add_iface_assocs-IsRooted backed (t ∷ ts) table h =
    add_iface_assocs-IsRooted backed ts _ (add_iface_assoc-IsRooted backed t table h)

-- On consistent inputs the computation ends, and every entry of the table is stored under its
-- destination and has a next hop whose own entry leads to it in one hop.
pub routing_table-IsRooted :
    (x : Inputs)
    → IsConsistent x
    → (table : Table) × (routing_table x ≡ some table) × IsRooted (backing x) table
unfolding routing_table
routing_table-IsRooted x c =
    let (t, e, k, before, p, last) =
      topology_loop_ends (λ h table. IsRooted (backing x) table) x.topology
        (λ h table p. topology_round-IsRooted (backing x) x.topology h table p)
        (suc (length x.topology)) 2 (near_routes x)
        (omega (arith, absent_count-le-length x.topology (near_routes x)))
        (near_routes-IsRooted x c) in
    let rooted : IsRooted (backing x) t =
      rw last at (topology_round-IsRooted (backing x) x.topology k before p) in
    (
      add_iface_assocs x.iface_assocs t,
      rw (e, routing_table),
      add_iface_assocs-IsRooted (backing x) x.iface_assocs t rooted,
    )
