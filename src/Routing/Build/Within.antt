-- ===== src/Routing/Build/Within.antt =====
-- The distances of the table that `RoutingTableComputation` of RoutingProtocol/ocean-protocol.cc
-- builds in steps 1 to 3 before the loop over `h`.
use maritime_mesh_network.Base.{
  ℕ, ◌==◌, ◌≡◌, ◌≤◌, false, none, some, List, [], ◌∷◌, arith, Bool-cases, Option-cases, inl, inr,
  is_some,
}
use maritime_mesh_network.Repositories.{
  Ipv4Address, LinkTuple, NeighborTuple, TwoHopNeighborTuple, is_sym,
}
use maritime_mesh_network.Routing.{
  RoutingTableEntry, Table, Ipv4, lookup, clear, add_entry, add_entry_at,
}
use maritime_mesh_network.Routing.Entries.{lookup_cases, add_entry_at-eq, lookup-clear}
use maritime_mesh_network.Routing.Build.{
  LinkScan, is_link_of, scan_link, scan_links, add_main, add_neighbor, add_neighbors, is_attached,
  add_two_hop, add_two_hops, Inputs, near_routes,
}

-- No entry is more than `k` hops away.
abbrev pub IsWithin : ℕ → Table → Type 0
IsWithin k table =
    (a : Ipv4Address) (e : RoutingTableEntry) → lookup a table ≡ some e → e.distance ≤ k

add_entry-IsWithin :
    (dest next : Ipv4Address) (i d k : ℕ) (table : Table)
    → d ≤ k
    → IsWithin k table
    → IsWithin k (add_entry dest next i d table)
add_entry-IsWithin dest next i d k table le h a e l =
    elim (lookup_cases dest next i d table a e l) [ inl (p, q) ↦ rw q le | inr old ↦ h a e old ]

add_entry_at-IsWithin :
    (ipv4 : Ipv4) (dest next addr : Ipv4Address) (k : ℕ) (table : Table)
    → 1 ≤ k
    → IsWithin k table
    → IsWithin k (add_entry_at ipv4 dest next addr 1 table)
add_entry_at-IsWithin ipv4 dest next addr k table le h =
    let (i, q) = add_entry_at-eq ipv4 dest next addr 1 table in
    rw q (add_entry-IsWithin dest next i 1 k table le h)

module _ (x : Inputs) where
  scan_links-IsWithin :
      (nb : NeighborTuple) (ls : List LinkTuple) (s : LinkScan)
      → IsWithin 2 s.table
      → IsWithin 2 (scan_links x.ipv4 x.get_main x.now nb ls s).table
  unfolding scan_links scan_link
  scan_links-IsWithin nb [] s h = h
  scan_links-IsWithin nb (l ∷ ls) s h =
      scan_links-IsWithin nb ls _ (elim (Bool-cases (is_link_of x.get_main x.now nb l)) [
        | inl e ↦ rw e (
            add_entry_at-IsWithin x.ipv4 l.neighbor_iface_addr l.neighbor_iface_addr
              l.local_iface_addr 2 s.table (omega arith) h)
        | inr e ↦ rw e h
      ])

  add_main-IsWithin :
      (nb : NeighborTuple) (s : LinkScan)
      → IsWithin 2 s.table
      → IsWithin 2 (add_main x.ipv4 x.get_main x.now nb s)
  unfolding add_main
  add_main-IsWithin nb s h = elim (Bool-cases s.nb_main_addr) [
    | inl e ↦ rw e h
    | inr e ↦ elim (Option-cases s.lt) [
      | inl q ↦ rw (e, q) h
      | inr (l, q) ↦
          rw (e, q)
            (add_entry_at-IsWithin x.ipv4 nb.neighbor_main_addr l.neighbor_iface_addr
              l.local_iface_addr 2 s.table (omega arith) h)
    ]
  ]

  add_neighbors-IsWithin :
      (nbs : List NeighborTuple) (table : Table)
      → IsWithin 2 table
      → IsWithin 2 (add_neighbors x.ipv4 x.get_main x.now x.links nbs table)
  unfolding add_neighbors add_neighbor
  add_neighbors-IsWithin [] table h = h
  add_neighbors-IsWithin (nb ∷ nbs) table h =
      add_neighbors-IsWithin nbs _ (elim (Bool-cases (is_sym nb.status)) [
        | inl e ↦ rw e (
            add_main-IsWithin nb _ (
              scan_links-IsWithin nb x.links
                (record { table = table; nb_main_addr = false; lt = none }) h))
        | inr e ↦ rw e h
      ])

  add_two_hop-IsWithin :
      (t : TwoHopNeighborTuple) (table : Table)
      → IsWithin 2 table
      → IsWithin 2 (add_two_hop x.find_sym x.main x.neighbors t table)
  unfolding add_two_hop
  add_two_hop-IsWithin t table h =
      elim (Bool-cases (is_some (x.find_sym t.two_hop_neighbor_addr))) [
        | inl found ↦ rw found h
        | inr absent ↦ elim (Bool-cases (t.two_hop_neighbor_addr == x.main)) [
          | inl self ↦ rw (absent, self) h
          | inr other ↦ elim (Bool-cases (is_attached x.neighbors t.neighbor_main_addr)) [
            | inr loose ↦ rw (absent, other, loose) h
            | inl attached ↦ elim (Option-cases (lookup t.neighbor_main_addr table)) [
              | inl unknown ↦ rw (absent, other, attached, unknown) h
              | inr (e, known) ↦
                  rw (absent, other, attached, known)
                    (add_entry-IsWithin t.two_hop_neighbor_addr e.next_addr e.interface 2 2 table
                      (omega arith) h)
            ]
          ]
        ]
      ]

  add_two_hops-IsWithin :
      (ts : List TwoHopNeighborTuple) (table : Table)
      → IsWithin 2 table
      → IsWithin 2 (add_two_hops x.find_sym x.main x.neighbors ts table)
  unfolding add_two_hops
  add_two_hops-IsWithin [] table h = h
  add_two_hops-IsWithin (t ∷ ts) table h =
      add_two_hops-IsWithin ts _ (add_two_hop-IsWithin t table h)

  -- Before the loop over `h` no entry is more than two hops away.
  pub near_routes-IsWithin : IsWithin 2 (near_routes x)
  unfolding near_routes
  near_routes-IsWithin =
      add_two_hops-IsWithin x.two_hops _
        (add_neighbors-IsWithin x.neighbors clear (λ a e l. cc (lookup-clear a)))
