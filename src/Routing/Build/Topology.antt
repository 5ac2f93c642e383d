-- ===== src/Routing/Build/Topology.antt =====
-- Step 3.1 of `RoutingTableComputation` of RoutingProtocol/ocean-protocol.cc: what one topology
-- tuple and one round do, and that the loop over `h` ends.
use maritime_mesh_network.Base.{
  ℕ, zero, suc, ◌+◌, ◌==◌, ◌≡◌, ◌≤◌, ◌<◌, ◌⊎◌, ◌||◌, refl, Bool, true, false, none, some, List, [],
  ◌∷◌, In, length, arith, Bool-cases, Option-cases, inl, inr, is_some, if◌then◌else◌, ==_iff,
}
use maritime_mesh_network.Repositories.{Ipv4Address, TopologyTuple}
use maritime_mesh_network.Routing.{RoutingTableEntry, Table, lookup, add_entry}
use maritime_mesh_network.Routing.Entries.{lookup-add_entry}
use maritime_mesh_network.Routing.Build.{Round, add_topology, topology_round, topology_loop}

-- The round after the entry for the tuple was added, along the route to its last address.
abbrev pub extended : ℕ → TopologyTuple → RoutingTableEntry → Round → Round
extended h t e r = record {
  table = add_entry t.dest_addr e.next_addr e.interface (h + 1) r.table;
  added = true;
}

-- A tuple changes nothing, or extends a route of `h` hops to an address that has none.
pub add_topology_cases :
    (h : ℕ) (t : TopologyTuple) (r : Round)
    → (add_topology h t r ≡ r)
      ⊎ (e : RoutingTableEntry) × (lookup t.dest_addr r.table ≡ none)
        × (lookup t.last_addr r.table ≡ some e)
        × (e.distance ≡ h)
        × (add_topology h t r ≡ extended h t e r)
unfolding add_topology
add_topology_cases h t r = elim (Option-cases (lookup t.dest_addr r.table)) [
  | inr (d, present) ↦ inl (rw present)
  | inl absent ↦ elim (Option-cases (lookup t.last_addr r.table)) [
    | inl unknown ↦ inl (rw (absent, unknown))
    | inr (e, known) ↦ elim (Bool-cases (e.distance == h)) [
      | inr far ↦ inl (rw (absent, known, far))
      | inl near ↦ inr (e, absent, known, ground arith, rw (absent, known, near))
    ]
  ]
]

-- What each extension by a tuple of the set keeps, a round keeps.
pub topology_round_rule :
    (P : Round → Type 0) (h : ℕ) (ts : List TopologyTuple)
    → ((t : TopologyTuple) (e : RoutingTableEntry) (r : Round)
        → In t ts
        → lookup t.dest_addr r.table ≡ none
        → lookup t.last_addr r.table ≡ some e
        → e.distance ≡ h
        → P r
        → P (extended h t e r))
    → (r : Round) → P r
    → P (topology_round h ts r)
unfolding topology_round
topology_round_rule P h [] keep r p = p
topology_round_rule P h (t ∷ ts) keep r p =
    topology_round_rule P h ts (λ u e q m. keep u e q (inr m)) _
      (elim (add_topology_cases h t r) [
        | inl same ↦ rw same p
        | inr (e, absent, known, near, next) ↦ rw next (keep t e r (inl refl) absent known near p)
      ])

-- The tuples whose destination has no route.
pub absent_count : List TopologyTuple → Table → ℕ
absent_count [] table = 0
absent_count (t ∷ ts) table =
    let rest = absent_count ts table in
    if is_some (lookup t.dest_addr table) then rest else suc rest

abbrev has_dest : List TopologyTuple → Ipv4Address → Bool
has_dest [] a = false
has_dest (t ∷ ts) a = t.dest_addr == a || has_dest ts a

pub absent_count-le-length :
    (ts : List TopologyTuple) (table : Table) → absent_count ts table ≤ length ts
unfolding absent_count
absent_count-le-length [] table = omega arith
absent_count-le-length (t ∷ ts) table = ground (arith, absent_count-le-length ts table)

module _ (dest next : Ipv4Address) (i k : ℕ) (table : Table) where
  absent_count-add_entry :
      (ts : List TopologyTuple)
      → absent_count ts (add_entry dest next i k table) ≤ absent_count ts table
  unfolding absent_count
  absent_count-add_entry [] = omega arith
  absent_count-add_entry (t ∷ ts) =
      ground (arith, absent_count-add_entry ts, lookup-add_entry dest next i k table t.dest_addr)

  absent_count-add_entry_lt :
      (ts : List TopologyTuple)
      → has_dest ts dest ≡ true
      → lookup dest table ≡ none
      → absent_count ts (add_entry dest next i k table) < absent_count ts table
  unfolding absent_count
  absent_count-add_entry_lt [] h e = cc
  absent_count-add_entry_lt (t ∷ ts) h e = elim (Bool-cases (t.dest_addr == dest)) [
    | inl q ↦ rw ((==_iff t.dest_addr dest).0 q) (
        rw (lookup-add_entry dest next i k table dest, (==_iff dest dest).1 refl, e)
          (omega (arith, absent_count-add_entry ts)))
    | inr q ↦ ground (
      arith,
      absent_count-add_entry_lt ts (ground arith) e,
      lookup-add_entry dest next i k table t.dest_addr,
    )
  ]

has_dest_of_In :
    (t : TopologyTuple) (ts : List TopologyTuple) → In t ts → has_dest ts t.dest_addr ≡ true
has_dest_of_In t [] m = absurd m
has_dest_of_In t (u ∷ ts) (inl e) = rw e (ground arith)
has_dest_of_In t (u ∷ ts) (inr m) = ground (arith, has_dest_of_In t ts m)

-- A round that adds an entry leaves fewer tuples without a route.
pub topology_round_shrinks :
    (h : ℕ) (ts : List TopologyTuple) (table : Table)
    → let r = topology_round h ts (record { table = table; added = false }) in
      r.added ≡ true → absent_count ts r.table < absent_count ts table
topology_round_shrinks h ts table =
    (topology_round_rule
      (λ r.
        (absent_count ts r.table ≤ absent_count ts table)
        × (r.added ≡ true → absent_count ts r.table < absent_count ts table))
      h ts
      (λ t e r m absent known near (le, lt).
        let less =
          absent_count-add_entry_lt t.dest_addr e.next_addr e.interface (h + 1) r.table ts
            (has_dest_of_In t ts m) absent in
        (omega arith, λ _. omega arith))
      (record { table = table; added = false }) (omega arith, λ q. cc)).1

-- With more fuel than there are tuples without a route the loop ends. What every round keeps
-- holds then, and the last round added nothing.
pub topology_loop_ends :
    (P : ℕ → Table → Type 0) (ts : List TopologyTuple)
    → ((h : ℕ) (table : Table)
        → P h table
        → P (h + 1) (topology_round h ts (record { table = table; added = false })).table)
    → (fuel h : ℕ) (table : Table) → absent_count ts table < fuel
    → P h table
    → (t : Table) × (topology_loop ts fuel h table ≡ some t)
      × (k : ℕ) × (before : Table) × P k before
      × (topology_round k ts (record { table = before; added = false })
          ≡ record { table = t; added = false })
unfolding topology_loop
topology_loop_ends P ts keep zero h table lt p = absurd (omega arith)
topology_loop_ends P ts keep (suc fuel) h table lt p =
    let r = topology_round h ts (record { table = table; added = false }) in
    elim (Bool-cases r.added) [
      | inr done ↦ (r.table, rw done, h, table, p, λ i. record { table = r.table; added = done i })
      | inl more ↦
          let less = topology_round_shrinks h ts table more in
          rw more (topology_loop_ends P ts keep fuel (h + 1) r.table (omega arith) (keep h table p))
    ]
