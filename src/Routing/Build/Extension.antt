-- ===== src/Routing/Build/Extension.antt =====
-- What one topology tuple, and one round of the loop over `h` in `RoutingTableComputation` of
-- RoutingProtocol/ocean-protocol.cc, keep in the table and add to it.
use maritime_mesh_network.Base.{
  ℕ, ◌+◌, ◌==◌, ◌≡◌, ◌∙◌, refl, true, false, Option, none, some, List, [], ◌∷◌, In, Bool-cases,
  Option-cases, inl, inr, is_some, subst, ap, ==_iff,
}
use maritime_mesh_network.Repositories.{Ipv4Address, TopologyTuple}
use maritime_mesh_network.Routing.{RoutingTableEntry, Table, lookup}
use maritime_mesh_network.Routing.Entries.{entry, lookup-add_entry}
use maritime_mesh_network.Routing.Build.{Round, add_topology, topology_round}
use maritime_mesh_network.Routing.Build.Topology.{extended, add_topology_cases, topology_round_rule}

abbrev pub begin : Table → Round
begin table = record { table = table; added = false }

pub extended_keeps :
    (h : ℕ) (t : TopologyTuple) (f : RoutingTableEntry) (r : Round) (a : Ipv4Address)
    (e : RoutingTableEntry)
    → lookup t.dest_addr r.table ≡ none
    → lookup a r.table ≡ some e
    → lookup a (extended h t f r).table ≡ some e
extended_keeps h t f r a e absent known = elim (Bool-cases (t.dest_addr == a)) [
  | inl q ↦ cc (ap (λ b. lookup b r.table) ((==_iff t.dest_addr a).0 q))
  | inr q ↦ lookup-add_entry t.dest_addr f.next_addr f.interface (h + 1) r.table a ∙ rw q known
]

pub topology_round_keeps :
    (h : ℕ) (ts : List TopologyTuple) (r : Round) (a : Ipv4Address) (e : RoutingTableEntry)
    → lookup a r.table ≡ some e
    → lookup a (topology_round h ts r).table ≡ some e
topology_round_keeps h ts r a e =
    topology_round_rule (λ s. lookup a s.table ≡ some e) h ts
      (λ t f s m absent known near p. extended_keeps h t f s a e absent p) r

pub is_some_of {ℓ} : {A : Type ℓ} (o : Option A) {a : A} → o ≡ some a → is_some o ≡ true
is_some_of o e = rw e

-- After the tuple was looked at, its destination has a route if its last address is `h` hops away.
pub add_topology_reaches :
    (h : ℕ) (t : TopologyTuple) (r : Round) (e : RoutingTableEntry)
    → lookup t.last_addr r.table ≡ some e
    → e.distance ≡ h
    → (f : RoutingTableEntry) × (lookup t.dest_addr (add_topology h t r).table ≡ some f)
unfolding add_topology
add_topology_reaches h t r e known near = elim (Option-cases (lookup t.dest_addr r.table)) [
  | inr (f, present) ↦ (f, rw present present)
  | inl absent ↦ (
    entry t.dest_addr e.next_addr e.interface (h + 1),
    rw (absent, known, (==_iff e.distance h).1 near)
        (lookup-add_entry t.dest_addr e.next_addr e.interface (h + 1) r.table t.dest_addr
          ∙ rw ((==_iff t.dest_addr t.dest_addr).1 refl)),
  )
]

pub add_topology_keeps :
    (h : ℕ) (t : TopologyTuple) (r : Round) (a : Ipv4Address) (e : RoutingTableEntry)
    → lookup a r.table ≡ some e
    → lookup a (add_topology h t r).table ≡ some e
add_topology_keeps h t r a e known = elim (add_topology_cases h t r) [
  | inl same ↦ rw same known
  | inr (f, absent, _, _, next) ↦ rw next (extended_keeps h t f r a e absent known)
]

pub topology_round_reaches :
    (h : ℕ) (t : TopologyTuple) (ts : List TopologyTuple) (r : Round) (e : RoutingTableEntry)
    → In t ts
    → lookup t.last_addr r.table ≡ some e
    → e.distance ≡ h
    → is_some (lookup t.dest_addr (topology_round h ts r).table) ≡ true
unfolding topology_round
topology_round_reaches h t [] r e m known near = absurd m
topology_round_reaches h t (u ∷ ts) r e (inl q) known near =
    let (f, p) = add_topology_reaches h t r e known near in
    let p' : lookup t.dest_addr (add_topology h u r).table ≡ some f =
      subst (λ (z : TopologyTuple). lookup t.dest_addr (add_topology h z r).table ≡ some f) q p in
    is_some_of _ (topology_round_keeps h ts (add_topology h u r) t.dest_addr f p')
topology_round_reaches h t (u ∷ ts) r e (inr m) known near =
    topology_round_reaches h t ts (add_topology h u r) e m
      (add_topology_keeps h u r t.last_addr e known) near
