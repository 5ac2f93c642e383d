-- ===== src/Routing/Send/Direct.antt =====
-- Sending by the table of `RoutingTableComputation` in RoutingProtocol/ocean-protocol.cc.
use maritime_mesh_network.Base.{
  ℕ, zero, suc, ◌==◌, ◌≡◌, ◌∙◌, sym, ap, subst, Bool, Option, some, Bool-cases, inl, inr, ==_iff,
  if◌then◌else◌,
}
use maritime_mesh_network.Repositories.{Ipv4Address}
use maritime_mesh_network.Routing.{RoutingTableEntry, Table, Ipv4, lookup}
use maritime_mesh_network.Routing.Entries.{IsRooted}
use maritime_mesh_network.Routing.Build.{Inputs, routing_table}
use maritime_mesh_network.Routing.Build.Rooted.{IsConsistent, backing, routing_table-IsRooted}
use maritime_mesh_network.Routing.Send.{
  found, find_send_entry, Oif, is_other_interface, Output, routed, make_route, send_by,
  no_route_to_host, aliasing_unsupported, route_output, Ipv4Route,
}

-- `FindSendEntry` returns an entry that leads to its own destination at once.
find_send_entry_own :
    (table : Table) (fuel : ℕ) (e : RoutingTableEntry)
    → e.dest_addr ≡ e.next_addr
    → find_send_entry table fuel e ≡ found e
unfolding find_send_entry
find_send_entry_own table zero e q = rw ((==_iff e.dest_addr e.next_addr).1 q)
find_send_entry_own table (suc fuel) e q = rw ((==_iff e.dest_addr e.next_addr).1 q)

-- In a rooted table `FindSendEntry` returns the entry of the next hop within one round.
find_send_entry_direct :
    (backed : Ipv4Address → Bool) (table : Table) (a : Ipv4Address) (e : RoutingTableEntry)
    (fuel : ℕ)
    → IsRooted backed table
    → lookup a table ≡ some e
    → (f : RoutingTableEntry) × (lookup e.next_addr table ≡ some f)
      × (f.next_addr ≡ e.next_addr)
      × (f.distance ≡ 1)
      × (find_send_entry table (suc fuel) e ≡ found f)
find_send_entry_direct backed table a e fuel h l =
    let (f, k, n, d) = h.direct a e l in
    let own : f.dest_addr ≡ f.next_addr = h.keyed e.next_addr f k ∙ sym n in
    (
      f,
      k,
      n,
      d,
      elim (Bool-cases (e.dest_addr == e.next_addr)) [
        | inl q ↦
            let p : e.dest_addr ≡ e.next_addr = (==_iff e.dest_addr e.next_addr).0 q in
            let b : e.next_addr ≡ a = sym p ∙ h.keyed a e l in
            let same : some e ≡ some f =
              sym l ∙ (ap (λ (z : Ipv4Address). lookup z table) (sym b) ∙ k) in
            find_send_entry_own table (suc fuel) e p ∙ cc same
        | inr q ↦ unfold find_send_entry in rw (q, k) (find_send_entry_own table fuel f own)
      ],
    )

-- What `RouteOutput` answers for a destination whose next hop is `gateway`, reached by interface
-- `i`.
abbrev pub answer : Ipv4 → Ipv4Address → Oif → Ipv4Address → ℕ → Output
answer ipv4 dest oif gateway i =
    if is_other_interface oif i
    then no_route_to_host
    else if ipv4.n_addresses i == 1
    then routed (record {
      destination = dest;
      source = ipv4.get_address i 0;
      gateway = gateway;
      output_interface = i;
    })
    else aliasing_unsupported

answer_of_found :
    (ipv4 : Ipv4) (hna_route : Ipv4Address → Option Ipv4Route) (table : Table) (a : Ipv4Address)
    (e f : RoutingTableEntry) (fuel : ℕ) (oif : Oif)
    → lookup a table ≡ some e
    → find_send_entry table fuel e ≡ found f
    → f.next_addr ≡ e.next_addr
    → route_output ipv4 hna_route table fuel a oif ≡ answer ipv4 a oif e.next_addr f.interface
unfolding route_output send_by make_route
answer_of_found ipv4 hna_route table a e f fuel oif l s n =
    rw (l, route_output) (rw (s, send_by) (rw n))

-- On the table of a computation with consistent inputs `RouteOutput` never fails to find the
-- entry to send by, and returns after one round of `FindSendEntry`: for a destination with an
-- entry the gateway is the entry's next hop, which is one hop away, and the interface is the one
-- that the next hop's own entry names. The only other answers are that this is not the interface
-- asked for, or that the interface has not exactly one address.
pub route_output_by_table :
    (x : Inputs) (hna_route : Ipv4Address → Option Ipv4Route) (table : Table) (a : Ipv4Address)
    (e : RoutingTableEntry) (fuel : ℕ) (oif : Oif)
    → IsConsistent x
    → routing_table x ≡ some table
    → lookup a table ≡ some e
    → (f : RoutingTableEntry) × (lookup e.next_addr table ≡ some f)
      × (f.next_addr ≡ e.next_addr)
      × (f.distance ≡ 1)
      × (route_output x.ipv4 hna_route table (suc fuel) a oif
          ≡ answer x.ipv4 a oif e.next_addr f.interface)
route_output_by_table x hna_route table a e fuel oif c built l =
    let (t, q, rooted) = routing_table-IsRooted x c in
    let same : t ≡ table = cc (sym q ∙ built) in
    let (f, k, n, d, s) =
      find_send_entry_direct (backing x) table a e fuel (subst (IsRooted (backing x)) same rooted)
        l in
    (f, k, n, d, answer_of_found x.ipv4 hna_route table a e f (suc fuel) oif l s n)
