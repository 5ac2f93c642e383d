-- ===== src/Routing/Build/Neighbors.antt =====
-- Step 2 of `RoutingTableComputation` of RoutingProtocol/ocean-protocol.cc: the entries of the
-- symmetric neighbors, and their next hops.
use maritime_mesh_network.Base.{
  ◌==◌, ◌≡◌, refl, Bool, true, false, ◌&&◌, ◌||◌, none, some, List, [], ◌∷◌, All, ap, subst, ==_iff,
  arith, Bool-cases, Option-cases, inl, inr,
}
use maritime_mesh_network.Base.Int.{leb_ℤ}
use maritime_mesh_network.Repositories.{Ipv4Address, LinkTuple, NeighborTuple, is_sym}
use maritime_mesh_network.Repositories.Clock.{Time}
use maritime_mesh_network.Routing.{Table, Ipv4, add_entry}
use maritime_mesh_network.Routing.Entries.{
  IsDirect, IsRooted, add_entry_at-eq, add_own-IsDirect_self, add_own-IsRooted, add_via-IsRooted,
  fresh_of_unbacked,
}
use maritime_mesh_network.Routing.Build.{
  LinkScan, is_link_of, scan_link, scan_links, add_main, add_neighbor, add_neighbors,
}

-- A link of the list to this interface address has not expired.
abbrev pub has_link : Time → List LinkTuple → Ipv4Address → Bool
has_link now [] a = false
has_link now (l ∷ ls) a = (l.neighbor_iface_addr == a && leb_ℤ now l.time) || has_link now ls a

-- The address is the main address of a symmetric neighbor.
abbrev pub is_sym_main : List NeighborTuple → Ipv4Address → Bool
is_sym_main [] a = false
is_sym_main (nb ∷ nbs) a = (is_sym nb.status && nb.neighbor_main_addr == a) || is_sym_main nbs a

-- What stands behind an address that is its own next hop.
abbrev pub is_backed :
    (Ipv4Address → Ipv4Address) → Time → List LinkTuple → List NeighborTuple → Ipv4Address → Bool
is_backed get_main now links neighbors a =
    has_link now links a && is_sym_main neighbors (get_main a)

-- Some unexpired link of the neighbor is to its main address.
abbrev has_own_link : (Ipv4Address → Ipv4Address) → Time → NeighborTuple → List LinkTuple → Bool
has_own_link get_main now nb [] = false
has_own_link get_main now nb (l ∷ ls) =
    (is_link_of get_main now nb l && l.neighbor_iface_addr == nb.neighbor_main_addr)
    || has_own_link get_main now nb ls

-- Where the main address is its own main address, that is any unexpired link to it.
has_own_link_of :
    (get_main : Ipv4Address → Ipv4Address) (now : Time) (nb : NeighborTuple) (ls : List LinkTuple)
    → get_main nb.neighbor_main_addr ≡ nb.neighbor_main_addr
    → has_link now ls nb.neighbor_main_addr ≡ true
    → has_own_link get_main now nb ls ≡ true
unfolding is_link_of
has_own_link_of get_main now nb [] e h = cc
has_own_link_of get_main now nb (l ∷ ls) e h =
    elim (Bool-cases (l.neighbor_iface_addr == nb.neighbor_main_addr)) [
      | inl q ↦ ground (
        arith,
        has_own_link_of get_main now nb ls e,
        ap get_main ((==_iff l.neighbor_iface_addr nb.neighbor_main_addr).0 q),
      )
      | inr q ↦ ground (arith, has_own_link_of get_main now nb ls e)
    ]

module _ (ipv4 : Ipv4) (get_main : Ipv4Address → Ipv4Address) (now : Time) where
  scan_link-nb_main_addr :
      (nb : NeighborTuple) (l : LinkTuple) (s : LinkScan)
      → (scan_link ipv4 get_main now nb l s).nb_main_addr ≡ (
          (is_link_of get_main now nb l && l.neighbor_iface_addr == nb.neighbor_main_addr)
          || s.nb_main_addr)
  unfolding scan_link
  scan_link-nb_main_addr nb l s = elim (Bool-cases (is_link_of get_main now nb l)) [
    | inl e ↦ rw e (ground arith)
    | inr e ↦ rw e
  ]

  scan_links-nb_main_addr :
      (nb : NeighborTuple) (ls : List LinkTuple) (s : LinkScan)
      → (scan_links ipv4 get_main now nb ls s).nb_main_addr
        ≡ (has_own_link get_main now nb ls || s.nb_main_addr)
  unfolding scan_links
  scan_links-nb_main_addr nb [] s = refl
  scan_links-nb_main_addr nb (l ∷ ls) s = ground (
    arith,
    scan_links-nb_main_addr nb ls (scan_link ipv4 get_main now nb l s),
    scan_link-nb_main_addr nb l s,
  )

  module _ (links : List LinkTuple) (neighbors : List NeighborTuple) where
    abbrev backed : Ipv4Address → Bool
    backed = is_backed get_main now links neighbors

    -- What the scan of a neighbor's links keeps.
    record IsScan (s : LinkScan) : Type 0 where
      rooted : IsRooted backed s.table
      linked : (l : LinkTuple) → s.lt ≡ some l → IsDirect s.table l.neighbor_iface_addr

    backed_of_link :
        (nb : NeighborTuple) (l : LinkTuple)
        → is_sym_main neighbors nb.neighbor_main_addr ≡ true
        → (leb_ℤ now l.time ≡ true → has_link now links l.neighbor_iface_addr ≡ true)
        → is_link_of get_main now nb l ≡ true
        → backed l.neighbor_iface_addr ≡ true
    unfolding is_link_of
    backed_of_link nb l sym_main live e =
        let m : get_main l.neighbor_iface_addr ≡ nb.neighbor_main_addr = ground arith in
        rw m (rw sym_main (rw (live (ground arith))))

    scan_link-IsScan :
        (nb : NeighborTuple) (l : LinkTuple) (s : LinkScan)
        → is_sym_main neighbors nb.neighbor_main_addr ≡ true
        → (leb_ℤ now l.time ≡ true → has_link now links l.neighbor_iface_addr ≡ true)
        → IsScan s
        → IsScan (scan_link ipv4 get_main now nb l s)
    unfolding scan_link
    scan_link-IsScan nb l s sym_main live h = elim (Bool-cases (is_link_of get_main now nb l)) [
      | inr e ↦ rw e h
      | inl e ↦
          let a = l.neighbor_iface_addr in
          let (i, q) = add_entry_at-eq ipv4 a a l.local_iface_addr 1 s.table in
          rw (e, q)
            (record {
              rooted =
                  add_own-IsRooted backed a i s.table (backed_of_link nb l sym_main live e)
                    h.rooted;
              linked = λ k p.
                  let r : l ≡ k = cc p in
                  subst
                    (λ (z : LinkTuple). IsDirect (add_entry a a i 1 s.table) z.neighbor_iface_addr)
                    r (add_own-IsDirect_self backed a i s.table);
            })
    ]

    scan_links-IsScan :
        (nb : NeighborTuple) (ls : List LinkTuple) (s : LinkScan)
        → is_sym_main neighbors nb.neighbor_main_addr ≡ true
        → ((a : Ipv4Address) → has_link now ls a ≡ true → has_link now links a ≡ true)
        → IsScan s
        → IsScan (scan_links ipv4 get_main now nb ls s)
    unfolding scan_links
    scan_links-IsScan nb [] s sym_main sub h = h
    scan_links-IsScan nb (l ∷ ls) s sym_main sub h =
        scan_links-IsScan nb ls _ sym_main (λ a q. sub a (ground arith))
          (scan_link-IsScan nb l s sym_main (λ live. sub l.neighbor_iface_addr (ground arith)) h)

    -- The entry for the main address hides no direct entry, since no link has that address.
    add_main-IsRooted :
        (nb : NeighborTuple) (s : LinkScan)
        → (s.nb_main_addr ≡ false → backed nb.neighbor_main_addr ≡ false)
        → IsScan s
        → IsRooted backed (add_main ipv4 get_main now nb s)
    unfolding add_main
    add_main-IsRooted nb s unbacked h = elim (Bool-cases s.nb_main_addr) [
      | inl e ↦ rw e h.rooted
      | inr e ↦ elim (Option-cases s.lt) [
        | inl none_left ↦ rw (e, none_left) h.rooted
        | inr (l, found) ↦
            let a = nb.neighbor_main_addr in
            let (i, q) =
              add_entry_at-eq ipv4 a l.neighbor_iface_addr l.local_iface_addr 1 s.table in
            rw (e, found, q)
              (add_via-IsRooted backed a l.neighbor_iface_addr i 1 s.table
                (fresh_of_unbacked a s.table backed h.rooted (unbacked e)) (h.linked l found)
                h.rooted)
      ]
    ]

    unbacked :
        (nb : NeighborTuple)
        → get_main nb.neighbor_main_addr ≡ nb.neighbor_main_addr
        → has_own_link get_main now nb links ≡ false
        → backed nb.neighbor_main_addr ≡ false
    unbacked nb e h = elim (Bool-cases (has_link now links nb.neighbor_main_addr)) [
      | inl q ↦ cc (has_own_link_of get_main now nb links e q)
      | inr q ↦ rw q
    ]

    pub add_neighbor-IsRooted :
        (nb : NeighborTuple) (t : Table)
        → (is_sym nb.status ≡ true → is_sym_main neighbors nb.neighbor_main_addr ≡ true)
        → (is_sym nb.status ≡ true → get_main nb.neighbor_main_addr ≡ nb.neighbor_main_addr)
        → IsRooted backed t
        → IsRooted backed (add_neighbor ipv4 get_main now links nb t)
    unfolding add_neighbor
    add_neighbor-IsRooted nb t sym_main normal h = elim (Bool-cases (is_sym nb.status)) [
      | inr e ↦ rw e h
      | inl e ↦
          let s : LinkScan = record { table = t; nb_main_addr = false; lt = none } in
          rw e (
            add_main-IsRooted nb (scan_links ipv4 get_main now nb links s)
              (λ f. unbacked nb (normal e) (ground (arith, scan_links-nb_main_addr nb links s)))
              (scan_links-IsScan nb links s (sym_main e) (λ a q. q)
                (record { rooted = h; linked = λ l p. cc })))
    ]

    -- Step 2 keeps a table rooted, if the main address of each symmetric neighbor is its own.
    pub add_neighbors-IsRooted :
        (nbs : List NeighborTuple) (t : Table)
        → ((a : Ipv4Address) → is_sym_main nbs a ≡ true → is_sym_main neighbors a ≡ true)
        → All
            (λ (nb : NeighborTuple).
              is_sym nb.status ≡ true → get_main nb.neighbor_main_addr ≡ nb.neighbor_main_addr)
            nbs
        → IsRooted backed t
        → IsRooted backed (add_neighbors ipv4 get_main now links nbs t)
    unfolding add_neighbors
    add_neighbors-IsRooted [] t sub normal h = h
    add_neighbors-IsRooted (nb ∷ nbs) t sub (first, rest) h =
        add_neighbors-IsRooted nbs _ (λ a q. sub a (ground arith)) rest
          (add_neighbor-IsRooted nb t (λ e. sub nb.neighbor_main_addr (ground arith)) first h)
