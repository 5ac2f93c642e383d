-- ===== src/Mpr/Start.antt =====
-- Steps 1 to 3 of `MprComputation` of RoutingProtocol/ocean-protocol.cc: what N2 holds, and that
-- the elections before the loop keep the invariant of `Mpr.Pairs`.
use maritime_mesh_network.Base.{
  ◌==◌, ◌≡◌, ◌⊎◌, inl, inr, refl, Bool, true, false, not, ◌&&◌, ◌||◌, List, [], ◌∷◌, elem,
  if◌then◌else◌, ◌∙◌, set_insert, elem-set_insert, arith, Bool-cases,
}
use maritime_mesh_network.Repositories.{
  Ipv4Address, NeighborTuple, TwoHopNeighborTuple, will_always,
}
use maritime_mesh_network.Mpr.{
  Selection, Sole, reached_willingly, is_member, in_n2, two_hop_candidates, symmetric_neighbors,
  elect_always, only_one, note_covered, elect_sole, erase_hops, sole_step, first_steps,
}
use maritime_mesh_network.Mpr.Pairs.{
  reaches, is_willing, IsCovered, IsSound, reaches-erase_hops, IsCovered-set_insert,
  elem-set_insert_self, elect-IsSound,
}

-- The three exclusions, for the pair (b, a).
abbrev is_candidate : Ipv4Address → List NeighborTuple → Ipv4Address → Ipv4Address → Bool
is_candidate main n b a = not (a == main) && (reached_willingly n b && not (is_member n a))

in_n2-eq :
    (main : Ipv4Address) (n : List NeighborTuple) (t : TwoHopNeighborTuple)
    → in_n2 main n t ≡ is_candidate main n t.neighbor_main_addr t.two_hop_neighbor_addr
unfolding in_n2
in_n2-eq main n t = ground arith

-- The first tuple of a list is kept if `keep`, which is `wanted` where it is the pair looked for.
keep_first :
    (keep hit rest wanted : Bool)
    → (hit ≡ true → keep ≡ wanted)
    → ((keep && hit) || (rest && wanted)) ≡ ((hit || rest) && wanted)
keep_first keep true rest wanted h = rw (h refl) (ground arith)
keep_first keep false rest wanted h = ground arith

reaches-if :
    (keep : Bool) (t : TwoHopNeighborTuple) (ts : List TwoHopNeighborTuple) (b a : Ipv4Address)
    → reaches (if keep then t ∷ ts else ts) b a
      ≡ ((keep && (t.neighbor_main_addr == b && t.two_hop_neighbor_addr == a)) || reaches ts b a)
reaches-if true t ts b a = refl
reaches-if false t ts b a = refl

hit_is_candidate :
    (main : Ipv4Address) (n : List NeighborTuple) (t : TwoHopNeighborTuple) (b a : Ipv4Address)
    → (t.neighbor_main_addr == b && t.two_hop_neighbor_addr == a) ≡ true
    → in_n2 main n t ≡ is_candidate main n b a
hit_is_candidate main n t b a h =
    let p : t.neighbor_main_addr ≡ b = ground arith in
    let q : t.two_hop_neighbor_addr ≡ a = ground arith in in_n2-eq main n t ∙ rw (p, q)

-- N2 has a pair (neighbor, node) exactly where the 2-hop neighbor set has it, the node is neither
-- the node itself nor the main address of a symmetric neighbor, and the first symmetric neighbor
-- with the neighbor's address has a willingness other than WILL_NEVER.
pub reaches-two_hop_candidates :
    (main : Ipv4Address) (n : List NeighborTuple) (ts : List TwoHopNeighborTuple)
    (b a : Ipv4Address)
    → reaches (two_hop_candidates main n ts) b a
      ≡ (reaches ts b a && (not (a == main) && (reached_willingly n b && not (is_member n a))))
unfolding two_hop_candidates
reaches-two_hop_candidates main n [] b a = refl
reaches-two_hop_candidates main n (t ∷ ts) b a =
    reaches-if (in_n2 main n t) t (two_hop_candidates main n ts) b a
    ∙ rw (reaches-two_hop_candidates main n ts b a) (
        keep_first (in_n2 main n t) _ (reaches ts b a) (is_candidate main n b a)
          (hit_is_candidate main n t b a))

pub is_willing_of_reached :
    (n : List NeighborTuple) (b : Ipv4Address)
    → reached_willingly n b ≡ true
    → is_willing n b ≡ true
unfolding reached_willingly
is_willing_of_reached [] b h = cc
is_willing_of_reached (nb ∷ nbs) b h = ground (arith, is_willing_of_reached nbs b)

elect_always-IsSound :
    (n : List NeighborTuple) (n2₀ : List TwoHopNeighborTuple) (nbs : List NeighborTuple)
    (s : Selection)
    → ((c : Ipv4Address) → is_willing nbs c ≡ true → is_willing n c ≡ true)
    → IsSound n n2₀ s
    → IsSound n n2₀ (elect_always nbs s)
unfolding elect_always
elect_always-IsSound n n2₀ [] s sub h = h
elect_always-IsSound n n2₀ (nb ∷ nbs) s sub h =
    elect_always-IsSound n n2₀ nbs _ (λ c w. sub c (ground arith))
      (elim (Bool-cases (nb.willingness == will_always)) [
        | inl e ↦ rw e (elect-IsSound n n2₀ nb.neighbor_main_addr s (sub _ (ground arith)) h)
        | inr e ↦ rw e h
      ])

elem-note_covered :
    (c : Ipv4Address) (os : List TwoHopNeighborTuple) (covered : List Ipv4Address) (a : Ipv4Address)
    → elem a (note_covered c os covered) ≡ (elem a covered || reaches os c a)
unfolding note_covered
elem-note_covered c [] covered a = ground arith
elem-note_covered c (o ∷ os) covered a = ground (
  arith,
  elem-note_covered c os covered a,
  elem-note_covered c os (set_insert o.two_hop_neighbor_addr covered) a,
  elem-set_insert o.two_hop_neighbor_addr a covered,
)

-- What the loop of step 3 keeps, from the MPR set `mprs` on.
record IsSoundSole (n : List NeighborTuple) (n2 : List TwoHopNeighborTuple)
    (mprs : List Ipv4Address) (s : Sole) : Type 0 where
  more : (c : Ipv4Address) → elem c mprs ≡ true → elem c s.mpr_set ≡ true
  chosen :
      (c : Ipv4Address) → elem c s.mpr_set ≡ true → (elem c mprs ≡ true) ⊎ (is_willing n c ≡ true)
  noted : (a : Ipv4Address) → elem a s.covered ≡ true → IsCovered s.mpr_set n2 a

module _ (n : List NeighborTuple) (n2 : List TwoHopNeighborTuple) (mprs : List Ipv4Address) where
  noted_sole :
      (t : TwoHopNeighborTuple) (s : Sole) (a : Ipv4Address)
      → IsSoundSole n n2 mprs s
      → elem a (note_covered t.neighbor_main_addr n2 s.covered) ≡ true
      → IsCovered (set_insert t.neighbor_main_addr s.mpr_set) n2 a
  noted_sole t s a h m = elim (Bool-cases (elem a s.covered)) [
    | inl old ↦ IsCovered-set_insert t.neighbor_main_addr s.mpr_set n2 a (h.noted a old)
    | inr new ↦ (
      t.neighbor_main_addr,
      elem-set_insert_self t.neighbor_main_addr s.mpr_set,
      ground (arith, elem-note_covered t.neighbor_main_addr n2 s.covered a),
    )
  ]

  elect_sole-IsSoundSole :
      (ts : List TwoHopNeighborTuple) (s : Sole)
      → ((b a : Ipv4Address) → reaches ts b a ≡ true → is_willing n b ≡ true)
      → IsSoundSole n n2 mprs s
      → IsSoundSole n n2 mprs (elect_sole n2 ts s)
  unfolding elect_sole
  elect_sole-IsSoundSole [] s w h = h
  elect_sole-IsSoundSole (t ∷ ts) s w h =
      elect_sole-IsSoundSole ts _ (λ b a r. w b a (ground arith))
        (elim (Bool-cases (only_one t n2)) [
          | inl e ↦ rw e (record {
            more =
                λ c m. ground (arith, h.more c, elem-set_insert t.neighbor_main_addr c s.mpr_set);
            chosen = λ c m. ground (
              arith,
              h.chosen c,
              elem-set_insert t.neighbor_main_addr c s.mpr_set,
              w t.neighbor_main_addr t.two_hop_neighbor_addr,
            );
            noted = λ a m. noted_sole t s a h m;
          })
          | inr e ↦ rw e h
        ])

-- Step 3 keeps the invariant, since each tuple of N2 has a willing neighbor.
sole_step-IsSound :
    (n : List NeighborTuple) (n2₀ : List TwoHopNeighborTuple) (s : Selection)
    → ((b a : Ipv4Address) → reaches n2₀ b a ≡ true → is_willing n b ≡ true)
    → IsSound n n2₀ s
    → IsSound n n2₀ (sole_step s)
unfolding sole_step
sole_step-IsSound n n2₀ s w h = record {
  kept = λ b a r. h.kept b a (ground (arith, reaches-erase_hops sole.covered s.n2 b a));
  covered = covered;
  willing = λ c m. ground (arith, loop.chosen c m, h.willing c);
}
  where
    start : Sole
    start = record { mpr_set = s.mpr_set; covered = [] }

    sole : Sole
    sole = elect_sole s.n2 s.n2 start

    loop : IsSoundSole n s.n2 s.mpr_set sole
    loop =
        elect_sole-IsSoundSole n s.n2 s.mpr_set s.n2 start (λ b a r. w b a (h.kept b a r))
          (record { more = λ c m. m; chosen = λ c m. inl m; noted = λ a m. cc })

    covered :
        (b a : Ipv4Address)
        → reaches n2₀ b a ≡ true
        → (reaches (erase_hops sole.covered s.n2) b a ≡ true) ⊎ IsCovered sole.mpr_set n2₀ a
    covered b a r = elim (h.covered b a r) [
      | inr (c, m, q) ↦ inr (c, loop.more c m, q)
      | inl left ↦ elim (Bool-cases (elem a sole.covered)) [
        | inl e ↦ let (c, m, q) = loop.noted a e in inr (c, m, h.kept c a q)
        | inr e ↦ inl (rw (reaches-erase_hops sole.covered s.n2 b a) (rw (left, e)))
      ]
    ]

-- Every tuple of N2 stands behind a willing member of N.
pub candidates_willing :
    (main : Ipv4Address) (n : List NeighborTuple) (ts : List TwoHopNeighborTuple)
    (b a : Ipv4Address)
    → reaches (two_hop_candidates main n ts) b a ≡ true
    → is_willing n b ≡ true
candidates_willing main n ts b a h =
    is_willing_of_reached n b (ground (arith, reaches-two_hop_candidates main n ts b a))

-- Before the loop the invariant holds.
pub first_steps-IsSound :
    (main : Ipv4Address) (neighbors : List NeighborTuple) (two_hops : List TwoHopNeighborTuple)
    → IsSound
        (symmetric_neighbors neighbors)
        (two_hop_candidates main (symmetric_neighbors neighbors) two_hops)
        (first_steps main neighbors two_hops)
unfolding first_steps
first_steps-IsSound main neighbors two_hops =
    let n = symmetric_neighbors neighbors in
    let n2 = two_hop_candidates main n two_hops in
    sole_step-IsSound n n2 _ (candidates_willing main n two_hops) (
      elect_always-IsSound n n2 n (record { mpr_set = []; n2 = n2 }) (λ c w. w)
        (record { kept = λ b a r. r; covered = λ b a r. inl r; willing = λ c m. cc }))
