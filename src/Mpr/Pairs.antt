-- ===== src/Mpr/Pairs.antt =====
-- `CoverTwoHopNeighbors` of RoutingProtocol/ocean-protocol.cc by the pairs (neighbor, 2-hop
-- neighbor) that a list of 2-hop tuples holds, and the invariant of the steps of `MprComputation`.
pub mod Shrink
pub mod Bound
use maritime_mesh_network.Base.{
  ◌==◌, ◌≡◌, ◌⊎◌, inl, inr, refl, Bool, true, false, not, ◌&&◌, ◌||◌, List, [], ◌∷◌, elem,
  set_insert, elem-set_insert, arith, Bool-cases,
}
use maritime_mesh_network.Repositories.{Ipv4Address, NeighborTuple, TwoHopNeighborTuple, will_never}
use maritime_mesh_network.Mpr.{Selection, elect, hops_through, erase_hops, cover_two_hop_neighbors}

-- A tuple of the list says that the neighbor `b` reaches the node `a`.
abbrev pub reaches : List TwoHopNeighborTuple → Ipv4Address → Ipv4Address → Bool
reaches [] b a = false
reaches (t ∷ ts) b a = (t.neighbor_main_addr == b && t.two_hop_neighbor_addr == a) || reaches ts b a

-- A member of N has this main address and a willingness other than WILL_NEVER.
abbrev pub is_willing : List NeighborTuple → Ipv4Address → Bool
is_willing [] b = false
is_willing (nb ∷ nbs) b =
    (nb.neighbor_main_addr == b && not (nb.willingness == will_never)) || is_willing nbs b

-- Some MPR reaches the node `a`.
abbrev pub IsCovered : List Ipv4Address → List TwoHopNeighborTuple → Ipv4Address → Type 0
IsCovered mprs n2 a = (b : Ipv4Address) × (elem b mprs ≡ true) × (reaches n2 b a ≡ true)

pub elem-hops_through :
    (b a : Ipv4Address) (n2 : List TwoHopNeighborTuple)
    → elem a (hops_through b n2) ≡ reaches n2 b a
unfolding hops_through
elem-hops_through b a [] = refl
elem-hops_through b a (t ∷ ts) =
    ground (
      arith,
      elem-hops_through b a ts,
      elem-set_insert t.two_hop_neighbor_addr a (hops_through b ts),
    )

pub reaches-erase_hops :
    (s : List Ipv4Address) (n2 : List TwoHopNeighborTuple) (b a : Ipv4Address)
    → reaches (erase_hops s n2) b a ≡ (reaches n2 b a && not (elem a s))
unfolding erase_hops
reaches-erase_hops s [] b a = refl
reaches-erase_hops s (t ∷ ts) b a = ground (arith, reaches-erase_hops s ts b a)

-- `CoverTwoHopNeighbors` for the neighbor `c` leaves exactly the pairs (neighbor, node) of N2 whose
-- node `c` does not reach in N2.
pub reaches-cover :
    (c : Ipv4Address) (n2 : List TwoHopNeighborTuple) (b a : Ipv4Address)
    → reaches (cover_two_hop_neighbors c n2) b a ≡ (reaches n2 b a && not (reaches n2 c a))
unfolding cover_two_hop_neighbors
reaches-cover c n2 b a =
    rw (reaches-erase_hops (hops_through c n2) n2 b a) (rw (elem-hops_through c a n2))

-- What the steps of the computation keep, `n2₀` being N2 at the start: only pairs of `n2₀` are
-- left, a node of `n2₀` is still to be covered or is covered, and every MPR is a willing neighbor.
pub record IsSound (n : List NeighborTuple) (n2₀ : List TwoHopNeighborTuple) (s : Selection)
    : Type 0 where
  pub kept : (b a : Ipv4Address) → reaches s.n2 b a ≡ true → reaches n2₀ b a ≡ true
  pub covered :
      (b a : Ipv4Address)
      → reaches n2₀ b a ≡ true
      → (reaches s.n2 b a ≡ true) ⊎ IsCovered s.mpr_set n2₀ a
  pub willing : (c : Ipv4Address) → elem c s.mpr_set ≡ true → is_willing n c ≡ true

pub IsCovered-set_insert :
    (c : Ipv4Address) (mprs : List Ipv4Address) (n2 : List TwoHopNeighborTuple) (a : Ipv4Address)
    → IsCovered mprs n2 a
    → IsCovered (set_insert c mprs) n2 a
IsCovered-set_insert c mprs n2 a (b, m, r) = (b, ground (arith, elem-set_insert c b mprs), r)

pub elem-set_insert_self :
    (c : Ipv4Address) (mprs : List Ipv4Address) → elem c (set_insert c mprs) ≡ true
elem-set_insert_self c mprs = ground (arith, elem-set_insert c c mprs)

module _ (n : List NeighborTuple) (n2₀ : List TwoHopNeighborTuple) (c : Ipv4Address)
    (s : Selection) where
  IsCovered-elect :
      IsSound n n2₀ s
      → (b a : Ipv4Address) → reaches n2₀ b a ≡ true
      → (reaches (cover_two_hop_neighbors c s.n2) b a ≡ true)
        ⊎ IsCovered (set_insert c s.mpr_set) n2₀ a
  IsCovered-elect h b a r = elim (h.covered b a r) [
    | inr old ↦ inr (IsCovered-set_insert c s.mpr_set n2₀ a old)
    | inl left ↦ elim (Bool-cases (reaches s.n2 c a)) [
      | inl hit ↦ inr (c, elem-set_insert_self c s.mpr_set, h.kept c a hit)
      | inr miss ↦ inl (rw (reaches-cover c s.n2 b a) (rw (left, miss)))
    ]
  ]

  -- Electing a willing neighbor keeps all of this.
  pub elect-IsSound : is_willing n c ≡ true → IsSound n n2₀ s → IsSound n n2₀ (elect c s)
  unfolding elect
  elect-IsSound w h = record {
    kept = λ b a r. h.kept b a (ground (arith, reaches-cover c s.n2 b a));
    covered = IsCovered-elect h;
    willing = λ d m. ground (arith, elem-set_insert c d s.mpr_set, h.willing d);
  }
