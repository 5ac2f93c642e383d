-- ===== src/Mpr/Choice/Order.antt =====
-- Step 4.2 of `MprComputation` of RoutingProtocol/ocean-protocol.cc: the order in which the nodes
-- are compared, and what the comparisons keep.
use maritime_mesh_network.Base.{
  ℕ, ◌==◌, ◌≡◌, ◌≤◌, ◌<◌, ◌⊎◌, inl, inr, Option, none, some, List, [], ◌∷◌, arith, In, Bool-cases,
  false,
}
use maritime_mesh_network.Repositories.{NeighborTuple}
use maritime_mesh_network.Mpr.Choice.{Choice, consider, consider_nodes, consider_all}

-- `nb` with reachability `r` ranks no higher than `m` with `s`: willingness first, then
-- reachability, then degree.
abbrev pub Ranks : (NeighborTuple → ℕ) → ℕ → NeighborTuple → ℕ → NeighborTuple → Type 0
Ranks deg r nb s m =
    (nb.willingness < m.willingness)
    ⊎ (nb.willingness ≡ m.willingness) × ((r < s) ⊎ (r ≡ s) × (deg nb ≤ deg m))

abbrev RanksBelow : (NeighborTuple → ℕ) → ℕ → NeighborTuple → ℕ → Option NeighborTuple → Type 0
RanksBelow deg r nb s none = ⊥
RanksBelow deg r nb s (some m) = Ranks deg r nb s m

-- Something is chosen, and `nb` with reachability `r` ranks no higher.
abbrev pub IsBeaten : (NeighborTuple → ℕ) → ℕ → NeighborTuple → Choice → Type 0
IsBeaten deg r nb c = RanksBelow deg r nb c.max_r c.max

abbrev choice : Option NeighborTuple → ℕ → Choice
choice o s = record { max = o; max_r = s }

module _ (deg : NeighborTuple → ℕ) where
  consider_self :
      (r : ℕ) (nb : NeighborTuple) (o : Option NeighborTuple) (s : ℕ)
      → IsBeaten deg r nb (consider deg r nb (choice o s))
  unfolding consider
  consider_self r nb none s = ground arith
  consider_self r nb (some m) s = ground arith

  consider_keeps :
      (r : ℕ) (nb : NeighborTuple) (o : Option NeighborTuple) (s k : ℕ) (other : NeighborTuple)
      → IsBeaten deg k other (choice o s)
      → IsBeaten deg k other (consider deg r nb (choice o s))
  unfolding consider
  consider_keeps r nb none s k other h = absurd h
  consider_keeps r nb (some m) s k other h = ground arith

  consider_nodes_keeps :
      (r : ℕ) (nbs : List NeighborTuple) (c : Choice) (k : ℕ) (other : NeighborTuple)
      → IsBeaten deg k other c
      → IsBeaten deg k other (consider_nodes deg r nbs c)
  unfolding consider_nodes
  consider_nodes_keeps r [] c k other h = h
  consider_nodes_keeps r (nb ∷ nbs) c k other h =
      consider_nodes_keeps r nbs _ k other (consider_keeps r nb c.max c.max_r k other h)

  consider_nodes_beats :
      (r : ℕ) (nbs : List NeighborTuple) (c : Choice) (nb : NeighborTuple)
      → In nb nbs
      → IsBeaten deg r nb (consider_nodes deg r nbs c)
  unfolding consider_nodes
  consider_nodes_beats r [] c nb h = absurd h
  consider_nodes_beats r (x ∷ nbs) c nb (inl e) =
      rw e (consider_nodes_keeps r nbs _ r x (consider_self r x c.max c.max_r))
  consider_nodes_beats r (x ∷ nbs) c nb (inr h) = consider_nodes_beats r nbs _ nb h

  module _ (nodes : ℕ → List NeighborTuple) where
    consider_all_keeps :
        (rs : List ℕ) (c : Choice) (k : ℕ) (other : NeighborTuple)
        → IsBeaten deg k other c
        → IsBeaten deg k other (consider_all deg nodes rs c)
    unfolding consider_all
    consider_all_keeps [] c k other h = h
    consider_all_keeps (r ∷ rs) c k other h =
        consider_all_keeps rs _ k other (elim (Bool-cases (r == 0)) [
          | inl e ↦ rw e h
          | inr e ↦ rw e (consider_nodes_keeps r (nodes r) c k other h)
        ])

    -- A node in a bucket that is visited, and whose reachability is not 0, is beaten in the end.
    pub consider_all_beats :
        (rs : List ℕ) (c : Choice) (r : ℕ) (nb : NeighborTuple)
        → In r rs
        → (r == 0) ≡ false
        → In nb (nodes r)
        → IsBeaten deg r nb (consider_all deg nodes rs c)
    unfolding consider_all
    consider_all_beats [] c r nb h z m = absurd h
    consider_all_beats (x ∷ rs) c r nb (inl e) z m =
        rw (← e) (consider_all_keeps rs _ r nb (rw z (consider_nodes_beats r (nodes r) c nb m)))
    consider_all_beats (x ∷ rs) c r nb (inr h) z m = consider_all_beats rs _ r nb h z m
