-- ===== src/Mpr/Choice/Filled.antt =====
-- Step 4.1 of `MprComputation` of RoutingProtocol/ocean-protocol.cc: the map `reachability` holds
-- each neighbor under the number of its tuples in N2, and `rs` holds that number.
use maritime_mesh_network.Base.{
  ℕ, ◌==◌, ◌≡◌, ◌⊎◌, inl, inr, refl, List, [], ◌∷◌, ◌++◌, arith, In, Bool-cases, ==_iff,
}
use maritime_mesh_network.Repositories.{NeighborTuple, TwoHopNeighborTuple}
use maritime_mesh_network.Mpr.Choice.{reachability, insert_sorted, Buckets, push_node, fill_buckets}

In-insert_sorted : (r : ℕ) (ks : List ℕ) → In r (insert_sorted r ks)
unfolding insert_sorted
In-insert_sorted r [] = inl refl
In-insert_sorted r (k ∷ ks) = ground (arith, In-insert_sorted r ks)

In-insert_sorted_old : (r j : ℕ) (ks : List ℕ) → In j ks → In j (insert_sorted r ks)
unfolding insert_sorted
In-insert_sorted_old r j [] h = absurd h
In-insert_sorted_old r j (k ∷ ks) h = ground (arith, In-insert_sorted_old r j ks)

In-append_one :
    (x y : NeighborTuple) (xs : List NeighborTuple) → In x (xs ++ (y ∷ [])) → In x xs ⊎ (x ≡ y)
In-append_one x y [] (inl e) = inr e
In-append_one x y [] (inr h) = absurd h
In-append_one x y (z ∷ xs) (inl e) = inl (inl e)
In-append_one x y (z ∷ xs) (inr h) = elim (In-append_one x y xs h) [
  | inl m ↦ inl (inr m)
  | inr e ↦ inr e
]

In-append_left : (x y : NeighborTuple) (xs : List NeighborTuple) → In x xs → In x (xs ++ (y ∷ []))
In-append_left x y [] h = absurd h
In-append_left x y (z ∷ xs) (inl e) = inl e
In-append_left x y (z ∷ xs) (inr h) = inr (In-append_left x y xs h)

In-append_last : (x : NeighborTuple) (xs : List NeighborTuple) → In x (xs ++ (x ∷ []))
In-append_last x [] = inl refl
In-append_last x (z ∷ xs) = inr (In-append_last x xs)

module _ (n2 : List TwoHopNeighborTuple) where
  -- What is in the buckets stays there.
  fill_keeps_rs :
      (nbs : List NeighborTuple) (b : Buckets) (r : ℕ) → In r b.rs → In r (fill_buckets n2 nbs b).rs
  unfolding fill_buckets
  fill_keeps_rs [] b r h = h
  fill_keeps_rs (nb ∷ nbs) b r h =
      fill_keeps_rs nbs _ r (In-insert_sorted_old (reachability n2 nb) r b.rs h)

  fill_keeps_nodes :
      (nbs : List NeighborTuple) (b : Buckets) (r : ℕ) (x : NeighborTuple)
      → In x (b.nodes r)
      → In x ((fill_buckets n2 nbs b).nodes r)
  unfolding fill_buckets push_node
  fill_keeps_nodes [] b r x h = h
  fill_keeps_nodes (nb ∷ nbs) b r x h =
      fill_keeps_nodes nbs _ r x (elim (Bool-cases (r == reachability n2 nb)) [
        | inl e ↦ rw e (In-append_left x nb (b.nodes r) h)
        | inr e ↦ rw e h
      ])

  -- Each neighbor is in the bucket of its reachability, which is visited.
  pub fill_has :
      (nbs : List NeighborTuple) (b : Buckets) (x : NeighborTuple)
      → In x nbs
      → In (reachability n2 x) (fill_buckets n2 nbs b).rs
        × In x ((fill_buckets n2 nbs b).nodes (reachability n2 x))
  unfolding fill_buckets push_node
  fill_has [] b x h = absurd h
  fill_has (nb ∷ nbs) b x (inl e) = rw e (
    fill_keeps_rs nbs _ (reachability n2 nb) (In-insert_sorted (reachability n2 nb) b.rs),
    fill_keeps_nodes nbs _ (reachability n2 nb) nb (
        rw ((==_iff (reachability n2 nb) (reachability n2 nb)).1 refl)
          (In-append_last nb (b.nodes (reachability n2 nb)))),
  )
  fill_has (nb ∷ nbs) b x (inr h) = fill_has nbs _ x h

  -- A bucket holds only neighbors of that reachability.
  pub fill_only :
      (nbs : List NeighborTuple) (b : Buckets) (r : ℕ) (x : NeighborTuple)
      → In x ((fill_buckets n2 nbs b).nodes r)
      → In x (b.nodes r) ⊎ In x nbs × (reachability n2 x ≡ r)
  unfolding fill_buckets push_node
  fill_only [] b r x h = inl h
  fill_only (nb ∷ nbs) b r x h = elim (fill_only nbs _ r x h) [
    | inr (m, e) ↦ inr (inr m, e)
    | inl old ↦ elim (Bool-cases (r == reachability n2 nb)) [
      | inr e ↦ inl (rw e at old)
      | inl e ↦ elim (In-append_one x nb (b.nodes r) (rw e at old)) [
        | inl m ↦ inl m
        | inr q ↦ inr (inl q, rw q (ground arith))
      ]
    ]
  ]
