-- ===== src/Mpr/Choice/Best.antt =====
-- The choice of step 4.2 of `MprComputation` of RoutingProtocol/ocean-protocol.cc: a node with
-- reachability, ranked highest.
use maritime_mesh_network.Base.{
  ℕ, ◌==◌, ◌≡◌, ◌⊎◌, inl, inr, refl, false, Option, none, some, List, [], ◌∷◌, arith, In,
  Bool-cases, ◌≢◌,
}
use maritime_mesh_network.Repositories.{NeighborTuple, TwoHopNeighborTuple}
use maritime_mesh_network.Mpr.Choice.{
  reachability, Buckets, fill_buckets, Choice, consider, consider_nodes, consider_all, choose,
}
use maritime_mesh_network.Mpr.Choice.Order.{Ranks, IsBeaten, consider_all_beats}
use maritime_mesh_network.Mpr.Choice.Filled.{fill_has, fill_only}

-- What is chosen is a member of N with this reachability, which is not 0.
abbrev ChosenFrom :
    List NeighborTuple → List TwoHopNeighborTuple → Option NeighborTuple → ℕ → Type 0
ChosenFrom n n2 none s = Unit {0}
ChosenFrom n n2 (some m) s = In m n × (reachability n2 m ≡ s) × ((s == 0) ≡ false)

consider_cases :
    (deg : NeighborTuple → ℕ) (r : ℕ) (nb : NeighborTuple) (o : Option NeighborTuple) (s : ℕ)
    → let c : Choice = record { max = o; max_r = s } in
      (consider deg r nb c ≡ record { max = some nb; max_r = r }) ⊎ (consider deg r nb c ≡ c)
unfolding consider
consider_cases deg r nb none s = inl refl
consider_cases deg r nb (some m) s = ground arith

module _ (deg : NeighborTuple → ℕ) (n : List NeighborTuple) (n2 : List TwoHopNeighborTuple) where
  abbrev IsGood : Choice → Type 0
  IsGood c = ChosenFrom n n2 c.max c.max_r

  consider_nodes-IsGood :
      (r : ℕ) (nbs : List NeighborTuple) (c : Choice)
      → ((nb : NeighborTuple) → In nb nbs → In nb n × (reachability n2 nb ≡ r))
      → (r == 0) ≡ false
      → IsGood c
      → IsGood (consider_nodes deg r nbs c)
  unfolding consider_nodes
  consider_nodes-IsGood r [] c h z g = g
  consider_nodes-IsGood r (nb ∷ nbs) c h z g =
      let (m, e) = h nb (inl refl) in
      consider_nodes-IsGood r nbs _ (λ x q. h x (inr q)) z
        (elim (consider_cases deg r nb c.max c.max_r) [ inl p ↦ rw p (m, e, z) | inr p ↦ rw p g ])

  consider_all-IsGood :
      (nodes : ℕ → List NeighborTuple) (rs : List ℕ) (c : Choice)
      → ((r : ℕ) (nb : NeighborTuple) → In nb (nodes r) → In nb n × (reachability n2 nb ≡ r))
      → IsGood c
      → IsGood (consider_all deg nodes rs c)
  unfolding consider_all
  consider_all-IsGood nodes [] c h g = g
  consider_all-IsGood nodes (r ∷ rs) c h g =
      consider_all-IsGood nodes rs _ h (elim (Bool-cases (r == 0)) [
        | inl e ↦ rw e g
        | inr e ↦ rw e (consider_nodes-IsGood r (nodes r) c (h r) e g)
      ])

  abbrev buckets : Buckets
  buckets = fill_buckets n2 n (record { rs = []; nodes = λ _. [] })

  buckets_only :
      (r : ℕ) (nb : NeighborTuple) → In nb (buckets.nodes r) → In nb n × (reachability n2 nb ≡ r)
  buckets_only r nb h = elim (fill_only n2 n (record { rs = []; nodes = λ _. [] }) r nb h) [
    | inl none_yet ↦ absurd none_yet
    | inr q ↦ q
  ]

  best_of :
      (o : Option NeighborTuple) (s r : ℕ) (nb : NeighborTuple)
      → ChosenFrom n n2 o s
      → IsBeaten deg r nb (record { max = o; max_r = s })
      → (m : NeighborTuple) × (o ≡ some m)
        × In m n
        × (reachability n2 m ≢ 0)
        × Ranks deg r nb (reachability n2 m) m
  best_of none s r nb g b = absurd b
  best_of (some m) s r nb (q, e, z) b = (m, refl, q, ground arith, rw e b)

  -- When some neighbor provides reachability, step 4.2 chooses a neighbor that provides
  -- reachability, and every neighbor that does ranks no higher: by willingness, then by
  -- reachability, then by degree.
  pub choose_best :
      (nb : NeighborTuple)
      → In nb n
      → reachability n2 nb ≢ 0
      → (m : NeighborTuple) × ((choose deg n n2).max ≡ some m)
        × In m n
        × (reachability n2 m ≢ 0)
        × Ranks deg (reachability n2 nb) nb (reachability n2 m) m
  unfolding choose
  choose_best nb h z =
      let (visited, stored) = fill_has n2 n (record { rs = []; nodes = λ _. [] }) nb h in
      best_of _ _ (reachability n2 nb) nb
        (consider_all-IsGood buckets.nodes buckets.rs (record { max = none; max_r = 0 })
          buckets_only tt)
        (consider_all_beats deg buckets.nodes buckets.rs (record { max = none; max_r = 0 })
          (reachability n2 nb) nb visited (ground arith) stored)
