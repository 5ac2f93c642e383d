-- ===== src/Mpr/Choice.antt =====
-- Steps 4.1 and 4.2 of `MprComputation` in RoutingProtocol/ocean-protocol.cc: the reachability of
-- each neighbor, and the choice of the next MPR. `Degree` is the function that it calls.
pub mod Order
pub mod Filled
pub mod Best
pub mod Degree
use maritime_mesh_network.Base.{
  ℕ, suc, ◌==◌, ltb, Option, none, some, List, [], ◌∷◌, ◌++◌, if◌then◌else◌, is_some,
}
use maritime_mesh_network.Repositories.{Ipv4Address, NeighborTuple, TwoHopNeighborTuple}

-- `Degree`; `find` is `m_state.FindNeighborTuple`.
unfoldable pub degree :
    (Ipv4Address → Option NeighborTuple) → List TwoHopNeighborTuple → NeighborTuple → ℕ
degree find [] nb = 0
degree find (t ∷ ts) nb =
    let rest = degree find ts nb in
    if t.neighbor_main_addr == nb.neighbor_main_addr
    then if is_some (find t.neighbor_main_addr) then rest else suc rest
    else rest

-- `r`: the tuples of N2 that the neighbor provides.
unfoldable pub reachability : List TwoHopNeighborTuple → NeighborTuple → ℕ
reachability [] nb = 0
reachability (t ∷ ts) nb =
    let rest = reachability ts nb in
    if nb.neighbor_main_addr == t.neighbor_main_addr then suc rest else rest

-- `rs.insert (r)`: a `std::set<int>` is visited in ascending order.
unfoldable pub insert_sorted : ℕ → List ℕ → List ℕ
insert_sorted r [] = r ∷ []
insert_sorted r (k ∷ ks) =
    if r == k then k ∷ ks else if ltb r k then r ∷ k ∷ ks else k ∷ insert_sorted r ks

-- The map `reachability` and the set `rs` of its keys.
pub record Buckets : Type 0 where
  pub rs : List ℕ
  pub nodes : ℕ → List NeighborTuple

-- `reachability[r].push_back (&nb_tuple)`.
unfoldable pub push_node : ℕ → NeighborTuple → (ℕ → List NeighborTuple) → ℕ → List NeighborTuple
push_node r nb nodes k = if k == r then nodes k ++ (nb ∷ []) else nodes k

-- Step 4.1.
unfoldable pub fill_buckets : List TwoHopNeighborTuple → List NeighborTuple → Buckets → Buckets
unfolding reachability insert_sorted push_node
fill_buckets n2 [] b = b
fill_buckets n2 (nb ∷ nbs) b =
    let r = reachability n2 nb in
    fill_buckets n2 nbs (record { rs = insert_sorted r b.rs; nodes = push_node r nb b.nodes })

-- `max` and `max_r`.
pub record Choice : Type 0 where
  pub max : Option NeighborTuple
  pub max_r : ℕ

-- The ladder of tests of step 4.2 for one node, `deg` being `Degree`.
unfoldable pub consider : (NeighborTuple → ℕ) → ℕ → NeighborTuple → Choice → Choice
consider deg r nb c =
    let chosen : Choice = record { max = some nb; max_r = r } in
    elim c.max [
      | none ↦ chosen
      | some m ↦
          if ltb m.willingness nb.willingness
          then chosen
          else if nb.willingness == m.willingness
          then if ltb c.max_r r
            then chosen
            else if r == c.max_r
            then if ltb (deg m) (deg nb) then chosen else c
            else c
          else c
    ]

-- The loop over `reachability[r]`.
unfoldable pub consider_nodes : (NeighborTuple → ℕ) → ℕ → List NeighborTuple → Choice → Choice
unfolding consider
consider_nodes deg r [] c = c
consider_nodes deg r (nb ∷ nbs) c = consider_nodes deg r nbs (consider deg r nb c)

-- The loop over `rs`.
unfoldable pub consider_all :
    (NeighborTuple → ℕ) → (ℕ → List NeighborTuple) → List ℕ → Choice → Choice
unfolding consider_nodes
consider_all deg nodes [] c = c
consider_all deg nodes (r ∷ rs) c =
    consider_all deg nodes rs (if r == 0 then c else consider_nodes deg r (nodes r) c)

-- Step 4.1 and the choice of step 4.2.
unfoldable pub choose : (NeighborTuple → ℕ) → List NeighborTuple → List TwoHopNeighborTuple → Choice
unfolding fill_buckets consider_all
choose deg n n2 =
    let b = fill_buckets n2 n (record { rs = []; nodes = λ _. [] }) in
    consider_all deg b.nodes b.rs (record { max = none; max_r = 0 })
