-- ===== src/Mpr/Compute.antt =====
-- The loop of step 4 of `MprComputation` in RoutingProtocol/ocean-protocol.cc, and the whole
-- function.
pub mod Progress
pub mod Correct
use maritime_mesh_network.Base.{ℕ, zero, suc, Option, none, some, List, [], ◌∷◌, length}
use maritime_mesh_network.Repositories.{Ipv4Address, NeighborTuple, TwoHopNeighborTuple}
use maritime_mesh_network.Mpr.{Selection, elect, symmetric_neighbors, first_steps}
use maritime_mesh_network.Mpr.Choice.{choose, degree}

-- One round of the `while` loop.
unfoldable pub cover_round : (NeighborTuple → ℕ) → List NeighborTuple → Selection → Selection
cover_round deg n s = elim (choose deg n s.n2).max [
  | none ↦ s
  | some m ↦ elect m.neighbor_main_addr s
]

-- Step 4: `while (N2.begin () != N2.end ())`, with fuel; `none` means that the fuel ran out.
unfoldable pub cover_loop :
    (NeighborTuple → ℕ) → List NeighborTuple → ℕ → Selection → Option Selection
unfolding cover_round
cover_loop deg n zero s = elim s.n2 [ [] ↦ some s | _ ∷ _ ↦ none ]
cover_loop deg n (suc fuel) s = elim s.n2 [
  | [] ↦ some s
  | _ ∷ _ ↦ cover_loop deg n fuel (cover_round deg n s)
]

-- `MprComputation`, with the set that it hands to `SetMprSet`. A round of the loop erases a tuple
-- of N2 at least, so the length of the 2-hop neighbor set is enough fuel.
unfoldable pub mpr_computation :
    (Ipv4Address → Option NeighborTuple)
    → Ipv4Address
    → List NeighborTuple
    → List TwoHopNeighborTuple
    → Option (List Ipv4Address)
unfolding cover_loop first_steps symmetric_neighbors
mpr_computation find main neighbors two_hops =
    elim (cover_loop (degree find two_hops) (symmetric_neighbors neighbors) (length two_hops)
      (first_steps main neighbors two_hops)) [ none ↦ none | some s ↦ some s.mpr_set ]
