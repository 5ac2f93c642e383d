-- ===== src/Mpr/Choice/Degree.antt =====
-- `Degree` of RoutingProtocol/ocean-protocol.cc, which breaks the last ties of step 4.2.
use maritime_mesh_network.Base.{
  ◌==◌, ◌≡◌, Option, List, [], ◌∷◌, is_some, refl, true, Bool-cases, inl, inr, ==_iff,
}
use maritime_mesh_network.Repositories.{Ipv4Address, NeighborTuple, TwoHopNeighborTuple}
use maritime_mesh_network.Mpr.Choice.{degree}

-- `Degree` looks up the neighbor itself and not the 2-hop neighbor: for every neighbor that the
-- neighbor set holds the degree is 0, whatever the 2-hop neighbor set is, so it breaks no tie.
pub degree-eq-zero :
    (find : Ipv4Address → Option NeighborTuple) (ts : List TwoHopNeighborTuple) (nb : NeighborTuple)
    → is_some (find nb.neighbor_main_addr) ≡ true
    → degree find ts nb ≡ 0
unfolding degree
degree-eq-zero find [] nb h = refl
degree-eq-zero find (t ∷ ts) nb h =
    elim (Bool-cases (t.neighbor_main_addr == nb.neighbor_main_addr)) [
      | inl e ↦ rw e (
          rw ((==_iff t.neighbor_main_addr nb.neighbor_main_addr).0 e)
            (rw h (degree-eq-zero find ts nb h)))
      | inr e ↦ rw e (degree-eq-zero find ts nb h)
    ]
