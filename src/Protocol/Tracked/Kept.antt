-- ===== src/Protocol/Tracked/Kept.antt =====
-- What follows a change of a link leaves the tracked repositories and the events as they are, but
-- for the MPR selectors that a lost neighbor takes away: it keeps any property of them.
use maritime_mesh_network.Base.{ℕ, Option, none, some, List}
use maritime_mesh_network.Repositories.{Ipv4Address, LinkTuple, will_default}
use maritime_mesh_network.Routing.{Table}
use maritime_mesh_network.Protocol.{
  Protocol, OlsrState, Context, main_address_of, add_neighbor_tuple, increment_ansn,
}
use maritime_mesh_network.Protocol.Links.{
  update_mpr_set, update_routing_table, update_hna_routes, routing_table_computation,
  link_tuple_added, ensure_neighbor, update_status, link_tuple_updated, neighbor_loss,
}
use maritime_mesh_network.Protocol.Tracked.{Aspect, Holds}

module _ {H S : Type 0} (st : OlsrState S) (x : Context H) (P : Aspect) where
  pub update_mpr_set-keeps : (s : Protocol H S) → Holds P s → Holds P (update_mpr_set st x s)
  unfolding update_mpr_set
  update_mpr_set-keeps s h = go _
    where
      go :
          (o : Option (List Ipv4Address))
          → Holds P
              (elim o as (λ _. Protocol H S) [ none ↦ s | some mprs ↦ record s { mpr_set = mprs } ])
      go none = h
      go (some mprs) = h

  pub update_routing_table-keeps :
      (s : Protocol H S) → Holds P s → Holds P (update_routing_table st x s)
  unfolding update_routing_table
  update_routing_table-keeps s h = go _
    where
      go :
          (o : Option Table)
          → Holds P
              (elim o as (λ _. Protocol H S) [ none ↦ s | some table ↦ record s { table = table } ])
      go none = h
      go (some table) = h

  pub update_hna_routes-keeps : (s : Protocol H S) → Holds P s → Holds P (update_hna_routes st x s)
  unfolding update_hna_routes
  update_hna_routes-keeps s h = go _
    where
      go :
          (o : Option S)
          → Holds P (elim o as (λ _. Protocol H S) [
            | none ↦ s
            | some routes ↦ record s { hna_routing_table = routes }
          ])
      go none = h
      go (some routes) = h

  pub routing_table_computation-keeps :
      (s : Protocol H S) → Holds P s → Holds P (routing_table_computation st x s)
  unfolding routing_table_computation
  routing_table_computation-keeps s h =
      update_hna_routes-keeps (update_routing_table st x s) (update_routing_table-keeps s h)

  pub link_tuple_added-keeps :
      (t : LinkTuple) (w : ℕ) (s : Protocol H S) → Holds P s → Holds P (link_tuple_added st x t w s)
  unfolding link_tuple_added add_neighbor_tuple increment_ansn
  link_tuple_added-keeps t w s h = h

  ensure_neighbor-keeps :
      (t : LinkTuple) (w : ℕ) (s : Protocol H S) → Holds P s → Holds P (ensure_neighbor st x t w s)
  unfolding ensure_neighbor
  ensure_neighbor-keeps t w s h = go _
    where
      go :
          (o : Option ℕ)
          → Holds P
              (elim o as (λ _. Protocol H S) [ none ↦ link_tuple_added st x t w s | some i ↦ s ])
      go none = link_tuple_added-keeps t w s h
      go (some i) = h

  pub link_tuple_updated-keeps :
      (t : LinkTuple) (w : ℕ) (s : Protocol H S)
      → Holds P s
      → Holds P (link_tuple_updated st x t w s)
  unfolding link_tuple_updated update_status
  link_tuple_updated-keeps t w s h = go _
    where
      added : Protocol H S
      added = ensure_neighbor st x t w s

      go :
          (o : Option ℕ)
          → Holds P
              (elim o as (λ _. Protocol H S) [ none ↦ added | some i ↦ update_status st x i added ])
      go none = ensure_neighbor-keeps t w s h
      go (some i) = ensure_neighbor-keeps t w s h

  pub neighbor_loss-keeps :
      (t : LinkTuple) (s : Protocol H S)
      → ((a : Ipv4Address) (u : Protocol H S)
          → Holds P u
          → Holds P (record u { mpr_selectors = st.erase_mpr_selector_tuples a u.mpr_selectors }))
      → Holds P s
      → Holds P (neighbor_loss st x t s)
  unfolding neighbor_loss
  neighbor_loss-keeps t s erased h =
      let u = link_tuple_updated st x t will_default s in
      let main = main_address_of st u t.neighbor_iface_addr in
      let loss : Protocol H S = record u {
        two_hop_neighbors = st.erase_two_hop_neighbor_tuples main u.two_hop_neighbors;
        mpr_selectors = st.erase_mpr_selector_tuples main u.mpr_selectors;
      } in
      routing_table_computation-keeps (update_mpr_set st x loss)
        (update_mpr_set-keeps loss (erased main u (link_tuple_updated-keeps t will_default s h)))
