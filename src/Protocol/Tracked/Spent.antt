-- ===== src/Protocol/Tracked/Spent.antt =====
-- An event is spent when no tuple that it would examine is left; the events of the other
-- repositories' tuples are of other kinds.
use maritime_mesh_network.Base.{ℕ, ◌≢◌, arith, All, All_map, All_of}
use maritime_mesh_network.Repositories.{Ipv4Address, Ipv4Mask}
use maritime_mesh_network.Protocol.{
  Protocol, link_tuple, nb2hop_tuple, mpr_sel_tuple, iface_assoc_tuple,
}
use maritime_mesh_network.Protocol.Laws.{
  link_key, selector_key, duplicate_key, topology_key, association_key, duplicate_event,
  topology_event, association_event,
}
use maritime_mesh_network.Protocol.Tracked.{
  IsSpent, link_inj, selector_inj, topology_inj, duplicate_inj, association_inj,
}

module _ {H S : Type 0} (s : Protocol H S) where
  pub link-IsSpent :
      (k : Ipv4Address) → All (λ t. link_key t ≢ k) s.links → IsSpent s (link_tuple k)
  link-IsSpent k n = record {
    links = All_map (λ t ne e. ne (link_inj (link_key t) k e)) s.links n;
    selectors = All_of (λ t. ground arith) s.mpr_selectors;
    topology = All_of (λ t. ground arith) s.topology;
    associations = All_of (λ t. ground arith) s.association_set;
    duplicates = All_of (λ t. ground arith) s.duplicates;
  }

  pub selector-IsSpent :
      (k : Ipv4Address)
      → All (λ t. selector_key t ≢ k) s.mpr_selectors
      → IsSpent s (mpr_sel_tuple k)
  selector-IsSpent k n = record {
    links = All_of (λ t. ground arith) s.links;
    selectors = All_map (λ t ne e. ne (selector_inj (selector_key t) k e)) s.mpr_selectors n;
    topology = All_of (λ t. ground arith) s.topology;
    associations = All_of (λ t. ground arith) s.association_set;
    duplicates = All_of (λ t. ground arith) s.duplicates;
  }

  pub topology-IsSpent :
      (k : Ipv4Address × Ipv4Address)
      → All (λ t. topology_key t ≢ k) s.topology
      → IsSpent s (topology_event k)
  topology-IsSpent k n = record {
    links = All_of (λ t. ground arith) s.links;
    selectors = All_of (λ t. ground arith) s.mpr_selectors;
    topology = All_map (λ t ne e. ne (topology_inj (topology_key t) k e)) s.topology n;
    associations = All_of (λ t. ground arith) s.association_set;
    duplicates = All_of (λ t. ground arith) s.duplicates;
  }

  pub association-IsSpent :
      (k : Ipv4Address × Ipv4Address × Ipv4Mask)
      → All (λ t. association_key t ≢ k) s.association_set
      → IsSpent s (association_event k)
  association-IsSpent k n = record {
    links = All_of (λ t. ground arith) s.links;
    selectors = All_of (λ t. ground arith) s.mpr_selectors;
    topology = All_of (λ t. ground arith) s.topology;
    associations =
        All_map (λ t ne e. ne (association_inj (association_key t) k e)) s.association_set n;
    duplicates = All_of (λ t. ground arith) s.duplicates;
  }

  pub duplicate-IsSpent :
      (k : Ipv4Address × ℕ)
      → All (λ t. duplicate_key t ≢ k) s.duplicates
      → IsSpent s (duplicate_event k)
  duplicate-IsSpent k n = record {
    links = All_of (λ t. ground arith) s.links;
    selectors = All_of (λ t. ground arith) s.mpr_selectors;
    topology = All_of (λ t. ground arith) s.topology;
    associations = All_of (λ t. ground arith) s.association_set;
    duplicates = All_map (λ t ne e. ne (duplicate_inj (duplicate_key t) k e)) s.duplicates n;
  }

  -- The events of the 2-hop neighbors and of the interfaces.
  pub nb2hop-IsSpent : (a b : Ipv4Address) → IsSpent s (nb2hop_tuple a b)
  nb2hop-IsSpent a b = record {
    links = All_of (λ t. ground arith) s.links;
    selectors = All_of (λ t. ground arith) s.mpr_selectors;
    topology = All_of (λ t. ground arith) s.topology;
    associations = All_of (λ t. ground arith) s.association_set;
    duplicates = All_of (λ t. ground arith) s.duplicates;
  }

  pub iface_assoc-IsSpent : (a : Ipv4Address) → IsSpent s (iface_assoc_tuple a)
  iface_assoc-IsSpent a = record {
    links = All_of (λ t. ground arith) s.links;
    selectors = All_of (λ t. ground arith) s.mpr_selectors;
    topology = All_of (λ t. ground arith) s.topology;
    associations = All_of (λ t. ground arith) s.association_set;
    duplicates = All_of (λ t. ground arith) s.duplicates;
  }
