-- ===== src/Setup/Own.antt =====
-- `DoInitialize` makes `GetMainAddress` translate the addresses of the node's own interfaces.
use maritime_mesh_network.Base.{ℕ, ◌<◌, ◌≡◌, ◌≢◌, some, List, get_elem?, All}
use maritime_mesh_network.Repositories.{Ipv4Address, IfaceAssocTuple}
use maritime_mesh_network.Routing.{Ipv4}
use maritime_mesh_network.Protocol.{Protocol, OlsrState, main_address_of}
use maritime_mesh_network.Protocol.Laws.{IsOlsrState}
use maritime_mesh_network.Generate.{loopback}

-- The vector has a tuple for the address.
abbrev IsHeld : List IfaceAssocTuple → Ipv4Address → Type 0
IsHeld v addr = (p : ℕ) × (t : IfaceAssocTuple) × (get_elem? v p ≡ some t) × (t.iface_addr ≡ addr)

module _ (ipv4 : Ipv4) (main : Ipv4Address) where
  -- After `i` rounds every tuple is of an interface before the `i`th and leads to the main address,
  -- and every such interface that needs a tuple has one.
  record IsOwn (i : ℕ) (v : List IfaceAssocTuple) : Type 0 where
    leads : All (λ t. t.main_addr ≡ main) v
    before : All (λ t. (j : ℕ) × (j < i) × (t.iface_addr ≡ ipv4.get_address j 0)) v
    held :
        (j : ℕ)
        → j < i
        → ipv4.get_address j 0 ≢ loopback
        → ipv4.get_address j 0 ≢ main
        → IsHeld v (ipv4.get_address j 0)

module _ {H S : Type 0} (st : OlsrState S) (laws : IsOlsrState st) (ipv4 : Ipv4) where
  abbrev with_own : List IfaceAssocTuple → Protocol H S → Protocol H S
  with_own v s = record s { iface_assocs = v }

  -- The main address was set, the interface associations changed, and nothing else; each address of
  -- an interface, other than the loopback address, is translated into the main address.
  pub record IsStarted (main : Ipv4Address) (s u : Protocol H S) : Type 0 where
    pub others : u ≡ record s { main_address = main; iface_assocs = u.iface_assocs }
    pub translates :
        (i : ℕ)
        → i < ipv4.n_interfaces
        → ipv4.get_address i 0 ≢ loopback
        → main_address_of st u (ipv4.get_address i 0) ≡ main
