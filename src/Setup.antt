-- ===== src/Setup.antt =====
-- `DoInitialize` of RoutingProtocol/ocean-protocol.cc: the main address of the node, and the
-- associations of its other interfaces with it. A failed assertion is `none`.
use maritime_mesh_network.Base.{ℕ, zero, suc, ◌+◌, ◌==◌, Option, none, some, if◌then◌else◌}
use maritime_mesh_network.Base.Int.{pos}
use maritime_mesh_network.Repositories.{Ipv4Address, IfaceAssocTuple}
use maritime_mesh_network.Routing.{Ipv4}
use maritime_mesh_network.Protocol.{Protocol, OlsrState, main_address_of, add_iface_assoc_tuple}
use maritime_mesh_network.Generate.{loopback}
pub mod Own
pub mod Others

-- The loop that looks for a main address, from the `i`th interface on, `k` rounds before its end:
-- the first address other than the loopback address.
unfoldable pub first_address : Ipv4 → ℕ → ℕ → Option Ipv4Address
first_address ipv4 zero i = none
first_address ipv4 (suc k) i =
    let rest = first_address ipv4 k (i + 1) in
    let addr = ipv4.get_address i 0 in if addr == loopback then rest else some addr

-- A main address that is set, by `SetMainInterface`, is kept; `unset` is `Ipv4Address ()`.
unfoldable pub choose_main_address : Ipv4 → Ipv4Address → Ipv4Address → Option Ipv4Address
choose_main_address ipv4 unset main =
    if main == unset
    then elim (first_address ipv4 ipv4.n_interfaces 0) [
      | none ↦ none
      | some addr ↦ if addr == unset then none else some addr
    ]
    else some main

-- A `Time` that is not set is 0.
abbrev pub own_tuple : Ipv4Address → Ipv4Address → IfaceAssocTuple
own_tuple addr main = record { iface_addr = addr; main_addr = main; time = pos 0 }

module _ {H S : Type 0} (st : OlsrState S) (ipv4 : Ipv4) where
  -- One round, for an address other than the loopback address. No event is
  -- scheduled for the tuple.
  unfoldable pub own_interface : Ipv4Address → Protocol H S → Option (Protocol H S)
  unfolding main_address_of add_iface_assoc_tuple
  own_interface addr s =
      if addr == s.main_address
      then some s
      else let t = add_iface_assoc_tuple st (own_tuple addr s.main_address) s in
        if main_address_of st t addr == s.main_address then some t else none

  -- The loop over the interfaces, from the `i`th on, `k` rounds before its end.
  unfoldable pub own_interfaces : ℕ → ℕ → Protocol H S → Option (Protocol H S)
  own_interfaces zero i s = some s
  own_interfaces (suc k) i s =
      let addr = ipv4.get_address i 0 in
      elim (if addr == loopback then some s else own_interface addr s) [
        | none ↦ none
        | some t ↦ own_interfaces k (i + 1) t
      ]

  unfoldable pub initialize : Ipv4Address → Protocol H S → Option (Protocol H S)
  initialize unset s = elim (choose_main_address ipv4 unset s.main_address) [
    | none ↦ none
    | some main ↦ own_interfaces ipv4.n_interfaces 0 (record s { main_address = main })
  ]
