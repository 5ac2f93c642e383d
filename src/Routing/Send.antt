-- ===== src/Routing/Send.antt =====
-- The use of the routing table in RoutingProtocol/ocean-protocol.cc: `FindSendEntry`,
-- `RouteOutput`, `RouteInput` and `IsMyOwnAddress`.
pub mod Direct
use maritime_mesh_network.Base.{
  ℕ, zero, suc, ◌==◌, Bool, true, false, not, Option, none, some, List, [], ◌∷◌, if◌then◌else◌,
}
use maritime_mesh_network.Repositories.{Ipv4Address}
use maritime_mesh_network.Routing.{RoutingTableEntry, Table, Ipv4, lookup}

-- What `FindSendEntry` does: it returns true with an entry, or returns false, or its loop is still
-- running when the fuel ends.
pub data Send : Type 0 where
  found : RoutingTableEntry → Send
  missing looping : Send

unfoldable pub find_send_entry : Table → ℕ → RoutingTableEntry → Send
find_send_entry table zero e = if e.dest_addr == e.next_addr then found e else looping
find_send_entry table (suc fuel) e =
    let next : Send = elim (lookup e.next_addr table) [
      | none ↦ missing
      | some f ↦ find_send_entry table fuel f
    ] in
    if e.dest_addr == e.next_addr then found e else next

-- The fields that the code sets in an `Ipv4Route`; the output device is that of the interface.
pub record Ipv4Route : Type 0 where
  pub destination : Ipv4Address
  pub source : Ipv4Address
  pub gateway : Ipv4Address
  pub output_interface : ℕ

-- The device that a caller asks for, by what `GetInterfaceForDevice` says of it (-1 is `none`).
pub data Oif : Type 0 where
  any_device : Oif
  on_interface : Option ℕ → Oif

-- `oif && m_ipv4->GetInterfaceForDevice (oif) != interfaceIdx`.
unfoldable pub is_other_interface : Oif → ℕ → Bool
is_other_interface any_device i = false
is_other_interface (on_interface none) i = true
is_other_interface (on_interface (some j)) i = not (j == i)

-- `ERROR_NOTERROR` with a route, `ERROR_NOROUTETOHOST` with none, and the two calls of
-- `NS_FATAL_ERROR`; `hanging` stands for a call that does not return within the fuel.
pub data Output : Type 0 where
  routed : Ipv4Route → Output
  no_route_to_host send_entry_failure aliasing_unsupported hanging : Output

-- The route for an entry that `FindSendEntry` found, if its interface has a single address.
unfoldable pub make_route : Ipv4 → Ipv4Address → RoutingTableEntry → Output
make_route ipv4 dest e =
    if ipv4.n_addresses e.interface == 1
    then routed (record {
      destination = dest;
      source = ipv4.get_address e.interface 0;
      gateway = e.next_addr;
      output_interface = e.interface;
    })
    else aliasing_unsupported

unfoldable pub send_by : Ipv4 → Ipv4Address → Oif → Send → Output
unfolding make_route is_other_interface
send_by ipv4 dest oif missing = send_entry_failure
send_by ipv4 dest oif looping = hanging
send_by ipv4 dest oif (found e) =
    if is_other_interface oif e.interface then no_route_to_host else make_route ipv4 dest e

-- `RouteOutput`; `hna_route` is `m_hnaRoutingTable->RouteOutput`.
unfoldable pub route_output :
    Ipv4 → (Ipv4Address → Option Ipv4Route) → Table → ℕ → Ipv4Address → Oif → Output
unfolding find_send_entry send_by
route_output ipv4 hna_route table fuel dest oif = elim (lookup dest table) [
  | some e ↦ send_by ipv4 dest oif (find_send_entry table fuel e)
  | none ↦ elim (hna_route dest) [ some r ↦ routed r | none ↦ no_route_to_host ]
]

-- `IsMyOwnAddress`, over the local addresses of `m_sendSockets`.
unfoldable pub is_my_own_address : List Ipv4Address → Ipv4Address → Bool
is_my_own_address [] a = false
is_my_own_address (iface ∷ ifaces) a = if a == iface then true else is_my_own_address ifaces a

-- What `RouteInput` does with a packet. `declined` is the result false.
pub data Input : Type 0 where
  consumed delivered declined left_to_hna : Input
  forwarded : Output → Input

-- What `RouteInput` asks of its caller and of ns-3: the addresses of the packet, whether
-- `IsDestinationAddress` and `lcb` hold for it, and the answer of `m_hnaRoutingTable->RouteInput`.
pub record Arrival : Type 0 where
  pub source : Ipv4Address
  pub destination : Ipv4Address
  pub is_for_us : Bool
  pub has_local_callback : Bool
  pub hna_takes_it : Bool

unfoldable pub route_input : Ipv4 → List Ipv4Address → Table → ℕ → Arrival → Input
unfolding is_my_own_address find_send_entry send_by
route_input ipv4 own table fuel p =
    if is_my_own_address own p.source
    then consumed
    else if p.is_for_us
    then if p.has_local_callback then delivered else declined
    else elim (lookup p.destination table) [
      | some e ↦ forwarded (send_by ipv4 p.destination any_device (find_send_entry table fuel e))
      | none ↦ if p.hna_takes_it then left_to_hna else declined
    ]
