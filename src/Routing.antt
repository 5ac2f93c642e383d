-- ===== src/Routing.antt =====
-- The routing table of RoutingProtocol/ocean-protocol.cc: its entries, `AddEntry`, `Lookup`,
-- `RemoveEntry`, `GetRoutingTableEntries` and `GetMainAddress`. `m_table` is a dictionary in
-- ascending order of the addresses.
pub mod Entries
pub mod Build
pub mod Send
pub mod Hna
use maritime_mesh_network.Base.{
  ℕ, zero, suc, ◌+◌, ◌==◌, Bool, true, false, Option, none, some, List, [], ◌∷◌, if◌then◌else◌, map,
}
use maritime_mesh_network.Base.Dict
use maritime_mesh_network.Repositories.{Ipv4Address, IfaceAssocTuple}

pub record RoutingTableEntry : Type 0 where
  pub dest_addr : Ipv4Address
  pub next_addr : Ipv4Address
  pub interface : ℕ
  pub distance : ℕ

abbrev pub Table : Type 0
Table = List (Ipv4Address × RoutingTableEntry)

-- What the code asks of ns-3's `Ipv4` object: `GetNInterfaces ()`, `GetNAddresses (i)` and
-- `GetAddress (i, j).GetLocal ()`.
pub record Ipv4 : Type 0 where
  pub n_interfaces : ℕ
  pub n_addresses : ℕ → ℕ
  pub get_address : ℕ → ℕ → Ipv4Address

-- `m_table.clear ()`.
abbrev pub clear : Table
clear = []

abbrev pub lookup : Ipv4Address → Table → Option RoutingTableEntry
lookup = Dict.lookup

-- `m_table.erase (dest)`.
unfoldable pub remove_entry : Ipv4Address → Table → Table
remove_entry = Dict.erase

-- `AddEntry` with an interface index.
unfoldable pub add_entry : Ipv4Address → Ipv4Address → ℕ → ℕ → Table → Table
add_entry dest next interface distance table =
    Dict.insert dest
      (record { dest_addr = dest; next_addr = next; interface = interface; distance = distance })
      table

-- The inner loop of `AddEntry` with an address, from the `j`th address of interface `i` on, `k`
-- rounds before its end.
unfoldable pub has_address : Ipv4 → Ipv4Address → ℕ → ℕ → ℕ → Bool
has_address ipv4 addr i zero j = false
has_address ipv4 addr i (suc k) j =
    let rest = has_address ipv4 addr i k (j + 1) in
    if ipv4.get_address i j == addr then true else rest

-- The outer loop: the first interface with the address.
unfoldable pub interface_with : Ipv4 → Ipv4Address → ℕ → ℕ → Option ℕ
unfolding has_address
interface_with ipv4 addr zero i = none
interface_with ipv4 addr (suc k) i =
    let rest = interface_with ipv4 addr k (i + 1) in
    if has_address ipv4 addr i (ipv4.n_addresses i) 0 then some i else rest

-- `AddEntry` with the address of an interface. Where no interface has the address the code
-- asserts, and with assertions off goes on with interface 0.
unfoldable pub add_entry_at : Ipv4 → Ipv4Address → Ipv4Address → Ipv4Address → ℕ → Table → Table
unfolding interface_with add_entry
add_entry_at ipv4 dest next addr distance table =
    elim (interface_with ipv4 addr ipv4.n_interfaces 0) [
      | some i ↦ add_entry dest next i distance table
      | none ↦ add_entry dest next 0 distance table
    ]

pub get_routing_table_entries : Table → List RoutingTableEntry
get_routing_table_entries = map (λ p. p.1)

-- `GetMainAddress`; `find` is `m_state.FindIfaceAssocTuple`.
unfoldable pub get_main_address : (Ipv4Address → Option IfaceAssocTuple) → Ipv4Address → Ipv4Address
get_main_address find addr = elim (find addr) [ none ↦ addr | some t ↦ t.main_addr ]
