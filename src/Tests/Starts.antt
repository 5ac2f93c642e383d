-- ===== src/Tests/Starts.antt =====
-- `DoInitialize` on a node with the loopback interface and two others.
use maritime_mesh_network.Base.{ℕ, zero, suc, ◌+◌, ◌≡◌, refl, some, List, [], ◌∷◌}
use maritime_mesh_network.Repositories.{Ipv4Address}
use maritime_mesh_network.Repositories.Interface.{found}
use maritime_mesh_network.Routing.{Ipv4, get_main_address}
use maritime_mesh_network.Routing.Hna.Contents.{HnaRoute}
use maritime_mesh_network.Protocol.{Protocol, main_address_of, add_iface_assoc_tuple}
use maritime_mesh_network.Generate.{loopback}
use maritime_mesh_network.System.{initial}
use maritime_mesh_network.Setup.{
  first_address, choose_main_address, own_tuple, own_interface, own_interfaces, initialize,
}
use maritime_mesh_network.Tests.States.{vectors}

abbrev unset : Ipv4Address
unset = 0x66666666

abbrev interface_address : ℕ → Ipv4Address
interface_address zero = loopback
interface_address (suc zero) = 10
interface_address (suc (suc i)) = i + 11

abbrev interfaces : Ipv4
interfaces = record {
  n_interfaces = 3;
  n_addresses = λ i. 1;
  get_address = λ i k. interface_address i;
}

abbrev blank : Protocol ℕ (List HnaRoute)
blank = initial unset 0 []

-- The interface with the address 11 leads to the main address.
leads_to_main :
    initialize vectors interfaces unset blank
    ≡ some (record blank { main_address = 10; iface_assocs = own_tuple 11 10 ∷ [] })
unfolding initialize choose_main_address first_address own_interfaces own_interface main_address_of
    get_main_address found add_iface_assoc_tuple initial
leads_to_main = refl
