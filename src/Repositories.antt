-- ===== src/Repositories.antt =====
-- The vocabulary of the protocol: addresses, times, and the tuples that the repositories of
-- RoutingProtocol/ocean-protocol.cc hold (ns-3's olsr-repositories.h, which is not part of this
-- repository), with the fields that the code reads and writes.
pub mod Clock
pub mod Interface
use maritime_mesh_network.Base.{ℕ, Bool, true, false, List}
use maritime_mesh_network.Repositories.Clock.{Time}

-- The 32 bits of an `Ipv4Address` and of an `Ipv4Mask`.
abbrev pub Ipv4Address : Type 0
Ipv4Address = ℕ

abbrev pub Ipv4Mask : Type 0
Ipv4Mask = ℕ

-- `OLSR_WILL_NEVER`, `OLSR_WILL_DEFAULT` and `OLSR_WILL_ALWAYS`.
abbrev pub will_never : ℕ
will_never = 0

abbrev pub will_default : ℕ
will_default = 3

abbrev pub will_always : ℕ
will_always = 7

pub data Status : Type 0 where
  status_not_sym status_sym : Status

abbrev pub is_sym : Status → Bool
is_sym status_not_sym = false
is_sym status_sym = true

pub record IfaceAssocTuple : Type 0 where
  pub iface_addr : Ipv4Address
  pub main_addr : Ipv4Address
  pub time : Time

pub record LinkTuple : Type 0 where
  pub local_iface_addr : Ipv4Address
  pub neighbor_iface_addr : Ipv4Address
  pub sym_time : Time
  pub asym_time : Time
  pub time : Time

pub record NeighborTuple : Type 0 where
  pub neighbor_main_addr : Ipv4Address
  pub status : Status
  pub willingness : ℕ

pub record TwoHopNeighborTuple : Type 0 where
  pub neighbor_main_addr : Ipv4Address
  pub two_hop_neighbor_addr : Ipv4Address
  pub expiration_time : Time

pub record MprSelectorTuple : Type 0 where
  pub main_addr : Ipv4Address
  pub expiration_time : Time

pub record DuplicateTuple : Type 0 where
  pub address : Ipv4Address
  pub sequence_number : ℕ
  pub retransmitted : Bool
  pub iface_list : List Ipv4Address
  pub expiration_time : Time

pub record TopologyTuple : Type 0 where
  pub dest_addr : Ipv4Address
  pub last_addr : Ipv4Address
  pub sequence_number : ℕ
  pub expiration_time : Time

pub record AssociationTuple : Type 0 where
  pub gateway_addr : Ipv4Address
  pub network_addr : Ipv4Address
  pub netmask : Ipv4Mask
  pub expiration_time : Time

pub record Association : Type 0 where
  pub network_addr : Ipv4Address
  pub netmask : Ipv4Mask
