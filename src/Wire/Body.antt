-- ===== src/Wire/Body.antt =====
-- The bodies of the four kinds of messages: `Mid`, `Hello`, `Tc` and `Hna` of
-- RoutingProtocol/olsr-header.cc. A size is a `uint32_t`, written `% 2 ^ 32`.
pub mod Address
pub mod Link
use maritime_mesh_network.Base.{
  ℕ, zero, suc, ◌+◌, ◌-◌, ◌*◌, ◌/◌, ◌%◌, ◌^◌, ◌==◌, ltb, List, [], ◌∷◌, ◌++◌, if◌then◌else◌, length,
}
use maritime_mesh_network.Repositories.{Ipv4Address, Ipv4Mask}
use maritime_mesh_network.Wire.{Reader, pure, failed, ◌>>=◌, Buffer}

-- `IPV4_ADDRESS_SIZE`.
abbrev pub ipv4_address_size : ℕ
ipv4_address_size = 4

pub record Mid : Type 0 where
  pub interface_addresses : List Ipv4Address

pub record LinkMessage : Type 0 where
  pub link_code : ℕ
  pub neighbor_interface_addresses : List Ipv4Address

pub record Hello : Type 0 where
  pub h_time : ℕ
  pub willingness : ℕ
  pub link_messages : List LinkMessage

pub record Tc : Type 0 where
  pub ansn : ℕ
  pub neighbor_addresses : List Ipv4Address

pub record HnaAssociation : Type 0 where
  pub address : Ipv4Address
  pub mask : Ipv4Mask

pub record Hna : Type 0 where
  pub associations : List HnaAssociation

unfoldable pub mid_size : Mid → ℕ
mid_size m = length m.interface_addresses * ipv4_address_size % 2 ^ 32

-- The loop of `Hello::GetSerializedSize`, from a size.
unfoldable pub link_messages_size : ℕ → List LinkMessage → ℕ
link_messages_size size [] = size
link_messages_size size (lm ∷ lms) =
    link_messages_size
      ((size + 4 + ipv4_address_size * length lm.neighbor_interface_addresses) % 2 ^ 32) lms

unfoldable pub hello_size : Hello → ℕ
hello_size m = link_messages_size 4 m.link_messages

unfoldable pub tc_size : Tc → ℕ
tc_size m = (4 + length m.neighbor_addresses * ipv4_address_size) % 2 ^ 32

unfoldable pub hna_size : Hna → ℕ
hna_size m = 2 * length m.associations * ipv4_address_size % 2 ^ 32

module _ (b : Buffer) where
  -- The loop that writes a vector of addresses, and the loop that reads a number of them.
  unfoldable pub write_addresses : List Ipv4Address → List ℕ
  write_addresses [] = []
  write_addresses (a ∷ rest) = b.write_hton_u32 a ++ write_addresses rest

  unfoldable pub read_addresses : ℕ → Reader (List Ipv4Address)
  read_addresses zero = pure []
  read_addresses (suc n) = do a ← b.read_ntoh_u32; rest ← read_addresses n; pure (a ∷ rest)

  unfoldable pub write_mid : Mid → List ℕ
  write_mid m = write_addresses m.interface_addresses

  -- The result of a body's `Deserialize` is the body and the number of bytes that it returns.
  unfoldable pub read_mid : ℕ → Reader (Mid × ℕ)
  read_mid message_size =
      if message_size % ipv4_address_size == 0
      then (do
        addresses ← read_addresses (message_size / ipv4_address_size)
        let m : Mid = record { interface_addresses = addresses }
        pure (m, mid_size m))
      else failed

  unfoldable pub write_link_message : LinkMessage → List ℕ
  write_link_message lm =
      b.write_u8 lm.link_code
      ++ (b.write_u8 0
          ++ (b.write_hton_u16
                ((4 + length lm.neighbor_interface_addresses * ipv4_address_size) % 2 ^ 16)
              ++ write_addresses lm.neighbor_interface_addresses))

  unfoldable pub write_link_messages : List LinkMessage → List ℕ
  write_link_messages [] = []
  write_link_messages (lm ∷ lms) = write_link_message lm ++ write_link_messages lms

  unfoldable pub write_hello : Hello → List ℕ
  write_hello m =
      b.write_u16 0
      ++ (b.write_u8 m.h_time ++ (b.write_u8 m.willingness ++ write_link_messages m.link_messages))

  -- One link message and `lmSize`. A size below 4 that passes the test on its remainder is 0: the
  -- count of addresses is then -1, and the reads run past the end of any buffer.
  unfoldable pub read_link_message : Reader (LinkMessage × ℕ)
  read_link_message = do
    code ← b.read_u8
    reserved ← b.read_u8
    lm_size ← b.read_ntoh_u16
    if ltb lm_size 4
        then failed
        else if (lm_size - 4) % ipv4_address_size == 0
        then (do
          addresses ← read_addresses ((lm_size - 4) / ipv4_address_size)
          pure (record { link_code = code; neighbor_interface_addresses = addresses }, lm_size))
        else failed

  -- `while (helloSizeLeft)`, with fuel: each round reads four bytes at least.
  unfoldable pub read_link_messages : ℕ → ℕ → Reader (List LinkMessage)
  read_link_messages zero hello_size_left = failed
  read_link_messages (suc fuel) hello_size_left =
      if hello_size_left == 0 then pure [] else if ltb hello_size_left 4 then failed else do
        (lm, lm_size) ← read_link_message
        rest ← read_link_messages fuel ((hello_size_left + 2 ^ 16 - lm_size) % 2 ^ 16)
        pure (lm ∷ rest)

  unfoldable pub read_hello : ℕ → Reader (Hello × ℕ)
  read_hello message_size = if ltb message_size 4 then failed else do
    reserved ← b.read_ntoh_u16
    h_time ← b.read_u8
    willingness ← b.read_u8
    let hello_size_left = (message_size % 2 ^ 16 + 2 ^ 16 - 4) % 2 ^ 16
    link_messages ← (λ bytes. read_link_messages (suc (length bytes)) hello_size_left bytes)
    pure (
      record { h_time = h_time; willingness = willingness; link_messages = link_messages },
      message_size,
    )

  unfoldable pub write_tc : Tc → List ℕ
  write_tc m =
      b.write_hton_u16 m.ansn ++ (b.write_hton_u16 0 ++ write_addresses m.neighbor_addresses)

  unfoldable pub read_tc : ℕ → Reader (Tc × ℕ)
  read_tc message_size = if ltb message_size 4 then failed else do
    ansn ← b.read_ntoh_u16
    reserved ← b.read_ntoh_u16
    if (message_size - 4) % ipv4_address_size == 0
        then (do
          addresses ← read_addresses ((message_size - 4) / ipv4_address_size)
          pure (record { ansn = ansn; neighbor_addresses = addresses }, message_size))
        else failed

  unfoldable pub write_associations : List HnaAssociation → List ℕ
  write_associations [] = []
  write_associations (a ∷ rest) =
      b.write_hton_u32 a.address ++ (b.write_hton_u32 a.mask ++ write_associations rest)

  unfoldable pub write_hna : Hna → List ℕ
  write_hna m = write_associations m.associations

  unfoldable pub read_associations : ℕ → Reader (List HnaAssociation)
  read_associations zero = pure []
  read_associations (suc n) = do
    address ← b.read_ntoh_u32
    mask ← b.read_ntoh_u32
    rest ← read_associations n
    pure (record { address = address; mask = mask } ∷ rest)

  unfoldable pub read_hna : ℕ → Reader (Hna × ℕ)
  read_hna message_size =
      if message_size % (ipv4_address_size * 2) == 0
      then (do
        associations ← read_associations (message_size / ipv4_address_size / 2)
        pure (record { associations = associations }, message_size))
      else failed
