-- ===== src/Wireguard/Device.antt =====
-- The structures of wireguard/wireguard.h that wireguard/lua_wireguard.c fills and reads, and what it
-- calls. The linked lists are lists.
use lilush.Common.{
  ℕ, ◌+◌, ◌/◌, ◌%◌, Bool, Bytes, List, [], ◌∷◌, Option, ◌==◌, if◌then◌else◌, length, ℤ,
}

-- `ip` is the union of `ip4` and `ip6`, 16 bytes.
pub record AllowedIp : Type 0 where
  pub family : ℕ
  pub ip : Bytes
  pub cidr : ℕ

-- The union of the socket addresses by its family; a port is in the host's order. An IPv6 address has
-- its flow information, which lies where an IPv4 address does, and the interface of its scope.
pub data Endpoint : Type 0 where
  unspecified : Endpoint
  inet : Bytes → ℕ → Endpoint
  inet6 : (address : Bytes) (port flowinfo scope_id : ℕ) → Endpoint

-- The bits of `enum wg_peer_flags`.
pub record PeerFlags : Type 0 where
  pub remove_me : Bool
  pub replace_allowedips : Bool
  pub has_public_key : Bool
  pub has_preshared_key : Bool
  pub has_persistent_keepalive_interval : Bool

pub record Peer : Type 0 where
  pub flags : PeerFlags
  pub public_key : Bytes
  pub preshared_key : Bytes
  pub endpoint : Endpoint
  pub last_handshake_time_sec : ℕ
  pub last_handshake_time_nsec : ℕ
  pub rx_bytes : ℕ
  pub tx_bytes : ℕ
  pub persistent_keepalive_interval : ℕ
  pub allowed_ips : List AllowedIp

pub record Device : Type 0 where
  pub name : Bytes
  pub ifindex : ℕ
  pub flags : ℕ
  pub public_key : Bytes
  pub private_key : Bytes
  pub fwmark : ℕ
  pub listen_port : ℕ
  pub peers : List Peer

-- AF_INET and AF_INET6 of Linux.
abbrev pub af_inet : ℕ
af_inet = 2

abbrev pub af_inet6 : ℕ
af_inet6 = 10

-- The library's functions and those of the C library. `wg_key_from_base64` gives its return value and
-- the key; `inet_pton` an address if it returns 1. What it has written where it refuses a text as IPv4,
-- over four bytes of zeros, is `ipv4_rest`.
pub record Wireguard : Type 0 where
  pub wg_key_from_base64 : Bytes → ℤ × Bytes
  pub wg_key_to_base64 : Bytes → Bytes
  pub wg_generate_public_key : Bytes → Bytes
  pub wg_generate_private_key : Bytes
  pub wg_set_device : Device → ℤ
  pub wg_get_device : Bytes → ℤ × Device
  pub wg_add_device : Bytes → ℤ
  pub wg_del_device : Bytes → ℤ
  pub wg_list_device_names : Option Bytes
  pub inet_pton : ℕ → Bytes → Option Bytes
  pub ipv4_rest : Bytes → ℕ
  pub inet_ntop : ℕ → Bytes → Bytes

-- Whether a flag, a power of two, is among the flags.
abbrev pub has_flag : ℕ → ℕ → Bool
has_flag flags bit = flags / bit % 2 == 1

-- `flags |= bit`
unfoldable pub with_flag : ℕ → ℕ → ℕ
with_flag flags bit = if has_flag flags bit then flags else flags + bit

-- The blocks that a device, its peers and their addresses take.
abbrev pub peer_blocks : List Peer → ℕ
peer_blocks [] = 0
peer_blocks (p ∷ ps) = 1 + length p.allowed_ips + peer_blocks ps
