-- ===== src/Wireguard/Tests.antt =====
-- The theorems on wireguard/lua_wireguard.c over a concrete library and kernel, at concrete data.
mod Devices
use lilush.Common.{
  ℕ, zero, suc, ◌≤◌, ◌≡◌, refl, ◌≢◌, ◌↔◌, ap, true, false, Bytes, [], ◌∷◌, ◌++◌, map, Option, none,
  some, replicate, c_string, ◌==◌, if◌then◌else◌, pos, negsuc, custom_err, fault, arith,
}
use lilush.Wireguard.Interface.{
  Kernel, lua_add_ipv4_address, netmask, network_bits, prefix_bits, netmask-bits,
  lua_add_ipv4_address-undefined,
}
use lilush.Wireguard.Route.{
  Address, octets, RouteRequest, le32, to_uchar, request_size, scope_of, lua_add_network_route,
}
use lilush.Wireguard.Route.{Kernel as RouteKernel}
use lilush.Wireguard.Route.Attributes.{
  attributes_of, gateway_attributes, largest, lua_add_network_route-attributes,
  lua_add_network_route-bad_gateway, lua_add_network_route-safe,
}
use lilush.Wireguard.Table.{
  key, string, table, Fields, no_fields, field, Numbers, values, lua_getfield,
}
use lilush.Wireguard.Device.{unspecified, inet, inet6, Peer, Wireguard, af_inet, af_inet6}
use lilush.Wireguard.Push.{push_allowedip, push_peer, push_peers}
use lilush.Wireguard.Parse.{
  done, returned, no_key, malloc, and_then, lift, on_ok, optional, as_table, parse_peer,
  parse_peers,
}
use lilush.Wireguard.Set.{lua_wg_set_device}
use lilush.Wireguard.Set.Release.{lua_wg_set_device-releases}
use lilush.Wireguard.Set.Reported.{IsLawful}
use lilush.Wireguard.Set.Peers.{one_peer, no_peers, as_set}
use lilush.Wireguard.Set.RoundTrip.{parse_peers-push, parse_peer-unknown}

-- An interface that is down and has a broadcast address, flags 2.
abbrev kernel : Kernel
kernel = record {
  socket = pos 3;
  ioctl = λ request. pos 0;
  current_flags = λ name. 2;
  inet_addr = λ s. 1;
}

netmask-bits_example :
    (mask : ℕ) × (netmask (pos 24) ≡ some mask) × (network_bits mask ≡ prefix_bits 24)
netmask-bits_example = netmask-bits 24 (omega arith) (omega arith)

-- Texts of four bytes are addresses.
abbrev read_four : Bytes → Option Address
read_four (a ∷ b ∷ c ∷ d ∷ []) = some (record { a = a; b = b; c = c; d = d })
read_four _ = none

abbrev route_kernel : RouteKernel
route_kernel = record {
  inet_pton = read_four;
  if_nametoindex = λ name. 7;
  socket = pos 3;
  sendto = λ request. pos 36;
}

abbrev stack : Address
stack = record { a = 9; b = 9; c = 9; d = 9 }

abbrev network : Address
network = record { a = 10; b = 1; c = 2; d = 3 }

lua_add_network_route-attributes_example :
    (request : RouteRequest) × ((lua_add_network_route route_kernel stack
        (10 ∷ 1 ∷ 2 ∷ 3 ∷ [])
        (pos 24)
        (119 ∷ [])
        none
        (some (10 ∷ 1 ∷ 2 ∷ 4 ∷ []))).sent
      ≡ request ∷ [])
    × (request.rtm_dst_len ≡ to_uchar (pos 24))
    × (request.rtm_scope ≡ to_uchar (scope_of none))
    × (attributes_of request
        ≡ some (
            (1, octets network)
            ∷ (4, le32 7)
            ∷ gateway_attributes (some (record { a = 10; b = 1; c = 2; d = 4 }))))
lua_add_network_route-attributes_example =
    lua_add_network_route-attributes route_kernel stack (10 ∷ 1 ∷ 2 ∷ 3 ∷ []) (pos 24) (119 ∷ [])
      none (some (10 ∷ 1 ∷ 2 ∷ 4 ∷ [])) refl refl refl refl

lua_add_network_route-safe_example :
    ((lua_add_network_route route_kernel stack [] (pos 0) [] none none).result ≢ fault)
    × ((lua_add_network_route route_kernel stack [] (pos 0) [] none none).open_sockets ≡ 0)
    × (largest (lua_add_network_route route_kernel stack [] (pos 0) [] none none).sent
        ≤ request_size)
lua_add_network_route-safe_example =
    lua_add_network_route-safe route_kernel stack [] (pos 0) [] none none

-- Texts that hold each byte plus one, behind the family.
abbrev pred : ℕ → ℕ
pred zero = 0
pred (suc n) = n

abbrev read_text : ℕ → Bytes → Option Bytes
read_text family [] = none
read_text family (f ∷ s) = if f == family then some (map pred s) else none

abbrev wireguard : Wireguard
wireguard = record {
  wg_key_from_base64 = λ s. (pos 0, map pred s);
  wg_key_to_base64 = λ k. map suc k;
  wg_generate_public_key = λ k. k;
  wg_generate_private_key = replicate 32 1;
  wg_set_device = λ dev. pos 0;
  wg_get_device = λ name. (
    negsuc 0,
    record {
      name = [];
      ifindex = 0;
      flags = 0;
      public_key = [];
      private_key = [];
      fwmark = 0;
      listen_port = 0;
      peers = [];
    },
  );
  wg_add_device = λ name. pos 0;
  wg_del_device = λ name. pos 0;
  wg_list_device_names = none;
  inet_pton = read_text;
  ipv4_rest = λ text. 0;
  inet_ntop = λ family a. suc (pred family) ∷ map suc a;
}

abbrev numbers : Numbers
numbers = record { double = λ n. n; number_text = λ n. []; text_number = λ s. 0 }

c_string-suc : (s : Bytes) → c_string (map suc s) ≡ map suc s
c_string-suc [] = refl
c_string-suc (b ∷ s) = ground (arith, c_string-suc s)

pred-suc : (s : Bytes) → map pred (map suc s) ≡ s
pred-suc [] = refl
pred-suc (b ∷ s) = ap (λ t. b ∷ t) (pred-suc s)

wireguard-IsLawful : IsLawful wireguard numbers
wireguard-IsLawful = record {
  double_exact = λ n h. refl;
  key_text = c_string-suc;
  key_read = λ k h. rw (pred-suc k) refl;
  address_text = λ family a. c_string-suc (pred family ∷ a);
  inet_read = λ a h. rw (pred-suc a) refl;
  inet6_read = λ a h. rw (pred-suc a) refl;
  inet6_only = λ a h. refl;
}

abbrev peer : Peer
peer = record {
  flags = record {
    remove_me = false;
    replace_allowedips = true;
    has_public_key = true;
    has_preshared_key = false;
    has_persistent_keepalive_interval = false;
  };
  public_key = replicate 32 5;
  preshared_key = no_key;
  endpoint = inet6 (254 ∷ 128 ∷ replicate 14 1) 51820 7 3;
  last_handshake_time_sec = 1700000000;
  last_handshake_time_nsec = 5;
  rx_bytes = 4096;
  tx_bytes = 8192;
  persistent_keepalive_interval = 25;
  allowed_ips =
      record { family = af_inet; ip = (10 ∷ 1 ∷ 0 ∷ 0 ∷ []) ++ replicate 12 0; cidr = 16 }
      ∷ record { family = af_inet6; ip = replicate 16 1; cidr = 64 }
      ∷ [];
}

abbrev roaming : Peer
roaming = record peer { endpoint = unspecified }

parse_peer-unknown_example :
    parse_peer wireguard numbers
      (push_peer wireguard numbers roaming)
      (record { allocated = 1; available = 10 })
    ≡ returned
        (custom_err "Endpoint IP is missing or invalid")
        (record { allocated = 2; available = 9 })
parse_peer-unknown_example =
    parse_peer-unknown wireguard numbers wireguard-IsLawful roaming 1 9 refl refl refl

abbrev named : Fields
named =
    field (key "name") (string (119 ∷ []))
      (field (key "peers") (table (push_peers wireguard numbers 1 (peer ∷ []))) no_fields)

lua_wg_set_device-releases_example :
    ((lua_wg_set_device wireguard numbers (table named) 10).allocated ≡ 0)
    ↔ ((lua_wg_set_device wireguard numbers (table named) 10).applied ≢ none)
lua_wg_set_device-releases_example = lua_wg_set_device-releases wireguard numbers named 9
