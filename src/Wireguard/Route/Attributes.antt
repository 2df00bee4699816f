-- ===== src/Wireguard/Route/Attributes.antt =====
-- What the kernel reads from the message of lua_add_network_route in wireguard/lua_wireguard.c, and
-- that the function stays within its buffer.
use lilush.Common.{
  ℕ, zero, suc, ◌+◌, ◌-◌, ◌*◌, ◌/◌, ◌≤◌, ◌≡◌, ◌≢◌, inl, inr, Bool-cases, refl, true, false, Bytes,
  List, [], ◌∷◌, ◌++◌, Option, none, some, take, drop, replicate, c_string, ltb, ◌==◌,
  if◌then◌else◌, ℤ, is_negative, custom_err, fault, arith,
}
use lilush.Wireguard.Route.{
  Address, octets, RouteRequest, Kernel, le32, to_uchar, addattr_l, addattr32, request_size,
  new_route, read_address, stopped, send_route, add_gateway, scope_of, lua_add_network_route,
}

-- The attributes as the kernel reads them: a length and a type of two bytes each, then the payload,
-- padded to a multiple of four.
abbrev pub read_attributes : ℕ → Bytes → Option (List (ℕ × Bytes))
read_attributes zero bytes = none
read_attributes (suc fuel) [] = some []
read_attributes (suc fuel) (l ∷ l' ∷ t ∷ t' ∷ rest) =
    let len = l + 256 * l' in
    elim (read_attributes fuel (drop ((len + 3) / 4 * 4 - 4) rest)) [
      | none ↦ none
      | some attributes ↦ some ((t + 256 * t', take (len - 4) rest) ∷ attributes)
    ]
read_attributes (suc fuel) _ = none

-- The attributes of a message that is sent: `nlmsg_len` bytes of it.
abbrev pub attributes_of : RouteRequest → Option (List (ℕ × Bytes))
attributes_of request = read_attributes 1024 (take (request.nlmsg_len - 28) request.buf)

-- The addresses that the text of a gateway stands for, if one is given.
abbrev pub gateway_attributes : Option Address → List (ℕ × Bytes)
gateway_attributes none = []
gateway_attributes (some x) = (5, octets x) ∷ []

abbrev pub read_gateway : Kernel → Option Bytes → Option (Option Address)
read_gateway K none = some none
read_gateway K (some gw) = elim (K.inet_pton (c_string gw)) [ none ↦ none | some x ↦ some (some x) ]

-- One attribute of four bytes, as it stands in the message.
abbrev attribute : ℕ → Bytes → Bytes
attribute type bytes = 8 ∷ 0 ∷ type ∷ 0 ∷ bytes

abbrev laid_out : Address → ℕ → Option Address → Bytes
laid_out dst ifindex none =
    attribute 1 (octets dst) ++ (attribute 4 (le32 ifindex) ++ replicate 1008 0)
laid_out dst ifindex (some gw) =
    attribute 1 (octets dst)
    ++ (attribute 4 (le32 ifindex) ++ (attribute 5 (octets gw) ++ replicate 1000 0))

abbrev message_size : Option Address → ℕ
message_size none = 44
message_size (some gw) = 52

-- The message for a destination, an interface and a gateway.
abbrev pub message : ℤ → ℤ → Address → ℕ → Option Address → RouteRequest
message p s dst ifindex gateway = record (new_route p s) {
  nlmsg_len = message_size gateway;
  buf = laid_out dst ifindex gateway;
}

-- What `sin_addr` holds when the gateway has been read into it.
abbrev pub gateway_of : Kernel → Address → Option Bytes → Option Address
gateway_of K sin_addr none = none
gateway_of K sin_addr (some gw) = some (read_address K gw sin_addr)

-- The greatest length sent.
abbrev pub largest : List RouteRequest → ℕ
largest [] = 0
largest (request ∷ rest) =
    if ltb (largest rest) request.nlmsg_len then request.nlmsg_len else largest rest

message_fits : (gateway : Option Address) → message_size gateway ≤ request_size
message_fits none = omega arith
message_fits (some gw) = omega arith

send_route-safe :
    (K : Kernel) (request : RouteRequest)
    → request.nlmsg_len ≤ request_size
    → ((send_route K request).result ≢ fault)
      × ((send_route K request).open_sockets ≡ 0)
      × (largest (send_route K request).sent ≤ request_size)
unfolding send_route
send_route-safe K request h = (ground arith, ground arith, ground arith)

send_route-sent :
    (K : Kernel) (request : RouteRequest)
    → is_negative K.socket ≡ false
    → (send_route K request).sent ≡ request ∷ []
unfolding send_route
send_route-sent K request h = ground arith

read_address-some :
    (K : Kernel) (text : Bytes) (old : Address) {x : Address}
    → K.inet_pton (c_string text) ≡ some x
    → read_address K text old ≡ x
unfolding read_address
read_address-some K text old h = rw (read_address, h) refl

gateway_of-read :
    (K : Kernel) (gw : Option Bytes) (old : Address) {gateway : Option Address}
    → read_gateway K gw ≡ some gateway
    → gateway_of K old gw ≡ gateway
unfolding read_address
gateway_of-read K none old h = ground arith
gateway_of-read K (some gw) old h = ground arith

read_address-none :
    (K : Kernel) (text : Bytes) (old : Address)
    → K.inet_pton (c_string text) ≡ none
    → read_address K text old ≡ old
unfolding read_address
read_address-none K text old h = rw (read_address, h) refl

message_attributes :
    (p s : ℤ) (dst : Address) (ifindex : ℕ) (gateway : Option Address)
    → attributes_of (message p s dst ifindex gateway)
      ≡ some ((1, octets dst) ∷ (4, le32 ifindex) ∷ gateway_attributes gateway)
message_attributes p s dst ifindex none = refl
message_attributes p s dst ifindex (some gw) = refl

module _ (K : Kernel) (garbage : Address) (dest : Bytes) (p : ℤ) (ifname : Bytes)
    (scope : Option ℤ) where
  lua_add_network_route-message :
      (gw : Option Bytes)
      → (K.if_nametoindex (c_string ifname) == 0) ≡ false
      → lua_add_network_route K garbage dest p ifname scope gw
        ≡ send_route K (
            message p
              (scope_of scope)
              (read_address K dest garbage)
              (K.if_nametoindex (c_string ifname))
              (gateway_of K (read_address K dest garbage) gw))
  unfolding lua_add_network_route addattr_l addattr32 add_gateway new_route
  lua_add_network_route-message none hi = rw (hi) refl
  lua_add_network_route-message (some gw) hi = rw (hi) refl

  lua_add_network_route-unknown :
      (gw : Option Bytes)
      → (K.if_nametoindex (c_string ifname) == 0) ≡ true
      → lua_add_network_route K garbage dest p ifname scope gw
        ≡ stopped (custom_err "Invalid interface name")
  unfolding lua_add_network_route addattr_l new_route
  lua_add_network_route-unknown gw h = rw (h) refl

  -- If every address can be read, the interface is known and the socket can be made, one message is
  -- sent, and the kernel reads from it the prefix length, the scope and the attributes that the
  -- arguments ask for: destination, interface and, if one is given, gateway.
  pub lua_add_network_route-attributes :
      (gw : Option Bytes) {dst : Address} {gateway : Option Address}
      → K.inet_pton (c_string dest) ≡ some dst
      → read_gateway K gw ≡ some gateway
      → (K.if_nametoindex (c_string ifname) == 0) ≡ false
      → is_negative K.socket ≡ false
      → (request : RouteRequest) × ((lua_add_network_route K garbage dest p ifname scope gw).sent
          ≡ request ∷ [])
        × (request.rtm_dst_len ≡ to_uchar p)
        × (request.rtm_scope ≡ to_uchar (scope_of scope))
        × (attributes_of request
            ≡ some (
                (1, octets dst)
                ∷ (4, le32 (K.if_nametoindex (c_string ifname)))
                ∷ gateway_attributes gateway))
  unfolding new_route read_address send_route
  lua_add_network_route-attributes gw {dst} {gateway} hd hg hi hs = (
    message p (scope_of scope) dst (K.if_nametoindex (c_string ifname)) gateway,
    rw
        (
          lua_add_network_route-message gw hi,
          read_address-some K dest garbage hd,
          gateway_of-read K gw dst hg,
        )
        (send_route-sent K _ hs),
    refl,
    refl,
    message_attributes p (scope_of scope) dst (K.if_nametoindex (c_string ifname)) gateway,
  )

  -- A gateway whose text cannot be read is not refused: the route is sent with its destination as its
  -- gateway.
  pub lua_add_network_route-bad_gateway :
      (gw : Bytes) {dst : Address}
      → K.inet_pton (c_string dest) ≡ some dst
      → K.inet_pton (c_string gw) ≡ none
      → (K.if_nametoindex (c_string ifname) == 0) ≡ false
      → is_negative K.socket ≡ false
      → (request : RouteRequest) × ((lua_add_network_route K garbage dest p ifname scope
            (some gw)).sent
          ≡ request ∷ [])
        × (attributes_of request
            ≡ some (
                (1, octets dst)
                ∷ (4, le32 (K.if_nametoindex (c_string ifname)))
                ∷ (5, octets dst)
                ∷ []))
  unfolding new_route read_address send_route
  lua_add_network_route-bad_gateway gw {dst} hd hg hi hs = (
    message p (scope_of scope) dst (K.if_nametoindex (c_string ifname)) (some dst),
    rw
        (
          lua_add_network_route-message (some gw) hi,
          read_address-some K dest garbage hd,
          read_address-none K gw dst hg,
        )
        (send_route-sent K _ hs),
    message_attributes p (scope_of scope) dst (K.if_nametoindex (c_string ifname)) (some dst),
  )

  -- On every path: no write leaves the message, no socket stays open, and what is sent lies within
  -- the request's 1052 bytes.
  pub lua_add_network_route-safe :
      (gw : Option Bytes)
      → ((lua_add_network_route K garbage dest p ifname scope gw).result ≢ fault)
        × ((lua_add_network_route K garbage dest p ifname scope gw).open_sockets ≡ 0)
        × (largest (lua_add_network_route K garbage dest p ifname scope gw).sent ≤ request_size)
  unfolding send_route
  lua_add_network_route-safe gw = elim (Bool-cases (K.if_nametoindex (c_string ifname) == 0)) [
    | inl unknown ↦ rw (lua_add_network_route-unknown gw unknown) (ground arith, refl, omega arith)
    | inr known ↦
        rw (lua_add_network_route-message gw known)
          (send_route-safe K _ (message_fits (gateway_of K (read_address K dest garbage) gw)))
  ]
