-- ===== src/Wireguard/Route.antt =====
-- addattr_l, addattr32 and lua_add_network_route of wireguard/lua_wireguard.c. The message is its
-- headers' fields and the bytes of `buf` behind them; words are stored the low byte first.
pub mod Attributes
use lilush.Common.{
  ℕ, zero, suc, ◌+◌, ◌-◌, ◌*◌, ◌/◌, ◌%◌, ◌^◌, ◌≤◌, ◌<◌, ◌≡◌, ◌≢◌, ◌⊎◌, inl, inr, Bool-cases, refl,
  Bool, true, false, Bytes, List, [], ◌∷◌, ◌++◌, Option, none, some, length, take, drop, replicate,
  c_string, ltb, ◌==◌, if◌then◌else◌, write_at, ℤ, pos, negsuc, is_negative, Outcome, ok,
  custom_err, fault, arith,
}

-- An IPv4 address, as the four bytes of `sin_addr`.
pub record Address : Type 0 where
  pub a : ℕ
  pub b : ℕ
  pub c : ℕ
  pub d : ℕ

abbrev pub octets : Address → Bytes
octets x = x.a ∷ x.b ∷ x.c ∷ x.d ∷ []

-- The request: `nl`, `rt` and `buf`. The headers take 16 and 12 bytes.
pub record RouteRequest : Type 0 where
  pub nlmsg_len : ℕ
  pub nlmsg_flags : ℕ
  pub nlmsg_type : ℕ
  pub rtm_family : ℕ
  pub rtm_table : ℕ
  pub rtm_protocol : ℕ
  pub rtm_scope : ℕ
  pub rtm_type : ℕ
  pub rtm_dst_len : ℕ
  pub buf : Bytes

-- `inet_pton` is documented to leave the address alone when it cannot read the text.
pub record Kernel : Type 0 where
  pub inet_pton : Bytes → Option Address
  pub if_nametoindex : Bytes → ℕ
  pub socket : ℤ
  pub sendto : RouteRequest → ℤ

-- NLMSG_ALIGN and RTA_ALIGN
unfoldable pub align4 : ℕ → ℕ
align4 n = (n + 3) / 4 * 4

abbrev pub le16 : ℕ → Bytes
le16 n = n % 256 ∷ n / 256 % 256 ∷ []

abbrev pub le32 : ℕ → Bytes
le32 n = n % 256 ∷ n / 256 % 256 ∷ n / 65536 % 256 ∷ n / 16777216 % 256 ∷ []

-- A Lua integer in an `unsigned char`.
unfoldable pub to_uchar : ℤ → ℕ
to_uchar (pos n) = n % 256
to_uchar (negsuc n) = 255 - n % 256

-- The attribute at the message's tail, and the new length; `none` where a write leaves the message.
-- The headers' 28 bytes are in front of `buf`.
unfoldable pub add_attribute : RouteRequest → ℕ → Bytes → ℕ → Option (ℤ × RouteRequest)
unfolding align4
add_attribute n type payload padded =
    let tail = align4 (n.nlmsg_len) in
    elim (write_at n.buf (tail - 28) (le16 (4 + length payload) ++ (le16 type ++ payload))) [
      | none ↦ none
      | some buf ↦ some (pos 0, record n { nlmsg_len = tail + padded; buf = buf })
    ]

-- The return value, and the message.
unfoldable pub addattr_l : RouteRequest → ℕ → ℕ → Bytes → Option (ℤ × RouteRequest)
unfolding align4 add_attribute
addattr_l n maxlen type payload =
    let padded = align4 (4 + length payload) in
    if ltb maxlen (align4 (n.nlmsg_len) + padded)
    then some (negsuc 0, n)
    else add_attribute n type payload padded

unfoldable pub addattr32 : RouteRequest → ℕ → ℕ → ℕ → Option (ℤ × RouteRequest)
unfolding align4 add_attribute
addattr32 n maxlen type payload =
    if ltb maxlen (align4 (n.nlmsg_len) + 8)
    then some (negsuc 0, n)
    else add_attribute n type (le32 payload) 8

pub record RouteRun : Type 0 where
  pub result : Outcome Bool
  pub sent : List RouteRequest
  pub open_sockets : ℕ

-- `sizeof(req)`
abbrev pub request_size : ℕ
request_size = 1052

-- `req` before its attributes.
unfoldable pub new_route : ℤ → ℤ → RouteRequest
unfolding to_uchar
new_route prefix_len scope = record {
  nlmsg_len = 28;
  nlmsg_flags = 1537;
  nlmsg_type = 24;
  rtm_family = 2;
  rtm_table = 254;
  rtm_protocol = 3;
  rtm_scope = to_uchar scope;
  rtm_type = 1;
  rtm_dst_len = to_uchar prefix_len;
  buf = replicate 1024 0;
}

-- `inet_pton` into `sin`, unchecked.
unfoldable pub read_address : Kernel → Bytes → Address → Address
read_address K text sin_addr = elim (K.inet_pton (c_string text)) [ none ↦ sin_addr | some x ↦ x ]

abbrev pub stopped : Outcome Bool → RouteRun
stopped result = record { result = result; sent = []; open_sockets = 0 }

-- From `socket` on.
unfoldable pub send_route : Kernel → RouteRequest → RouteRun
send_route K request =
    if is_negative K.socket
    then stopped (custom_err "Failed to create socket")
    else if is_negative (K.sendto request)
    then record {
      result = custom_err "Failed to send netlink message";
      sent = request ∷ [];
      open_sockets = 0;
    }
    else record { result = ok true; sent = request ∷ []; open_sockets = 0 }

-- The attribute of the gateway, if one is given. The address is read into the `sin` that holds the
-- destination.
unfoldable pub add_gateway : Kernel → RouteRequest → Address → Option Bytes → Option RouteRequest
unfolding read_address addattr_l
add_gateway K request sin_addr none = some request
add_gateway K request sin_addr (some gw) =
    elim (addattr_l request request_size 5 (octets (read_address K gw sin_addr))) [
      | none ↦ none
      | some (ret, request') ↦ some request'
    ]

-- `luaL_optinteger(L, 4, 0)`
abbrev pub scope_of : Option ℤ → ℤ
scope_of none = pos 0
scope_of (some s) = s

-- `garbage` is what the stack holds where `sin.sin_addr` stands; nothing sets it before.
unfoldable pub lua_add_network_route :
    Kernel → Address → Bytes → ℤ → Bytes → Option ℤ → Option Bytes → RouteRun
unfolding new_route read_address addattr_l addattr32 add_gateway send_route
lua_add_network_route K garbage dest prefix_len ifname scope gw =
    let sin_addr = read_address K dest garbage in
    let req = new_route prefix_len (scope_of scope) in
    elim (addattr_l req request_size 1 (octets sin_addr)) [
      | none ↦ stopped fault
      | some (ret, with_dst) ↦
          let ifindex = K.if_nametoindex (c_string ifname) in
          if ifindex == 0
          then stopped (custom_err "Invalid interface name")
          else elim (addattr32 with_dst request_size 4 ifindex) [
            | none ↦ stopped fault
            | some (ret', with_oif) ↦ elim (add_gateway K with_oif sin_addr gw) [
              | none ↦ stopped fault
              | some request ↦ send_route K request
            ]
          ]
    ]
