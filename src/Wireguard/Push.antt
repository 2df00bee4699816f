-- ===== src/Wireguard/Push.antt =====
-- push_allowedip, push_peer and lua_wg_get_device of wireguard/lua_wireguard.c.
use lilush.Common.{
  ℕ, ◌+◌, Bool, true, false, Bytes, List, [], ◌∷◌, ◌==◌, if◌then◌else◌, is_negative, take, c_string,
  String, Outcome, ok, custom_err,
}
use lilush.Wireguard.Table.{
  index, key, Value, boolean, number, string, table, Fields, no_fields, field, Numbers,
}
use lilush.Wireguard.Device.{
  AllowedIp, Endpoint, unspecified, inet, inet6, Peer, Device, Wireguard, af_inet, af_inet6,
  has_flag,
}

module _ (W : Wireguard) (N : Numbers) where
  -- `lua_pushinteger`
  abbrev pub lua_pushinteger : ℕ → Value
  lua_pushinteger n = number (N.double n)

  -- `lua_pushstring` of a C string
  abbrev pub lua_pushstring : Bytes → Value
  lua_pushstring s = string (c_string s)

  -- The field `ip` of an address; a family that is neither gets none.
  abbrev pub ip_field : AllowedIp → Fields → Fields
  ip_field a rest =
      if a.family == af_inet
      then field (key "ip") (lua_pushstring (W.inet_ntop af_inet (take 4 a.ip))) rest
      else if a.family == af_inet6
      then field (key "ip") (lua_pushstring (W.inet_ntop af_inet6 a.ip)) rest
      else rest

  unfoldable pub push_allowedip : AllowedIp → Value
  push_allowedip a = table (
      field (key "family") (lua_pushinteger a.family)
        (ip_field a (field (key "cidr") (lua_pushinteger a.cidr) no_fields)))

  -- The flow information and the scope are not pushed.
  unfoldable pub push_endpoint : Endpoint → Value
  push_endpoint unspecified = table no_fields
  push_endpoint (inet address port) = table (
      field (key "ip") (lua_pushstring (W.inet_ntop af_inet address))
        (field (key "port") (lua_pushinteger port) no_fields))
  push_endpoint (inet6 address port flowinfo scope_id) = table (
      field (key "ip") (lua_pushstring (W.inet_ntop af_inet6 address))
        (field (key "port") (lua_pushinteger port) no_fields))

  -- A key, if its flag is set.
  abbrev pub key_field : Bool → String → Bytes → Fields → Fields
  key_field false s k rest = rest
  key_field true s k rest = field (key s) (lua_pushstring (W.wg_key_to_base64 k)) rest

  -- The table of the addresses, from an index on.
  unfoldable pub push_allowedips : ℕ → List AllowedIp → Fields
  push_allowedips i [] = no_fields
  push_allowedips i (a ∷ rest) = field (index i) (push_allowedip a) (push_allowedips (i + 1) rest)

  unfoldable pub push_peer : Peer → Value
  unfolding push_endpoint push_allowedips
  push_peer p = table (
      field (key "remove_me") (boolean p.flags.remove_me) (
        field (key "replace_allowedips") (boolean p.flags.replace_allowedips) (
          key_field p.flags.has_public_key "public_key" p.public_key (
            key_field p.flags.has_preshared_key "preshared_key" p.preshared_key (
              field (key "endpoint") (push_endpoint p.endpoint) (
                field (key "last_handshake_time_sec") (lua_pushinteger p.last_handshake_time_sec) (
                  field (key "last_handshake_time_nsec")
                    (lua_pushinteger p.last_handshake_time_nsec)
                    (field (key "rx_bytes") (lua_pushinteger p.rx_bytes) (
                      field (key "tx_bytes") (lua_pushinteger p.tx_bytes) (
                        field (key "persistent_keepalive_interval")
                          (lua_pushinteger p.persistent_keepalive_interval)
                          (field (key "allowed_ips") (table (push_allowedips 1 p.allowed_ips))
                            no_fields)))))))))))

  -- The table of the peers, from an index on.
  unfoldable pub push_peers : ℕ → List Peer → Fields
  unfolding push_peer
  push_peers i [] = no_fields
  push_peers i (p ∷ rest) = field (index i) (push_peer p) (push_peers (i + 1) rest)

  -- A number, if its flag is set.
  abbrev pub number_field : Bool → String → ℕ → Fields → Fields
  number_field false s n rest = rest
  number_field true s n rest = field (key s) (lua_pushinteger n) rest

  -- The flags: WGDEVICE_HAS_PRIVATE_KEY is 2, WGDEVICE_HAS_PUBLIC_KEY 4, WGDEVICE_HAS_LISTEN_PORT 8
  -- and WGDEVICE_HAS_FWMARK 16.
  unfoldable pub push_device : Device → Value
  unfolding push_peers
  push_device dev = table (
      field (key "name") (lua_pushstring dev.name) (
        field (key "flags") (lua_pushinteger dev.flags) (
          key_field (has_flag dev.flags 4) "public_key" dev.public_key (
            key_field (has_flag dev.flags 2) "private_key" dev.private_key (
              number_field (has_flag dev.flags 8) "listen_port" dev.listen_port (
                number_field (has_flag dev.flags 16) "fwmark" dev.fwmark
                  (field (key "peers") (table (push_peers 1 dev.peers)) no_fields)))))))

  -- The device that the library hands out is freed behind its conversion.
  unfoldable pub lua_wg_get_device : Bytes → Outcome Value
  unfolding push_device
  lua_wg_get_device device_name =
      let (ret, dev) = W.wg_get_device (c_string device_name) in
      if is_negative ret then custom_err "Failed to get device" else ok (push_device dev)
