-- ===== src/Wireguard/Types/Answers.antt =====
-- The types of what lua_wg_get_device of wireguard/lua_wireguard.c answers.
use lilush.Common.{
  ℕ, ◌+◌, ◌≡◌, refl, ◌∙◌, Bool, true, false, Bytes, String, List, [], ◌∷◌, ◌==◌, if◌then◌else◌,
  is_negative, c_string, Outcome, ok, custom_err, arith,
}
use mathlib.Core.Path.{subst}
use lilush.Wireguard.Table.{
  Value, boolean, number, string, table, Fields, Numbers, lua_getfield, index, key, field,
  no_fields,
}
use lilush.Wireguard.Device.{
  AllowedIp, Endpoint, unspecified, inet, inet6, Peer, Device, Wireguard, has_flag, af_inet,
  af_inet6,
}
use lilush.Wireguard.Push.{
  push_allowedip, push_endpoint, push_allowedips, push_peer, push_peers, push_device,
  lua_wg_get_device, lua_pushinteger, key_field,
}
use lilush.Wireguard.Set.Lookup.{
  value_if, device_table, key_value, get_public, get_private, get_port, get_mark, get_peers,
  skip_key,
}
use lilush.Wireguard.Types.{
  Shape, Schema, text, integer, each, HasShape, is_boolean, is_number, is_string, are_each,
  is_struct, AllHave, none_there, one_there, Follows, has, may_have, lacks, all_there,
  allowedip_shape, endpoint_shape, peer_shape, device_shape, settable_peer, settable_device, behind,
  instead,
}

module _ {s : Shape} {σ : Schema} {t : Fields} where
  -- A field that is there if a flag is set.
  optional_if :
      {name : String} {v : Value} (b : Bool)
      → lua_getfield t name ≡ value_if b v
      → HasShape s v
      → Follows σ t
      → Follows (Schema.optional name s σ) t
  optional_if true e h f = may_have e h f
  optional_if false e h f = lacks e f

module _ (W : Wireguard) (N : Numbers) where
  ip_there :
      (b c : Bool) (n m : ℕ) (s s' : Bytes)
      → Follows (Schema.optional "ip" text (Schema.required "cidr" integer Schema.no_more)) (
          field (key "family") (number n) (
            if b
            then field (key "ip") (string s) (field (key "cidr") (number m) no_fields)
            else if c
            then field (key "ip") (string s') (field (key "cidr") (number m) no_fields)
            else field (key "cidr") (number m) no_fields))
  unfolding lua_getfield
  ip_there true c n m s s' = may_have refl (is_string s) (has refl (is_number m) all_there)
  ip_there false true n m s s' = may_have refl (is_string s') (has refl (is_number m) all_there)
  ip_there false false n m s s' = lacks refl (has refl (is_number m) all_there)

  push_allowedip-HasShape : (a : AllowedIp) → HasShape allowedip_shape (push_allowedip W N a)
  unfolding push_allowedip lua_getfield
  push_allowedip-HasShape a =
      is_struct
        (has refl (is_number _) (ip_there (a.family == af_inet) (a.family == af_inet6) _ _ _ _))

  push_allowedips-HasShape :
      (i : ℕ) (ips : List AllowedIp) → AllHave allowedip_shape (push_allowedips W N i ips)
  unfolding push_allowedips
  push_allowedips-HasShape i [] = none_there
  push_allowedips-HasShape i (a ∷ rest) =
      one_there (index i) (push_allowedip-HasShape a) (push_allowedips-HasShape (i + 1) rest)

  push_endpoint-HasShape : (e : Endpoint) → HasShape endpoint_shape (push_endpoint W N e)
  unfolding push_endpoint lua_getfield
  push_endpoint-HasShape unspecified = is_struct (lacks refl (lacks refl all_there))
  push_endpoint-HasShape (inet a port) =
      is_struct (may_have refl (is_string _) (may_have refl (is_number _) all_there))
  push_endpoint-HasShape (inet6 a port flowinfo scope_id) =
      is_struct (may_have refl (is_string _) (may_have refl (is_number _) all_there))

  -- The fields of a peer, with the flags of its keys.
  abbrev peer_table : Bool → Bool → Peer → Fields
  peer_table b c p = field (key "remove_me") (boolean p.flags.remove_me) (
      field (key "replace_allowedips") (boolean p.flags.replace_allowedips) (
        key_field W N b "public_key" p.public_key (
          key_field W N c "preshared_key" p.preshared_key (
            field (key "endpoint") (push_endpoint W N p.endpoint) (
              field (key "last_handshake_time_sec") (lua_pushinteger W N p.last_handshake_time_sec)
                (field (key "last_handshake_time_nsec")
                  (lua_pushinteger W N p.last_handshake_time_nsec)
                  (field (key "rx_bytes") (lua_pushinteger W N p.rx_bytes) (
                    field (key "tx_bytes") (lua_pushinteger W N p.tx_bytes) (
                      field (key "persistent_keepalive_interval")
                        (lua_pushinteger W N p.persistent_keepalive_interval)
                        (field (key "allowed_ips") (table (push_allowedips W N 1 p.allowed_ips))
                          no_fields))))))))))

  module _ (b c : Bool) (p : Peer) where
    peer_rest :
        Follows
          (Schema.required "endpoint" endpoint_shape (
            Schema.required "last_handshake_time_sec" integer (
              Schema.required "last_handshake_time_nsec" integer (
                Schema.required "rx_bytes" integer (
                  Schema.required "tx_bytes" integer (
                    Schema.required "persistent_keepalive_interval" integer
                      (Schema.required "allowed_ips" (each allowedip_shape) Schema.no_more)))))))
          (peer_table b c p)
    unfolding lua_getfield
    peer_rest =
        has (skip_key W N b _ _ _ _ refl ∙ skip_key W N c _ _ _ _ refl)
          (push_endpoint-HasShape p.endpoint)
          (has (skip_key W N b _ _ _ _ refl ∙ skip_key W N c _ _ _ _ refl) (is_number _) (
            has (skip_key W N b _ _ _ _ refl ∙ skip_key W N c _ _ _ _ refl) (is_number _) (
              has (skip_key W N b _ _ _ _ refl ∙ skip_key W N c _ _ _ _ refl) (is_number _) (
                has (skip_key W N b _ _ _ _ refl ∙ skip_key W N c _ _ _ _ refl) (is_number _) (
                  has (skip_key W N b _ _ _ _ refl ∙ skip_key W N c _ _ _ _ refl) (is_number _) (
                    has (skip_key W N b _ _ _ _ refl ∙ skip_key W N c _ _ _ _ refl)
                      (are_each (push_allowedips-HasShape 1 p.allowed_ips)) all_there))))))

  peer_public :
      (b c : Bool) (p : Peer)
      → lua_getfield (peer_table b c p) "public_key" ≡ key_value W N b p.public_key
  unfolding lua_getfield
  peer_public true c p = refl
  peer_public false c p = skip_key W N c _ _ _ _ refl

  peer_preshared :
      (b c : Bool) (p : Peer)
      → lua_getfield (peer_table b c p) "preshared_key" ≡ key_value W N c p.preshared_key
  unfolding lua_getfield
  peer_preshared b true p = skip_key W N b _ _ _ _ refl
  peer_preshared b false p = skip_key W N b _ _ _ _ refl

  peer_table-HasShape : (b c : Bool) (p : Peer) → HasShape peer_shape (table (peer_table b c p))
  unfolding lua_getfield
  peer_table-HasShape b c p = is_struct (
      has refl (is_boolean _) (
        has refl (is_boolean _) (
          optional_if b (peer_public b c p) (is_string _)
            (optional_if c (peer_preshared b c p) (is_string _) (peer_rest b c p)))))

  push_peers-HasShape : (i : ℕ) (ps : List Peer) → AllHave peer_shape (push_peers W N i ps)
  unfolding push_peers push_peer
  push_peers-HasShape i [] = none_there
  push_peers-HasShape i (p ∷ rest) =
      one_there (index i) (peer_table-HasShape p.flags.has_public_key p.flags.has_preshared_key p)
        (push_peers-HasShape (i + 1) rest)

  device_table-HasShape :
      (b4 b2 b8 b16 : Bool) (dev : Device)
      → HasShape device_shape (table (device_table W N b4 b2 b8 b16 dev))
  unfolding lua_getfield
  device_table-HasShape b4 b2 b8 b16 dev = is_struct (
      has refl (is_string _) (
        has refl (is_number _) (
          optional_if b4 (get_public W N b2 b8 b16 dev b4) (is_string _) (
            optional_if b2 (get_private W N b4 dev b2 b8 b16) (is_string _) (
              optional_if b8 (get_port W N b4 dev b2 b8 b16) (is_number _) (
                optional_if b16 (get_mark W N b4 dev b2 b8 b16) (is_number _) (
                  has (get_peers W N b4 dev b2 b8 b16) (are_each (push_peers-HasShape 1 dev.peers))
                    all_there)))))))

peer-settable : {v : Value} → HasShape peer_shape v → HasShape settable_peer v
peer-settable (is_struct (has _ _ (has _ _ f))) =
    is_struct (instead f (instead (behind f) all_there))

peers-settable : {t : Fields} → AllHave peer_shape t → AllHave settable_peer t
peers-settable none_there = none_there
peers-settable (one_there k p rest) = one_there k (peer-settable p) (peers-settable rest)

peers_last :
    {t : Fields}
    → Follows (Schema.required "peers" (each peer_shape) Schema.no_more) t
    → Follows (Schema.optional "peers" (each settable_peer) Schema.no_more) t
peers_last (has e (are_each ps) f) = may_have e (are_each (peers-settable ps)) all_there

device-settable : {v : Value} → HasShape device_shape v → HasShape settable_device v
device-settable (is_struct (has _ _ (has _ _ f))) =
    is_struct (instead f (instead (behind f) (peers_last (behind (behind (behind (behind f)))))))

answered :
    (b : Bool) (v w : Value)
    → ◌≡◌ {A = Outcome Value} (if b then custom_err "Failed to get device" else ok v) (ok w)
    → v ≡ w
answered true v w e = absurd (ground arith)
answered false v w e = ground arith

module _ (W : Wireguard) (N : Numbers) where
  -- What lua_wg_get_device answers has the type of a device, whatever the library hands out: a name,
  -- flags and a list of peers, and the keys, the port and the mark as they are known; each peer with two
  -- Boolean fields, an endpoint, five numbers and a list of addresses. So it has the types that
  -- lua_wg_set_device asks for.
  pub lua_wg_get_device-HasShape :
      (device_name : Bytes) (v : Value)
      → lua_wg_get_device W N device_name ≡ ok v
      → HasShape device_shape v × HasShape settable_device v
  unfolding lua_wg_get_device push_device
  lua_wg_get_device-HasShape device_name v e =
      let dev = (W.wg_get_device (c_string device_name)).1 in
      let shape =
        device_table-HasShape W N (has_flag dev.flags 4) (has_flag dev.flags 2)
          (has_flag dev.flags 8) (has_flag dev.flags 16) dev in
      subst (λ v. HasShape device_shape v × HasShape settable_device v)
        (answered (is_negative (W.wg_get_device (c_string device_name)).0) (push_device W N dev) v
          e)
        (shape, device-settable shape)
