-- ===== src/Wireguard/Parse.antt =====
-- lua_wg_set_device of wireguard/lua_wireguard.c. Every error return leaves the blocks allocated so far.
use lilush.Common.{
  ℕ, zero, suc, ◌+◌, ◌%◌, ◌^◌, Bool, true, false, Bytes, List, [], ◌∷◌, ◌++◌, Option, none, some,
  String, ◌==◌, if◌then◌else◌, is_negative, not, length, drop, replicate, c_string, Outcome, ok,
  custom_err, sys_err, fault,
}
use lilush.Wireguard.Table.{
  Value, Fields, Numbers, lua_getfield, values, lua_isnil, lua_istable, lua_tostring, lua_tointeger,
  lua_toboolean,
}
use lilush.Wireguard.Device.{
  AllowedIp, Endpoint, unspecified, inet, inet6, Peer, Wireguard, af_inet, af_inet6,
}

-- How many blocks are allocated, and how many more `malloc` will give.
pub record Heap : Type 0 where
  pub allocated : ℕ
  pub available : ℕ

-- A step of the function: it goes on, or the function has returned.
pub data Parsed (A : Type 0) : Type 0 where
  done : A → Heap → Parsed A
  returned : Outcome Bool → Heap → Parsed A

unfoldable pub and_then : {A B : Type 0} → Parsed A → (A → Heap → Parsed B) → Parsed B
and_then (done a h) k = k a h
and_then (returned r h) k = returned r h

-- A value that has to be a table, with the message for another.
unfoldable pub as_table : {A : Type 0} → Value → String → Heap → (Fields → Parsed A) → Parsed A
as_table v message h k = elim (lua_istable v) [
  | none ↦ returned (custom_err message) h
  | some t ↦ k t
]

-- `malloc`, with the message for its failure.
unfoldable pub malloc : {A : Type 0} → String → Heap → (Heap → Parsed A) → Parsed A
malloc message h k = elim h.available [
  | zero ↦ returned (custom_err message) h
  | suc left ↦ k (record { allocated = h.allocated + 1; available = left })
]

-- A step that allocates nothing.
unfoldable pub lift : {A : Type 0} → Outcome A → Heap → Parsed A
lift (ok a) h = done a h
lift (custom_err message) h = returned (custom_err message) h
lift (sys_err errno) h = returned (sys_err errno) h
lift fault h = returned fault h

unfoldable pub on_ok : {A B : Type 0} → Outcome A → (A → Outcome B) → Outcome B
on_ok (ok a) k = k a
on_ok (custom_err message) k = custom_err message
on_ok (sys_err errno) k = sys_err errno
on_ok fault k = fault

-- `lua_tostring` with the message for NULL.
abbrev pub or_err : Option Bytes → String → Outcome Bytes
or_err none message = custom_err message
or_err (some s) message = ok s

-- A field that is skipped when it is nil.
unfoldable pub optional {ℓ} : {A : Type ℓ} → Value → A → (Value → A) → A
optional v default k = if lua_isnil v then default else k v

-- A write to the start of a union.
abbrev pub overlay : Bytes → Bytes → Bytes
overlay bytes old = bytes ++ drop (length bytes) old

abbrev pub no_key : Bytes
no_key = replicate 32 0

abbrev pub key_or_zero : Option Bytes → Bytes
key_or_zero none = no_key
key_or_zero (some k) = k

abbrev pub is_some {ℓ} : {A : Type ℓ} → Option A → Bool
is_some none = false
is_some (some a) = true

module _ (W : Wireguard) (N : Numbers) where
  unfoldable pub parse_ip : ℕ → Option Bytes → Outcome Bytes
  parse_ip family none = ok (replicate 16 0)
  parse_ip family (some ip_str) =
      if family == af_inet
      then elim (W.inet_pton af_inet (c_string ip_str)) [
        | none ↦ custom_err "Invalid IPv4 address"
        | some address ↦ ok (overlay address (replicate 16 0))
      ]
      else if family == af_inet6
      then elim (W.inet_pton af_inet6 (c_string ip_str)) [
        | none ↦ custom_err "Invalid IPv6 address"
        | some address ↦ ok (overlay address (replicate 16 0))
      ]
      else ok (replicate 16 0)

  -- One address, its block allocated. A family is stored in 16 bits, a prefix length in 8.
  unfoldable pub allowedip_fields : Fields → Outcome AllowedIp
  unfolding parse_ip
  allowedip_fields t =
      let family = optional (lua_getfield t "family") 0 (λ v. lua_tointeger N v % 2 ^ 16) in
      on_ok (parse_ip family (lua_tostring N (lua_getfield t "ip"))) (λ ip. ok (record {
        family = family;
        ip = ip;
        cidr = optional (lua_getfield t "cidr") 0 (λ v. lua_tointeger N v % 2 ^ 8);
      }))

  unfoldable pub parse_allowedips : List Value → Heap → Parsed (List AllowedIp)
  unfolding allowedip_fields
  parse_allowedips [] h = done [] h
  parse_allowedips (v ∷ rest) h = as_table v "Each allowed IP must be a table" h (λ t.
      malloc "Failed to allocate memory for wg_allowedip" h (λ h1.
        and_then (lift (allowedip_fields t) h1)
          (λ a h2. and_then (parse_allowedips rest h2) (λ more h3. done (a ∷ more) h3))))

  -- A key, if the field is not nil, with the message for one that cannot be read. The source passes
  -- what `lua_tostring` gives, NULL included.
  unfoldable pub parse_key : Value → String → Outcome (Option Bytes)
  parse_key v message = optional v (ok none) (λ v. elim (lua_tostring N v) [
    | none ↦ fault
    | some key_str ↦
        let (ret, wg_key) = W.wg_key_from_base64 (c_string key_str) in
        if is_negative ret then custom_err message else ok (some wg_key)
  ])

  -- The peer has been cleared, and no scope is set. The text has been tried as IPv4 in the bytes of the
  -- flow information.
  unfoldable pub parse_endpoint : Value → Outcome Endpoint
  parse_endpoint v = optional v (ok unspecified) (λ v. elim (lua_istable v) [
    | none ↦ custom_err "Endpoint must be a table"
    | some t ↦
        let port = optional (lua_getfield t "port") 0 (λ n. lua_tointeger N n % 2 ^ 16) in
        elim (lua_tostring N (lua_getfield t "ip")) [
          | none ↦ custom_err "Endpoint IP is missing or invalid"
          | some ip_str ↦ elim (W.inet_pton af_inet (c_string ip_str)) [
            | some address ↦ ok (inet address port)
            | none ↦ elim (W.inet_pton af_inet6 (c_string ip_str)) [
              | some address ↦ ok (inet6 address port (W.ipv4_rest (c_string ip_str)) 0)
              | none ↦ custom_err "Invalid endpoint IP address"
            ]
          ]
        ]
  ])

  -- A peer but its addresses, its block allocated and cleared.
  unfoldable pub peer_fields : Fields → Outcome Peer
  unfolding parse_key parse_endpoint
  peer_fields t =
      on_ok (parse_key (lua_getfield t "public_key") "Invalid public key") (λ public_key.
        on_ok (parse_key (lua_getfield t "preshared_key") "Invalid preshared key") (λ preshared_key.
          on_ok (parse_endpoint (lua_getfield t "endpoint")) (λ endpoint. ok (record {
            flags = record {
              remove_me = optional (lua_getfield t "remove_me") false lua_toboolean;
              replace_allowedips =
                  optional (lua_getfield t "replace_allowedips") false lua_toboolean;
              has_public_key = is_some public_key;
              has_preshared_key = is_some preshared_key;
              has_persistent_keepalive_interval =
                  not (lua_isnil (lua_getfield t "persistent_keepalive_interval"));
            };
            public_key = key_or_zero public_key;
            preshared_key = key_or_zero preshared_key;
            endpoint = endpoint;
            last_handshake_time_sec =
                optional (lua_getfield t "last_handshake_time_sec") 0 (lua_tointeger N);
            last_handshake_time_nsec =
                optional (lua_getfield t "last_handshake_time_nsec") 0 (lua_tointeger N);
            rx_bytes = optional (lua_getfield t "rx_bytes") 0 (lua_tointeger N);
            tx_bytes = optional (lua_getfield t "tx_bytes") 0 (lua_tointeger N);
            persistent_keepalive_interval =
                optional (lua_getfield t "persistent_keepalive_interval") 0
                  (λ v. lua_tointeger N v % 2 ^ 16);
            allowed_ips = [];
          }))))

  -- The addresses of a peer.
  unfoldable pub peer_allowedips : Value → Heap → Parsed (List AllowedIp)
  unfolding parse_allowedips
  peer_allowedips v h =
      optional v (done [] h)
        (λ v. as_table v "Allowed IPs must be a table" h (λ t. parse_allowedips (values t) h))

  unfoldable pub parse_peer : Value → Heap → Parsed Peer
  unfolding peer_fields peer_allowedips
  parse_peer v h = as_table v "Each peer must be a table" h (λ t.
      malloc "Failed to allocate memory for wg_peer" h (λ h1.
        and_then (lift (peer_fields t) h1) (λ peer h2.
          and_then (peer_allowedips (lua_getfield t "allowed_ips") h2)
            (λ allowed_ips h3. done (record peer { allowed_ips = allowed_ips }) h3))))

  unfoldable pub parse_peers : List Value → Heap → Parsed (List Peer)
  unfolding parse_peer
  parse_peers [] h = done [] h
  parse_peers (v ∷ rest) h =
      and_then (parse_peer v h)
        (λ peer h1. and_then (parse_peers rest h1) (λ more h2. done (peer ∷ more) h2))
