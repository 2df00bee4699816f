-- ===== src/Wireguard/Set/Reported.antt =====
-- The devices that wireguard/lua_wireguard.c gets from the kernel, and what it relies on to set them
-- again.
use lilush.Common.{
  ℕ, ◌%◌, ◌^◌, ◌≤◌, ◌<◌, ◌≡◌, refl, ap, Bool, true, false, Bytes, String, ◌++◌, none, some, length,
  take, replicate, take-append, append-nil, c_string, pos, ok, arith,
}
use lilush.Wireguard.Table.{table, Fields, Numbers, lua_getfield}
use lilush.Wireguard.Device.{
  AllowedIp, Endpoint, unspecified, inet, inet6, Wireguard, af_inet, af_inet6,
}
use lilush.Wireguard.Push.{push_allowedip, push_endpoint, lua_pushstring}
use lilush.Wireguard.Parse.{
  parse_ip, allowedip_fields, parse_key, parse_endpoint, optional, on_ok, no_key,
}

-- What the libraries are documented to do: a `lua_Number` holds integers up to 2^53; the text of a key
-- and of an address can be read back and has no NUL; the text of an IPv6 address is no IPv4 address.
pub record IsLawful (W : Wireguard) (N : Numbers) : Type 0 where
  pub double_exact : (n : ℕ) → n ≤ 2 ^ 53 → N.double n ≡ n
  pub key_text : (k : Bytes) → c_string (W.wg_key_to_base64 k) ≡ W.wg_key_to_base64 k
  pub key_read :
      (k : Bytes) → length k ≡ 32 → W.wg_key_from_base64 (W.wg_key_to_base64 k) ≡ (pos 0, k)
  pub address_text :
      (family : ℕ) (a : Bytes) → c_string (W.inet_ntop family a) ≡ W.inet_ntop family a
  pub inet_read : (a : Bytes) → length a ≡ 4 → W.inet_pton af_inet (W.inet_ntop af_inet a) ≡ some a
  pub inet6_read :
      (a : Bytes) → length a ≡ 16 → W.inet_pton af_inet6 (W.inet_ntop af_inet6 a) ≡ some a
  pub inet6_only : (a : Bytes) → length a ≡ 16 → W.inet_pton af_inet (W.inet_ntop af_inet6 a) ≡ none

-- An address as the kernel reports it: the union holds four bytes and zeros, or sixteen.
pub data IsReportedIp : AllowedIp → Type 0 where
  reported_ip4 :
      (b : Bytes) {cidr : ℕ}
      → length b ≡ 4
      → cidr < 2 ^ 8
      → IsReportedIp (record { family = af_inet; ip = b ++ replicate 12 0; cidr = cidr })
  reported_ip6 :
      (b : Bytes) {cidr : ℕ}
      → length b ≡ 16
      → cidr < 2 ^ 8
      → IsReportedIp (record { family = af_inet6; ip = b; cidr = cidr })

-- An endpoint that is known.
abbrev pub IsKnown : Endpoint → Type 0
IsKnown unspecified = ⊥
IsKnown (inet a port) = (length a ≡ 4) × (port < 2 ^ 16)
IsKnown (inet6 a port flowinfo scope_id) = (length a ≡ 16) × (port < 2 ^ 16)

-- An endpoint that is set again: without its scope, and with what stands in the place of its flow
-- information.
abbrev pub without_scope : Wireguard → Endpoint → Endpoint
without_scope W (inet6 a port flowinfo scope_id) =
    inet6 a port (W.ipv4_rest (W.inet_ntop af_inet6 a)) 0
without_scope W e = e

-- A key is there if its flag is set, and zero if not.
abbrev pub IsKey : Bool → Bytes → Type 0
IsKey true k = length k ≡ 32
IsKey false k = k ≡ no_key

take_four : (b rest : Bytes) → length b ≡ 4 → take 4 (b ++ rest) ≡ b
take_four b rest h = rw (← h) (take-append b rest)

module _ (W : Wireguard) (N : Numbers) (L : IsLawful W N) where
  text_twice : (k : Bytes) → c_string (c_string (W.wg_key_to_base64 k)) ≡ W.wg_key_to_base64 k
  text_twice k = rw (L.key_text k, L.key_text k) refl

  address_twice :
      (family : ℕ) (a : Bytes) → c_string (c_string (W.inet_ntop family a)) ≡ W.inet_ntop family a
  address_twice family a = rw (L.address_text family a, L.address_text family a) refl

  pub word16_exact : (n : ℕ) → n < 2 ^ 16 → N.double n % 2 ^ 16 ≡ n
  word16_exact n l = rw (L.double_exact n (omega arith)) (omega arith)

  byte_exact : (n : ℕ) → n < 2 ^ 8 → N.double n % 2 ^ 8 ≡ n
  byte_exact n l = rw (L.double_exact n (omega arith)) (omega arith)

  -- An endpoint that is known can be set again, but not its scope.
  pub parse_endpoint-push :
      (e : Endpoint) → IsKnown e → parse_endpoint W N (push_endpoint W N e) ≡ ok (without_scope W e)
  unfolding parse_endpoint push_endpoint optional lua_getfield
  parse_endpoint-push unspecified h = elim h [ ]
  parse_endpoint-push (inet a port) (ha, hp) =
      rw (address_twice af_inet a, L.inet_read a ha, word16_exact port hp) refl
  parse_endpoint-push (inet6 a port flowinfo scope_id) (ha, hp) =
      rw
        (
          address_twice af_inet6 a,
          L.inet6_only a ha,
          address_twice af_inet6 a,
          L.inet6_read a ha,
          word16_exact port hp,
        )
        (ap (λ text. ok (inet6 a port (W.ipv4_rest text) 0)) (address_twice af_inet6 a))

  -- A key that is pushed can be set again.
  pub parse_key-push :
      (k : Bytes) (message : String)
      → length k ≡ 32
      → parse_key W N (lua_pushstring W N (W.wg_key_to_base64 k)) message ≡ ok (some k)
  unfolding parse_key optional
  parse_key-push k message h = rw (text_twice k, L.key_read k h) refl

  -- An address that is reported can be set again.
  pub allowedip_fields-push :
      {a : AllowedIp}
      → IsReportedIp a
      → (t : Fields) × (push_allowedip W N a ≡ table t) × (allowedip_fields W N t ≡ ok a)
  unfolding push_allowedip allowedip_fields parse_ip optional on_ok lua_getfield
  allowedip_fields-push (reported_ip4 b {cidr} hb hc) = (
    _,
    refl,
    rw (word16_exact 2 (omega arith)) (
        rw (take_four b _ hb, address_twice af_inet b, L.inet_read b hb, hb, byte_exact cidr hc)
          refl),
  )
  allowedip_fields-push (reported_ip6 b {cidr} hb hc) = (
    _,
    refl,
    rw (word16_exact 10 (omega arith)) (
        rw (address_twice af_inet6 b, L.inet6_read b hb, hb, append-nil b, byte_exact cidr hc)
          refl),
  )
