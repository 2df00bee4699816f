-- ===== src/Wireguard/Types/Safety.antt =====
-- lua_wg_set_device of wireguard/lua_wireguard.c on tables that have the right types.
use lilush.Common.{
  ℕ, ◌%◌, ◌^◌, ◌≢◌, Bool, true, false, Bytes, String, List, [], ◌∷◌, Option, none, some, ◌==◌,
  if◌then◌else◌, ℤ, is_negative, c_string, ok, custom_err, fault,
}
use lilush.Wireguard.Table.{
  Value, table, Fields, Numbers, lua_getfield, values, lua_istable, lua_tostring, lua_tointeger,
}
use lilush.Wireguard.Device.{Wireguard, Device, af_inet, af_inet6}
use lilush.Wireguard.Parse.{
  Heap, Parsed, as_table, optional, parse_ip, allowedip_fields, parse_allowedips, parse_key,
  parse_endpoint, peer_fields, peer_allowedips, parse_peer, parse_peers,
}
use lilush.Wireguard.Set.{device_fields, add_peers, parse_device, apply_device, lua_wg_set_device}
use lilush.Wireguard.Types.Defined.{
  IsDefined, NeverFaults, on_ok-IsDefined, and_then-NeverFaults, lift-NeverFaults,
  malloc-NeverFaults, as_table-NeverFaults, optional-cases, branch, option_or, or_err-IsDefined,
  defined_ok, defined_custom, goes_on, returns,
}
use lilush.Wireguard.Types.{
  Schema, text, each, HasShape, is_string, are_each, is_struct, AllHave, none_there, one_there,
  Follows, may_have, lacks, settable_peer, settable_device, behind,
}

module _ (W : Wireguard) (N : Numbers) where
  parse_ip-IsDefined : (family : ℕ) (ip : Option Bytes) → IsDefined (parse_ip W N family ip)
  unfolding parse_ip
  parse_ip-IsDefined family none = defined_ok
  parse_ip-IsDefined family (some s) =
      branch (family == af_inet) (option_or _ _ _ defined_custom (λ a. defined_ok))
        (branch (family == af_inet6) (option_or _ _ _ defined_custom (λ a. defined_ok)) defined_ok)

  allowedip_fields-IsDefined : (t : Fields) → IsDefined (allowedip_fields W N t)
  unfolding allowedip_fields
  allowedip_fields-IsDefined t =
      on_ok-IsDefined
        (parse_ip-IsDefined (optional (lua_getfield t "family") 0 (λ v. lua_tointeger N v % 2 ^ 16))
          (lua_tostring N (lua_getfield t "ip")))
        (λ ip. defined_ok)

  parse_allowedips-NeverFaults :
      (vs : List Value) (h : Heap) → NeverFaults (parse_allowedips W N vs h)
  unfolding parse_allowedips
  parse_allowedips-NeverFaults [] h = goes_on
  parse_allowedips-NeverFaults (v ∷ rest) h = as_table-NeverFaults v _ h _ (λ t.
      malloc-NeverFaults _ h _ (λ h1.
        and_then-NeverFaults (lift-NeverFaults h1 (allowedip_fields-IsDefined t)) (λ a h2.
          and_then-NeverFaults (parse_allowedips-NeverFaults rest h2) (λ more h3. goes_on))))

  parse_endpoint-IsDefined : (v : Value) → IsDefined (parse_endpoint W N v)
  unfolding parse_endpoint
  parse_endpoint-IsDefined v = optional-cases IsDefined v _ _ defined_ok (
      option_or (lua_istable v) _ _ defined_custom (λ t.
        option_or (lua_tostring N (lua_getfield t "ip")) _ _ defined_custom (λ s.
          option_or (W.inet_pton af_inet (c_string s)) _ _
            (option_or (W.inet_pton af_inet6 (c_string s)) _ _ defined_custom (λ a. defined_ok))
            (λ a. defined_ok))))

  -- A key that is a text, or not there.
  read-IsDefined :
      (r : ℤ × Bytes) (message : String)
      → IsDefined (
          let (ret, wg_key) = r in if is_negative ret then custom_err message else ok (some wg_key))
  read-IsDefined (ret, wg_key) message = branch (is_negative ret) defined_custom defined_ok

  optional_key :
      {k : String} {σ : Schema} {t : Fields} (message : String)
      → Follows (Schema.optional k text σ) t
      → IsDefined (parse_key W N (lua_getfield t k) message)
  unfolding parse_key optional
  optional_key message (may_have e (is_string s) f) =
      rw e (read-IsDefined (W.wg_key_from_base64 (c_string s)) message)
  optional_key message (lacks e f) = rw e defined_ok

  peer_fields-IsDefined :
      {t : Fields} → HasShape settable_peer (table t) → IsDefined (peer_fields W N t)
  unfolding peer_fields
  peer_fields-IsDefined {t} (is_struct f) = on_ok-IsDefined (optional_key _ f) (λ public_key.
      on_ok-IsDefined (optional_key _ (behind f)) (λ preshared_key.
        on_ok-IsDefined (parse_endpoint-IsDefined (lua_getfield t "endpoint"))
          (λ endpoint. defined_ok)))

  peer_allowedips-NeverFaults : (v : Value) (h : Heap) → NeverFaults (peer_allowedips W N v h)
  unfolding peer_allowedips
  peer_allowedips-NeverFaults v h =
      optional-cases NeverFaults v _ _ goes_on
        (as_table-NeverFaults v _ h _ (λ t. parse_allowedips-NeverFaults (values t) h))

  parse_peer-NeverFaults :
      {v : Value} (h : Heap) → HasShape settable_peer v → NeverFaults (parse_peer W N v h)
  unfolding parse_peer as_table
  parse_peer-NeverFaults h (is_struct {t} f) = malloc-NeverFaults _ h _ (λ h1.
      and_then-NeverFaults (lift-NeverFaults h1 (peer_fields-IsDefined (is_struct f))) (λ peer h2.
        and_then-NeverFaults (peer_allowedips-NeverFaults (lua_getfield t "allowed_ips") h2)
          (λ ips h3. goes_on)))

  parse_peers-NeverFaults :
      {t : Fields} (h : Heap) → AllHave settable_peer t → NeverFaults (parse_peers W N (values t) h)
  unfolding parse_peers
  parse_peers-NeverFaults h none_there = goes_on
  parse_peers-NeverFaults h (one_there k p rest) =
      and_then-NeverFaults (parse_peer-NeverFaults h p)
        (λ peer h1. and_then-NeverFaults (parse_peers-NeverFaults h1 rest) (λ more h2. goes_on))

  device_fields-IsDefined :
      {t : Fields} → HasShape settable_device (table t) → IsDefined (device_fields W N t)
  unfolding device_fields
  device_fields-IsDefined {t} (is_struct f) =
      on_ok-IsDefined
        (or_err-IsDefined (lua_tostring N (lua_getfield t "name"))
          "Device name is missing or invalid")
        (λ device_name.
          on_ok-IsDefined (optional_key _ f)
            (λ public_key. on_ok-IsDefined (optional_key _ (behind f)) (λ private_key. defined_ok)))

  add_peers-NeverFaults :
      {t : Fields} (dev : Device) (h : Heap)
      → Follows (Schema.optional "peers" (each settable_peer) Schema.no_more) t
      → NeverFaults (add_peers W N (lua_getfield t "peers") dev h)
  unfolding add_peers optional as_table
  add_peers-NeverFaults dev h (may_have e (are_each ps) f) =
      rw e (and_then-NeverFaults (parse_peers-NeverFaults h ps) (λ peers h1. goes_on))
  add_peers-NeverFaults dev h (lacks e f) = rw e goes_on

  apply_device-defined : {r : Parsed Device} → NeverFaults r → (apply_device W N r).result ≢ fault
  unfolding apply_device
  apply_device-defined (goes_on {a = dev}) = tells (is_negative (W.wg_set_device dev))
    where
      tells : (b : Bool) → (if b then custom_err "Failed to set device" else ok true) ≢ fault
      tells true = cc
      tells false = cc
  apply_device-defined (returns e) = e

  -- A table in which every key of the device and of its peers is a text, or is not there, and whose
  -- peers are tables in a table, lua_wg_set_device takes without an access outside an object, whatever
  -- else stands in it and whether there is memory or not: it sets the device or answers an error.
  pub lua_wg_set_device-IsSafe :
      (v : Value) (available : ℕ)
      → HasShape settable_device v
      → (lua_wg_set_device W N v available).result ≢ fault
  unfolding lua_wg_set_device parse_device
  lua_wg_set_device-IsSafe _ available (is_struct {t} f) = apply_device-defined (
      malloc-NeverFaults _ (record { allocated = 0; available = available }) _
        (λ h1.
          and_then-NeverFaults (lift-NeverFaults h1 (device_fields-IsDefined (is_struct f)))
            (λ dev h2. add_peers-NeverFaults dev h2 (behind (behind f)))))
