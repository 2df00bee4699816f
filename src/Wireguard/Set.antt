-- ===== src/Wireguard/Set.antt =====
-- lua_wg_set_device of wireguard/lua_wireguard.c as a whole.
pub mod Release
pub mod Reported
pub mod Peers
pub mod RoundTrip
pub mod Lookup
pub mod Own
pub mod Again
pub mod Hidden
use lilush.Common.{
  ℕ, zero, suc, ◌+◌, ◌-◌, ◌%◌, ◌^◌, Bool, not, true, false, Bytes, List, [], Option, none, some,
  String, if◌then◌else◌, is_negative, take, c_string, word32, Outcome, ok, custom_err,
}
use lilush.Wireguard.Table.{
  Value, Fields, Numbers, lua_getfield, values, lua_isnil, lua_istable, lua_tostring, lua_tointeger,
}
use lilush.Wireguard.Device.{Device, Wireguard, Peer, with_flag, peer_blocks}
use lilush.Wireguard.Parse.{
  Heap, Parsed, done, returned, and_then, as_table, malloc, lift, on_ok, or_err, optional,
  key_or_zero, is_some, parse_key, parse_peers,
}

abbrev pub flag_if : Bool → ℕ → ℕ → ℕ
flag_if false bit flags = flags
flag_if true bit flags = with_flag flags bit

-- What a call did: its result, the device that it handed to the kernel, the blocks left allocated.
pub record SetRun : Type 0 where
  pub result : Outcome Bool
  pub applied : Option Device
  pub allocated : ℕ

module _ (W : Wireguard) (N : Numbers) where
  -- The device but its peers. WGDEVICE_HAS_PUBLIC_KEY is 4, WGDEVICE_HAS_PRIVATE_KEY 2,
  -- WGDEVICE_HAS_LISTEN_PORT 8 and WGDEVICE_HAS_FWMARK 16.
  unfoldable pub device_fields : Fields → Outcome Device
  unfolding parse_key with_flag
  device_fields t =
      on_ok (or_err (lua_tostring N (lua_getfield t "name")) "Device name is missing or invalid")
        (λ device_name.
          let flags = optional (lua_getfield t "flags") 0 (λ v. word32 (lua_tointeger N v)) in
          let listen_port = lua_getfield t "listen_port" in
          let fwmark = lua_getfield t "fwmark" in
          on_ok (parse_key W N (lua_getfield t "public_key") "Invalid public key1") (λ public_key.
            on_ok (parse_key W N (lua_getfield t "private_key") "Invalid private key")
              (λ private_key. ok (record {
                name = take 15 (c_string device_name);
                ifindex = 0;
                flags = flag_if (not (lua_isnil fwmark)) 16 (
                    flag_if (not (lua_isnil listen_port)) 8
                      (flag_if (is_some private_key) 2 (flag_if (is_some public_key) 4 flags)));
                public_key = key_or_zero public_key;
                private_key = key_or_zero private_key;
                fwmark = optional fwmark 0 (λ v. word32 (lua_tointeger N v));
                listen_port = optional listen_port 0 (λ v. lua_tointeger N v % 2 ^ 16);
                peers = [];
              }))))

  -- The peers, if the field is not nil; WGDEVICE_REPLACE_PEERS is 1.
  unfoldable pub add_peers : Value → Device → Heap → Parsed Device
  unfolding parse_peers with_flag
  add_peers v dev h = optional v (done dev h) (λ v. as_table v "Peers must be a table" h (λ t.
      and_then (parse_peers W N (values t) h)
        (λ peers h1. done (record dev { flags = with_flag dev.flags 1; peers = peers }) h1)))

  -- The device of a table, its blocks allocated.
  unfoldable pub parse_device : Fields → Heap → Parsed Device
  unfolding device_fields add_peers
  parse_device t h = malloc "Failed to allocate memory for wg_device" h (λ h1.
      and_then (lift (device_fields t) h1) (λ dev h2. add_peers (lua_getfield t "peers") dev h2))

  -- `wg_set_device`, and `wg_free_device` of the device with all that hangs on it.
  unfoldable pub apply_device : Parsed Device → SetRun
  apply_device (returned result h) = record {
    result = result;
    applied = none;
    allocated = h.allocated;
  }
  apply_device (done dev h) = record {
    result =
        if is_negative (W.wg_set_device dev) then custom_err "Failed to set device" else ok true;
    applied = some dev;
    allocated = h.allocated - (1 + peer_blocks dev.peers);
  }

  -- `available` is how often `malloc` succeeds.
  unfoldable pub lua_wg_set_device : Value → ℕ → SetRun
  unfolding parse_device apply_device
  lua_wg_set_device v available = elim (lua_istable v) [
    | none ↦ record {
      result = custom_err "Expected a table as the first argument";
      applied = none;
      allocated = 0;
    }
    | some t ↦ apply_device (parse_device t (record { allocated = 0; available = available }))
  ]
