-- ===== src/Wireguard/Keys.antt =====
-- The functions of wireguard/lua_wireguard.c for keys and for the list of devices.
pub mod Names
use lilush.Common.{
  ℕ, zero, suc, ◌+◌, Bool, true, Bytes, List, [], ◌∷◌, none, some, length, drop, ◌==◌,
  if◌then◌else◌, is_negative, is_nonzero, c_string, Outcome, ok, custom_err,
}
use lilush.Wireguard.Device.{Wireguard}

-- The names up to an empty one: `first\0second\0\0`. The fuel bounds their number.
unfoldable pub for_each_device_name : ℕ → Bytes → List Bytes
for_each_device_name zero names = []
for_each_device_name (suc fuel) names =
    let device_name = c_string names in
    let rest = for_each_device_name fuel (drop (length device_name + 1) names) in
    elim device_name [ [] ↦ [] | c ∷ cs ↦ (c ∷ cs) ∷ rest ]

module _ (W : Wireguard) where
  -- The names that the table has at 1, 2, ….
  unfoldable pub lua_wg_list_devices : Outcome (List Bytes)
  unfolding for_each_device_name
  lua_wg_list_devices = elim W.wg_list_device_names [
    | none ↦ custom_err "Failed to get device names"
    | some device_names ↦ ok (for_each_device_name (length device_names) device_names)
  ]

  unfoldable pub lua_wg_add_device : Bytes → Outcome Bool
  lua_wg_add_device device_name =
      if is_negative (W.wg_add_device (c_string device_name))
      then custom_err "Failed to add device"
      else ok true

  unfoldable pub lua_wg_del_device : Bytes → Outcome Bool
  lua_wg_del_device device_name =
      if is_negative (W.wg_del_device (c_string device_name))
      then custom_err "Failed to delete device"
      else ok true

  unfoldable pub lua_wg_generate_public_key : Bytes → Outcome Bytes
  lua_wg_generate_public_key private_key =
      if length private_key == 32
      then ok (W.wg_generate_public_key private_key)
      else custom_err "Invalid private key length"

  unfoldable pub lua_wg_generate_private_key : Outcome Bytes
  lua_wg_generate_private_key = ok W.wg_generate_private_key

  unfoldable pub lua_wg_key_from_base64 : Bytes → Outcome Bytes
  lua_wg_key_from_base64 base64_key =
      let (ret, wg_key) = W.wg_key_from_base64 (c_string base64_key) in
      if is_nonzero ret then custom_err "Failed to decode base64 key" else ok wg_key

  unfoldable pub lua_wg_key_to_base64 : Bytes → Outcome Bytes
  lua_wg_key_to_base64 wg_key =
      if length wg_key == 32
      then ok (c_string (W.wg_key_to_base64 wg_key))
      else custom_err "Invalid key length"
