-- ===== src/Wireguard/Set/Hidden.antt =====
-- What lua_wg_get_device of wireguard/lua_wireguard.c leaves out.
use lilush.Common.{ℕ, ◌<◌, ◌≡◌, refl, ap, ◌∙◌, false, Bytes, ℤ, is_negative, c_string, ok, arith}
use lilush.Wireguard.Table.{nil, table, Fields, Numbers, lua_getfield}
use lilush.Wireguard.Device.{Device, Wireguard, has_flag}
use lilush.Wireguard.Push.{push_device, lua_wg_get_device}
use lilush.Wireguard.Set.Lookup.{device_table, number_value, get_port, get_mark}

no_flag8 : (flags : ℕ) → flags < 8 → has_flag flags 8 ≡ false
no_flag8 flags h = ground arith

no_flag16 : (flags : ℕ) → flags < 8 → has_flag flags 16 ≡ false
no_flag16 flags h = ground arith

module _ (W : Wireguard) (N : Numbers) where
  -- The library marks a device that it reads from the kernel with WGDEVICE_HAS_PRIVATE_KEY, 2, and
  -- WGDEVICE_HAS_PUBLIC_KEY, 4, alone. With such flags the answer of lua_wg_get_device has no listen_port
  -- and no fwmark, whatever port and mark the device has.
  pub lua_wg_get_device-hides :
      (device_name : Bytes) (ret : ℤ) (dev : Device)
      → W.wg_get_device (c_string device_name) ≡ (ret, dev)
      → is_negative ret ≡ false
      → dev.flags < 8
      → (t : Fields) × (lua_wg_get_device W N device_name ≡ ok (table t))
        × (lua_getfield t "listen_port" ≡ nil)
        × (lua_getfield t "fwmark" ≡ nil)
  unfolding lua_wg_get_device push_device
  lua_wg_get_device-hides device_name ret dev er en h =
      let b4 = has_flag dev.flags 4 in
      let b2 = has_flag dev.flags 2 in
      let b8 = has_flag dev.flags 8 in
      let b16 = has_flag dev.flags 16 in
      (
        device_table W N b4 b2 b8 b16 dev,
        rw (er, en) refl,
        get_port W N b4 dev b2 b8 b16
            ∙ ap (λ b. number_value W N b dev.listen_port) (no_flag8 dev.flags h),
        get_mark W N b4 dev b2 b8 b16
            ∙ ap (λ b. number_value W N b dev.fwmark) (no_flag16 dev.flags h),
      )
