-- ===== src/Wireguard/Tests/Devices.antt =====
-- The theorems on whole devices of wireguard/lua_wireguard.c at a concrete device.
use lilush.Common.{◌≡◌, ◌≢◌, refl, true, [], ◌∷◌, ◌++◌, some, replicate, pos, ok, fault, arith}
use lilush.Wireguard.Table.{
  Value, nil, boolean, string, key, table, Fields, no_fields, field, lua_getfield,
}
use lilush.Wireguard.Device.{Device, Wireguard}
use lilush.Wireguard.Push.{push_device, lua_wg_get_device}
use lilush.Wireguard.Keys.{lua_wg_list_devices}
use lilush.Wireguard.Keys.Names.{names_text, one_name, no_names, lua_wg_list_devices-names}
use lilush.Wireguard.Parse.{malloc, and_then, lift, on_ok, optional, as_table}
use lilush.Wireguard.Set.{lua_wg_set_device}
use lilush.Wireguard.Set.Hidden.{lua_wg_get_device-hides}
use lilush.Wireguard.Types.{
  HasShape, is_string, is_struct, may_have, lacks, all_there, device_shape, settable_device,
}
use lilush.Wireguard.Types.Safety.{lua_wg_set_device-IsSafe}
use lilush.Wireguard.Types.Answers.{lua_wg_get_device-HasShape}
use lilush.Wireguard.Tests.{wireguard, numbers, peer}

-- A device with both keys; its port is not marked.
abbrev device : Device
device = record {
  name = 119 ∷ 103 ∷ 48 ∷ [];
  ifindex = 3;
  flags = 6;
  public_key = replicate 32 7;
  private_key = replicate 32 9;
  fwmark = 0;
  listen_port = 51820;
  peers = peer ∷ [];
}

abbrev library : Wireguard
library = record wireguard {
  wg_get_device = λ name. (pos 0, device);
  wg_list_device_names = some (names_text ((119 ∷ 48 ∷ []) ∷ (119 ∷ []) ∷ []) ++ 7 ∷ []);
}

lua_wg_get_device-hides_example :
    (t : Fields) × (lua_wg_get_device library numbers (119 ∷ []) ≡ ok (table t))
    × (lua_getfield t "listen_port" ≡ nil)
    × (lua_getfield t "fwmark" ≡ nil)
lua_wg_get_device-hides_example =
    lua_wg_get_device-hides library numbers (119 ∷ []) (pos 0) device refl refl (omega arith)

-- What is answered for that device.
abbrev answer : Value
answer = push_device library numbers device

lua_wg_get_device-HasShape_example : HasShape device_shape answer × HasShape settable_device answer
unfolding lua_wg_get_device
lua_wg_get_device-HasShape_example =
    lua_wg_get_device-HasShape library numbers (119 ∷ []) answer refl

-- A name and a private key alone.
abbrev keyed : Fields
keyed =
    field (key "name") (string (119 ∷ []))
      (field (key "private_key") (string (replicate 44 65)) no_fields)

keyed-HasShape : HasShape settable_device (table keyed)
unfolding lua_getfield
keyed-HasShape = is_struct (lacks refl (may_have refl (is_string _) (lacks refl all_there)))

lua_wg_set_device-IsSafe_example :
    (lua_wg_set_device wireguard numbers (table keyed) 3).result ≢ fault
lua_wg_set_device-IsSafe_example =
    lua_wg_set_device-IsSafe wireguard numbers (table keyed) 3 keyed-HasShape

-- A Boolean in place of a key is handed on as NULL.
boolean_key :
    (lua_wg_set_device wireguard numbers
      (table (
        field
          (key "name")
          (string (119 ∷ []))
          (field (key "private_key") (boolean true) no_fields)))
      3).result
    ≡ fault
unfolding lua_wg_set_device malloc and_then lift on_ok lua_getfield optional as_table
boolean_key = refl

lua_wg_list_devices-names_example :
    lua_wg_list_devices library ≡ ok ((119 ∷ 48 ∷ []) ∷ (119 ∷ []) ∷ [])
lua_wg_list_devices-names_example =
    lua_wg_list_devices-names library ((119 ∷ 48 ∷ []) ∷ (119 ∷ []) ∷ []) (7 ∷ []) refl (
      one_name {b = 119} {s = 48 ∷ []} (refl, (refl, tt))
        (one_name {b = 119} {s = []} (refl, tt) no_names))
