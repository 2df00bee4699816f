-- ===== src/Wireguard/Set/Again.antt =====
-- A device that lua_wg_get_device of wireguard/lua_wireguard.c has answered, given to
-- lua_wg_set_device.
use lilush.Common.{map, if◌then◌else◌}
use lilush.Wireguard.Device.{Device, Wireguard, has_flag, with_flag}
use lilush.Wireguard.Set.Peers.{as_set}

-- The device as it is set: by its name and not by its index, the port and the mark if their flags are
-- set, the peers to be replaced.
abbrev pub device_as_set : Wireguard → Device → Device
device_as_set W dev = record dev {
  ifindex = 0;
  flags = with_flag dev.flags 1;
  fwmark = if has_flag dev.flags 16 then dev.fwmark else 0;
  listen_port = if has_flag dev.flags 8 then dev.listen_port else 0;
  peers = map (as_set W) dev.peers;
}
