-- ===== src/Wireguard.antt =====
-- wireguard/lua_wireguard.c. WireGuard's own library (wireguard.c), the kernel and the C library are
-- interfaces.
pub mod Interface
pub mod Table
pub mod Device
pub mod Push
pub mod Parse
pub mod Set
pub mod Types
pub mod Route
pub mod Keys
pub mod Tests
