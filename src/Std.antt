-- ===== src/Std.antt =====
-- std/std.c: the Lua bindings of the C library and the kernel's calls.
pub mod Posix
pub mod Calls
pub mod Read
pub mod Signal
pub mod Sleep
pub mod Files
pub mod Dir
mod Tests
