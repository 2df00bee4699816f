-- ===== src/Crypto.antt =====
-- crypto/crypto.c: the Lua bindings of wolfCrypt.
pub mod Ledger
pub mod Wolfcrypt
pub mod Ecc
pub mod Ed25519
pub mod Digest
pub mod Csr
pub mod X509
mod Tests
