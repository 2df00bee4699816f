-- ===== src/Crypto/Ed25519/Release.antt =====
-- What the Ed25519 functions hold when they return.
use lilush.Common.{◌≡◌, ◌≢◌, arith, fault, Bytes}
use lilush.Crypto.Ledger.{clean}
use lilush.Crypto.Wolfcrypt.{Wolfcrypt}
use lilush.Crypto.Ed25519.{lua_ed25519_generate_key, lua_ed25519_sign, lua_ed25519_verify}

module _ (w : Wolfcrypt) where
  -- The three Ed25519 functions free the key, and the generator where they made one, exactly once on
  -- every path, use neither outside that time, and take no undefined step.
  pub ed25519-clean :
      (private_key public_key msg sig : Bytes)
      → ((lua_ed25519_generate_key w clean).1 ≡ clean)
        × ((lua_ed25519_sign w private_key msg clean).1 ≡ clean)
        × ((lua_ed25519_verify w public_key msg sig clean).1 ≡ clean)
        × ((lua_ed25519_generate_key w clean).0 ≢ fault)
        × ((lua_ed25519_sign w private_key msg clean).0 ≢ fault)
        × ((lua_ed25519_verify w public_key msg sig clean).0 ≢ fault)
  unfolding lua_ed25519_generate_key lua_ed25519_sign lua_ed25519_verify
  ed25519-clean private_key public_key msg sig =
      (ground arith, ground arith, ground arith, ground arith, ground arith, ground arith)
