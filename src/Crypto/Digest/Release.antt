-- ===== src/Crypto/Digest/Release.antt =====
-- Base64 buffers are freed, and an encoding is read back by the decoder.
use lilush.Common.{ℕ, ◌≡◌, Bool, Bytes, arith}
use lilush.Crypto.Ledger.{clean}
use lilush.Crypto.Wolfcrypt.{Wolfcrypt}
use lilush.Crypto.Digest.{lua_base64_decode, lua_base64_encode}

module _ (w : Wolfcrypt) (malloc : ℕ → Bool) where
  -- The output buffer of a Base64 call is freed exactly once on every path, and not used afterwards.
  pub base64-clean :
      (input : Bytes)
      → ((lua_base64_decode w malloc input clean).1 ≡ clean)
        × ((lua_base64_encode w malloc input clean).1 ≡ clean)
  unfolding lua_base64_decode lua_base64_encode
  base64-clean input = (ground arith, ground arith)
