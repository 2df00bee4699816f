-- ===== src/Crypto/Digest.antt =====
-- Base64, SHA-256 and HMAC of crypto/crypto.c. `malloc` says whether a request is granted.
pub mod Release
pub mod Base64
use lilush.Common.{
  ℕ, ◌+◌, ◌*◌, ◌/◌, Bytes, Bool, not, [], ◌∷◌, length, c_string, is_nonzero, word32,
}
use lilush.Crypto.Ledger.{block, Cmd, ◌>>=◌, ◌>>◌, pure, nothing, acquire, release, calls, fail_if}
use lilush.Crypto.Wolfcrypt.{Wolfcrypt}

module _ (w : Wolfcrypt) (malloc : ℕ → Bool) where
  unfoldable pub lua_base64_decode : Bytes → Cmd Bytes
  lua_base64_decode input = do
    let out_len = word32 (length input * 3 / 4)
    fail_if (not (malloc out_len)) nothing "memory allocation failed"
    acquire block
    (ret, out) ← calls (block ∷ []) (w.base64_decode input out_len)
    fail_if (is_nonzero ret) (release block) "failed to decode base64"
    calls (block ∷ []) tt
    release block
    pure out

  -- `lua_pushstring` copies up to the first NUL.
  unfoldable pub lua_base64_encode : Bytes → Cmd Bytes
  lua_base64_encode input = do
    let out_len = word32 (length input / 3 * 4 + 128)
    fail_if (not (malloc (word32 (out_len + 1)))) nothing "memory allocation failed"
    acquire block
    (ret, out) ← calls (block ∷ []) (w.base64_encode input out_len)
    fail_if (is_nonzero ret) (release block) "failed to encode base64"
    calls (block ∷ []) tt
    release block
    pure (c_string out)

module _ (w : Wolfcrypt) where
  unfoldable pub lua_sha256 : Bytes → Cmd Bytes
  lua_sha256 data' = do
    (ret, hash) ← calls [] (w.sha256_hash data')
    fail_if (is_nonzero ret) nothing "failed to calculate sha256 hash"
    pure hash

  unfoldable pub lua_hmac : (secret msg : Bytes) → Cmd Bytes
  lua_hmac secret msg = do
    (ret, hmac₀) ← calls [] (w.hmac_set_key secret)
    fail_if (is_nonzero ret) nothing "failed to set HMAC key"
    (ret, hmac) ← calls [] (w.hmac_update hmac₀ msg)
    fail_if (is_nonzero ret) nothing "failed to update HMAC"
    (ret, hash) ← calls [] (w.hmac_final hmac)
    fail_if (is_nonzero ret) nothing "error computing HASH"
    pure hash
