-- ===== src/Crypto/Ed25519.antt =====
-- The Ed25519 functions of crypto/crypto.c.
pub mod Release
use lilush.Common.{Bytes, Bool, [], ◌∷◌, is_nonzero, is_negative}
use lilush.Crypto.Ledger.{
  generator, key_slot, Cmd, ◌>>=◌, ◌>>◌, pure, nothing, acquire, release, calls, fail_if,
}
use lilush.Crypto.Wolfcrypt.{Wolfcrypt}
use lilush.Crypto.Ecc.{free_key_and_rng, start_rng}

module _ (w : Wolfcrypt) where
  -- `wc_ed25519_init`, with the clean-up that its failure needs
  abbrev start_ed_key : Cmd (Unit {0}) → Cmd w.EdKey
  start_ed_key cleanup = do
    (ret, key) ← calls [] w.ed25519_init
    fail_if (is_nonzero ret) cleanup "failed to initialize Ed25519 key"
    acquire key_slot
    pure key

  -- the private and the public key
  unfoldable pub lua_ed25519_generate_key : Cmd (Bytes × Bytes)
  lua_ed25519_generate_key = do
    rng ← start_rng w
    key₀ ← start_ed_key (release generator)
    (ret, key) ← calls (generator ∷ key_slot ∷ []) (w.ed25519_make_key rng 32 key₀)
    fail_if (is_nonzero ret) free_key_and_rng "failed to generate Ed25519 key"
    (ret, private_key) ←
        calls (key_slot ∷ []) (w.ed25519_export_private_only key w.ed25519_key_size)
    fail_if (is_negative ret) free_key_and_rng "failed to export Ed25519 private key to DER"
    (ret, public_key) ← calls (key_slot ∷ []) (w.ed25519_export_public key w.ed25519_pub_key_size)
    fail_if (is_negative ret) free_key_and_rng "failed to export Ed25519 public key"
    free_key_and_rng
    pure (private_key, public_key)

  unfoldable pub lua_ed25519_sign : (private_key msg : Bytes) → Cmd Bytes
  lua_ed25519_sign private_key msg = do
    key₀ ← start_ed_key nothing
    (ret, key₁) ← calls (key_slot ∷ []) (w.ed25519_import_private_only private_key key₀)
    fail_if (is_nonzero ret) (release key_slot) "failed to decode Ed25519 private key"
    (ret, public_key) ← calls (key_slot ∷ []) (w.ed25519_make_public key₁ w.ed25519_pub_key_size)
    fail_if (is_nonzero ret) (release key_slot) "failed to deduce public key"
    (ret, key) ← calls (key_slot ∷ []) (w.ed25519_import_public public_key key₁)
    fail_if (is_nonzero ret) (release key_slot) "failed to import public key"
    (ret, sig) ← calls (key_slot ∷ []) (w.ed25519_sign_msg msg key w.ed25519_sig_size)
    fail_if (is_nonzero ret) (release key_slot) "failed to sign message"
    release key_slot
    pure sig

  unfoldable pub lua_ed25519_verify : (public_key msg sig : Bytes) → Cmd Bool
  lua_ed25519_verify public_key msg sig = do
    key₀ ← start_ed_key nothing
    (ret, key) ← calls (key_slot ∷ []) (w.ed25519_import_public public_key key₀)
    fail_if (is_nonzero ret) (release key_slot) "failed to decode Ed25519 public key"
    (ret, is_valid_sig) ← calls (key_slot ∷ []) (w.ed25519_verify_msg sig msg key)
    fail_if (is_nonzero ret) (release key_slot) "failed to verify signature"
    release key_slot
    pure (is_nonzero is_valid_sig)
