-- ===== src/Crypto/Ecc/Release.antt =====
-- What the P-256 functions hold when they return, and the signatures that lua_ecc_verify reads out of
-- bounds.
use lilush.Common.{
  ◌≤◌, ◌≡◌, ◌≢◌, arith, false, fault, Bytes, length, is_nonzero, [], ◌∷◌, ◌++◌, take, length-append,
}
use lilush.Crypto.Ledger.{clean}
use lilush.Crypto.Wolfcrypt.{Wolfcrypt}
use lilush.Crypto.Ecc.{lua_ecc_generate_key, lua_ecc_verify, lua_der_to_pem_ecc_key}

module _ (w : Wolfcrypt) where
  -- Generating a key and converting one to PEM free the key, and the generator where there is one,
  -- exactly once on every path.
  pub ecc_keys-clean :
      (private_key public_key : Bytes)
      → ((lua_ecc_generate_key w clean).1 ≡ clean)
        × ((lua_der_to_pem_ecc_key w private_key public_key clean).1 ≡ clean)
  unfolding lua_ecc_generate_key lua_der_to_pem_ecc_key
  ecc_keys-clean private_key public_key = (ground arith, ground arith)

  -- For a signature of at least 63 bytes (64 with the NUL that ends a Lua string) verification reads
  -- only within it, and frees the key and both integers exactly once on every path.
  pub lua_ecc_verify-clean :
      (public_key msg sig : Bytes)
      → 63 ≤ length sig
      → ((lua_ecc_verify w public_key msg sig clean).1 ≡ clean)
        × ((lua_ecc_verify w public_key msg sig clean).0 ≢ fault)
  unfolding lua_ecc_verify
  lua_ecc_verify-clean public_key msg sig h =
      let e = length-append sig (0 ∷ []) in (ground arith, ground arith)

  -- A signature of at most 62 bytes is read past its end, once the key has been imported, the message
  -- hashed and the integers initialised and read: its length is never tested.
  pub lua_ecc_verify-short :
      (public_key msg sig : Bytes)
      → length sig ≤ 62
      → is_nonzero w.ecc_init.0 ≡ false
      → is_nonzero (w.ecc_import_x963 public_key w.ecc_init.1).0 ≡ false
      → is_nonzero (w.sha256_hash msg).0 ≡ false
      → is_nonzero w.mp_init ≡ false
      → ((bytes : Bytes) → is_nonzero (w.mp_read_unsigned_bin bytes).0 ≡ false)
      → (lua_ecc_verify w public_key msg sig clean).0 ≡ fault
  unfolding lua_ecc_verify
  lua_ecc_verify-short public_key msg sig h e1 e2 e3 e4 reads =
      let e = length-append sig (0 ∷ []) in ground (arith, reads (take 32 (sig ++ 0 ∷ [])))
