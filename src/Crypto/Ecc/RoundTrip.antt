-- ===== src/Crypto/Ecc/RoundTrip.antt =====
-- lua_ecc_sign and lua_ecc_verify together.
use lilush.Common.{
  ℕ, ◌-◌, ◌≤◌, ◌≡◌, ◌≢◌, ◌∙◌, true, false, Bytes, ◌++◌, arith, length, ℤ, pos, is_nonzero,
  Bool-cases, inl, inr, if◌then◌else◌, ok, custom_err, fault,
}
use lilush.Crypto.Ledger.{clean}
use lilush.Crypto.Wolfcrypt.{Wolfcrypt, IsLawful}
use lilush.Crypto.Ecc.{lua_ecc_sign, lua_ecc_verify}
use lilush.Crypto.Ecc.Signature.{padded, sign_hash_lem, length-signed, sign_hash-undefined, slices}

module _ (w : Wolfcrypt) where
  -- The key that signing imports.
  abbrev imported : (private_key public_key : Bytes) → w.Key
  imported private_key public_key = (w.ecc_import_private_key private_key public_key w.ecc_init.1).1

  -- The integers that signing makes of a message.
  abbrev pub signature_of : (private_key public_key msg : Bytes) → ℤ × ℕ × ℕ
  signature_of private_key public_key msg =
      w.ecc_sign_hash_ex (w.sha256_hash msg).1 w.init_rng.1 (imported private_key public_key)

  -- A key pair whose public half, of 65 bytes, imports, and for which wolfCrypt accepts what it signed.
  pub record IsPair (private_key public_key : Bytes) : Type 0 where
    pub sized : length public_key ≡ 65
    pub imports : is_nonzero (w.ecc_import_x963 public_key w.ecc_init.1).0 ≡ false
    pub verifies :
        (msg : Bytes)
        → let (ret, r, s) = signature_of private_key public_key msg in
          w.ecc_verify_hash_ex r s
            (w.sha256_hash msg).1
            (w.ecc_import_x963 public_key w.ecc_init.1).1
          ≡ (pos 0, pos 1)

  started :
      (private_key public_key msg : Bytes) {sig : Bytes}
      → (lua_ecc_sign w private_key public_key msg clean).0 ≡ ok sig
      → (is_nonzero w.ecc_init.0 ≡ false)
        × (is_nonzero (w.sha256_hash msg).0 ≡ false)
        × (is_nonzero (w.ecc_import_private_key private_key public_key w.ecc_init.1).0 ≡ false)
  unfolding lua_ecc_sign
  started private_key public_key msg h = ground arith

module _ (w : Wolfcrypt) (L : IsLawful w) where
  -- What the call of a key that has been imported makes.
  imported-fits :
      (private_key public_key msg : Bytes)
      → length public_key ≡ 65
      → is_nonzero (w.ecc_import_private_key private_key public_key w.ecc_init.1).0 ≡ false
      → (w.mp_unsigned_bin_size (signature_of w private_key public_key msg).1 ≤ 32)
        × (w.mp_unsigned_bin_size (signature_of w private_key public_key msg).2 ≤ 32)
  imported-fits private_key public_key msg z i =
      L.signature_size (w.sha256_hash msg).1 w.init_rng.1 private_key public_key w.ecc_init.1 z i

  -- A signature is returned only where the integers could be set up.
  initialized :
      (private_key public_key msg : Bytes) {sig : Bytes}
      → (lua_ecc_sign w private_key public_key msg clean).0 ≡ ok sig
      → is_nonzero w.mp_init ≡ false
  unfolding lua_ecc_sign
  initialized private_key public_key msg h = elim (Bool-cases (is_nonzero w.mp_init)) [
    | inr e ↦ e
    | inl e ↦
        let key = imported w private_key public_key in
        ground (
          arith,
          sign_hash-undefined w L (w.sha256_hash msg).1 w.init_rng.1 key
              (record clean { generator = true; key_slot = true }) e,
        )
  ]

  -- Under the documented laws of wolfCrypt, where mp_init succeeds, no step of signing with a public
  -- key of 65 bytes is undefined, and however the other calls end the key, the generator and the two
  -- integers have been freed once each when it returns.
  pub lua_ecc_sign-clean :
      (private_key public_key msg : Bytes)
      → is_nonzero w.mp_init ≡ false
      → length public_key ≡ 65
      → ((lua_ecc_sign w private_key public_key msg clean).1 ≡ clean)
        × ((lua_ecc_sign w private_key public_key msg clean).0 ≢ fault)
  unfolding lua_ecc_sign
  lua_ecc_sign-clean private_key public_key msg e z =
      elim (Bool-cases
        (is_nonzero (w.ecc_import_private_key private_key public_key w.ecc_init.1).0)) [
          | inl i ↦ (ground arith, ground arith)
          | inr i ↦
              let (hr, hs) = imported-fits private_key public_key msg z i in
              let signing =
                sign_hash_lem w L (w.sha256_hash msg).1 w.init_rng.1
                  (imported w private_key public_key) e hr hs in
              (ground (arith, signing), ground (arith, signing))
        ]

  -- A signature that is returned for a public key of 65 bytes has 64 bytes: the integers r and s of the hash of the message, each
  -- big-endian in 32 bytes.
  pub lua_ecc_sign-padded :
      (private_key public_key msg : Bytes) {sig : Bytes}
      → length public_key ≡ 65
      → (lua_ecc_sign w private_key public_key msg clean).0 ≡ ok sig
      → (length sig ≡ 64)
        × (sig
            ≡ padded w (signature_of w private_key public_key msg).1
              ++ padded w (signature_of w private_key public_key msg).2)
  unfolding lua_ecc_sign
  lua_ecc_sign-padded private_key public_key msg z h =
      let key = imported w private_key public_key in
      let (_, _, i) = started w private_key public_key msg h in
      let (hr, hs) = imported-fits private_key public_key msg z i in
      let e = initialized private_key public_key msg h in
      ground (
        arith,
        sign_hash_lem w L (w.sha256_hash msg).1 w.init_rng.1 key e hr hs,
        length-signed w L (w.sha256_hash msg).1 w.init_rng.1 key hr hs,
      )

  -- Verification of the padded integers r and s reads back r and s.
  pub lua_ecc_verify-padded :
      (public_key msg : Bytes) (r s : ℕ)
      → w.mp_unsigned_bin_size r ≤ 32
      → w.mp_unsigned_bin_size s ≤ 32
      → is_nonzero w.ecc_init.0 ≡ false
      → is_nonzero w.mp_init ≡ false
      → is_nonzero (w.ecc_import_x963 public_key w.ecc_init.1).0 ≡ false
      → is_nonzero (w.sha256_hash msg).0 ≡ false
      → let (ret, is_valid_sig) =
          w.ecc_verify_hash_ex r s
            (w.sha256_hash msg).1
            (w.ecc_import_x963 public_key w.ecc_init.1).1 in
        lua_ecc_verify w public_key msg (padded w r ++ padded w s) clean ≡ (
          if is_nonzero ret
              then custom_err "failed to verify signature"
              else ok (is_nonzero is_valid_sig),
          clean,
        )
  unfolding lua_ecc_verify
  lua_ecc_verify-padded public_key msg r s hr hs e1 e2 e3 e4 = ground (
    arith,
    slices w L r s hr hs,
    L.read-to_bin (32 - w.mp_unsigned_bin_size r) r,
    L.read-to_bin (32 - w.mp_unsigned_bin_size s) s,
  )

  -- What lua_ecc_sign returns for a matching key pair is accepted by lua_ecc_verify, which then holds
  -- nothing.
  pub lua_ecc_verify-sign :
      (private_key public_key msg : Bytes) {sig : Bytes}
      → IsPair w private_key public_key
      → (lua_ecc_sign w private_key public_key msg clean).0 ≡ ok sig
      → lua_ecc_verify w public_key msg sig clean ≡ (ok true, clean)
  lua_ecc_verify-sign private_key public_key msg p h =
      let e = initialized private_key public_key msg h in
      let (i, a, imports) = started w private_key public_key msg h in
      let (hr, hs) = imported-fits private_key public_key msg p.sized imports in
      rw (lua_ecc_sign-padded private_key public_key msg p.sized h).1
        (lua_ecc_verify-padded public_key msg _ _ hr hs i e p.imports a ∙ rw (p.verifies msg))
