-- ===== src/Crypto/Ecc.antt =====
-- The P-256 functions of crypto/crypto.c: lua_ecc_generate_key, lua_ecc_sign, lua_ecc_verify and
-- lua_der_to_pem_ecc_key. A key on the stack is the value that the library's calls pass on.
pub mod Release
pub mod Signature
pub mod RoundTrip
pub mod Generated
use lilush.Common.{
  ℕ, ◌+◌, ◌-◌, Bytes, Bool, List, [], ◌∷◌, ◌++◌, Option, none, some, ltb, if◌then◌else◌, replicate,
  take, slice, write_at, is_nonzero, is_nonpositive, to_ℕ, word32, Outcome,
}
use lilush.Crypto.Ledger.{
  Resource, generator, key_slot, r_slot, s_slot, Cmd, ◌>>=◌, ◌>>◌, pure, nothing, undefined,
  acquire, release, calls, fail_if,
}
use lilush.Crypto.Wolfcrypt.{Wolfcrypt}

-- POINT_SIZE
abbrev point_size : ℕ
point_size = 32

-- `wc_ecc_free(&key); wc_FreeRng(&rng);`
abbrev pub free_key_and_rng : Cmd (Unit {0})
free_key_and_rng = release key_slot >> release generator

-- `mp_free(&r); mp_free(&s);`
abbrev pub free_ints : Cmd (Unit {0})
free_ints = release r_slot >> release s_slot

-- A pointer argument of the library, `NULL` past the end of its object.
abbrev pub in_bounds : {A : Type 0} → Option A → Cmd A
in_bounds none = undefined
in_bounds (some a) = pure a

module _ (w : Wolfcrypt) where
  open w use {Rng, Key}

  -- `wc_InitRng`
  abbrev pub start_rng : Cmd Rng
  start_rng = do
    (ret, rng) ← calls [] w.init_rng
    fail_if (is_nonzero ret) nothing "failed to initialize RNG"
    acquire generator
    pure rng

  -- `wc_ecc_init`, with the clean-up that its failure needs
  abbrev pub start_key : Cmd (Unit {0}) → Cmd Key
  start_key cleanup = do
    (ret, key) ← calls [] w.ecc_init
    fail_if (is_nonzero ret) cleanup "failed to initialize ECC key"
    acquire key_slot
    pure key

  -- the private key, the public key, and the coordinates of the point
  unfoldable pub lua_ecc_generate_key : Cmd (Bytes × Bytes × Bytes × Bytes)
  lua_ecc_generate_key = do
    rng ← start_rng
    key₀ ← start_key (release generator)
    (ret, key) ← calls (generator ∷ key_slot ∷ []) (w.ecc_make_key_ex rng 32 key₀)
    fail_if (is_nonzero ret) free_key_and_rng "failed to generate ECC key"
    (ret, private_key) ← calls (key_slot ∷ []) (w.ecc_export_private_only key 2048)
    fail_if (is_nonzero ret) free_key_and_rng "failed to export private key"
    (ret, public_key) ← calls (key_slot ∷ []) (w.ecc_export_x963 key 1024)
    fail_if (is_nonzero ret) free_key_and_rng "failed to export public key"
    (ret, qx, qy) ← calls (key_slot ∷ []) (w.ecc_export_public_raw key point_size)
    fail_if (is_nonzero ret) free_key_and_rng "failed to export X and Y"
    free_key_and_rng
    pure (private_key, public_key, qx, qy)

  -- `mp_to_unsigned_bin(&n, raw_sig + (stop - size))`
  unfoldable pub place : ℕ → ℕ → Bytes → Option Bytes
  place stop n raw_sig =
      let size = w.mp_unsigned_bin_size n in
      if ltb stop size then none else write_at raw_sig (stop - size) (w.mp_to_unsigned_bin n)

  unfoldable pub raw_signature : ℕ → ℕ → Option Bytes
  raw_signature r s = elim (place 32 r (replicate 64 0)) [
    | none ↦ none
    | some raw_sig ↦ place 64 s raw_sig
  ]

  -- `mp_init` of an integer of `lua_ecc_sign`, which ignores its result: an integer that it has not
  -- set up is handed to the library all the same.
  abbrev init_unchecked : Resource → Cmd (Unit {0})
  init_unchecked slot = do
    ret ← calls [] w.mp_init
    if is_nonzero ret then undefined else acquire slot

  -- The part of `lua_ecc_sign` from `mp_init(&r)` on.
  unfoldable pub sign_hash : Bytes → Rng → Key → Cmd Bytes
  sign_hash hash rng key = do
    init_unchecked r_slot
    init_unchecked s_slot
    (ret, r, s) ←
        calls (generator ∷ key_slot ∷ r_slot ∷ s_slot ∷ []) (w.ecc_sign_hash_ex hash rng key)
    fail_if (is_nonzero ret) (free_ints >> free_key_and_rng) "failed to sign hash"
    raw_sig ← in_bounds (raw_signature r s)
    calls (r_slot ∷ s_slot ∷ []) tt
    free_ints
    free_key_and_rng
    pure raw_sig

  unfoldable pub lua_ecc_sign : (private_key public_key msg : Bytes) → Cmd Bytes
  lua_ecc_sign private_key public_key msg = do
    rng ← start_rng
    key₀ ← start_key (release generator)
    (ret, key) ← calls (key_slot ∷ []) (w.ecc_import_private_key private_key public_key key₀)
    fail_if (is_nonzero ret) free_key_and_rng "failed to decode ECC private key"
    (ret, hash) ← calls [] (w.sha256_hash msg)
    fail_if (is_nonzero ret) free_key_and_rng "failed to calculate SHA256 hash"
    sign_hash hash rng key

  -- A Lua string in memory ends in a NUL, so `sig` has one byte more than its size.
  unfoldable pub lua_ecc_verify : (public_key msg sig : Bytes) → Cmd Bool
  lua_ecc_verify public_key msg sig = do
    key₀ ← start_key nothing
    (ret, key) ← calls (key_slot ∷ []) (w.ecc_import_x963 public_key key₀)
    fail_if (is_nonzero ret) (release key_slot) "failed to decode ECC public key"
    (ret, hash) ← calls [] (w.sha256_hash msg)
    fail_if (is_nonzero ret) (release key_slot) "failed to calculate SHA256 hash"
    ret ← calls [] w.mp_init
    fail_if (is_nonzero ret) (release key_slot) "failed to initialize r"
    acquire r_slot
    ret ← calls [] w.mp_init
    fail_if (is_nonzero ret) (release r_slot >> release key_slot) "failed to initialize s"
    acquire s_slot
    r_bytes ← in_bounds (slice (sig ++ 0 ∷ []) 0 32)
    (ret, r) ← calls (r_slot ∷ []) (w.mp_read_unsigned_bin r_bytes)
    fail_if (is_nonzero ret) (free_ints >> release key_slot) "failed to read r value"
    s_bytes ← in_bounds (slice (sig ++ 0 ∷ []) 32 32)
    (ret, s) ← calls (s_slot ∷ []) (w.mp_read_unsigned_bin s_bytes)
    fail_if (is_nonzero ret) (free_ints >> release key_slot) "failed to read s value"
    (ret, is_valid_sig) ←
        calls (r_slot ∷ s_slot ∷ key_slot ∷ []) (w.ecc_verify_hash_ex r s hash key)
    free_ints
    release key_slot
    fail_if (is_nonzero ret) nothing "failed to verify signature"
    pure (is_nonzero is_valid_sig)

  unfoldable pub lua_der_to_pem_ecc_key : (private_key public_key : Bytes) → Cmd Bytes
  lua_der_to_pem_ecc_key private_key public_key = do
    key₀ ← start_key nothing
    (ret, key) ← calls (key_slot ∷ []) (w.ecc_import_private_key private_key public_key key₀)
    fail_if (is_nonzero ret) (release key_slot) "failed to import private key"
    (ret, der) ← calls (key_slot ∷ []) (w.ecc_key_to_der key 4096)
    fail_if (is_nonpositive ret) (release key_slot) "failed to convert key to DER"
    let der_size = word32 (to_ℕ ret)
    (ret, pem) ← calls [] (w.der_to_pem (take der_size der) 4096)
    fail_if (is_nonpositive ret) (release key_slot) "failed to convert DER to PEM"
    release key_slot
    pure (take (to_ℕ ret) pem)
