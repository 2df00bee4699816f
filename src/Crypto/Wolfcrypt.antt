-- ===== src/Crypto/Wolfcrypt.antt =====
-- What crypto/crypto.c calls of wolfCrypt, which is not part of the repository: an interface whose
-- answers are the return code and what the call writes.
use lilush.Common.{ℕ, ◌≤◌, ◌≡◌, Bytes, ◌++◌, Option, length, replicate, ℤ, pos, is_nonzero, false}

pub record Wolfcrypt : Type 1 where
  pub Rng : Type 0
  pub Key : Type 0
  pub EdKey : Type 0
  pub Hmac : Type 0
  -- coding.h: the input and the size of the output buffer
  pub base64_decode : Bytes → ℕ → ℤ × Bytes
  pub base64_encode : Bytes → ℕ → ℤ × Bytes
  pub sha256_hash : Bytes → ℤ × Bytes
  pub hmac_set_key : Bytes → ℤ × Hmac
  pub hmac_update : Hmac → Bytes → ℤ × Hmac
  pub hmac_final : Hmac → ℤ × Bytes
  pub init_rng : ℤ × Rng
  pub ecc_init : ℤ × Key
  pub ecc_make_key_ex : Rng → ℕ → Key → ℤ × Key
  pub ecc_export_private_only : Key → ℕ → ℤ × Bytes
  pub ecc_export_x963 : Key → ℕ → ℤ × Bytes
  pub ecc_export_public_raw : Key → ℕ → ℤ × Bytes × Bytes
  pub ecc_import_private_key : Bytes → Bytes → Key → ℤ × Key
  pub ecc_import_x963 : Bytes → Key → ℤ × Key
  -- the integers r and s of a signature
  pub ecc_sign_hash_ex : Bytes → Rng → Key → ℤ × ℕ × ℕ
  -- the return code and the flag
  pub ecc_verify_hash_ex : ℕ → ℕ → Bytes → Key → ℤ × ℤ
  pub mp_init : ℤ
  pub mp_unsigned_bin_size : ℕ → ℕ
  pub mp_to_unsigned_bin : ℕ → Bytes
  pub mp_read_unsigned_bin : Bytes → ℤ × ℕ
  pub ed25519_init : ℤ × EdKey
  pub ed25519_make_key : Rng → ℕ → EdKey → ℤ × EdKey
  pub ed25519_export_private_only : EdKey → ℕ → ℤ × Bytes
  pub ed25519_export_public : EdKey → ℕ → ℤ × Bytes
  pub ed25519_import_private_only : Bytes → EdKey → ℤ × EdKey
  pub ed25519_make_public : EdKey → ℕ → ℤ × Bytes
  pub ed25519_import_public : Bytes → EdKey → ℤ × EdKey
  pub ed25519_sign_msg : Bytes → EdKey → ℕ → ℤ × Bytes
  pub ed25519_verify_msg : Bytes → Bytes → EdKey → ℤ × ℤ
  pub init_cert : ℤ
  -- CTC_NAME_SIZE
  pub ctc_name_size : ℕ
  -- the subject's common name and the alternative names; the request and its size
  pub make_cert_req_ex : Bytes → Bytes → Key → ℤ × Bytes
  -- the request, signed in place in the DER buffer
  pub sign_cert_ex : Bytes → Key → Rng → ℤ × Bytes
  pub ecc_key_to_der : Key → ℕ → ℤ × Bytes
  pub der_to_pem : Bytes → ℕ → ℤ × Bytes
  -- the subject's common name and the two dates, where the certificate has them
  pub parse_cert : Bytes → ℤ × Option Bytes × Option Bytes × Option Bytes
  -- ED25519_KEY_SIZE, ED25519_PUB_KEY_SIZE, ED25519_SIG_SIZE
  pub ed25519_key_size : ℕ
  pub ed25519_pub_key_size : ℕ
  pub ed25519_sig_size : ℕ

-- What the documentation says of big integers as bytes: big-endian, no leading zero byte, and read
-- back with any padding; and that the integers of a signature take at most 32 bytes where the key is
-- imported with a public key of 65 bytes, an uncompressed point of a curve of 256 bits.
pub record IsLawful (w : Wolfcrypt) : Type 0 where
  pub length-to_bin : (n : ℕ) → length (w.mp_to_unsigned_bin n) ≡ w.mp_unsigned_bin_size n
  pub read-to_bin :
      (k n : ℕ) → w.mp_read_unsigned_bin (replicate k 0 ++ w.mp_to_unsigned_bin n) ≡ (pos 0, n)
  pub signature_size :
      (hash : Bytes) (rng : w.Rng) (private_key public_key : Bytes) (key₀ : w.Key)
      → length public_key ≡ 65
      → is_nonzero (w.ecc_import_private_key private_key public_key key₀).0 ≡ false
      → let key = (w.ecc_import_private_key private_key public_key key₀).1 in
        (w.mp_unsigned_bin_size (w.ecc_sign_hash_ex hash rng key).1 ≤ 32)
        × (w.mp_unsigned_bin_size (w.ecc_sign_hash_ex hash rng key).2 ≤ 32)
