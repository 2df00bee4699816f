-- ===== src/Crypto/Ecc/Generated.antt =====
-- A key of lua_ecc_generate_key of crypto/crypto.c in lua_ecc_sign and lua_ecc_verify.
use lilush.Common.{◌≡◌, true, false, Bytes, arith, is_nonzero, ok}
use mathlib.Core.Path.{subst}
use lilush.Crypto.Ledger.{clean}
use lilush.Crypto.Wolfcrypt.{Wolfcrypt, IsLawful}
use lilush.Crypto.Ecc.{lua_ecc_generate_key, lua_ecc_sign, lua_ecc_verify}
use lilush.Crypto.Ecc.RoundTrip.{IsPair, lua_ecc_verify-sign}

module _ (w : Wolfcrypt) where
  -- What is exported of a key that the library has made is a pair.
  pub record Generates : Type 0 where
    pub pairs :
        (rng : w.Rng) (start : w.Key)
        → is_nonzero (w.ecc_make_key_ex rng 32 start).0 ≡ false
        → is_nonzero (w.ecc_export_private_only (w.ecc_make_key_ex rng 32 start).1 2048).0 ≡ false
        → is_nonzero (w.ecc_export_x963 (w.ecc_make_key_ex rng 32 start).1 1024).0 ≡ false
        → IsPair w
            (w.ecc_export_private_only (w.ecc_make_key_ex rng 32 start).1 2048).1
            (w.ecc_export_x963 (w.ecc_make_key_ex rng 32 start).1 1024).1

  abbrev made : w.Key
  made = (w.ecc_make_key_ex w.init_rng.1 32 w.ecc_init.1).1

  -- What a key that is returned says of the calls.
  record IsMade (private_key public_key : Bytes) : Type 0 where
    makes : is_nonzero (w.ecc_make_key_ex w.init_rng.1 32 w.ecc_init.1).0 ≡ false
    exports_private : is_nonzero (w.ecc_export_private_only made 2048).0 ≡ false
    exports_public : is_nonzero (w.ecc_export_x963 made 1024).0 ≡ false
    private : (w.ecc_export_private_only made 2048).1 ≡ private_key
    public : (w.ecc_export_x963 made 1024).1 ≡ public_key

  generated-IsMade :
      {private_key public_key qx qy : Bytes}
      → (lua_ecc_generate_key w clean).0 ≡ ok (private_key, public_key, qx, qy)
      → IsMade private_key public_key
  unfolding lua_ecc_generate_key
  generated-IsMade h = ground arith

  generated-IsPair :
      {private_key public_key : Bytes}
      → Generates
      → IsMade private_key public_key
      → IsPair w private_key public_key
  generated-IsPair {private_key} {public_key} G m =
      subst (λ k. IsPair w k public_key) m.private
        (subst (λ k. IsPair w (w.ecc_export_private_only made 2048).1 k) m.public
          (G.pairs w.init_rng.1 w.ecc_init.1 m.makes m.exports_private m.exports_public))

-- A key that lua_ecc_generate_key returns signs and verifies: whatever lua_ecc_sign makes of a message
-- with its two halves, lua_ecc_verify accepts with the public half, and holds nothing behind it.
pub lua_ecc_verify-generated :
    (w : Wolfcrypt)
    → IsLawful w
    → Generates w
    → (private_key public_key qx qy msg sig : Bytes)
    → (lua_ecc_generate_key w clean).0 ≡ ok (private_key, public_key, qx, qy)
    → (lua_ecc_sign w private_key public_key msg clean).0 ≡ ok sig
    → lua_ecc_verify w public_key msg sig clean ≡ (ok true, clean)
lua_ecc_verify-generated w L G private_key public_key qx qy msg sig h s =
    lua_ecc_verify-sign w L private_key public_key msg (generated-IsPair w G (generated-IsMade w h))
      s
