-- ===== src/Crypto/Csr.antt =====
-- lua_generate_csr of crypto/crypto.c, with the alternative names that it encodes itself.
pub mod Names
pub mod Release
use lilush.Common.{
  ℕ, ◌+◌, ◌-◌, ◌%◌, Bytes, List, [], ◌∷◌, ◌++◌, Option, none, some, length, set, take, ltb,
  if◌then◌else◌, c_string, is_nonzero, is_nonpositive, to_ℕ, true,
}
use lilush.Crypto.Ledger.{
  generator, key_slot, Cmd, ◌>>=◌, ◌>>◌, pure, nothing, release, calls, fail_if,
}
use lilush.Crypto.Wolfcrypt.{Wolfcrypt}
use lilush.Crypto.Ecc.{free_key_and_rng, start_rng, start_key}

-- The fourth argument: none or nil, a value that is no table, or the texts that `lua_tolstring`
-- gives for the values of a table, in the order of `lua_next`.
pub data AltNames : Type 0 where
  absent not_a_table : AltNames
  names : List Bytes → AltNames

-- The loop over the table. `alt_names` is what has been written so far, so `idx` is its length;
-- `none` is "alternative names too long".
unfoldable pub add_names : List Bytes → Bytes → Option Bytes
add_names [] alt_names = some alt_names
add_names (alt_name ∷ rest) alt_names =
    if ltb 1024 (length alt_names + length alt_name + 4)
    then none
    else add_names rest (alt_names ++ (0x82 ∷ (length alt_name % 256) ∷ alt_name))

-- The SEQUENCE tag, the length that is filled in at the end, and the names.
unfoldable pub encode_alt_names : List Bytes → Option Bytes
unfolding add_names
encode_alt_names ns = elim (add_names ns (0x30 ∷ 0x00 ∷ [])) [
  | none ↦ none
  | some alt_names ↦ some (set alt_names 1 ((length alt_names - 2) % 256))
]

-- `req.altNames`, or the error that ends the call.
unfoldable pub request_names : AltNames → Cmd Bytes
request_names absent = pure []
request_names not_a_table =
    fail_if true free_key_and_rng "alternative names must be a table" >> pure []
request_names (names ns) = elim (encode_alt_names ns) [
  | none ↦ fail_if true free_key_and_rng "alternative names too long" >> pure []
  | some alt_names ↦ pure alt_names
]

module _ (w : Wolfcrypt) where
  unfoldable pub lua_generate_csr : (private_key public_key domain : Bytes) → AltNames → Cmd Bytes
  lua_generate_csr private_key public_key domain alt = do
    rng ← start_rng w
    key₀ ← start_key w (release generator)
    (ret, key) ← calls (key_slot ∷ []) (w.ecc_import_private_key private_key public_key key₀)
    fail_if (is_nonzero ret) free_key_and_rng "failed to import private key"
    ret ← calls [] w.init_cert
    fail_if (is_nonzero ret) free_key_and_rng "failed to initialize certificate request"
    let common_name = take w.ctc_name_size (c_string domain)
    alt_names ← request_names alt
    (ret, der₀) ← calls (key_slot ∷ []) (w.make_cert_req_ex common_name alt_names key)
    fail_if (is_nonpositive ret) free_key_and_rng "failed to generate certificate request"
    (ret, der) ← calls (key_slot ∷ generator ∷ []) (w.sign_cert_ex der₀ key rng)
    fail_if (is_nonpositive ret) free_key_and_rng "failed to sign certificate request"
    free_key_and_rng
    pure (take (to_ℕ ret) der)
