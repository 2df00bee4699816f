-- ===== src/Crypto/Tests.antt =====
-- Runs of crypto/crypto.c over a concrete library, and the theorems at concrete data.
mod Base64
use lilush.Common.{
  ℕ, zero, suc, ◌≤◌, ◌≡◌, ◌≢◌, ◌∙◌, refl, ap, Bool, true, false, Bytes, List, [], ◌∷◌, ◌++◌, some,
  none, arith, length, replicate, length-replicate, ltb, ◌==◌, if◌then◌else◌, pos, negsuc, Outcome,
  ok, fault, custom_err,
}
use lilush.Crypto.Ledger.{clean}
use lilush.Crypto.Wolfcrypt.{Wolfcrypt, IsLawful}
use lilush.Crypto.Ecc.{
  lua_ecc_generate_key, lua_ecc_sign, lua_ecc_verify, lua_der_to_pem_ecc_key, sign_hash, place,
  raw_signature,
}
use lilush.Crypto.Ecc.Signature.{padded}
use lilush.Crypto.Ecc.Release.{ecc_keys-clean}
use lilush.Crypto.Ecc.Generated.{Generates, lua_ecc_verify-generated}
use lilush.Crypto.Ecc.RoundTrip.{
  IsPair, signature_of, lua_ecc_sign-clean, lua_ecc_sign-padded, lua_ecc_verify-padded,
  lua_ecc_verify-sign,
}
use lilush.Crypto.Ed25519.{lua_ed25519_generate_key, lua_ed25519_sign, lua_ed25519_verify}
use lilush.Crypto.Ed25519.Release.{ed25519-clean}
use lilush.Crypto.Csr.{names, lua_generate_csr, add_names, encode_alt_names}
use lilush.Crypto.Csr.Names.{total, read_alt_names, read_alt_names-encode}
use lilush.Crypto.Csr.Release.{certificates-clean}
use lilush.Crypto.X509.{lua_parse_x509_cert}

-- The number of bytes that are not zero: big integers in a unary notation.
abbrev count_marks : Bytes → ℕ
count_marks [] = 0
count_marks (c ∷ cs) = if c == 0 then count_marks cs else suc (count_marks cs)

count_marks-zeros :
    (k : ℕ) (bytes : Bytes) → count_marks (replicate k 0 ++ bytes) ≡ count_marks bytes
count_marks-zeros zero bytes = refl
count_marks-zeros (suc k) bytes = count_marks-zeros k bytes

count_marks-ones : (n : ℕ) → count_marks (replicate n 1) ≡ n
count_marks-ones zero = refl
count_marks-ones (suc n) = ap suc (count_marks-ones n)

abbrev toy_public : Bytes
toy_public = 4 ∷ replicate 64 1

-- A signature has r = 1 + the length of the message and s = 2.
abbrev toy : Wolfcrypt
toy = record {
  Rng = Unit {0};
  Key = ℕ;
  EdKey = ℕ;
  Hmac = Bytes;
  base64_decode = λ input size. (pos 0, input);
  base64_encode = λ input size. (pos 0, input);
  sha256_hash = λ input. (pos 0, input);
  hmac_set_key = λ secret. (pos 0, secret);
  hmac_update = λ h msg. (pos 0, h ++ msg);
  hmac_final = λ h. (pos 0, h);
  init_rng = (pos 0, tt);
  ecc_init = (pos 0, 0);
  ecc_make_key_ex = λ rng size key. (pos 0, 7);
  ecc_export_private_only = λ key size. (pos 0, 1 ∷ []);
  ecc_export_x963 = λ key size. (pos 0, toy_public);
  ecc_export_public_raw = λ key size. (pos 0, 1 ∷ [], 1 ∷ []);
  ecc_import_private_key = λ private public key. (pos 0, 7);
  ecc_import_x963 = λ public key. (pos 0, 7);
  ecc_sign_hash_ex = λ hash rng key. (pos 0, 5, 2);
  ecc_verify_hash_ex = λ r s hash key. (pos 0, if s == 2 then pos 1 else pos 0);
  mp_init = pos 0;
  mp_unsigned_bin_size = λ n. n;
  mp_to_unsigned_bin = λ n. replicate n 1;
  mp_read_unsigned_bin = λ bytes. (pos 0, count_marks bytes);
  ed25519_init = (pos 0, 0);
  ed25519_make_key = λ rng size key. (negsuc 2, 3);
  ed25519_export_private_only = λ key size. (pos 0, 3 ∷ []);
  ed25519_export_public = λ key size. (pos 0, 9 ∷ []);
  ed25519_import_private_only = λ private key. (pos 0, 3);
  ed25519_make_public = λ key size. (pos 0, 9 ∷ []);
  ed25519_import_public = λ public key. (pos 0, 3);
  ed25519_sign_msg = λ msg key size. (pos 0, msg);
  ed25519_verify_msg = λ sig msg key. (pos 0, pos 1);
  init_cert = pos 0;
  ctc_name_size = 64;
  make_cert_req_ex = λ name alt key. (pos 3, name ++ alt);
  sign_cert_ex = λ der key rng. (pos 4, der);
  parse_cert = λ der. (pos 0, some der, none, some []);
  ecc_key_to_der = λ key size. (pos 1, 1 ∷ 2 ∷ []);
  der_to_pem = λ der size. (pos 1, der);
  ed25519_key_size = 32;
  ed25519_pub_key_size = 32;
  ed25519_sig_size = 64;
}

toy-IsLawful : IsLawful toy
toy-IsLawful = record {
  length-to_bin = λ n. length-replicate n 1;
  read-to_bin = λ k n. ap (λ (m : ℕ). (pos 0, m)) (count_marks-zeros k _ ∙ count_marks-ones n);
  signature_size = λ hash rng private public key sized imports. omega arith;
}

-- A run of the whole path: the signature verifies, and nothing is held.
signature_runs :
    (lua_ecc_sign toy [] toy_public (9 ∷ [])) clean ≡ (ok (padded toy 5 ++ padded toy 2), clean)
unfolding lua_ecc_sign sign_hash raw_signature place
signature_runs = refl

lua_ecc_sign-clean_example :
    ((lua_ecc_sign toy [] toy_public (9 ∷ []) clean).1 ≡ clean)
    × ((lua_ecc_sign toy [] toy_public (9 ∷ []) clean).0 ≢ fault)
lua_ecc_sign-clean_example = lua_ecc_sign-clean toy toy-IsLawful [] toy_public (9 ∷ []) refl refl

lua_ecc_sign-padded_example :
    (length (padded toy 5 ++ padded toy 2) ≡ 64)
    × (◌≡◌ {A = Bytes} (padded toy 5 ++ padded toy 2) (
        padded toy (signature_of toy [] toy_public (9 ∷ [])).1
        ++ padded toy (signature_of toy [] toy_public (9 ∷ [])).2))
lua_ecc_sign-padded_example =
    lua_ecc_sign-padded toy toy-IsLawful [] toy_public (9 ∷ []) refl
      (ap (λ (t : Outcome Bytes × _). t.0) signature_runs)

toy-Generates : Generates toy
toy-Generates = record {
  pairs = λ rng start made private public. record {
    sized = refl;
    imports = refl;
    verifies = λ msg. refl;
  };
}

lua_ecc_verify-generated_example :
    lua_ecc_verify toy toy_public (9 ∷ []) (padded toy 5 ++ padded toy 2) clean ≡ (ok true, clean)
unfolding lua_ecc_generate_key lua_ecc_sign sign_hash raw_signature place
lua_ecc_verify-generated_example =
    lua_ecc_verify-generated toy toy-IsLawful toy-Generates (1 ∷ []) toy_public (1 ∷ []) (1 ∷ [])
      (9 ∷ []) (padded toy 5 ++ padded toy 2) refl refl

-- Making the key fails here, after the generator and the key were set up.
ed25519-clean_example :
    ((lua_ed25519_generate_key toy clean).1 ≡ clean)
    × ((lua_ed25519_sign toy (3 ∷ []) (9 ∷ []) clean).1 ≡ clean)
    × ((lua_ed25519_verify toy (9 ∷ []) (9 ∷ []) (9 ∷ []) clean).1 ≡ clean)
    × ((lua_ed25519_generate_key toy clean).0 ≢ fault)
    × ((lua_ed25519_sign toy (3 ∷ []) (9 ∷ []) clean).0 ≢ fault)
    × ((lua_ed25519_verify toy (9 ∷ []) (9 ∷ []) (9 ∷ []) clean).0 ≢ fault)
ed25519-clean_example = ed25519-clean toy (3 ∷ []) (9 ∷ []) (9 ∷ []) (9 ∷ [])

ed25519_generate_fails :
    lua_ed25519_generate_key toy clean ≡ (custom_err "failed to generate Ed25519 key", clean)
unfolding lua_ed25519_generate_key
ed25519_generate_fails = refl

abbrev grants : ℕ → Bool
grants size = ltb 0 size

-- "a.b" and "c".
abbrev two_names : List Bytes
two_names = (97 ∷ 46 ∷ 98 ∷ []) ∷ (99 ∷ []) ∷ []

two_names_encoded :
    encode_alt_names two_names ≡ some (0x30 ∷ 8 ∷ 0x82 ∷ 3 ∷ 97 ∷ 46 ∷ 98 ∷ 0x82 ∷ 1 ∷ 99 ∷ [])
unfolding encode_alt_names add_names
two_names_encoded = refl

read_alt_names-encode_example :
    (der : Bytes) × (encode_alt_names two_names ≡ some der)
    × (length der ≤ 1022)
    × (read_alt_names der ≡ (if ltb (total two_names) 128 then some two_names else none))
unfolding total
read_alt_names-encode_example = read_alt_names-encode two_names (omega arith)

certificates-clean_example :
    ((lua_generate_csr toy [] [] (97 ∷ []) (names two_names) clean).1 ≡ clean)
    × ((lua_parse_x509_cert toy (some (97 ∷ [])) clean).1 ≡ clean)
certificates-clean_example =
    certificates-clean toy [] [] (97 ∷ []) (names two_names) (some (97 ∷ []))

certificate_fields :
    lua_parse_x509_cert toy (some (97 ∷ [])) clean ≡ (ok (("common_name", 97 ∷ []) ∷ []), clean)
unfolding lua_parse_x509_cert
certificate_fields = refl
