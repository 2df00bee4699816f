-- ===== src/Crypto/Csr/Release.antt =====
-- What lua_generate_csr and lua_parse_x509_cert hold when they return.
use lilush.Common.{◌≡◌, arith, Bytes, Option, none, some}
use lilush.Crypto.Ledger.{clean}
use lilush.Crypto.Wolfcrypt.{Wolfcrypt}
use lilush.Crypto.Csr.{AltNames, absent, not_a_table, names, request_names, lua_generate_csr}
use lilush.Crypto.X509.{lua_parse_x509_cert}

module _ (w : Wolfcrypt) where
  pub lua_generate_csr-clean :
      (private_key public_key domain : Bytes) (alt : AltNames)
      → (lua_generate_csr w private_key public_key domain alt clean).1 ≡ clean
  unfolding lua_generate_csr request_names
  lua_generate_csr-clean private_key public_key domain absent = ground arith
  lua_generate_csr-clean private_key public_key domain not_a_table = ground arith
  lua_generate_csr-clean private_key public_key domain (names ns) = ground arith

  pub lua_parse_x509_cert-clean :
      (cert_der : Option Bytes) → (lua_parse_x509_cert w cert_der clean).1 ≡ clean
  unfolding lua_parse_x509_cert
  lua_parse_x509_cert-clean none = ground arith
  lua_parse_x509_cert-clean (some cert_der) = ground arith

  -- Making a certificate request frees the key and the generator exactly once on every path, the
  -- refusals of the alternative names included; parsing a certificate frees it exactly once.
  pub certificates-clean :
      (private_key public_key domain : Bytes) (alt : AltNames) (cert_der : Option Bytes)
      → ((lua_generate_csr w private_key public_key domain alt clean).1 ≡ clean)
        × ((lua_parse_x509_cert w cert_der clean).1 ≡ clean)
  certificates-clean private_key public_key domain alt cert_der =
      (lua_generate_csr-clean private_key public_key domain alt, lua_parse_x509_cert-clean cert_der)
