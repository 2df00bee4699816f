-- ===== src/Crypto/X509.antt =====
-- lua_parse_x509_cert of crypto/crypto.c. The argument is `none` where Lua passes no string.
use lilush.Common.{Bytes, String, Option, none, some, List, [], ◌∷◌, ◌++◌, is_nonzero, true}
use lilush.Crypto.Ledger.{
  certificate, Cmd, ◌>>=◌, ◌>>◌, pure, nothing, acquire, release, calls, fail_if,
}
use lilush.Crypto.Wolfcrypt.{Wolfcrypt}

-- A field of the result table, if the certificate has it and it is not empty.
abbrev field : String → Option Bytes → List (String × Bytes)
field name none = []
field name (some []) = []
field name (some (c ∷ cs)) = (name, c ∷ cs) ∷ []

module _ (w : Wolfcrypt) where
  unfoldable pub lua_parse_x509_cert : Option Bytes → Cmd (List (String × Bytes))
  lua_parse_x509_cert none = fail_if true nothing "no certificate provided" >> pure []
  lua_parse_x509_cert (some cert_der) = do
    acquire certificate
    (ret, subject_cn, before_date, after_date) ← calls (certificate ∷ []) (w.parse_cert cert_der)
    fail_if (is_nonzero ret) (release certificate) "failed to parse certificate"
    calls (certificate ∷ []) tt
    release certificate
    pure (
        field "common_name" subject_cn
        ++ (field "not_before" before_date ++ field "not_after" after_date))
