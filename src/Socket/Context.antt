-- ===== src/Socket/Context.antt =====
-- luasocket's context.c: the TLS contexts. The calls of wolfSSL are an interface.
pub mod Locations
use lilush.Common.{
  ℕ, zero, suc, Bool, true, false, Bytes, List, [], ◌∷◌, ◌++◌, Option, none, some, if◌then◌else◌,
  c_string, String,
}
use lilush.Socket.Sni.{same}
use lilush.Socket.Ssl.{SslMode, lsec_mode_invalid, lsec_mode_server, lsec_mode_client}

-- How a peer is verified: as the library does at first, or as `no_verify_mode` has said.
pub data Verify : Type 0 where
  by_default ssl_verify_none ssl_verify_peer : Verify

-- `t_context`, with the method that the `WOLFSSL_CTX` was made for, how it verifies, and the number of
-- times that it has been freed.
pub record Context : Type 0 where
  pub context : Option ℕ
  pub method : SslMode
  pub mode : SslMode
  pub verify : Verify
  pub freed : ℕ

-- wolfSSL: wolfSSL_CTX_new for a server's or a client's method, and whether a call succeeds.
pub record Tls : Type 0 where
  pub ctx_new : SslMode → Option ℕ
  pub use_sni : Option ℕ → Bytes → Bool
  pub use_certificate_chain_file : Option ℕ → Bytes → Bool
  pub use_private_key_file : Option ℕ → Bytes → Bool
  pub load_verify_locations : Option ℕ → Option Bytes → Option Bytes → Bool

-- What the functions give to Lua: true, false and a message, nil and a message, or something
-- undefined.
pub data Report : Type 0 where
  accepted : Report
  refused : String → Report
  named : String → Bytes → Report
  undefined : Report

abbrev pub server_name : Bytes
server_name = b's' ∷ (b'e' ∷ (b'r' ∷ (b'v' ∷ (b'e' ∷ (b'r' ∷ [])))))

abbrev pub client_name : Bytes
client_name = b'c' ∷ (b'l' ∷ (b'i' ∷ (b'e' ∷ (b'n' ∷ (b't' ∷ [])))))

-- The mode that a text names.
abbrev pub mode_of : Bytes → SslMode
mode_of text =
    if same (c_string text) server_name
    then lsec_mode_server
    else if same (c_string text) client_name
    then lsec_mode_client
    else lsec_mode_invalid

abbrev made : SslMode → Option ℕ → Report × Option Context
made mode none = (refused "error creating context (unknown)", none)
made mode (some ctx) = (
  accepted,
  some (record { context = some ctx; method = mode; mode = mode; verify = by_default; freed = 0 }),
)

abbrev create_for : Tls → SslMode → Report × Option Context
create_for T lsec_mode_invalid = (refused "invalid mode", none)
create_for T mode = made mode (T.ctx_new mode)

abbrev or_client : Option Bytes → Bytes
or_client none = client_name
or_client (some text) = text

-- The refusals of this one come with nil.
unfoldable pub create : Tls → Option Bytes → Report × Option Context
create T mode_str = create_for T (mode_of (or_client mode_str))

unfoldable pub no_verify_mode : Bool → Context → Context
no_verify_mode enable c = record c { verify = if enable then ssl_verify_none else ssl_verify_peer }

-- `strlen` of the NULL that stands for a missing name is undefined.
unfoldable pub set_sni : Tls → Option Bytes → Context → Report
set_sni T none c = undefined
set_sni T (some name) c =
    if T.use_sni c.context (c_string name) then accepted else refused "Failed to set SNI"

-- The certificate and the key are read if both names are there. For the message of a failure the
-- `WOLFSSL_CTX` is handed to `wolfSSL_get_error`, which reads a `WOLFSSL` there.
abbrev load_own : Tls → Context → Option Bytes → Option Bytes → Report
load_own T c (some certfile) (some keyfile) =
    if T.use_certificate_chain_file c.context certfile
    then if T.use_private_key_file c.context keyfile then accepted else undefined
    else undefined
load_own T c certfile keyfile = accepted

abbrev load_ca : Tls → Context → Option Bytes → Option Bytes → Report
load_ca T c none none = accepted
load_ca T c cafile capath =
    if T.load_verify_locations c.context cafile capath
    then accepted
    else refused "error loading CA locations (unknown)"

abbrev after : Report → Report → Report
after accepted next = next
after report next = report

unfoldable pub load_locations :
    Tls → Context → Option Bytes → Option Bytes → Option Bytes → Option Bytes → Report
load_locations T c cafile capath certfile keyfile =
    after (load_own T c certfile keyfile) (load_ca T c cafile capath)

abbrev with_mode : Context → Bytes → SslMode → Context × Report
with_mode c text lsec_mode_invalid = (c, named "invalid mode" text)
with_mode c text mode = (record c { mode = mode }, accepted)

-- The `WOLFSSL_CTX` keeps its method.
unfoldable pub set_mode : Bytes → Context → Context × Report
set_mode text c = with_mode c text (mode_of text)

abbrev free_once : Option ℕ → ℕ → ℕ
free_once none n = n
free_once (some ctx) n = suc n

-- `__close` and `__gc`
unfoldable pub meth_destroy : Context → Context
meth_destroy c = record c { context = none; freed = free_once c.context c.freed }

unfoldable pub lsec_checkcontext : Context → Option ℕ
lsec_checkcontext c = c.context

-- `none` where the argument is no context.
unfoldable pub lsec_testcontext : Option Context → Option ℕ
lsec_testcontext none = none
lsec_testcontext (some c) = c.context

unfoldable pub lsec_getmode : Context → SslMode
lsec_getmode c = c.mode
