-- ===== src/Socket/Ssl.antt =====
-- The connections of luasocket's ssl.c: their state and what it goes through. The calls of wolfSSL and
-- of the kernel are given with their answers.
pub mod Reply
pub mod Handshake
pub mod Transfer
pub mod Sound
pub mod Reach
pub mod Success
pub mod Rounds
pub mod Serve
pub mod Waits
pub mod Receive
pub mod Send
pub mod Lines
use lilush.Common.{
  ℕ, zero, suc, ◌||◌, Bool, true, false, not, Bytes, List, [], ◌∷◌, ◌++◌, Option, none, some,
  length, ◌==◌, if◌then◌else◌, ℤ, pos, negsuc, String, Outcome, ok, custom_err, sys_err, fault, ◌⊎◌,
  inl, inr,
}
use lilush.Socket.Io.{IoResult, io_done, io_timeout, io_closed, io_unknown, lsec_io_ssl, io_errno}
use lilush.Socket.Buffer.{Buffer, buffer_init, buffer_isempty}
use lilush.Socket.Sni.{SniEntry, SniParser, check_client_sni}

pub data State : Type 0 where
  lsec_state_new lsec_state_connected lsec_state_closed : State

pub data SslMode : Type 0 where
  lsec_mode_invalid lsec_mode_server lsec_mode_client : SslMode

-- What wolfSSL_get_error answers.
pub data SslError : Type 0 where
  ssl_error_none ssl_error_zero_return ssl_error_want_read ssl_error_want_write : SslError
  ssl_error_want_connect ssl_error_want_accept ssl_error_syscall ssl_error_ssl : SslError
  ssl_error_other : ℕ → SslError

-- A `t_socket`: what lua_newuserdata has left there, or a number. SOCKET_INVALID is -1.
pub data Sock : Type 0 where
  unset : Sock
  number : ℤ → Sock

abbrev pub socket_invalid : Sock
socket_invalid = number (negsuc zero)

abbrev pub is_invalid : Sock → Bool
is_invalid (number (negsuc zero)) = true
is_invalid _ = false

-- A `WOLFSSL` object and the context that it was made with.
pub record Session : Type 0 where
  pub id : ℕ
  pub ctx : ℕ

-- The limits of a `t_timeout` in seconds, each a double by its 64 bits. When an operation started is
-- left to the answers of its waits.
pub record Timeout : Type 0 where
  pub block : ℕ
  pub total : ℕ

-- The bits of -1.0: no limit.
abbrev pub no_limit : ℕ
no_limit = 0xbff0000000000000

-- `t_ssl`; and the sessions that have been created and freed for it, the closes of its descriptor, and
-- the calls of wolfSSL_shutdown.
pub record Ssl : Type 0 where
  pub sock : Sock
  pub buf : Buffer
  pub tm : Timeout
  pub ssl : Option Session
  pub state : State
  pub error : SslError
  pub mode : SslMode
  pub sni_contexts : Option (List SniEntry)
  pub created : List ℕ
  pub freed : List ℕ
  pub closes : List Sock
  pub shutdowns : ℕ

abbrev pub held : Option Session → List ℕ
held none = []
held (some session) = session.id ∷ []

-- `lsec_testcontext` gives the context, `lsec_getmode` its mode; wolfSSL_new gives a session or
-- nothing, and `room` says whether malloc has room. What lies in the buffer's array and in `error` at
-- first is given too. Where malloc fails the session has been freed.
unfoldable pub meth_create : Option ℕ → SslMode → Option ℕ → Bool → Bytes → SslError → Outcome Ssl
unfolding buffer_init
meth_create none mode fresh room bytes error = custom_err "invalid context"
meth_create (some ctx) lsec_mode_invalid fresh room bytes error = custom_err "invalid mode"
meth_create (some ctx) mode none room bytes error = custom_err "error creating SSL object (uknown)"
meth_create (some ctx) mode (some id) false bytes error = custom_err "out of memory"
meth_create (some ctx) mode (some id) true bytes error = ok (record {
  sock = unset;
  buf = buffer_init bytes;
  tm = record { block = no_limit; total = no_limit };
  ssl = some (record { id = id; ctx = ctx });
  state = lsec_state_new;
  error = error;
  mode = mode;
  sni_contexts = some [];
  created = id ∷ [];
  freed = [];
  closes = [];
  shutdowns = 0;
})

abbrev pub entries_of : Option (List SniEntry) → List SniEntry
entries_of none = []
entries_of (some entries) = entries

-- The first flag says whether malloc has room for a list, the second whether realloc has room for one
-- entry more.
abbrev new_list : Bool → Bool → SniEntry → Option (List SniEntry) → Option (List SniEntry)
new_list true true entry list = some (entries_of list ++ entry ∷ [])
new_list true false entry list = some (entries_of list)
new_list false true entry none = none
new_list false true entry (some entries) = some (entries ++ entry ∷ [])
new_list false false entry list = list

abbrev out_of_memory : Bool → Bool → Option (List SniEntry) → Option String
out_of_memory true true list = none
out_of_memory true false list = some "out of memory"
out_of_memory false true none = some "out of memory"
out_of_memory false true (some entries) = none
out_of_memory false false list = some "out of memory"

-- An entry behind those there are, with the message that is raised; a closed connection gets a new
-- list. The copy of the name is taken to succeed.
unfoldable pub meth_add_sni_context : Bool → Bool → Bytes → ℕ → Ssl → Ssl × Option String
meth_add_sni_context list_room entry_room servername ctx c = (
  record c {
    sni_contexts =
        new_list list_room entry_room (record { servername = servername; ctx = ctx })
          c.sni_contexts;
  },
  out_of_memory list_room entry_room c.sni_contexts,
)

-- With the message that is raised. `wraps` says whether wolfSSL_set_fd answers SSL_SUCCESS.
abbrev pub set_fd : ℤ → Bool → State → Ssl → Ssl × Option String
set_fd fd true lsec_state_new c =
    (record c { sock = number fd; state = lsec_state_connected }, none)
set_fd fd false lsec_state_new c = (record c { sock = number fd }, some "Failed to WRAP")
set_fd fd wraps _ c = (c, some "invalid SSL object state")

unfoldable pub meth_setfd : ℤ → Bool → Ssl → Ssl × Option String
meth_setfd fd wraps c = set_fd fd wraps c.state c

abbrev pub shut : State → ℕ → ℕ
shut lsec_state_connected n = suc n
shut _ n = n

-- `close`, `__close` and `__gc`. The names and the list of the SNI contexts are freed with the session.
unfoldable pub meth_destroy : Ssl → Ssl
meth_destroy c = record c {
  shutdowns = shut c.state c.shutdowns;
  closes = if is_invalid c.sock then c.closes else c.closes ++ c.sock ∷ [];
  sock = if is_invalid c.sock then c.sock else socket_invalid;
  state = lsec_state_closed;
  freed = c.freed ++ held c.ssl;
  ssl = none;
  sni_contexts = none;
}

-- The text of an error; `socket_strerror` is that of luasocket.
unfoldable pub ssl_ioerror : (IoResult → String) → SslError → IoResult → String
ssl_ioerror strerror ssl_error_none lsec_io_ssl = "No error"
ssl_ioerror strerror ssl_error_zero_return lsec_io_ssl = "closed"
ssl_ioerror strerror ssl_error_want_read lsec_io_ssl = "wantread"
ssl_ioerror strerror ssl_error_want_write lsec_io_ssl = "wantwrite"
ssl_ioerror strerror ssl_error_want_connect lsec_io_ssl = "'connect' not completed"
ssl_ioerror strerror ssl_error_want_accept lsec_io_ssl = "'accept' not completed"
ssl_ioerror strerror ssl_error_syscall lsec_io_ssl = "System error"
ssl_ioerror strerror ssl_error_ssl lsec_io_ssl = "Uknown SSL error 2"
ssl_ioerror strerror (ssl_error_other n) lsec_io_ssl = "Unknown SSL error"
ssl_ioerror strerror error err = strerror err

-- `pending` is what wolfSSL_pending answers for the session.
abbrev dirty : State → Bool → Bool
dirty lsec_state_closed res = false
dirty _ res = res

unfoldable pub meth_dirty : Bool → Ssl → Bool
meth_dirty pending c = dirty c.state (not (buffer_isempty c.buf) || pending)

-- `want_read` is what wolfSSL_want_read answers for the session, or for NULL.
abbrev want : State → Bool → String
want state true = "read"
want lsec_state_closed false = "nothing"
want _ false = "write"

unfoldable pub meth_want : (Option Session → Bool) → Ssl → String
meth_want want_read c = want c.state (want_read c.ssl)

unfoldable pub meth_getfd : Ssl → Sock
meth_getfd c = c.sock

-- `timeout_meth_settimeout` of LuaSocket, with the arguments of the call, gives the new limits, or a
-- message that is raised.
abbrev pub with_limits : Ssl → Timeout ⊎ String → Ssl × Option String
with_limits c (inl tm) = (record c { tm = tm }, none)
with_limits c (inr message) = (c, some message)

unfoldable pub meth_settimeout : (Timeout → Timeout ⊎ String) → Ssl → Ssl × Option String
meth_settimeout timeout_meth_settimeout c = with_limits c (timeout_meth_settimeout c.tm)
