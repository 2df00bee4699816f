-- ===== src/Socket/Ssl/Handshake.antt =====
-- The handshake of luasocket's ssl.c, with the choice of a session by the name that the client asks for.
use lilush.Common.{
  ℕ, ◌||◌, Bool, true, false, Bytes, List, [], ◌∷◌, ◌++◌, Option, none, some, length, ◌==◌,
  if◌then◌else◌, Outcome, ok, fault, String,
}
use lilush.Socket.Io.{IoResult, io_done, io_closed, lsec_io_ssl}
use lilush.Socket.Sni.{SniParser, check_client_sni}
use lilush.Socket.Ssl.{
  State, lsec_state_connected, lsec_state_closed, SslMode, lsec_mode_server, SslError,
  ssl_error_none, ssl_error_want_read, ssl_error_want_write, ssl_error_syscall, ssl_error_ssl, Sock,
  unset, number, is_invalid, Ssl, held, ssl_ioerror,
}
use lilush.Socket.Ssl.Reply.{Reply, waited, is_zero}

-- A round of the handshake: what `recv` with MSG_PEEK gives, nothing if it fails, and the session that
-- wolfSSL_new makes for the name, if it does.
pub record Round : Type 0 where
  pub peeked : Bytes
  pub fresh : Option ℕ
  pub reply : Reply

pub data Shake : Type 0 where
  -- the rounds are over and it still waits
  pending : Shake
  shaken : IoResult → Ssl → List Round → Shake
  -- an access that C leaves undefined
  undefined : Shake

abbrev pub renew : Option ℕ → Ssl → Outcome (Option ℕ) → Outcome Ssl
renew (some id) c (ok (some ctx)) = ok (record c {
  ssl = some (record { id = id; ctx = ctx });
  created = c.created ++ id ∷ [];
  freed = c.freed ++ held c.ssl;
})
renew none c (ok (some ctx)) = ok c
renew fresh c (ok none) = ok c
renew fresh c _ = fault

-- What a server does with what it peeks at. Nothing comes from SOCKET_INVALID.
abbrev pub peek : SniParser → Round → Sock → Ssl → Outcome Ssl
peek P r unset c = fault
peek P r (number n) c =
    if is_invalid (number n) || length r.peeked == 0
    then ok c
    else renew r.fresh c (check_client_sni P c.sni_contexts r.peeked)

unfoldable pub prepare : SniParser → Round → SslMode → Ssl → Outcome Ssl
unfolding check_client_sni
prepare P r lsec_mode_server c = peek P r c.sock c
prepare P r _ c = ok c

unfoldable pub after_prepare : Outcome Ssl → (Ssl → Shake) → Shake
after_prepare (ok c) k = k c
after_prepare _ k = undefined

unfoldable pub shake_answer : SslError → Reply → Ssl → List Round → Shake → Shake
unfolding waited
shake_answer ssl_error_none reply c rest more =
    shaken io_done (record c { state = lsec_state_connected }) rest
shake_answer ssl_error_want_read reply c rest more =
    waited reply.wait (λ err. shaken err c rest) more
shake_answer ssl_error_want_write reply c rest more =
    waited reply.wait (λ err. shaken err c rest) more
shake_answer ssl_error_syscall reply c rest more =
    if is_zero reply.ret
    then shaken io_closed c rest
    else shaken lsec_io_ssl (record c { error = ssl_error_ssl }) rest
shake_answer _ reply c rest more = shaken lsec_io_ssl c rest

unfoldable pub shake_loop : SniParser → List Round → Ssl → Shake
unfolding prepare after_prepare shake_answer
shake_loop P [] c = pending
shake_loop P (r ∷ rest) c = after_prepare (prepare P r c.mode c) (λ c1.
    let c2 = record c1 { error = r.reply.error } in
    let more = shake_loop P rest c2 in shake_answer r.reply.error r.reply c2 rest more)

abbrev pub shake : State → SniParser → List Round → Ssl → Shake
shake lsec_state_closed P rounds c = shaken io_closed c rounds
shake _ P rounds c = shake_loop P rounds c

unfoldable pub handshake : SniParser → List Round → Ssl → Shake
unfolding shake_loop
handshake P rounds c = shake c.state P rounds c

abbrev pub report : (IoResult → String) → Shake → Option (Bool × Option String)
report strerror (shaken io_done c rest) = some (true, none)
report strerror (shaken err c rest) = some (false, some (ssl_ioerror strerror c.error err))
report strerror _ = none

-- What `dohandshake` returns: true, or false and a message.
unfoldable pub meth_handshake :
    (IoResult → String) → SniParser → List Round → Ssl → Option (Bool × Option String)
unfolding handshake ssl_ioerror
meth_handshake strerror P rounds c = report strerror (handshake P rounds c)
