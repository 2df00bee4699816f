-- ===== src/Socket/Ssl/Sound.antt =====
-- The session and the descriptor of a connection of luasocket's ssl.c, and what each call makes of them.
pub mod Shaking
pub mod Moving
use lilush.Common.{
  ℕ, zero, suc, ◌≡◌, ◌≢◌, refl, sym, ap, ◌∙◌, ◌||◌, length, ◌==◌, inl, inr, Bool, true, false,
  Bytes, List, [], ◌∷◌, ◌++◌, append-nil, Option, none, some, ℤ, pos, negsuc, Outcome, ok,
  custom_err, sys_err, fault, if◌then◌else◌, Bool-cases, arith,
}
use lilush.Socket.Io.{IoResult, io_done, io_timeout, io_closed, io_unknown, lsec_io_ssl, io_errno}
use lilush.Socket.Sni.{SniParser, check_client_sni}
use lilush.Socket.Ssl.{
  State, lsec_state_new, lsec_state_connected, lsec_state_closed, SslMode, lsec_mode_invalid,
  lsec_mode_server, lsec_mode_client, SslError, ssl_error_none, ssl_error_zero_return,
  ssl_error_want_read, ssl_error_want_write, ssl_error_want_connect, ssl_error_want_accept,
  ssl_error_syscall, ssl_error_ssl, ssl_error_other, Sock, unset, number, is_invalid,
  socket_invalid, set_fd, Ssl, held, meth_create, meth_setfd, meth_destroy,
}
use lilush.Socket.Ssl.Reply.{Reply, waited, is_zero}
use lilush.Socket.Ssl.Handshake.{
  Round, Shake, pending, shaken, undefined, prepare, renew, peek, after_prepare, shake_answer,
  shake_loop, shake, handshake,
}
use lilush.Socket.Ssl.Transfer.{Transfer, transfer_answer, transfer_loop, transfer}

-- It has a session, and all others that were created for it have been freed, once each.
pub record IsLive (c : Ssl) : Type 0 where
  pub alive : c.state ≢ lsec_state_closed
  pub session : c.ssl ≢ none
  pub ledger : c.created ≡ c.freed ++ held c.ssl

-- Every session has been freed, once, and the descriptor has been given up.
pub record IsGone (c : Ssl) : Type 0 where
  pub closed : c.state ≡ lsec_state_closed
  pub no_session : c.ssl ≡ none
  pub no_sock : is_invalid c.sock ≡ true
  pub ledger : c.created ≡ c.freed

pub data IsSound (c : Ssl) : Type 0 where
  live : IsLive c → IsSound c
  gone : IsGone c → IsSound c

-- A connection as `create` gives it: its descriptor is not set.
pub record IsFresh (c : Ssl) : Type 0 where
  pub is_new : c.state ≡ lsec_state_new
  pub no_descriptor : c.sock ≡ unset
  pub session : c.ssl ≢ none
  pub ledger : c.created ≡ c.freed ++ held c.ssl
  pub no_closes : c.closes ≡ []

pub meth_create-IsFresh :
    {c : Ssl} (ctx : Option ℕ) (mode : SslMode) (fresh : Option ℕ) (room : Bool) (bytes : Bytes)
    (error : SslError)
    → meth_create ctx mode fresh room bytes error ≡ ok c
    → IsFresh c
unfolding meth_create
meth_create-IsFresh none mode fresh room bytes error e = absurd (ground arith)
meth_create-IsFresh (some ctx) lsec_mode_invalid fresh room bytes error e = absurd (ground arith)
meth_create-IsFresh (some ctx) lsec_mode_server none room bytes error e = absurd (ground arith)
meth_create-IsFresh (some ctx) lsec_mode_client none room bytes error e = absurd (ground arith)
meth_create-IsFresh (some ctx) lsec_mode_server (some id) false bytes error e =
    absurd (ground arith)
meth_create-IsFresh (some ctx) lsec_mode_client (some id) false bytes error e =
    absurd (ground arith)
meth_create-IsFresh (some ctx) lsec_mode_server (some id) true bytes error e = ground arith
meth_create-IsFresh (some ctx) lsec_mode_client (some id) true bytes error e = ground arith

pub IsFresh-IsLive : {c : Ssl} → IsFresh c → IsLive c
IsFresh-IsLive {c} f = record {
  alive = λ e. absurd (ground (arith, f.is_new));
  session = f.session;
  ledger = f.ledger;
}

set_fd-IsSound :
    (fd : ℤ) (wraps : Bool) (st : State) (c : Ssl)
    → c.state ≡ st
    → IsSound c
    → IsSound (set_fd fd wraps st c).0
set_fd-IsSound fd true lsec_state_new c e (live v) =
    live (record { alive = ground arith; session = v.session; ledger = v.ledger })
set_fd-IsSound fd false lsec_state_new c e (live v) =
    live (record { alive = v.alive; session = v.session; ledger = v.ledger })
set_fd-IsSound fd true lsec_state_new c e (gone g) = absurd (ground (arith, g.closed))
set_fd-IsSound fd false lsec_state_new c e (gone g) = absurd (ground (arith, g.closed))
set_fd-IsSound fd true lsec_state_connected c e s = s
set_fd-IsSound fd false lsec_state_connected c e s = s
set_fd-IsSound fd true lsec_state_closed c e s = s
set_fd-IsSound fd false lsec_state_closed c e s = s

pub meth_setfd-IsSound :
    (fd : ℤ) (wraps : Bool) (c : Ssl) → IsSound c → IsSound (meth_setfd fd wraps c).0
unfolding meth_setfd
meth_setfd-IsSound fd wraps c s = set_fd-IsSound fd wraps c.state c refl s

given_up : (s : Sock) → is_invalid (if is_invalid s then s else socket_invalid) ≡ true
given_up unset = refl
given_up (number (pos n)) = refl
given_up (number (negsuc zero)) = refl
given_up (number (negsuc (suc n))) = refl

pub meth_destroy-IsGone : (c : Ssl) → IsSound c → IsGone (meth_destroy c)
unfolding meth_destroy
meth_destroy-IsGone c (live v) = record {
  closed = refl;
  no_session = refl;
  no_sock = given_up c.sock;
  ledger = v.ledger;
}
meth_destroy-IsGone c (gone g) = record {
  closed = refl;
  no_session = refl;
  no_sock = given_up c.sock;
  ledger = g.ledger ∙ sym (append-nil c.freed) ∙ ap (λ s. c.freed ++ held s) (sym g.no_session);
}

pub IsLive-error : (e : SslError) (c : Ssl) → IsLive c → IsLive (record c { error = e })
IsLive-error e c v = record { alive = v.alive; session = v.session; ledger = v.ledger }

pub IsSound-error : (e : SslError) (c : Ssl) → IsSound c → IsSound (record c { error = e })
IsSound-error e c (live v) = live (IsLive-error e c v)
IsSound-error e c (gone g) = gone (record {
  closed = g.closed;
  no_session = g.no_session;
  no_sock = g.no_sock;
  ledger = g.ledger;
})
