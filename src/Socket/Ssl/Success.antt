-- ===== src/Socket/Ssl/Success.antt =====
-- When a handshake of luasocket's ssl.c reports success.
use lilush.Common.{
  ◌≡◌, ◌≢◌, refl, true, false, List, [], ◌∷◌, none, some, String, Outcome, ok, custom_err, sys_err,
  fault, Bool-cases, inl, inr, arith,
}
use lilush.Socket.Io.{
  IoResult, io_done, io_timeout, io_closed, io_unknown, lsec_io_ssl, io_errno, is_done,
}
use lilush.Socket.Sni.{SniParser}
use lilush.Socket.Ssl.{
  State, lsec_state_new, lsec_state_connected, lsec_state_closed, SslError, ssl_error_none,
  ssl_error_zero_return, ssl_error_want_read, ssl_error_want_write, ssl_error_want_connect,
  ssl_error_want_accept, ssl_error_syscall, ssl_error_ssl, ssl_error_other, Ssl,
}
use lilush.Socket.Ssl.Reply.{Reply, waited, is_zero}
use lilush.Socket.Ssl.Handshake.{
  Round, Shake, pending, shaken, undefined, prepare, after_prepare, shake_answer, shake_loop, shake,
  handshake, report, meth_handshake,
}

-- wolfSSL has reported no error, and the connection is connected.
pub record IsUp (c : Ssl) : Type 0 where
  pub connected : c.state ≡ lsec_state_connected
  pub no_error : c.error ≡ ssl_error_none

-- IO_DONE comes with such a connection only.
data Means : Shake → Type 0 where
  still : Means pending
  unknown : Means undefined
  success : {c : Ssl} (left : List Round) → IsUp c → Means (shaken io_done c left)
  failure :
      (code : IoResult) {c : Ssl} (left : List Round)
      → is_done code ≡ false
      → Means (shaken code c left)

waited-Means :
    {more : Shake} (err : IoResult) (c : Ssl) (rest : List Round)
    → Means more
    → Means (waited err (λ code. shaken code c rest) more)
unfolding waited
waited-Means io_done c rest m = m
waited-Means io_timeout c rest m = failure _ rest refl
waited-Means io_closed c rest m = failure _ rest refl
waited-Means io_unknown c rest m = failure _ rest refl
waited-Means lsec_io_ssl c rest m = failure _ rest refl
waited-Means (io_errno n) c rest m = failure _ rest refl

shake_answer-Means :
    {more : Shake} (error : SslError) (reply : Reply) (c : Ssl) (rest : List Round)
    → c.error ≡ error
    → Means more
    → Means (shake_answer error reply c rest more)
unfolding shake_answer
shake_answer-Means ssl_error_none reply c rest e m =
    success rest (record { connected = refl; no_error = e })
shake_answer-Means ssl_error_want_read reply c rest e m = waited-Means reply.wait c rest m
shake_answer-Means ssl_error_want_write reply c rest e m = waited-Means reply.wait c rest m
shake_answer-Means ssl_error_syscall reply c rest e m = elim (Bool-cases (is_zero reply.ret)) [
  | inl z ↦ rw z (failure _ rest refl)
  | inr z ↦ rw z (failure _ rest refl)
]
shake_answer-Means ssl_error_zero_return reply c rest e m = failure _ rest refl
shake_answer-Means ssl_error_want_connect reply c rest e m = failure _ rest refl
shake_answer-Means ssl_error_want_accept reply c rest e m = failure _ rest refl
shake_answer-Means ssl_error_ssl reply c rest e m = failure _ rest refl
shake_answer-Means (ssl_error_other n) reply c rest e m = failure _ rest refl

after_prepare-Means :
    (o : Outcome Ssl) (k : Ssl → Shake) → ((c : Ssl) → Means (k c)) → Means (after_prepare o k)
unfolding after_prepare
after_prepare-Means (ok c) k f = f c
after_prepare-Means (custom_err m) k f = unknown
after_prepare-Means (sys_err n) k f = unknown
after_prepare-Means fault k f = unknown

module _ (P : SniParser) where
  shake_loop-Means : (rounds : List Round) (c : Ssl) → Means (shake_loop P rounds c)
  unfolding shake_loop
  shake_loop-Means [] c = still
  shake_loop-Means (r ∷ rest) c = after_prepare-Means (prepare P r c.mode c) _ (λ c1.
      shake_answer-Means r.reply.error r.reply (record c1 { error = r.reply.error }) rest refl
        (shake_loop-Means rest (record c1 { error = r.reply.error })))

  shake-Means : (st : State) (rounds : List Round) (c : Ssl) → Means (shake st P rounds c)
  shake-Means lsec_state_new rounds c = shake_loop-Means rounds c
  shake-Means lsec_state_connected rounds c = shake_loop-Means rounds c
  shake-Means lsec_state_closed rounds c = failure _ rounds refl

  handshake_closed :
      (st : State) (rounds : List Round) (c : Ssl)
      → st ≡ lsec_state_closed
      → shake st P rounds c ≡ shaken io_closed c rounds
  handshake_closed st rounds c e = rw e refl

-- What is behind `true`.
reported :
    (strerror : IoResult → String) {s : Shake}
    → Means s
    → report strerror s ≡ some (true, none)
    → (c : Ssl) × (left : List Round) × (s ≡ shaken io_done c left) × IsUp c
reported strerror still e = absurd (ground arith)
reported strerror unknown e = absurd (ground arith)
reported strerror (success {c} left up) e = (c, left, refl, up)
reported strerror (failure io_done left f) e = absurd (ground arith)
reported strerror (failure io_timeout left f) e = absurd (ground arith)
reported strerror (failure io_closed left f) e = absurd (ground arith)
reported strerror (failure io_unknown left f) e = absurd (ground arith)
reported strerror (failure lsec_io_ssl left f) e = absurd (ground arith)
reported strerror (failure (io_errno n) left f) e = absurd (ground arith)

-- `dohandshake` returns true only on a connection that was not closed, and when the handshake has
-- ended with IO_DONE on a connection that is connected and whose session reports no error; whatever
-- wolfSSL, the kernel and the client do.
pub meth_handshake-IsUp :
    (strerror : IoResult → String) (P : SniParser) (rounds : List Round) (c : Ssl)
    → meth_handshake strerror P rounds c ≡ some (true, none)
    → (c.state ≢ lsec_state_closed)
      × ((c' : Ssl) × (left : List Round) × (handshake P rounds c ≡ shaken io_done c' left)
          × IsUp c')
unfolding meth_handshake handshake
meth_handshake-IsUp strerror P rounds c e =
    let (c', left, ends, up) = reported strerror (shake-Means P c.state rounds c) e in
    (
      λ closed. let other = handshake_closed P c.state rounds c closed in absurd (ground arith),
      (c', left, ends, up),
    )
