-- ===== src/Socket/Ssl/Sound/Moving.antt =====
-- What ssl_recv and ssl_send of luasocket's ssl.c make of the session: nothing.
use lilush.Common.{◌≡◌, Bool, true, false, List, [], ◌∷◌, Option, none, some, arith}
use mathlib.Core.Path.{subst}
use lilush.Socket.Io.{IoResult, io_done, io_timeout, io_closed, io_unknown, lsec_io_ssl, io_errno}
use lilush.Socket.Ssl.{
  State, lsec_state_new, lsec_state_connected, lsec_state_closed, SslError, ssl_error_none,
  ssl_error_zero_return, ssl_error_want_read, ssl_error_want_write, ssl_error_want_connect,
  ssl_error_want_accept, ssl_error_syscall, ssl_error_ssl, ssl_error_other, Ssl,
}
use lilush.Socket.Ssl.Reply.{Reply, waited}
use lilush.Socket.Ssl.Transfer.{Transfer, transfer_answer, transfer_loop, transfer}
use lilush.Socket.Ssl.Sound.{IsSound, IsSound-error}

-- A transfer that has ended, if it does, with such a connection.
pub data Moves {A : Type 0} (Q : Ssl → Type 0) : Option (Transfer A) → Type 0 where
  moving : Moves Q none
  moves : (t : Transfer A) → Q t.conn → Moves Q (some t)

pub Moves-some :
    {A : Type 0} {Q : Ssl → Type 0} {o : Option (Transfer A)} {t : Transfer A}
    → Moves Q o
    → o ≡ some t
    → Q t.conn
Moves-some moving e = absurd (ground arith)
Moves-some {A} {Q} {t = t'} (moves t q) e =
    let same : t ≡ t' = cc in subst (λ (u : Transfer A). Q u.conn) same q

module _ {A : Type 0} (nothing : A) (of : Reply → A) where
  waited-Moves :
      {Q : Ssl → Type 0} {more : Option (Transfer A)} (err : IoResult) (c : Ssl) (rest : List Reply)
      → Q c
      → Moves Q more
      → Moves Q (
          waited err
            (λ code. some (record { code = code; moved = nothing; conn = c; left = rest }))
            more)
  unfolding waited
  waited-Moves io_done c rest q more = more
  waited-Moves io_timeout c rest q more = moves _ q
  waited-Moves io_closed c rest q more = moves _ q
  waited-Moves io_unknown c rest q more = moves _ q
  waited-Moves lsec_io_ssl c rest q more = moves _ q
  waited-Moves (io_errno n) c rest q more = moves _ q

  transfer_answer-Moves :
      {Q : Ssl → Type 0} {more : Option (Transfer A)} (ends : Bool) (error : SslError)
      (reply : Reply) (c : Ssl) (rest : List Reply)
      → Q c
      → Moves Q more
      → Moves Q (transfer_answer nothing of ends error reply c rest more)
  unfolding transfer_answer
  transfer_answer-Moves ends ssl_error_none reply c rest q more = moves _ q
  transfer_answer-Moves true ssl_error_zero_return reply c rest q more = moves _ q
  transfer_answer-Moves false ssl_error_zero_return reply c rest q more = moves _ q
  transfer_answer-Moves ends ssl_error_want_read reply c rest q more =
      waited-Moves reply.wait c rest q more
  transfer_answer-Moves ends ssl_error_want_write reply c rest q more =
      waited-Moves reply.wait c rest q more
  transfer_answer-Moves ends ssl_error_syscall reply c rest q more = moves _ q
  transfer_answer-Moves ends ssl_error_want_connect reply c rest q more = moves _ q
  transfer_answer-Moves ends ssl_error_want_accept reply c rest q more = moves _ q
  transfer_answer-Moves ends ssl_error_ssl reply c rest q more = moves _ q
  transfer_answer-Moves ends (ssl_error_other n) reply c rest q more = moves _ q

  transfer_loop-Moves :
      (ends : Bool) (replies : List Reply) (c : Ssl)
      → IsSound c
      → Moves IsSound (transfer_loop nothing of ends replies c)
  unfolding transfer_loop
  transfer_loop-Moves ends [] c s = moving
  transfer_loop-Moves ends (reply ∷ rest) c s =
      transfer_answer-Moves ends reply.error reply (record c { error = reply.error }) rest
        (IsSound-error reply.error c s)
        (transfer_loop-Moves ends rest (record c { error = reply.error })
          (IsSound-error reply.error c s))

  pub transfer-Moves :
      (ends : Bool) (st : State) (replies : List Reply) (c : Ssl)
      → IsSound c
      → Moves IsSound (transfer nothing of ends st replies c)
  unfolding transfer
  transfer-Moves ends lsec_state_connected replies c s = transfer_loop-Moves ends replies c s
  transfer-Moves ends lsec_state_new replies c s = moves _ s
  transfer-Moves ends lsec_state_closed replies c s = moves _ s
