-- ===== src/Socket/Ssl/Transfer.antt =====
-- ssl_recv and ssl_send of luasocket's ssl.c, and the methods that work through the buffer.
use lilush.Common.{
  ℕ, zero, suc, Bool, true, false, Bytes, List, [], ◌∷◌, Option, none, some, if◌then◌else◌, ℤ, to_ℕ,
}
use lilush.Socket.Io.{IoResult, io_done, io_closed, io_errno, lsec_io_ssl, Answer}
use lilush.Socket.Buffer.{Pattern, Receipt, buffer_meth_receive, Sending, SendRun, buffer_meth_send}
use lilush.Socket.Ssl.{
  State, lsec_state_connected, SslError, ssl_error_none, ssl_error_zero_return, ssl_error_want_read,
  ssl_error_want_write, ssl_error_syscall, Ssl,
}
use lilush.Socket.Ssl.Reply.{Reply, waited, is_zero}

-- What a transfer ends with: its code, the bytes that have been read or the number that has been
-- written, the connection, and the replies left.
pub record Transfer (A : Type 0) : Type 0 where
  pub code : IoResult
  pub moved : A
  pub conn : Ssl
  pub left : List Reply

module _ {A : Type 0} (nothing : A) (of : Reply → A) where
  abbrev pub stop : Ssl → List Reply → IoResult → Option (Transfer A)
  stop c rest err = some (record { code = err; moved = nothing; conn = c; left = rest })

  -- `ends` says whether a clean end of the session has a code of its own.
  unfoldable pub transfer_answer :
      Bool → SslError → Reply → Ssl → List Reply → Option (Transfer A) → Option (Transfer A)
  unfolding waited
  transfer_answer ends ssl_error_none reply c rest more =
      some (record { code = io_done; moved = of reply; conn = c; left = rest })
  transfer_answer true ssl_error_zero_return reply c rest more = stop c rest io_closed
  transfer_answer ends ssl_error_want_read reply c rest more = waited reply.wait (stop c rest) more
  transfer_answer ends ssl_error_want_write reply c rest more = waited reply.wait (stop c rest) more
  transfer_answer ends ssl_error_syscall reply c rest more =
      stop c rest (if is_zero reply.ret then io_closed else io_errno reply.errno)
  transfer_answer ends _ reply c rest more = stop c rest lsec_io_ssl

  -- The loop of both; `none` while it waits.
  unfoldable pub transfer_loop : Bool → List Reply → Ssl → Option (Transfer A)
  unfolding transfer_answer
  transfer_loop ends [] c = none
  transfer_loop ends (reply ∷ rest) c =
      let c1 = record c { error = reply.error } in
      let more = transfer_loop ends rest c1 in transfer_answer ends reply.error reply c1 rest more

  unfoldable pub transfer : Bool → State → List Reply → Ssl → Option (Transfer A)
  unfolding transfer_loop
  transfer ends lsec_state_connected replies c = transfer_loop ends replies c
  transfer ends _ replies c = stop c replies io_closed

abbrev pub read_text : Reply → Bytes
read_text reply = reply.text

abbrev pub written : Reply → ℕ
written reply = to_ℕ reply.ret

-- wolfSSL_read puts `text` in the caller's array and returns its length.
unfoldable pub ssl_recv : List Reply → Ssl → Option (Transfer Bytes)
unfolding transfer
ssl_recv replies c = transfer [] read_text true c.state replies c

unfoldable pub ssl_send : List Reply → Ssl → Option (Transfer ℕ)
unfolding transfer
ssl_send replies c = transfer 0 written false c.state replies c

-- One call of ssl_recv, and those that follow.
abbrev pub next_with : (List Reply → Ssl → List Answer) → Option (Transfer Bytes) → List Answer
next_with more none = []
next_with more (some t) = record { err = t.code; got = t.moved } ∷ more t.left t.conn

-- What the first `count` calls of ssl_recv answer to the buffer.
unfoldable pub recv_answers : ℕ → List Reply → Ssl → List Answer
unfolding ssl_recv
recv_answers zero replies c = []
recv_answers (suc count) replies c = next_with (recv_answers count) (ssl_recv replies c)

-- The loops of the buffer call ssl_recv once a round at most, so `fuel` answers are enough.
unfoldable pub meth_receive : ℕ → Pattern → Bytes → List Reply → Ssl → Option Receipt
unfolding recv_answers buffer_meth_receive
meth_receive fuel pattern part replies c =
    buffer_meth_receive fuel pattern part c.buf (recv_answers fuel replies c)

-- One call of ssl_send, and those that follow.
abbrev pub send_next : (List Reply → Ssl → List Sending) → Option (Transfer ℕ) → List Sending
send_next more none = []
send_next more (some t) = record { code = t.code; taken = t.moved } ∷ more t.left t.conn

-- What the first `count` calls of ssl_send answer to the buffer.
unfoldable pub send_answers : ℕ → List Reply → Ssl → List Sending
unfolding ssl_send
send_answers zero replies c = []
send_answers (suc count) replies c = send_next (send_answers count) (ssl_send replies c)

-- `count` bounds the calls of ssl_send.
unfoldable pub meth_send : ℕ → Bytes → ℤ → ℤ → List Reply → Ssl → Option SendRun
unfolding send_answers buffer_meth_send
meth_send count text i j replies c = buffer_meth_send text i j c.buf (send_answers count replies c)
