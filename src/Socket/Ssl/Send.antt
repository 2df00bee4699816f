-- ===== src/Socket/Ssl/Send.antt =====
-- `send` on a TLS connection: the buffer over ssl_send.
use lilush.Common.{
  ℕ, zero, suc, ◌+◌, ◌-◌, ◌≤◌, ◌<◌, ◌≡◌, refl, true, false, Bytes, List, [], ◌∷◌, Option, some,
  length, take, drop, ℤ, to_ℕ, arith,
}
use lilush.Socket.Io.{is_done}
use lilush.Socket.Buffer.{step_size, first_index, last_index}
use lilush.Socket.Buffer.Send.Taken.{TakesAll, nothing_left, takes}
use lilush.Socket.Buffer.Send.{Sends, IsAllSent, buffer_meth_send-IsAllSent}
use lilush.Socket.Ssl.{lsec_state_connected, ssl_error_none, Ssl}
use lilush.Socket.Ssl.Reply.{Reply}
use lilush.Socket.Ssl.Rounds.{Wants}
use lilush.Socket.Ssl.Waits.{transfer_answer-Wants, transfer_open}
use lilush.Socket.Ssl.Transfer.{
  Transfer, written, transfer_answer, transfer_loop, ssl_send, send_next, send_answers, meth_send,
}

-- The session takes the text, in parts that are no longer than what it is offered and with waits
-- between them that end in time.
pub data Accepts : Bytes → List Reply → Type 0 where
  all : (replies : List Reply) → Accepts [] replies
  writes :
      (text : Bytes) (reply : Reply) (rest : List Reply)
      → reply.error ≡ ssl_error_none
      → to_ℕ reply.ret ≤ length (take step_size text)
      → Accepts (drop (to_ℕ reply.ret) text) rest
      → Accepts text (reply ∷ rest)
  waits :
      (text : Bytes) (reply : Reply) (rest : List Reply)
      → Wants reply
      → Accepts text rest
      → Accepts text (reply ∷ rest)

-- What one call of ssl_send makes of them.
data Put (text : Bytes) (n : ℕ) : Option (Transfer ℕ) → Type 0 where
  put :
      (t : Transfer ℕ)
      → is_done t.code ≡ true
      → t.moved ≤ length (take step_size text)
      → Accepts (drop t.moved text) t.left
      → Ssl.state t.conn ≡ lsec_state_connected
      → length t.left < n
      → Put text n (some t)

Put-suc : {text : Bytes} {n : ℕ} {o : Option (Transfer ℕ)} → Put text n o → Put text (suc n) o
Put-suc (put t d m more c l) = put t d m more c (omega arith)

transfer_loop-Put :
    {text : Bytes} {replies : List Reply} (c : Ssl)
    → c.state ≡ lsec_state_connected
    → 0 < length text
    → Accepts text replies
    → Put text (length replies) (transfer_loop 0 written false replies c)
unfolding transfer_loop transfer_answer
transfer_loop-Put c open_ p (all replies) = absurd (omega arith)
transfer_loop-Put c open_ p (writes text reply rest e m more) =
    rw (e, transfer_answer) (put _ refl m more open_ (omega arith))
transfer_loop-Put c open_ p (waits text reply rest w more) =
    rw (transfer_answer-Wants 0 written false reply (record c { error = reply.error }) _ _ w)
      (Put-suc (transfer_loop-Put (record c { error = reply.error }) open_ p more))

ssl_send-Put :
    {text : Bytes} (replies : List Reply) (c : Ssl)
    → c.state ≡ lsec_state_connected
    → 0 < length text
    → Accepts text replies
    → Put text (length replies) (ssl_send replies c)
unfolding ssl_send
ssl_send-Put replies c open_ p a =
    rw (transfer_open 0 written false c.state replies c open_) (transfer_loop-Put c open_ p a)

send_step :
    {text : Bytes} {n : ℕ} {o : Option (Transfer ℕ)} (count : ℕ)
    → Put text n o
    → n ≤ suc count
    → ((t : Transfer ℕ)
        → Accepts (drop t.moved text) t.left
        → Ssl.state t.conn ≡ lsec_state_connected
        → length t.left ≤ count
        → TakesAll (drop t.moved text) (send_answers count t.left t.conn))
    → TakesAll text (send_next (send_answers count) o)
send_step count (put t d m more c l) n f = takes _ _ _ m d (f t more c (omega arith))

send_answers-TakesAll :
    (count : ℕ) (text : Bytes) (replies : List Reply) (c : Ssl)
    → Accepts text replies
    → c.state ≡ lsec_state_connected
    → length replies ≤ count
    → TakesAll text (send_answers count replies c)
unfolding send_answers
send_answers-TakesAll count [] replies c a open_ l = nothing_left _
send_answers-TakesAll zero (x ∷ xs) (reply ∷ rest) c a open_ l = absurd (omega arith)
send_answers-TakesAll zero (x ∷ xs) [] c a open_ l = elim a [ ]
send_answers-TakesAll (suc count) (x ∷ xs) replies c a open_ l =
    send_step count (ssl_send-Put replies c open_ (omega arith) a) l (λ t more open1 n.
      send_answers-TakesAll count (drop t.moved (x ∷ xs)) t.left t.conn more open1 n)

-- `send(text, i, j)` over TLS, on a connected connection whose session takes what it is offered, in
-- parts and with waits that end in time: it returns with IO_DONE and has sent the bytes from `i` to
-- `j`, an index below 0 counting from the end, each once and in their order, and has counted them.
pub meth_send-IsAllSent :
    (count : ℕ) (text : Bytes) (i j : ℤ) (replies : List Reply) (c : Ssl)
    → c.state ≡ lsec_state_connected
    → Accepts
        (take
          (last_index (length text) j + 1 - first_index (length text) i)
          (drop (first_index (length text) i - 1) text))
        replies
    → length replies ≤ count
    → Sends (IsAllSent text i j c.buf) (meth_send count text i j replies c)
unfolding meth_send
meth_send-IsAllSent count text i j replies c open_ a l =
    buffer_meth_send-IsAllSent text i j c.buf (send_answers count replies c)
      (send_answers-TakesAll count _ replies c a open_ l)
