-- ===== src/Socket/Ssl/Receive.antt =====
-- `receive` on a TLS connection: the buffer over ssl_recv.
use lilush.Common.{
  ℕ, zero, suc, ◌+◌, ◌-◌, ◌≤◌, ◌<◌, ◌≡◌, refl, sym, ap, ◌∙◌, true, Bytes, List, [], ◌∷◌, ◌++◌,
  Option, none, some, length, arith,
}
use mathlib.Core.Path.{subst}
use lilush.Socket.Io.{io_done, is_done, Answer}
use lilush.Socket.Buffer.{Buffer, stored, a_line, a_number, buffer_meth_receive}
use lilush.Socket.Buffer.Stream.{delivered, stream, AllDone, IsValid, rounds}
use lilush.Socket.Buffer.Receive.{IsExact}
use lilush.Socket.Buffer.Returns.{Returns, buffer_meth_receive-IsExact}
use lilush.Socket.Buffer.Line.{IsLine, buffer_meth_receive-IsLine}
use lilush.Socket.Buffer.Line.Text.{has_lf}
use lilush.Socket.Ssl.{lsec_state_connected, ssl_error_none, Ssl}
use lilush.Socket.Ssl.Reply.{Reply, waited}
use lilush.Socket.Ssl.Rounds.{Wants}
use lilush.Socket.Ssl.Waits.{transfer_answer-Wants, transfer_open}
use lilush.Socket.Ssl.Transfer.{
  Transfer, read_text, transfer_answer, transfer_loop, ssl_recv, next_with, recv_answers,
  meth_receive,
}

-- The session gives these bytes, with waits between them that end in time.
pub data Delivers : List Reply → Bytes → Type 0 where
  all : Delivers [] []
  reads :
      (reply : Reply) {rest : List Reply} {s : Bytes}
      → reply.error ≡ ssl_error_none
      → Delivers rest s
      → Delivers (reply ∷ rest) (reply.text ++ s)
  waits :
      (reply : Reply) {rest : List Reply} {s : Bytes}
      → Wants reply
      → Delivers rest s
      → Delivers (reply ∷ rest) s

-- What one call of ssl_recv makes of them.
data Got (s : Bytes) (n : ℕ) : Option (Transfer Bytes) → Type 0 where
  dry : s ≡ [] → Got s n none
  got :
      (t : Transfer Bytes) {left : Bytes}
      → t.code ≡ io_done
      → t.moved ++ left ≡ s
      → Delivers t.left left
      → Ssl.state t.conn ≡ lsec_state_connected
      → length t.left < n
      → Got s n (some t)

Got-suc : {s : Bytes} {n : ℕ} {o : Option (Transfer Bytes)} → Got s n o → Got s (suc n) o
Got-suc (dry e) = dry e
Got-suc (got t d e more c l) = got t d e more c (omega arith)

transfer_loop-Got :
    {replies : List Reply} {s : Bytes} (c : Ssl)
    → c.state ≡ lsec_state_connected
    → Delivers replies s
    → Got s (length replies) (transfer_loop [] read_text true replies c)
unfolding transfer_loop transfer_answer waited
transfer_loop-Got c open_ all = dry refl
transfer_loop-Got c open_ (reads reply e more) =
    rw (e, transfer_answer) (got _ refl refl more open_ (omega arith))
transfer_loop-Got c open_ (waits reply w more) =
    rw (transfer_answer-Wants [] read_text true reply (record c { error = reply.error }) _ _ w)
      (Got-suc (transfer_loop-Got (record c { error = reply.error }) open_ more))

ssl_recv-Got :
    {replies : List Reply} {s : Bytes} (c : Ssl)
    → c.state ≡ lsec_state_connected
    → Delivers replies s
    → Got s (length replies) (ssl_recv replies c)
unfolding ssl_recv
ssl_recv-Got {replies} c open_ d =
    rw (transfer_open [] read_text true c.state replies c open_) (transfer_loop-Got c open_ d)

-- The answers that the buffer gets.
pub record IsAnswers (replies : List Reply) (s : Bytes) (answers : List Answer) : Type 0 where
  pub done : AllDone answers
  pub gives : delivered answers ≡ s
  pub bounded : length answers ≤ length replies

answer_step :
    {replies : List Reply} {s : Bytes} {o : Option (Transfer Bytes)} (count : ℕ)
    → Got s (length replies) o
    → length replies ≤ suc count
    → ((t : Transfer Bytes) (left : Bytes)
        → Delivers t.left left
        → Ssl.state t.conn ≡ lsec_state_connected
        → length t.left ≤ count
        → IsAnswers t.left left (recv_answers count t.left t.conn))
    → IsAnswers replies s (next_with (recv_answers count) o)
answer_step count (dry e) l f = record { done = tt; gives = sym e; bounded = omega arith }
answer_step count (got t {left} d e more c n) l f =
    let rest = f t left more c (omega arith) in
    record {
      done = (ap is_done d, rest.done);
      gives = ap (λ b. t.moved ++ b) rest.gives ∙ e;
      bounded = omega (arith, rest.bounded);
    }

pub recv_answers-IsAnswers :
    (count : ℕ) (replies : List Reply) (s : Bytes) (c : Ssl)
    → Delivers replies s
    → c.state ≡ lsec_state_connected
    → length replies ≤ count
    → IsAnswers replies s (recv_answers count replies c)
unfolding recv_answers
recv_answers-IsAnswers zero [] s c all open_ l = record {
  done = tt;
  gives = refl;
  bounded = omega arith;
}
recv_answers-IsAnswers zero (reply ∷ rest) s c d open_ l = absurd (omega arith)
recv_answers-IsAnswers (suc count) replies s c d open_ l =
    answer_step count (ssl_recv-Got c open_ d) l
      (λ t left more open1 n. recv_answers-IsAnswers count t.left left t.conn more open1 n)

pub rounds-le : (b : Buffer) (answers : List Answer) → rounds b answers ≤ length answers + 1
rounds-le b answers = ground arith

module _ {replies : List Reply} {s : Bytes} (fuel : ℕ) (part : Bytes) (c : Ssl)
    (buffered : IsValid c.buf) (open_ : c.state ≡ lsec_state_connected)
    (replied : Delivers replies s) (enough : length replies + 1 < fuel) where
  -- `receive("*l")` over TLS, on a connected connection whose session gives `s`, with waits that end in
  -- time, when there is a newline in what the buffer has and `s`: it returns the first line of the two
  -- without its carriage returns.
  pub meth_receive-IsLine :
      has_lf (stored c.buf ++ s) ≡ true
      → Returns (IsLine part (stored c.buf ++ s)) (meth_receive fuel a_line part replies c)
  unfolding meth_receive
  meth_receive-IsLine newline =
      let a = recv_answers-IsAnswers fuel replies s c replied open_ (omega arith) in
      let same : stream c.buf (recv_answers fuel replies c) ≡ stored c.buf ++ s =
        ap (λ d. stored c.buf ++ d) a.gives in
      subst
        (λ d.
          Returns (IsLine part d)
            (buffer_meth_receive fuel a_line part c.buf (recv_answers fuel replies c)))
        same
        (buffer_meth_receive-IsLine fuel part c.buf (recv_answers fuel replies c) buffered a.done
          (ap has_lf same ∙ newline)
          (omega (arith, a.bounded, rounds-le c.buf (recv_answers fuel replies c))))

  -- `receive(n)` over TLS, on such a connection, when there are enough bytes in the buffer and `s`.
  pub meth_receive-IsExact :
      (wanted : ℕ)
      → length part < wanted
      → wanted ≤ length part + length (stored c.buf ++ s)
      → Returns
          (IsExact (wanted - length part) part (stored c.buf ++ s))
          (meth_receive fuel (a_number wanted) part replies c)
  unfolding meth_receive
  meth_receive-IsExact wanted more l =
      let a = recv_answers-IsAnswers fuel replies s c replied open_ (omega arith) in
      let same : stream c.buf (recv_answers fuel replies c) ≡ stored c.buf ++ s =
        ap (λ d. stored c.buf ++ d) a.gives in
      subst
        (λ d.
          Returns (IsExact (wanted - length part) part d)
            (buffer_meth_receive fuel (a_number wanted) part c.buf (recv_answers fuel replies c)))
        same
        (buffer_meth_receive-IsExact fuel wanted part c.buf (recv_answers fuel replies c) buffered
          more (omega (arith, l, ap length same))
          (omega (arith, a.bounded, rounds-le c.buf (recv_answers fuel replies c))))
