-- ===== src/Socket/Ssl/Lines.antt =====
-- Lines that one TLS connection of luasocket's ssl.c sends and another receives.
use lilush.Common.{
  ℕ, ◌+◌, ◌-◌, ◌≤◌, ◌<◌, ◌≡◌, sym, ap, ◌∙◌, Bytes, List, [], ◌++◌, append-nil, Option, none, some,
  length, take, drop, pos, negsuc, arith,
}
use mathlib.Core.Path.{subst}
use lilush.Socket.Buffer.{stored, last_index, SendRun}
use lilush.Socket.Buffer.Stream.{IsValid, delivered, take_all}
use lilush.Socket.Buffer.Lines.{unlines, AllPlain, receive_lines, receive_lines-all}
use lilush.Socket.Buffer.Send.{Sends, sends, IsAllSent}
use lilush.Socket.Buffer.Send.Range.{picked-slice}
use lilush.Socket.Ssl.{lsec_state_connected, Ssl}
use lilush.Socket.Ssl.Reply.{Reply}
use lilush.Socket.Ssl.Transfer.{recv_answers, meth_send}
use lilush.Socket.Ssl.Receive.{Delivers, recv_answers-IsAnswers, rounds-le}
use lilush.Socket.Ssl.Send.{Accepts, meth_send-IsAllSent}

-- What a call of `send` has given to the session.
abbrev pub wire_of : Option SendRun → Bytes
wire_of none = []
wire_of (some r) = r.outcome.wire

-- `send(text)` means the whole text.
whole_slice :
    (text : Bytes) → take (last_index (length text) (negsuc 0) + 1 - 1) (drop (1 - 1) text) ≡ text
whole_slice text = take_all _ text (omega arith)

wire-all :
    {text : Bytes} {o : Option SendRun} (c : Ssl)
    → Sends (IsAllSent text (pos 1) (negsuc 0) c.buf) o
    → wire_of o ≡ text
wire-all {text} c (sends r s) = s.wired ∙ picked-slice (pos 1) (negsuc 0) text ∙ whole_slice text

-- `send(text)` on a connected connection whose session takes what it is offered gives it the text.
meth_send-wire :
    (count : ℕ) (text : Bytes) (replies : List Reply) (c : Ssl)
    → c.state ≡ lsec_state_connected
    → Accepts text replies
    → length replies ≤ count
    → wire_of (meth_send count text (pos 1) (negsuc 0) replies c) ≡ text
meth_send-wire count text replies c open_ a l = wire-all c (
    meth_send-IsAllSent count text (pos 1) (negsuc 0) replies c open_
      (subst (λ t. Accepts t replies) (sym (whole_slice text)) a) l)

-- Lines without a newline or a carriage return, sent in one text on a connection whose session takes
-- what it is offered, in parts and with waits that end in time, and received on another connection with
-- an empty buffer, whose session gives exactly the bytes that the first one took, in whatever parts and
-- with whatever waits: as many calls of receive("*l") return these lines, in their order, each whole.
pub receive_lines-meth_send :
    (count fuel : ℕ) (lines : List Bytes) (sent received : List Reply) (sender receiver : Ssl)
    → AllPlain lines
    → Ssl.state sender ≡ lsec_state_connected
    → Accepts (unlines lines) sent
    → length sent ≤ count
    → Ssl.state receiver ≡ lsec_state_connected
    → IsValid (Ssl.buf receiver)
    → stored (Ssl.buf receiver) ≡ []
    → Delivers received (wire_of (meth_send count (unlines lines) (pos 1) (negsuc 0) sent sender))
    → length received + 1 < fuel
    → receive_lines fuel (length lines) (Ssl.buf receiver) (recv_answers fuel received receiver)
      ≡ some lines
receive_lines-meth_send count fuel lines sent received sender receiver plain open_ a l open1 v e d
      n =
    let answers = recv_answers-IsAnswers fuel received _ receiver d open1 (omega arith) in
    receive_lines-all fuel lines [] receiver.buf (recv_answers fuel received receiver) v
      answers.done plain
      (ap (λ t. t ++ delivered (recv_answers fuel received receiver)) e
        ∙ answers.gives
        ∙ meth_send-wire count (unlines lines) sent sender open_ a l
        ∙ sym (append-nil (unlines lines)))
      (omega (arith, answers.bounded, rounds-le receiver.buf (recv_answers fuel received receiver)))
