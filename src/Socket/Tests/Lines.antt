-- ===== src/Socket/Tests/Lines.antt =====
-- Two lines that go over a TLS connection of luasocket's ssl.c in two parts.
use lilush.Common.{◌≡◌, refl, Bytes, List, [], ◌∷◌, some, pos, negsuc, arith}
use lilush.Socket.Buffer.Lines.{unlines, receive_lines}
use lilush.Socket.Ssl.{lsec_state_connected, Ssl}
use lilush.Socket.Ssl.Reply.{Reply}
use lilush.Socket.Ssl.Transfer.{recv_answers, meth_send}
use lilush.Socket.Ssl.Receive.{Delivers}
use lilush.Socket.Ssl.Send.{Accepts}
use lilush.Socket.Ssl.Lines.{wire_of, receive_lines-meth_send}
use lilush.Socket.Tests.Connections.{
  server, fresh_server, wants_read, wants_read-Wants, has_read, has_written,
}

-- "a" and an empty line.
abbrev two_lines : List Bytes
two_lines = (b'a' ∷ []) ∷ [] ∷ []

abbrev gives_text : Bytes → Reply
gives_text s = record has_read { text = s }

abbrev receiver : Ssl
receiver = record fresh_server { state = lsec_state_connected }

abbrev sent : List Reply
sent = has_written 1 ∷ wants_read ∷ has_written 2 ∷ []

abbrev received : List Reply
received = wants_read ∷ gives_text (b'a' ∷ 10 ∷ []) ∷ gives_text (10 ∷ []) ∷ []

sent-Accepts : Accepts (unlines two_lines) sent
unfolding unlines
sent-Accepts = Accepts.writes _ (has_written 1) _ refl (omega arith) (
    Accepts.waits _ wants_read _ wants_read-Wants
      (Accepts.writes _ (has_written 2) _ refl (omega arith) (Accepts.all [])))

received-Delivers :
    Delivers received (wire_of (meth_send 3 (unlines two_lines) (pos 1) (negsuc 0) sent server))
unfolding meth_send unlines
received-Delivers = Delivers.waits wants_read wants_read-Wants (
    Delivers.reads (gives_text (b'a' ∷ 10 ∷ [])) refl
      (Delivers.reads (gives_text (10 ∷ [])) refl Delivers.all))

receive_lines-meth_send_example :
    receive_lines 5 2 receiver.buf (recv_answers 5 received receiver) ≡ some two_lines
receive_lines-meth_send_example =
    receive_lines-meth_send 3 5 two_lines sent received server receiver ((refl, refl, tt), (tt, tt))
      refl sent-Accepts (omega arith) refl (omega arith) refl received-Delivers (omega arith)
