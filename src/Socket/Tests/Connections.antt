-- ===== src/Socket/Tests/Connections.antt =====
-- The theorems on TLS connections of luasocket's ssl.c at concrete inputs.
use lilush.Common.{
  ℕ, ◌≡◌, ◌≢◌, refl, inl, true, false, List, [], ◌∷◌, ◌++◌, none, some, pos, negsuc, ok, String,
  arith,
}
use lilush.Socket.Io.{IoResult, io_done}
use lilush.Socket.Buffer.{stored, a_line}
use lilush.Socket.Buffer.Returns.{Returns}
use lilush.Socket.Buffer.Line.{IsLine}
use lilush.Socket.Buffer.Line.Text.{has_lf}
use lilush.Socket.Buffer.Send.{IsAllSent, Sends}
use lilush.Socket.Sni.Choice.{Chosen}
use lilush.Socket.Ssl.{
  lsec_state_new, lsec_state_connected, lsec_state_closed, lsec_mode_server, ssl_error_none,
  ssl_error_want_read, unset, number, Ssl, meth_create, meth_setfd, meth_want, meth_add_sni_context,
  meth_destroy, no_limit,
}
use lilush.Socket.Ssl.Reply.{Reply}
use lilush.Socket.Ssl.Handshake.{Round, shaken, handshake, meth_handshake}
use lilush.Socket.Ssl.Transfer.{meth_receive, meth_send}
use lilush.Socket.Ssl.Sound.{IsSound, IsGone}
use lilush.Socket.Ssl.Reach.{Step, Reach, Reach-IsSound, meth_destroy-once}
use lilush.Socket.Sni.{SniEntry, check_client_sni}
use lilush.Socket.Ssl.Rounds.{
  Wants, no_context, new_session, Completes, Continues, finished, renew_all,
}
use lilush.Socket.Ssl.Serve.{for_context, handshake-Continues, handshake-serves}
use lilush.Socket.Ssl.Receive.{Delivers, meth_receive-IsLine}
use lilush.Socket.Ssl.Success.{IsUp, meth_handshake-IsUp}
use lilush.Socket.Ssl.Send.{Accepts, meth_send-IsAllSent}
use lilush.Socket.Tests.{
  two_bytes, four_letters, parser, short_hello, name_ab, short_hello-Hello, entry_b,
}

abbrev pub server : Ssl
server = record {
  sock = number (pos 7);
  buf = two_bytes;
  ssl = some (record { id = 1; ctx = 0 });
  state = lsec_state_connected;
  error = ssl_error_none;
  mode = lsec_mode_server;
  sni_contexts = some (entry_b ∷ []);
  created = 1 ∷ [];
  freed = [];
  closes = [];
  tm = record { block = no_limit; total = no_limit };
  shutdowns = 0;
}

abbrev pub wants_read : Reply
wants_read = record {
  ret = negsuc 0;
  error = ssl_error_want_read;
  wait = io_done;
  errno = 0;
  text = [];
}

abbrev pub has_read : Reply
has_read = record {
  ret = pos 2;
  error = ssl_error_none;
  wait = io_done;
  errno = 0;
  text = b'c' ∷ (10 ∷ []);
}

pub wants_read-Wants : Wants wants_read
wants_read-Wants = record { wants = inl refl; ready = refl }

-- Behind the first round: the client's application data, then nothing.
abbrev quiet_rounds : List Round
quiet_rounds =
    record { peeked = 23 ∷ (3 ∷ (3 ∷ (0 ∷ (1 ∷ (9 ∷ []))))); fresh = none; reply = wants_read }
    ∷ (record { peeked = []; fresh = none; reply = has_read } ∷ [])

quiet_rounds-Continues :
    (first : SniEntry) (rest : List SniEntry)
    → Continues parser lsec_mode_server (pos 7) (some (first ∷ rest)) quiet_rounds [] []
unfolding check_client_sni
quiet_rounds-Continues first rest =
    Continues.continues _ (no_context refl)
      (Completes.waits _ wants_read-Wants
        (Continues.continues _ (no_context refl) (Completes.completed _ _ refl) refl))
      refl

abbrev no_text : IoResult → String
no_text err = ""

handshake-Continues_example :
    (handshake parser quiet_rounds server ≡ shaken io_done (finished server) [])
    × (meth_handshake no_text parser quiet_rounds server ≡ some (true, none))
handshake-Continues_example =
    handshake-Continues parser no_text server (λ e. cc e) refl (quiet_rounds-Continues entry_b [])

abbrev hello_round : Round
hello_round = record { peeked = short_hello ++ []; fresh = some 2; reply = wants_read }

-- A second ClientHello, for which a session is made again.
abbrev second_round : Round
second_round = record { peeked = short_hello ++ []; fresh = some 3; reply = wants_read }

second_round-Continues :
    Continues parser lsec_mode_server
      (pos 7)
      (some (entry_b ∷ (record { servername = name_ab; ctx = 5 } ∷ [])))
      (second_round ∷ quiet_rounds)
      []
      (for_context 5 (3 ∷ []))
unfolding check_client_sni
second_round-Continues =
    Continues.continues second_round (new_session {id = 3} {ctx = 5} refl refl refl refl)
      (Completes.waits _ wants_read-Wants (quiet_rounds-Continues entry_b _)) refl

handshake-serves_example :
    (handshake parser
        (hello_round ∷ (second_round ∷ quiet_rounds))
        (meth_add_sni_context true true name_ab 5 server).0
      ≡ shaken io_done
          (finished (
            renew_all
              (for_context 5 (2 ∷ (3 ∷ [])))
              (meth_add_sni_context true true name_ab 5 server).0))
          [])
    × ((renew_all
          (for_context 5 (2 ∷ (3 ∷ [])))
          (meth_add_sni_context true true name_ab 5 server).0).ssl
        ≡ some (record { id = 3; ctx = 5 }))
    × ((renew_all
          (for_context 5 (2 ∷ (3 ∷ [])))
          (meth_add_sni_context true true name_ab 5 server).0).freed
        ≡ 1 ∷ (2 ∷ []))
unfolding meth_add_sni_context
handshake-serves_example =
    handshake-serves parser {name = name_ab} (3 ∷ []) name_ab hello_round server (λ e. cc e) refl
      refl refl (Chosen.there entry_b [] (λ e. cc e) Chosen.nobody) refl (short_hello-Hello []) refl
      (omega arith) (omega arith) refl (Completes.waits _ wants_read-Wants second_round-Continues)

quiet_rounds_end : meth_handshake no_text parser quiet_rounds server ≡ some (true, none)
unfolding meth_handshake
quiet_rounds_end = refl

meth_handshake-IsUp_example :
    (server.state ≢ lsec_state_closed)
    × ((c : Ssl) × (left : List Round) × (handshake parser quiet_rounds server
          ≡ shaken io_done c left)
        × IsUp c)
meth_handshake-IsUp_example =
    meth_handshake-IsUp no_text parser quiet_rounds server quiet_rounds_end

-- A server's connection with no descriptor yet.
abbrev pub fresh_server : Ssl
fresh_server = record server {
  sock = unset;
  buf = record two_bytes { first = 0; last = 0 };
  state = lsec_state_new;
  sni_contexts = some [];
  ssl = some (record { id = 1; ctx = 9 });
}

fresh_server-made :
    meth_create
      (some 9)
      lsec_mode_server
      (some 1)
      true
      (0 ∷ (b'a' ∷ (b'b' ∷ (0 ∷ []))))
      ssl_error_none
    ≡ ok fresh_server
unfolding meth_create
fresh_server-made = refl

fresh_server-Reach : Reach parser fresh_server
fresh_server-Reach =
    Reach.made (some 9) lsec_mode_server (some 1) true _ ssl_error_none fresh_server-made

Reach-IsSound_example : IsSound (meth_destroy fresh_server)
Reach-IsSound_example = Reach-IsSound (Reach.next fresh_server-Reach (Step.destroyed fresh_server))

meth_destroy-once_example :
    IsGone (meth_destroy fresh_server)
    × (meth_destroy (meth_destroy fresh_server) ≡ meth_destroy fresh_server)
meth_destroy-once_example = meth_destroy-once fresh_server-Reach

meth_receive-IsLine_example :
    Returns
      (IsLine [] (stored server.buf ++ (b'c' ∷ (10 ∷ []))))
      (meth_receive 4 a_line [] (wants_read ∷ (has_read ∷ [])) server)
unfolding has_lf
meth_receive-IsLine_example =
    meth_receive-IsLine 4 [] server (omega arith) refl
      (Delivers.waits wants_read wants_read-Wants (Delivers.reads has_read refl Delivers.all))
      (omega arith) refl

abbrev pub has_written : ℕ → Reply
has_written n = record { ret = pos n; error = ssl_error_none; wait = io_done; errno = 0; text = [] }

meth_send-IsAllSent_example : Sends (IsAllSent four_letters (negsuc 2) (pos 9) server.buf) (
    meth_send 3 four_letters
      (negsuc 2)
      (pos 9)
      (wants_read ∷ (has_written 1 ∷ (has_written 2 ∷ [])))
      server)
meth_send-IsAllSent_example =
    meth_send-IsAllSent 3 four_letters (negsuc 2) (pos 9)
      (wants_read ∷ (has_written 1 ∷ (has_written 2 ∷ []))) server refl
      (Accepts.waits _ wants_read _ wants_read-Wants (
        Accepts.writes _ (has_written 1) _ refl (omega arith)
          (Accepts.writes _ (has_written 2) _ refl (omega arith) (Accepts.all []))))
      (omega arith)

-- An open connection that wants nothing, and a descriptor that is set too late.
want_idle : meth_want (λ session. false) server ≡ "write"
unfolding meth_want
want_idle = refl

setfd_twice : meth_setfd (pos 8) true server ≡ (server, some "invalid SSL object state")
unfolding meth_setfd
setfd_twice = refl
