-- ===== src/Socket/Tests.antt =====
-- Runs of the buffer and of the TLS connections, and the theorems at concrete inputs.
mod Connections
mod Lines
use lilush.Common.{
  replicate, length-replicate, ℕ, ◌≡◌, ◌≢◌, ◌↔◌, refl, inl, true, false, Bytes, List, [], ◌∷◌, ◌++◌,
  Option, none, some, length, drop, ltb, pos, negsuc, ok, fault, String, arith,
}
use lilush.Socket.Io.{IoResult, io_done, io_closed, Answer}
use lilush.Socket.Buffer.{
  Buffer, stored, a_line, buffer_init, everything, a_number, buffer_meth_receive, Receipt, Sending,
  SendRun, buffer_meth_send,
}
use lilush.Socket.Buffer.Stream.{stream}
use lilush.Socket.Buffer.Receive.{IsExact}
use lilush.Socket.Buffer.Bounds.{IsInside, buffer_init-IsBounded, buffer_meth_receive-IsInside}
use lilush.Socket.Buffer.Receive.{Ends}
use lilush.Socket.Buffer.Returns.{Returns, buffer_meth_receive-IsExact}
use lilush.Socket.Buffer.All.{IsAll, buffer_meth_receive-everything}
use lilush.Socket.Buffer.Line.{IsLine}
use lilush.Socket.Buffer.Line.Text.{has_lf}
use lilush.Socket.Buffer.Send.Taken.{Takes}
use lilush.Socket.Buffer.Send.{IsAllSent, Sends, IsSent, buffer_meth_send-IsSent}
use lilush.Socket.Sni.{SniEntry, SniParser, check_client_sni}
use lilush.Socket.Sni.Choice.{Hello, Chosen, check_client_sni-Chosen}
use lilush.Socket.Ssl.{
  lsec_state_new, lsec_state_connected, lsec_state_closed, lsec_mode_server, ssl_error_none,
  ssl_error_want_read, unset, number, Ssl, meth_create, meth_setfd, meth_want, meth_add_sni_context,
  meth_destroy, no_limit,
}
use lilush.Socket.Ssl.Reply.{Reply}
use lilush.Socket.Ssl.Handshake.{Round, shaken, handshake, meth_handshake}
use lilush.Socket.Ssl.Transfer.{meth_receive, meth_send}
use lilush.Socket.Ssl.Sound.{IsSound, IsGone}
use lilush.Socket.Ssl.Reach.{Step, Reach, Reach-IsSound, meth_destroy-once}
use lilush.Socket.Ssl.Receive.{Delivers, meth_receive-IsLine}
use lilush.Socket.Ssl.Success.{IsUp, meth_handshake-IsUp}
use lilush.Socket.Ssl.Send.{Accepts, meth_send-IsAllSent}
use lilush.Socket.Context.{Context, Tls, accepted, refused, undefined, load_locations, by_default}
use lilush.Socket.Context.Locations.{OwnLoads, OwnFails, CaLoads, CaFails, load_locations-accepted}

-- Two bytes, "ab", in an array of four.
abbrev two_bytes : Buffer
two_bytes = record {
  first = 1;
  last = 3;
  bytes = 0 ∷ (b'a' ∷ (b'b' ∷ (0 ∷ [])));
  received = 0;
  sent = 0;
}

-- The transport gives "c", CR, LF and "d".
abbrev more_bytes : List Answer
more_bytes = record { err = io_done; got = b'c' ∷ (13 ∷ (10 ∷ (b'd' ∷ []))) } ∷ []

abbrev end_of_stream : Answer
end_of_stream = record { err = io_closed; got = [] }

abbrev line_text : Option Receipt → Bytes
line_text none = []
line_text (some r) = r.text

receive_line :
    line_text (buffer_meth_receive 4 a_line [] two_bytes more_bytes) ≡ b'a' ∷ (b'b' ∷ (b'c' ∷ []))
unfolding buffer_meth_receive
receive_line = refl

receive_three :
    line_text (buffer_meth_receive 4 (a_number 3) [] two_bytes more_bytes)
    ≡ b'a' ∷ (b'b' ∷ (b'c' ∷ []))
unfolding buffer_meth_receive
receive_three = refl

buffer_meth_receive-IsExact_example :
    Returns
      (IsExact 3 [] (stream two_bytes more_bytes))
      (buffer_meth_receive 4 (a_number 3) [] two_bytes more_bytes)
buffer_meth_receive-IsExact_example =
    buffer_meth_receive-IsExact 4 3 [] two_bytes more_bytes (omega arith) (omega arith)
      (omega arith) (omega arith)

buffer_meth_receive-everything_example :
    Returns
      (IsAll io_done (b'a' ∷ (b'b' ∷ (b'c' ∷ (13 ∷ (10 ∷ (b'd' ∷ [])))))) [])
      (buffer_meth_receive 5 everything [] two_bytes (more_bytes ++ end_of_stream ∷ []))
buffer_meth_receive-everything_example =
    buffer_meth_receive-everything 5 [] two_bytes more_bytes [] end_of_stream (omega arith)
      (refl, tt) refl (omega arith)

abbrev zeros : Bytes
zeros = replicate 8192 0

buffer_meth_receive-IsInside_example :
    Ends IsInside (buffer_meth_receive 4 a_line [] (buffer_init zeros) more_bytes)
buffer_meth_receive-IsInside_example =
    buffer_meth_receive-IsInside 4 a_line [] (buffer_init zeros) more_bytes
      (buffer_init-IsBounded zeros (length-replicate {A = ℕ} 8192 0)) (omega arith, tt)

-- The transport takes one byte, then the rest.
abbrev two_takes : List Sending
two_takes = record { code = io_done; taken = 1 } ∷ (record { code = io_done; taken = 2 } ∷ [])

abbrev four_letters : Bytes
four_letters = b'a' ∷ (b'b' ∷ (b'c' ∷ (b'd' ∷ [])))

abbrev wire_of : Option SendRun → Bytes
wire_of none = []
wire_of (some r) = r.outcome.wire

send_last_three :
    wire_of (buffer_meth_send four_letters (negsuc 2) (pos 9) two_bytes two_takes)
    ≡ b'b' ∷ (b'c' ∷ (b'd' ∷ []))
unfolding buffer_meth_send
send_last_three = refl

buffer_meth_send-IsSent_example :
    Sends
      (IsSent four_letters (negsuc 2) (pos 9) two_bytes)
      (buffer_meth_send four_letters (negsuc 2) (pos 9) two_bytes two_takes)
buffer_meth_send-IsSent_example =
    buffer_meth_send-IsSent four_letters (negsuc 2) (pos 9) two_bytes two_takes
      (Takes.goes _ _ _ (omega arith) refl (Takes.goes _ _ _ (omega arith) refl (Takes.nothing [])))

-- The name is what follows the type of the message.
abbrev parser : SniParser
parser = record { sni_from_buffer = λ b. some (drop 6 b) }

abbrev short_hello : Bytes
short_hello = 0x16 ∷ (3 ∷ (1 ∷ (0 ∷ (3 ∷ (0x01 ∷ (b'a' ∷ (b'b' ∷ [])))))))

abbrev name_ab : Bytes
name_ab = b'a' ∷ (b'b' ∷ [])

short_hello-Hello : (more : Bytes) → Hello (short_hello ++ more) short_hello
short_hello-Hello more = record {
  major = 3;
  minor = 1;
  high = 0;
  low = 3;
  message = name_ab;
  more = more;
  sized = omega arith;
  hello_is = refl;
  buffer_is = refl;
}

abbrev entry_b : SniEntry
entry_b = record { servername = b'b' ∷ []; ctx = 4 }

abbrev entry_ab : SniEntry
entry_ab = record { servername = name_ab; ctx = 5 }

check_client_sni-Chosen_example :
    check_client_sni parser (some (entry_b ∷ (entry_ab ∷ []))) (short_hello ++ []) ≡ ok (some 5)
check_client_sni-Chosen_example =
    check_client_sni-Chosen parser {name = name_ab} (short_hello-Hello []) refl (omega arith)
      (omega arith)
      (Chosen.there entry_b (entry_ab ∷ []) (λ e. cc e) (Chosen.here entry_ab [] refl))

abbrev tls : Tls
tls = record {
  ctx_new = λ m. some 1;
  use_sni = λ c n. true;
  use_certificate_chain_file = λ c n. true;
  use_private_key_file = λ c n. ltb 1 (length n);
  load_verify_locations = λ c f p. false;
}

abbrev client_context : Context
client_context = record {
  context = some 1;
  method = lsec_mode_server;
  mode = lsec_mode_server;
  verify = by_default;
  freed = 0;
}

load_locations-accepted_example :
    ((load_locations tls client_context none none (some name_ab) (some name_ab) ≡ accepted) ↔ (
      OwnLoads tls client_context (some name_ab) (some name_ab)
      × CaLoads tls client_context none none))
    × ((load_locations tls client_context none none (some name_ab) (some name_ab) ≡ undefined)
        ↔ OwnFails tls client_context (some name_ab) (some name_ab))
    × ((load_locations tls client_context none none (some name_ab) (some name_ab)
          ≡ refused "error loading CA locations (unknown)")
        ↔ (OwnLoads tls client_context (some name_ab) (some name_ab)
            × CaFails tls client_context none none))
load_locations-accepted_example =
    load_locations-accepted tls client_context none none (some name_ab) (some name_ab)
