-- ===== src/Socket/Ssl/Sound/Shaking.antt =====
-- What a handshake of luasocket's ssl.c makes of the session.
use lilush.Common.{
  ℕ, ◌≡◌, refl, ap, ◌||◌, length, ◌==◌, inl, inr, List, [], ◌∷◌, ◌++◌, Option, none, some, Outcome,
  ok, custom_err, sys_err, fault, Bool-cases, arith,
}
use mathlib.Core.Path.{subst}
use lilush.Socket.Io.{IoResult, io_done, io_timeout, io_closed, io_unknown, lsec_io_ssl, io_errno}
use lilush.Socket.Sni.{SniParser, check_client_sni}
use lilush.Socket.Ssl.{
  State, lsec_state_new, lsec_state_connected, lsec_state_closed, SslMode, lsec_mode_invalid,
  lsec_mode_server, lsec_mode_client, SslError, ssl_error_none, ssl_error_zero_return,
  ssl_error_want_read, ssl_error_want_write, ssl_error_want_connect, ssl_error_want_accept,
  ssl_error_syscall, ssl_error_ssl, ssl_error_other, Sock, unset, number, is_invalid, Ssl,
}
use lilush.Socket.Ssl.Reply.{Reply, waited, is_zero}
use lilush.Socket.Ssl.Handshake.{
  Round, Shake, pending, shaken, undefined, prepare, renew, peek, after_prepare, shake_answer,
  shake_loop, shake, handshake,
}
use lilush.Socket.Ssl.Sound.{IsLive, IsSound, live, gone, IsLive-error}

-- A handshake that has ended, if it does, with such a connection.
pub data Shakes (Q : Ssl → Type 0) : Shake → Type 0 where
  still : Shakes Q pending
  unknown : Shakes Q undefined
  ended : (code : IoResult) {c : Ssl} (left : List Round) → Q c → Shakes Q (shaken code c left)

pub Shakes-shaken :
    {Q : Ssl → Type 0} {s : Shake} {code : IoResult} {c : Ssl} {left : List Round}
    → Shakes Q s
    → s ≡ shaken code c left
    → Q c
Shakes-shaken still e = absurd (ground arith)
Shakes-shaken unknown e = absurd (ground arith)
Shakes-shaken {Q} (ended code left q) e = subst Q (cc) q

Shakes-live : {s : Shake} → Shakes IsLive s → Shakes IsSound s
Shakes-live still = still
Shakes-live unknown = unknown
Shakes-live (ended code left v) = ended code left (live v)

waited-Shakes :
    {Q : Ssl → Type 0} {more : Shake} (err : IoResult) (c : Ssl) (rest : List Round)
    → Q c
    → Shakes Q more
    → Shakes Q (waited err (λ code. shaken code c rest) more)
unfolding waited
waited-Shakes io_done c rest q more = more
waited-Shakes io_timeout c rest q more = ended _ rest q
waited-Shakes io_closed c rest q more = ended _ rest q
waited-Shakes io_unknown c rest q more = ended _ rest q
waited-Shakes lsec_io_ssl c rest q more = ended _ rest q
waited-Shakes (io_errno n) c rest q more = ended _ rest q

IsLive-connected : (c : Ssl) → IsLive c → IsLive (record c { state = lsec_state_connected })
IsLive-connected c v = record { alive = ground arith; session = v.session; ledger = v.ledger }

shake_answer-Shakes :
    {more : Shake} (error : SslError) (reply : Reply) (c : Ssl) (rest : List Round)
    → IsLive c
    → Shakes IsLive more
    → Shakes IsLive (shake_answer error reply c rest more)
unfolding shake_answer
shake_answer-Shakes ssl_error_none reply c rest v more = ended _ rest (IsLive-connected c v)
shake_answer-Shakes ssl_error_want_read reply c rest v more = waited-Shakes reply.wait c rest v more
shake_answer-Shakes ssl_error_want_write reply c rest v more =
    waited-Shakes reply.wait c rest v more
shake_answer-Shakes ssl_error_syscall reply c rest v more = elim (Bool-cases (is_zero reply.ret)) [
  | inl e ↦ rw e (ended _ rest v)
  | inr e ↦ rw e (ended _ rest (IsLive-error ssl_error_ssl c v))
]
shake_answer-Shakes ssl_error_zero_return reply c rest v more = ended _ rest v
shake_answer-Shakes ssl_error_want_connect reply c rest v more = ended _ rest v
shake_answer-Shakes ssl_error_want_accept reply c rest v more = ended _ rest v
shake_answer-Shakes ssl_error_ssl reply c rest v more = ended _ rest v
shake_answer-Shakes (ssl_error_other n) reply c rest v more = ended _ rest v

-- What a round goes on with.
data Prepares (Q : Ssl → Type 0) : Outcome Ssl → Type 0 where
  prepares : (c : Ssl) → Q c → Prepares Q (ok c)
  breaks : Prepares Q fault

renew-Prepares :
    (fresh : Option ℕ) (c : Ssl) (o : Outcome (Option ℕ))
    → IsLive c
    → Prepares IsLive (renew fresh c o)
renew-Prepares (some id) c (ok (some ctx)) v =
    prepares _
      (record { alive = v.alive; session = ground arith; ledger = ap (λ l. l ++ id ∷ []) v.ledger })
renew-Prepares none c (ok (some ctx)) v = prepares c v
renew-Prepares none c (ok none) v = prepares c v
renew-Prepares (some id) c (ok none) v = prepares c v
renew-Prepares none c (custom_err m) v = breaks
renew-Prepares (some id) c (custom_err m) v = breaks
renew-Prepares none c (sys_err m) v = breaks
renew-Prepares (some id) c (sys_err m) v = breaks
renew-Prepares none c fault v = breaks
renew-Prepares (some id) c fault v = breaks

after_prepare-Shakes :
    {o : Outcome Ssl} {k : Ssl → Shake}
    → Prepares IsLive o
    → ((c : Ssl) → IsLive c → Shakes IsLive (k c))
    → Shakes IsLive (after_prepare o k)
unfolding after_prepare
after_prepare-Shakes (prepares c v) f = f c v
after_prepare-Shakes breaks f = unknown

module _ (P : SniParser) where
  peek-Prepares : (r : Round) (s : Sock) (c : Ssl) → IsLive c → Prepares IsLive (peek P r s c)
  peek-Prepares r unset c v = breaks
  peek-Prepares r (number n) c v =
      elim (Bool-cases (is_invalid (number n) || length r.peeked == 0)) [
        | inl e ↦ rw e (prepares c v)
        | inr e ↦ rw e (renew-Prepares r.fresh c (check_client_sni P c.sni_contexts r.peeked) v)
      ]

  prepare-Prepares :
      (r : Round) (m : SslMode) (c : Ssl) → IsLive c → Prepares IsLive (prepare P r m c)
  unfolding prepare
  prepare-Prepares r lsec_mode_server c v = peek-Prepares r c.sock c v
  prepare-Prepares r lsec_mode_client c v = prepares c v
  prepare-Prepares r lsec_mode_invalid c v = prepares c v

  shake_loop-Shakes :
      (rounds : List Round) (c : Ssl) → IsLive c → Shakes IsLive (shake_loop P rounds c)
  unfolding shake_loop
  shake_loop-Shakes [] c v = still
  shake_loop-Shakes (r ∷ rest) c v = after_prepare-Shakes (prepare-Prepares r c.mode c v) (λ c1 v1.
      shake_answer-Shakes r.reply.error r.reply (record c1 { error = r.reply.error }) rest
        (IsLive-error r.reply.error c1 v1)
        (shake_loop-Shakes rest (record c1 { error = r.reply.error })
          (IsLive-error r.reply.error c1 v1)))

  shake-Shakes :
      (st : State) (rounds : List Round) (c : Ssl)
      → c.state ≡ st
      → IsSound c
      → Shakes IsSound (shake st P rounds c)
  shake-Shakes lsec_state_new rounds c e (live v) = Shakes-live (shake_loop-Shakes rounds c v)
  shake-Shakes lsec_state_connected rounds c e (live v) = Shakes-live (shake_loop-Shakes rounds c v)
  shake-Shakes lsec_state_closed rounds c e s = ended _ rounds s
  shake-Shakes lsec_state_new rounds c e (gone g) = absurd (ground (arith, g.closed))
  shake-Shakes lsec_state_connected rounds c e (gone g) = absurd (ground (arith, g.closed))

  pub handshake-Shakes :
      (rounds : List Round) (c : Ssl) → IsSound c → Shakes IsSound (handshake P rounds c)
  unfolding handshake
  handshake-Shakes rounds c s = shake-Shakes c.state rounds c refl s
