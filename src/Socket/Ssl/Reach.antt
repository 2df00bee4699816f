-- ===== src/Socket/Ssl/Reach.antt =====
-- What a connection of luasocket's ssl.c goes through, and its session and descriptor at each point.
use lilush.Common.{
  ℕ, ◌≡◌, refl, Bool, true, false, Bytes, List, [], ◌∷◌, ◌++◌, append-nil, Option, some, ◌⊎◌, inl,
  inr, String, ℤ, ok,
}
use lilush.Socket.Io.{IoResult}
use lilush.Socket.Buffer.{Buffer}
use lilush.Socket.Sni.{SniParser}
use lilush.Socket.Ssl.{
  SslMode, SslError, unset, is_invalid, Ssl, held, meth_create, meth_add_sni_context, meth_setfd,
  meth_destroy, Timeout, with_limits, meth_settimeout,
}
use lilush.Socket.Ssl.Reply.{Reply}
use lilush.Socket.Ssl.Handshake.{Round, shaken, handshake}
use lilush.Socket.Ssl.Transfer.{Transfer, read_text, written, ssl_recv, ssl_send}
use lilush.Socket.Ssl.Sound.{
  IsGone, IsSound, live, gone, IsFresh-IsLive, meth_create-IsFresh, meth_setfd-IsSound,
  meth_destroy-IsGone,
}
use lilush.Socket.Ssl.Sound.Shaking.{Shakes-shaken, handshake-Shakes}
use lilush.Socket.Ssl.Sound.Moving.{Moves-some, transfer-Moves}

-- The calls of the methods, each with the answers that it gets.
pub data Step (P : SniParser) : Ssl → Ssl → Type 0 where
  added :
      (list_room entry_room : Bool) (servername : Bytes) (ctx : ℕ) (c : Ssl)
      → Step P c (meth_add_sni_context list_room entry_room servername ctx c).0
  attached : (fd : ℤ) (wraps : Bool) (c : Ssl) → Step P c (meth_setfd fd wraps c).0
  shook :
      {code : IoResult} {c' : Ssl} {left : List Round} (rounds : List Round) (c : Ssl)
      → handshake P rounds c ≡ shaken code c' left
      → Step P c c'
  received :
      {t : Transfer Bytes} (replies : List Reply) (c : Ssl)
      → ssl_recv replies c ≡ some t
      → Step P c t.conn
  sent :
      {t : Transfer ℕ} (replies : List Reply) (c : Ssl)
      → ssl_send replies c ≡ some t
      → Step P c t.conn
  buffered : (b : Buffer) (c : Ssl) → Step P c (record c { buf = b })
  limited :
      (timeout_meth_settimeout : Timeout → Timeout ⊎ String) (c : Ssl)
      → Step P c (meth_settimeout timeout_meth_settimeout c).0
  destroyed : (c : Ssl) → Step P c (meth_destroy c)

-- The connections that follow from `create`.
pub data Reach (P : SniParser) : Ssl → Type 0 where
  made :
      {c : Ssl} (ctx : Option ℕ) (mode : SslMode) (fresh : Option ℕ) (room : Bool) (bytes : Bytes)
      (error : SslError)
      → meth_create ctx mode fresh room bytes error ≡ ok c
      → Reach P c
  next : {c c' : Ssl} → Reach P c → Step P c c' → Reach P c'

meth_destroy_again :
    (c : Ssl)
    → is_invalid (Ssl.sock (meth_destroy c)) ≡ true
    → meth_destroy (meth_destroy c) ≡ meth_destroy c
unfolding meth_destroy
meth_destroy_again c g = rw (g, append-nil (c.freed ++ held c.ssl)) refl

-- A connection that is closed before `setfd`, or that the collector takes: `close` is called on what
-- happens to lie in the descriptor's memory.
pub meth_create-destroy :
    {c : Ssl} (ctx : Option ℕ) (mode : SslMode) (fresh : Option ℕ) (room : Bool) (bytes : Bytes)
    (error : SslError)
    → meth_create ctx mode fresh room bytes error ≡ ok c
    → (meth_destroy c).closes ≡ unset ∷ []
unfolding meth_destroy
meth_create-destroy ctx mode fresh room bytes error e =
    let f = meth_create-IsFresh ctx mode fresh room bytes error e in
    rw (f.no_descriptor, f.no_closes) refl

added-IsSound :
    (list_room entry_room : Bool) (servername : Bytes) (ctx : ℕ) (c : Ssl)
    → IsSound c
    → IsSound (meth_add_sni_context list_room entry_room servername ctx c).0
unfolding meth_add_sni_context
added-IsSound list_room entry_room servername ctx c (live v) =
    live (record { alive = v.alive; session = v.session; ledger = v.ledger })
added-IsSound list_room entry_room servername ctx c (gone g) = gone (record {
  closed = g.closed;
  no_session = g.no_session;
  no_sock = g.no_sock;
  ledger = g.ledger;
})

buffered-IsSound : (b : Buffer) (c : Ssl) → IsSound c → IsSound (record c { buf = b })
buffered-IsSound b c (live v) =
    live (record { alive = v.alive; session = v.session; ledger = v.ledger })
buffered-IsSound b c (gone g) = gone (record {
  closed = g.closed;
  no_session = g.no_session;
  no_sock = g.no_sock;
  ledger = g.ledger;
})

limited-IsSound :
    (c : Ssl) (answer : Timeout ⊎ String) → IsSound c → IsSound (with_limits c answer).0
limited-IsSound c (inr message) s = s
limited-IsSound c (inl tm) (live v) =
    live (record { alive = v.alive; session = v.session; ledger = v.ledger })
limited-IsSound c (inl tm) (gone g) = gone (record {
  closed = g.closed;
  no_session = g.no_session;
  no_sock = g.no_sock;
  ledger = g.ledger;
})

module _ {P : SniParser} where
  Step-IsSound : {c c' : Ssl} → Step P c c' → IsSound c → IsSound c'
  unfolding ssl_recv ssl_send meth_settimeout
  Step-IsSound (added list_room entry_room servername ctx c) s =
      added-IsSound list_room entry_room servername ctx c s
  Step-IsSound (attached fd wraps c) s = meth_setfd-IsSound fd wraps c s
  Step-IsSound (shook rounds c e) s = Shakes-shaken (handshake-Shakes P rounds c s) e
  Step-IsSound (received replies c e) s =
      Moves-some (transfer-Moves [] read_text true c.state replies c s) e
  Step-IsSound (sent replies c e) s =
      Moves-some (transfer-Moves 0 written false c.state replies c s) e
  Step-IsSound (buffered b c) s = buffered-IsSound b c s
  Step-IsSound (limited timeout_meth_settimeout c) s =
      limited-IsSound c (timeout_meth_settimeout c.tm) s
  Step-IsSound (destroyed c) s = gone (meth_destroy-IsGone c s)

  -- Whatever is done with a connection, in whatever order: either it is not closed and has a session,
  -- and every other session that was created for it has been freed, once; or it is closed, every
  -- session has been freed, once, and it has no session and no descriptor any more.
  pub Reach-IsSound : {c : Ssl} → Reach P c → IsSound c
  Reach-IsSound (made ctx mode fresh room bytes error e) =
      live (IsFresh-IsLive (meth_create-IsFresh ctx mode fresh room bytes error e))
  Reach-IsSound (next r step) = Step-IsSound step (Reach-IsSound r)

  -- `close` frees the last session and gives up the descriptor; the same call by `__gc` later changes
  -- nothing, so nothing is freed, closed or shut down twice.
  pub meth_destroy-once :
      {c : Ssl}
      → Reach P c
      → IsGone (meth_destroy c) × (meth_destroy (meth_destroy c) ≡ meth_destroy c)
  meth_destroy-once {c} r =
      let g = meth_destroy-IsGone c (Reach-IsSound r) in (g, meth_destroy_again c g.no_sock)
