-- ===== src/Socket/Ssl/Serve.antt =====
-- A handshake of luasocket's ssl.c that comes to its end, and the context that a server ends with.
use lilush.Common.{
  ℕ, ◌<◌, ◌≡◌, ◌≢◌, refl, ap, sym, ◌∙◌, inl, inr, true, false, Bytes, List, [], ◌∷◌, ◌++◌, map,
  none, some, length, ℤ, String, c_string, append-nil, append_assoc,
}
use mathlib.Core.Path.{subst}
use lilush.Socket.Io.{IoResult, io_done}
use lilush.Socket.Sni.{SniParser, sni_size}
use lilush.Socket.Sni.Choice.{Hello, Chosen, Chosen-append, check_client_sni-Chosen}
use lilush.Socket.Ssl.{
  State, lsec_state_new, lsec_state_connected, lsec_state_closed, SslMode, lsec_mode_server,
  ssl_error_want_read, ssl_error_want_write, held, number, is_invalid, Ssl, entries_of,
  meth_add_sni_context,
}
use lilush.Socket.Ssl.Reply.{Reply, waited}
use lilush.Socket.Ssl.Handshake.{
  Round, shaken, after_prepare, shake_answer, shake_loop, handshake, meth_handshake,
}
use lilush.Socket.Ssl.Rounds.{
  Renewal, Peeked, new_session, Completes, completed, waits, Continues, continues, renewed,
  renew_all, finished, renew_all-append, finished-renew_all, renew_all-mode, renew_all-sock,
  renew_all-contexts, prepare-Peeked,
}

-- The last of the sessions, where each is for the same context.
abbrev pub last_id : ℕ → List ℕ → ℕ
last_id id [] = id
last_id id (next ∷ rest) = last_id next rest

-- The sessions before the last.
abbrev pub earlier_ids : ℕ → List ℕ → List ℕ
earlier_ids id [] = []
earlier_ids id (next ∷ rest) = id ∷ earlier_ids next rest

abbrev pub for_context : ℕ → List ℕ → List Renewal
for_context ctx ids = map (λ id. record { id = id; ctx = ctx }) ids

renew_all-last :
    (ctx id : ℕ) (ids : List ℕ) (c : Ssl)
    → (renew_all (for_context ctx (id ∷ ids)) c).ssl
      ≡ some (record { id = last_id id ids; ctx = ctx })
renew_all-last ctx id [] c = refl
renew_all-last ctx id (next ∷ ids) c =
    renew_all-last ctx next ids (renewed (record { id = id; ctx = ctx }) c)

renew_all-freed :
    (ctx id : ℕ) (ids : List ℕ) (c : Ssl)
    → (renew_all (for_context ctx (id ∷ ids)) c).freed
      ≡ c.freed ++ (held c.ssl ++ earlier_ids id ids)
renew_all-freed ctx id [] c = ap (λ xs. c.freed ++ xs) (sym (append-nil (held c.ssl)))
renew_all-freed ctx id (next ∷ ids) c =
    renew_all-freed ctx next ids (renewed (record { id = id; ctx = ctx }) c)
    ∙ append_assoc c.freed (held c.ssl) (id ∷ earlier_ids next ids)

module _ (P : SniParser) where
  mutual
    unfolding shake_answer shake_loop after_prepare waited

    shake_answer-Completes :
        {m : SslMode} {n : ℤ} {contexts : _} {reply : Reply} {rest left : List Round}
        {made : List Renewal} (c : Ssl)
        → c.mode ≡ m
        → c.sock ≡ number n
        → c.sni_contexts ≡ contexts
        → Completes P m n contexts reply rest left made
        → shake_answer reply.error reply
            (record c { error = reply.error })
            rest
            (shake_loop P rest (record c { error = reply.error }))
          ≡ shaken io_done (finished (renew_all made c)) left
    shake_answer-Completes c m s l (completed reply rest e) = rw e refl
    shake_answer-Completes c m s l (waits reply {left = left} {made = made} w more) = elim w.wants [
      | inl e ↦
          rw (e, w.ready)
            (shake_loop-Continues (record c { error = ssl_error_want_read }) m s l more
              ∙ ap (λ d. shaken io_done d left) (finished-renew_all made c ssl_error_want_read))
      | inr e ↦
          rw (e, w.ready)
            (shake_loop-Continues (record c { error = ssl_error_want_write }) m s l more
              ∙ ap (λ d. shaken io_done d left) (finished-renew_all made c ssl_error_want_write))
    ]

    shake_loop-Continues :
        {m : SslMode} {n : ℤ} {contexts : _} {rounds left : List Round} {made : List Renewal}
        (c : Ssl)
        → c.mode ≡ m
        → c.sock ≡ number n
        → c.sni_contexts ≡ contexts
        → Continues P m n contexts rounds left made
        → shake_loop P rounds c ≡ shaken io_done (finished (renew_all made c)) left
    shake_loop-Continues {m = mode} {n = n} c m s l
          (continues r {left = left} {now = now} {later = later} peek more e) =
        rw
          (
            prepare-Peeked P c.mode r c s (
                subst (λ x. Peeked P x n c.sni_contexts r now) (sym m)
                  (subst (λ x. Peeked P mode n x r now) (sym l) peek)),
            shake_loop,
          )
          (shake_answer-Completes (renew_all now c) (renew_all-mode now c ∙ m)
            (renew_all-sock now c ∙ s) (renew_all-contexts now c ∙ l) more)
        ∙ ap (λ d. shaken io_done (finished d) left)
            (sym (renew_all-append now later c) ∙ ap (λ xs. renew_all xs c) (sym e))

  handshake_open :
      (rounds : List Round) (c : Ssl) (st : State)
      → c.state ≡ st
      → st ≢ lsec_state_closed
      → handshake P rounds c ≡ shake_loop P rounds c
  unfolding handshake
  handshake_open rounds c lsec_state_new e n = rw e refl
  handshake_open rounds c lsec_state_connected e n = rw e refl
  handshake_open rounds c lsec_state_closed e n = absurd (n refl)

  -- On a connection that is not closed and has a descriptor, a handshake ends with IO_DONE when
  -- wolfSSL does, however often it has to wait for the peer, as long as the descriptor becomes
  -- ready in time and check_client_sni stays defined, whatever a server peeks at before each step.
  -- The method returns true, and the connection is as it was but connected, with no error, and with
  -- the sessions that the rounds have made for the names that they found, if any: the last of them
  -- is its session, and the one before each is freed.
  pub handshake-Continues :
      (strerror : IoResult → String) {rounds left : List Round} {made : List Renewal} (c : Ssl)
      {n : ℤ}
      → c.state ≢ lsec_state_closed
      → c.sock ≡ number n
      → Continues P c.mode n c.sni_contexts rounds left made
      → (handshake P rounds c ≡ shaken io_done (finished (renew_all made c)) left)
        × (meth_handshake strerror P rounds c ≡ some (true, none))
  unfolding meth_handshake
  handshake-Continues strerror {rounds} c alive s more =
      let e =
        handshake_open rounds c c.state refl alive ∙ shake_loop-Continues c refl s refl more in
      (e, rw e refl)

  -- A server, its connection not closed and with a valid descriptor, to which a name is added,
  -- there being memory for it, with its context, that no name before it serves. A client sends a
  -- ClientHello with that name, of at most 255 bytes, wolfSSL makes a session, and the handshake
  -- comes to its end, however often it waits, the descriptor being ready in time. The rounds behind
  -- the first may peek at anything for which check_client_sni is defined, a second ClientHello
  -- included, as long as each session that they make is for the same context. It ends with the
  -- session made last, of the context that was added, and each session before that has been freed.
  pub handshake-serves :
      {hello name : Bytes} {id ctx : ℕ} {n : ℤ} {rest left : List Round} (ids : List ℕ)
      (servername : Bytes) (r : Round) (c : Ssl)
      → c.state ≢ lsec_state_closed
      → c.mode ≡ lsec_mode_server
      → c.sock ≡ number n
      → is_invalid (number n) ≡ false
      → Chosen name (entries_of c.sni_contexts) none
      → c_string servername ≡ c_string name
      → Hello r.peeked hello
      → P.sni_from_buffer hello ≡ some name
      → 0 < length name
      → length name < sni_size
      → r.fresh ≡ some id
      → Completes P lsec_mode_server n
          (meth_add_sni_context true true servername ctx c).0.sni_contexts
          r.reply
          rest
          left
          (for_context ctx ids)
      → (handshake P (r ∷ rest) (meth_add_sni_context true true servername ctx c).0
          ≡ shaken io_done
              (finished (
                renew_all
                  (for_context ctx (id ∷ ids))
                  (meth_add_sni_context true true servername ctx c).0))
              left)
        × ((renew_all
              (for_context ctx (id ∷ ids))
              (meth_add_sni_context true true servername ctx c).0).ssl
            ≡ some (record { id = last_id id ids; ctx = ctx }))
        × ((renew_all
              (for_context ctx (id ∷ ids))
              (meth_add_sni_context true true servername ctx c).0).freed
            ≡ c.freed ++ (held c.ssl ++ earlier_ids id ids))
  unfolding meth_add_sni_context
  handshake-serves {name = name} {id = id} {ctx = ctx} ids servername r c alive m s v others e h g p
        q f more =
      let c1 = (meth_add_sni_context true true servername ctx c).0 in
      let served =
        check_client_sni-Chosen P h g p q
          (Chosen-append (record { servername = servername; ctx = ctx }) others e) in
      (
        handshake_open _ c1 c1.state refl alive
            ∙ shake_loop-Continues c1 m s refl
                (continues r (new_session {id = id} refl v served f) more refl),
        renew_all-last ctx id ids c1,
        renew_all-freed ctx id ids c1,
      )
