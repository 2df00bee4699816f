-- ===== src/Socket/Ssl/Rounds.antt =====
-- The rounds of a handshake of luasocket's ssl.c that comes to its end, and the sessions that a server
-- makes on the way.
use lilush.Common.{
  ℕ, ◌≡◌, ◌≢◌, refl, ◌∙◌, ◌⊎◌, Bool, true, false, List, [], ◌∷◌, ◌++◌, Option, none, some, length,
  ◌==◌, ℤ, ok, ap, arith, if◌then◌else◌, Bytes,
}
use lilush.Socket.Io.{io_done}
use lilush.Socket.Sni.{SniEntry, SniParser, check_client_sni}
use lilush.Socket.Ssl.{
  SslMode, lsec_mode_invalid, lsec_mode_server, lsec_mode_client, lsec_state_connected,
  ssl_error_none, ssl_error_want_read, ssl_error_want_write, SslError, number, is_invalid, Ssl,
  held,
}
use lilush.Socket.Ssl.Reply.{Reply}
use lilush.Socket.Ssl.Handshake.{Round, renew, peek, prepare}

-- wolfSSL waits for the peer, and the descriptor becomes ready in time.
pub record Wants (reply : Reply) : Type 0 where
  pub wants : (reply.error ≡ ssl_error_want_read) ⊎ (reply.error ≡ ssl_error_want_write)
  pub ready : reply.wait ≡ io_done

-- A session that is made, and its context.
pub record Renewal : Type 0 where
  pub id : ℕ
  pub ctx : ℕ

module _ (P : SniParser) (m : SslMode) (n : ℤ) (contexts : Option (List SniEntry)) where
  -- What a round peeks at, and the sessions, one or none, that it makes for it: none on a client, with
  -- no valid descriptor, where check_client_sni finds no context in what is peeked at, as in nothing
  -- and in any record that is not a ClientHello, or where wolfSSL_new fails.
  pub data Peeked (r : Round) : List Renewal → Type 0 where
    client : m ≢ lsec_mode_server → Peeked r []
    invalid : is_invalid (number n) ≡ true → Peeked r []
    no_context : check_client_sni P contexts r.peeked ≡ ok none → Peeked r []
    no_session :
        {ctx : ℕ}
        → check_client_sni P contexts r.peeked ≡ ok (some ctx)
        → r.fresh ≡ none
        → Peeked r []
    new_session :
        {id ctx : ℕ}
        → m ≡ lsec_mode_server
        → is_invalid (number n) ≡ false
        → check_client_sni P contexts r.peeked ≡ ok (some ctx)
        → r.fresh ≡ some id
        → Peeked r (record { id = id; ctx = ctx } ∷ [])

  -- The replies come to the end of the handshake after finitely many waits, with the sessions that are
  -- made in the rounds behind the first.
  mutual
    pub data Completes : Reply → List Round → List Round → List Renewal → Type 0 where
      completed :
          (reply : Reply) (rest : List Round)
          → reply.error ≡ ssl_error_none
          → Completes reply rest rest []
      waits :
          (reply : Reply) {rest left : List Round} {made : List Renewal}
          → Wants reply
          → Continues rest left made
          → Completes reply rest left made

    pub data Continues : List Round → List Round → List Renewal → Type 0 where
      continues :
          (r : Round) {rest left : List Round} {now later made : List Renewal}
          → Peeked r now
          → Completes r.reply rest left later
          → made ≡ now ++ later
          → Continues (r ∷ rest) left made

-- The connection with a session that has been made: the one before it is freed.
abbrev pub renewed : Renewal → Ssl → Ssl
renewed new c = record c {
  ssl = some (record { id = new.id; ctx = new.ctx });
  created = c.created ++ new.id ∷ [];
  freed = c.freed ++ held c.ssl;
}

-- The connection with one session after another.
abbrev pub renew_all : List Renewal → Ssl → Ssl
renew_all [] c = c
renew_all (new ∷ rest) c = renew_all rest (renewed new c)

-- The connection at the end of its handshake.
abbrev pub finished : Ssl → Ssl
finished c = record c { error = ssl_error_none; state = lsec_state_connected }

pub renew_all-append :
    (xs ys : List Renewal) (c : Ssl) → renew_all (xs ++ ys) c ≡ renew_all ys (renew_all xs c)
renew_all-append [] ys c = refl
renew_all-append (x ∷ xs) ys c = renew_all-append xs ys (renewed x c)

pub finished-renew_all :
    (xs : List Renewal) (c : Ssl) (e : SslError)
    → finished (renew_all xs (record c { error = e })) ≡ finished (renew_all xs c)
finished-renew_all [] c e = refl
finished-renew_all (x ∷ xs) c e = finished-renew_all xs (renewed x c) e

pub renew_all-mode : (xs : List Renewal) (c : Ssl) → (renew_all xs c).mode ≡ c.mode
renew_all-mode [] c = refl
renew_all-mode (x ∷ xs) c = renew_all-mode xs (renewed x c)

pub renew_all-sock : (xs : List Renewal) (c : Ssl) → (renew_all xs c).sock ≡ c.sock
renew_all-sock [] c = refl
renew_all-sock (x ∷ xs) c = renew_all-sock xs (renewed x c)

pub renew_all-contexts :
    (xs : List Renewal) (c : Ssl) → (renew_all xs c).sni_contexts ≡ c.sni_contexts
renew_all-contexts [] c = refl
renew_all-contexts (x ∷ xs) c = renew_all-contexts xs (renewed x c)

renew-none : (fresh : Option ℕ) (c : Ssl) → renew fresh c (ok none) ≡ ok c
renew-none none c = refl
renew-none (some id) c = refl

if-same : {A : Type 0} (b : Bool) (x : A) → (if b then x else x) ≡ x
if-same true x = refl
if-same false x = refl

-- A context is found in something only.
served-nonempty :
    (P : SniParser) (contexts : Option (List SniEntry)) (peeked : Bytes) {ctx : ℕ}
    → check_client_sni P contexts peeked ≡ ok (some ctx)
    → (length peeked == 0) ≡ false
unfolding check_client_sni
served-nonempty P none [] e = ground arith
served-nonempty P (some []) [] e = ground arith
served-nonempty P (some (x ∷ xs)) [] e = ground arith
served-nonempty P contexts (b ∷ bs) e = ground arith

-- There is no context for nothing.
pub check_client_sni-nothing :
    (P : SniParser) (contexts : Option (List SniEntry)) → check_client_sni P contexts [] ≡ ok none
unfolding check_client_sni
check_client_sni-nothing P none = refl
check_client_sni-nothing P (some []) = refl
check_client_sni-nothing P (some (x ∷ xs)) = refl

-- A round on a server, by its descriptor.
peek-Peeked :
    (P : SniParser) (r : Round) (c : Ssl) {n : ℤ} {now : List Renewal}
    → Peeked P lsec_mode_server n c.sni_contexts r now
    → peek P r (number n) c ≡ ok (renew_all now c)
peek-Peeked P r c (client q) = absurd (q refl)
peek-Peeked P r c (invalid q) = rw (q) refl
peek-Peeked P r c (no_context q) = rw (q, renew-none r.fresh c) (if-same _ _)
peek-Peeked P r c (no_session q f) = rw (q, f) (if-same _ _)
peek-Peeked P r c (new_session e v q f) =
    rw (v, served-nonempty P c.sni_contexts r.peeked q, q, f) refl

-- No other mode makes a session.
other-Peeked :
    {P : SniParser} {m : SslMode} {n : ℤ} {contexts : Option (List SniEntry)} {r : Round}
    {now : List Renewal}
    → m ≢ lsec_mode_server
    → Peeked P m n contexts r now
    → now ≡ []
other-Peeked o (client q) = refl
other-Peeked o (invalid q) = refl
other-Peeked o (no_context q) = refl
other-Peeked o (no_session q f) = refl
other-Peeked o (new_session e v q f) = absurd (o e)

pub prepare-Peeked :
    (P : SniParser) (m : SslMode) (r : Round) (c : Ssl) {n : ℤ} {now : List Renewal}
    → c.sock ≡ number n
    → Peeked P m n c.sni_contexts r now
    → prepare P r m c ≡ ok (renew_all now c)
unfolding prepare
prepare-Peeked P lsec_mode_server r c s p = ap (λ k. peek P r k c) s ∙ peek-Peeked P r c p
prepare-Peeked P lsec_mode_client r c s p = rw (other-Peeked (λ e. cc e) p) refl
prepare-Peeked P lsec_mode_invalid r c s p = rw (other-Peeked (λ e. cc e) p) refl
