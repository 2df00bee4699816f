-- ===== src/Socket/Sni/Choice.antt =====
-- What check_client_sni answers.
use lilush.Common.{
  ℕ, suc, ◌+◌, ◌*◌, ◌<◌, ◌≡◌, ◌≢◌, refl, ap, ◌∙◌, true, false, Bytes, List, [], ◌∷◌, ◌++◌, Option,
  none, some, length, take, ◌==◌, c_string, ok, take-append, length-append, ltb-eq-false,
  Bool-cases, inl, inr, arith,
}
use lilush.Socket.Sni.{
  SniEntry, SniParser, same, find_sni_context, sni_size, named_context, check_record,
  check_client_sni,
}

-- A record that holds a ClientHello, and what may follow it.
pub record Hello (buffer hello : Bytes) : Type 0 where
  pub major : ℕ
  pub minor : ℕ
  pub high : ℕ
  pub low : ℕ
  pub message : Bytes
  pub more : Bytes
  pub sized : suc (length message) ≡ high * 256 + low
  pub hello_is : hello ≡ 0x16 ∷ (major ∷ (minor ∷ (high ∷ (low ∷ (0x01 ∷ message)))))
  pub buffer_is : buffer ≡ hello ++ more

-- The context of the first entry with the name, if any has it.
pub data Chosen (name : Bytes) : List SniEntry → Option ℕ → Type 0 where
  nobody : Chosen name [] none
  here :
      (entry : SniEntry) (rest : List SniEntry)
      → c_string entry.servername ≡ c_string name
      → Chosen name (entry ∷ rest) (some entry.ctx)
  there :
      {ctx : Option ℕ} (entry : SniEntry) (rest : List SniEntry)
      → c_string entry.servername ≢ c_string name
      → Chosen name rest ctx
      → Chosen name (entry ∷ rest) ctx

-- An entry that is added serves a name that none before it serves.
pub Chosen-append :
    {name : Bytes} {entries : List SniEntry} (entry : SniEntry)
    → Chosen name entries none
    → c_string entry.servername ≡ c_string name
    → Chosen name (entries ++ entry ∷ []) (some entry.ctx)
Chosen-append entry nobody e = here entry [] e
Chosen-append entry (there first rest n f) e =
    there first (rest ++ entry ∷ []) n (Chosen-append entry f e)

pub Hello-nonempty : {buffer hello : Bytes} → Hello buffer hello → (length buffer == 0) ≡ false
Hello-nonempty h = rw (h.buffer_is, h.hello_is) (ground arith)

same_refl : (xs : Bytes) → same xs xs ≡ true
same_refl [] = refl
same_refl (x ∷ xs) = ground (arith, same_refl xs)

same→eq : (xs ys : Bytes) → same xs ys ≡ true → xs ≡ ys
same→eq [] [] h = refl
same→eq [] (y ∷ ys) h = absurd (ground arith)
same→eq (x ∷ xs) [] h = absurd (ground arith)
same→eq (x ∷ xs) (y ∷ ys) h = ground (arith, same→eq xs ys)

pub find_sni_context-Chosen :
    {name : Bytes} {entries : List SniEntry} {ctx : Option ℕ}
    → Chosen name entries ctx
    → find_sni_context entries name ≡ ctx
unfolding find_sni_context
find_sni_context-Chosen nobody = refl
find_sni_context-Chosen {name} (here entry rest e) = rw e (rw (same_refl (c_string name)) refl)
find_sni_context-Chosen {name} (there entry rest n f) =
    elim (Bool-cases (same (c_string entry.servername) (c_string name))) [
      | inl e ↦ absurd (n (same→eq _ _ e))
      | inr e ↦ rw (e, find_sni_context-Chosen f) refl
    ]

take-prefix : (xs ys : Bytes) {n : ℕ} → length xs ≡ n → take n (xs ++ ys) ≡ xs
take-prefix xs ys e = rw (← e) (take-append xs ys)

named_context-found :
    (P : SniParser) (entries : List SniEntry) {hello name : Bytes}
    → P.sni_from_buffer hello ≡ some name
    → 0 < length name
    → length name < sni_size
    → named_context P entries hello ≡ ok (find_sni_context entries name)
named_context-found P entries e p l = rw (e, named_context) (ground arith)

-- A complete ClientHello goes to the parser as it is, whatever follows it.
check_record-Hello :
    (P : SniParser) (entries : List SniEntry) {buffer hello : Bytes}
    → Hello buffer hello
    → check_record P entries buffer ≡ named_context P entries hello
check_record-Hello P entries h =
    rw
      (
        h.buffer_is,
        h.hello_is,
        ltb-eq-false (suc (length (h.message ++ h.more))) (h.high * 256 + h.low)
            (omega (arith, h.sized, length-append h.message h.more)),
      )
      (ap (named_context P entries) (
        take-prefix (0x16 ∷ (h.major ∷ (h.minor ∷ (h.high ∷ (h.low ∷ (0x01 ∷ h.message)))))) h.more
          (omega (arith, h.sized))))

-- A client that names a server with at most 255 bytes gets the context of the first entry with that
-- name, and the default context, which is none, if no entry has it.
pub check_client_sni-Chosen :
    (P : SniParser) {entries : List SniEntry} {buffer hello name : Bytes} {ctx : Option ℕ}
    → Hello buffer hello
    → P.sni_from_buffer hello ≡ some name
    → 0 < length name
    → length name < sni_size
    → Chosen name entries ctx
    → check_client_sni P (some entries) buffer ≡ ok ctx
unfolding check_client_sni
check_client_sni-Chosen P h e p l nobody = refl
check_client_sni-Chosen P {name} h e p l (here entry rest n) =
    check_record-Hello P (entry ∷ rest) h
    ∙ named_context-found P (entry ∷ rest) e p l
    ∙ ap ok (find_sni_context-Chosen {name = name} (Chosen.here entry rest n))
check_client_sni-Chosen P {name} h e p l (there entry rest n f) =
    check_record-Hello P (entry ∷ rest) h
    ∙ named_context-found P (entry ∷ rest) e p l
    ∙ ap ok (find_sni_context-Chosen {name = name} (Chosen.there entry rest n f))
