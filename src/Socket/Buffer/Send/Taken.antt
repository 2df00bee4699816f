-- ===== src/Socket/Buffer/Send/Taken.antt =====
-- What the transport takes of a text, and how far sendraw of luasocket's buffer.c gets with it.
use lilush.Common.{
  ℕ, zero, suc, ◌+◌, ◌≤◌, ◌≡◌, refl, sym, ap, ◌∙◌, true, false, Bytes, List, [], ◌∷◌, ◌++◌, Option,
  some, length, take, drop, append-nil, append_assoc, length-take, length-drop, arith,
}
use native.Mathlib.Nat.{suc-add}
use lilush.Socket.Io.{is_done}
use lilush.Socket.Buffer.{step_size, Sending, Sent, sendraw}

-- The transport takes no more than it is offered, and answers until it has all or fails.
pub data Takes : Bytes → List Sending → Type 0 where
  nothing : (answers : List Sending) → Takes [] answers
  fails :
      (text : Bytes) (answer : Sending) (rest : List Sending)
      → answer.taken ≤ length (take step_size text)
      → is_done answer.code ≡ false
      → Takes text (answer ∷ rest)
  goes :
      (text : Bytes) (answer : Sending) (rest : List Sending)
      → answer.taken ≤ length (take step_size text)
      → is_done answer.code ≡ true
      → Takes (drop answer.taken text) rest
      → Takes text (answer ∷ rest)

-- It takes them all.
pub data TakesAll : Bytes → List Sending → Type 0 where
  nothing_left : (answers : List Sending) → TakesAll [] answers
  takes :
      (text : Bytes) (answer : Sending) (rest : List Sending)
      → answer.taken ≤ length (take step_size text)
      → is_done answer.code ≡ true
      → TakesAll (drop answer.taken text) rest
      → TakesAll text (answer ∷ rest)

pub TakesAll-Takes :
    {text : Bytes} {answers : List Sending} → TakesAll text answers → Takes text answers
TakesAll-Takes (nothing_left answers) = nothing answers
TakesAll-Takes (takes text answer rest l d more) = goes text answer rest l d (TakesAll-Takes more)

-- After `total` bytes, which are on `wire`, `count` bytes more of the text are, all of it behind
-- IO_DONE.
pub record Progress (text wire : Bytes) (total : ℕ) (s : Sent) : Type 0 where
  pub count : ℕ
  pub within : count ≤ length text
  pub counted : s.total ≡ total + count
  pub wired : s.wire ≡ wire ++ take count text
  pub complete : is_done s.result ≡ true → count ≡ length text

pub data Gets (P : Sent → Type 0) : Option Sent → Type 0 where
  gets : (s : Sent) → P s → Gets P (some s)

take-take : (m n : ℕ) (xs : Bytes) → m ≤ length (take n xs) → take m (take n xs) ≡ take m xs
take-take zero n xs h = refl
take-take (suc m) zero xs h = absurd (omega arith)
take-take (suc m) (suc n) [] h = absurd (omega arith)
take-take (suc m) (suc n) (x ∷ xs) h = ap (λ ys. x ∷ ys) (take-take m n xs (omega arith))

take-drop-add : (m n : ℕ) (xs : Bytes) → take m xs ++ take n (drop m xs) ≡ take (m + n) xs
take-drop-add zero n xs = ap (λ k. take k xs) (omega arith)
take-drop-add (suc m) zero [] = rw suc-add refl
take-drop-add (suc m) (suc n) [] = rw suc-add refl
take-drop-add (suc m) n (x ∷ xs) = rw suc-add (ap (λ ys. x ∷ ys) (take-drop-add m n xs))

Gets-map : {P Q : Sent → Type 0} {o : Option Sent} → ((s : Sent) → P s → Q s) → Gets P o → Gets Q o
Gets-map f (gets s p) = gets s (f s p)

taken-le : (text : Bytes) (n : ℕ) → n ≤ length (take step_size text) → n ≤ length text
taken-le text n h = omega (arith, length-take step_size text)

-- One answer of the transport.
sent_step :
    (answer : Sending) (text : Bytes) (total : ℕ) (wire : Bytes)
    → answer.taken ≤ length (take step_size text)
    → is_done answer.code ≡ false
    → Progress text wire total (record {
      result = answer.code;
      total = total + answer.taken;
      wire = wire ++ take answer.taken (take step_size text);
    })
sent_step answer text total wire t f = record {
  count = answer.taken;
  within = taken-le text answer.taken t;
  counted = refl;
  wired = ap (λ w. wire ++ w) (take-take answer.taken step_size text t);
  complete = λ d. absurd (ground arith);
}

later :
    (answer : Sending) (text : Bytes) (total : ℕ) (wire : Bytes)
    → answer.taken ≤ length (take step_size text)
    → (s : Sent)
    → Progress
        (drop answer.taken text)
        (wire ++ take answer.taken (take step_size text))
        (total + answer.taken)
        s
    → Progress text wire total s
later answer text total wire t s p = record {
  count = answer.taken + p.count;
  within = omega (arith, p.within, taken-le text answer.taken t, length-drop answer.taken text);
  counted = omega (arith, p.counted);
  wired =
      p.wired
      ∙ append_assoc wire (take answer.taken (take step_size text))
          (take p.count (drop answer.taken text))
      ∙ ap (λ w. wire ++ w)
          (ap (λ w. w ++ take p.count (drop answer.taken text))
              (take-take answer.taken step_size text t)
            ∙ take-drop-add answer.taken p.count text);
  complete =
      λ d. omega (arith, p.complete d, taken-le text answer.taken t, length-drop answer.taken text);
}

pub sendraw-Progress :
    {text : Bytes} {answers : List Sending} (total : ℕ) (wire : Bytes)
    → Takes text answers
    → Gets (Progress text wire total) (sendraw text total wire answers)
unfolding sendraw
sendraw-Progress total wire (nothing answers) = gets _ (record {
  count = 0;
  within = omega arith;
  counted = omega arith;
  wired = sym (append-nil wire);
  complete = λ d. refl;
})
sendraw-Progress total wire (fails [] answer rest t f) = gets _ (record {
  count = 0;
  within = omega arith;
  counted = omega arith;
  wired = sym (append-nil wire);
  complete = λ d. refl;
})
sendraw-Progress total wire (goes [] answer rest t d more) = gets _ (record {
  count = 0;
  within = omega arith;
  counted = omega arith;
  wired = sym (append-nil wire);
  complete = λ d. refl;
})
sendraw-Progress total wire (fails (c ∷ cs) answer rest t f) =
    rw (f, sendraw) (gets _ (sent_step answer (c ∷ cs) total wire t f))
sendraw-Progress total wire (goes (c ∷ cs) answer rest t d more) =
    rw (d, sendraw)
      (Gets-map (later answer (c ∷ cs) total wire t) (
        sendraw-Progress (total + answer.taken)
          (wire ++ take answer.taken (take step_size (c ∷ cs))) more))
