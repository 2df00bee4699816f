-- ===== src/Socket/Buffer/Lines.antt =====
-- A sequence of receive("*l") of luasocket's buffer.c on a stream of several lines.
use lilush.Common.{
  ℕ, zero, suc, ◌+◌, ◌≤◌, ◌<◌, ◌≡◌, refl, ap, ◌∙◌, true, false, Bytes, List, [], ◌∷◌, ◌++◌, Option,
  none, some, length, append_assoc, ltb, ◌==◌, Bool-cases, inl, inr, arith,
}
use mathlib.Core.Option
use lilush.Socket.Io.{IoResult, io_done, is_done, Answer}
use lilush.Socket.Buffer.{
  Buffer, stored, buffer_isempty, buffer_get, buffer_skip, after_get, Receipt, scan, recvline,
  a_line, buffer_meth_receive,
}
use lilush.Socket.Buffer.Stream.{
  filled-IsValid, stream, AllDone, IsValid, rounds, buffer_skip-IsValid,
}
use lilush.Socket.Buffer.Receive.{Ends, waiting, ended, if-Ends}
use lilush.Socket.Buffer.Returns.{Returns, returned}
use lilush.Socket.Buffer.Line.{buffer_meth_receive-IsLine}
use lilush.Socket.Buffer.Line.Text.{has_lf, until_lf, after_lf, drop_cr}

-- What the next calls can rely on.
record Steady (n : ℕ) (r : Receipt) : Type 0 where
  valid : IsValid r.rest
  done : AllDone r.answers
  bounded : rounds r.rest r.answers ≤ n

Ends-weaken : {n m : ℕ} {o : Option Receipt} → n ≤ m → Ends (Steady n) o → Ends (Steady m) o
Ends-weaken l waiting = waiting
Ends-weaken l (ended r s) =
    ended r (record { valid = s.valid; done = s.done; bounded = omega (arith, s.bounded) })

rounds_bound : {n : ℕ} (b : Buffer) (left : List Answer) → length left < n → rounds b left ≤ n
rounds_bound b left h = ground arith

-- `buffer_get` waits, or has an answer without an error.
data Goes (n : ℕ) : Option (IoResult × Buffer × List Answer) → Type 0 where
  stalls : Goes n none
  goes :
      (err : IoResult) (b : Buffer) (left : List Answer)
      → IsValid b
      → AllDone left
      → length left < n
      → Goes n (some (err, b, left))

buffer_get-Goes :
    (b : Buffer) (answers : List Answer)
    → IsValid b
    → AllDone answers
    → Goes (rounds b answers) (buffer_get b answers)
unfolding buffer_get
buffer_get-Goes b [] v d = elim (Bool-cases (buffer_isempty b)) [
  | inl e ↦ rw e stalls
  | inr e ↦ rw e (goes io_done b [] v d (omega arith))
]
buffer_get-Goes b (answer ∷ rest) v d = elim (Bool-cases (buffer_isempty b)) [
  | inl e ↦ rw e (goes answer.err _ rest (filled-IsValid b answer.got) d.1 (omega arith))
  | inr e ↦ rw e (goes io_done b (answer ∷ rest) v d (omega arith))
]

after_get-Steady :
    {n m : ℕ} {o : Option (IoResult × Buffer × List Answer)}
    {k : IoResult → Buffer → List Answer → Option Receipt}
    → Goes m o
    → ((err : IoResult) (b : Buffer) (left : List Answer)
        → IsValid b
        → AllDone left
        → length left < m
        → Ends (Steady n) (k err b left))
    → Ends (Steady n) (after_get o k)
unfolding after_get
after_get-Steady stalls f = waiting
after_get-Steady (goes err b left v d l) f = f err b left v d l

skipped-Steady :
    {n : ℕ} (err : IoResult) (text : Bytes) (b : Buffer) (count : ℕ) (left : List Answer)
    → IsValid b
    → AllDone left
    → length left < n
    → Ends
        (Steady n)
        (some (record { code = err; text = text; rest = buffer_skip b count; answers = left }))
skipped-Steady err text b count left v d l = ended _ (record {
  valid = buffer_skip-IsValid b count v;
  done = d;
  bounded = rounds_bound (buffer_skip b count) left l;
})

recvline-Steady :
    (fuel : ℕ) (text : Bytes) (b : Buffer) (answers : List Answer)
    → IsValid b
    → AllDone answers
    → Ends (Steady (rounds b answers)) (recvline fuel text b answers)
unfolding recvline
recvline-Steady zero text b answers v d = waiting
recvline-Steady (suc fuel) text b answers v d =
    after_get-Steady (buffer_get-Goes b answers v d) (λ err b1 left v1 d1 l.
      if-Ends (ltb (scan (stored b1)).1 (length (stored b1)))
        (λ found. skipped-Steady err _ b1 ((scan (stored b1)).1 + 1) left v1 d1 l)
        (λ missing.
          if-Ends (is_done err)
            (λ on. Ends-weaken (rounds_bound (buffer_skip b1 (scan (stored b1)).1) left l) (
              recvline-Steady fuel (text ++ (scan (stored b1)).0)
                (buffer_skip b1 (scan (stored b1)).1) left
                (buffer_skip-IsValid b1 (scan (stored b1)).1 v1) d1))
            (λ off. skipped-Steady err _ b1 (scan (stored b1)).1 left v1 d1 l)))

-- Lines, each with its newline.
unfoldable pub unlines : List Bytes → Bytes
unlines [] = []
unlines (line ∷ lines) = line ++ 10 ∷ unlines lines

-- No carriage return and no newline.
abbrev pub Plain : Bytes → Type 0
Plain [] = Unit {0}
Plain (c ∷ cs) = ((c == 10) ≡ false) × ((c == 13) ≡ false) × Plain cs

abbrev pub AllPlain : List Bytes → Type 0
AllPlain [] = Unit {0}
AllPlain (line ∷ lines) = Plain line × AllPlain lines

has_lf_line : (s rest : Bytes) → has_lf (s ++ 10 ∷ rest) ≡ true
unfolding has_lf
has_lf_line [] rest = refl
has_lf_line (c ∷ cs) rest = ground (arith, has_lf_line cs rest)

until_lf_line : (s rest : Bytes) → Plain s → drop_cr (until_lf (s ++ 10 ∷ rest)) ≡ s
unfolding until_lf drop_cr
until_lf_line [] rest h = refl
until_lf_line (c ∷ cs) rest (h, h', more) =
    rw (h, h') (ap (λ t. c ∷ t) (until_lf_line cs rest more))

after_lf_line : (s rest : Bytes) → Plain s → after_lf (s ++ 10 ∷ rest) ≡ rest
unfolding after_lf
after_lf_line [] rest h = refl
after_lf_line (c ∷ cs) rest (h, h', more) = rw h (after_lf_line cs rest more)

-- The next call of a program that receives line by line.
abbrev next_line :
    (Buffer → List Answer → Option (List Bytes)) → Option Receipt → Option (List Bytes)
next_line more none = none
next_line more (some r) = Option.map (λ lines. r.text ∷ lines) (more r.rest r.answers)

-- What so many calls of receive("*l") return, one after the other.
unfoldable pub receive_lines : ℕ → ℕ → Buffer → List Answer → Option (List Bytes)
unfolding buffer_meth_receive
receive_lines fuel zero b answers = some []
receive_lines fuel (suc count) b answers =
    next_line (receive_lines fuel count) (buffer_meth_receive fuel a_line [] b answers)

next_line-some :
    {P Q : Receipt → Type 0} {o : Option Receipt} (k : Buffer → List Answer → Option (List Bytes))
    {line : Bytes} {lines : List Bytes}
    → Returns P o
    → Ends Q o
    → ((r : Receipt) → P r → Q r → (r.text ≡ line) × (k r.rest r.answers ≡ some lines))
    → next_line k o ≡ some (line ∷ lines)
next_line-some k (returned r p) (ended _ q) f = rw ((f r p q).0, (f r p q).1) refl

-- As many calls of receive("*l") as there are lines in the stream return these lines, in their order
-- and each whole, wherever the answers of the transport cut them.
pub receive_lines-all :
    (fuel : ℕ) (lines : List Bytes) (more : Bytes) (b : Buffer) (answers : List Answer)
    → IsValid b
    → AllDone answers
    → AllPlain lines
    → stream b answers ≡ unlines lines ++ more
    → rounds b answers < fuel
    → receive_lines fuel (length lines) b answers ≡ some lines
unfolding receive_lines unlines
receive_lines-all fuel [] more b answers v d h e n = refl
receive_lines-all fuel (line ∷ lines) more b answers v d (h, hs) e n =
    let s : stream b answers ≡ line ++ 10 ∷ (unlines lines ++ more) =
      e ∙ append_assoc line (10 ∷ unlines lines) more in
    next_line-some (receive_lines fuel (length lines))
      (buffer_meth_receive-IsLine fuel [] b answers v d
        (ap has_lf s ∙ has_lf_line line (unlines lines ++ more)) n)
      (recvline-Steady fuel [] b answers v d)
      (λ r p q. (
        p.line ∙ ap (λ t. drop_cr (until_lf t)) s ∙ until_lf_line line _ h,
        receive_lines-all fuel lines more r.rest r.answers q.valid q.done hs
            (p.after ∙ ap after_lf s ∙ after_lf_line line _ h) (omega (arith, q.bounded)),
      ))
