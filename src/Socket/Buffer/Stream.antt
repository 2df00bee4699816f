-- ===== src/Socket/Buffer/Stream.antt =====
-- The bytes that a connection of luasocket's buffer.c has still to give: those in its buffer, then those
-- that the transport will deliver.
use lilush.Common.{
  ℕ, zero, suc, ◌+◌, ◌-◌, ◌≤◌, ◌<◌, ◌≡◌, refl, sym, ap, ◌∙◌, true, false, Bytes, List, [], ◌∷◌,
  ◌++◌, Option, none, some, length, take, drop, take-append, append-nil, length-append, length-take,
  length-drop, leb, if◌then◌else◌, Bool-cases, inl, inr, arith,
}
use native.Mathlib.Nat.{zero-add, suc-add}
use lilush.Socket.Io.{IoResult, io_done, is_done, Answer}
use lilush.Socket.Buffer.{Buffer, buffer_isempty, stored, filled, buffer_get, buffer_skip}

pub leb→le : (m n : ℕ) → leb m n ≡ true → m ≤ n
leb→le m n h = ground arith

-- What a list of answers delivers.
abbrev pub delivered : List Answer → Bytes
delivered [] = []
delivered (answer ∷ rest) = answer.got ++ delivered rest

abbrev pub stream : Buffer → List Answer → Bytes
stream b answers = stored b ++ delivered answers

pub take-append-drop : (n : ℕ) (xs : Bytes) → take n xs ++ drop n xs ≡ xs
take-append-drop zero xs = refl
take-append-drop (suc n) [] = refl
take-append-drop (suc n) (x ∷ xs) = ap (λ ys. x ∷ ys) (take-append-drop n xs)

pub take_all : (n : ℕ) (xs : Bytes) → length xs ≤ n → take n xs ≡ xs
take_all zero [] h = refl
take_all zero (x ∷ xs) h = ground arith
take_all (suc n) [] h = refl
take_all (suc n) (x ∷ xs) h = ap (λ ys. x ∷ ys) (take_all n xs (omega arith))

pub drop-nil : (n : ℕ) → ◌≡◌ {A = Bytes} (drop n []) []
drop-nil zero = refl
drop-nil (suc n) = refl

pub take-zero : (n : ℕ) (xs : Bytes) → n ≡ 0 → take n xs ≡ []
take-zero n xs h = rw h refl

pub take-nil : (n : ℕ) → ◌≡◌ {A = Bytes} (take n []) []
take-nil zero = refl
take-nil (suc n) = refl

pub drop-drop : (m n : ℕ) (xs : Bytes) → drop n (drop m xs) ≡ drop (m + n) xs
drop-drop zero n xs = rw zero-add
drop-drop (suc m) n [] = drop-nil n ∙ sym (drop-nil (suc m + n))
drop-drop (suc m) n (x ∷ xs) = rw suc-add (drop-drop m n xs)

pub drop-take : (m n : ℕ) (xs : Bytes) → drop m (take n xs) ≡ take (n - m) (drop m xs)
drop-take zero n xs = ap (λ k. take k xs) (omega arith)
drop-take (suc m) zero xs = sym (take-zero (0 - suc m) (drop (suc m) xs) (omega arith))
drop-take (suc m) (suc n) [] = sym (take-nil (suc n - suc m))
drop-take (suc m) (suc n) (x ∷ xs) = drop-take m n xs ∙ ap (λ k. take k (drop m xs)) (omega arith)

pub stored-filled : (b : Buffer) (got : Bytes) → stored (filled b got) ≡ got
stored-filled b got =
    ap (λ k. take k (got ++ drop (length got) b.bytes)) (omega arith)
    ∙ take-append got (drop (length got) b.bytes)

pub stored_empty : (b : Buffer) → buffer_isempty b ≡ true → stored b ≡ []
stored_empty b h = take-zero (b.last - b.first) (drop b.first b.bytes) (ground arith)

-- A step that leaves the stream as it was.
pub data Keeps (s : Bytes) : Option (IoResult × Buffer × List Answer) → Type 0 where
  waits : Keeps s none
  keeps :
      (err : IoResult) (b : Buffer) (answers : List Answer)
      → stream b answers ≡ s
      → Keeps s (some (err, b, answers))

-- The data that `buffer_get` finds is at the head of the stream.
pub buffer_get-Keeps :
    (b : Buffer) (answers : List Answer) → Keeps (stream b answers) (buffer_get b answers)
unfolding buffer_get
buffer_get-Keeps b [] = elim (Bool-cases (buffer_isempty b)) [
  | inl e ↦ rw e waits
  | inr e ↦ rw e (keeps io_done b [] refl)
]
buffer_get-Keeps b (answer ∷ rest) = elim (Bool-cases (buffer_isempty b)) [
  | inl e ↦ rw e (
      keeps answer.err (filled b answer.got) rest
        (rw (stored-filled b answer.got, stored_empty b e) refl))
  | inr e ↦ rw e (keeps io_done b (answer ∷ rest) refl)
]

-- What is skipped is the head of what is stored.
pub buffer_skip-stored :
    (b : Buffer) (count : ℕ) → take count (stored b) ++ stored (buffer_skip b count) ≡ stored b
unfolding buffer_skip
buffer_skip-stored b count = elim (Bool-cases (leb b.last (b.first + count))) [
  | inl e ↦ rw e (
      append-nil (take count (stored b))
      ∙ take_all count (stored b) (
          omega (
            arith,
            length-take (b.last - b.first) (drop b.first b.bytes),
            leb→le b.last (b.first + count) e,
          )))
  | inr e ↦
      rw (e, ← drop-drop b.first count b.bytes)
        (ap (λ k. take count (stored b) ++ take k (drop count (drop b.first b.bytes))) (omega arith)
          ∙ ap (λ t. take count (stored b) ++ t)
              (sym (drop-take count (b.last - b.first) (drop b.first b.bytes)))
          ∙ take-append-drop count (stored b))
]

-- The data of a buffer lies within its array.
abbrev pub IsValid : Buffer → Type 0
IsValid b = b.last ≤ length b.bytes

pub filled-IsValid : (b : Buffer) (got : Bytes) → IsValid (filled b got)
filled-IsValid b got = omega (arith, length-append got (drop (length got) b.bytes))

-- How many rounds a loop takes at most that empties the buffer in each.
abbrev pub rounds : Buffer → List Answer → ℕ
rounds b answers = length answers + (if buffer_isempty b then 0 else 1)

pub rounds_full :
    (b : Buffer) (answers : List Answer)
    → buffer_isempty b ≡ false
    → rounds b answers ≡ length answers + 1
rounds_full b answers e = rw e refl

-- Every answer comes with IO_DONE.
abbrev pub AllDone : List Answer → Type 0
AllDone [] = Unit {0}
AllDone (answer ∷ rest) = (is_done answer.err ≡ true) × AllDone rest

-- `buffer_get` has an answer, and the rounds that follow are fewer.
pub data Gives (b : Buffer) (answers : List Answer)
    : Option (IoResult × Buffer × List Answer) → Type 0 where
  gives :
      (err : IoResult) (b1 : Buffer) (left : List Answer)
      → IsValid b1
      → stream b1 left ≡ stream b answers
      → length left < rounds b answers
      → (AllDone answers → (is_done err ≡ true) × AllDone left)
      → Gives b answers (some (err, b1, left))

pub buffer_get-Gives :
    (b : Buffer) (answers : List Answer)
    → IsValid b
    → 0 < length (stream b answers)
    → Gives b answers (buffer_get b answers)
unfolding buffer_get
buffer_get-Gives b [] v h = elim (Bool-cases (buffer_isempty b)) [
  | inl e ↦ absurd (omega (arith, ap length (stored_empty b e), length-append (stored b) []))
  | inr e ↦ rw e (gives io_done b [] v refl (rw e (omega arith)) (λ d. (refl, d)))
]
buffer_get-Gives b (answer ∷ rest) v h = elim (Bool-cases (buffer_isempty b)) [
  | inl e ↦ rw e (
      gives answer.err (filled b answer.got) rest (filled-IsValid b answer.got)
        (rw (stored-filled b answer.got, stored_empty b e) refl) (rw e (omega arith)) (λ d. d))
  | inr e ↦ rw e (gives io_done b (answer ∷ rest) v refl (rw e (omega arith)) (λ d. (refl, d)))
]

pub length-stored : (b : Buffer) → IsValid b → length (stored b) ≡ b.last - b.first
length-stored b v =
    omega
      (arith, length-take (b.last - b.first) (drop b.first b.bytes), length-drop b.first b.bytes)

pub buffer_skip-IsValid : (b : Buffer) (count : ℕ) → IsValid b → IsValid (buffer_skip b count)
unfolding buffer_skip
buffer_skip-IsValid b count v = ground arith

-- Skipping all that is stored empties the buffer.
pub buffer_skip-rounds :
    (b : Buffer) (count : ℕ) (answers : List Answer)
    → IsValid b
    → length (stored b) ≤ count
    → rounds (buffer_skip b count) answers ≡ length answers
unfolding buffer_skip
buffer_skip-rounds b count answers v h = ground (arith, length-stored b v)

length_zero : (xs : Bytes) → length xs ≡ 0 → xs ≡ []
length_zero [] h = refl
length_zero (x ∷ xs) h = absurd (omega arith)

pub buffer_skip-all : (b : Buffer) → stored (buffer_skip b (length (stored b))) ≡ []
buffer_skip-all b = length_zero (stored (buffer_skip b (length (stored b)))) (
    omega (
      arith,
      ap length (buffer_skip-stored b (length (stored b))),
      length-append (take (length (stored b)) (stored b))
          (stored (buffer_skip b (length (stored b)))),
      length-take (length (stored b)) (stored b),
    ))

pub buffer_skip-drop :
    (b : Buffer) (count : ℕ) → stored (buffer_skip b count) ≡ drop count (stored b)
unfolding buffer_skip
buffer_skip-drop b count = elim (Bool-cases (leb b.last (b.first + count))) [
  | inl e ↦ rw e (
      sym (
        drop-take count (b.last - b.first) (drop b.first b.bytes)
        ∙ take-zero (b.last - b.first - count) (drop count (drop b.first b.bytes))
            (omega (arith, leb→le b.last (b.first + count) e))))
  | inr e ↦
      rw (e, ← drop-drop b.first count b.bytes)
        (ap (λ k. take k (drop count (drop b.first b.bytes))) (omega arith)
          ∙ sym (drop-take count (b.last - b.first) (drop b.first b.bytes)))
]
