-- ===== src/Socket/Buffer/Bounds.antt =====
-- The indices of luasocket's buffer.c stay within its array.
use lilush.Common.{
  ℕ, zero, suc, ◌+◌, ◌-◌, ◌≤◌, ◌≡◌, ◌||◌, not, false, Bytes, List, [], ◌∷◌, ◌++◌, Option, none,
  some, length, take, drop, length-append, length-drop, ltb, leb, ◌==◌, Bool-cases, inl, inr, arith,
}
use lilush.Socket.Io.{IoResult, io_done, is_done, buf_size, Answer}
use lilush.Socket.Buffer.{
  Buffer, buffer_init, buffer_isempty, stored, filled, buffer_get, buffer_skip, min_of, Receipt,
  after_get, recvraw, recvall, scan, recvline, Pattern, a_line, everything, a_number,
  buffer_meth_receive,
}
use lilush.Socket.Buffer.Receive.{Ends, waiting, ended, if-Ends}

-- The array has BUF_SIZE bytes, and the data lies between the indices within it.
pub record IsBounded (b : Buffer) : Type 0 where
  pub sized : length b.bytes ≡ buf_size
  pub ordered : b.first ≤ b.last
  pub within : b.last ≤ buf_size

-- The transport writes no more than BUF_SIZE bytes, which it is asked for.
abbrev pub Fits : List Answer → Type 0
Fits [] = Unit {0}
Fits (answer ∷ rest) = (length answer.got ≤ buf_size) × Fits rest

-- So is the buffer of a receipt.
pub record IsInside (r : Receipt) : Type 0 where
  pub bounded : IsBounded r.rest

data Holds : Option (IoResult × Buffer × List Answer) → Type 0 where
  nothing : Holds none
  holds :
      (err : IoResult) (b : Buffer) (left : List Answer)
      → IsBounded b
      → Fits left
      → Holds (some (err, b, left))

pub buffer_init-IsBounded :
    (bytes : Bytes) → length bytes ≡ buf_size → IsBounded (buffer_init bytes)
unfolding buffer_init
buffer_init-IsBounded bytes e = record { sized = e; ordered = omega arith; within = omega arith }

filled-IsBounded :
    (b : Buffer) (got : Bytes) → IsBounded b → length got ≤ buf_size → IsBounded (filled b got)
filled-IsBounded b got v l = record {
  sized = omega (
    arith,
    v.sized,
    length-append got (drop (length got) b.bytes),
    length-drop (length got) b.bytes,
  );
  ordered = omega arith;
  within = l;
}

buffer_get-Holds :
    (b : Buffer) (answers : List Answer) → IsBounded b → Fits answers → Holds (buffer_get b answers)
unfolding buffer_get
buffer_get-Holds b [] v f = elim (Bool-cases (buffer_isempty b)) [
  | inl e ↦ rw e nothing
  | inr e ↦ rw e (holds io_done b [] v f)
]
buffer_get-Holds b (answer ∷ rest) v f = elim (Bool-cases (buffer_isempty b)) [
  | inl e ↦
      rw e (holds answer.err (filled b answer.got) rest (filled-IsBounded b answer.got v f.0) f.1)
  | inr e ↦ rw e (holds io_done b (answer ∷ rest) v f)
]

leb-false : (m n : ℕ) → leb m n ≡ false → n ≤ m
leb-false m n h = ground arith

buffer_skip-IsBounded : (b : Buffer) (count : ℕ) → IsBounded b → IsBounded (buffer_skip b count)
unfolding buffer_skip
buffer_skip-IsBounded b count v = elim (Bool-cases (leb b.last (b.first + count))) [
  | inl e ↦ rw e (record { sized = v.sized; ordered = omega arith; within = omega arith })
  | inr e ↦ rw e (record {
    sized = v.sized;
    ordered = leb-false b.last (b.first + count) e;
    within = v.within;
  })
]

after_get-IsInside :
    {o : Option (IoResult × Buffer × List Answer)}
    {k : IoResult → Buffer → List Answer → Option Receipt}
    → Holds o
    → ((err : IoResult) (b : Buffer) (left : List Answer)
        → IsBounded b
        → Fits left
        → Ends IsInside (k err b left))
    → Ends IsInside (after_get o k)
unfolding after_get
after_get-IsInside nothing f = waiting
after_get-IsInside (holds err b left v fits) f = f err b left v fits

inside :
    (code : IoResult) (text : Bytes) (b : Buffer) (count : ℕ) (left : List Answer)
    → IsBounded b
    → Ends IsInside
        (some (record { code = code; text = text; rest = buffer_skip b count; answers = left }))
inside code text b count left v = ended _ (record { bounded = buffer_skip-IsBounded b count v })

recvraw-IsInside :
    (fuel wanted : ℕ) (text : Bytes) (b : Buffer) (answers : List Answer)
    → IsBounded b
    → Fits answers
    → Ends IsInside (recvraw fuel wanted text b answers)
unfolding recvraw
recvraw-IsInside zero wanted text b answers v f = waiting
recvraw-IsInside (suc fuel) wanted text b answers v f =
    after_get-IsInside (buffer_get-Holds b answers v f) (λ err b1 left v1 f1.
      let count = min_of (length (stored b1)) wanted in
      if-Ends (leb wanted count || not (is_done err)) (λ stop. inside err _ b1 count left v1)
        (λ on.
          recvraw-IsInside fuel (wanted - count) (text ++ take count (stored b1))
            (buffer_skip b1 count) left (buffer_skip-IsBounded b1 count v1) f1))

recvall-IsInside :
    (fuel total : ℕ) (text : Bytes) (b : Buffer) (answers : List Answer)
    → IsBounded b
    → Fits answers
    → Ends IsInside (recvall fuel total text b answers)
unfolding recvall
recvall-IsInside zero total text b answers v f = waiting
recvall-IsInside (suc fuel) total text b answers v f =
    after_get-IsInside (buffer_get-Holds b answers v f) (λ err b1 left v1 f1.
      let count = length (stored b1) in
      if-Ends (is_done err)
        (λ on.
          recvall-IsInside fuel (total + count) (text ++ stored b1) (buffer_skip b1 count) left
            (buffer_skip-IsBounded b1 count v1) f1)
        (λ stop. inside _ _ b1 count left v1))

recvline-IsInside :
    (fuel : ℕ) (text : Bytes) (b : Buffer) (answers : List Answer)
    → IsBounded b
    → Fits answers
    → Ends IsInside (recvline fuel text b answers)
unfolding recvline
recvline-IsInside zero text b answers v f = waiting
recvline-IsInside (suc fuel) text b answers v f =
    after_get-IsInside (buffer_get-Holds b answers v f) (λ err b1 left v1 f1.
      let at = (scan (stored b1)).1 in
      if-Ends (ltb at (length (stored b1))) (λ found. inside err _ b1 (at + 1) left v1)
        (λ missing.
          if-Ends (is_done err)
            (λ on.
              recvline-IsInside fuel (text ++ (scan (stored b1)).0) (buffer_skip b1 at) left
                (buffer_skip-IsBounded b1 at v1) f1)
            (λ stop. inside err _ b1 at left v1)))

-- Whatever `receive` is asked for and whatever the transport answers, as long as that is never more
-- than BUF_SIZE bytes: when it returns, the indices of the buffer are in order and within the array,
-- which has kept its size.
pub buffer_meth_receive-IsInside :
    (fuel : ℕ) (pattern : Pattern) (part : Bytes) (b : Buffer) (answers : List Answer)
    → IsBounded b
    → Fits answers
    → Ends IsInside (buffer_meth_receive fuel pattern part b answers)
unfolding buffer_meth_receive
buffer_meth_receive-IsInside fuel a_line part b answers v f =
    recvline-IsInside fuel part b answers v f
buffer_meth_receive-IsInside fuel everything part b answers v f =
    recvall-IsInside fuel 0 part b answers v f
buffer_meth_receive-IsInside fuel (a_number wanted) part b answers v f =
    if-Ends (length part == 0 || ltb (length part) wanted)
      (λ more. recvraw-IsInside fuel (wanted - length part) part b answers v f)
      (λ enough. ended _ (record { bounded = v }))
