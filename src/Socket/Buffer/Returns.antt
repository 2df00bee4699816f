-- ===== src/Socket/Buffer/Returns.antt =====
-- recvraw of luasocket's buffer.c returns when the stream has what it waits for.
use lilush.Common.{
  ℕ, zero, suc, ◌+◌, ◌-◌, ◌≤◌, ◌<◌, ◌≡◌, refl, ap, ◌||◌, not, Bool, true, false, Bytes, List, [],
  ◌++◌, Option, some, length, take, length-append, length-take, leb, ◌==◌, lt→ltb, if◌then◌else◌,
  arith,
}
use lilush.Socket.Io.{IoResult, is_done, Answer}
use lilush.Socket.Buffer.{
  Buffer, stored, buffer_skip, after_get, min_of, Receipt, recvraw, a_number, buffer_meth_receive,
}
use lilush.Socket.Buffer.Stream.{
  stream, AllDone, IsValid, rounds, Gives, gives, buffer_get-Gives, buffer_skip-IsValid,
  buffer_skip-rounds,
}
use lilush.Socket.Buffer.Receive.{moved, Ends, waiting, ended, IsExact, recvraw-IsExact}

-- A loop that has ended as `P` says.
pub data Returns (P : Receipt → Type 0) : Option Receipt → Type 0 where
  returned : (r : Receipt) → P r → Returns P (some r)

pub Ends-Returns :
    {P Q : Receipt → Type 0} {o : Option Receipt} → Ends P o → Returns Q o → Returns P o
Ends-Returns (ended r p) q = returned r p
Ends-Returns waiting q = elim q [ ]

pub if-Returns :
    {P : Receipt → Type 0} {o o' : Option Receipt} (c : Bool)
    → (c ≡ true → Returns P o)
    → (c ≡ false → Returns P o')
    → Returns P (if c then o else o')
if-Returns true t f = t refl
if-Returns false t f = f refl

pub after_get-Returns :
    {P : Receipt → Type 0} {b : Buffer} {answers : List Answer}
    {o : Option (IoResult × Buffer × List Answer)}
    {k : IoResult → Buffer → List Answer → Option Receipt}
    → Gives b answers o
    → ((err : IoResult) (b1 : Buffer) (left : List Answer)
        → IsValid b1
        → stream b1 left ≡ stream b answers
        → length left < rounds b answers
        → (AllDone answers → (is_done err ≡ true) × AllDone left)
        → Returns P (k err b1 left))
    → Returns P (after_get o k)
unfolding after_get
after_get-Returns (gives err b1 left v e n d) f = f err b1 left v e n d

abbrev Any : Receipt → Type 0
Any r = r ≡ r

not_reached : (x y : ℕ) (c : Bool) → (leb x y || c) ≡ false → y < x
not_reached x y true h = absurd (ground arith)
not_reached x y false h = ground arith

-- A round that does not end the loop has emptied the buffer.
emptied :
    (wanted : ℕ) (xs : Bytes)
    → min_of (length xs) wanted < wanted
    → length xs ≤ min_of (length xs) wanted
emptied wanted xs h = ground arith

length-skip :
    (b : Buffer) (count : ℕ) (answers : List Answer)
    → length (stream b answers) ≤ count + length (stream (buffer_skip b count) answers)
length-skip b count answers = omega (
  arith,
  ap length (moved [] count b answers),
  length-append (take count (stored b)) (stream (buffer_skip b count) answers),
  length-take count (stored b),
)

or_true : (x : Bool) {y : Bool} → y ≡ true → (x || y) ≡ true
or_true true h = refl
or_true false h = h

recvraw_ends :
    (fuel wanted : ℕ) (text : Bytes) (b : Buffer) (answers : List Answer)
    → IsValid b
    → 0 < wanted
    → wanted ≤ length (stream b answers)
    → rounds b answers < fuel
    → Returns Any (recvraw fuel wanted text b answers)
unfolding recvraw
recvraw_ends zero wanted text b answers v p h n = absurd (omega arith)
recvraw_ends (suc fuel) wanted text b answers v p h n =
    after_get-Returns (buffer_get-Gives b answers v (omega arith)) (λ err b1 left v1 e m d.
      let count = min_of (length (stored b1)) wanted in
      if-Returns (leb wanted count || not (is_done err)) (λ stop. returned _ refl)
        (λ on.
          let short = not_reached wanted count (not (is_done err)) on in
          recvraw_ends fuel (wanted - count) (text ++ take count (stored b1)) (buffer_skip b1 count)
            left (buffer_skip-IsValid b1 count v1) (omega arith)
            (omega (arith, length-skip b1 count left, ap length e))
            (omega
              (arith, buffer_skip-rounds b1 count left v1 (emptied wanted (stored b1) short)))))

-- `receive(n)` after `part` bytes, on a connection that has the bytes it waits for: it returns, and what
-- it returns is `part` and a prefix of the stream, none lost, doubled or out of order, `n` bytes in
-- all, or fewer with a code other than IO_DONE; the buffer and the transport keep the rest.
pub buffer_meth_receive-IsExact :
    (fuel wanted : ℕ) (part : Bytes) (b : Buffer) (answers : List Answer)
    → IsValid b
    → length part < wanted
    → wanted ≤ length part + length (stream b answers)
    → rounds b answers < fuel
    → Returns
        (IsExact (wanted - length part) part (stream b answers))
        (buffer_meth_receive fuel (a_number wanted) part b answers)
unfolding buffer_meth_receive
buffer_meth_receive-IsExact fuel wanted part b answers v p h n =
    rw (or_true (length part == 0) (lt→ltb (length part) wanted p)) (
      Ends-Returns (recvraw-IsExact fuel (wanted - length part) part b answers)
        (recvraw_ends fuel (wanted - length part) part b answers v (omega arith) (omega arith) n))
