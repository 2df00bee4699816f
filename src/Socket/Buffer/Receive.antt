-- ===== src/Socket/Buffer/Receive.antt =====
-- recvraw and recvall of luasocket's buffer.c over the stream of bytes.
use lilush.Common.{
  ℕ, zero, suc, ◌+◌, ◌-◌, ◌≤◌, ◌≡◌, refl, sym, ap, ◌∙◌, ◌||◌, not, Bool, true, false, Bytes, List,
  ◌++◌, Option, none, some, length, take, append_assoc, length-append, length-take, leb,
  if◌then◌else◌, Bool-cases, ◌⊎◌, inl, inr, arith,
}
use mathlib.Core.Path.{subst}
use lilush.Socket.Io.{IoResult, is_done, Answer}
use lilush.Socket.Buffer.{Buffer, stored, buffer_skip, after_get, min_of, Receipt, recvraw}
use lilush.Socket.Buffer.Stream.{
  delivered, stream, Keeps, waits, keeps, buffer_get-Keeps, buffer_skip-stored,
}

-- A loop that waits, or has ended as `P` says.
pub data Ends (P : Receipt → Type 0) : Option Receipt → Type 0 where
  waiting : Ends P none
  ended : (r : Receipt) → P r → Ends P (some r)

pub Ends-some :
    {P : Receipt → Type 0} {o : Option Receipt} {r : Receipt} → Ends P o → o ≡ some r → P r
Ends-some waiting e = ground arith
Ends-some {P} (ended r p) e = subst P (cc) p

pub after_get-Ends :
    {P : Receipt → Type 0} {s : Bytes} {o : Option (IoResult × Buffer × List Answer)}
    {k : IoResult → Buffer → List Answer → Option Receipt}
    → Keeps s o
    → ((err : IoResult) (b : Buffer) (answers : List Answer)
        → stream b answers ≡ s
        → Ends P (k err b answers))
    → Ends P (after_get o k)
unfolding after_get
after_get-Ends waits f = waiting
after_get-Ends (keeps err b answers e) f = f err b answers e

pub Ends-map :
    {P Q : Receipt → Type 0} {o : Option Receipt}
    → ((r : Receipt) → P r → Q r)
    → Ends P o
    → Ends Q o
Ends-map f waiting = waiting
Ends-map f (ended r p) = ended r (f r p)

pub if-Ends :
    {P : Receipt → Type 0} {o o' : Option Receipt} (c : Bool)
    → (c ≡ true → Ends P o)
    → (c ≡ false → Ends P o')
    → Ends P (if c then o else o')
if-Ends true t f = t refl
if-Ends false t f = f refl

-- What a receipt and what is left of the stream have in all.
abbrev pub whole : Receipt → Bytes
whole r = r.text ++ stream r.rest r.answers

-- `count` bytes of what is stored go to the text.
pub moved :
    (text : Bytes) (count : ℕ) (b : Buffer) (answers : List Answer)
    → (text ++ take count (stored b)) ++ stream (buffer_skip b count) answers
      ≡ text ++ stream b answers
moved text count b answers =
    append_assoc text (take count (stored b)) (stream (buffer_skip b count) answers)
    ∙ ap (λ s. text ++ s)
        (sym (
            append_assoc (take count (stored b)) (stored (buffer_skip b count)) (delivered answers))
          ∙ ap (λ s. s ++ delivered answers) (buffer_skip-stored b count))

-- The text has `wanted` bytes more, or fewer and the code says why; none is lost, doubled or out of
-- order.
pub record IsExact (wanted : ℕ) (text s : Bytes) (r : Receipt) : Type 0 where
  pub conserved : whole r ≡ text ++ s
  pub at_most : length r.text ≤ length text + wanted
  pub complete : (is_done r.code ≡ false) ⊎ (length r.text ≡ length text + wanted)

length-taken :
    (text xs : Bytes) (wanted : ℕ)
    → length (text ++ take (min_of (length xs) wanted) xs) ≡ length text + min_of (length xs) wanted
length-taken text xs wanted = ground (
  arith,
  length-append text (take (min_of (length xs) wanted) xs),
  length-take (min_of (length xs) wanted) xs,
)

min_of-le : (x y : ℕ) → min_of x y ≤ y
min_of-le x y = ground arith

-- A step of the loop, and what the rest of the loop makes of it.
step-IsExact :
    (wanted : ℕ) (text s : Bytes) (b : Buffer) (answers : List Answer) (r : Receipt)
    → stream b answers ≡ s
    → IsExact
        (wanted - min_of (length (stored b)) wanted)
        (text ++ take (min_of (length (stored b)) wanted) (stored b))
        (stream (buffer_skip b (min_of (length (stored b)) wanted)) answers)
        r
    → IsExact wanted text s r
step-IsExact wanted text s b answers r e x = record {
  conserved =
      x.conserved
      ∙ moved text (min_of (length (stored b)) wanted) b answers
      ∙ ap (λ t. text ++ t) e;
  at_most =
      omega (
        arith,
        x.at_most,
        length-taken text (stored b) wanted,
        min_of-le (length (stored b)) wanted,
      );
  complete = elim x.complete [
    | inl f ↦ inl f
    | inr f ↦
        inr
          (omega (arith, length-taken text (stored b) wanted, min_of-le (length (stored b)) wanted))
  ];
}

stop-IsExact :
    (err : IoResult) (wanted : ℕ) (text : Bytes) (b : Buffer) (answers : List Answer) (count : ℕ)
    → (leb wanted count || not (is_done err)) ≡ true
    → IsExact
        (wanted - count)
        text
        (stream b answers)
        (record { code = err; text = text; rest = b; answers = answers })
stop-IsExact err wanted text b answers count h = record {
  conserved = refl;
  at_most = omega arith;
  complete = elim (Bool-cases (is_done err)) [ inl d ↦ inr (ground arith) | inr d ↦ inl d ];
}

pub recvraw-IsExact :
    (fuel wanted : ℕ) (text : Bytes) (b : Buffer) (answers : List Answer)
    → Ends (IsExact wanted text (stream b answers)) (recvraw fuel wanted text b answers)
unfolding recvraw
recvraw-IsExact zero wanted text b answers = waiting
recvraw-IsExact (suc fuel) wanted text b answers =
    after_get-Ends (buffer_get-Keeps b answers) (λ err b1 left e.
      let count = min_of (length (stored b1)) wanted in
      Ends-map (λ r x. step-IsExact wanted text (stream b answers) b1 left r e x)
        (if-Ends (leb wanted count || not (is_done err))
          (λ stop. ended _ (stop-IsExact err wanted _ _ left count stop))
          (λ on.
            recvraw-IsExact fuel (wanted - count) (text ++ take count (stored b1))
              (buffer_skip b1 count) left)))
