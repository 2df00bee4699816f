-- ===== src/Socket/Buffer/Line.antt =====
-- recvline of luasocket's buffer.c: the stream up to the first newline.
pub mod Text
use lilush.Common.{
  ℕ, zero, suc, ◌+◌, ◌-◌, ◌≤◌, ◌<◌, ◌≡◌, refl, sym, ap, ◌∙◌, ◌||◌, not, Bool, true, false, Bytes,
  List, [], ◌∷◌, ◌++◌, Option, none, some, length, take, drop, append-nil, append_assoc,
  length-append, length-take, ltb, leb, lt→ltb, ltb-eq-false, if◌then◌else◌, Bool-cases, ◌⊎◌, inl,
  inr, arith,
}
use mathlib.Core.Path.{subst}
use lilush.Socket.Io.{IoResult, io_done, io_closed, is_done, Answer}
use lilush.Socket.Buffer.{
  Buffer, stored, filled, buffer_isempty, buffer_get, buffer_skip, after_get, Receipt, scan,
  recvline, a_line, buffer_meth_receive,
}
use lilush.Socket.Buffer.Stream.{
  delivered, stream, AllDone, IsValid, rounds, stored-filled, stored_empty, buffer_skip-all,
  buffer_skip-drop, buffer_skip-IsValid, buffer_skip-rounds, buffer_get-Gives,
}
use lilush.Socket.Buffer.Returns.{Returns, returned, after_get-Returns, if-Returns}
use lilush.Socket.Buffer.Line.Text.{
  has_lf, until_lf, after_lf, drop_cr, Found, Missing, scan-Found, scan-Missing, has_lf-append,
  until_lf-append, after_lf-append, until_lf-past, after_lf-past, drop_cr-append, has_lf-nonempty,
}

-- The first line of `s` is added to the text, and the stream goes on behind its newline.
pub record IsLine (text s : Bytes) (r : Receipt) : Type 0 where
  pub good : is_done r.code ≡ true
  pub line : r.text ≡ text ++ drop_cr (until_lf s)
  pub after : stream r.rest r.answers ≡ after_lf s

-- The newline is in what the buffer has.
found-IsLine :
    (err : IoResult) (text s : Bytes) (b : Buffer) (left : List Answer)
    → is_done err ≡ true
    → has_lf (stored b) ≡ true
    → stream b left ≡ s
    → IsLine text s (record {
      code = err;
      text = text ++ (scan (stored b)).0;
      rest = buffer_skip b ((scan (stored b)).1 + 1);
      answers = left;
    })
found-IsLine err text s b left d h e =
    let f = scan-Found (stored b) h in
    record {
      good = d;
      line =
          ap (λ t. text ++ t)
            (f.line
              ∙ ap drop_cr (sym (until_lf-append (stored b) (delivered left) h) ∙ ap until_lf e));
      after =
          ap (λ t. t ++ delivered left) (buffer_skip-drop b ((scan (stored b)).1 + 1) ∙ f.rest)
          ∙ sym (after_lf-append (stored b) (delivered left) h)
          ∙ ap after_lf e;
    }

-- It is not: all that the buffer has belongs to the line.
missing-IsLine :
    (text s : Bytes) (b : Buffer) (left : List Answer) (r : Receipt)
    → has_lf (stored b) ≡ false
    → stream b left ≡ s
    → IsLine (text ++ (scan (stored b)).0) (delivered left) r
    → IsLine text s r
missing-IsLine text s b left r h e x =
    let f = scan-Missing (stored b) h in
    record {
      good = x.good;
      line =
          x.line
          ∙ append_assoc text (scan (stored b)).0 (drop_cr (until_lf (delivered left)))
          ∙ ap (λ t. text ++ t)
              (ap (λ t. t ++ drop_cr (until_lf (delivered left))) f.line
                ∙ sym (drop_cr-append (stored b) (until_lf (delivered left)))
                ∙ ap drop_cr (sym (until_lf-past (stored b) (delivered left) h) ∙ ap until_lf e));
      after = x.after ∙ sym (after_lf-past (stored b) (delivered left) h) ∙ ap after_lf e;
    }

scanned :
    (b : Buffer) (left : List Answer)
    → has_lf (stored b) ≡ false
    → stream (buffer_skip b (scan (stored b)).1) left ≡ delivered left
scanned b left h =
    ap (λ k. stored (buffer_skip b k) ++ delivered left) (Missing.ends (scan-Missing (stored b) h))
    ∙ ap (λ t. t ++ delivered left) (buffer_skip-all b)

Returns-map :
    {P Q : Receipt → Type 0} {o : Option Receipt}
    → ((r : Receipt) → P r → Q r)
    → Returns P o
    → Returns Q o
Returns-map f (returned r p) = returned r (f r p)

recvline-IsLine :
    (fuel : ℕ) (text : Bytes) (b : Buffer) (answers : List Answer)
    → IsValid b
    → AllDone answers
    → has_lf (stream b answers) ≡ true
    → rounds b answers < fuel
    → Returns (IsLine text (stream b answers)) (recvline fuel text b answers)
unfolding recvline
recvline-IsLine zero text b answers v d h n = absurd (omega arith)
recvline-IsLine (suc fuel) text b answers v d h n =
    after_get-Returns (buffer_get-Gives b answers v (has_lf-nonempty (stream b answers) h))
      (λ err b1 left v1 e m k. elim (Bool-cases (has_lf (stored b1))) [
        | inl found ↦
            rw (lt→ltb _ _ (Found.within (scan-Found (stored b1) found)))
              (returned _ (found-IsLine err text (stream b answers) b1 left (k d).0 found e))
        | inr missing ↦
            rw
              (
                ltb-eq-false (scan (stored b1)).1 (length (stored b1))
                    (omega (arith, Missing.ends (scan-Missing (stored b1) missing))),
                (k d).0,
              )
              (Returns-map
                (λ r x. missing-IsLine text (stream b answers) b1 left r missing e (
                  subst (λ t. IsLine (text ++ (scan (stored b1)).0) t r) (scanned b1 left missing)
                    x))
                (recvline-IsLine fuel (text ++ (scan (stored b1)).0)
                  (buffer_skip b1 (scan (stored b1)).1) left
                  (buffer_skip-IsValid b1 (scan (stored b1)).1 v1) (k d).1
                  (ap has_lf (scanned b1 left missing)
                    ∙ sym (has_lf-append (stored b1) (delivered left) missing)
                    ∙ ap has_lf e
                    ∙ h)
                  (omega (
                    arith,
                    buffer_skip-rounds b1 (scan (stored b1)).1 left v1
                        (omega (arith, Missing.ends (scan-Missing (stored b1) missing))),
                  ))))
      ])

-- `receive("*l")` after `part`, while the transport delivers a newline without an error: it returns
-- `part` and the bytes in front of the newline, but the carriage returns among them, and what it
-- leaves in the buffer and the transport is the stream behind the newline.
pub buffer_meth_receive-IsLine :
    (fuel : ℕ) (part : Bytes) (b : Buffer) (answers : List Answer)
    → IsValid b
    → AllDone answers
    → has_lf (stream b answers) ≡ true
    → rounds b answers < fuel
    → Returns (IsLine part (stream b answers)) (buffer_meth_receive fuel a_line part b answers)
unfolding buffer_meth_receive
buffer_meth_receive-IsLine fuel part b answers v d h n = recvline-IsLine fuel part b answers v d h n
