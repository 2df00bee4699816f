-- ===== src/Socket/Buffer/All.antt =====
-- recvall of luasocket's buffer.c: everything up to the end of the transport.
use lilush.Common.{
  ℕ, zero, suc, ◌+◌, ◌<◌, ◌≡◌, refl, sym, ap, ◌∙◌, true, false, Bytes, List, [], ◌∷◌, ◌++◌, length,
  append-nil, append_assoc, length-append, Bool-cases, inl, inr, arith,
}
use lilush.Socket.Io.{IoResult, is_done, Answer}
use lilush.Socket.Buffer.{
  Buffer, stored, filled, buffer_isempty, buffer_skip, Receipt, recvall, all_code, everything,
  buffer_meth_receive,
}
use lilush.Socket.Buffer.Stream.{
  delivered, AllDone, IsValid, filled-IsValid, rounds, stored-filled, stored_empty, buffer_skip-all,
  buffer_skip-IsValid, buffer_skip-rounds, rounds_full,
}
use lilush.Socket.Buffer.Returns.{Returns, returned}

-- The text is `s`, with this code; nothing is left in the buffer.
pub record IsAll (code : IoResult) (s : Bytes) (left : List Answer) (r : Receipt) : Type 0 where
  pub code_is : r.code ≡ code
  pub text_is : r.text ≡ s
  pub left_is : r.answers ≡ left
  pub emptied : stored r.rest ≡ []

-- An answer in an empty buffer is at the head of what comes.
enter :
    (b : Buffer) (got d : Bytes)
    → buffer_isempty b ≡ true
    → stored (filled b got) ++ d ≡ stored b ++ (got ++ d)
enter b got d i = rw (stored-filled b got, stored_empty b i) refl

round_text :
    (text tail : Bytes) (b : Buffer) {s : Bytes}
    → text ++ (stored b ++ tail) ≡ s
    → (text ++ stored b) ++ (stored (buffer_skip b (length (stored b))) ++ tail) ≡ s
round_text text tail b e = rw (buffer_skip-all b) (append_assoc text (stored b) tail ∙ e)

round_count :
    (total n : ℕ) (tail : Bytes) (b : Buffer)
    → total + length (stored b ++ tail) ≡ n
    → total + length (stored b) + length (stored (buffer_skip b (length (stored b))) ++ tail) ≡ n
round_count total n tail b e = rw (buffer_skip-all b) (omega (arith, length-append (stored b) tail))

module _ (last : Answer) (rest : List Answer) (fails : is_done last.err ≡ false) (n : ℕ)
    (s : Bytes) where
  recvall-IsAll :
      (fuel total : ℕ) (text : Bytes) (b : Buffer) (before : List Answer)
      → IsValid b
      → AllDone before
      → rounds b before + 1 < fuel
      → text ++ (stored b ++ (delivered before ++ last.got)) ≡ s
      → total + length (stored b ++ (delivered before ++ last.got)) ≡ n
      → Returns
          (IsAll (all_code last.err n) s rest)
          (recvall fuel total text b (before ++ last ∷ rest))
  unfolding recvall
  recvall-IsAll zero total text b before v d h e c = absurd (omega arith)
  recvall-IsAll (suc fuel) total text b [] v d h e c = elim (Bool-cases (buffer_isempty b)) [
    | inl i ↦
        rw (i, fails)
          (returned _ (record {
            code_is = ap (all_code last.err) (
                ap (λ t. total + t)
                  (ap length (
                    sym (append-nil (stored (filled b last.got)))
                    ∙ enter b last.got [] i
                    ∙ ap (λ t. stored b ++ t) (append-nil last.got)))
                ∙ c);
            text_is =
                ap (λ t. text ++ t)
                  (sym (append-nil (stored (filled b last.got)))
                    ∙ enter b last.got [] i
                    ∙ ap (λ t. stored b ++ t) (append-nil last.got))
                ∙ e;
            left_is = refl;
            emptied = buffer_skip-all (filled b last.got);
          }))
    | inr i ↦ rw i (
        recvall-IsAll fuel (total + length (stored b)) (text ++ stored b)
          (buffer_skip b (length (stored b))) [] (buffer_skip-IsValid b (length (stored b)) v) d
          (omega (
            arith,
            buffer_skip-rounds b (length (stored b)) [] v (omega arith),
            rounds_full b [] i,
          ))
          (round_text text (delivered [] ++ last.got) b e)
          (round_count total n (delivered [] ++ last.got) b c))
  ]
  recvall-IsAll (suc fuel) total text b (answer ∷ before) v d h e c =
      elim (Bool-cases (buffer_isempty b)) [
        | inl i ↦
            rw (i, d.0)
              (recvall-IsAll fuel (total + length (stored (filled b answer.got)))
                (text ++ stored (filled b answer.got))
                (buffer_skip (filled b answer.got) (length (stored (filled b answer.got)))) before
                (buffer_skip-IsValid (filled b answer.got) (length (stored (filled b answer.got)))
                  (filled-IsValid b answer.got))
                d.1
                (omega (
                  arith,
                  buffer_skip-rounds (filled b answer.got) (length (stored (filled b answer.got)))
                      before (filled-IsValid b answer.got) (omega arith),
                ))
                (round_text text (delivered before ++ last.got) (filled b answer.got) (
                  ap (λ t. text ++ t)
                    (enter b answer.got (delivered before ++ last.got) i
                      ∙ ap (λ t. stored b ++ t)
                          (sym (append_assoc answer.got (delivered before) last.got)))
                  ∙ e))
                (round_count total n (delivered before ++ last.got) (filled b answer.got) (
                  ap (λ t. total + length t)
                    (enter b answer.got (delivered before ++ last.got) i
                      ∙ ap (λ t. stored b ++ t)
                          (sym (append_assoc answer.got (delivered before) last.got)))
                  ∙ c)))
        | inr i ↦ rw i (
            recvall-IsAll fuel (total + length (stored b)) (text ++ stored b)
              (buffer_skip b (length (stored b))) (answer ∷ before)
              (buffer_skip-IsValid b (length (stored b)) v) d
              (omega (
                arith,
                buffer_skip-rounds b (length (stored b)) (answer ∷ before) v (omega arith),
                rounds_full b (answer ∷ before) i,
              ))
              (round_text text (delivered (answer ∷ before) ++ last.got) b e)
              (round_count total n (delivered (answer ∷ before) ++ last.got) b c))
      ]

-- `receive("*a")` after `part`, when the transport fails for the first time with `last`: it returns
-- `part`, all that was in the buffer and all that the transport gave up to then, and leaves nothing
-- behind. The code is that of `last`, but IO_CLOSED counts as IO_DONE when there was anything to read.
pub buffer_meth_receive-everything :
    (fuel : ℕ) (part : Bytes) (b : Buffer) (before rest : List Answer) (last : Answer)
    → IsValid b
    → AllDone before
    → is_done last.err ≡ false
    → rounds b before + 1 < fuel
    → Returns
        (IsAll
          (all_code last.err (length (stored b ++ (delivered before ++ last.got))))
          (part ++ (stored b ++ (delivered before ++ last.got)))
          rest)
        (buffer_meth_receive fuel everything part b (before ++ last ∷ rest))
unfolding buffer_meth_receive
buffer_meth_receive-everything fuel part b before rest last v d fails h =
    recvall-IsAll last rest fails _ _ fuel 0 part b before v d h refl (omega arith)
