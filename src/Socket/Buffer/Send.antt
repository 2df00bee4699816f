-- ===== src/Socket/Buffer/Send.antt =====
-- What buffer_meth_send and sendraw of luasocket's buffer.c send.
pub mod Range
pub mod Taken
use lilush.Common.{
  ℕ, zero, suc, ◌+◌, ◌-◌, ◌≤◌, ◌<◌, ◌≡◌, refl, sym, ap, ◌∙◌, Bool, true, false, Bytes, List, [],
  ◌∷◌, ◌++◌, Option, none, some, length, take, drop, append-nil, append_assoc, length-append,
  length-take, length-drop, ltb, leb, if◌then◌else◌, Bool-cases, inl, inr, ℤ, pos, negsuc, arith,
}
use native.Mathlib.Nat.{suc-add}
use lilush.Socket.Io.{IoResult, io_done, is_done}
use lilush.Socket.Buffer.{
  Buffer, stored, step_size, Sending, Sent, sendraw, first_index, last_index, SendRun, finish_send,
  buffer_meth_send,
}
use lilush.Socket.Buffer.Stream.{take-append-drop, take_all, drop-drop, drop-take}
use lilush.Socket.Buffer.Send.Taken.{
  Takes, TakesAll, nothing_left, takes, TakesAll-Takes, Progress, Gets, gets, sendraw-Progress,
}
use lilush.Socket.Buffer.Send.Range.{
  selected, picked, picked-slice, first_index-pos, first_index-of, leb-false,
}

-- What has been sent of `text`, `i` to `j`, and what is left behind the position that is returned.
pub record IsSent (text : Bytes) (i j : ℤ) (b : Buffer) (r : SendRun) : Type 0 where
  pub conserved :
      r.outcome.wire ++ picked (selected (length text) (pos (r.position + 1)) j) 1 text
      ≡ picked (selected (length text) i j) 1 text
  pub complete :
      is_done r.outcome.result ≡ true → r.outcome.wire ≡ picked (selected (length text) i j) 1 text
  pub counted : r.buffer.sent ≡ b.sent + length r.outcome.wire
  pub kept : stored r.buffer ≡ stored b

pub data Sends (P : SendRun → Type 0) : Option SendRun → Type 0 where
  sends : (r : SendRun) → P r → Sends P (some r)

slice_of : Bytes → ℤ → ℤ → Bytes
slice_of text i j =
    take (last_index (length text) j + 1 - first_index (length text) i)
      (drop (first_index (length text) i - 1) text)

-- The count that sendraw has added to the first position is where the slice goes on.
slice-rest :
    (text : Bytes) (i j : ℤ) (count : ℕ)
    → slice_of text (pos (count + first_index (length text) i - 1 + 1)) j
      ≡ drop count (slice_of text i j)
unfolding slice_of
slice-rest text i j count =
    let size = length text in
    let first = first_index size i in
    let last = last_index size j in
    let next : first_index size (pos (count + first - 1 + 1)) ≡ first + count =
      first_index-of size (count + first - 1 + 1) (omega arith)
      ∙ omega (arith, first_index-pos size i) in
    let fewer : last + 1 - (first + count) ≡ last + 1 - first - count = omega arith in
    let further : first + count - 1 ≡ first - 1 + count = omega (arith, first_index-pos size i) in
    ap (λ k. take (last + 1 - k) (drop (k - 1) text)) next
    ∙ ap (λ k. take k (drop (first + count - 1) text)) fewer
    ∙ ap (λ k. take (last + 1 - first - count) (drop k text)) further
    ∙ ap (λ t. take (last + 1 - first - count) t) (sym (drop-drop (first - 1) count text))
    ∙ sym (drop-take count (last + 1 - first) (drop (first - 1) text))

picked-slice_of :
    (i j : ℤ) (text : Bytes) → picked (selected (length text) i j) 1 text ≡ slice_of text i j
unfolding slice_of
picked-slice_of i j text = picked-slice i j text

finish_send-IsSent :
    (text : Bytes) (i j : ℤ) (b : Buffer) {o : Option Sent}
    → Gets (Progress (slice_of text i j) [] 0) o
    → Sends (IsSent text i j b) (finish_send (first_index (length text) i) b o)
finish_send-IsSent text i j b (gets s p) =
    let at : s.total ≡ p.count = omega (arith, p.counted) in
    let next : s.total + first_index (length text) i - 1 + 1
        ≡ p.count + first_index (length text) i - 1 + 1 =
      omega (arith, at) in
    sends _ (record {
      conserved = rw (picked-slice_of i j text) (
          ap (λ w. s.wire ++ w)
            (ap (λ k. picked (selected (length text) (pos k) j) 1 text) next
              ∙ picked-slice_of (pos (p.count + first_index (length text) i - 1 + 1)) j text
              ∙ slice-rest text i j p.count)
          ∙ ap (λ w. w ++ drop p.count (slice_of text i j)) p.wired
          ∙ take-append-drop p.count (slice_of text i j));
      complete = λ d.
          p.wired
          ∙ take_all p.count (slice_of text i j) (omega (arith, p.complete d))
          ∙ sym (picked-slice_of i j text);
      counted =
          omega (arith, at, ap length p.wired, length-take p.count (slice_of text i j), p.within);
      kept = refl;
    })

nothing-Progress :
    {text : Bytes}
    → length text ≡ 0
    → Progress text [] 0 (record { result = io_done; total = 0; wire = [] })
nothing-Progress h = record {
  count = 0;
  within = omega arith;
  counted = omega arith;
  wired = refl;
  complete = λ d. omega arith;
}

-- `send(text, i, j)` to a transport that takes what it is offered or fails: it returns; what it has
-- sent and what lies behind the position that it returns are together the bytes from `i` to `j`, an
-- index below 0 counting from the end; with IO_DONE it has sent them all. The bytes are counted, and
-- what has been received stays in the buffer.
pub buffer_meth_send-IsSent :
    (text : Bytes) (i j : ℤ) (b : Buffer) (answers : List Sending)
    → Takes
        (take
          (last_index (length text) j + 1 - first_index (length text) i)
          (drop (first_index (length text) i - 1) text))
        answers
    → Sends (IsSent text i j b) (buffer_meth_send text i j b answers)
unfolding buffer_meth_send slice_of
buffer_meth_send-IsSent text i j b answers t =
    elim (Bool-cases (leb (first_index (length text) i) (last_index (length text) j))) [
      | inl e ↦ rw e (finish_send-IsSent text i j b (sendraw-Progress 0 [] t))
      | inr e ↦ rw e (
          finish_send-IsSent text i j b (
            gets _ (
              nothing-Progress (
                omega (
                  arith,
                  leb-false (first_index (length text) i) (last_index (length text) j) e,
                  length-take (last_index (length text) j + 1 - first_index (length text) i)
                      (drop (first_index (length text) i - 1) text),
                )))))
    ]

-- The transport has taken all that the method means to send.
pub record IsAllSent (text : Bytes) (i j : ℤ) (b : Buffer) (r : SendRun) : Type 0 where
  pub finished : is_done r.outcome.result ≡ true
  pub wired : r.outcome.wire ≡ picked (selected (length text) i j) 1 text
  pub counted : r.buffer.sent ≡ b.sent + length r.outcome.wire

sendraw-done :
    {text : Bytes} {answers : List Sending} (total : ℕ) (wire : Bytes)
    → TakesAll text answers
    → Gets (λ s. is_done s.result ≡ true) (sendraw text total wire answers)
unfolding sendraw
sendraw-done total wire (nothing_left answers) = gets _ refl
sendraw-done total wire (takes [] answer rest l d more) = gets _ refl
sendraw-done total wire (takes (c ∷ cs) answer rest l d more) =
    rw (d, sendraw)
      (sendraw-done (total + answer.taken) (wire ++ take answer.taken (take step_size (c ∷ cs)))
        more)

Gets-Sends :
    {o : Option Sent} (start : ℕ) (b : Buffer)
    → Gets (λ s. is_done s.result ≡ true) o
    → Sends (λ r. is_done r.outcome.result ≡ true) (finish_send start b o)
Gets-Sends start b (gets s d) = sends _ d

Sends-all :
    {text : Bytes} {i j : ℤ} {b : Buffer} {o : Option SendRun}
    → Sends (IsSent text i j b) o
    → Sends (λ r. is_done r.outcome.result ≡ true) o
    → Sends (IsAllSent text i j b) o
Sends-all (sends r s) (sends r' d) =
    sends r (record { finished = d; wired = s.complete d; counted = s.counted })

pub buffer_meth_send-IsAllSent :
    (text : Bytes) (i j : ℤ) (b : Buffer) (answers : List Sending)
    → TakesAll
        (take
          (last_index (length text) j + 1 - first_index (length text) i)
          (drop (first_index (length text) i - 1) text))
        answers
    → Sends (IsAllSent text i j b) (buffer_meth_send text i j b answers)
unfolding buffer_meth_send
buffer_meth_send-IsAllSent text i j b answers t =
    Sends-all (buffer_meth_send-IsSent text i j b answers (TakesAll-Takes t))
      (elim (Bool-cases (leb (first_index (length text) i) (last_index (length text) j))) [
        | inl e ↦ rw e (Gets-Sends (first_index (length text) i) b (sendraw-done 0 [] t))
        | inr e ↦ rw e (sends _ refl)
      ])
