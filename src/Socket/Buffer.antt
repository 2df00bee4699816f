-- ===== src/Socket/Buffer.antt =====
-- buffer.c of luasocket: the read buffer of a connection, and the loops that receive and send. What
-- the transport answers is a list; `none` means that a loop still waits when the list ends.
pub mod Stream
pub mod Receive
pub mod Returns
pub mod All
pub mod Bounds
pub mod Line
pub mod Lines
pub mod Send
use lilush.Common.{
  ℕ, zero, suc, ◌+◌, ◌-◌, ◌≤◌, ◌||◌, Bool, true, false, not, Bytes, List, [], ◌∷◌, ◌++◌, Option,
  none, some, length, take, drop, ltb, leb, ◌==◌, if◌then◌else◌, ℤ, pos, negsuc,
}
use lilush.Socket.Io.{
  IoResult, io_done, io_timeout, io_closed, io_unknown, lsec_io_ssl, io_errno, is_done, buf_size,
  Answer,
}

-- `t_buffer` but for its times and its transport. The array has BUF_SIZE bytes.
pub record Buffer : Type 0 where
  pub first : ℕ
  pub last : ℕ
  pub bytes : Bytes
  pub received : ℕ
  pub sent : ℕ

unfoldable pub buffer_init : Bytes → Buffer
buffer_init bytes = record { first = 0; last = 0; bytes = bytes; received = 0; sent = 0 }

-- What has been received and sent; the third result is an age.
unfoldable pub buffer_meth_getstats : Buffer → ℕ × ℕ
buffer_meth_getstats b = (b.received, b.sent)

abbrev default : ℕ → Option ℕ → ℕ
default n none = n
default n (some m) = m

unfoldable pub buffer_meth_setstats : Option ℕ → Option ℕ → Buffer → Buffer
buffer_meth_setstats received sent b = record b {
  received = default b.received received;
  sent = default b.sent sent;
}

abbrev pub buffer_isempty : Buffer → Bool
buffer_isempty b = leb b.last b.first

-- `data` and `count` of `buffer_get`: what lies between the indices.
abbrev pub stored : Buffer → Bytes
stored b = take (b.last - b.first) (drop b.first b.bytes)

-- What the transport has written to the array.
abbrev pub filled : Buffer → Bytes → Buffer
filled b got = record b { first = 0; last = length got; bytes = got ++ drop (length got) b.bytes }

-- The code, the buffer whose stored bytes are the data, and the answers left.
unfoldable pub buffer_get : Buffer → List Answer → Option (IoResult × Buffer × List Answer)
buffer_get b answers =
    if buffer_isempty b
    then elim answers [ [] ↦ none | answer ∷ rest ↦ some (answer.err, filled b answer.got, rest) ]
    else some (io_done, b, answers)

unfoldable pub buffer_skip : Buffer → ℕ → Buffer
buffer_skip b count =
    if leb b.last (b.first + count)
    then record b { received = b.received + count; first = 0; last = 0 }
    else record b { received = b.received + count; first = b.first + count }

abbrev pub min_of : ℕ → ℕ → ℕ
min_of x y = if ltb x y then x else y

-- How a loop ends: its code, what it has added to the Lua buffer, and what is left.
pub record Receipt : Type 0 where
  pub code : IoResult
  pub text : Bytes
  pub rest : Buffer
  pub answers : List Answer

-- What a loop does with the answer of `buffer_get`.
unfoldable pub after_get :
    Option (IoResult × Buffer × List Answer)
    → (IoResult → Buffer → List Answer → Option Receipt)
    → Option Receipt
after_get none k = none
after_get (some (err, b, answers)) k = k err b answers

-- The loops take fuel; `none` where it ends, or the answers. `wanted` is what is left of it.
unfoldable pub recvraw : ℕ → ℕ → Bytes → Buffer → List Answer → Option Receipt
unfolding buffer_get buffer_skip after_get
recvraw zero wanted text b answers = none
recvraw (suc fuel) wanted text b answers = after_get (buffer_get b answers) (λ err b1 left.
    let count = min_of (length (stored b1)) wanted in
    let text1 = text ++ take count (stored b1) in
    let b2 = buffer_skip b1 count in
    let more = recvraw fuel (wanted - count) text1 b2 left in
    if leb wanted count || not (is_done err)
    then some (record { code = err; text = text1; rest = b2; answers = left })
    else more)

-- `total > 0` at the end, behind IO_CLOSED.
abbrev pub all_code : IoResult → ℕ → IoResult
all_code io_closed zero = io_closed
all_code io_closed (suc total) = io_done
all_code err total = err

unfoldable pub recvall : ℕ → ℕ → Bytes → Buffer → List Answer → Option Receipt
unfolding buffer_get buffer_skip after_get
recvall zero total text b answers = none
recvall (suc fuel) total text b answers = after_get (buffer_get b answers) (λ err b1 left.
    let total1 = total + length (stored b1) in
    let text1 = text ++ stored b1 in
    let b2 = buffer_skip b1 (length (stored b1)) in
    let more = recvall fuel total1 text1 b2 left in
    if is_done err
    then more
    else some (record { code = all_code err total1; text = text1; rest = b2; answers = left }))

-- The inner loop of `recvline`: the characters in front of the first newline but the carriage returns,
-- and how many there are of both.
abbrev pub scan : Bytes → Bytes × ℕ
scan [] = ([], 0)
scan (c ∷ cs) =
    let (line, at) = scan cs in
    if c == 10 then ([], 0) else (if c == 13 then line else c ∷ line, suc at)

unfoldable pub recvline : ℕ → Bytes → Buffer → List Answer → Option Receipt
unfolding buffer_get buffer_skip after_get
recvline zero text b answers = none
recvline (suc fuel) text b answers = after_get (buffer_get b answers) (λ err b1 left.
    let (line, at) = scan (stored b1) in
    let text1 = text ++ line in
    let more = recvline fuel text1 (buffer_skip b1 at) left in
    if ltb at (length (stored b1))
    then some (record { code = err; text = text1; rest = buffer_skip b1 (at + 1); answers = left })
    else if is_done err
    then more
    else some (record { code = err; text = text1; rest = buffer_skip b1 at; answers = left }))

-- The pattern of `receive`: "*l", "*a" or a number.
pub data Pattern : Type 0 where
  a_line everything : Pattern
  a_number : ℕ → Pattern

-- `part` is what the caller has received before. With a number that `part` fills nothing is read.
unfoldable pub buffer_meth_receive : ℕ → Pattern → Bytes → Buffer → List Answer → Option Receipt
unfolding recvraw recvall recvline
buffer_meth_receive fuel a_line part b answers = recvline fuel part b answers
buffer_meth_receive fuel everything part b answers = recvall fuel 0 part b answers
buffer_meth_receive fuel (a_number wanted) part b answers =
    if length part == 0 || ltb (length part) wanted
    then recvraw fuel (wanted - length part) part b answers
    else some (record { code = io_done; text = part; rest = b; answers = answers })

-- STEPSIZE
abbrev pub step_size : ℕ
step_size = 8192

-- One answer of `io->send`: its code, and how many bytes it has taken.
pub record Sending : Type 0 where
  pub code : IoResult
  pub taken : ℕ

-- What `sendraw` returns and counts, and the bytes that the transport has taken.
pub record Sent : Type 0 where
  pub result : IoResult
  pub total : ℕ
  pub wire : Bytes

-- `text` is what is left to send, `total` what has been sent; the text of one call has at most
-- STEPSIZE bytes.
unfoldable pub sendraw : Bytes → ℕ → Bytes → List Sending → Option Sent
sendraw [] total wire answers = some (record { result = io_done; total = total; wire = wire })
sendraw (c ∷ cs) total wire [] = none
sendraw (c ∷ cs) total wire (answer ∷ rest) =
    let step = take step_size (c ∷ cs) in
    let total1 = total + answer.taken in
    let wire1 = wire ++ take answer.taken step in
    elim (is_done answer.code) [
      | true ↦ sendraw (drop answer.taken (c ∷ cs)) total1 wire1 rest
      | false ↦ some (record { result = answer.code; total = total1; wire = wire1 })
    ]

-- The first and the last position to send, counted from 1; a negative index counts from the end, -1
-- being the last byte.
abbrev pub first_index : ℕ → ℤ → ℕ
first_index size (pos zero) = 1
first_index size (pos (suc n)) = suc n
first_index size (negsuc n) = if ltb (size - n) 1 then 1 else size - n

abbrev pub last_index : ℕ → ℤ → ℕ
last_index size (pos n) = min_of n size
last_index size (negsuc n) = size - n

-- The buffer with its count, and what the method returns: its code, and the position of the last byte
-- that was sent.
pub record SendRun : Type 0 where
  pub outcome : Sent
  pub position : ℕ
  pub buffer : Buffer

abbrev pub finish_send : ℕ → Buffer → Option Sent → Option SendRun
finish_send start b none = none
finish_send start b (some s) = some (record {
  outcome = s;
  position = s.total + start - 1;
  buffer = record b { sent = b.sent + s.total };
})

unfoldable pub buffer_meth_send : Bytes → ℤ → ℤ → Buffer → List Sending → Option SendRun
unfolding sendraw
buffer_meth_send text i j b answers =
    let start = first_index (length text) i in
    let stop = last_index (length text) j in
    finish_send start b (
      if leb start stop
      then sendraw (take (stop + 1 - start) (drop (start - 1) text)) 0 [] answers
      else some (record { result = io_done; total = 0; wire = [] }))
