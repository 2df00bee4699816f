-- ===== src/Std/Read.antt =====
-- deviant_read of std/std.c. The buffer is what has been read into it, with its size, a `size_t`. The
-- results of `malloc` and `realloc` are not looked at, and a NULL buffer is handed to `read`.
pub mod Stream
use lilush.Common.{
  ℕ, zero, suc, ◌+◌, ◌-◌, ◌*◌, Bytes, [], ◌∷◌, ◌++◌, Option, none, some, length, ltb, ◌==◌,
  if◌then◌else◌, ℤ, Outcome, ok, sys_err, fault, Bool, true, false, not, ◌&&◌, ◌%◌,
}
use lilush.Std.Posix.{Posix, Answer, failed, got}

-- A `size_t` is below this.
abbrev pub size_limit : ℕ
size_limit = 18446744073709551616

module _ (P : Posix) where
  -- What the call returns, how many of its buffers are left on the heap, and the state.
  pub record Reading : Type 0 where
    pub result : Outcome Bytes
    pub leaked : ℕ
    pub world : P.World

  -- The end of the loop: whether `realloc` has given NULL, the last answer of `read`, the buffer, its
  -- size, and the state.
  pub record Loop : Type 0 where
    pub is_null : Bool
    pub last : Answer
    pub buffer : Bytes
    pub buffer_size : ℕ
    pub world : P.World

  abbrev ended : Answer → Bytes → ℕ → P.World → Loop
  ended last buffer buffer_size w = record {
    is_null = false;
    last = last;
    buffer = buffer;
    buffer_size = buffer_size;
    world = w;
  }

  -- The size of the buffer when `total` bytes are in it.
  unfoldable pub new_size : ℕ → ℕ → ℕ
  new_size total buffer_size =
      if total == buffer_size then buffer_size * 2 % size_limit else buffer_size

  -- The loop of the branch `count == 0`; `none` means that the fuel ran out. `granted` says for which
  -- sizes there is memory.
  unfoldable pub read_loop : (granted : ℕ → Bool) → ℕ → ℤ → ℕ → Bytes → P.World → Option Loop
  unfolding new_size
  read_loop granted zero fd buffer_size buffer w = none
  read_loop granted (suc fuel) fd buffer_size buffer w =
      let (answer, w') = P.read fd (buffer_size - length buffer) w in
      elim answer [
        | failed ↦ some (ended failed buffer buffer_size w')
        | got [] ↦ some (ended (got []) buffer buffer_size w')
        | got (b ∷ bs) ↦
            let buffer' = buffer ++ (b ∷ bs) in
            let size = new_size (length buffer') buffer_size in
            let rest = read_loop granted fuel fd size buffer' w' in
            if length buffer' == buffer_size && not (granted size)
            then some (record (ended (got (b ∷ bs)) buffer' size w') { is_null = true })
            else rest
      ]

  -- `RETURN_ERR` comes before `free(buffer)`.
  abbrev finish : Answer → Bytes → P.World → Reading
  finish failed buffer w = record { result = sys_err (P.errno w); leaked = 1; world = w }
  finish (got bs) buffer w = record { result = ok buffer; leaked = 0; world = w }

  -- Reading into NULL is undefined. The block that `realloc` could not enlarge stays on the heap.
  abbrev finish_loop : Option Loop → Option Reading
  finish_loop none = none
  finish_loop (some l) = some (
      if l.is_null
      then record { result = fault; leaked = 1; world = l.world }
      else finish l.last l.buffer l.world)

  abbrev no_memory : P.World → Reading
  no_memory w = record { result = fault; leaked = 0; world = w }

  -- One read of `count` bytes.
  abbrev read_once : Answer × P.World → Reading
  read_once (failed, w) = finish failed [] w
  read_once (got bs, w) = finish (got bs) bs w

  unfoldable pub deviant_read : (granted : ℕ → Bool) → ℕ → ℤ → ℕ → P.World → Option Reading
  unfolding read_loop
  deviant_read granted fuel fd zero w =
      if granted 1024 then finish_loop (read_loop granted fuel fd 1024 [] w) else some (no_memory w)
  deviant_read granted fuel fd (suc count) w =
      some (if granted (suc count) then read_once (P.read fd (suc count) w) else no_memory w)
