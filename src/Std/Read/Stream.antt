-- ===== src/Std/Read/Stream.antt =====
-- deviant_read over a descriptor that delivers a stream: `read` gives some of the bytes that are left,
-- at least one while there are any.
use lilush.Common.{
  ℕ, zero, suc, ◌-◌, ◌*◌, ◌≤◌, ◌<◌, ◌≡◌, refl, ◌∙◌, ap, Bytes, [], ◌∷◌, ◌++◌, append_assoc,
  append-nil, some, length, length-append, length-take, length-drop, take, drop, ◌==◌,
  if◌then◌else◌, ℤ, ok, sys_err, arith, true, false, Bool, not, ◌&&◌, ◌+◌, ◌%◌, sym, ==_iff,
  Bool-cases, inl, inr,
}
use lilush.Std.Posix.{Posix, failed, got}
use lilush.Std.Read.{size_limit, Loop, new_size, read_loop, deviant_read}

-- What `read` says of a regular file, a pipe or a socket: `pending` is what it has yet to deliver.
pub record IsStream (P : Posix) (fd : ℤ) : Type 0 where
  pub pending : P.World → Bytes
  -- how many bytes the kernel chooses to give
  pub given : ℕ → P.World → ℕ
  pub read_answer : (n : ℕ) (w : P.World) → (P.read fd n w).0 ≡ got (take (given n w) (pending w))
  pub pending-read :
      (n : ℕ) (w : P.World) → pending (P.read fd n w).1 ≡ drop (given n w) (pending w)
  pub given_most : (n : ℕ) (w : P.World) → given n w ≤ n
  pub given_some : (n : ℕ) (w : P.World) → 0 < n → 0 < given n w

take-append-drop : (n : ℕ) (xs : Bytes) → take n xs ++ drop n xs ≡ xs
take-append-drop zero xs = refl
take-append-drop (suc n) [] = refl
take-append-drop (suc n) (x ∷ xs) = ap (λ ys. x ∷ ys) (take-append-drop n xs)

take-nil : (n : ℕ) → ◌≡◌ {A = Bytes} (take n []) []
take-nil zero = refl
take-nil (suc n) = refl

mod_small : (n : ℕ) → n < size_limit → n % size_limit ≡ n
mod_small n h = omega arith

module _ (P : Posix) (fd : ℤ) (S : IsStream P fd) (granted : ℕ → Bool) (limit : ℕ)
    (memory : (size : ℕ) → size ≤ limit → granted size ≡ true) (fits : limit < size_limit) where
  read_loop-end :
      (fuel size : ℕ) (buffer : Bytes) (w : P.World)
      → S.pending w ≡ []
      → read_loop P granted (suc fuel) fd size buffer w
        ≡ some (record {
          is_null = false;
          last = got [];
          buffer = buffer;
          buffer_size = size;
          world = (P.read fd (size - length buffer) w).1;
        })
  unfolding read_loop
  read_loop-end fuel size buffer w e = rw (S.read_answer, e, take-nil, read_loop)

  read_loop-more :
      (fuel size g x : ℕ) (buffer xs : Bytes) (w : P.World)
      → S.pending w ≡ x ∷ xs
      → S.given (size - length buffer) w ≡ suc g
      → (length (buffer ++ (x ∷ take g xs)) == size
          && not (granted (new_size P (length (buffer ++ (x ∷ take g xs))) size)))
        ≡ false
      → read_loop P granted (suc fuel) fd size buffer w
        ≡ read_loop P granted fuel fd
            (new_size P (length (buffer ++ (x ∷ take g xs))) size)
            (buffer ++ (x ∷ take g xs))
            (P.read fd (size - length buffer) w).1
  unfolding read_loop
  read_loop-more fuel size g x buffer xs w e f m = rw (S.read_answer, e, f, read_loop) (rw (m) refl)

  new_size-full :
      (total size : ℕ)
      → (total == size) ≡ true
      → total * 2 ≤ limit
      → new_size P total size ≡ total * 2
  unfolding new_size
  new_size-full total size e h = rw (e) (
      ap (λ n. n * 2 % size_limit) (sym ((==_iff total size).0 e))
      ∙ mod_small (total * 2) (omega (arith, h, fits)))

  new_size-room : (total size : ℕ) → (total == size) ≡ false → new_size P total size ≡ size
  unfolding new_size
  new_size-room total size e = rw (e) refl

  -- A buffer that grows does so within the limit.
  new_size-granted :
      (total size : ℕ)
      → 0 < size
      → total * 2 ≤ limit
      → ((total == size && not (granted (new_size P total size))) ≡ false)
        × (total ≤ size → total < new_size P total size)
  new_size-granted total size z h = elim (Bool-cases (total == size)) [
    | inl e ↦
        let full = new_size-full total size e h in
        let there = memory (total * 2) h in
        let same = (==_iff total size).0 e in
        (rw (full, there, e) refl, λ l. omega (arith, full, same, z))
    | inr e ↦ (rw (e) refl, λ l. ground (arith, new_size-room total size e, ==_iff total size))
  ]

  abbrev Ends : ℕ → ℕ → Bytes → P.World → Type 0
  Ends fuel size buffer w =
      (l : Loop P) × (read_loop P granted fuel fd size buffer w ≡ some l)
      × (l.is_null ≡ false)
      × (l.last ≡ got [])
      × (l.buffer ≡ buffer ++ S.pending w)
      × (length l.buffer < l.buffer_size)

  -- The loop ends at the end of the stream with all that was left of it behind the buffer, and has
  -- kept the buffer within its size.
  read_loop-Ends :
      (fuel size : ℕ) (buffer : Bytes) (w : P.World) (p : Bytes) (g : ℕ)
      → S.pending w ≡ p
      → S.given (size - length buffer) w ≡ g
      → length p < fuel
      → length buffer < size
      → (length buffer + length p) * 2 ≤ limit
      → Ends fuel size buffer w
  read_loop-Ends zero size buffer w p g e f h k m = absurd (omega arith)
  read_loop-Ends (suc fuel) size buffer w [] g e f h k m = (
    record {
      is_null = false;
      last = got [];
      buffer = buffer;
      buffer_size = size;
      world = (P.read fd (size - length buffer) w).1;
    },
    read_loop-end fuel size buffer w e,
    refl,
    refl,
    rw (e, append-nil),
    k,
  )
  read_loop-Ends (suc fuel) size buffer w (x ∷ xs) zero e f h k m =
      absurd (omega (arith, S.given_some (size - length buffer) w))
  read_loop-Ends (suc fuel) size buffer w (x ∷ xs) (suc g) e f h k m =
      let buffer' : Bytes = buffer ++ (x ∷ take g xs) in
      let w' = (P.read fd (size - length buffer) w).1 in
      let left : S.pending w' ≡ drop g xs = S.pending-read _ w ∙ rw (e, f) in
      let more : length buffer' + length (drop g xs) ≡ length buffer + suc (length xs) = omega (
        arith,
        length-append buffer (x ∷ take g xs),
        ap length (take-append-drop g xs),
        length-append (take g xs) (drop g xs),
      ) in
      let (granted', room') =
        new_size-granted (length buffer') size (omega (arith, k)) (omega (arith, m, more)) in
      let (l, run, valid, last, all, room) =
        read_loop-Ends fuel (new_size P (length buffer') size) buffer' w' (drop g xs) _ left refl
          (omega (arith, length-drop g xs))
          (room' (
            ground (
              arith,
              length-append buffer (x ∷ take g xs),
              length-take g xs,
              S.given_most (size - length buffer) w,
            )))
          (omega (arith, m, more)) in
      (
        l,
        read_loop-more fuel size g x buffer xs w e f granted' ∙ run,
        valid,
        last,
        all
            ∙ rw (left, e)
                (rw (append_assoc buffer (x ∷ take g xs) (drop g xs))
                  (ap (λ ys. buffer ++ (x ∷ ys)) (take-append-drop g xs))),
        room,
      )

  -- With no count, and fuel for one round for each byte that is left and one more, deviant_read
  -- returns the whole rest of the stream and frees its buffer, if memory is granted for every size
  -- up to a limit below 2^64, of at least 1024 bytes and twice what is left of the stream.
  pub deviant_read-pending :
      (fuel : ℕ) (w : P.World)
      → length (S.pending w) < fuel
      → length (S.pending w) * 2 ≤ limit
      → 1024 ≤ limit
      → (w' : P.World) × (deviant_read P granted fuel fd 0 w
          ≡ some (record { result = ok (S.pending w); leaked = 0; world = w' }))
  unfolding deviant_read
  deviant_read-pending fuel w h m start =
      let (l, run, valid, last, all, room) =
        read_loop-Ends fuel 1024 [] w (S.pending w) _ refl refl h (omega arith)
          (omega (arith, m)) in
      (l.world, rw (memory 1024 start) (rw run (rw (valid, last, all))))

module _ (P : Posix) where
  -- A read that fails ends the call with its `errno`, and leaves the buffer on the heap, with or
  -- without a count.
  pub deviant_read-leaks :
      (granted : ℕ → Bool) (fuel count : ℕ) (fd : ℤ) (w : P.World)
      → granted (if count == 0 then 1024 else count) ≡ true
      → (P.read fd (if count == 0 then 1024 else count) w).0 ≡ failed
      → deviant_read P granted (suc fuel) fd count w
        ≡ some (record {
          result = sys_err (P.errno (P.read fd (if count == 0 then 1024 else count) w).1);
          leaked = 1;
          world = (P.read fd (if count == 0 then 1024 else count) w).1;
        })
  unfolding deviant_read read_loop
  deviant_read-leaks granted fuel zero fd w m h = ground arith
  deviant_read-leaks granted fuel (suc count) fd w m h = ground arith
