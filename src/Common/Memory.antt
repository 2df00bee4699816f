-- ===== src/Common/Memory.antt =====
-- Reads and writes at an offset of a C object.
use Prim.Native.Nat.{ℕ, ◌+◌}
use mathlib.Core.Path.{◌≡◌}
use mathlib.Core.List.{◌++◌, append_assoc}
use mathlib.Core.Bool.{false}
use mathlib.Core.Option.{Option, none, some}
use native.Mathlib.Omega.{arith}
use lilush.Common.Tests.{ltb, ltb-eq-false, if◌then◌else◌}
use lilush.Common.Lists.{Bytes, length, take, drop, length-append, take-append, drop-append}

-- `count` bytes at `offset`, if they lie within the object.
abbrev pub slice : Bytes → ℕ → ℕ → Option Bytes
slice bytes offset count =
    if ltb (length bytes) (offset + count) then none else some (take count (drop offset bytes))

-- A copy of `bytes` to `offset`, if it stays within the object.
abbrev pub write_at : Bytes → ℕ → Bytes → Option Bytes
write_at buffer offset bytes =
    if ltb (length buffer) (offset + length bytes)
    then none
    else some (take offset buffer ++ (bytes ++ drop (offset + length bytes) buffer))

-- The middle part of an object lies within it.
fits : (p a rest : Bytes) → ltb (length (p ++ (a ++ rest))) (length p + length a) ≡ false
fits p a rest = ltb-eq-false _ _ (omega (arith, length-append p (a ++ rest), length-append a rest))

drop-append_two : (p a rest : Bytes) → drop (length p + length a) (p ++ (a ++ rest)) ≡ rest
drop-append_two p a rest =
    rw (← length-append p a, ← append_assoc p a rest) (drop-append (p ++ a) rest)

pub slice-append :
    (p a rest : Bytes) {offset count : ℕ}
    → length p ≡ offset
    → length a ≡ count
    → slice (p ++ (a ++ rest)) offset count ≡ some a
slice-append p a rest ho hc =
    rw (← ho, ← hc) (rw (fits p a rest, drop-append p (a ++ rest), take-append a rest))

pub write_at-append :
    (p a rest new : Bytes) {offset : ℕ}
    → length p ≡ offset
    → length a ≡ length new
    → write_at (p ++ (a ++ rest)) offset new ≡ some (p ++ (new ++ rest))
write_at-append p a rest new ho hn =
    rw (← ho, ← hn) (rw (fits p a rest, take-append p (a ++ rest), drop-append_two p a rest))
