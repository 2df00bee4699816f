-- ===== src/Std/Dir.antt =====
-- deviant_list_dir and deviant_fast_list_dir of std/std.c. What the kernel delivers is a list; what is
-- still open when a function returns is part of its result.
pub mod Entries
pub mod Table
use lilush.Common.{
  ℕ, zero, suc, ◌+◌, ◌-◌, ◌*◌, ◌⊎◌, inl, inr, ◌&&◌, map, Bool, true, false, not, Bytes, List, [],
  ◌∷◌, ◌++◌, Option, none, some, length, c_string, drop, ltb, ◌==◌, if◌then◌else◌, Outcome, ok,
  sys_err, fault,
}

-- The result of a call, and the directories that it leaves open.
pub record Listing (A : Type 0) : Type 0 where
  pub result : Outcome A
  pub open_dirs : ℕ

-- `opendir` fails with an `errno` or gives the names that `readdir` delivers. The table has them at
-- 1, 2, ….
unfoldable pub deviant_list_dir : ℕ ⊎ List Bytes → Listing (List Bytes)
deviant_list_dir (inl errno) = record { result = sys_err errno; open_dirs = 0 }
deviant_list_dir (inr entries) = record { result = ok (map c_string entries); open_dirs = 0 }

-- The byte at an offset of the buffer.
abbrev pub byte_at : Bytes → ℕ → Option ℕ
byte_at [] i = none
byte_at (b ∷ bs) zero = some b
byte_at (b ∷ bs) (suc i) = byte_at bs i

-- Whether the eight bytes of `d_ino` are all zero.
abbrev pub all_zero : ℕ → Bytes → Bool
all_zero zero bs = true
all_zero (suc n) [] = true
all_zero (suc n) (b ∷ bs) = b == 0 && all_zero n bs

-- One `struct linux_dirent` at the head of the rest of the buffer: `d_reclen` at offset 16, the name
-- from 18 on, the type in the record's last byte. The rest behind it, and the entry unless `d_ino` is
-- 0; `none` where the record does not lie in the buffer.
unfoldable pub read_entry : Bytes → Option (Option (Bytes × ℕ) × Bytes)
read_entry d = elim (byte_at d 16) [
  | none ↦ none
  | some low ↦ elim (byte_at d 17) [
    | none ↦ none
    | some high ↦
        let d_reclen = low + 256 * high in
        elim (byte_at d (d_reclen - 1)) [
          | none ↦ none
          | some d_type ↦
              some (
                if all_zero 8 d then none else some (c_string (drop 18 d), d_type),
                drop d_reclen d,
              )
        ]
  ]
]

abbrev pub push : {A : Type 0} → Option A → List A → List A
push none pushed = pushed
push (some a) pushed = pushed ++ (a ∷ [])

-- The inner loop, over what is left of one answer: the assignments to the table in order.
unfoldable pub read_entries : ℕ → Bytes → List (Bytes × ℕ) → Option (List (Bytes × ℕ))
read_entries zero d pushed = none
read_entries (suc fuel) [] pushed = some pushed
read_entries (suc fuel) (b ∷ bs) pushed = elim (read_entry (b ∷ bs)) [
  | none ↦ none
  | some (entry, rest) ↦ read_entries fuel rest (push entry pushed)
]

-- The outer loop, over the answers of `getdents`: an `errno`, or what it wrote, which is nothing at the
-- end. Nothing closes the directory.
unfoldable pub getdents_loop : ℕ → List (ℕ ⊎ Bytes) → List (Bytes × ℕ) → Listing (List (Bytes × ℕ))
getdents_loop fuel [] pushed = record { result = ok pushed; open_dirs = 1 }
getdents_loop fuel (inl errno ∷ answers) pushed = record { result = sys_err errno; open_dirs = 1 }
getdents_loop fuel (inr [] ∷ answers) pushed = record { result = ok pushed; open_dirs = 1 }
getdents_loop fuel (inr (b ∷ bs) ∷ answers) pushed = elim (read_entries fuel (b ∷ bs) pushed) [
  | none ↦ record { result = fault; open_dirs = 1 }
  | some pushed' ↦ getdents_loop fuel answers pushed'
]

-- `open` fails with an `errno`, or the answers follow.
unfoldable pub deviant_fast_list_dir : ℕ → ℕ ⊎ List (ℕ ⊎ Bytes) → Listing (List (Bytes × ℕ))
unfolding getdents_loop read_entries read_entry
deviant_fast_list_dir fuel (inl errno) = record { result = sys_err errno; open_dirs = 0 }
deviant_fast_list_dir fuel (inr answers) = getdents_loop fuel answers []
