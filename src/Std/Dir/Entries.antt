-- ===== src/Std/Dir/Entries.antt =====
-- The entries of a directory in the kernel's layout are read back.
use lilush.Common.{
  ℕ, zero, suc, ◌+◌, ◌-◌, ◌*◌, ◌/◌, ◌%◌, ◌≤◌, ◌<◌, ◌≡◌, refl, ◌∙◌, ap, Bytes, [], ◌∷◌, ◌++◌, Option,
  none, some, length, c_string, drop, length-append, append_assoc, ◌==◌, if◌then◌else◌, NoNul,
  c_string-append, arith,
}
use native.Mathlib.Nat.{zero-add, suc-add}
use mathlib.Core.Bool.{◌&&◌}
use lilush.Std.Dir.{all_zero, byte_at, read_entry}

-- A `struct linux_dirent` of the kernel: the 16 bytes of `d_ino` and `d_off`, the name, what lies
-- between its NUL and the last byte, and the type in the last byte.
pub record Entry : Type 0 where
  pub head : Bytes
  pub name : Bytes
  pub padding : Bytes
  pub d_type : ℕ

byte_at-append : (p : Bytes) (x : ℕ) (rest : Bytes) → byte_at (p ++ (x ∷ rest)) (length p) ≡ some x
byte_at-append [] x rest = refl
byte_at-append (y ∷ p) x rest = byte_at-append p x rest

byte_at-past : (p q : Bytes) (i : ℕ) → byte_at (p ++ q) (length p + i) ≡ byte_at q i
byte_at-past [] q i = rw zero-add
byte_at-past (x ∷ p) q i = rw suc-add (byte_at-past p q i)

drop-past : (p q : Bytes) (i : ℕ) → drop (length p + i) (p ++ q) ≡ drop i q
drop-past [] q i = rw zero-add
drop-past (x ∷ p) q i = rw suc-add (drop-past p q i)

all_zero-append : (n : ℕ) (p q : Bytes) → n ≤ length p → all_zero n (p ++ q) ≡ all_zero n p
all_zero-append zero p q h = refl
all_zero-append (suc n) [] q h = absurd (omega arith)
all_zero-append (suc n) (x ∷ p) q h = ap (λ b. x == 0 && b) (all_zero-append n p q (omega arith))

-- The size of a record.
abbrev pub reclen : Entry → ℕ
reclen e = 20 + (length e.name + length e.padding)

-- What stands between the head and the type.
abbrev pub body : Entry → Bytes
body e = (reclen e % 256) ∷ (reclen e / 256) ∷ (e.name ++ (0 ∷ e.padding))

abbrev pub encode : Entry → Bytes
encode e = (e.head ++ body e) ++ (e.d_type ∷ [])

-- The head has its 16 bytes, the name has no NUL, and the size fits `d_reclen`.
pub record IsEntry (e : Entry) : Type 0 where
  pub head_size : length e.head ≡ 16
  pub no_nul : NoNul e.name
  pub fits : reclen e < 65536

-- What the loop makes of an entry: nothing, if its inode is 0.
abbrev pub listed : Entry → Option (Bytes × ℕ)
listed e = if all_zero 8 e.head then none else some (e.name, e.d_type)

module _ (e : Entry) (h : IsEntry e) (rest : Bytes) where
  abbrev pub whole : Bytes
  whole = (e.head ++ body e) ++ (e.d_type ∷ rest)

  split : whole ≡ e.head ++ (body e ++ (e.d_type ∷ rest))
  split = append_assoc e.head (body e) (e.d_type ∷ rest)

  length-front : length (e.head ++ body e) ≡ reclen e - 1
  length-front =
      omega
        (arith, h.head_size, length-append e.head (body e), length-append e.name (0 ∷ e.padding))

  byte_at-head : (i : ℕ) → byte_at whole (16 + i) ≡ byte_at (body e ++ (e.d_type ∷ rest)) i
  byte_at-head i = rw (split, ← h.head_size) (byte_at-past e.head (body e ++ (e.d_type ∷ rest)) i)

  drop-head : (i : ℕ) → drop (16 + i) whole ≡ drop i (body e ++ (e.d_type ∷ rest))
  drop-head i = rw (split, ← h.head_size) (drop-past e.head (body e ++ (e.d_type ∷ rest)) i)

  type_byte : byte_at whole (reclen e - 1) ≡ some e.d_type
  type_byte = rw (← length-front) (byte_at-append (e.head ++ body e) e.d_type rest)

  drop-whole : drop (reclen e) whole ≡ rest
  drop-whole =
      let k : reclen e ≡ length (e.head ++ body e) + 1 = omega (arith, length-front) in
      ap (λ (n : ℕ). drop n whole) k ∙ drop-past (e.head ++ body e) (e.d_type ∷ rest) 1

  name_bytes : c_string (drop 18 whole) ≡ e.name
  name_bytes = rw (drop-head 2) (
      rw (append_assoc e.name (0 ∷ e.padding) (e.d_type ∷ rest))
        (c_string-append e.name (e.padding ++ (e.d_type ∷ rest)) h.no_nul))

  inode : all_zero 8 whole ≡ all_zero 8 e.head
  inode = rw split (all_zero-append 8 e.head _ (omega (arith, h.head_size)))

  size_bytes : reclen e % 256 + 256 * (reclen e / 256) ≡ reclen e
  size_bytes = omega arith

  drop-size : drop (reclen e % 256 + 256 * (reclen e / 256)) whole ≡ rest
  drop-size = ap (λ (n : ℕ). drop n whole) size_bytes ∙ drop-whole

  type-size : byte_at whole (reclen e % 256 + 256 * (reclen e / 256) - 1) ≡ some e.d_type
  type-size = ap (λ (n : ℕ). byte_at whole (n - 1)) size_bytes ∙ type_byte

  pub read_entry-encode : read_entry whole ≡ some (listed e, rest)
  unfolding read_entry
  read_entry-encode =
      rw (byte_at-head 0, read_entry)
        (rw (byte_at-head 1) (rw type-size (rw (drop-size, name_bytes, inode))))
