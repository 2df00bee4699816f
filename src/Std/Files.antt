-- ===== src/Std/Files.antt =====
-- deviant_stat and deviant_readlink of std/std.c. The calls are functions of the name here: neither
-- function changes anything.
use lilush.Common.{
  ℕ, suc, ◌+◌, ◌-◌, ◌%◌, ◌≤◌, ◌<◌, ◌≡◌, ◌≢◌, refl, Bool, true, false, Bytes, [], Option, none, some,
  length, c_string, take, ltb, if◌then◌else◌, length-take, String, Outcome, ok, custom_err, sys_err,
  fault, arith,
}

-- `st_mode & S_IFMT`
pub data Format : Type 0 where
  regular directory link socket block_device character_device fifo unknown : Format

pub record Stat : Type 0 where
  pub format : Format
  -- the other bits of `st_mode`
  pub permissions : ℕ
  pub size : ℕ
  pub atime : ℕ
  pub uid : ℕ
  pub gid : ℕ

-- The result table.
pub record StatTable : Type 0 where
  pub mode : String
  pub size : ℕ
  pub perms : Bytes
  pub atime : ℕ
  pub uid : ℕ
  pub gid : ℕ

abbrev mode_letter : Format → String
mode_letter regular = "f"
mode_letter directory = "d"
mode_letter link = "l"
mode_letter socket = "s"
mode_letter block_device = "b"
mode_letter character_device = "c"
mode_letter fifo = "p"
mode_letter unknown = "u"

abbrev is_link : Format → Bool
is_link link = true
is_link _ = false

-- What the C library answers: `lstat` and `readlink` give a result or an `errno`, `sprintf_octal` is
-- the text of `sprintf` with "%o".
pub record FileSystem : Type 0 where
  pub lstat : Bytes → Option Stat
  pub lstat_errno : Bytes → ℕ
  pub readlink_target : Bytes → Option Bytes
  pub sprintf_octal : ℕ → Bytes

-- The documented behaviour of "%o": digits of base 8, with no leading zero but for 0 itself. So three
-- digits serve up to 0777.
pub record IsOctal (F : FileSystem) : Type 0 where
  pub octal_size : (n : ℕ) → n < 512 → length (F.sprintf_octal n) ≤ 3

-- What `readlink` leaves in a buffer of the size given to it.
abbrev read_target : Option Bytes → ℕ → Bytes
read_target none size = []
read_target (some target) size = take size target

module _ (F : FileSystem) where
  -- `perm_str` has five bytes, one for the NUL.
  unfoldable pub deviant_stat : Bytes → Outcome StatTable
  deviant_stat filename = elim (F.lstat (c_string filename)) [
    | none ↦ sys_err (F.lstat_errno (c_string filename))
    | some st ↦
        let perm_str = F.sprintf_octal (st.permissions % 512) in
        if ltb 5 (length perm_str + 1)
        then fault
        else ok (record {
          mode = mode_letter st.format;
          size = st.size;
          perms = perm_str;
          atime = st.atime;
          uid = st.uid;
          gid = st.gid;
        })
  ]

  -- `target` has 1024 bytes, and `target[len] = '\0'` is written behind what was read.
  unfoldable pub deviant_readlink : Bytes → Outcome Bytes
  deviant_readlink filename = elim (F.lstat (c_string filename)) [
    | none ↦ sys_err (F.lstat_errno (c_string filename))
    | some st ↦
        let target = read_target (F.readlink_target (c_string filename)) (1024 - 1) in
        if is_link st.format
        then if ltb (length target) 1024 then ok (c_string target) else fault
        else custom_err "not a link"
  ]

within : (n : ℕ) (bytes : Bytes) → ltb (length (take n bytes)) (suc n) ≡ true
within n bytes = ground (arith, length-take n bytes)

module _ (F : FileSystem) (filename : Bytes) where
  stat_cases :
      IsOctal F
      → (r : Option Stat) → F.lstat (c_string filename) ≡ r
      → deviant_stat F filename ≢ fault
  unfolding deviant_stat
  stat_cases o none e h = ground arith
  stat_cases o (some st) e h = ground (arith, o.octal_size (st.permissions % 512))

  -- With `sprintf` as documented, deviant_stat does not leave the five bytes of its text, whatever
  -- the permission bits.
  pub deviant_stat-defined : IsOctal F → deviant_stat F filename ≢ fault
  deviant_stat-defined o = stat_cases o (F.lstat (c_string filename)) refl

  -- deviant_readlink gives a link's target up to 1023 bytes, or its first NUL, and does not leave its
  -- buffer.
  pub deviant_readlink-target :
      (target : Bytes) (st : Stat)
      → F.lstat (c_string filename) ≡ some st
      → st.format ≡ link
      → F.readlink_target (c_string filename) ≡ some target
      → deviant_readlink F filename ≡ ok (c_string (take 1023 target))
  unfolding deviant_readlink
  deviant_readlink-target target st e f g =
      rw (e, deviant_readlink) (rw (f, g, read_target) (rw (within 1023 target)))
