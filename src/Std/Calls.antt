-- ===== src/Std/Calls.antt =====
-- The functions of std/std.c that make one call and report on it.
pub mod Report
use lilush.Common.{
  ℕ, zero, suc, ◌+◌, ◌<◌, Bool, true, false, not, Bytes, List, [], ◌∷◌, ◌++◌, Option, none, some,
  length, c_string, slice, drop, ℤ, pos, negsuc, is_nonzero, is_negative, Outcome, ok, custom_err,
  sys_err, fault, if◌then◌else◌,
}
use lilush.Std.Posix.{Posix, Cmd, OpenMode, read_only, write_create, write_truncate, return_err}

-- `ret == -1`
abbrev pub is_minus_one : ℤ → Bool
is_minus_one (pos n) = false
is_minus_one (negsuc zero) = true
is_minus_one (negsuc (suc n)) = false

module _ (P : Posix) where
  unfoldable pub deviant_kill : (pid sig : ℤ) → Cmd P Bool
  deviant_kill pid sig w =
      let (ret, w') = P.kill pid sig w in if is_nonzero ret then return_err P w' else (ok true, w')

  unfoldable pub deviant_getpid : Cmd P ℤ
  deviant_getpid w = (ok (P.getpid w), w)

  -- -1 is passed on as a number.
  unfoldable pub deviant_fork : Cmd P ℤ
  deviant_fork w = let (pid, w') = P.fork w in (ok pid, w')

  -- the fields `out` and `inn`
  unfoldable pub deviant_pipe : Cmd P (ℤ × ℤ)
  deviant_pipe w =
      let (ret, out, inn, w') = P.pipe w in
      if is_minus_one ret then return_err P w' else (ok (out, inn), w')

  -- `count` is the optional third argument. The string in memory ends in a NUL.
  unfoldable pub deviant_write : ℤ → Bytes → Option ℕ → Cmd P ℤ
  deviant_write fd buffer count w =
      elim (slice (buffer ++ 0 ∷ []) 0
        (elim count [ none ↦ length (c_string buffer) | some n ↦ n ])) [
          | none ↦ (fault, w)
          | some bytes ↦
              let (result, w') = P.write fd bytes w in
              if is_minus_one result then return_err P w' else (ok result, w')
        ]

  unfoldable pub deviant_cwd : Cmd P Bytes
  deviant_cwd w =
      let (buf, w') = P.getcwd w in elim buf [ none ↦ return_err P w' | some path ↦ (ok path, w') ]

  unfoldable pub deviant_dup : ℤ → Cmd P ℤ
  deviant_dup oldfd w =
      let (fd, w') = P.dup oldfd w in if is_negative fd then return_err P w' else (ok fd, w')

  unfoldable pub deviant_dup2 : (oldfd newfd : ℤ) → Cmd P ℤ
  deviant_dup2 oldfd newfd w =
      let (fd, w') = P.dup2 oldfd newfd w in if is_negative fd then return_err P w' else (ok fd, w')

  unfoldable pub deviant_close : ℤ → Cmd P Bool
  deviant_close fd w =
      let (ret, w') = P.close fd w in if is_negative ret then return_err P w' else (ok true, w')

  unfoldable pub deviant_setpgid : (pid pgid : ℤ) → Cmd P Bool
  deviant_setpgid pid pgid w =
      let (ret, w') = P.setpgid pid pgid w in
      if is_minus_one ret then return_err P w' else (ok true, w')

  unfoldable pub deviant_getpgid : ℤ → Cmd P ℤ
  deviant_getpgid pid w =
      let (pgid, w') = P.getpgid pid w in
      if is_minus_one pgid then return_err P w' else (ok pgid, w')

  -- After the `switch`: `none` is a `fd` that no case has set.
  abbrev opened : Option (ℤ × P.World) → P.World → Outcome ℤ × P.World
  opened none w = (fault, w)
  opened (some (fd, w')) w = if is_minus_one fd then return_err P w' else (ok fd, w')

  unfoldable pub deviant_open : Bytes → ℕ → Cmd P ℤ
  deviant_open path zero w = opened (some (P.open_file (c_string path) read_only w)) w
  deviant_open path (suc zero) w = opened (some (P.open_file (c_string path) write_create w)) w
  deviant_open path (suc (suc zero)) w =
      opened (some (P.open_file (c_string path) write_truncate w)) w
  deviant_open path (suc (suc (suc mode))) w = opened none w

  -- The process and, if it has exited, its status. Reading a `status` that the call did not write is
  -- undefined.
  unfoldable pub wait_report : ℤ × Option ℕ × P.World → Outcome (ℤ × Option ℤ) × P.World
  wait_report (ret, status, w') = if is_negative ret then return_err P w' else elim status [
    | none ↦ (fault, w')
    | some s ↦ (ok (ret, if P.wifexited s then some (P.wexitstatus s) else none), w')
  ]

  unfoldable pub deviant_wait : ℤ → Cmd P (ℤ × Option ℤ)
  unfolding wait_report
  deviant_wait pid w = wait_report (P.waitpid pid false w)

  unfoldable pub deviant_waitpid : ℤ → Cmd P (ℤ × Option ℤ)
  unfolding wait_report
  deviant_waitpid pid w = wait_report (P.waitpid pid true w)

  -- the table's entries 1, 2, …
  unfoldable pub deviant_environ : Cmd P (List Bytes)
  deviant_environ w = (ok (P.environ w), w)

  unfoldable pub deviant_setenv : (var_name value : Bytes) → Cmd P Bool
  deviant_setenv var_name value w =
      let (ret, w') = P.setenv (c_string var_name) (c_string value) w in
      if is_nonzero ret then return_err P w' else (ok true, w')

  unfoldable pub deviant_unsetenv : Bytes → Cmd P Bool
  deviant_unsetenv var_name w =
      let (ret, w') = P.unsetenv (c_string var_name) w in
      if is_nonzero ret then return_err P w' else (ok true, w')

  unfoldable pub deviant_chdir : Bytes → Cmd P Bool
  deviant_chdir pathname w =
      let (ret, w') = P.chdir (c_string pathname) w in
      if is_nonzero ret then return_err P w' else (ok true, w')

  -- "0777" where the mode is left out
  abbrev default_mode : Bytes
  default_mode = b'0' ∷ b'7' ∷ b'7' ∷ b'7' ∷ []

  unfoldable pub deviant_mkdir : Bytes → Option Bytes → Cmd P Bool
  deviant_mkdir pathname mode_str w =
      let mode = P.strtol (elim mode_str [ none ↦ default_mode | some s ↦ c_string s ]) in
      let (ret, w') = P.mkdir (c_string pathname) mode w in
      if is_minus_one ret then return_err P w' else (ok true, w')

  unfoldable pub deviant_symlink : (source dest : Bytes) → Cmd P Bool
  deviant_symlink source dest w =
      let (ret, w') = P.symlink (c_string source) (c_string dest) w in
      if is_minus_one ret then return_err P w' else (ok true, w')

  unfoldable pub deviant_file_remove : Bytes → Cmd P Bool
  deviant_file_remove pathname w =
      let (ret, w') = P.remove (c_string pathname) w in
      if is_nonzero ret then return_err P w' else (ok true, w')

  -- The arguments after the path, as `execvp` reads them: up to the NULL behind the last.
  unfoldable pub deviant_exec : List Bytes → Cmd P Bool
  deviant_exec [] w = (custom_err "no command given", w)
  deviant_exec (pathname ∷ arguments) w =
      let (ret, w') = P.execvp (c_string pathname) arguments w in
      if is_minus_one ret then return_err P w' else (ok true, w')
