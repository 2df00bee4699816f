-- ===== src/Std/Calls/Report.antt =====
-- What the one-call functions of std/std.c report.
use lilush.Common.{
  ℕ, suc, ◌+◌, ◌<◌, ◌≤◌, ◌≡◌, refl, Bool, true, Bytes, [], ◌∷◌, ◌++◌, none, some, length, c_string,
  slice, slice-append, take, length-append, ltb-eq-false, arith, ℤ, pos, ok, sys_err, fault,
  if◌then◌else◌,
}
use lilush.Std.Posix.{Posix, IsLawful, Cmd, read_only, write_create, write_truncate}
use lilush.Std.Calls.{
  is_minus_one, deviant_kill, deviant_write, deviant_dup, deviant_dup2, deviant_close,
  deviant_setpgid, deviant_getpgid, deviant_open, deviant_waitpid, deviant_setenv, deviant_unsetenv,
  deviant_chdir, deviant_mkdir, deviant_symlink, deviant_file_remove,
}

length-c_string : (s : Bytes) → length (c_string s) ≤ length s
length-c_string [] = omega arith
length-c_string (c ∷ cs) = ground (arith, length-c_string cs)

take-c_string : (s : Bytes) → take (length (c_string s)) (s ++ 0 ∷ []) ≡ c_string s
take-c_string [] = refl
take-c_string (c ∷ cs) = ground (arith, take-c_string cs)

slice-c_string : (s : Bytes) → slice (s ++ 0 ∷ []) 0 (length (c_string s)) ≡ some (c_string s)
slice-c_string s = rw (
  ltb-eq-false (length (s ++ 0 ∷ [])) (0 + length (c_string s))
      (omega (arith, length-append s (0 ∷ []), length-c_string s)),
  take-c_string s,
)

whole : (s : Bytes) → slice (s ++ 0 ∷ []) 0 (length s) ≡ some s
whole s = slice-append [] s (0 ∷ []) {offset = 0} refl refl

module _ (P : Posix) where
  -- The function fails exactly when the call answers -1, with the `errno` that the call left; else it
  -- returns `value` of the answer. It makes no other call.
  abbrev pub Reports : {A : Type 0} → (P.World → ℤ × P.World) → (ℤ → A) → Cmd P A → Type 0
  Reports call value f =
      (w : P.World)
      → f w ≡ (
        if is_minus_one (call w).0 then sys_err (P.errno (call w).1) else ok (value (call w).0),
        (call w).1,
      )

  abbrev pub done : ℤ → Bool
  done ret = true

  abbrev pub itself : ℤ → ℤ
  itself ret = ret

module _ (P : Posix) (L : IsLawful P) where
  -- Whichever test the source makes of the answer (`== 0`, `>= 0` or `== -1`), these nine functions fail
  -- exactly when their call answers -1, and say true otherwise.
  pub status_calls_report :
      (a b : ℤ) (s t : Bytes)
      → Reports P (P.kill a b) (done P) (deviant_kill P a b)
        × Reports P (P.close a) (done P) (deviant_close P a)
        × Reports P (P.setpgid a b) (done P) (deviant_setpgid P a b)
        × Reports P (P.setenv (c_string s) (c_string t)) (done P) (deviant_setenv P s t)
        × Reports P (P.unsetenv (c_string s)) (done P) (deviant_unsetenv P s)
        × Reports P (P.chdir (c_string s)) (done P) (deviant_chdir P s)
        × Reports P
            (P.mkdir (c_string s) (P.strtol (c_string t)))
            (done P)
            (deviant_mkdir P s (some t))
        × Reports P (P.symlink (c_string s) (c_string t)) (done P) (deviant_symlink P s t)
        × Reports P (P.remove (c_string s)) (done P) (deviant_file_remove P s)
  unfolding deviant_kill deviant_close deviant_setpgid deviant_setenv deviant_unsetenv deviant_chdir
      deviant_mkdir deviant_symlink deviant_file_remove
  status_calls_report a b s t = (
    λ w. ground (arith, L.kill_status a b w),
    λ w. ground (arith, L.close_status a w),
    λ w. ground (arith, L.setpgid_status a b w),
    λ w. ground (arith, L.setenv_status (c_string s) (c_string t) w),
    λ w. ground (arith, L.unsetenv_status (c_string s) w),
    λ w. ground (arith, L.chdir_status (c_string s) w),
    λ w. ground (arith, L.mkdir_status (c_string s) (P.strtol (c_string t)) w),
    λ w. ground (arith, L.symlink_status (c_string s) (c_string t) w),
    λ w. ground (arith, L.remove_status (c_string s) w),
  )

  -- The functions that pass on a number fail exactly when their call answers -1.
  pub number_calls_report :
      (a b : ℤ)
      → Reports P (P.dup a) (itself P) (deviant_dup P a)
        × Reports P (P.dup2 a b) (itself P) (deviant_dup2 P a b)
        × Reports P (P.getpgid a) (itself P) (deviant_getpgid P a)
  unfolding deviant_dup deviant_dup2 deviant_getpgid
  number_calls_report a b = (
    λ w. ground (arith, L.dup_number a w),
    λ w. ground (arith, L.dup2_number a b w),
    λ w. ground (arith, L.getpgid_number a w),
  )

module _ (P : Posix) where
  -- `open` has three modes, each with its flags, and then fails exactly when the call answers -1. With
  -- any other mode it tests a descriptor that nothing has set.
  pub deviant_open_lem :
      (path : Bytes) (mode : ℕ) (w : P.World)
      → Reports P (P.open_file (c_string path) read_only) (itself P) (deviant_open P path 0)
        × Reports P (P.open_file (c_string path) write_create) (itself P) (deviant_open P path 1)
        × Reports P (P.open_file (c_string path) write_truncate) (itself P) (deviant_open P path 2)
        × ((deviant_open P path (suc (suc (suc mode))) w).0 ≡ fault)
  unfolding deviant_open
  deviant_open_lem path mode w = (λ v. ground arith, λ v. ground arith, λ v. ground arith, refl)

  -- `waitpid` with WNOHANG answers 0 while the process runs, and writes no status; the function tests
  -- the status all the same.
  pub deviant_waitpid_running :
      (pid : ℤ) (w : P.World)
      → (P.waitpid pid true w).0 ≡ pos 0
      → (P.waitpid pid true w).1 ≡ none
      → (deviant_waitpid P pid w).0 ≡ fault
  unfolding deviant_waitpid
  deviant_waitpid_running pid w h e = rw (h, e)

  -- With no count `write` is asked for the bytes in front of the first NUL, so a string with a NUL is
  -- cut there; with its size as the count it is asked for the whole string. It fails exactly when
  -- `write` answers -1.
  pub deviant_write_lem :
      (fd : ℤ) (buffer : Bytes)
      → Reports P (P.write fd (c_string buffer)) (itself P) (deviant_write P fd buffer none)
        × Reports P
            (P.write fd buffer)
            (itself P)
            (deviant_write P fd buffer (some (length buffer)))
  unfolding deviant_write
  deviant_write_lem fd buffer = (
    λ w. rw (slice-c_string buffer, deviant_write) (ground arith),
    λ w. rw (whole buffer, deviant_write) (ground arith),
  )

  -- A count of more than the size and the ending NUL makes `write` read past the end of the string.
  pub deviant_write_past :
      (fd : ℤ) (buffer : Bytes) (n : ℕ) (w : P.World)
      → length buffer + 1 < n
      → (deviant_write P fd buffer (some n) w).0 ≡ fault
  unfolding deviant_write
  deviant_write_past fd buffer n w h = ground (arith, length-append buffer (0 ∷ []))
