-- ===== src/Std/Tests.antt =====
-- Runs of std/std.c over a concrete library, and the theorems at concrete data.
use lilush.Common.{
  leb, ℕ, ◌≡◌, refl, inl, inr, true, Bytes, List, [], ◌∷◌, none, some, length, replicate, take,
  drop, ltb, if◌then◌else◌, pos, negsuc, ok, sys_err, arith,
}
use lilush.Std.Posix.{Posix, IsLawful, failed, got}
use lilush.Std.Calls.{
  deviant_kill, deviant_close, deviant_setpgid, deviant_setenv, deviant_unsetenv, deviant_chdir,
  deviant_mkdir, deviant_symlink, deviant_file_remove,
}
use lilush.Std.Calls.Report.{Reports, done, status_calls_report}
use lilush.Std.Read.{deviant_read, read_loop}
use lilush.Std.Read.Stream.{IsStream, deviant_read-pending}
use lilush.Std.Sleep.{Timespec, Nap, slept, interrupted}
use lilush.Std.Files.{FileSystem, link, IsOctal}
use lilush.Std.Dir.{deviant_fast_list_dir}
use lilush.Std.Dir.Entries.{Entry, IsEntry}
use lilush.Std.Dir.Table.{Batch, answers, deviant_fast_list_dir-answers}

-- The state is what the descriptor 0 has yet to deliver, three bytes at a time. Every status is 0,
-- every number 5, but `chdir` fails; `errno` is 2; and the process that is waited for still runs.
abbrev toy : Posix
toy = record {
  World = Bytes;
  errno = λ w. 2;
  kill = λ pid sig w. (pos 0, w);
  getpid = λ w. pos 1;
  fork = λ w. (pos 5, w);
  pipe = λ w. (pos 0, pos 5, pos 6, w);
  write = λ fd bytes w. (pos (length bytes), w);
  read = λ fd n w. elim fd [
    | pos _ ↦ (got (take (if ltb n 3 then n else 3) w), drop (if ltb n 3 then n else 3) w)
    | negsuc _ ↦ (failed, w)
  ];
  getcwd = λ w. (none, w);
  dup = λ fd w. (pos 5, w);
  dup2 = λ oldfd newfd w. (pos 5, w);
  close = λ fd w. (pos 0, w);
  setpgid = λ pid pgid w. (pos 0, w);
  getpgid = λ pid w. (pos 5, w);
  open_file = λ path mode w. (pos 5, w);
  waitpid = λ pid nohang w. (pos 0, none, w);
  wifexited = λ s. true;
  wexitstatus = λ s. pos s;
  environ = λ w. [];
  setenv = λ name value w. (pos 0, w);
  unsetenv = λ name w. (pos 0, w);
  chdir = λ path w. (negsuc 0, w);
  strtol = λ s. length s;
  mkdir = λ path mode w. (pos 0, w);
  symlink = λ source dest w. (pos 0, w);
  remove = λ path w. (pos 0, w);
  execvp = λ path arguments w. (negsuc 0, w);
}

toy-IsLawful : IsLawful toy
toy-IsLawful = record {
  kill_status = λ pid sig w. inl refl;
  close_status = λ fd w. inl refl;
  setpgid_status = λ pid pgid w. inl refl;
  setenv_status = λ name value w. inl refl;
  unsetenv_status = λ name w. inl refl;
  chdir_status = λ path w. inr refl;
  mkdir_status = λ path mode w. inl refl;
  symlink_status = λ source dest w. inl refl;
  remove_status = λ path w. inl refl;
  dup_number = λ fd w. inl (5, refl);
  dup2_number = λ oldfd newfd w. inl (5, refl);
  getpgid_number = λ pid w. inl (5, refl);
  open_number = λ path mode w. inl (5, refl);
  write_number = λ fd bytes w. inl (length bytes, refl);
}

toy-IsStream : IsStream toy (pos 0)
toy-IsStream = record {
  pending = λ w. w;
  given = λ n w. if ltb n 3 then n else 3;
  read_answer = λ n w. refl;
  pending-read = λ n w. refl;
  given_most = λ n w. ground arith;
  given_some = λ n w h. ground arith;
}

-- `chdir` to "a" fails here.
chdir_fails : deviant_chdir toy (97 ∷ []) [] ≡ (sys_err 2, [])
unfolding deviant_chdir
chdir_fails = refl

status_calls_report_example :
    Reports toy (toy.kill (pos 1) (pos 9)) (done toy) (deviant_kill toy (pos 1) (pos 9))
    × Reports toy (toy.close (pos 1)) (done toy) (deviant_close toy (pos 1))
    × Reports toy (toy.setpgid (pos 1) (pos 9)) (done toy) (deviant_setpgid toy (pos 1) (pos 9))
    × Reports toy
        (toy.setenv (97 ∷ []) (98 ∷ []))
        (done toy)
        (deviant_setenv toy (97 ∷ []) (98 ∷ []))
    × Reports toy (toy.unsetenv (97 ∷ [])) (done toy) (deviant_unsetenv toy (97 ∷ []))
    × Reports toy (toy.chdir (97 ∷ [])) (done toy) (deviant_chdir toy (97 ∷ []))
    × Reports toy (toy.mkdir (97 ∷ []) 1) (done toy) (deviant_mkdir toy (97 ∷ []) (some (98 ∷ [])))
    × Reports toy
        (toy.symlink (97 ∷ []) (98 ∷ []))
        (done toy)
        (deviant_symlink toy (97 ∷ []) (98 ∷ []))
    × Reports toy (toy.remove (97 ∷ [])) (done toy) (deviant_file_remove toy (97 ∷ []))
status_calls_report_example =
    status_calls_report toy toy-IsLawful (pos 1) (pos 9) (97 ∷ []) (98 ∷ [])

deviant_read-pending_example :
    (w' : Bytes) × (deviant_read toy (λ size. leb size 2048) 8 (pos 0) 0 (1 ∷ 2 ∷ 3 ∷ 4 ∷ 5 ∷ [])
      ≡ some (record { result = ok (1 ∷ 2 ∷ 3 ∷ 4 ∷ 5 ∷ []); leaked = 0; world = w' }))
unfolding toy-IsStream
deviant_read-pending_example =
    deviant_read-pending toy (pos 0) toy-IsStream (λ size. leb size 2048) 1024
      (λ size h. ground arith) (omega arith) 8 (1 ∷ 2 ∷ 3 ∷ 4 ∷ 5 ∷ []) (omega arith) (omega arith)
      (omega arith)

deviant_read_runs :
    deviant_read toy (λ size. true) 3 (pos 0) 0 (1 ∷ 2 ∷ 3 ∷ 4 ∷ 5 ∷ [])
    ≡ some (record { result = ok (1 ∷ 2 ∷ 3 ∷ 4 ∷ 5 ∷ []); leaked = 0; world = [] })
unfolding deviant_read read_loop
deviant_read_runs = refl

-- 1500 ms, interrupted after half a second.
abbrev left : Timespec
left = record { tv_sec = pos 1; tv_nsec = pos 0 }

abbrev naps : List Nap
naps = interrupted left ∷ slept ∷ []

-- A link whose target is 2000 bytes long.
abbrev disk : FileSystem
disk = record {
  lstat = λ name.
      some (record { format = link; permissions = 511; size = 2000; atime = 0; uid = 0; gid = 0 });
  lstat_errno = λ name. 2;
  readlink_target = λ name. some (replicate 2000 97);
  sprintf_octal = λ n. if ltb n 8 then n ∷ [] else 55 ∷ 55 ∷ 55 ∷ [];
}

disk-IsOctal : IsOctal disk
disk-IsOctal = record { octal_size = λ n h. ground arith }

-- "a", a directory, in one batch; "bc", a file, and a removed entry in another.
abbrev entry : ℕ → Bytes → Bytes → ℕ → Entry
entry ino name padding d_type = record {
  head = ino ∷ replicate 15 0;
  name = name;
  padding = padding;
  d_type = d_type;
}

abbrev batches : List Batch
batches =
    (entry 7 (97 ∷ []) (0 ∷ 0 ∷ 0 ∷ []) 4 ∷ [])
    ∷ (entry 8 (98 ∷ 99 ∷ []) [] 8 ∷ entry 0 (100 ∷ []) [] 8 ∷ [])
    ∷ []

entry-IsEntry : IsEntry (entry 7 (97 ∷ []) (0 ∷ 0 ∷ 0 ∷ []) 4)
entry-IsEntry = record { head_size = refl; no_nul = (refl, tt); fits = omega arith }

deviant_fast_list_dir-answers_example :
    deviant_fast_list_dir 5 (inr (answers batches))
    ≡ record { result = ok ((97 ∷ [], 4) ∷ (98 ∷ 99 ∷ [], 8) ∷ []); open_dirs = 1 }
deviant_fast_list_dir-answers_example = deviant_fast_list_dir-answers 5 batches (
  omega arith,
  omega arith,
  (entry-IsEntry, tt),
  (
    omega arith,
    omega arith,
    (
      record { head_size = refl; no_nul = (refl, (refl, tt)); fits = omega arith },
      (record { head_size = refl; no_nul = (refl, tt); fits = omega arith }, tt),
    ),
    tt,
  ),
)
