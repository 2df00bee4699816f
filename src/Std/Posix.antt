-- ===== src/Std/Posix.antt =====
-- What std/std.c calls of the C library and the kernel, none of which is part of the repository: an
-- interface over an unknown state, and commands on that state.
use lilush.Common.{ℕ, ◌≡◌, ◌⊎◌, Bool, Bytes, List, Option, ℤ, pos, negsuc, Outcome, sys_err}

-- What `read` answers: -1, or the bytes that it wrote to the buffer.
pub data Answer : Type 0 where
  failed : Answer
  got : Bytes → Answer

-- The flags of `open` that the source uses.
pub data OpenMode : Type 0 where
  read_only write_create write_truncate : OpenMode

pub record Posix : Type 1 where
  pub World : Type 0
  pub errno : World → ℕ
  pub kill : (pid sig : ℤ) → World → ℤ × World
  pub getpid : World → ℤ
  pub fork : World → ℤ × World
  -- the return code and the two descriptors
  pub pipe : World → ℤ × ℤ × ℤ × World
  pub write : ℤ → Bytes → World → ℤ × World
  pub read : ℤ → ℕ → World → Answer × World
  pub getcwd : World → Option Bytes × World
  pub dup : ℤ → World → ℤ × World
  pub dup2 : (oldfd newfd : ℤ) → World → ℤ × World
  pub close : ℤ → World → ℤ × World
  pub setpgid : (pid pgid : ℤ) → World → ℤ × World
  pub getpgid : ℤ → World → ℤ × World
  pub open_file : Bytes → OpenMode → World → ℤ × World
  -- the return code and `status`, if the call wrote it
  pub waitpid : (pid : ℤ) (nohang : Bool) → World → ℤ × Option ℕ × World
  pub wifexited : ℕ → Bool
  pub wexitstatus : ℕ → ℤ
  pub environ : World → List Bytes
  pub setenv : (name value : Bytes) → World → ℤ × World
  pub unsetenv : Bytes → World → ℤ × World
  pub chdir : Bytes → World → ℤ × World
  -- base 8
  pub strtol : Bytes → ℕ
  pub mkdir : Bytes → ℕ → World → ℤ × World
  pub symlink : (source dest : Bytes) → World → ℤ × World
  pub remove : Bytes → World → ℤ × World
  -- the arguments up to the NULL; it returns only if it fails
  pub execvp : Bytes → List Bytes → World → ℤ × World

module _ (P : Posix) where
  abbrev pub Cmd : Type 0 → Type 0
  Cmd A = P.World → Outcome A × P.World

  -- `RETURN_ERR`
  abbrev pub return_err : {A : Type 0} → Cmd A
  return_err w = (sys_err (P.errno w), w)

  -- What POSIX says of the calls that answer with a status: 0, or -1 with `errno` set.
  abbrev pub IsStatus : (P.World → ℤ × P.World) → Type 0
  IsStatus call = (w : P.World) → ((call w).0 ≡ pos 0) ⊎ ((call w).0 ≡ negsuc 0)

  -- Of those that answer with a number: at least 0, or -1.
  abbrev pub IsNumber : (P.World → ℤ × P.World) → Type 0
  IsNumber call = (w : P.World) → ((n : ℕ) × ((call w).0 ≡ pos n)) ⊎ ((call w).0 ≡ negsuc 0)

  pub record IsLawful : Type 0 where
    pub kill_status : (pid sig : ℤ) → IsStatus (P.kill pid sig)
    pub close_status : (fd : ℤ) → IsStatus (P.close fd)
    pub setpgid_status : (pid pgid : ℤ) → IsStatus (P.setpgid pid pgid)
    pub setenv_status : (name value : Bytes) → IsStatus (P.setenv name value)
    pub unsetenv_status : (name : Bytes) → IsStatus (P.unsetenv name)
    pub chdir_status : (path : Bytes) → IsStatus (P.chdir path)
    pub mkdir_status : (path : Bytes) (mode : ℕ) → IsStatus (P.mkdir path mode)
    pub symlink_status : (source dest : Bytes) → IsStatus (P.symlink source dest)
    pub remove_status : (path : Bytes) → IsStatus (P.remove path)
    pub dup_number : (fd : ℤ) → IsNumber (P.dup fd)
    pub dup2_number : (oldfd newfd : ℤ) → IsNumber (P.dup2 oldfd newfd)
    pub getpgid_number : (pid : ℤ) → IsNumber (P.getpgid pid)
    pub open_number : (path : Bytes) (mode : OpenMode) → IsNumber (P.open_file path mode)
    pub write_number : (fd : ℤ) (bytes : Bytes) → IsNumber (P.write fd bytes)
