-- ===== src/Main.antt =====
-- lilush.c and reliw.c: the modules that are preloaded, and what the command line asks for. A run is
-- the chunks of Lua that it executes, in order, with what the C code prints and the status that the
-- process ends with. `luaL_newstate` is taken to give a state.
pub mod Status
pub mod Tests
use lilush.Common.{
  ℕ, zero, suc, ◌+◌, ◌&&◌, ◌||◌, Bool, true, false, not, Bytes, List, [], ◌∷◌, ◌++◌, Option, none,
  some, String, ◌==◌, if◌then◌else◌,
}

-- What `luaL_loadbuffer` answers for a module of the table `lua_preload`.
pub record Module : Type 0 where
  pub module_name : String
  pub rc : ℕ

-- The names that `package.preload` has got, or the message of an exit with EXIT_FAILURE.
pub data Preloaded : Type 0 where
  loaded : List String → Preloaded
  exited : List String → String → String → Preloaded

-- The switch over LUA_ERRRUN, 2, to LUA_ERRFILE, 6.
unfoldable pub load_error : ℕ → String
load_error rc =
    if rc == 2
    then "runtime error"
    else if rc == 3
    then "syntax error"
    else if rc == 4
    then "memory error"
    else if rc == 5
    then "generic error"
    else if rc == 6
    then "file error"
    else "unknown error"

-- `set` are the modules that have been set before.
unfoldable pub preload_modules : List String → List Module → Preloaded
unfolding load_error
preload_modules set [] = loaded set
preload_modules set (m ∷ rest) =
    let onward = preload_modules (set ++ (m.module_name ∷ [])) rest in
    if m.rc == 0 then onward else exited set m.module_name (load_error m.rc)

-- A chunk with the global variables that it gets: `cmd`, `arg`.
pub data Chunk : Type 0 where
  exec_builtin : Bytes → List Bytes → Chunk
  start_shell : Chunk
  run_shell_cmd : List Bytes → Chunk
  preload_init : Chunk
  script : Bytes → List Bytes → Chunk
  start_reliw : Chunk

-- How a chunk ends that ends: it returns, it raises an error, or it ends the process with a status, as
-- `os.exit` does.
pub data Ending : Type 0 where
  returns raises : Ending
  exits : ℕ → Ending

-- The answers from outside. What a chunk prints itself is its own affair.
pub record Host : Type 0 where
  pub basename : Bytes → Bytes
  pub exists : Bytes → Bool
  pub ends : Chunk → Ending

-- What the C code prints.
pub data Printed : Type 0 where
  module_error : String → String → Printed
  error_of : Chunk → Printed
  version : Printed
  no_such_file : Bytes → Printed
  usage : Bytes → Printed
  unknown_argument : Printed

pub record Run : Type 0 where
  pub chunks : List Chunk
  pub printed : List Printed
  pub status : ℕ

abbrev pub same_text : Bytes → Bytes → Bool
same_text [] [] = true
same_text (x ∷ xs) (y ∷ ys) = x == y && same_text xs ys
same_text _ _ = false

-- "lilush", "-lilush", "-c" and "-v".
abbrev pub lilush_text : Bytes
lilush_text = 108 ∷ 105 ∷ 108 ∷ 117 ∷ 115 ∷ 104 ∷ []

abbrev pub login_text : Bytes
login_text = 45 ∷ lilush_text

abbrev pub command_flag : Bytes
command_flag = 45 ∷ 99 ∷ []

abbrev pub version_flag : Bytes
version_flag = 45 ∷ 118 ∷ []

-- A chunk behind others, its error printed.
abbrev last_chunk : List Chunk → Chunk → Ending → Run
last_chunk before chunk returns = record {
  chunks = before ++ (chunk ∷ []);
  printed = [];
  status = 0;
}
last_chunk before chunk raises = record {
  chunks = before ++ (chunk ∷ []);
  printed = error_of chunk ∷ [];
  status = 1;
}
last_chunk before chunk (exits status) = record {
  chunks = before ++ (chunk ∷ []);
  printed = [];
  status = status;
}

unfoldable pub run_chunk : Host → Chunk → Run
run_chunk H chunk = last_chunk [] chunk (H.ends chunk)

-- A script, behind the chunk that sets the package's path.
unfoldable pub run_script : Host → Bytes → List Bytes → Run
run_script H path arg = elim (H.ends preload_init) [
  | returns ↦ last_chunk (preload_init ∷ []) (script path arg) (H.ends (script path arg))
  | raises ↦ last_chunk [] preload_init raises
  | exits status ↦ last_chunk [] preload_init (exits status)
]

-- `main` of lilush.c behind `preload_modules`: the command's name, and its arguments.
unfoldable pub lilush_command : Host → Bytes → List Bytes → Run
unfolding run_chunk run_script
lilush_command H argv0 args =
    let cmd = H.basename argv0 in
    if not (same_text cmd lilush_text) && not (same_text cmd login_text)
    then run_chunk H (exec_builtin cmd args)
    else elim args [
      | [] ↦ run_chunk H start_shell
      | argv1 ∷ rest ↦
          if same_text argv1 command_flag
          then run_chunk H (run_shell_cmd rest)
          else if same_text argv1 version_flag
          then record { chunks = []; printed = version ∷ []; status = 0 }
          else if not (H.exists argv1)
          then record { chunks = []; printed = no_such_file argv1 ∷ usage argv0 ∷ []; status = 1 }
          else run_script H argv1 rest
    ]

-- `main` of reliw.c behind `preload_modules`.
unfoldable pub reliw_command : Host → List Bytes → Run
unfolding run_chunk
reliw_command H [] = run_chunk H start_reliw
reliw_command H (argv1 ∷ rest) =
    if same_text argv1 version_flag
    then record { chunks = []; printed = version ∷ []; status = 0 }
    else record { chunks = []; printed = unknown_argument ∷ []; status = 1 }

-- Where a module does not load, the program ends there.
abbrev behind_preload : Preloaded → Run → Run
behind_preload (loaded names) run = run
behind_preload (exited names failing message) run = record {
  chunks = [];
  printed = module_error failing message ∷ [];
  status = 1;
}

-- The two programs, with the modules that are built into them.
unfoldable pub lilush_main : List Module → Host → Bytes → List Bytes → Run
unfolding preload_modules lilush_command
lilush_main modules H argv0 args =
    behind_preload (preload_modules [] modules) (lilush_command H argv0 args)

unfoldable pub reliw_main : List Module → Host → List Bytes → Run
unfolding preload_modules reliw_command
reliw_main modules H args = behind_preload (preload_modules [] modules) (reliw_command H args)
