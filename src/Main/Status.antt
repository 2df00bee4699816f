-- ===== src/Main/Status.antt =====
-- The exit status of lilush.c and reliw.c, and the modules that they preload.
use lilush.Common.{
  ℕ, ◌≡◌, refl, ap, sym, ◌∙◌, ◌&&◌, Bool, true, false, not, Bytes, Option, some, none, List, [],
  ◌∷◌, ◌++◌, map, String, ◌==◌, if◌then◌else◌, append_assoc, append-nil, arith,
}
use lilush.Main.{
  last_chunk, lilush_main, reliw_main, behind_preload, Preloaded, module_error, Module, loaded,
  exited, load_error, preload_modules, Chunk, Ending, returns, raises, exits, preload_init, script,
  Host, Printed, version, no_such_file, usage, unknown_argument, same_text, lilush_text, login_text,
  command_flag, version_flag, exec_builtin, start_shell, run_shell_cmd, start_reliw, Run, run_chunk,
  run_script, lilush_command, reliw_command,
}

-- Whether the C code has printed anything but the version.
abbrev pub complains : List Printed → Bool
complains [] = false
complains (version ∷ rest) = complains rest
complains (_ ∷ rest) = true

-- How the chunks of a run end: all return, or one of them does not and nothing is run behind it.
abbrev pub end_of : Host → List Chunk → Option Ending
end_of H [] = some returns
end_of H (c ∷ []) = some (H.ends c)
end_of H (c ∷ d ∷ rest) = elim (H.ends c) [ returns ↦ end_of H (d ∷ rest) | _ ↦ none ]

-- What the C code has to print, by how the chunks end, and with which status.
abbrev pub Told : Option Ending → List Printed → ℕ → Type 0
Told none printed status = ⊥
Told (some returns) printed status = status ≡ (if complains printed then 1 else 0)
Told (some raises) printed status = (complains printed ≡ true) × (status ≡ 1)
Told (some (exits n)) printed status = (printed ≡ []) × (status ≡ n)

pub record Tells (H : Host) (r : Run) : Type 0 where
  pub tells : Told (end_of H r.chunks) r.printed r.status

last_chunk-Tells : (H : Host) (c : Chunk) → Tells H (last_chunk [] c (H.ends c))
last_chunk-Tells H c =
    elim (H.ends c) as (λ e. H.ends c ≡ e → Tells H (last_chunk [] c e)) [
      | returns ↦ λ h. record { tells = rw (h) refl }
      | raises ↦ λ h. record { tells = rw (h) (refl, refl) }
      | exits n ↦ λ h. record { tells = rw (h) (refl, refl) }
    ]
      refl

-- A chunk that is run where the package's path could be set.
last_script-Tells :
    (H : Host) (c : Chunk)
    → Tells H (elim (H.ends preload_init) [
      | returns ↦ last_chunk (preload_init ∷ []) c (H.ends c)
      | raises ↦ last_chunk [] preload_init raises
      | exits status ↦ last_chunk [] preload_init (exits status)
    ])
last_script-Tells H c = behind (H.ends preload_init) refl (H.ends c) refl
  where
    behind :
        (e : Ending)
        → H.ends preload_init ≡ e
        → (d : Ending) → H.ends c ≡ d
        → Tells H (elim e [
          | returns ↦ last_chunk (preload_init ∷ []) c d
          | raises ↦ last_chunk [] preload_init raises
          | exits status ↦ last_chunk [] preload_init (exits status)
        ])
    behind returns h returns g = record { tells = rw (h, g) refl }
    behind returns h raises g = record { tells = rw (h, g) (refl, refl) }
    behind returns h (exits n) g = record { tells = rw (h, g) (refl, refl) }
    behind raises h d g = record { tells = rw (h) (refl, refl) }
    behind (exits n) h d g = record { tells = rw (h) (refl, refl) }

run_chunk-Tells : (H : Host) (c : Chunk) → Tells H (run_chunk H c)
unfolding run_chunk
run_chunk-Tells H c = last_chunk-Tells H c

run_script-Tells : (H : Host) (path : Bytes) (arg : List Bytes) → Tells H (run_script H path arg)
unfolding run_script
run_script-Tells H path arg = last_script-Tells H (script path arg)

at_once :
    {H : Host} {printed : List Printed}
    → Tells H
        (record { chunks = []; printed = printed; status = if complains printed then 1 else 0 })
at_once = record { tells = refl }

if-Tells :
    (H : Host) (b : Bool) {r r' : Run} → Tells H r → Tells H r' → Tells H (if b then r else r')
if-Tells H true t f = t
if-Tells H false t f = f

-- The script that a path names.
path-Tells :
    (H : Host) (argv0 path : Bytes) (rest : List Bytes)
    → Tells H (
        if not (H.exists path)
        then record { chunks = []; printed = no_such_file path ∷ usage argv0 ∷ []; status = 1 }
        else run_script H path rest)
path-Tells H argv0 path rest =
    if-Tells H (not (H.exists path)) (at_once {printed = no_such_file path ∷ usage argv0 ∷ []})
      (run_script-Tells H path rest)

lilush_command-Tells :
    (H : Host) (argv0 : Bytes) (args : List Bytes) → Tells H (lilush_command H argv0 args)
unfolding lilush_command
lilush_command-Tells H argv0 [] =
    if-Tells H
      (not (same_text (H.basename argv0) lilush_text)
        && not (same_text (H.basename argv0) login_text))
      (run_chunk-Tells H (exec_builtin (H.basename argv0) [])) (run_chunk-Tells H start_shell)
lilush_command-Tells H argv0 (argv1 ∷ rest) =
    if-Tells H
      (not (same_text (H.basename argv0) lilush_text)
        && not (same_text (H.basename argv0) login_text))
      (run_chunk-Tells H (exec_builtin (H.basename argv0) (argv1 ∷ rest)))
      (if-Tells H (same_text argv1 command_flag) (run_chunk-Tells H (run_shell_cmd rest)) (
        if-Tells H (same_text argv1 version_flag) (at_once {printed = version ∷ []})
          (path-Tells H argv0 argv1 rest)))

reliw_command-Tells : (H : Host) (args : List Bytes) → Tells H (reliw_command H args)
unfolding reliw_command
reliw_command-Tells H [] = run_chunk-Tells H start_reliw
reliw_command-Tells H (argv1 ∷ rest) =
    if-Tells H (same_text argv1 version_flag) (at_once {printed = version ∷ []})
      (at_once {printed = unknown_argument ∷ []})

behind_preload-Tells :
    (H : Host) (p : Preloaded) {r : Run} → Tells H r → Tells H (behind_preload p r)
behind_preload-Tells H (loaded names) t = t
behind_preload-Tells H (exited names failing message) t =
    at_once {printed = module_error failing message ∷ []}

-- Both programs, whatever modules are built into them and on every command line, if the chunks of Lua
-- that they run end. Where every chunk returns, the exit status is 1 if the C code has printed
-- something other than the version, and 0 if not; where a chunk raises an error, the C code prints
-- something and the status is 1; where a chunk ends the process itself, the C code has printed nothing
-- and the status is the chunk's. Nothing is run behind a chunk that does not return.
pub mains-Tells :
    (modules : List Module) (H : Host) (argv0 : Bytes) (args : List Bytes)
    → Tells H (lilush_main modules H argv0 args) × Tells H (reliw_main modules H args)
unfolding lilush_main reliw_main
mains-Tells modules H argv0 args = (
  behind_preload-Tells H (preload_modules [] modules) (lilush_command-Tells H argv0 args),
  behind_preload-Tells H (preload_modules [] modules) (reliw_command-Tells H args),
)

-- Whether each module loads.
abbrev pub all_load : List Module → Bool
all_load [] = true
all_load (m ∷ rest) = m.rc == 0 && all_load rest

abbrev pub module_names : List Module → List String
module_names ms = map (λ m. m.module_name) ms

&&-true : (a b : Bool) → (a && b) ≡ true → (a ≡ true) × (b ≡ true)
&&-true true b h = (refl, h)
&&-true false b h = ground arith

preload_set :
    (set : List String) (good rest : List Module)
    → all_load good ≡ true
    → preload_modules set (good ++ rest) ≡ preload_modules (set ++ module_names good) rest
unfolding preload_modules
preload_set set [] rest h = rw (append-nil set) refl
preload_set set (m ∷ good) rest h =
    let (here, there) = &&-true (m.rc == 0) (all_load good) h in
    rw
      (
        here,
        preload_set (set ++ (m.module_name ∷ [])) good rest there,
        append_assoc set (m.module_name ∷ []) (module_names good),
      )
      refl

all_preloaded :
    (good : List Module)
    → all_load good ≡ true
    → preload_modules [] good ≡ loaded (module_names good)
unfolding preload_modules
all_preloaded good h = ap (preload_modules []) (sym (append-nil good)) ∙ preload_set [] good [] h

-- The modules in front of the first that does not load are set, in their order; there the program
-- ends, with that module's name and the text of its error.
pub preload_modules-first :
    (good rest : List Module) (bad : Module)
    → all_load good ≡ true
    → (bad.rc == 0) ≡ false
    → (preload_modules [] good ≡ loaded (module_names good))
      × (preload_modules [] (good ++ bad ∷ rest)
          ≡ exited (module_names good) bad.module_name (load_error bad.rc))
unfolding preload_modules
preload_modules-first good rest bad hg hb =
    (all_preloaded good hg, rw (preload_set [] good (bad ∷ rest) hg, hb) refl)
