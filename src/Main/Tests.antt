-- ===== src/Main/Tests.antt =====
-- Runs of the two programs, and the theorems at concrete command lines.
use lilush.Common.{◌≡◌, refl, true, [], ◌∷◌}
use lilush.Main.{
  Module, start_shell, script, preload_init, start_reliw, module_error, Host, returns, raises,
  exits, version, lilush_text, version_flag, lilush_main, lilush_command, reliw_main,
}
use lilush.Main.Status.{Tells, mains-Tells}

-- Names are what they are, files exist, scripts end with `os.exit(29)`, RELIW's start fails.
abbrev host : Host
host = record {
  basename = λ path. path;
  exists = λ path. true;
  ends = λ chunk. elim chunk [ script path arg ↦ exits 29 | start_reliw ↦ raises | _ ↦ returns ];
}

abbrev good_module : Module
good_module = record { module_name = "std"; rc = 0 }

abbrev bad_module : Module
bad_module = record { module_name = "term"; rc = 3 }

shell_test : (lilush_main (good_module ∷ []) host lilush_text []).chunks ≡ start_shell ∷ []
unfolding lilush_main lilush_command
shell_test = refl

version_test :
    (lilush_main (good_module ∷ []) host lilush_text (version_flag ∷ [])).printed ≡ version ∷ []
unfolding lilush_main lilush_command
version_test = refl

script_test :
    (lilush_main (good_module ∷ []) host lilush_text ((97 ∷ []) ∷ (98 ∷ []) ∷ [])).chunks
    ≡ preload_init ∷ script (97 ∷ []) ((98 ∷ []) ∷ []) ∷ []
unfolding lilush_main lilush_command
script_test = refl

exit_test : (lilush_main (good_module ∷ []) host lilush_text ((97 ∷ []) ∷ [])).status ≡ 29
unfolding lilush_main lilush_command
exit_test = refl

mains-Tells_example :
    Tells host (lilush_main (good_module ∷ []) host lilush_text ((97 ∷ []) ∷ []))
    × Tells host (reliw_main (good_module ∷ []) host ((97 ∷ []) ∷ []))
mains-Tells_example = mains-Tells (good_module ∷ []) host lilush_text ((97 ∷ []) ∷ [])

preload_test :
    (reliw_main (good_module ∷ bad_module ∷ []) host []).printed
    ≡ module_error "term" "syntax error" ∷ []
unfolding reliw_main
preload_test = refl
