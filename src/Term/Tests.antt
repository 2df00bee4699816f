-- ===== src/Term/Tests.antt =====
-- A session of term/term.c, and the theorems at it.
use lilush.Common.{◌≡◌, refl, true, false, none, some, [], ◌∷◌, pos, negsuc}
use lilush.Term.{
  raw_attributes, Term, Termios, Env, one_of, echo, icanon, isig, ixon, opost, sigwinch,
  sig_handler, set_raw_mode, set_sane_mode, get_window_size, resized, luaopen_term_core,
}
use lilush.Term.Mode.{Agrees, load, next, raw, sane, Reach-Agrees}
use lilush.Term.Resize.{resized-sig_handler}

abbrev cooked : Termios
cooked = record {
  c_iflag = one_of (ixon ∷ []);
  c_oflag = one_of (opost ∷ []);
  c_cflag = one_of [];
  c_lflag = one_of (echo ∷ icanon ∷ isig ∷ []);
  vmin = 1;
  vtime = 0;
}

abbrev env : Env
env = record {
  isatty_in = true;
  isatty_out = false;
  tcgetattr_fails = none;
  tcsetattr_fails = none;
  winsize = some (24, 80);
}

abbrev start : Term
start = record {
  window_been_resized = false;
  window_x = 80;
  window_y = 24;
  in_raw_mode = false;
  out_tty = none;
  tty = cooked;
}

loaded : luaopen_term_core env cooked ≡ start
unfolding luaopen_term_core
loaded = refl

-- A timeout of -1 is 255 tenths of a second.
raw_timeout : (set_raw_mode (negsuc 0) env start).1.tty.vtime ≡ 255
unfolding set_raw_mode raw_attributes
raw_timeout = refl

Reach-Agrees_example :
    Agrees (set_sane_mode env (set_raw_mode (pos 1) env (luaopen_term_core env cooked)).1).1
unfolding luaopen_term_core
Reach-Agrees_example =
    Reach-Agrees (record { echoes = refl; canonical = refl; signals = refl })
      (next (next (load env) (raw (pos 1) env _)) (sane env _))

resized-sig_handler_example :
    ((resized (sig_handler env sigwinch start)).0 ≡ true)
    × ((resized (resized (sig_handler env sigwinch start)).1).0 ≡ false)
    × (get_window_size (resized (sig_handler env sigwinch start)).1 ≡ (24, 80))
resized-sig_handler_example = resized-sig_handler env start 24 80 refl
