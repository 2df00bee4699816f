-- ===== src/Term/Mode.antt =====
-- Runs of the module: `in_raw_mode` says what the terminal's attributes are.
use lilush.Common.{ℕ, ◌≡◌, refl, ◌⊎◌, inl, inr, Bool, true, false, none, arith, ℤ, ok}
use lilush.Term.{
  Term, Termios, Env, brkint, icrnl, ixon, opost, cs8, echo, icanon, iexten, isig, sig_handler,
  set_mode, set_raw_mode, set_sane_mode, raw_attributes, sane_attributes, resized, is_tty,
  luaopen_term_core,
}

-- What a program does, and what happens to it: each step with the answers that it gets.
pub data Step : Term → Term → Type 0 where
  signal : (env : Env) (sig : ℕ) (t : Term) → Step t (sig_handler env sig t)
  raw : (timeout : ℤ) (env : Env) (t : Term) → Step t (set_raw_mode timeout env t).1
  sane : (env : Env) (t : Term) → Step t (set_sane_mode env t).1
  poll : (t : Term) → Step t (resized t).1
  ask : (env : Env) (t : Term) → Step t (is_tty env t).1

-- The states that follow from loading the module on a terminal with the given attributes.
pub data Reach (tty : Termios) : Term → Type 0 where
  load : (env : Env) → Reach tty (luaopen_term_core env tty)
  next : {t u : Term} → Reach tty t → Step t u → Reach tty u

-- No echo, no line buffering, no signals from keys, no output processing, eight bits, and reads that
-- return after the timeout.
pub record IsRaw (s : Termios) : Type 0 where
  pub echoes : s.c_lflag echo ≡ false
  pub canonical : s.c_lflag icanon ≡ false
  pub extended : s.c_lflag iexten ≡ false
  pub signals : s.c_lflag isig ≡ false
  pub breaks : s.c_iflag brkint ≡ false
  pub newlines : s.c_iflag icrnl ≡ false
  pub flow : s.c_iflag ixon ≡ false
  pub output : s.c_oflag opost ≡ false
  pub width : s.c_cflag cs8 ≡ true
  pub at_least : s.vmin ≡ 0

-- Echo, line buffering and signals from keys.
pub record IsCooked (s : Termios) : Type 0 where
  pub echoes : s.c_lflag echo ≡ true
  pub canonical : s.c_lflag icanon ≡ true
  pub signals : s.c_lflag isig ≡ true

-- What the flag `in_raw_mode` promises of the attributes.
abbrev pub Promised : Bool → Termios → Type 0
Promised true s = IsRaw s
Promised false s = IsCooked s

IsRaw-raw_attributes : (timeout : ℤ) (s : Termios) → IsRaw (raw_attributes timeout s)
unfolding raw_attributes
IsRaw-raw_attributes timeout s = record {
  echoes = refl;
  canonical = refl;
  extended = refl;
  signals = refl;
  breaks = refl;
  newlines = refl;
  flow = refl;
  output = refl;
  width = refl;
  at_least = refl;
}

IsCooked-sane_attributes : (s : Termios) → IsCooked (sane_attributes s)
unfolding sane_attributes
IsCooked-sane_attributes s = record { echoes = refl; canonical = refl; signals = refl }

-- The flag and the attributes of a state agree.
abbrev pub Agrees : Term → Type 0
Agrees t = Promised t.in_raw_mode t.tty

Agrees-same : (t u : Term) → u.in_raw_mode ≡ t.in_raw_mode → u.tty ≡ t.tty → Agrees t → Agrees u
Agrees-same t u e f h = rw (e, f) h

-- A change of mode either leaves everything alone or makes both changes.
set_mode-cases :
    (to : Bool) (change : Termios → Termios) (env : Env) (t : Term)
    → ((set_mode to change env t).1 ≡ t)
      ⊎ ((set_mode to change env t).1 ≡ record t { in_raw_mode = to; tty = change t.tty })
unfolding set_mode
set_mode-cases to change env t = ground arith

set_mode-Agrees :
    (to : Bool) (change : Termios → Termios) (env : Env) (t : Term)
    → Promised to (change t.tty)
    → Agrees t
    → Agrees (set_mode to change env t).1
set_mode-Agrees to change env t new h = elim (set_mode-cases to change env t) [
  | inl e ↦ rw e h
  | inr e ↦ rw e new
]

Step-Agrees : {t u : Term} → Step t u → Agrees t → Agrees u
unfolding sig_handler set_raw_mode set_sane_mode resized is_tty
Step-Agrees (signal env sig t) h =
    Agrees-same t (sig_handler env sig t) (ground arith) (ground arith) h
Step-Agrees (raw timeout env t) h =
    set_mode-Agrees true (raw_attributes timeout) env t (IsRaw-raw_attributes timeout t.tty) h
Step-Agrees (sane env t) h =
    set_mode-Agrees false sane_attributes env t (IsCooked-sane_attributes t.tty) h
Step-Agrees (poll t) h = Agrees-same t (resized t).1 (ground arith) (ground arith) h
Step-Agrees (ask env t) h = Agrees-same t (is_tty env t).1 (ground arith) (ground arith) h

-- On a terminal that starts with echo, line buffering and signals from keys, whatever a program calls
-- and whichever signals arrive: while `in_raw_mode` is set the terminal has the raw attributes, and
-- while it is not set it has those three.
pub Reach-Agrees : {tty : Termios} {t : Term} → IsCooked tty → Reach tty t → Agrees t
unfolding luaopen_term_core sig_handler
Reach-Agrees {tty} start (load env) =
    Agrees-same
      (record {
        window_been_resized = false;
        window_x = 0;
        window_y = 0;
        in_raw_mode = false;
        out_tty = none;
        tty = tty;
      })
      (luaopen_term_core env tty) (ground arith) (ground arith) start
Reach-Agrees start (next r st) = Step-Agrees st (Reach-Agrees start r)

-- A call that reports an error has changed neither the flag nor the attributes; one that returns
-- leaves the flag at its mode.
pub set_modes_report :
    (timeout : ℤ) (env : Env) (t : Term)
    → (((set_raw_mode timeout env t).1 ≡ t)
        ⊎ (((set_raw_mode timeout env t).0 ≡ ok true)
            × ((set_raw_mode timeout env t).1.in_raw_mode ≡ true)))
      × (((set_sane_mode env t).1 ≡ t)
          ⊎ (((set_sane_mode env t).0 ≡ ok true) × ((set_sane_mode env t).1.in_raw_mode ≡ false)))
unfolding set_raw_mode set_sane_mode
set_modes_report timeout env t = (ground arith, ground arith)
