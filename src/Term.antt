-- ===== src/Term.antt =====
-- term/term.c: the terminal's modes, the window size, and the resize signal.
-- A flag word of `struct termios` is the set of its flags, as a function from flags. The kernel's
-- side is `Env` (what the calls answer) and the attributes that the terminal has, in `Term`.
pub mod Mode
pub mod Resize
mod Tests
use lilush.Common.{
  ℕ, ◌-◌, ◌%◌, Bool, true, false, ◌||◌, List, [], ◌∷◌, Option, none, some, ◌==◌, ltb, if◌then◌else◌,
  ℤ, pos, negsuc, is_negative, is_nonzero, Outcome, ok, custom_err, sys_err,
}

-- The flags that the source names; `other` stands for the rest.
pub data Flag : Type 0 where
  brkint icrnl inpck istrip ixon imaxbel : Flag
  opost onlcr : Flag
  cs8 cread hupcl : Flag
  echo icanon iexten isig echoe echok echoctl echoke : Flag
  other : ℕ → Flag

-- The number of a named flag.
abbrev number : Flag → ℕ
number brkint = 0
number icrnl = 1
number inpck = 2
number istrip = 3
number ixon = 4
number imaxbel = 5
number opost = 6
number onlcr = 7
number cs8 = 8
number cread = 9
number hupcl = 10
number echo = 11
number icanon = 12
number iexten = 13
number isig = 14
number echoe = 15
number echok = 16
number echoctl = 17
number echoke = 18
number (other n) = 19

abbrev pub Flags : Type 0
Flags = Flag → Bool

-- `A | B | …`, of named flags
abbrev pub one_of : List Flag → Flags
one_of [] f = false
one_of (g ∷ gs) f = number f == number g || one_of gs f

-- `flags &= ~mask` and `flags |= mask`
abbrev clear : List Flag → Flags → Flags
clear mask flags f = if one_of mask f then false else flags f

abbrev add : List Flag → Flags → Flags
add mask flags f = if one_of mask f then true else flags f

pub record Termios : Type 0 where
  pub c_iflag : Flags
  pub c_oflag : Flags
  pub c_cflag : Flags
  pub c_lflag : Flags
  pub vmin : ℕ
  pub vtime : ℕ

-- What the calls of one operation answer: `isatty` for stdin and for stdout, the errno of a failing
-- `tcgetattr` or `tcsetattr`, and the rows and columns of `TIOCGWINSZ`.
pub record Env : Type 0 where
  pub isatty_in : Bool
  pub isatty_out : Bool
  pub tcgetattr_fails : Option ℕ
  pub tcsetattr_fails : Option ℕ
  pub winsize : Option (ℕ × ℕ)

-- The file's variables, and the terminal's attributes. `out_tty` is `none` for -1.
pub record Term : Type 0 where
  pub window_been_resized : Bool
  pub window_x : ℕ
  pub window_y : ℕ
  pub in_raw_mode : Bool
  pub out_tty : Option Bool
  pub tty : Termios

abbrev pub sigwinch : ℕ
sigwinch = 28

-- The branch of `sig_handler` for a successful `ioctl`.
abbrev set_size : Option (ℕ × ℕ) → Term → Term
set_size none t = t
set_size (some (row, col)) t = record t { window_x = col; window_y = row }

unfoldable pub sig_handler : Env → ℕ → Term → Term
sig_handler env sig t =
    if sigwinch == sig then set_size env.winsize (record t { window_been_resized = true }) else t

-- The conversion of an `int` to `cc_t`, an unsigned char.
abbrev to_cc : ℤ → ℕ
to_cc (pos n) = n % 256
to_cc (negsuc n) = 255 - n % 256

unfoldable pub raw_attributes : ℤ → Termios → Termios
raw_attributes read_timeout s = record {
  c_iflag = clear (brkint ∷ icrnl ∷ inpck ∷ istrip ∷ ixon ∷ []) s.c_iflag;
  c_oflag = clear (opost ∷ []) s.c_oflag;
  c_cflag = add (cs8 ∷ []) s.c_cflag;
  c_lflag = clear (echo ∷ icanon ∷ iexten ∷ isig ∷ []) s.c_lflag;
  vmin = 0;
  vtime = to_cc read_timeout;
}

unfoldable pub sane_attributes : Termios → Termios
sane_attributes s = record {
  c_iflag = one_of (icrnl ∷ brkint ∷ imaxbel ∷ []);
  c_oflag = one_of (opost ∷ onlcr ∷ []);
  c_cflag = one_of (cread ∷ cs8 ∷ hupcl ∷ []);
  c_lflag = one_of (isig ∷ icanon ∷ iexten ∷ echo ∷ echoe ∷ echok ∷ echoctl ∷ echoke ∷ []);
  vmin = 1;
  vtime = 0;
}

-- The part that the two modes share: the checks, the new attributes, and the flag `in_raw_mode`.
unfoldable pub set_mode : Bool → (Termios → Termios) → Env → Term → Outcome Bool × Term
set_mode raw change env t =
    if env.isatty_in
    then elim env.tcgetattr_fails [
      | some errno ↦ (sys_err errno, t)
      | none ↦ elim env.tcsetattr_fails [
        | some errno ↦ (sys_err errno, t)
        | none ↦ (ok true, record t { in_raw_mode = raw; tty = change t.tty })
      ]
    ]
    else (custom_err "not attached to tty", t)

unfoldable pub set_raw_mode : ℤ → Env → Term → Outcome Bool × Term
unfolding set_mode
set_raw_mode read_timeout = set_mode true (raw_attributes read_timeout)

unfoldable pub set_sane_mode : Env → Term → Outcome Bool × Term
unfolding set_mode
set_sane_mode = set_mode false sane_attributes

-- rows, then columns
unfoldable pub get_window_size : Term → ℕ × ℕ
get_window_size t = (t.window_y, t.window_x)

unfoldable pub resized : Term → Bool × Term
resized t = (
  t.window_been_resized,
  if t.window_been_resized then record t { window_been_resized = false } else t,
)

unfoldable pub raw_mode : Term → Bool
raw_mode t = t.in_raw_mode

-- The first call asks, and later ones repeat its answer.
unfoldable pub is_tty : Env → Term → Bool × Term
is_tty env t = elim t.out_tty [
  | some b ↦ (b, t)
  | none ↦ (env.isatty_out, record t { out_tty = some env.isatty_out })
]

-- The variables' initial values, then the first reading of the window size.
unfoldable pub luaopen_term_core : Env → Termios → Term
unfolding sig_handler
luaopen_term_core env tty =
    let t = sig_handler env sigwinch (record {
      window_been_resized = false;
      window_x = 0;
      window_y = 0;
      in_raw_mode = false;
      out_tty = none;
      tty = tty;
    }) in
    record t { window_been_resized = false }
