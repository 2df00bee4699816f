-- ===== src/Std/Sleep.antt =====
-- deviant_sleep_ms of std/std.c. What `nanosleep` answers is a list: each time it sleeps to the end,
-- is interrupted with some time left, or fails.
use lilush.Common.{
  ℕ, zero, suc, ◌+◌, ◌-◌, ◌*◌, ◌/◌, ◌%◌, ◌^◌, ◌≤◌, ◌<◌, ◌≡◌, List, [], ◌∷◌, Option, none, some, ℤ,
  pos, negsuc, arith,
}

pub record Timespec : Type 0 where
  pub tv_sec : ℤ
  pub tv_nsec : ℤ

-- -n
abbrev neg : ℕ → ℤ
neg zero = pos 0
neg (suc n) = negsuc n

-- C's `/` and `%` round towards zero.
unfoldable pub timespec_of : ℤ → Timespec
timespec_of (pos ms) = record { tv_sec = pos (ms / 1000); tv_nsec = pos (ms % 1000 * 1000000) }
timespec_of (negsuc n) = record {
  tv_sec = neg (suc n / 1000);
  tv_nsec = neg (suc n % 1000 * 1000000);
}

pub data Nap : Type 0 where
  slept : Nap
  interrupted : Timespec → Nap
  refused : Nap

-- The requests that the loop makes, in order: it repeats with what is left while `nanosleep` is
-- interrupted. `none` means that the answers end before the loop does.
unfoldable pub nap_loop : Timespec → List Nap → Option (List Timespec)
nap_loop ts [] = none
nap_loop ts (slept ∷ rest) = some (ts ∷ [])
nap_loop ts (refused ∷ rest) = some (ts ∷ [])
nap_loop ts (interrupted left ∷ rest) = elim (nap_loop left rest) [
  | none ↦ none
  | some requests ↦ some (ts ∷ requests)
]

unfoldable pub deviant_sleep_ms : ℤ → List Nap → Option (List Timespec)
unfolding timespec_of nap_loop
deviant_sleep_ms milliseconds answers = nap_loop (timespec_of milliseconds) answers

-- A time in nanoseconds, if it is not negative and the nanoseconds are below 10^9, as `nanosleep`
-- demands.
abbrev pub Lasts : Timespec → ℕ → Type 0
Lasts ts ns =
    (s : ℕ) × (n : ℕ) × (ts.tv_sec ≡ pos s)
    × (ts.tv_nsec ≡ pos n)
    × (n < 10 ^ 9)
    × (s * 10 ^ 9 + n ≡ ns)

-- Answers that interrupt after each of the times `done` in turn and then sleep the rest of `ns`.
pub data Sleeps : ℕ → List ℕ → List Nap → Type 0 where
  finished : {ns : ℕ} {rest : List Nap} → Sleeps ns [] (slept ∷ rest)
  broken :
      {ns d : ℕ} {left : Timespec} {done : List ℕ} {rest : List Nap}
      → d ≤ ns
      → Lasts left (ns - d)
      → Sleeps (ns - d) done rest
      → Sleeps ns (d ∷ done) (interrupted left ∷ rest)

-- Each request asks for what the times slept so far have left.
pub data Asks : ℕ → List ℕ → List Timespec → Type 0 where
  last : {ns : ℕ} {ts : Timespec} → Lasts ts ns → Asks ns [] (ts ∷ [])
  more :
      {ns d : ℕ} {ts : Timespec} {done : List ℕ} {requests : List Timespec}
      → Lasts ts ns
      → Asks (ns - d) done requests
      → Asks ns (d ∷ done) (ts ∷ requests)

nap_loop-Asks :
    {ns : ℕ} {done : List ℕ} {answers : List Nap} (ts : Timespec)
    → Lasts ts ns
    → Sleeps ns done answers
    → (requests : List Timespec) × (nap_loop ts answers ≡ some requests) × Asks ns done requests
unfolding nap_loop
nap_loop-Asks ts l finished = (ts ∷ [], ground arith, last l)
nap_loop-Asks ts l (broken {left} h k s) =
    let (requests, run, asks) = nap_loop-Asks left k s in (ts ∷ requests, ground arith, more l asks)

timespec_of-Lasts : (ms : ℕ) → Lasts (timespec_of (pos ms)) (ms * 10 ^ 6)
unfolding timespec_of
timespec_of-Lasts ms =
    (ms / 1000, ms % 1000 * 1000000, ground arith, ground arith, omega arith, omega arith)

-- However often signals interrupt a sleep of `ms` milliseconds, as long as in the end one `nanosleep`
-- runs to its end, the call returns; every request is valid, and asks for exactly what of the
-- `ms * 10^6` nanoseconds the earlier ones have not slept.
pub deviant_sleep_ms-Asks :
    (ms : ℕ) {done : List ℕ} {answers : List Nap}
    → Sleeps (ms * 10 ^ 6) done answers
    → (requests : List Timespec) × (deviant_sleep_ms (pos ms) answers ≡ some requests)
      × Asks (ms * 10 ^ 6) done requests
unfolding deviant_sleep_ms
deviant_sleep_ms-Asks ms s = nap_loop-Asks (timespec_of (pos ms)) (timespec_of-Lasts ms) s
