-- ===== src/Std/Signal.antt =====
-- The signal functions and deviant_sleep of std/std.c, over `signal` and `sleep` as changes of an
-- unknown state; the functions ignore what the two answer.
use lilush.Common.{ℕ, suc, ◌-◌, ◌%◌, ◌^◌, ◌≡◌, refl, ℤ, pos, negsuc}

-- handle_signal does nothing.
pub data Disposition : Type 0 where
  sig_dfl handle_signal : Disposition

-- An int where `sleep` takes an unsigned int.
abbrev unsigned : ℤ → ℕ
unsigned (pos n) = n % 2 ^ 32
unsigned (negsuc n) = (2 ^ 32 - suc n % 2 ^ 32) % 2 ^ 32

module _ {World : Type 0} where
  unfoldable pub deviant_register_signal_handler :
      (ℤ → Disposition → World → World) → ℤ → World → World
  deviant_register_signal_handler signal signum w = signal signum handle_signal w

  unfoldable pub deviant_remove_signal_handler :
      (ℤ → Disposition → World → World) → ℤ → World → World
  deviant_remove_signal_handler signal signum w = signal signum sig_dfl w

  unfoldable pub deviant_sleep : (ℕ → World → World) → ℤ → World → World
  deviant_sleep sleep seconds w = sleep (unsigned seconds) w

-- `sleep(-1)` asks for the longest sleep there is.
sleep_below_zero : deviant_sleep (λ n w. n) (negsuc 0) 0 ≡ 4294967295
unfolding deviant_sleep
sleep_below_zero = refl
