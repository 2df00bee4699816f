-- ===== src/Term/Resize.antt =====
-- The resize flag between the signal handler and the program that polls it. The handler runs between
-- any two instructions, so here `resized` and `get_window_size` are the steps that they consist of.
use lilush.Common.{ℕ, ◌≡◌, ◌≢◌, refl, Bool, true, false, some, arith, if◌then◌else◌}
use lilush.Term.{Term, Env, sigwinch, sig_handler, resized, get_window_size}

-- `lua_pushboolean(L, window_been_resized)`
unfoldable pub resized_push : Term → Bool
resized_push t = t.window_been_resized

-- `if (window_been_resized) { window_been_resized = 0; }`
unfoldable pub resized_clear : Term → Term
resized_clear t = if t.window_been_resized then record t { window_been_resized = false } else t

-- A call of `resized` at `t`, with the handler run between its two steps.
unfoldable pub resized_interrupted : Env → Term → Bool × Term
unfolding resized_push resized_clear
resized_interrupted env t = (resized_push t, resized_clear (sig_handler env sigwinch t))

-- Undisturbed, the two steps are `resized`.
resized_steps : (t : Term) → resized t ≡ (resized_push t, resized_clear t)
unfolding resized resized_push resized_clear
resized_steps t = refl

-- A poll after a resize reports it, the next poll does not, and the size is the one that the signal
-- brought, rows first.
pub resized-sig_handler :
    (env : Env) (t : Term) (row col : ℕ)
    → env.winsize ≡ some (row, col)
    → let t' = sig_handler env sigwinch t in
      ((resized t').0 ≡ true)
      × ((resized (resized t').1).0 ≡ false)
      × (get_window_size (resized t').1 ≡ (row, col))
unfolding resized sig_handler get_window_size
resized-sig_handler env t row col e = (ground arith, ground arith, ground arith)

-- A signal of another kind changes nothing, and a resize whose size cannot be read keeps the size.
pub sig_handler_other :
    (env : Env) (sig : ℕ) (t : Term) → sig ≢ sigwinch → sig_handler env sig t ≡ t
unfolding sig_handler
sig_handler_other env sig t h = ground arith
