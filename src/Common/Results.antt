-- ===== src/Common/Results.antt =====
-- What a C function that Lua calls returns.
use Prim.Native.Nat.{ℕ}
use Prim.Native.String.{String}

pub data Outcome {ℓ} (A : Type ℓ) : Type ℓ where
  -- the values pushed
  ok : A → Outcome A
  -- `RETURN_CUSTOM_ERR`: nil and a message
  custom_err : String → Outcome A
  -- `RETURN_ERR`: nil and the text of `errno`
  sys_err : ℕ → Outcome A
  -- an access outside an object, or another step that C leaves undefined
  fault : Outcome A
