-- ===== src/Crypto/Ledger.antt =====
-- The wolfCrypt objects that a function of crypto/crypto.c holds while it runs, and commands that
-- take them, give them back, and end early with an error.
use lilush.Common.{ℕ, suc, String, Bool, true, false, List, [], ◌∷◌, Outcome, ok, custom_err, fault}
use lilush.Common.{sys_err, if◌then◌else◌}

pub data Resource : Type 0 where
  generator key_slot r_slot s_slot certificate block : Resource

-- Which objects are live. `misuses` counts a release or a use of an object that is not live, and an
-- initialisation of one that is.
pub record Ledger : Type 0 where
  pub generator : Bool
  pub key_slot : Bool
  pub r_slot : Bool
  pub s_slot : Bool
  pub certificate : Bool
  pub block : Bool
  pub misuses : ℕ

-- Nothing is live and nothing has been misused.
abbrev pub clean : Ledger
clean = record {
  generator = false;
  key_slot = false;
  r_slot = false;
  s_slot = false;
  certificate = false;
  block = false;
  misuses = 0;
}

abbrev is_live : Resource → Ledger → Bool
is_live generator l = l.generator
is_live key_slot l = l.key_slot
is_live r_slot l = l.r_slot
is_live s_slot l = l.s_slot
is_live certificate l = l.certificate
is_live block l = l.block

abbrev mark : Resource → Bool → Ledger → Ledger
mark generator b l = record l { generator = b }
mark key_slot b l = record l { key_slot = b }
mark r_slot b l = record l { r_slot = b }
mark s_slot b l = record l { s_slot = b }
mark certificate b l = record l { certificate = b }
mark block b l = record l { block = b }

abbrev misuse : Ledger → Ledger
misuse l = record l { misuses = suc l.misuses }

abbrev require : List Resource → Ledger → Ledger
require [] l = l
require (r ∷ rs) l = require rs (if is_live r l then l else misuse l)

abbrev pub Run : Type 0 → Type 0
Run A = Outcome A × Ledger

abbrev pub Cmd : Type 0 → Type 0
Cmd A = Ledger → Run A

abbrev and_then : {A B : Type 0} → Run A → (A → Cmd B) → Run B
and_then (ok a, l) k = k a l
and_then (custom_err m, l) k = (custom_err m, l)
and_then (sys_err e, l) k = (sys_err e, l)
and_then (fault, l) k = (fault, l)

infixl 5 ◌>>=◌ ◌>>◌
abbrev pub ◌>>=◌ : {A B : Type 0} → Cmd A → (A → Cmd B) → Cmd B
◌>>=◌ m k l = and_then (m l) k

abbrev pub ◌>>◌ : {B : Type 0} → Cmd (Unit {0}) → Cmd B → Cmd B
m >> n = m >>= λ _. n

abbrev pub pure : {A : Type 0} → A → Cmd A
pure a l = (ok a, l)

abbrev pub nothing : Cmd (Unit {0})
nothing = pure tt

-- A step that C leaves undefined.
abbrev pub undefined : {A : Type 0} → Cmd A
undefined l = (fault, l)

abbrev pub acquire : Resource → Cmd (Unit {0})
acquire r l = (ok tt, mark r true (if is_live r l then misuse l else l))

abbrev pub release : Resource → Cmd (Unit {0})
release r l = (ok tt, mark r false (if is_live r l then l else misuse l))

-- A library call with the answer `a`, made on live objects.
abbrev pub calls : {A : Type 0} → List Resource → A → Cmd A
calls rs a l = (ok a, require rs l)

-- `if (test) { cleanup; RETURN_CUSTOM_ERR(L, message); }`
abbrev pub fail_if : Bool → Cmd (Unit {0}) → String → Cmd (Unit {0})
fail_if true cleanup message = cleanup >> λ l. (custom_err message, l)
fail_if false cleanup message = nothing
