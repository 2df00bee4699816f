-- ===== src/Wireguard/Types/Defined.antt =====
-- Steps of lua_wg_set_device of wireguard/lua_wireguard.c that end without an access outside an object.
use lilush.Common.{
  ℕ, zero, suc, ◌+◌, ◌≢◌, Bool, true, false, Bytes, String, Option, none, some, if◌then◌else◌,
  Outcome, ok, custom_err, sys_err, fault,
}
use lilush.Wireguard.Table.{Value, nil, boolean, number, string, table, Fields}
use lilush.Wireguard.Parse.{
  Heap, Parsed, done, returned, and_then, as_table, malloc, lift, on_ok, or_err, optional,
}

-- A result that C defines.
pub data IsDefined {A : Type 0} : Outcome A → Type 0 where
  defined_ok : {a : A} → IsDefined (ok a)
  defined_custom : {message : String} → IsDefined (custom_err message)
  defined_sys : {errno : ℕ} → IsDefined (sys_err errno)

pub data NeverFaults {A : Type 0} : Parsed A → Type 0 where
  goes_on : {a : A} {h : Heap} → NeverFaults (done a h)
  returns : {r : Outcome Bool} {h : Heap} → r ≢ fault → NeverFaults (returned r h)

pub on_ok-IsDefined :
    {A B : Type 0} {r : Outcome A} {k : A → Outcome B}
    → IsDefined r
    → ((a : A) → IsDefined (k a))
    → IsDefined (on_ok r k)
unfolding on_ok
on_ok-IsDefined (defined_ok {a}) d = d a
on_ok-IsDefined defined_custom d = defined_custom
on_ok-IsDefined defined_sys d = defined_sys

pub and_then-NeverFaults :
    {A B : Type 0} {r : Parsed A} {k : A → Heap → Parsed B}
    → NeverFaults r
    → ((a : A) (h : Heap) → NeverFaults (k a h))
    → NeverFaults (and_then r k)
unfolding and_then
and_then-NeverFaults (goes_on {a} {h}) d = d a h
and_then-NeverFaults (returns e) d = returns e

pub lift-NeverFaults :
    {A : Type 0} {r : Outcome A} (h : Heap) → IsDefined r → NeverFaults (lift r h)
unfolding lift
lift-NeverFaults h defined_ok = goes_on
lift-NeverFaults h defined_custom = returns (cc)
lift-NeverFaults h defined_sys = returns (cc)

pub malloc-NeverFaults :
    {A : Type 0} (message : String) (h : Heap) (k : Heap → Parsed A)
    → ((h' : Heap) → NeverFaults (k h'))
    → NeverFaults (malloc message h k)
unfolding malloc
malloc-NeverFaults message h k d = room h.available
  where
    room :
        (n : ℕ)
        → NeverFaults (elim n [
          | zero ↦ returned (custom_err message) h
          | suc left ↦ k (record { allocated = h.allocated + 1; available = left })
        ])
    room zero = returns (cc)
    room (suc n) = d _

pub as_table-NeverFaults :
    {A : Type 0} (v : Value) (message : String) (h : Heap) (k : Fields → Parsed A)
    → ((t : Fields) → NeverFaults (k t))
    → NeverFaults (as_table v message h k)
unfolding as_table
as_table-NeverFaults nil message h k d = returns (cc)
as_table-NeverFaults (boolean b) message h k d = returns (cc)
as_table-NeverFaults (number n) message h k d = returns (cc)
as_table-NeverFaults (string s) message h k d = returns (cc)
as_table-NeverFaults (table t) message h k d = d t

pub optional-cases :
    {A : Type 0} (P : A → Type 0) (v : Value) (a : A) (k : Value → A)
    → P a
    → P (k v)
    → P (optional v a k)
unfolding optional
optional-cases P nil a k pa pk = pa
optional-cases P (boolean b) a k pa pk = pk
optional-cases P (number n) a k pa pk = pk
optional-cases P (string s) a k pa pk = pk
optional-cases P (table t) a k pa pk = pk

pub branch :
    {A : Type 0} (b : Bool) {x y : Outcome A}
    → IsDefined x
    → IsDefined y
    → IsDefined (if b then x else y)
branch true dx dy = dx
branch false dx dy = dy

pub option_or :
    {C A : Type 0} (o : Option C) (r : Outcome A) (k : C → Outcome A)
    → IsDefined r
    → ((c : C) → IsDefined (k c))
    → IsDefined (elim o [ none ↦ r | some c ↦ k c ])
option_or none r k dr dk = dr
option_or (some c) r k dr dk = dk c

pub or_err-IsDefined : (o : Option Bytes) (message : String) → IsDefined (or_err o message)
or_err-IsDefined none message = defined_custom
or_err-IsDefined (some s) message = defined_ok
