-- ===== src/Socket/Context/Locations.antt =====
-- When load_locations of luasocket's context.c answers true.
use lilush.Common.{
  ◌≡◌, ◌≢◌, ◌↔◌, ◌⊎◌, inl, inr, refl, true, false, Bool-cases, String, Bytes, Option, none, some,
  arith,
}
use lilush.Socket.Context.{
  Context, Tls, Report, accepted, refused, named, undefined, load_own, load_ca, after,
  load_locations,
}

-- The certificate and the key are loaded, unless one of them is not named.
pub data OwnLoads (T : Tls) (c : Context) : Option Bytes → Option Bytes → Type 0 where
  no_certificate : (keyfile : Option Bytes) → OwnLoads T c none keyfile
  no_key : (cert : Bytes) → OwnLoads T c (some cert) none
  both :
      (cert key : Bytes)
      → T.use_certificate_chain_file c.context cert ≡ true
      → T.use_private_key_file c.context key ≡ true
      → OwnLoads T c (some cert) (some key)

-- The authorities are loaded, if a file or a directory is named.
abbrev pub CaLoads : Tls → Context → Option Bytes → Option Bytes → Type 0
CaLoads T c cafile capath =
    ((cafile ≡ none) × (capath ≡ none)) ⊎ (T.load_verify_locations c.context cafile capath ≡ true)

-- Both are named, and one of them cannot be loaded.
pub data OwnFails (T : Tls) (c : Context) : Option Bytes → Option Bytes → Type 0 where
  no_chain :
      (cert key : Bytes)
      → T.use_certificate_chain_file c.context cert ≡ false
      → OwnFails T c (some cert) (some key)
  no_private_key :
      (cert key : Bytes)
      → T.use_certificate_chain_file c.context cert ≡ true
      → T.use_private_key_file c.context key ≡ false
      → OwnFails T c (some cert) (some key)

-- A file or a directory of authorities is named, and they cannot be loaded.
abbrev pub CaFails : Tls → Context → Option Bytes → Option Bytes → Type 0
CaFails T c cafile capath =
    (¬ ((cafile ≡ none) × (capath ≡ none)))
    × (T.load_verify_locations c.context cafile capath ≡ false)

load_own-OwnLoads :
    (T : Tls) (c : Context) (certfile keyfile : Option Bytes)
    → load_own T c certfile keyfile ≡ accepted
    → OwnLoads T c certfile keyfile
load_own-OwnLoads T c none keyfile e = no_certificate keyfile
load_own-OwnLoads T c (some cert) none e = no_key cert
load_own-OwnLoads T c (some cert) (some key) e = both cert key (ground arith) (ground arith)

OwnLoads-load_own :
    {T : Tls} {c : Context} {certfile keyfile : Option Bytes}
    → OwnLoads T c certfile keyfile
    → load_own T c certfile keyfile ≡ accepted
OwnLoads-load_own (no_certificate keyfile) = refl
OwnLoads-load_own (no_key cert) = refl
OwnLoads-load_own (both cert key a b) = rw (a, b) refl

load_ca-accepted :
    (T : Tls) (c : Context) (cafile capath : Option Bytes)
    → (load_ca T c cafile capath ≡ accepted) ↔ CaLoads T c cafile capath
load_ca-accepted T c none none = ground arith
load_ca-accepted T c (some f) none = ground arith
load_ca-accepted T c none (some p) = ground arith
load_ca-accepted T c (some f) (some p) = ground arith

after-accepted : (r s : Report) → (after r s ≡ accepted) ↔ ((r ≡ accepted) × (s ≡ accepted))
after-accepted accepted s = ground arith
after-accepted (refused m) s = ground arith
after-accepted (named m n) s = ground arith
after-accepted undefined s = ground arith

-- The three results of the first part.
load_own-OwnFails :
    (T : Tls) (c : Context) (certfile keyfile : Option Bytes)
    → load_own T c certfile keyfile ≡ undefined
    → OwnFails T c certfile keyfile
load_own-OwnFails T c none keyfile e = ground arith
load_own-OwnFails T c (some cert) none e = ground arith
load_own-OwnFails T c (some cert) (some key) e =
    elim (Bool-cases (T.use_certificate_chain_file c.context cert)) [
      | inl chain ↦ no_private_key cert key chain (ground arith)
      | inr missing ↦ no_chain cert key missing
    ]

OwnFails-load_own :
    {T : Tls} {c : Context} {certfile keyfile : Option Bytes}
    → OwnFails T c certfile keyfile
    → load_own T c certfile keyfile ≡ undefined
OwnFails-load_own (no_chain cert key a) = rw (a) refl
OwnFails-load_own (no_private_key cert key a b) = rw (a, b) refl

load_own-never :
    (T : Tls) (c : Context) (certfile keyfile : Option Bytes) (m : String)
    → load_own T c certfile keyfile ≢ refused m
load_own-never T c none keyfile m = ground arith
load_own-never T c (some cert) none m = ground arith
load_own-never T c (some cert) (some key) m = ground arith

load_ca-CaFails :
    (T : Tls) (c : Context) (cafile capath : Option Bytes)
    → (load_ca T c cafile capath ≡ refused "error loading CA locations (unknown)")
      ↔ CaFails T c cafile capath
load_ca-CaFails T c none none = ground arith
load_ca-CaFails T c none (some p) = ground arith
load_ca-CaFails T c (some f) none = ground arith
load_ca-CaFails T c (some f) (some p) = ground arith

load_ca-never :
    (T : Tls) (c : Context) (cafile capath : Option Bytes) → load_ca T c cafile capath ≢ undefined
load_ca-never T c none none = ground arith
load_ca-never T c none (some p) = ground arith
load_ca-never T c (some f) none = ground arith
load_ca-never T c (some f) (some p) = ground arith

after-undefined : (r s : Report) → s ≢ undefined → (after r s ≡ undefined) ↔ (r ≡ undefined)
after-undefined accepted s n = ground arith
after-undefined (refused m) s n = ground arith
after-undefined (named m x) s n = ground arith
after-undefined undefined s n = ground arith

after-refused :
    (r s : Report) (m : String)
    → r ≢ refused m
    → (after r s ≡ refused m) ↔ ((r ≡ accepted) × (s ≡ refused m))
after-refused accepted s m n = ground arith
after-refused (refused k) s m n = ground arith
after-refused (named k x) s m n = ground arith
after-refused undefined s m n = ground arith

-- The function answers true exactly if the certificate chain and the key have been loaded, unless one
-- of the two is not named, and the authorities have been, unless neither a file nor a directory is.
-- It is undefined exactly if both the chain and the key are named and one of them cannot be loaded, so
-- that it refuses with a message exactly if it is only the authorities that cannot be.
pub load_locations-accepted :
    (T : Tls) (c : Context) (cafile capath certfile keyfile : Option Bytes)
    → ((load_locations T c cafile capath certfile keyfile ≡ accepted)
        ↔ (OwnLoads T c certfile keyfile × CaLoads T c cafile capath))
      × ((load_locations T c cafile capath certfile keyfile ≡ undefined)
          ↔ OwnFails T c certfile keyfile)
      × ((load_locations T c cafile capath certfile keyfile
            ≡ refused "error loading CA locations (unknown)")
          ↔ (OwnLoads T c certfile keyfile × CaFails T c cafile capath))
unfolding load_locations
load_locations-accepted T c cafile capath certfile keyfile =
    let own = load_own T c certfile keyfile in
    let ca = load_ca T c cafile capath in
    let split = after-accepted own ca in
    let broken = after-undefined own ca (load_ca-never T c cafile capath) in
    let message : String = "error loading CA locations (unknown)" in
    let ended = after-refused own ca message (load_own-never T c certfile keyfile message) in
    let loads = load_own-OwnLoads T c certfile keyfile in
    let authorities = load_ca-accepted T c cafile capath in
    let missing = load_ca-CaFails T c cafile capath in
    (
      (
        λ e. (loads (split.0 e).0, authorities.0 (split.0 e).1),
        λ h. split.1 (OwnLoads-load_own h.0, authorities.1 h.1),
      ),
      (
        λ e. load_own-OwnFails T c certfile keyfile (broken.0 e),
        λ h. broken.1 (OwnFails-load_own h),
      ),
      (
        λ e. (loads (ended.0 e).0, missing.0 (ended.0 e).1),
        λ h. ended.1 (OwnLoads-load_own h.0, missing.1 h.1),
      ),
    )
