-- ===== src/Wireguard/Interface.antt =====
-- lua_set_interface_up and lua_add_ipv4_address of wireguard/lua_wireguard.c. A run is the requests
-- made, in order, with the result and the number of sockets left open.
use lilush.Common.{
  ℕ, zero, suc, ◌+◌, ◌-◌, ◌*◌, ◌/◌, ◌%◌, ◌^◌, ◌≤◌, ◌<◌, ◌≡◌, refl, ◌&&◌, Bool, true, false, Bytes,
  List, [], ◌∷◌, ◌++◌, Option, none, some, take, replicate, c_string, leb, ◌==◌, ==_iff,
  if◌then◌else◌, ℤ, pos, is_negative, Bool-cases, inl, inr, Outcome, ok, custom_err, fault, arith,
}

-- The `ioctl` requests of the two functions, with the part of `ifr` that each uses.
pub data Request : Type 0 where
  get_flags : Bytes → Request
  set_flags : Bytes → ℕ → Request
  set_address : Bytes → ℕ → Request
  set_netmask : Bytes → ℕ → Request

-- The kernel's answers. `current_flags` is what SIOCGIFFLAGS writes; `inet_addr` is documented to
-- give 2^32 - 1 for text that it cannot read.
pub record Kernel : Type 0 where
  pub socket : ℤ
  pub ioctl : Request → ℤ
  pub current_flags : Bytes → ℕ
  pub inet_addr : Bytes → ℕ

pub record Run : Type 0 where
  pub result : Outcome Bool
  pub requests : List Request
  pub open_sockets : ℕ

-- `strncpy` of IFNAMSIZ - 1 bytes, with the NUL behind them.
unfoldable pub interface_name : Bytes → Bytes
interface_name ifname = take 15 (c_string ifname)

-- `ifr_flags |= IFF_UP`, where IFF_UP is the lowest bit
unfoldable pub up : ℕ → ℕ
up flags = if flags % 2 == 1 then flags else flags + 1

unfoldable pub lua_set_interface_up : Kernel → Bytes → Run
unfolding interface_name up
lua_set_interface_up K ifname =
    let name = interface_name ifname in
    let read = get_flags name in
    let write = set_flags name (up (K.current_flags name)) in
    if is_negative K.socket
    then record { result = custom_err "Failed to create socket"; requests = []; open_sockets = 0 }
    else if is_negative (K.ioctl read)
    then record {
      result = custom_err "Failed to get interface flags";
      requests = read ∷ [];
      open_sockets = 0;
    }
    else if is_negative (K.ioctl write)
    then record {
      result = custom_err "Failed to set interface flags";
      requests = read ∷ write ∷ [];
      open_sockets = 0;
    }
    else record { result = ok true; requests = read ∷ write ∷ []; open_sockets = 0 }

-- `htonl` on a machine that keeps the low byte of a word first: the four bytes in the other order.
unfoldable pub htonl : ℕ → ℕ
htonl word =
    word % 256 * 16777216
    + word / 256 % 256 * 65536
    + word / 65536 % 256 * 256
    + word / 16777216 % 256

-- `s_addr`: `~((1 << (32 - prefix_len)) - 1)` as an unsigned word, through `htonl`. In `int` the shift
-- is defined by 0 to 30 places only.
unfoldable pub netmask : ℤ → Option ℕ
unfolding htonl
netmask (pos p) =
    if leb 2 p && leb p 32 then some (htonl (2 ^ 32 - 1 - (2 ^ (32 - p) - 1))) else none
netmask _ = none

unfoldable pub lua_add_ipv4_address : Kernel → Bytes → Bytes → ℤ → Run
unfolding interface_name netmask
lua_add_ipv4_address K ifname ipaddr prefix_len =
    let name = interface_name ifname in
    let address = set_address name (K.inet_addr (c_string ipaddr)) in
    if is_negative K.socket
    then record { result = custom_err "Failed to create socket"; requests = []; open_sockets = 0 }
    else if is_negative (K.ioctl address)
    then record {
      result = custom_err "Failed to set the address";
      requests = address ∷ [];
      open_sockets = 0;
    }
    else elim (netmask prefix_len) [
      | none ↦ record { result = fault; requests = address ∷ []; open_sockets = 1 }
      | some mask ↦
          let write = set_netmask name mask in
          if is_negative (K.ioctl write)
          then record {
            result = custom_err "Failed to set the address";
            requests = address ∷ write ∷ [];
            open_sockets = 0;
          }
          else record { result = ok true; requests = address ∷ write ∷ []; open_sockets = 0 }
    ]

-- The bits of a number, the highest first.
abbrev pub bits : ℕ → ℕ → List ℕ
bits zero n = []
bits (suc k) n = n / 2 ^ k % 2 ∷ bits k n

-- Whether two lists are the same.
abbrev same : List ℕ → List ℕ → Bool
same [] [] = true
same (x ∷ xs) (y ∷ ys) = x == y && same xs ys
same _ _ = false

-- The 32 bits of an address as the network reads it: from the byte at the lowest place in memory,
-- which is the low byte of `s_addr`, on.
unfoldable pub network_bits : ℕ → List ℕ
network_bits s_addr =
    bits 8 (s_addr % 256)
    ++ (bits 8 (s_addr / 256 % 256)
        ++ (bits 8 (s_addr / 65536 % 256) ++ bits 8 (s_addr / 16777216 % 256)))

-- The bits of the mask of a prefix.
abbrev pub prefix_bits : ℕ → List ℕ
prefix_bits p = replicate p 1 ++ replicate (32 - p) 0

-- Where the function says true, it has asked for the interface's flags and written them back with the
-- lowest bit, IFF_UP, set and all others as they were, and the kernel has accepted it.
pub lua_set_interface_up-raises :
    (K : Kernel) (ifname : Bytes)
    → (lua_set_interface_up K ifname).result ≡ ok true
    → (flags : ℕ) × ((lua_set_interface_up K ifname).requests
        ≡ get_flags (interface_name ifname) ∷ set_flags (interface_name ifname) flags ∷ [])
      × (is_negative (K.ioctl (set_flags (interface_name ifname) flags)) ≡ false)
      × (flags % 2 ≡ 1)
      × (flags / 2 ≡ K.current_flags (interface_name ifname) / 2)
unfolding lua_set_interface_up up
lua_set_interface_up-raises K ifname h = (
  up (K.current_flags (interface_name ifname)),
  ground arith,
  ground arith,
  ground arith,
  ground arith,
)

abbrev right : Option ℕ → ℕ → Bool
right none p = false
right (some mask) p = same (network_bits mask) (prefix_bits p)

-- A check of the lengths from 2 to n + 1.
abbrev masks_right : ℕ → Bool
masks_right zero = true
masks_right (suc n) = right (netmask (pos (n + 2))) (n + 2) && masks_right n

masks : masks_right 31 ≡ true
unfolding netmask network_bits
masks = refl

same-≡ : (xs ys : List ℕ) → same xs ys ≡ true → xs ≡ ys
same-≡ [] [] h = refl
same-≡ [] (y ∷ ys) h = ground arith
same-≡ (x ∷ xs) [] h = ground arith
same-≡ (x ∷ xs) (y ∷ ys) h = ground (arith, same-≡ xs ys)

&&-true : (a b : Bool) → (a && b) ≡ true → (a ≡ true) × (b ≡ true)
&&-true true true h = (refl, refl)
&&-true true false h = ground arith
&&-true false b h = ground arith

masks_right-each :
    (n p : ℕ) → masks_right n ≡ true → p < n → right (netmask (pos (p + 2))) (p + 2) ≡ true
masks_right-each zero p h l = ground arith
masks_right-each (suc n) p h l =
    let (here, below) = &&-true _ _ h in
    elim (Bool-cases (p == n)) [
      | inl e ↦ rw ((==_iff p n).0 e) here
      | inr ne ↦ masks_right-each n p below (ground arith)
    ]

right-bits :
    (o : Option ℕ) (p : ℕ)
    → right o p ≡ true
    → (mask : ℕ) × (o ≡ some mask) × (network_bits mask ≡ prefix_bits p)
right-bits none p h = ground arith
right-bits (some mask) p h = (mask, refl, same-≡ _ _ h)

sub_two : (p : ℕ) → 2 ≤ p → p - 2 + 2 ≡ p
sub_two p h = omega arith

-- For a prefix length p from 2 to 32 the four bytes of the address that is set as the mask, in their
-- order in the memory of a machine that keeps the low byte first, are p ones and then 32 - p zeros.
pub netmask-bits :
    (p : ℕ)
    → 2 ≤ p
    → p ≤ 32
    → (mask : ℕ) × (netmask (pos p) ≡ some mask) × (network_bits mask ≡ prefix_bits p)
netmask-bits p lo hi =
    right-bits (netmask (pos p)) p
      (rw (sub_two p lo) at (masks_right-each 31 (p - 2) masks (omega arith)))

-- Where the prefix length leaves the mask undefined, as 0 and 1 do, the function runs into an
-- undefined shift, once the socket is open and the address is set.
pub lua_add_ipv4_address-undefined :
    (K : Kernel) (ifname ipaddr : Bytes) (p : ℤ)
    → netmask p ≡ none
    → is_negative K.socket ≡ false
    → is_negative (K.ioctl (set_address (interface_name ifname) (K.inet_addr (c_string ipaddr))))
      ≡ false
    → (lua_add_ipv4_address K ifname ipaddr p).result ≡ fault
unfolding lua_add_ipv4_address
lua_add_ipv4_address-undefined K ifname ipaddr p h hs hi = rw (hs, hi, h) refl
