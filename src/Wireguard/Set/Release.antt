-- ===== src/Wireguard/Set/Release.antt =====
-- What lua_wg_set_device of wireguard/lua_wireguard.c leaves allocated.
use lilush.Common.{
  ℕ, zero, suc, ◌+◌, ◌≤◌, ◌≡◌, ◌≢◌, ◌↔◌, ◌⊎◌, inl, inr, refl, Bool, Option, List, [], ◌∷◌, none,
  some, String, length, Outcome, ok, custom_err, sys_err, fault, arith,
}
use lilush.Wireguard.Table.{
  Value, nil, boolean, number, string, table, Fields, Numbers, lua_getfield, values,
}
use lilush.Wireguard.Device.{Peer, Device, Wireguard, peer_blocks}
use lilush.Wireguard.Parse.{
  Heap, Parsed, done, returned, and_then, as_table, malloc, optional, lift, parse_allowedips,
  peer_allowedips, parse_peer, parse_peers, allowedip_fields, peer_fields, on_ok,
}
use lilush.Wireguard.Set.{device_fields, add_peers, parse_device, apply_device, lua_wg_set_device}

-- The step has added the blocks of what it gives to the `n` there were, or returned with no fewer.
data Grows {A : Type 0} (n : ℕ) (size : A → ℕ) : Parsed A → Type 0 where
  grown : {a : A} {h : Heap} → h.allocated ≡ n + size a → Grows n size (done a h)
  kept : {r : Outcome Bool} {h : Heap} → n ≤ h.allocated → Grows n size (returned r h)

and_then-Grows :
    {A B : Type 0} {m n : ℕ} {size : A → ℕ} {size' : B → ℕ} {k : A → Heap → Parsed B} {p : Parsed A}
    → n ≤ m
    → Grows m size p
    → ((a : A) (h : Heap) → h.allocated ≡ m + size a → Grows n size' (k a h))
    → Grows n size' (and_then p k)
unfolding and_then
and_then-Grows l (grown e) f = f _ _ e
and_then-Grows l (kept g) f = kept (omega arith)

lift-Grows :
    {A : Type 0} {n : ℕ} (o : Outcome A) (h : Heap) → h.allocated ≡ n → Grows n (λ a. 0) (lift o h)
unfolding lift
lift-Grows (ok a) h e = grown (omega arith)
lift-Grows (custom_err message) h e = kept (omega arith)
lift-Grows (sys_err errno) h e = kept (omega arith)
lift-Grows fault h e = kept (omega arith)

as_table-Grows :
    {A : Type 0} {n : ℕ} {size : A → ℕ} {k : Fields → Parsed A} (v : Value) (message : String)
    (h : Heap)
    → n ≤ h.allocated
    → ((t : Fields) → Grows n size (k t))
    → Grows n size (as_table v message h k)
unfolding as_table
as_table-Grows (table t) message h l f = f t
as_table-Grows nil message h l f = kept l
as_table-Grows (boolean b) message h l f = kept l
as_table-Grows (number b) message h l f = kept l
as_table-Grows (string b) message h l f = kept l

malloc-Grows :
    {A : Type 0} {n : ℕ} {size : A → ℕ} {k : Heap → Parsed A} (message : String)
    (allocated available : ℕ)
    → n ≤ allocated
    → ((h : Heap) → h.allocated ≡ allocated + 1 → Grows n size (k h))
    → Grows n size (malloc message (record { allocated = allocated; available = available }) k)
unfolding malloc
malloc-Grows message allocated zero l f = kept l
malloc-Grows message allocated (suc left) l f =
    f (record { allocated = allocated + 1; available = left }) refl

lift_then-Grows :
    {A B : Type 0} {n : ℕ} {size : B → ℕ} (k : A → Heap → Parsed B) (o : Outcome A) (h : Heap)
    → n ≤ h.allocated
    → ((a : A) → o ≡ ok a → Grows n size (k a h))
    → Grows n size (and_then (lift o h) k)
unfolding and_then lift
lift_then-Grows k (ok a) h l f = f a refl
lift_then-Grows k (custom_err message) h l f = kept l
lift_then-Grows k (sys_err errno) h l f = kept l
lift_then-Grows k fault h l f = kept l

optional-Grows :
    {A : Type 0} {n : ℕ} {size : A → ℕ} {p : Parsed A} {k : Value → Parsed A} (v : Value)
    → Grows n size p
    → ((v : Value) → Grows n size (k v))
    → Grows n size (optional v p k)
unfolding optional
optional-Grows nil g f = g
optional-Grows (table t) g f = f (table t)
optional-Grows (boolean b) g f = f (boolean b)
optional-Grows (number b) g f = f (number b)
optional-Grows (string b) g f = f (string b)

-- A device that has just been read from its fields has no peers.
abbrev NoPeers : Outcome Device → Type 0
NoPeers o = (dev : Device) → o ≡ ok dev → Device.peers dev ≡ []

on_ok-NoPeers :
    {A : Type 0} {k : A → Outcome Device} (o : Outcome A)
    → ((a : A) → NoPeers (k a))
    → NoPeers (on_ok o k)
unfolding on_ok
on_ok-NoPeers (ok a) f = f a
on_ok-NoPeers (custom_err message) f = λ dev e. ground arith
on_ok-NoPeers (sys_err errno) f = λ dev e. ground arith
on_ok-NoPeers fault f = λ dev e. ground arith

either : (o : Option Device) → (o ≡ none) ⊎ ((dev : Device) × (o ≡ some dev))
either none = inl refl
either (some dev) = inr (dev, refl)

module _ (W : Wireguard) (N : Numbers) where
  parse_allowedips-Grows :
      (vs : List Value) (h : Heap) {n : ℕ}
      → h.allocated ≡ n
      → Grows n length (parse_allowedips W N vs h)
  unfolding parse_allowedips
  parse_allowedips-Grows [] h e = grown (omega arith)
  parse_allowedips-Grows (v ∷ rest) h e = as_table-Grows v _ h (omega arith) (λ t.
      malloc-Grows _ h.allocated h.available (omega arith) (λ h1 e1.
        and_then-Grows (omega arith) (lift-Grows (allowedip_fields W N t) h1 e1) (λ a h2 e2.
          and_then-Grows (omega arith) (parse_allowedips-Grows rest h2 refl)
            (λ more h3 e3. grown (omega arith)))))

  peer_allowedips-Grows :
      (v : Value) (h : Heap) → Grows h.allocated length (peer_allowedips W N v h)
  unfolding peer_allowedips
  peer_allowedips-Grows v h =
      optional-Grows v (grown (omega arith))
        (λ v. as_table-Grows v _ h (omega arith) (λ t. parse_allowedips-Grows (values t) h refl))

  parse_peer-Grows :
      (v : Value) (h : Heap)
      → Grows h.allocated (λ p. 1 + length (Peer.allowed_ips p)) (parse_peer W N v h)
  unfolding parse_peer
  parse_peer-Grows v h = as_table-Grows v _ h (omega arith) (λ t.
      malloc-Grows _ h.allocated h.available (omega arith) (λ h1 e1.
        and_then-Grows (omega arith) (lift-Grows (peer_fields W N t) h1 e1) (λ peer h2 e2.
          and_then-Grows (omega arith) (peer_allowedips-Grows (lua_getfield t "allowed_ips") h2)
            (λ allowed_ips h3 e3. grown (omega arith)))))

  parse_peers-Grows :
      (vs : List Value) (h : Heap) → Grows h.allocated peer_blocks (parse_peers W N vs h)
  unfolding parse_peers
  parse_peers-Grows [] h = grown (omega arith)
  parse_peers-Grows (v ∷ rest) h =
      and_then-Grows (omega arith) (parse_peer-Grows v h) (λ peer h1 e1.
        and_then-Grows (omega arith) (parse_peers-Grows rest h1)
          (λ more h2 e2. grown (omega arith)))

  add_peers-Grows :
      (v : Value) (dev : Device) (h : Heap)
      → Device.peers dev ≡ []
      → Grows h.allocated (λ d. peer_blocks (Device.peers d)) (add_peers W N v dev h)
  unfolding add_peers
  add_peers-Grows v dev h e = optional-Grows v (grown (rw (e) (omega arith))) (λ v.
      as_table-Grows v _ h (omega arith) (λ t.
        and_then-Grows (omega arith) (parse_peers-Grows (values t) h)
          (λ peers h1 e1. grown (omega arith))))

  device_fields-NoPeers : (t : Fields) → NoPeers (device_fields W N t)
  unfolding device_fields
  device_fields-NoPeers t = on_ok-NoPeers _ (λ device_name.
      on_ok-NoPeers _ (λ public_key. on_ok-NoPeers _ (λ private_key dev e. ground arith)))

  -- Once the device has its block, it stays until the device is freed.
  parse_device-Grows :
      (t : Fields) (left : ℕ)
      → Grows 1
          (λ d. peer_blocks (Device.peers d))
          (parse_device W N t (record { allocated = 0; available = suc left }))
  unfolding parse_device malloc
  parse_device-Grows t left =
      lift_then-Grows _ (device_fields W N t) (record { allocated = 1; available = left })
        (omega arith)
        (λ dev e.
          add_peers-Grows (lua_getfield t "peers") dev (record { allocated = 1; available = left })
            (device_fields-NoPeers t dev e))

  apply_device-frees :
      {p : Parsed Device} (dev : Device)
      → Grows 1 (λ d. peer_blocks (Device.peers d)) p
      → (apply_device W N p).applied ≡ some dev
      → (apply_device W N p).allocated ≡ 0
  unfolding apply_device
  apply_device-frees dev (grown e) a = omega arith
  apply_device-frees dev (kept l) a = ground arith

  apply_device-keeps :
      {p : Parsed Device}
      → Grows 1 (λ d. peer_blocks (Device.peers d)) p
      → (apply_device W N p).applied ≡ none
      → 1 ≤ (apply_device W N p).allocated
  unfolding apply_device
  apply_device-keeps (grown e) a = ground arith
  apply_device-keeps (kept l) a = l

  -- Whatever the table and however many allocations succeed: if the device is handed to the kernel,
  -- every block, of the device, its peers and their addresses, is free when the function returns.
  lua_wg_set_device-frees :
      (v : Value) (available : ℕ) (dev : Device)
      → (lua_wg_set_device W N v available).applied ≡ some dev
      → (lua_wg_set_device W N v available).allocated ≡ 0
  unfolding lua_wg_set_device parse_device malloc apply_device
  lua_wg_set_device-frees nil available dev a = refl
  lua_wg_set_device-frees (boolean b) available dev a = refl
  lua_wg_set_device-frees (number n) available dev a = refl
  lua_wg_set_device-frees (string s) available dev a = refl
  lua_wg_set_device-frees (table t) zero dev a = refl
  lua_wg_set_device-frees (table t) (suc left) dev a =
      apply_device-frees dev (parse_device-Grows t left) a

  -- Every other return for a table, once the device has its block, leaves at least that block
  -- allocated.
  lua_wg_set_device-leaks :
      (t : Fields) (left : ℕ)
      → (lua_wg_set_device W N (table t) (suc left)).applied ≡ none
      → 1 ≤ (lua_wg_set_device W N (table t) (suc left)).allocated
  unfolding lua_wg_set_device
  lua_wg_set_device-leaks t left a = apply_device-keeps (parse_device-Grows t left) a

  -- For a table, when there is room for the device: all blocks are free when the function returns
  -- exactly if the device has been handed to the kernel. Whatever error comes before leaves at least one
  -- block allocated.
  pub lua_wg_set_device-releases :
      (t : Fields) (left : ℕ)
      → ((lua_wg_set_device W N (table t) (suc left)).allocated ≡ 0)
        ↔ ((lua_wg_set_device W N (table t) (suc left)).applied ≢ none)
  lua_wg_set_device-releases t left = (
    λ e a. absurd (omega (arith, e, lua_wg_set_device-leaks t left a)),
    λ a. elim (either (lua_wg_set_device W N (table t) (suc left)).applied) [
      | inl nobody ↦ absurd (a nobody)
      | inr (dev, e) ↦ lua_wg_set_device-frees (table t) (suc left) dev e
    ],
  )
