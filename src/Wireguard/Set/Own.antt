-- ===== src/Wireguard/Set/Own.antt =====
-- A device that lua_wg_get_device of wireguard/lua_wireguard.c has answered, as lua_wg_set_device reads
-- it from its table, but its peers.
use lilush.Common.{
  ℕ, zero, suc, ◌%◌, ◌^◌, ◌≤◌, ◌<◌, ◌≡◌, refl, ap, sym, ◌∙◌, Bool, true, false, not, Bytes, String,
  [], ◌∷◌, Option, none, some, length, take, c_string, if◌then◌else◌, word32, ok, arith,
}
use lilush.Wireguard.Table.{
  Value, number, string, Fields, Numbers, lua_getfield, lua_isnil, lua_tointeger,
}
use lilush.Wireguard.Device.{Device, Wireguard, has_flag, with_flag}
use lilush.Wireguard.Parse.{on_ok, optional, key_or_zero, is_some, parse_key}
use lilush.Wireguard.Set.{flag_if, device_fields}
use lilush.Wireguard.Set.Reported.{IsLawful, IsKey, word16_exact, parse_key-push}
use lilush.Wireguard.Set.Peers.{AreReportedPeers}
use lilush.Wireguard.Set.Lookup.{
  value_if, device_table, key_value, number_value, get_public, get_private, get_port, get_mark,
}

-- A device as the kernel reports it, its peers' endpoints known.
pub record IsReportedDevice (dev : Device) : Type 0 where
  pub text : c_string dev.name ≡ dev.name
  pub short : length dev.name ≤ 15
  pub flags : dev.flags < 2 ^ 32
  pub public : IsKey (has_flag dev.flags 4) dev.public_key
  pub private : IsKey (has_flag dev.flags 2) dev.private_key
  pub port : dev.listen_port < 2 ^ 16
  pub mark : dev.fwmark < 2 ^ 32
  pub peers : AreReportedPeers dev.peers

take_all : (n : ℕ) (s : Bytes) → length s ≤ n → take n s ≡ s
take_all zero [] h = refl
take_all zero (b ∷ s) h = absurd (omega arith)
take_all (suc n) [] h = refl
take_all (suc n) (b ∷ s) h = ap (λ t. b ∷ t) (take_all n s (omega arith))

-- A flag that is there already.
flag_if_known : (b : Bool) (bit flags : ℕ) → has_flag flags bit ≡ b → flag_if b bit flags ≡ flags
unfolding with_flag
flag_if_known false bit flags h = refl
flag_if_known true bit flags h = rw h refl

-- The key that is read, if its flag is set.
abbrev key_if : Bool → Bytes → Option Bytes
key_if true k = some k
key_if false k = none

is_some-key_if : (b : Bool) (k : Bytes) → is_some (key_if b k) ≡ b
is_some-key_if true k = refl
is_some-key_if false k = refl

key_or_zero-key_if : (b : Bool) (k : Bytes) → IsKey b k → key_or_zero (key_if b k) ≡ k
key_or_zero-key_if true k h = refl
key_or_zero-key_if false k h = sym h

not-value_if : (b : Bool) (n : ℕ) → not (lua_isnil (value_if b (number n))) ≡ b
not-value_if true n = refl
not-value_if false n = refl

same_device :
    {name name' public public' private private' : Bytes} {flags flags' mark mark' port port' : ℕ}
    → name ≡ name'
    → flags ≡ flags'
    → public ≡ public'
    → private ≡ private'
    → mark ≡ mark'
    → port ≡ port'
    → ◌≡◌ {A = Device}
        (record {
          name = name;
          ifindex = 0;
          flags = flags;
          public_key = public;
          private_key = private;
          fwmark = mark;
          listen_port = port;
          peers = [];
        })
        (record {
          name = name';
          ifindex = 0;
          flags = flags';
          public_key = public';
          private_key = private';
          fwmark = mark';
          listen_port = port';
          peers = [];
        })
same_device e1 e2 e3 e4 e5 e6 = rw (e1, e2, e3, e4, e5, e6) refl

-- Setting the flags that are set already.
same_flags :
    {c4 c2 c8 c16 : Bool} {n : ℕ} (b4 b2 b8 b16 : Bool) (flags : ℕ)
    → n ≡ flags
    → c4 ≡ b4
    → c2 ≡ b2
    → c8 ≡ b8
    → c16 ≡ b16
    → has_flag flags 4 ≡ b4
    → has_flag flags 2 ≡ b2
    → has_flag flags 8 ≡ b8
    → has_flag flags 16 ≡ b16
    → flag_if c16 16 (flag_if c8 8 (flag_if c2 2 (flag_if c4 4 n))) ≡ flags
same_flags b4 b2 b8 b16 flags en e4 e2 e8 e16 h4 h2 h8 h16 =
    rw
      (
        en,
        e4,
        e2,
        e8,
        e16,
        flag_if_known b4 4 flags h4,
        flag_if_known b2 2 flags h2,
        flag_if_known b8 8 flags h8,
      )
      (flag_if_known b16 16 flags h16)

module _ (W : Wireguard) (N : Numbers) (L : IsLawful W N) where
  word32_exact : (n : ℕ) → n < 2 ^ 32 → word32 (N.double n) ≡ n
  word32_exact n l = rw (L.double_exact n (omega arith)) (omega arith)

  read_key :
      (b : Bool) (k : Bytes) (message : String)
      → IsKey b k
      → parse_key W N (key_value W N b k) message ≡ ok (key_if b k)
  read_key true k message h = parse_key-push W N L k message h
  read_key false k message h = unfold parse_key optional in refl

  read_port :
      (b : Bool) (n : ℕ)
      → n < 2 ^ 16
      → optional (number_value W N b n) 0 (λ v. lua_tointeger N v % 2 ^ 16) ≡ (if b then n else 0)
  unfolding optional
  read_port true n h = word16_exact W N L n h
  read_port false n h = refl

  read_mark :
      (b : Bool) (n : ℕ)
      → n < 2 ^ 32
      → optional (number_value W N b n) 0 (λ v. word32 (lua_tointeger N v)) ≡ (if b then n else 0)
  unfolding optional
  read_mark true n h = word32_exact n h
  read_mark false n h = refl

  -- The device but its peers, from what its fields hold.
  device_fields-reads :
      (t : Fields) {name : Bytes} {pv sv lv fv : Value} (fl : ℕ) (b4 b2 : Bool) (pk sk : Bytes)
      → lua_getfield t "name" ≡ string name
      → lua_getfield t "flags" ≡ number fl
      → lua_getfield t "public_key" ≡ pv
      → lua_getfield t "private_key" ≡ sv
      → lua_getfield t "listen_port" ≡ lv
      → lua_getfield t "fwmark" ≡ fv
      → parse_key W N pv "Invalid public key1" ≡ ok (key_if b4 pk)
      → parse_key W N sv "Invalid private key" ≡ ok (key_if b2 sk)
      → device_fields W N t
        ≡ ok (record {
          name = take 15 (c_string name);
          ifindex = 0;
          flags = flag_if (not (lua_isnil fv)) 16 (
              flag_if (not (lua_isnil lv)) 8 (
                flag_if
                  (is_some (key_if b2 sk))
                  2
                  (flag_if (is_some (key_if b4 pk)) 4 (word32 fl))));
          public_key = key_or_zero (key_if b4 pk);
          private_key = key_or_zero (key_if b2 sk);
          fwmark = optional fv 0 (λ v. word32 (lua_tointeger N v));
          listen_port = optional lv 0 (λ v. lua_tointeger N v % 2 ^ 16);
          peers = [];
        })
  unfolding device_fields on_ok optional
  device_fields-reads t fl b4 b2 pk sk en ef ep es el em kp ks =
      rw (en, ef, ep, es, el, em, kp, ks) refl

  name_kept :
      (name : Bytes)
      → c_string name ≡ name
      → length name ≤ 15
      → take 15 (c_string (c_string name)) ≡ name
  name_kept name e h = ap (λ s. take 15 (c_string s)) e ∙ ap (take 15) e ∙ take_all 15 name h

  -- The fields of the device itself are read back.
  pub device_fields-push :
      (b4 b2 b8 b16 : Bool) (dev : Device)
      → has_flag dev.flags 4 ≡ b4
      → has_flag dev.flags 2 ≡ b2
      → has_flag dev.flags 8 ≡ b8
      → has_flag dev.flags 16 ≡ b16
      → IsKey b4 dev.public_key
      → IsKey b2 dev.private_key
      → IsReportedDevice dev
      → device_fields W N (device_table W N b4 b2 b8 b16 dev)
        ≡ ok (record dev {
          ifindex = 0;
          fwmark = if b16 then dev.fwmark else 0;
          listen_port = if b8 then dev.listen_port else 0;
          peers = [];
        })
  unfolding lua_getfield
  device_fields-push b4 b2 b8 b16 dev h4 h2 h8 h16 hp hs h =
      device_fields-reads _ _ b4 b2 dev.public_key dev.private_key refl refl
        (get_public W N b2 b8 b16 dev b4) (get_private W N b4 dev b2 b8 b16)
        (get_port W N b4 dev b2 b8 b16) (get_mark W N b4 dev b2 b8 b16)
        (read_key b4 dev.public_key _ hp) (read_key b2 dev.private_key _ hs)
      ∙ ap ok (
          same_device (name_kept dev.name h.text h.short)
            (same_flags b4 b2 b8 b16 dev.flags (word32_exact dev.flags h.flags)
              (is_some-key_if b4 _) (is_some-key_if b2 _) (not-value_if b8 _) (not-value_if b16 _)
              h4 h2 h8 h16)
            (key_or_zero-key_if b4 _ hp) (key_or_zero-key_if b2 _ hs)
            (read_mark b16 dev.fwmark h.mark) (read_port b8 dev.listen_port h.port))
