-- ===== src/Wireguard/Set/Lookup.antt =====
-- The table of a device that lua_wg_get_device of wireguard/lua_wireguard.c builds, as
-- lua_wg_set_device looks its fields up.
use lilush.Common.{ℕ, ◌≡◌, refl, ◌∙◌, Bool, true, false, Bytes, String}
use package.text.Mathlib.Text.{◌==◌ as ◌==ˢ◌}
use lilush.Wireguard.Table.{Value, nil, table, Fields, no_fields, key, field, Numbers, lua_getfield}
use lilush.Wireguard.Device.{Device, Wireguard}
use lilush.Wireguard.Push.{lua_pushinteger, lua_pushstring, key_field, number_field, push_peers}

-- A value that is there if a flag is set.
abbrev pub value_if : Bool → Value → Value
value_if true v = v
value_if false v = nil

module _ (W : Wireguard) (N : Numbers) where
  -- A field behind one of another name.
  pub skip_key :
      (b : Bool) (s s' : String) (k : Bytes) (rest : Fields)
      → (s ==ˢ s') ≡ false
      → lua_getfield (key_field W N b s k rest) s' ≡ lua_getfield rest s'
  unfolding lua_getfield
  skip_key true s s' k rest h = rw h refl
  skip_key false s s' k rest h = refl

  pub skip_number :
      (b : Bool) (s s' : String) (n : ℕ) (rest : Fields)
      → (s ==ˢ s') ≡ false
      → lua_getfield (number_field W N b s n rest) s' ≡ lua_getfield rest s'
  unfolding lua_getfield
  skip_number true s s' n rest h = rw h refl
  skip_number false s s' n rest h = refl

  -- The fields of a device, with the flags of its keys, port and mark.
  abbrev pub device_table : Bool → Bool → Bool → Bool → Device → Fields
  device_table b4 b2 b8 b16 dev = field (key "name") (lua_pushstring W N dev.name) (
      field (key "flags") (lua_pushinteger W N dev.flags) (
        key_field W N b4 "public_key" dev.public_key (
          key_field W N b2 "private_key" dev.private_key (
            number_field W N b8 "listen_port" dev.listen_port (
              number_field W N b16 "fwmark" dev.fwmark
                (field (key "peers") (table (push_peers W N 1 dev.peers)) no_fields))))))

  abbrev pub key_value : Bool → Bytes → Value
  key_value b k = value_if b (lua_pushstring W N (W.wg_key_to_base64 k))

  abbrev pub number_value : Bool → ℕ → Value
  number_value b n = value_if b (lua_pushinteger W N n)

  module _ (b2 b8 b16 : Bool) (dev : Device) where
    pub get_public :
        (b4 : Bool)
        → lua_getfield (device_table b4 b2 b8 b16 dev) "public_key" ≡ key_value b4 dev.public_key
    unfolding lua_getfield
    get_public true = refl
    get_public false =
        skip_key b2 _ _ _ _ refl ∙ skip_number b8 _ _ _ _ refl ∙ skip_number b16 _ _ _ _ refl

  module _ (b4 : Bool) (dev : Device) where
    pub get_private :
        (b2 b8 b16 : Bool)
        → lua_getfield (device_table b4 b2 b8 b16 dev) "private_key" ≡ key_value b2 dev.private_key
    unfolding lua_getfield
    get_private true b8 b16 = skip_key b4 _ _ _ _ refl
    get_private false b8 b16 =
        skip_key b4 _ _ _ _ refl ∙ skip_number b8 _ _ _ _ refl ∙ skip_number b16 _ _ _ _ refl

    pub get_port :
        (b2 b8 b16 : Bool)
        → lua_getfield (device_table b4 b2 b8 b16 dev) "listen_port"
          ≡ number_value b8 dev.listen_port
    unfolding lua_getfield
    get_port b2 true b16 = skip_key b4 _ _ _ _ refl ∙ skip_key b2 _ _ _ _ refl
    get_port b2 false b16 =
        skip_key b4 _ _ _ _ refl ∙ skip_key b2 _ _ _ _ refl ∙ skip_number b16 _ _ _ _ refl

    pub get_mark :
        (b2 b8 b16 : Bool)
        → lua_getfield (device_table b4 b2 b8 b16 dev) "fwmark" ≡ number_value b16 dev.fwmark
    unfolding lua_getfield
    get_mark b2 b8 true =
        skip_key b4 _ _ _ _ refl ∙ skip_key b2 _ _ _ _ refl ∙ skip_number b8 _ _ _ _ refl
    get_mark b2 b8 false =
        skip_key b4 _ _ _ _ refl ∙ skip_key b2 _ _ _ _ refl ∙ skip_number b8 _ _ _ _ refl

    pub get_peers :
        (b2 b8 b16 : Bool)
        → lua_getfield (device_table b4 b2 b8 b16 dev) "peers" ≡ table (push_peers W N 1 dev.peers)
    unfolding lua_getfield
    get_peers b2 b8 b16 =
        skip_key b4 _ _ _ _ refl
        ∙ skip_key b2 _ _ _ _ refl
        ∙ skip_number b8 _ _ _ _ refl
        ∙ skip_number b16 _ _ _ _ refl
