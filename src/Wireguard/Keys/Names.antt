-- ===== src/Wireguard/Keys/Names.antt =====
-- lua_wg_list_devices of wireguard/lua_wireguard.c on the text of a list of names.
use lilush.Common.{
  ℕ, zero, suc, ◌+◌, ◌<◌, ◌≡◌, refl, ap, Bytes, List, [], ◌∷◌, ◌++◌, append_assoc, some, length,
  length-append, drop, c_string, NoNul, c_string-append, ok, arith,
}
use lilush.Wireguard.Device.{Wireguard}
use lilush.Wireguard.Keys.{for_each_device_name, lua_wg_list_devices}

-- `first\0second\0\0`
pub names_text : List Bytes → Bytes
names_text [] = 0 ∷ []
names_text (name ∷ names) = name ++ 0 ∷ names_text names

-- Names that are not empty and hold no NUL.
pub data AreNames : List Bytes → Type 0 where
  no_names : AreNames []
  one_name :
      {b : ℕ} {s : Bytes} {names : List Bytes}
      → NoNul (b ∷ s)
      → AreNames names
      → AreNames ((b ∷ s) ∷ names)

drop_past : (s rest : Bytes) → drop (suc (length s)) (s ++ 0 ∷ rest) ≡ rest
drop_past [] rest = refl
drop_past (b ∷ s) rest = drop_past s rest

drop_name : (s rest : Bytes) → drop (length s + 1) (s ++ 0 ∷ rest) ≡ rest
drop_name s rest = let e : length s + 1 ≡ suc (length s) = omega arith in rw e (drop_past s rest)

for_each-cons :
    (fuel : ℕ) (b : ℕ) (s text rest : Bytes) {names : List Bytes}
    → c_string text ≡ b ∷ s
    → drop (length (b ∷ s) + 1) text ≡ rest
    → for_each_device_name fuel rest ≡ names
    → for_each_device_name (suc fuel) text ≡ (b ∷ s) ∷ names
unfolding for_each_device_name
for_each-cons fuel b s text rest ec ed ef = rw (ec, ec, ed, ef, for_each_device_name) refl

for_each_names :
    {names : List Bytes} (fuel : ℕ) (rest : Bytes)
    → AreNames names
    → length names < fuel
    → for_each_device_name fuel (names_text names ++ rest) ≡ names
unfolding names_text
for_each_names zero rest names h = absurd (omega arith)
for_each_names (suc fuel) rest no_names h = unfold for_each_device_name in refl
for_each_names (suc fuel) rest (one_name {b} {s} {names} hs more) h =
    for_each-cons fuel b s _ (names_text names ++ rest)
      (rw (append_assoc) (c_string-append (b ∷ s) _ hs)) (rw (append_assoc) (drop_name (b ∷ s) _))
      (for_each_names fuel rest more (omega arith))

names-le-text : (names : List Bytes) → length names < length (names_text names)
unfolding names_text
names-le-text [] = omega arith
names-le-text (name ∷ names) =
    omega (arith, names-le-text names, length-append name (0 ∷ names_text names))

module _ (W : Wireguard) where
  -- Where the library hands out names that are not empty, each closed by a NUL and the last one by one
  -- NUL more, lua_wg_list_devices answers exactly these names in their order, whatever lies behind
  -- them: every round of its loop finds one name, and it stops behind the last.
  pub lua_wg_list_devices-names :
      (names : List Bytes) (rest : Bytes)
      → W.wg_list_device_names ≡ some (names_text names ++ rest)
      → AreNames names
      → lua_wg_list_devices W ≡ ok names
  unfolding lua_wg_list_devices
  lua_wg_list_devices-names names rest e h = rw e (
      ap ok (
        for_each_names (length (names_text names ++ rest)) rest h
          (omega (arith, names-le-text names, length-append (names_text names) rest))))
