-- ===== src/Wireguard/Table.antt =====
-- The Lua values that the functions of wireguard/lua_wireguard.c read and build. A table is the list
-- of its fields, in the order in which `lua_next` visits them.
use lilush.Common.{
  ℕ, Bool, true, false, Bytes, List, [], ◌∷◌, Option, none, some, String, if◌then◌else◌,
}
use package.text.Mathlib.Text.{◌==◌}

pub data Key : Type 0 where
  index : ℕ → Key
  key : String → Key

-- A number is the 64-bit word that `lua_tointeger` gives for it.
mutual
  pub data Value : Type 0 where
    nil : Value
    boolean : Bool → Value
    number : ℕ → Value
    string : Bytes → Value
    table : Fields → Value

  pub data Fields : Type 0 where
    no_fields : Fields
    field : Key → Value → Fields → Fields

-- How numbers and texts stand for each other. `double` is an integer after it has been stored as a
-- `lua_Number`.
pub record Numbers : Type 0 where
  pub double : ℕ → ℕ
  pub number_text : ℕ → Bytes
  pub text_number : Bytes → ℕ

abbrev same_key : Key → String → Bool
same_key (index i) s = false
same_key (key k) s = k == s

-- `lua_getfield`
unfoldable pub lua_getfield : Fields → String → Value
lua_getfield no_fields s = nil
lua_getfield (field k v rest) s = if same_key k s then v else lua_getfield rest s

-- The values in the order of `lua_next`.
abbrev pub values : Fields → List Value
values no_fields = []
values (field k v rest) = v ∷ values rest

abbrev pub lua_isnil : Value → Bool
lua_isnil nil = true
lua_isnil _ = false

-- The fields, if the value is a table.
abbrev pub lua_istable : Value → Option Fields
lua_istable (table fields) = some fields
lua_istable _ = none

-- `none` stands for NULL.
abbrev pub lua_tostring : Numbers → Value → Option Bytes
lua_tostring N (string s) = some s
lua_tostring N (number n) = some (N.number_text n)
lua_tostring N _ = none

abbrev pub lua_tointeger : Numbers → Value → ℕ
lua_tointeger N (number n) = n
lua_tointeger N (string s) = N.text_number s
lua_tointeger N _ = 0

abbrev pub lua_toboolean : Value → Bool
lua_toboolean nil = false
lua_toboolean (boolean b) = b
lua_toboolean _ = true
