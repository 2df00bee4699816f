-- ===== src/Socket/Sni.antt =====
-- find_sni_context and check_client_sni of luasocket's ssl.c: the context for the server name that a
-- client asks for in its ClientHello.
pub mod Choice
use lilush.Common.{
  ℕ, zero, suc, ◌+◌, ◌*◌, ◌&&◌, Bool, true, false, Bytes, List, [], ◌∷◌, Option, none, some, length,
  take, ltb, ◌==◌, if◌then◌else◌, c_string, Outcome, ok, custom_err, sys_err, fault,
}

-- `sni_list_entry`; a context is a number.
pub record SniEntry : Type 0 where
  pub servername : Bytes
  pub ctx : ℕ

-- wolfSSL_SNI_GetFromBuffer with a record in a buffer of its length: the host name, if it answers
-- WOLFSSL_SUCCESS.
pub record SniParser : Type 0 where
  pub sni_from_buffer : Bytes → Option Bytes

-- `strcmp(a, b) == 0`, on what stands in front of the NUL.
abbrev pub same : Bytes → Bytes → Bool
same [] [] = true
same [] (y ∷ ys) = false
same (x ∷ xs) [] = false
same (x ∷ xs) (y ∷ ys) = x == y && same xs ys

unfoldable pub find_sni_context : List SniEntry → Bytes → Option ℕ
find_sni_context [] name = none
find_sni_context (entry ∷ rest) name =
    let later = find_sni_context rest name in
    if same (c_string entry.servername) (c_string name) then some entry.ctx else later

-- `sizeof(sni_name)`
abbrev pub sni_size : ℕ
sni_size = 256

-- With a name of `sni_size` bytes the NUL is written behind the array.
abbrev pub found_name : List SniEntry → Bytes → Outcome (Option ℕ)
found_name entries name =
    if length name == 0
    then ok none
    else if ltb (length name) sni_size
    then ok (find_sni_context entries name)
    else fault

abbrev pub named_context : SniParser → List SniEntry → Bytes → Outcome (Option ℕ)
named_context P entries hello = elim (P.sni_from_buffer hello) [
  | none ↦ ok none
  | some name ↦ found_name entries name
]

-- The type of the message, behind the header of the record. The array has a byte there that nothing
-- has written when the record is empty and nothing follows.
abbrev pub message_type : SniParser → List SniEntry → Bytes → ℕ → Bytes → Outcome (Option ℕ)
message_type P entries record_bytes msg_len [] = fault
message_type P entries record_bytes msg_len (kind ∷ rest) =
    if kind == 0x01 then named_context P entries (take (msg_len + 5) record_bytes) else ok none

-- The five bytes of the header, and what follows.
abbrev pub check_record : SniParser → List SniEntry → Bytes → Outcome (Option ℕ)
check_record P entries (kind ∷ major ∷ minor ∷ high ∷ low ∷ body) =
    let msg_len = high * 256 + low in
    if kind == 0x16
    then if ltb (length body) msg_len
      then ok none
      else message_type P entries (kind ∷ major ∷ minor ∷ high ∷ low ∷ body) msg_len body
    else ok none
check_record P entries _ = ok none

unfoldable pub check_client_sni : SniParser → Option (List SniEntry) → Bytes → Outcome (Option ℕ)
unfolding find_sni_context
check_client_sni P none buffer = ok none
check_client_sni P (some []) buffer = ok none
check_client_sni P (some (entry ∷ rest)) buffer = check_record P (entry ∷ rest) buffer
