-- ===== src/Crypto/Csr/Names.antt =====
-- The alternative names of a certificate request as DER, against a reader of the short form of DER
-- lengths (X.690, 8.1.3.4): one byte below 128.
use lilush.Common.{
  ℕ, zero, suc, ◌+◌, ◌%◌, ◌≤◌, ◌<◌, ◌≡◌, refl, ◌&&◌, Bytes, List, [], ◌∷◌, ◌++◌, append_assoc,
  append-nil, Option, none, some, length, length-append, take, drop, take-append, drop-append, ltb,
  leb, ◌==◌, if◌then◌else◌, arith,
}
use lilush.Crypto.Csr.{add_names, encode_alt_names}

-- The bytes that the names take: a tag and a length byte each, and the names themselves.
unfoldable pub total : List Bytes → ℕ
total [] = 0
total (n ∷ ns) = length n + 2 + total ns

-- The encoded names.
entries : List Bytes → Bytes
entries [] = []
entries (n ∷ ns) = (0x82 ∷ (length n % 256) ∷ n) ++ entries ns

cons_name : Bytes → Option (List Bytes) → Option (List Bytes)
cons_name n none = none
cons_name n (some ns) = some (n ∷ ns)

-- DNSName entries up to the end of the input. `fuel` bounds their number.
read_names : ℕ → Bytes → Option (List Bytes)
read_names zero bytes = none
read_names (suc fuel) [] = some []
read_names (suc fuel) (tag ∷ []) = none
read_names (suc fuel) (tag ∷ l ∷ rest) =
    let more = read_names fuel (drop l rest) in
    if (tag == 0x82) && (ltb l 128 && leb l (length rest))
    then cons_name (take l rest) more
    else none

-- A SEQUENCE in the short form that is the whole input, of DNSName entries.
unfoldable pub read_alt_names : Bytes → Option (List Bytes)
unfolding read_names cons_name
read_alt_names [] = none
read_alt_names (tag ∷ []) = none
read_alt_names (tag ∷ l ∷ rest) =
    if (tag == 0x30) && (ltb l 128 && (l == length rest))
    then read_names (suc (length rest)) rest
    else none

length-entries : (ns : List Bytes) → length (entries ns) ≡ total ns
unfolding entries total
length-entries [] = refl
length-entries (n ∷ ns) = omega (arith, length-append n (entries ns), length-entries ns)

-- The loop stops exactly when the names do not fit in 1022 bytes.
add_names-entries :
    (ns : List Bytes) (buf : Bytes)
    → length buf ≤ 1022
    → add_names ns buf
      ≡ (if ltb 1022 (length buf + total ns) then none else some (buf ++ entries ns))
unfolding add_names entries total
add_names-entries [] buf h = ground (arith, append-nil buf)
add_names-entries (n ∷ ns) buf h = ground (
  arith,
  length-append buf (0x82 ∷ (length n % 256) ∷ n),
  append_assoc buf (0x82 ∷ (length n % 256) ∷ n) (entries ns),
  add_names-entries ns (buf ++ (0x82 ∷ (length n % 256) ∷ n)),
)

-- With at most 1020 bytes of names the request has the SEQUENCE tag, the low byte of their size, and
-- the entries; the buffer of 1024 bytes is not left.
encode_alt_names_lem :
    (ns : List Bytes)
    → encode_alt_names ns
      ≡ (if ltb 1020 (total ns) then none else some (0x30 ∷ (total ns % 256) ∷ entries ns))
unfolding encode_alt_names
encode_alt_names_lem ns = ground (arith, add_names-entries ns (0x30 ∷ 0x00 ∷ []), length-entries ns)

read_names-entries :
    (fuel : ℕ) (ns : List Bytes)
    → length (entries ns) < fuel
    → total ns < 128
    → read_names fuel (entries ns) ≡ some ns
unfolding read_names entries total cons_name
read_names-entries zero ns h k = absurd (omega arith)
read_names-entries (suc fuel) [] h k = refl
read_names-entries (suc fuel) (n ∷ ns) h k =
    let e : length n % 256 ≡ length n = omega arith in
    rw e (
      rw (take-append n (entries ns), drop-append n (entries ns))
        (ground (arith, length-append n (entries ns), read_names-entries fuel ns)))

-- Names that take at most 1020 bytes are encoded. The result is at most 1022 bytes long, so the
-- buffer of 1024 bytes is never left; and a reader of short DER lengths reads the same names back
-- if they take fewer than 128 bytes, and nothing otherwise.
pub read_alt_names-encode :
    (ns : List Bytes)
    → total ns ≤ 1020
    → (der : Bytes) × (encode_alt_names ns ≡ some der)
      × (length der ≤ 1022)
      × (read_alt_names der ≡ (if ltb (total ns) 128 then some ns else none))
unfolding read_alt_names
read_alt_names-encode ns h = (
  0x30 ∷ (total ns % 256) ∷ entries ns,
  ground (arith, encode_alt_names_lem ns),
  omega (arith, length-entries ns),
  ground (arith, length-entries ns, read_names-entries (suc (length (entries ns))) ns),
)

-- Names that take more than 1020 bytes are refused.
pub encode_alt_names-too_long : (ns : List Bytes) → 1020 < total ns → encode_alt_names ns ≡ none
encode_alt_names-too_long ns h = ground (arith, encode_alt_names_lem ns)
