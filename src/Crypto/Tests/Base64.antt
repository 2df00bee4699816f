-- ===== src/Crypto/Tests/Base64.antt =====
-- Base64 of crypto/crypto.c over a concrete library.
use lilush.Common.{
  ℕ, zero, suc, ◌-◌, ◌≤◌, ◌<◌, ◌≡◌, refl, ap, true, false, Bytes, [], ◌∷◌, ◌++◌, map, length,
  length-append, length-replicate, replicate, c_string, leb, if◌then◌else◌, pos, negsuc, ok,
  custom_err, arith,
}
use lilush.Crypto.Ledger.{clean}
use lilush.Crypto.Wolfcrypt.{Wolfcrypt}
use lilush.Crypto.Digest.{lua_base64_decode, lua_base64_encode}
use lilush.Crypto.Digest.Base64.{
  encoded_size, IsBase64, lua_base64_decode-encode, lua_base64_encode-refuses,
}
use lilush.Crypto.Tests.{toy}

-- Each byte plus two, and marks up to the size of the text.
abbrev text_of : Bytes → Bytes
text_of s = map (λ b. suc (suc b)) s ++ replicate (encoded_size (length s) - length s) 1

abbrev read_back : Bytes → Bytes
read_back [] = []
read_back (zero ∷ t) = []
read_back (suc zero ∷ t) = []
read_back (suc (suc b) ∷ t) = b ∷ read_back t

abbrev library : Wolfcrypt
library = record toy {
  base64_encode =
      λ s room. if leb (length (text_of s)) room then (pos 0, text_of s) else (negsuc 172, []);
  base64_decode = λ t room. (pos 0, read_back t);
}

size-ge : (n : ℕ) → n ≤ encoded_size n
unfolding encoded_size
size-ge n = omega arith

length-shift : (s : Bytes) → length (map (λ b. suc (suc b)) s) ≡ length s
length-shift [] = refl
length-shift (b ∷ s) = ap suc (length-shift s)

length-text_of : (s : Bytes) → length (text_of s) ≡ encoded_size (length s)
length-text_of s = omega (
  arith,
  length-append (map (λ b. suc (suc b)) s) (replicate (encoded_size (length s) - length s) 1),
  length-shift s,
  length-replicate {A = ℕ} (encoded_size (length s) - length s) 1,
  size-ge (length s),
)

c_string-marks : (n : ℕ) → c_string (replicate n 1) ≡ replicate n 1
c_string-marks zero = refl
c_string-marks (suc n) = ap (λ t. 1 ∷ t) (c_string-marks n)

c_string-shift :
    (s : Bytes) (n : ℕ)
    → c_string (map (λ b. suc (suc b)) s ++ replicate n 1)
      ≡ map (λ b. suc (suc b)) s ++ replicate n 1
c_string-shift [] n = c_string-marks n
c_string-shift (b ∷ s) n = ground (arith, c_string-shift s n)

read_back-marks : (n : ℕ) → read_back (replicate n 1) ≡ []
read_back-marks zero = refl
read_back-marks (suc n) = refl

read_back-shift : (s : Bytes) (n : ℕ) → read_back (map (λ b. suc (suc b)) s ++ replicate n 1) ≡ s
read_back-shift [] n = read_back-marks n
read_back-shift (b ∷ s) n = ap (λ t. b ∷ t) (read_back-shift s n)

le→leb : (m n : ℕ) → m ≤ n → leb m n ≡ true
le→leb m n h = ground arith

lt→leb : (m n : ℕ) → n < m → leb m n ≡ false
lt→leb m n h = ground arith

library-IsBase64 : IsBase64 library text_of
library-IsBase64 = record {
  size = length-text_of;
  no_nul = λ s. c_string-shift s (encoded_size (length s) - length s);
  fits = λ s room h. rw (le→leb (length (text_of s)) room h) refl;
  refuses = λ s room h. rw (lt→leb (length (text_of s)) room h) refl;
  reads = λ s room h. ap (λ t. (pos 0, t)) (read_back-shift s (encoded_size (length s) - length s));
}

lua_base64_decode-encode_example :
    (t : Bytes) × (lua_base64_encode library (λ n. true) (7 ∷ 0 ∷ []) clean ≡ (ok t, clean))
    × (lua_base64_decode library (λ n. true) t clean ≡ (ok (7 ∷ 0 ∷ []), clean))
lua_base64_decode-encode_example =
    lua_base64_decode-encode library (λ n. true) (λ n. refl) text_of library-IsBase64 (7 ∷ 0 ∷ [])
      (omega arith)

lua_base64_encode-refuses_example :
    lua_base64_encode library (λ n. true) (replicate 6145 9) clean
    ≡ (custom_err "failed to encode base64", clean)
lua_base64_encode-refuses_example =
    lua_base64_encode-refuses library (λ n. true) (λ n. refl) text_of library-IsBase64
      (replicate 6145 9) (omega (arith, length-replicate {A = ℕ} 6145 9))
      (omega (arith, length-replicate {A = ℕ} 6145 9))
