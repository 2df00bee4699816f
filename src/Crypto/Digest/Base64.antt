-- ===== src/Crypto/Digest/Base64.antt =====
-- Base64 of crypto/crypto.c: the sizes of its buffers, and the way back.
use lilush.Common.{
  ℕ, ◌+◌, ◌*◌, ◌/◌, ◌^◌, ◌≤◌, ◌<◌, ◌≡◌, refl, ap, ◌∙◌, Bool, true, Bytes, length, c_string,
  is_nonzero, word32, pos, ok, custom_err, arith,
}
use lilush.Crypto.Ledger.{clean}
use lilush.Crypto.Wolfcrypt.{Wolfcrypt}
use lilush.Crypto.Digest.{lua_base64_decode, lua_base64_encode}

-- Four characters for three bytes begun, and a newline for each 64 characters begun.
unfoldable pub encoded_size : ℕ → ℕ
encoded_size n = let chars = (n + 2) / 3 * 4 in chars + (chars + 63) / 64

-- What the documentation says of the library's Base64: the size of the text, which has no NUL; that it
-- is written if it fits, and refused if not; and that it is read back where three bytes for four
-- characters have room.
pub record IsBase64 (w : Wolfcrypt) (encoding : Bytes → Bytes) : Type 0 where
  pub size : (s : Bytes) → length (encoding s) ≡ encoded_size (length s)
  pub no_nul : (s : Bytes) → c_string (encoding s) ≡ encoding s
  pub fits :
      (s : Bytes) (room : ℕ)
      → length (encoding s) ≤ room
      → w.base64_encode s room ≡ (pos 0, encoding s)
  pub refuses :
      (s : Bytes) (room : ℕ)
      → room < length (encoding s)
      → is_nonzero (w.base64_encode s room).0 ≡ true
  pub reads :
      (s : Bytes) (room : ℕ)
      → length (encoding s) * 3 / 4 ≤ room
      → w.base64_decode (encoding s) room ≡ (pos 0, s)

fits_small : (n : ℕ) → n ≤ 5952 → encoded_size n ≤ word32 (n / 3 * 4 + 128)
unfolding encoded_size
fits_small n h = omega arith

short_large : (n : ℕ) → 6144 < n → n ≤ 2 ^ 31 → word32 (n / 3 * 4 + 128) < encoded_size n
unfolding encoded_size
short_large n h l = omega arith

small_size : (n : ℕ) → n ≤ 5952 → encoded_size n ≤ 8192
unfolding encoded_size
small_size n h = omega arith

decode_room : (m : ℕ) → m ≤ 8192 → m * 3 / 4 ≤ word32 (m * 3 / 4)
decode_room m h = omega arith

module _ (w : Wolfcrypt) (malloc : ℕ → Bool) (granted : (n : ℕ) → malloc n ≡ true)
    (encoding : Bytes → Bytes) (B : IsBase64 w encoding) where
  encode_runs :
      (s : Bytes)
      → w.base64_encode s (word32 (length s / 3 * 4 + 128)) ≡ (pos 0, encoding s)
      → lua_base64_encode w malloc s clean ≡ (ok (c_string (encoding s)), clean)
  unfolding lua_base64_encode
  encode_runs s e = rw (granted (word32 (word32 (length s / 3 * 4 + 128) + 1)), e) refl

  decode_runs :
      (t s : Bytes)
      → w.base64_decode t (word32 (length t * 3 / 4)) ≡ (pos 0, s)
      → lua_base64_decode w malloc t clean ≡ (ok s, clean)
  unfolding lua_base64_decode
  decode_runs t s e = rw (granted (word32 (length t * 3 / 4)), e) refl

  encode_fails :
      (s : Bytes)
      → is_nonzero (w.base64_encode s (word32 (length s / 3 * 4 + 128))).0 ≡ true
      → lua_base64_encode w malloc s clean ≡ (custom_err "failed to encode base64", clean)
  unfolding lua_base64_encode
  encode_fails s e = rw (granted (word32 (word32 (length s / 3 * 4 + 128) + 1)), e) refl

  -- Where memory is granted: what lua_base64_encode makes of at most 5952 bytes is the library's text of
  -- them, since its buffer is large enough; lua_base64_decode makes the same bytes of it again; and both
  -- have freed their buffers.
  pub lua_base64_decode-encode :
      (s : Bytes)
      → length s ≤ 5952
      → (t : Bytes) × (lua_base64_encode w malloc s clean ≡ (ok t, clean))
        × (lua_base64_decode w malloc t clean ≡ (ok s, clean))
  lua_base64_decode-encode s h = (
    encoding s,
    encode_runs s (
          B.fits s (word32 (length s / 3 * 4 + 128))
            (omega (arith, B.size s, fits_small (length s) h)))
        ∙ ap (λ t. (ok t, clean)) (B.no_nul s),
    decode_runs (encoding s) s (
        B.reads s (word32 (length (encoding s) * 3 / 4))
          (decode_room (length (encoding s)) (omega (arith, B.size s, small_size (length s) h)))),
  )

  -- More than 6144 bytes, up to 2^31, lua_base64_encode refuses where memory is granted: its buffer has no room for
  -- the newlines of the text. It frees the buffer.
  pub lua_base64_encode-refuses :
      (s : Bytes)
      → 6144 < length s
      → length s ≤ 2 ^ 31
      → lua_base64_encode w malloc s clean ≡ (custom_err "failed to encode base64", clean)
  lua_base64_encode-refuses s h l = encode_fails s (
      B.refuses s (word32 (length s / 3 * 4 + 128))
        (omega (arith, B.size s, short_large (length s) h l)))
