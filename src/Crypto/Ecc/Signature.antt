-- ===== src/Crypto/Ecc/Signature.antt =====
-- The 64 bytes of a P-256 signature: what lua_ecc_sign writes and lua_ecc_verify reads.
use lilush.Common.{
  ℕ, ◌+◌, ◌-◌, ◌≤◌, ◌≡◌, refl, sym, ◌∙◌, ap, true, false, Bytes, [], ◌∷◌, ◌++◌, append-nil,
  append_assoc, some, arith, length, replicate, length-replicate, length-append, replicate-add,
  slice, slice-append, write_at-append, ltb-eq-false, is_nonzero, if◌then◌else◌, ok, custom_err,
  fault,
}
use lilush.Crypto.Ledger.{Ledger, clean}
use lilush.Crypto.Wolfcrypt.{Wolfcrypt, IsLawful}
use lilush.Crypto.Ecc.{place, raw_signature, sign_hash}

module _ (w : Wolfcrypt) where
  open w use {Rng, Key}

  -- An integer in 32 bytes, big-endian, with leading zeros.
  abbrev pub padded : ℕ → Bytes
  padded n = replicate (32 - w.mp_unsigned_bin_size n) 0 ++ w.mp_to_unsigned_bin n

  -- The integers of the signature of `hash`.
  abbrev pub signed : Bytes → Rng → Key → Bytes
  signed hash rng key = let (ret, r, s) = w.ecc_sign_hash_ex hash rng key in padded r ++ padded s

module _ (w : Wolfcrypt) (L : IsLawful w) where
  length-padded : (n : ℕ) → w.mp_unsigned_bin_size n ≤ 32 → length (padded w n) ≡ 32
  length-padded n h = omega (
    arith,
    length-append (replicate (32 - w.mp_unsigned_bin_size n) 0) (w.mp_to_unsigned_bin n),
    length-replicate {A = ℕ} (32 - w.mp_unsigned_bin_size n) 0,
    L.length-to_bin n,
  )

  -- A write that ends at `stop`, over zeros.
  place-zeros :
      (stop n k : ℕ) (p rest : Bytes)
      → stop ≡ length p + k + w.mp_unsigned_bin_size n
      → place w stop n (p ++ (replicate k 0 ++ (replicate (w.mp_unsigned_bin_size n) 0 ++ rest)))
        ≡ some ((p ++ replicate k 0) ++ (w.mp_to_unsigned_bin n ++ rest))
  unfolding place
  place-zeros stop n k p rest e =
      rw
        (
          ltb-eq-false stop (w.mp_unsigned_bin_size n) (omega arith),
          ← append_assoc p (replicate k 0) (replicate (w.mp_unsigned_bin_size n) 0 ++ rest),
        )
        (write_at-append (p ++ replicate k 0) (replicate (w.mp_unsigned_bin_size n) 0) rest
          (w.mp_to_unsigned_bin n)
          (omega (arith, length-append p (replicate k 0), length-replicate {A = ℕ} k 0))
          (length-replicate _ _ ∙ sym (L.length-to_bin n)))

  zeros-split :
      (a m k : ℕ)
      → a ≤ m
      → replicate {A = ℕ} (m + k) 0 ≡ replicate (m - a) 0 ++ (replicate a 0 ++ replicate k 0)
  zeros-split a m k h =
      ap (λ (j : ℕ). replicate {A = ℕ} j 0) {x = m + k} {y = (m - a) + (a + k)} (omega arith)
      ∙ (replicate-add (m - a) (a + k) 0
          ∙ ap (λ zs. replicate (m - a) 0 ++ zs) (replicate-add a k 0))

  place-r :
      (r : ℕ)
      → w.mp_unsigned_bin_size r ≤ 32
      → place w 32 r (replicate 64 0) ≡ some (padded w r ++ replicate 32 0)
  place-r r h =
      ap (place w 32 r) (zeros-split (w.mp_unsigned_bin_size r) 32 32 h)
      ∙ (place-zeros 32 r (32 - w.mp_unsigned_bin_size r) [] (replicate 32 0) (omega arith)
          ∙ ap some (sym (append_assoc _ _ (replicate 32 0))))

  place-s :
      (s : ℕ) (p : Bytes)
      → w.mp_unsigned_bin_size s ≤ 32
      → length p ≡ 32
      → place w 64 s (p ++ replicate 32 0) ≡ some (p ++ padded w s)
  place-s s p h e =
      ap (λ zs. place w 64 s (p ++ zs)) (zeros-split (w.mp_unsigned_bin_size s) 32 0 h)
      ∙ (place-zeros 64 s (32 - w.mp_unsigned_bin_size s) p [] (omega arith)
          ∙ ap some (simp (append-nil, append_assoc)))

  raw_signature-padded :
      (r s : ℕ)
      → w.mp_unsigned_bin_size r ≤ 32
      → w.mp_unsigned_bin_size s ≤ 32
      → raw_signature w r s ≡ some (padded w r ++ padded w s)
  unfolding raw_signature
  raw_signature-padded r s hr hs =
      rw (place-r r hr, raw_signature) (place-s s _ hs (length-padded r hr))

  -- Where the integers can be set up and fit, `sign_hash` ends either with the message of a refused
  -- hash or with the two padded integers, and has freed all that it was given.
  pub sign_hash_lem :
      (hash : Bytes) (rng : w.Rng) (key : w.Key)
      → is_nonzero w.mp_init ≡ false
      → w.mp_unsigned_bin_size (w.ecc_sign_hash_ex hash rng key).1 ≤ 32
      → w.mp_unsigned_bin_size (w.ecc_sign_hash_ex hash rng key).2 ≤ 32
      → sign_hash w hash rng key (record clean { generator = true; key_slot = true }) ≡ (
        if is_nonzero (w.ecc_sign_hash_ex hash rng key).0
            then custom_err "failed to sign hash"
            else ok (signed w hash rng key),
        clean,
      )
  unfolding sign_hash
  sign_hash_lem hash rng key e hr hs = ground (arith, raw_signature-padded _ _ hr hs)

  pub length-signed :
      (hash : Bytes) (rng : w.Rng) (key : w.Key)
      → w.mp_unsigned_bin_size (w.ecc_sign_hash_ex hash rng key).1 ≤ 32
      → w.mp_unsigned_bin_size (w.ecc_sign_hash_ex hash rng key).2 ≤ 32
      → length (signed w hash rng key) ≡ 64
  length-signed hash rng key hr hs = omega (
    arith,
    length-append (padded w (w.ecc_sign_hash_ex hash rng key).1)
        (padded w (w.ecc_sign_hash_ex hash rng key).2),
    length-padded (w.ecc_sign_hash_ex hash rng key).1 hr,
    length-padded (w.ecc_sign_hash_ex hash rng key).2 hs,
  )

  -- Where they cannot be set up, it is undefined.
  pub sign_hash-undefined :
      (hash : Bytes) (rng : w.Rng) (key : w.Key) (s : Ledger)
      → is_nonzero w.mp_init ≡ true
      → (sign_hash w hash rng key s).0 ≡ fault
  unfolding sign_hash
  sign_hash-undefined hash rng key s e = ground arith

  -- The bytes that verification takes for r and for s.
  pub slices :
      (r s : ℕ)
      → w.mp_unsigned_bin_size r ≤ 32
      → w.mp_unsigned_bin_size s ≤ 32
      → (slice ((padded w r ++ padded w s) ++ 0 ∷ []) 0 32 ≡ some (padded w r))
        × (slice ((padded w r ++ padded w s) ++ 0 ∷ []) 32 32 ≡ some (padded w s))
  slices r s hr hs = (
    rw (append_assoc (padded w r) (padded w s) (0 ∷ []))
        (slice-append [] (padded w r) (padded w s ++ 0 ∷ []) refl (length-padded r hr)),
    rw (append_assoc (padded w r) (padded w s) (0 ∷ []))
        (slice-append (padded w r) (padded w s) (0 ∷ []) (length-padded r hr) (length-padded s hs)),
  )
