-- ===== src/Socket/Buffer/Send/Range.antt =====
-- The bytes that `send(text, i, j)` means, by their positions, and the slice that buffer.c takes.
use lilush.Common.{
  ℕ, zero, suc, ◌+◌, ◌-◌, ◌≤◌, ◌<◌, ◌≡◌, refl, sym, ap, ◌∙◌, ◌&&◌, Bool, true, false, Bytes, [],
  ◌∷◌, length, take, drop, leb, if◌then◌else◌, Bool-cases, inl, inr, ℤ, pos, negsuc, arith,
}
use lilush.Socket.Buffer.Stream.{take-zero, take-nil, drop-nil, leb→le}
use lilush.Socket.Buffer.{first_index, last_index}

-- The byte at position k of `size` is not before i: an index below 0 counts from the end.
abbrev from_index : ℕ → ℤ → ℕ → Bool
from_index size (pos n) k = leb n k
from_index size (negsuc n) k = leb size (k + n)

-- It is not behind j.
abbrev to_index : ℕ → ℤ → ℕ → Bool
to_index size (pos n) k = leb k n
to_index size (negsuc n) k = leb (k + n) size

unfoldable pub selected : ℕ → ℤ → ℤ → ℕ → Bool
selected size i j k = from_index size i k && to_index size j k

-- The bytes of a text whose positions, counted from k, pass a test.
unfoldable pub picked : (ℕ → Bool) → ℕ → Bytes → Bytes
picked p k [] = []
picked p k (c ∷ cs) = let rest = picked p (suc k) cs in if p k then c ∷ rest else rest

abbrev between : ℕ → ℕ → ℕ → Bool
between start stop k = leb start k && leb k stop

le→leb : (m n : ℕ) → m ≤ n → leb m n ≡ true
le→leb m n h = ground arith

pub leb-false : (m n : ℕ) → leb m n ≡ false → n < m
leb-false m n h = ground arith

take-cons : (n c : ℕ) (cs : Bytes) → 0 < n → take n (c ∷ cs) ≡ c ∷ take (n - 1) cs
take-cons zero c cs h = absurd (omega arith)
take-cons (suc n) c cs h = ap (λ k. c ∷ take k cs) (omega arith)

drop-cons : (n c : ℕ) (cs : Bytes) → 0 < n → drop n (c ∷ cs) ≡ drop (n - 1) cs
drop-cons zero c cs h = absurd (omega arith)
drop-cons (suc n) c cs h = ap (λ k. drop k cs) (omega arith)

picked-take :
    (start stop k : ℕ) (xs : Bytes)
    → start ≤ k
    → picked (between start stop) k xs ≡ take (stop + 1 - k) xs
unfolding picked
picked-take start stop k [] h = sym (take-nil (stop + 1 - k))
picked-take start stop k (c ∷ cs) h = elim (Bool-cases (leb k stop)) [
  | inl e ↦
      rw (le→leb start k h, e)
        (ap (λ t. c ∷ t)
            (picked-take start stop (suc k) cs (omega arith) ∙ ap (λ n. take n cs) (omega arith))
          ∙ sym (take-cons (stop + 1 - k) c cs (omega (arith, leb→le k stop e))))
  | inr e ↦
      rw (le→leb start k h, e)
        (picked-take start stop (suc k) cs (omega arith)
          ∙ take-zero (stop + 1 - suc k) cs (omega (arith, leb-false k stop e))
          ∙ sym (take-zero (stop + 1 - k) (c ∷ cs) (omega (arith, leb-false k stop e))))
]

picked-drop :
    (start stop k : ℕ) (xs : Bytes)
    → k ≤ start
    → picked (between start stop) k xs ≡ take (stop + 1 - start) (drop (start - k) xs)
unfolding picked
picked-drop start stop k [] h =
    sym (ap (λ t. take (stop + 1 - start) t) (drop-nil (start - k)) ∙ take-nil (stop + 1 - start))
picked-drop start stop k (c ∷ cs) h = elim (Bool-cases (leb start k)) [
  | inl e ↦
      let here : k ≡ start = omega (arith, leb→le start k e) in
      let none_left : 0 ≡ start - k = omega arith in
      picked-take start stop k (c ∷ cs) (leb→le start k e)
      ∙ ap (λ n. take (stop + 1 - n) (c ∷ cs)) here
      ∙ ap (λ n. take (stop + 1 - start) (drop n (c ∷ cs))) none_left
  | inr e ↦
      let less : start - suc k ≡ start - k - 1 = omega arith in
      rw e (
        picked-drop start stop (suc k) cs (leb-false start k e)
        ∙ ap (λ t. take (stop + 1 - start) t)
            (ap (λ n. drop n cs) less
              ∙ sym (drop-cons (start - k) c cs (omega (arith, leb-false start k e)))))
]

picked-same :
    (p q : ℕ → Bool) (size k : ℕ) (xs : Bytes)
    → ((m : ℕ) → 0 < m → m ≤ size → p m ≡ q m)
    → 0 < k
    → k + length xs ≤ size + 1
    → picked p k xs ≡ picked q k xs
unfolding picked
picked-same p q size k [] f h n = refl
picked-same p q size k (c ∷ cs) f h n =
    rw (f k h (omega arith), picked-same p q size (suc k) cs f (omega arith) (omega arith)) refl

selected-between :
    (size : ℕ) (i j : ℤ) (m : ℕ)
    → 0 < m
    → m ≤ size
    → selected size i j m ≡ between (first_index size i) (last_index size j) m
unfolding selected
selected-between size (pos zero) (pos b) m h n = ground arith
selected-between size (pos (suc a)) (pos b) m h n = ground arith
selected-between size (pos zero) (negsuc b) m h n = ground arith
selected-between size (pos (suc a)) (negsuc b) m h n = ground arith
selected-between size (negsuc a) (pos b) m h n = ground arith
selected-between size (negsuc a) (negsuc b) m h n = ground arith

pub first_index-pos : (size : ℕ) (i : ℤ) → 0 < first_index size i
first_index-pos size (pos zero) = omega arith
first_index-pos size (pos (suc a)) = omega arith
first_index-pos size (negsuc a) = ground arith

pub first_index-of : (size n : ℕ) → 0 < n → first_index size (pos n) ≡ n
first_index-of size zero h = absurd (omega arith)
first_index-of size (suc n) h = refl

-- The slice from the first index to the last is what the positions select.
pub picked-slice :
    (i j : ℤ) (text : Bytes)
    → picked (selected (length text) i j) 1 text
      ≡ take
          (last_index (length text) j + 1 - first_index (length text) i)
          (drop (first_index (length text) i - 1) text)
picked-slice i j text =
    picked-same (selected (length text) i j)
      (between (first_index (length text) i) (last_index (length text) j)) (length text) 1 text
      (selected-between (length text) i j) (omega arith) (omega arith)
    ∙ picked-drop (first_index (length text) i) (last_index (length text) j) 1 text
        (first_index-pos (length text) i)
