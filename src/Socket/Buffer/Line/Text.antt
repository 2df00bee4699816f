-- ===== src/Socket/Buffer/Line/Text.antt =====
-- What a line of text is: the bytes in front of the first newline, but the carriage returns.
use lilush.Common.{
  ◌+◌, ◌<◌, ◌≡◌, refl, ◌||◌, Bool, true, false, Bytes, [], ◌∷◌, ◌++◌, length, drop, ◌==◌,
  if◌then◌else◌, Bool-cases, inl, inr, arith,
}
use native.Mathlib.Nat.{suc-add}
use lilush.Socket.Buffer.{scan}

unfoldable pub has_lf : Bytes → Bool
has_lf [] = false
has_lf (c ∷ cs) = c == 10 || has_lf cs

unfoldable pub until_lf : Bytes → Bytes
until_lf [] = []
until_lf (c ∷ cs) = let rest = until_lf cs in if c == 10 then [] else c ∷ rest

unfoldable pub after_lf : Bytes → Bytes
after_lf [] = []
after_lf (c ∷ cs) = let rest = after_lf cs in if c == 10 then cs else rest

unfoldable pub drop_cr : Bytes → Bytes
drop_cr [] = []
drop_cr (c ∷ cs) = let rest = drop_cr cs in if c == 13 then rest else c ∷ rest

-- The text has a newline in `xs`.
pub record Found (xs : Bytes) : Type 0 where
  pub line : (scan xs).0 ≡ drop_cr (until_lf xs)
  pub within : (scan xs).1 < length xs
  pub rest : drop ((scan xs).1 + 1) xs ≡ after_lf xs

-- It has none.
pub record Missing (xs : Bytes) : Type 0 where
  pub line : (scan xs).0 ≡ drop_cr xs
  pub ends : (scan xs).1 ≡ length xs

pub scan-Found : (xs : Bytes) → has_lf xs ≡ true → Found xs
unfolding has_lf until_lf after_lf drop_cr
scan-Found [] h = absurd (ground arith)
scan-Found (c ∷ cs) h = elim (Bool-cases (c == 10)) [
  | inl e ↦ record { line = rw e refl; within = rw e (omega arith); rest = rw e refl }
  | inr e ↦
      let f = scan-Found cs (ground arith) in
      record {
        line = ground (arith, f.line);
        within = rw e (omega (arith, f.within));
        rest = rw (e, suc-add) f.rest;
      }
]

pub scan-Missing : (xs : Bytes) → has_lf xs ≡ false → Missing xs
unfolding has_lf drop_cr
scan-Missing [] h = record { line = refl; ends = refl }
scan-Missing (c ∷ cs) h = elim (Bool-cases (c == 10)) [
  | inl e ↦ absurd (ground arith)
  | inr e ↦
      let f = scan-Missing cs (ground arith) in
      record { line = ground (arith, f.line); ends = rw e (omega (arith, f.ends)) }
]

pub has_lf-append : (xs d : Bytes) → has_lf xs ≡ false → has_lf (xs ++ d) ≡ has_lf d
unfolding has_lf
has_lf-append [] d h = refl
has_lf-append (c ∷ cs) d h = ground (arith, has_lf-append cs d)

pub until_lf-append : (xs d : Bytes) → has_lf xs ≡ true → until_lf (xs ++ d) ≡ until_lf xs
unfolding has_lf until_lf
until_lf-append [] d h = absurd (ground arith)
until_lf-append (c ∷ cs) d h = ground (arith, until_lf-append cs d)

pub after_lf-append : (xs d : Bytes) → has_lf xs ≡ true → after_lf (xs ++ d) ≡ after_lf xs ++ d
unfolding has_lf after_lf
after_lf-append [] d h = absurd (ground arith)
after_lf-append (c ∷ cs) d h = ground (arith, after_lf-append cs d)

pub until_lf-past : (xs d : Bytes) → has_lf xs ≡ false → until_lf (xs ++ d) ≡ xs ++ until_lf d
unfolding has_lf until_lf
until_lf-past [] d h = refl
until_lf-past (c ∷ cs) d h = ground (arith, until_lf-past cs d)

pub after_lf-past : (xs d : Bytes) → has_lf xs ≡ false → after_lf (xs ++ d) ≡ after_lf d
unfolding has_lf after_lf
after_lf-past [] d h = refl
after_lf-past (c ∷ cs) d h = ground (arith, after_lf-past cs d)

pub drop_cr-append : (xs d : Bytes) → drop_cr (xs ++ d) ≡ drop_cr xs ++ drop_cr d
unfolding drop_cr
drop_cr-append [] d = refl
drop_cr-append (c ∷ cs) d = ground (arith, drop_cr-append cs d)

pub has_lf-nonempty : (xs : Bytes) → has_lf xs ≡ true → 0 < length xs
unfolding has_lf
has_lf-nonempty [] h = absurd (ground arith)
has_lf-nonempty (c ∷ cs) h = omega arith
