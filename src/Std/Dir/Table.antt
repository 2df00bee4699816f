-- ===== src/Std/Dir/Table.antt =====
-- Whole answers of `getdents`: what deviant_fast_list_dir puts in its table.
use lilush.Common.{
  ℕ, zero, suc, ◌<◌, ◌≡◌, refl, ◌∙◌, ap, ◌⊎◌, inr, Bytes, List, [], ◌∷◌, ◌++◌, Option, none, some,
  length, append_assoc, append-nil, length-append, ok, arith,
}
use lilush.Std.Dir.{push, read_entry, read_entries, getdents_loop, deviant_fast_list_dir}
use lilush.Std.Dir.Entries.{body, Entry, IsEntry, encode, listed, read_entry-encode}

abbrev pub Batch : Type 0
Batch = List Entry

abbrev pub encode_all : Batch → Bytes
encode_all [] = []
encode_all (e ∷ es) = encode e ++ encode_all es

-- The names and types, in order, of the entries whose inode is not 0.
abbrev pub listing : Batch → List (Bytes × ℕ)
listing [] = []
listing (e ∷ es) = push (listed e) [] ++ listing es

abbrev pub AllEntries : Batch → Type 0
AllEntries [] = Unit {0}
AllEntries (e ∷ es) = IsEntry e × AllEntries es

read_entries-step :
    (fuel : ℕ) (d : Bytes) (pushed : List (Bytes × ℕ)) (entry : Option (Bytes × ℕ)) (rest : Bytes)
    → read_entry d ≡ some (entry, rest)
    → read_entries (suc fuel) d pushed ≡ read_entries fuel rest (push entry pushed)
unfolding read_entries
read_entries-step fuel [] pushed entry rest h = absurd (unreadable h)
  where
    unreadable : read_entry [] ≡ some (entry, rest) → ⊥
    unreadable h = unfold read_entry in cc
read_entries-step fuel (b ∷ bs) pushed entry rest h = rw (h, read_entries)

push-append :
    (entry : Option (Bytes × ℕ)) (pushed : List (Bytes × ℕ))
    → push entry pushed ≡ pushed ++ push entry []
push-append none pushed = rw append-nil
push-append (some a) pushed = refl

read_entries-encode_all :
    (fuel : ℕ) (es : Batch) (pushed : List (Bytes × ℕ))
    → AllEntries es
    → length es < fuel
    → read_entries fuel (encode_all es) pushed ≡ some (pushed ++ listing es)
read_entries-encode_all zero es pushed h k = absurd (omega arith)
read_entries-encode_all (suc fuel) [] pushed h k = unfold read_entries in rw append-nil
read_entries-encode_all (suc fuel) (e ∷ es) pushed h k =
    rw (append_assoc (e.head ++ _) (e.d_type ∷ []) (encode_all es)) (
      read_entries-step fuel _ pushed _ _ (read_entry-encode e h.0 (encode_all es))
      ∙ (read_entries-encode_all fuel es _ h.1 (omega arith)
          ∙ rw (push-append (listed e) pushed) (ap some (append_assoc pushed _ (listing es)))))

-- What `getdents` answers for a directory that it delivers in batches: each batch, and then nothing.
abbrev pub answers : List Batch → List (ℕ ⊎ Bytes)
answers [] = inr [] ∷ []
answers (es ∷ rest) = inr (encode_all es) ∷ answers rest

abbrev pub all_listed : List Batch → List (Bytes × ℕ)
all_listed [] = []
all_listed (es ∷ rest) = listing es ++ all_listed rest

-- Every batch has entries, all of them well formed, and fewer than `fuel`.
abbrev pub AreBatches : ℕ → List Batch → Type 0
AreBatches fuel [] = Unit {0}
AreBatches fuel (es ∷ rest) =
    (0 < length es) × (length es < fuel) × AllEntries es × AreBatches fuel rest

getdents_loop-step :
    (fuel : ℕ) (d : Bytes) (more : List (ℕ ⊎ Bytes)) (pushed pushed' : List (Bytes × ℕ))
    → 0 < length d
    → read_entries fuel d pushed ≡ some pushed'
    → getdents_loop fuel (inr d ∷ more) pushed ≡ getdents_loop fuel more pushed'
unfolding getdents_loop
getdents_loop-step fuel [] more pushed pushed' h e = absurd (omega arith)
getdents_loop-step fuel (b ∷ bs) more pushed pushed' h e = rw (e, getdents_loop)

encode_all-pos : (es : Batch) → 0 < length es → 0 < length (encode_all es)
encode_all-pos [] h = absurd (omega arith)
encode_all-pos (e ∷ es) h = omega (
  arith,
  length-append (encode e) (encode_all es),
  length-append (e.head ++ body e) (e.d_type ∷ []),
)

getdents_loop-answers :
    (fuel : ℕ) (batches : List Batch) (pushed : List (Bytes × ℕ))
    → AreBatches fuel batches
    → getdents_loop fuel (answers batches) pushed
      ≡ record { result = ok (pushed ++ all_listed batches); open_dirs = 1 }
unfolding getdents_loop
getdents_loop-answers fuel [] pushed h = rw append-nil
getdents_loop-answers fuel (es ∷ rest) pushed (pos, few, entries, more) =
    getdents_loop-step fuel (encode_all es) (answers rest) pushed _ (encode_all-pos es pos)
      (read_entries-encode_all fuel es pushed entries few)
    ∙ (getdents_loop-answers fuel rest _ more
        ∙ rw (append_assoc pushed (listing es) (all_listed rest)))

-- For a directory that the kernel delivers in any number of batches of well-formed entries, with fuel
-- above the number of entries of each, the table gets every entry whose inode is not 0, with its name
-- and its type, in the kernel's order; and the directory is left open.
pub deviant_fast_list_dir-answers :
    (fuel : ℕ) (batches : List Batch)
    → AreBatches fuel batches
    → deviant_fast_list_dir fuel (inr (answers batches))
      ≡ record { result = ok (all_listed batches); open_dirs = 1 }
unfolding deviant_fast_list_dir
deviant_fast_list_dir-answers fuel batches h = getdents_loop-answers fuel batches [] h
