-- ===== src/Listing/Pages.antt =====
-- src/index.js: which files the pages of `ls` show.
use caskfs.Base.{ℕ, zero, suc, ◌+◌, ◌-◌, ◌≤◌, ◌<◌, ◌≡◌, refl, ap, ◌⊎◌, inl, inr, arith}
use caskfs.Base.{Bool, ltb, List, [], ◌∷◌, length, take, drop, take-all}
use caskfs.Base.{Option, keep}
use caskfs.Base.Text.{Text}
use caskfs.Acl.Db.{Db, Directory}
use caskfs.Listing.Defs.{child_directories, child_count, directory_rows, in_directory, sum_rows}
use caskfs.Listing.Defs.{or_default, total, page, FileRange, range_of, combine}

-- A page that is empty has no count; one that is not lies within the rows.
total-drop :
    {A : Type 0} (n k count : ℕ) (xs : List A)
    → (total (take n (drop k xs)) count ≡ 0)
      ⊎ ((total (take n (drop k xs)) count ≡ count) × (k < length xs))
total-drop zero k count xs = inl refl
total-drop (suc n) zero count [] = inl refl
total-drop (suc n) (suc k) count [] = inl refl
total-drop (suc n) zero count (x ∷ xs) = inr (refl, omega arith)
total-drop (suc n) (suc k) count (x ∷ xs) = elim (total-drop (suc n) k count xs) [
  | inl empty ↦ inl empty
  | inr filled ↦ inr (filled.0, omega (arith, filled.1))
]

-- The query for files skips as many files as the offset of the page says, whatever directories there
-- are: beyond the last directory a page has no row, and so no count of the directories. The rows that
-- are counted are at least as many as the directories.
pub file_range-combine :
    {D F : Type 0} (limit offset count : ℕ) (dirs : List D) (files : List F)
    → length dirs ≤ count
    → (combine limit offset count dirs files).file_range.offset ≡ offset
unfolding combine page range_of
file_range-combine limit offset count dirs files h =
    let n = or_default 100 (or_default 100 limit) in
    elim (total-drop n offset count dirs) [
      | inl empty ↦ ground (arith, empty)
      | inr filled ↦ ground (arith, filled.0, filled.1)
    ]

first_limit :
    {D F : Type 0} (n count : ℕ) (dirs : List D) (files : List F)
    → length dirs < n
    → (combine n 0 count dirs files).file_range.limit ≡ n - length dirs
unfolding combine page range_of
first_limit zero count dirs files few = absurd (omega arith)
first_limit (suc n) count dirs files few =
    ap (λ ds. suc n - length ds) (take-all (suc n) dirs (omega arith))

-- Whether the file at a position of the directory is among those that a page asks for.
abbrev pub AsksFor : FileRange → ℕ → Type 0
AsksFor r j = (r.offset ≤ j) × (j < r.offset + r.limit)

-- Where a directory has d directories, fewer than the limit n, no page but one between asks for the
-- files at the positions from n - d to n - 1: the first page stops before them, and every page from
-- offset n on starts behind them.
pub skipped_files :
    {D F : Type 0} (n offset count j : ℕ) (dirs : List D) (files : List F)
    → length dirs ≤ count
    → length dirs < n
    → (offset ≡ 0) ⊎ (n ≤ offset)
    → n - length dirs ≤ j
    → j < n
    → ¬ AsksFor (combine n offset count dirs files).file_range j
unfolding combine page range_of
skipped_files n offset count j dirs files h few (inl first) low high asked = omega (
  arith,
  file_range-combine n offset count dirs files h,
  ap (λ o. (combine n o count dirs files).file_range.limit) first,
  first_limit n count dirs files few,
  asked.1,
)
skipped_files n offset count j dirs files h few (inr later) low high asked =
    omega (arith, file_range-combine n offset count dirs files h, asked.0)

counted :
    (f : Directory → ℕ) (ds : List Directory) → length (keep (λ d. ltb 0 (f d)) ds) ≤ sum_rows f ds
counted f [] = omega arith
counted f (d ∷ ds) = ground (arith, counted f ds)

-- The rows that the query for directories counts are at least as many as the directories it yields.
pub child_directories-child_count :
    (db : Db) (path : Text) (required : Bool) (user : Option ℕ)
    → length (child_directories db path required user) ≤ child_count db path required user
unfolding child_directories child_count
child_directories-child_count db path required user =
    counted (directory_rows db required user) (in_directory db path)
