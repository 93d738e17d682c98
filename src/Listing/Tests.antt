-- ===== src/Listing/Tests.antt =====
-- src/index.js: a directory of two directories and four files, in pages of three.
use caskfs.Base.{ℕ, ◌≡◌, refl, inr, List, [], ◌∷◌, arith}
use caskfs.Listing.Defs.{combine, page, range_of}
use caskfs.Listing.Pages.{AsksFor, skipped_files}

abbrev dirs : List ℕ
dirs = 1 ∷ 2 ∷ []

abbrev files : List ℕ
files = 11 ∷ 12 ∷ 13 ∷ 14 ∷ []

-- The files 12 and 13 are on neither page.
two_pages :
    ((combine 3 0 2 dirs files).files ≡ 11 ∷ []) × ((combine 3 3 2 dirs files).files ≡ 14 ∷ [])
unfolding combine page range_of
two_pages = (refl, refl)

skipped_files_example : ¬ AsksFor (combine 3 3 2 dirs files).file_range 2
skipped_files_example =
    skipped_files 3 3 2 2 dirs files (omega arith) (omega arith) (inr (omega arith)) (omega arith)
      (omega arith)
