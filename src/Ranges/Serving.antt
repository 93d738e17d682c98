-- ===== src/Ranges/Serving.antt =====
-- src/controllers/fs.js: which bytes of a file GET serves.
use caskfs.Base.{ℕ, suc, ◌+◌, ◌-◌, ◌≤◌, ◌<◌, ◌≡◌, refl, arith, nat_eq, list_eq}
use caskfs.Base.{◌||◌, Bool, true, false, Option, none, some, [], ◌∷◌, if◌then◌else◌}
use caskfs.Base.{option_eq, min, ltb, leb}
use caskfs.Base.Text.{Text}
use caskfs.Validation.Values.{ℤ, pos, negsuc}
use caskfs.Ranges.Defs.{Range, Request, Found, Answer, metadata_only, not_modified, unsatisfiable}
use caskfs.Ranges.Defs.{partial, whole, serve_between, serve_parsed, serve_range, get_file}
use caskfs.Ranges.Defs.{parse_range_header}
use caskfs.Ranges.Defs.{serve_file, wants_metadata}

-- What an answer says of the file is true of it.
abbrev pub IsWithin : Option ℕ → Answer → Type 0
IsWithin known metadata_only = Unit
IsWithin known not_modified = Unit
IsWithin known (unsatisfiable size) = size ≡ known
IsWithin known (partial start end size len) =
    (known ≡ some size) × (start ≤ end) × (end < size) × (start + len ≡ suc end)
IsWithin known (whole size) = size ≡ known

if-IsWithin :
    (known : Option ℕ) (b : Bool) (x y : Answer)
    → (b ≡ true → IsWithin known x)
    → (b ≡ false → IsWithin known y)
    → IsWithin known (if b then x else y)
if-IsWithin known true x y p q = p refl
if-IsWithin known false x y p q = q refl

part_fits :
    (size start end : ℕ)
    → start ≤ end
    → start < size
    → IsWithin
        (some size)
        (partial start (min end (size - 1)) size (min end (size - 1) - start + 1))
part_fits size start end h k = (refl, ground arith, ground arith, ground arith)

between-IsWithin : (size start : ℕ) (end : ℤ) → IsWithin (some size) (serve_between size start end)
between-IsWithin size start (negsuc n) = refl
between-IsWithin size start (pos end) =
    if-IsWithin (some size) (ltb end start || leb size start) (unsatisfiable (some size))
      (partial start (min end (size - 1)) size (min end (size - 1) - start + 1)) (λ p. refl)
      (λ q. part_fits size start end (ground arith) (ground arith))

parsed-IsWithin : (size : ℕ) (r : Option Range) → IsWithin (some size) (serve_parsed size r)
parsed-IsWithin size none = refl
parsed-IsWithin size (some r) = between-IsWithin size r.start r.end

range-IsWithin : (t : Text) (size : Option ℕ) → IsWithin size (serve_range t size)
unfolding serve_range
range-IsWithin t none = refl
range-IsWithin t (some size) = parsed-IsWithin size (parse_range_header t size)

file-IsWithin : (t : Option Text) (size : Option ℕ) → IsWithin size (serve_file t size)
file-IsWithin none size = refl
file-IsWithin (some []) size = refl
file-IsWithin (some (c ∷ t)) size = range-IsWithin (c ∷ t) size

-- For every request and file, an answer with a part of the file says the size of the file, and its
-- first byte is not behind its last, which lies in the file; the length that it says is that of the
-- part. An answer with the whole file, or with a range that cannot be served, says the size, if any.
pub get_file-IsWithin : (r : Request) (found : Found) → IsWithin found.size (get_file r found)
unfolding get_file
get_file-IsWithin r found =
    if-IsWithin found.size (wants_metadata r) metadata_only _ (λ p. tt)
      (λ p.
        if-IsWithin found.size _ not_modified (serve_file r.range found.size) (λ q. tt)
          (λ q. file-IsWithin r.range found.size))
