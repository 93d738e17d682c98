-- ===== src/Ranges/Defs.antt =====
-- src/controllers/fs.js: parseRangeHeader, and the answer of GET up to the body of the file.
use caskfs.Base.{ℕ, zero, suc, ◌+◌, ◌-◌, min, ◌==◌, nat_eq, list_eq, option_eq, ltb, leb}
use caskfs.Base.{Bool, true, false, ◌&&◌, ◌||◌, Option, none, some, [], ◌∷◌, if◌then◌else◌}
use caskfs.Base.{contains}
use caskfs.Base.Text.{Text, codes}
use caskfs.Validation.Values.{ℤ, pos, negsuc, is_digit, digits_from, trim, lower}

-- The first and the last byte, counted from 0; the last of an empty file is -1.
pub record Range : Type 0 where
  pub start : ℕ
  pub end : ℤ

-- t.startsWith(p), with what follows.
abbrev pub after : Text → Text → Option Text
after [] t = some t
after (c ∷ p) [] = none
after (c ∷ p) (d ∷ t) = let rest = after p t in if c == d then rest else none

abbrev is_there : {A : Type 0} → Option A → Bool
is_there none = false
is_there (some a) = true

-- t.includes(p)
abbrev pub includes : Text → Text → Bool
includes p [] = is_there (after p [])
includes p (c ∷ t) = let rest = includes p t in is_there (after p (c ∷ t)) || rest

abbrev pub all_digits : Text → Bool
all_digits [] = true
all_digits (c ∷ t) = is_digit c && all_digits t

abbrev cons_start : ℕ → Option (Text × Text) → Option (Text × Text)
cons_start c none = none
cons_start c (some m) = some (c ∷ m.0, m.1)

-- The two groups of /^(\d*)-(\d*)$/.
abbrev pub match_spec : Text → Option (Text × Text)
match_spec [] = none
match_spec (c ∷ t) =
    let rest = match_spec t in
    if is_digit c then cons_start c rest else if c == 45 && all_digits t then some ([], t) else none

-- fileSize - 1
abbrev pub last_byte : ℕ → ℤ
last_byte zero = negsuc 0
last_byte (suc n) = pos n

-- parseInt of digits
abbrev pub value_of : Text → ℕ
value_of t = digits_from 0 t

-- bytes=-N
abbrev pub range_of_suffix : ℕ → ℕ → Option Range
range_of_suffix suffix size =
    if suffix == 0 then none else some (record { start = size - suffix; end = last_byte size })

abbrev pub range_of_groups : Option (Text × Text) → ℕ → Option Range
range_of_groups none size = none
range_of_groups (some ([], [])) size = none
range_of_groups (some ([], d ∷ b)) size = range_of_suffix (value_of (d ∷ b)) size
range_of_groups (some (c ∷ a, [])) size =
    some (record { start = value_of (c ∷ a); end = last_byte size })
range_of_groups (some (c ∷ a, d ∷ b)) size =
    some (record { start = value_of (c ∷ a); end = pos (value_of (d ∷ b)) })

abbrev range_of_spec : Option Text → ℕ → Option Range
range_of_spec none size = none
range_of_spec (some spec) size =
    if contains spec 44 then none else range_of_groups (match_spec spec) size

unfoldable pub parse_range_header : Text → ℕ → Option Range
parse_range_header header size = range_of_spec (after (codes "bytes=") header) size

pub record Request : Type 0 where
  pub metadata : Option Text
  pub accept : Option Text
  pub if_none_match : Option Text
  pub range : Option Text

-- The row of the file, as far as the answer depends on it.
pub record Found : Type 0 where
  pub size : Option ℕ
  pub hash_value : Option Text

-- The metadata; 304; 416 with the size, if known; 206 with Content-Range (start, end, size) and
-- Content-Length; the whole file with Content-Length.
pub data Answer : Type 0 where
  metadata_only : Answer
  not_modified : Answer
  unsatisfiable : Option ℕ → Answer
  partial : (start end size length : ℕ) → Answer
  whole : Option ℕ → Answer

abbrev pub serve_between : ℕ → ℕ → ℤ → Answer
serve_between size start (negsuc n) = unsatisfiable (some size)
serve_between size start (pos end) =
    let last = min end (size - 1) in
    if ltb end start || leb size start
    then unsatisfiable (some size)
    else partial start last size (last - start + 1)

abbrev pub serve_parsed : ℕ → Option Range → Answer
serve_parsed size none = unsatisfiable (some size)
serve_parsed size (some r) = serve_between size r.start r.end

unfoldable pub serve_range : Text → Option ℕ → Answer
serve_range header none = unsatisfiable none
serve_range header (some size) = serve_parsed size (parse_range_header header size)

abbrev pub serve_file : Option Text → Option ℕ → Answer
serve_file none size = whole size
serve_file (some []) size = whole size
serve_file (some (c ∷ t)) size = serve_range (c ∷ t) size

abbrev or_empty : Option Text → Text
or_empty none = []
or_empty (some t) = t

abbrev pub wants_metadata : Request → Bool
wants_metadata r =
    lower (trim (or_empty r.metadata)) == codes "true"
    || includes (codes "application/vnd.caskfs.file-metadata+json") (or_empty r.accept)

abbrev is_truthy : Option Text → Bool
is_truthy none = false
is_truthy (some []) = false
is_truthy (some (c ∷ t)) = true

unfoldable pub get_file : Request → Found → Answer
get_file r found =
    if wants_metadata r
    then metadata_only
    else if is_truthy found.hash_value && r.if_none_match == found.hash_value
    then not_modified
    else serve_file r.range found.size
