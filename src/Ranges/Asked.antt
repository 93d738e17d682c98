-- ===== src/Ranges/Asked.antt =====
-- src/controllers/fs.js: the ranges that a header of one range asks for.
use caskfs.Base.{ℕ, zero, suc, ◌+◌, ◌-◌, ◌≤◌, ◌<◌, ◌≡◌, ◌↔◌, refl, arith, nat_eq, min}
use caskfs.Base.{◌||◌, ◌&&◌, Bool, true, false, none, some, [], ◌∷◌, ◌++◌, contains}
use caskfs.Base.{if◌then◌else◌, ◌==◌, ltb, leb}
use caskfs.Base.Text.{Text, codes}
use caskfs.Validation.Values.{pos, is_digit}
use caskfs.Ranges.Defs.{Range, Answer, metadata_only, not_modified, unsatisfiable, partial, whole}
use caskfs.Ranges.Defs.{serve_between, serve_parsed, serve_range, last_byte}
use caskfs.Ranges.Defs.{
  parse_range_header, range_of_groups, range_of_suffix, match_spec, all_digits, value_of,
}

-- The byte at a position is asked for: between the two numbers, from the first on, or among the last.
abbrev pub Asks : Text → Text → ℕ → ℕ → Type 0
Asks [] [] size j = ⊥
Asks [] (d ∷ b) size j = size ≤ j + value_of (d ∷ b)
Asks (c ∷ a) [] size j = value_of (c ∷ a) ≤ j
Asks (c ∷ a) (d ∷ b) size j = (value_of (c ∷ a) ≤ j) × (j ≤ value_of (d ∷ b))

-- The byte at a position is part of the body.
abbrev pub Serves : Answer → ℕ → Type 0
Serves metadata_only j = ⊥
Serves not_modified j = ⊥
Serves (unsatisfiable size) j = ⊥
Serves (partial start end size len) j = (start ≤ j) × (j ≤ end)
Serves (whole size) j = Unit

abbrev pub header : Text → Text → Text
header a b = codes "bytes=" ++ a ++ 45 ∷ b

both_true : (p q : Bool) → p && q ≡ true → (p ≡ true) × (q ≡ true)
both_true true q h = (refl, h)
both_true false q h = absurd (ground (arith, h))

match_spec-groups :
    (a b : Text)
    → all_digits a ≡ true
    → all_digits b ≡ true
    → match_spec (a ++ 45 ∷ b) ≡ some (a, b)
unfolding nat_eq
match_spec-groups [] b h k = rw k refl
match_spec-groups (c ∷ a) b h k =
    let (d, rest) = both_true (is_digit c) (all_digits a) h in
    rw (d, match_spec-groups a b rest k) refl

digits-no_comma : (b : Text) → all_digits b ≡ true → contains b 44 ≡ false
digits-no_comma [] k = refl
digits-no_comma (c ∷ b) k = ground (arith, digits-no_comma b)

no_comma :
    (a b : Text) → all_digits a ≡ true → all_digits b ≡ true → contains (a ++ 45 ∷ b) 44 ≡ false
no_comma [] b h k = ground (arith, digits-no_comma b k)
no_comma (c ∷ a) b h k = ground (arith, no_comma a b)

parse_range_header-groups :
    (a b : Text) (size : ℕ)
    → all_digits a ≡ true
    → all_digits b ≡ true
    → parse_range_header (header a b) size ≡ range_of_groups (some (a, b)) size
unfolding parse_range_header nat_eq
parse_range_header-groups a b size h k = rw (no_comma a b h k, match_spec-groups a b h k) refl

abbrev Agree : Type 0 → Answer → ℕ → Type 0
Agree P x j = Serves x j ↔ P

if-Serves :
    (P : Type 0) (t : Bool) (x y : Answer) (j : ℕ)
    → (t ≡ true → Agree P x j)
    → (t ≡ false → Agree P y j)
    → Agree P (if t then x else y) j
if-Serves P true x y j p q = p refl
if-Serves P false x y j p q = q refl

between-Serves :
    (size start end j : ℕ)
    → j < size
    → Serves (serve_between size start (pos end)) j ↔ ((start ≤ j) × (j ≤ end))
between-Serves size start end j h =
    if-Serves ((start ≤ j) × (j ≤ end)) (ltb end start || leb size start)
      (unsatisfiable (some size))
      (partial start (min end (size - 1)) size (min end (size - 1) - start + 1)) j
      (λ p. ((λ no. absurd no), (λ r. absurd (ground (arith, r.0, r.1)))))
      (λ q. ((λ r. (r.0, ground (arith, r.1))), (λ r. (r.0, ground (arith, r.1)))))

-- An empty file has no last byte, and no byte is in it.
last-Serves :
    (size start j : ℕ) → j < size → Agree (start ≤ j) (serve_between size start (last_byte size)) j
last-Serves zero start j h = absurd (omega (arith, h))
last-Serves (suc n) start j h =
    let both = between-Serves (suc n) start n j h in
    ((λ r. (both.0 r).0), (λ r. both.1 (r, ground (arith, h))))

if-parsed :
    (P : Type 0) (t : Bool) (size : ℕ) (r : Range) (j : ℕ)
    → (t ≡ true → ¬ P)
    → (t ≡ false → Agree P (serve_parsed size (some r)) j)
    → Agree P (serve_parsed size (if t then none else some r)) j
if-parsed P true size r j p q = ((λ no. absurd no), (λ asked. absurd (p refl asked)))
if-parsed P false size r j p q = q refl

suffix-Serves :
    (size suffix j : ℕ)
    → j < size
    → Agree (size ≤ j + suffix) (serve_parsed size (range_of_suffix suffix size)) j
suffix-Serves size suffix j h =
    if-parsed (size ≤ j + suffix) (suffix == 0) size
      (record { start = size - suffix; end = last_byte size }) j
      (λ p asked. ground (arith, asked, h))
      (λ q.
        let both = last-Serves size (size - suffix) j h in
        ((λ r. omega (arith, both.0 r)), (λ r. both.1 (omega (arith, r)))))

groups-Serves :
    (a b : Text) (size j : ℕ)
    → j < size
    → Agree (Asks a b size j) (serve_parsed size (range_of_groups (some (a, b)) size)) j
groups-Serves [] [] size j h = ((λ no. no), (λ no. no))
groups-Serves [] (d ∷ b) size j h = suffix-Serves size (value_of (d ∷ b)) j h
groups-Serves (c ∷ a) [] size j h = last-Serves size (value_of (c ∷ a)) j h
groups-Serves (c ∷ a) (d ∷ b) size j h =
    between-Serves size (value_of (c ∷ a)) (value_of (d ∷ b)) j h

-- For a header with one range, which digits a and b bound, a byte of the file is in the body exactly if
-- the header asks for it: it is between the two, from a on, or among the last b, as one of them or both
-- are there. With neither no byte is asked for, nor served.
pub serve_range-Asks :
    (a b : Text) (size j : ℕ)
    → all_digits a ≡ true
    → all_digits b ≡ true
    → j < size
    → Serves (serve_range (header a b) (some size)) j ↔ Asks a b size j
unfolding serve_range
serve_range-Asks a b size j h k lt =
    rw (parse_range_header-groups a b size h k) (groups-Serves a b size j lt)
