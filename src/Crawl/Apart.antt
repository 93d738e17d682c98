-- ===== src/Crawl/Apart.antt =====
-- src/bin/lib/cp-utils.js: no two files of a local directory are copied to one path.
use caskfs.Base.{◌≡◌, refl, sym, ◌∙◌, Bool, true, false, ◌⊎◌, inl, inr, subst}
use caskfs.Base.{
  List, [], ◌∷◌, ◌++◌, All, All-append, if◌then◌else◌, append_assoc, append-nil, ◌==◌, list_eq,
  nat_eq,
}
use caskfs.Base.Text.{Text}
use caskfs.Crawl.Defs.{Folder, unreadable, readable, Entries, done, dir, file, other, Crawled}
use caskfs.Crawl.Defs.{walk, walk_entries, crawl_local, judge, is_skipped, sentinels, basename}
use caskfs.Crawl.Defs.{dir_ext, sentinel_ext, join_crawled, one_file, failed, extension_mismatch}

abbrev Pairs : Type 0
Pairs = List (List Text × List Text)

-- The name is one of the entries'.
abbrev pub Named : Text → Entries → Type 0
Named n done = ⊥
Named n (dir m f es) = (n ≡ m) ⊎ Named n es
Named n (file m es) = (n ≡ m) ⊎ Named n es
Named n (other m es) = Named n es

-- The entries of each directory have different names.
unfoldable mutual
  pub IsTree : Folder → Type 0
  IsTree unreadable = Unit
  IsTree (readable es) = AreApart es

  pub AreApart : Entries → Type 0
  AreApart done = Unit
  AreApart (dir n f es) = (¬ Named n es) × IsTree f × AreApart es
  AreApart (file n es) = (¬ Named n es) × AreApart es
  AreApart (other n es) = AreApart es

-- No two files have the same destination.
abbrev pub HasApartTargets : Pairs → Type 0
HasApartTargets [] = Unit
HasApartTargets (x ∷ xs) =
    All (λ (y : List Text × List Text). ¬ (y.1 ≡ x.1)) xs × HasApartTargets xs

-- Below a path, and below one of the entries there.
abbrev pub Below : List Text → List Text × List Text → Type 0
Below c y = (r : List Text) × (y.1 ≡ c ++ r)

abbrev Under : List Text → Entries → List Text × List Text → Type 0
Under c es y = (n : Text) × (r : List Text) × Named n es × (y.1 ≡ c ++ n ∷ r)

All-weaken :
    (P Q : List Text × List Text → Type 0) (xs : Pairs)
    → ((y : List Text × List Text) → P y → Q y)
    → All P xs
    → All Q xs
All-weaken P Q [] f h = tt
All-weaken P Q (x ∷ xs) f h = (f x h.0, All-weaken P Q xs f h.1)

apart-append :
    (P Q : List Text × List Text → Type 0) (xs ys : Pairs)
    → All P xs
    → All Q ys
    → ((x y : List Text × List Text) → P x → Q y → ¬ (y.1 ≡ x.1))
    → HasApartTargets xs
    → HasApartTargets ys
    → HasApartTargets (xs ++ ys)
apart-append P Q [] ys p q far hx hy = hy
apart-append P Q (x ∷ xs) ys p q far hx hy = (
  All-append (λ (y : List Text × List Text). ¬ (y.1 ≡ x.1)) xs ys hx.0
      (All-weaken Q (λ (y : List Text × List Text). ¬ (y.1 ≡ x.1)) ys (λ y. far x y p.0) q),
  apart-append P Q xs ys p.1 q far hx.1 hy,
)

first_part : (c : List Text) (n m : Text) (r s : List Text) → (c ++ n ∷ r) ≡ (c ++ m ∷ s) → n ≡ m
first_part [] n m r s p = cc p
first_part (x ∷ c) n m r s p = first_part c n m r s (cc p)

not_self : (c : List Text) (n : Text) (r : List Text) → ¬ ((c ++ n ∷ r) ≡ c)
not_self [] n r p = cc p
not_self (x ∷ c) n r p = not_self c n r (cc p)

if-both : (P : Crawled → Type 0) (b : Bool) (x y : Crawled) → P x → P y → P (if b then x else y)
if-both P true x y p q = p
if-both P false x y p q = q

Under-Below : (c : List Text) (es : Entries) (y : List Text × List Text) → Under c es y → Below c y
Under-Below c es y (n, r, m, p) = (n ∷ r, p)

judge-Below :
    (ss d c : List Text) (es : Entries) (rest : Crawled)
    → All (Under c es) rest.files
    → All (Below c) (judge ss d c rest).files
judge-Below [] d c es rest u = All-weaken (Under c es) (Below c) rest.files (Under-Below c es) u
judge-Below (s ∷ []) d c es rest u =
    if-both (λ x. All (Below c) x.files) (sentinel_ext s == dir_ext (basename d))
      (join_crawled (one_file (d ++ s ∷ []) c) rest) (failed (extension_mismatch d s))
      (([], sym (append-nil c)), All-weaken (Under c es) (Below c) rest.files (Under-Below c es) u)
      tt
judge-Below (s ∷ t ∷ ss) d c es rest u = tt

judge-apart :
    (ss d c : List Text) (es : Entries) (rest : Crawled)
    → All (Under c es) rest.files
    → HasApartTargets rest.files
    → HasApartTargets (judge ss d c rest).files
judge-apart [] d c es rest u h = h
judge-apart (s ∷ []) d c es rest u h =
    if-both (λ x. HasApartTargets x.files) (sentinel_ext s == dir_ext (basename d))
      (join_crawled (one_file (d ++ s ∷ []) c) rest) (failed (extension_mismatch d s))
      (
        All-weaken (Under c es) (λ (y : List Text × List Text). ¬ (y.1 ≡ c)) rest.files
            (λ y v p. not_self c v.0 v.1 (sym v.3 ∙ p)) u,
        h,
      )
      tt
judge-apart (s ∷ t ∷ ss) d c es rest u h = tt

-- What lies below an entry lies under the entries.
of_entry :
    (c : List Text) (n : Text) (es : Entries) (y : List Text × List Text)
    → Named n es
    → Below (c ++ n ∷ []) y
    → Under c es y
of_entry c n es y m (r, p) = (n, r, m, p ∙ append_assoc c (n ∷ []) r)

next_entry :
    (c : List Text) (es fs : Entries) (y : List Text × List Text)
    → ((n : Text) → Named n es → Named n fs)
    → Under c es y
    → Under c fs y
next_entry c es fs y f (n, r, m, p) = (n, r, f n m, p)

mutual
  unfolding walk

  walk-Below : (f : Folder) (d c : List Text) → All (Below c) (walk f d c).files
  walk-Below unreadable d c = tt
  walk-Below (readable es) d c =
      judge-Below (sentinels es) d c es (walk_entries es d c) (walk_entries-Under es d c)

  walk_entries-Under :
      (es : Entries) (d c : List Text) → All (Under c es) (walk_entries es d c).files
  walk_entries-Under done d c = tt
  walk_entries-Under (dir n f es) d c =
      let all = dir n f es in
      let u =
        All-weaken (Under c es) (Under c all) (walk_entries es d c).files
          (λ y. next_entry c es all y (λ m. inr)) (walk_entries-Under es d c) in
      if-both (λ x. All (Under c all) x.files) (is_skipped n) (walk_entries es d c)
        (join_crawled (walk f (d ++ n ∷ []) (c ++ n ∷ [])) (walk_entries es d c)) u
        (All-append (Under c all) (walk f (d ++ n ∷ []) (c ++ n ∷ [])).files
          (walk_entries es d c).files
          (All-weaken (Below (c ++ n ∷ [])) (Under c all) (walk f (d ++ n ∷ []) (c ++ n ∷ [])).files
            (λ y. of_entry c n all y (inl refl)) (walk-Below f (d ++ n ∷ []) (c ++ n ∷ [])))
          u)
  walk_entries-Under (file n es) d c =
      let all = file n es in
      let u =
        All-weaken (Under c es) (Under c all) (walk_entries es d c).files
          (λ y. next_entry c es all y (λ m. inr)) (walk_entries-Under es d c) in
      if-both (λ x. All (Under c all) x.files) (is_skipped n) (walk_entries es d c)
        (join_crawled (one_file (d ++ n ∷ []) (c ++ n ∷ [])) (walk_entries es d c)) u
        ((n, [], inl refl, refl), u)
  walk_entries-Under (other n es) d c = walk_entries-Under es d c

entry_apart :
    (c : List Text) (n : Text) (es : Entries) (x y : List Text × List Text)
    → ¬ Named n es
    → Below (c ++ n ∷ []) x
    → Under c es y
    → ¬ (y.1 ≡ x.1)
entry_apart c n es x y other_names (r, p) (m, s, named, q) e = other_names (
    subst (λ k. Named k es) (first_part c m n s r (sym q ∙ e ∙ p ∙ append_assoc c (n ∷ []) r))
      named)

joined_apart :
    (c : List Text) (n : Text) (es : Entries) (below rest : Crawled)
    → ¬ Named n es
    → All (Below (c ++ n ∷ [])) below.files
    → All (Under c es) rest.files
    → HasApartTargets below.files
    → HasApartTargets rest.files
    → HasApartTargets (if is_skipped n then rest else join_crawled below rest).files
joined_apart c n es below rest other_names b u hb hr =
    if-both (λ x. HasApartTargets x.files) (is_skipped n) rest (join_crawled below rest) hr
      (apart-append (Below (c ++ n ∷ [])) (Under c es) below.files rest.files b u
        (λ x y p q. entry_apart c n es x y other_names p q) hb hr)

mutual
  unfolding walk IsTree

  walk-apart : (f : Folder) (d c : List Text) → IsTree f → HasApartTargets (walk f d c).files
  walk-apart unreadable d c h = tt
  walk-apart (readable es) d c h =
      judge-apart (sentinels es) d c es (walk_entries es d c) (walk_entries-Under es d c)
        (walk_entries-apart es d c h)

  walk_entries-apart :
      (es : Entries) (d c : List Text) → AreApart es → HasApartTargets (walk_entries es d c).files
  walk_entries-apart done d c h = tt
  walk_entries-apart (dir n f es) d c h =
      joined_apart c n es (walk f (d ++ n ∷ []) (c ++ n ∷ [])) (walk_entries es d c) h.0
        (walk-Below f (d ++ n ∷ []) (c ++ n ∷ [])) (walk_entries-Under es d c)
        (walk-apart f (d ++ n ∷ []) (c ++ n ∷ []) h.1) (walk_entries-apart es d c h.2)
  walk_entries-apart (file n es) d c h =
      joined_apart c n es (one_file (d ++ n ∷ []) (c ++ n ∷ [])) (walk_entries es d c) h.0
        (([], sym (append-nil (c ++ n ∷ []))), tt) (walk_entries-Under es d c) (tt, tt)
        (walk_entries-apart es d c h.1)
  walk_entries-apart (other n es) d c h = walk_entries-apart es d c h

-- Where the entries of each local directory have different names, no two files are copied to one path,
-- a file for a directory's own path included, and each goes to the path that was given or below it.
pub crawl_local-HasApartTargets :
    (f : Folder) (local_dir cask_dir : List Text)
    → IsTree f
    → HasApartTargets (crawl_local f local_dir cask_dir).files
      × All (Below cask_dir) (crawl_local f local_dir cask_dir).files
unfolding crawl_local
crawl_local-HasApartTargets f d c h = (walk-apart f d c h, walk-Below f d c)
