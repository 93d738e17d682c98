-- ===== src/Cas/Deleting.antt =====
-- src/lib/cas.js: deleting a hash, and the hashes that no file uses.
use caskfs.Base.{
  ℕ, zero, suc, ◌≤◌, ◌≡◌, ◌≢◌, refl, ◌∙◌, ap, Bool, true, false, not, ◌&&◌, ◌||◌, arith,
}
use caskfs.Base.{Option, none, is_some, ◌==◌, inl, inr, nat_eq, list_eq, if◌then◌else◌}
use caskfs.Base.{Bool-cases, List, [], ◌∷◌, All, keep, contains}
use caskfs.Base.Dict.{Dict, lookup, erase, lookup-erase}
use caskfs.Base.Exec.{ok}
use caskfs.Base.Text.{Text}
use caskfs.Cas.Disk.{Bytes, FileRow, Store}
use caskfs.Cas.Ops.{
  Env, Deletion, disk_path, quad_path, count_rows, references, delete, delete_counted,
}
use caskfs.Cas.Layout.{IsDigest, IsLawful, disk_path_injective, quad_path-ne-disk_path}

-- Whether `delete` removes the hash.
abbrev pub removes : Text → Bool → Store → Bool
removes h soft s = not soft && references h s == 0

abbrev pub report : Text → Bool → Store → Deletion
report h soft s = record {
  file_deleted = removes h soft s;
  soft_delete = soft;
  references_remaining = references h s;
}

-- The disk after a deletion, path by path.
unfoldable pub after_delete : Env → Text → Bool → Store → Text → Option (List ℕ)
after_delete env h soft s p =
    if removes h soft s && (p == disk_path env h || p == quad_path env h)
    then none
    else lookup p s.disk

module _ (env : Env) (h : Text) (s : Store) where
  abbrev hard : Store
  hard = (delete_counted env 0 h false s).1

  abbrev without_file : Dict Text Bytes
  without_file = erase (disk_path env h) s.disk

  lookup-hard :
      (p : Text)
      → lookup p hard.disk
        ≡ (if p == disk_path env h || p == quad_path env h then none else lookup p s.disk)
  lookup-hard p = ground (
    arith,
    lookup-erase (quad_path env h) (disk_path env h) s.disk,
    lookup-erase p (disk_path env h) s.disk,
    lookup-erase p (quad_path env h) without_file,
    lookup-erase p (quad_path env h) s.disk,
  )

  rest-hard :
      ((delete_counted env 0 h false s).0
        ≡ ok (record { file_deleted = true; soft_delete = false; references_remaining = 0 }))
      × (hard.hashes ≡ keep (λ k. not (k == h)) s.hashes)
      × (hard.files ≡ s.files)
  rest-hard = ground (arith, lookup-erase (quad_path env h) (disk_path env h) s.disk)

-- The whole effect of `delete`, with the count of references given.
abbrev Deletes : Env → Text → Bool → Store → ℕ → Type 0
Deletes env h soft s n =
    let r = delete_counted env n h soft s in
    let gone = not soft && n == 0 in
    (r.0 ≡ ok (record { file_deleted = gone; soft_delete = soft; references_remaining = n }))
    × ((p : Text)
        → lookup p r.1.disk ≡ (
            if gone && (p == disk_path env h || p == quad_path env h)
            then none
            else lookup p s.disk))
    × (r.1.hashes ≡ (if gone then keep (λ k. not (k == h)) s.hashes else s.hashes))
    × (r.1.files ≡ s.files)

counted : (env : Env) (h : Text) (soft : Bool) (s : Store) (n : ℕ) → Deletes env h soft s n
unfolding nat_eq
counted env h true s n = (refl, λ p. refl, refl, refl)
counted env h false s zero = let (a, b, c) = rest-hard env h s in (a, lookup-hard env h s, b, c)
counted env h false s (suc n) = (ground arith, λ p. ground arith, ground arith, ground arith)

-- A deletion always succeeds. It removes the hash exactly if it is not soft and no file refers to the
-- hash: then the hash file, its quad file and the row of the hash are gone. Nothing else changes.
pub delete_lem :
    (env : Env) (h : Text) (soft : Bool) (s : Store)
    → ((delete env h soft s).0 ≡ ok (report h soft s))
      × ((p : Text) → lookup p (delete env h soft s).1.disk ≡ after_delete env h soft s p)
      × ((delete env h soft s).1.hashes
          ≡ (if removes h soft s then keep (λ k. not (k == h)) s.hashes else s.hashes))
      × ((delete env h soft s).1.files ≡ s.files)
unfolding delete after_delete
delete_lem env h soft s = counted env h soft s (references h s)

-- Every row of the table `file` has its hash in the table `hash` and its content on the disk.
abbrev pub IsBackedRow : Env → Store → FileRow → Type 0
IsBackedRow env s f =
    IsDigest f.hash
    × (contains s.hashes f.hash ≡ true)
    × (is_some (lookup (disk_path env f.hash) s.disk) ≡ true)

pub record IsBacked (env : Env) (s : Store) : Type 0 where
  pub digests : All IsDigest s.hashes
  pub rows : All (IsBackedRow env s) s.files

pub All-keep : (p : Text → Bool) (hs : List Text) → All IsDigest hs → All IsDigest (keep p hs)
All-keep p [] a = tt
All-keep p (h ∷ hs) a = ground (arith, All-keep p hs a.1, a.0)

pub contains-keep_ne :
    (h k : Text) (hs : List Text) → h ≢ k → contains (keep (λ j. not (j == k)) hs) h ≡ contains hs h
contains-keep_ne h k [] n = refl
contains-keep_ne h k (j ∷ hs) n = ground (arith, contains-keep_ne h k hs n, n)

-- A row that names `h` counts.
pub row_counts :
    (h : Text) (f : FileRow) (fs : List FileRow) → f.hash ≡ h → 1 ≤ count_rows h (f ∷ fs)
row_counts h f fs e = ground (arith, e)

pub count_rows-cons :
    (h : Text) (f : FileRow) (fs : List FileRow) → count_rows h fs ≤ count_rows h (f ∷ fs)
count_rows-cons h f fs = ground arith

module _ {env : Env} (w : IsLawful env) (h : Text) (d : IsDigest h) (s : Store) where
  -- What a removal of an unused hash leaves of the other rows.
  abbrev Removed : Store → Type 0
  Removed t =
      ((p : Text)
        → lookup p t.disk
          ≡ (if p == disk_path env h || p == quad_path env h then none else lookup p s.disk))
      × (t.hashes ≡ keep (λ k. not (k == h)) s.hashes)
      × (t.files ≡ s.files)

  rows_after :
      (t : Store) (fs : List FileRow)
      → Removed t
      → count_rows h fs ≡ 0
      → All (IsBackedRow env s) fs
      → All (IsBackedRow env t) fs
  rows_after t [] r z a = tt
  rows_after t (f ∷ fs) r z a =
      let other : f.hash ≢ h = λ e. absurd (omega (arith, row_counts h f fs e, z)) in
      let there : is_some (lookup (disk_path env f.hash) t.disk) ≡ true = ground (
        arith,
        r.0 (disk_path env f.hash),
        a.0,
        other,
        disk_path_injective w f.hash h a.0.0 d,
        quad_path-ne-disk_path w h f.hash d a.0.0,
      ) in
      (
        (a.0.0, rw r.1 (contains-keep_ne f.hash h s.hashes other ∙ a.0.1), there),
        rows_after t fs r (omega (arith, count_rows-cons h f fs, z)) a.1,
      )

-- A hash that the table `hash` lacks is in no row.
count_rows-absent :
    (env : Env) (s : Store) (h : Text) (fs : List FileRow)
    → All (IsBackedRow env s) fs
    → contains s.hashes h ≡ false
    → count_rows h fs ≡ 0
count_rows-absent env s h [] a c = refl
count_rows-absent env s h (f ∷ fs) a c =
    let other : f.hash ≢ h = λ e. cc (a.0.1, ap (contains s.hashes) e, c) in
    ground (arith, count_rows-absent env s h fs a.1 c, other)

removes_unused :
    (env : Env) (h : Text) (s : Store)
    → IsBacked env s
    → references h s ≡ 0
    → count_rows h s.files ≡ 0
removes_unused env h s b r = elim (Bool-cases (contains s.hashes h)) [
  | inl c ↦ ground (arith, c, r)
  | inr c ↦ count_rows-absent env s h s.files b.rows c
]

-- A deletion, soft or not, of a hash that is used or not, leaves every file with its content.
pub delete-IsBacked :
    {env : Env} (w : IsLawful env) (h : Text) (soft : Bool) (s : Store)
    → IsDigest h
    → IsBacked env s
    → IsBacked env (delete env h soft s).1
unfolding delete
delete-IsBacked {env} w h true s d b = b
delete-IsBacked {env} w h false s d b = go (references h s) refl
  where
    go : (n : ℕ) → references h s ≡ n → IsBacked env (delete_counted env n h false s).1
    go zero e =
        let t = (delete_counted env 0 h false s).1 in
        let (r, hashes, files) = rest-hard env h s in
        record {
          digests = rw hashes (All-keep (λ k. not (k == h)) s.hashes b.digests);
          rows = rw files (
              rows_after w h d s t s.files (lookup-hard env h s, hashes, files)
                (removes_unused env h s b e) b.rows);
        }
    go (suc n) e = b
