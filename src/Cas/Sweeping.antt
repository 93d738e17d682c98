-- ===== src/Cas/Sweeping.antt =====
-- src/lib/cas.js, deleteUnusedHashes: the sweep over the hashes that no file uses.
use caskfs.Base.{ℕ, zero, suc, ◌≡◌, ◌≢◌, refl, sym, subst, ◌∙◌, ap, Bool, true, false, not, arith}
use caskfs.Base.{none, ◌==◌, ◌=?◌, inl, inr, nat_eq, list_eq, if◌then◌else◌}
use caskfs.Base.{List, [], ◌∷◌, All, keep, take, contains}
use caskfs.Base.Dict.{lookup}
use caskfs.Base.Exec.{ok}
use caskfs.Base.Text.{Text}
use caskfs.Cas.Disk.{FileRow, Store}
use caskfs.Cas.Ops.{Env, disk_path, quad_path, count_rows, delete, delete_each}
use caskfs.Cas.Ops.{unused, delete_unused_hashes}
use caskfs.Cas.Layout.{IsDigest, IsLawful}
use caskfs.Cas.Deleting.{IsBacked, IsBackedRow, delete_lem, after_delete, delete-IsBacked}
use caskfs.Cas.Deleting.{count_rows-cons, row_counts, All-keep}

-- Neither a row, nor a file, nor a quad file.
abbrev pub IsGone : Env → Store → Text → Type 0
IsGone env s h =
    (contains s.hashes h ≡ false)
    × (lookup (disk_path env h) s.disk ≡ none)
    × (lookup (quad_path env h) s.disk ≡ none)

contains-keep_absent :
    (p : Text → Bool) (h : Text) (hs : List Text)
    → contains hs h ≡ false
    → contains (keep p hs) h ≡ false
contains-keep_absent p h [] c = refl
contains-keep_absent p h (k ∷ hs) c = ground (arith, contains-keep_absent p h hs, c)

module _ (env : Env) (s : Store) where
  -- A hash without a row is removed for good.
  delete-IsGone : (h : Text) → contains s.hashes h ≡ false → IsGone env (delete env h false s).1 h
  unfolding after_delete nat_eq
  delete-IsGone h c =
      let (r, view, hashes, files) = delete_lem env h false s in
      (
        rw hashes (ground (arith, contains-keep_absent (λ k. not (k == h)) h s.hashes c)),
        ground (arith, view (disk_path env h), c),
        ground (arith, view (quad_path env h), c),
      )

  -- What has no row gets none.
  absent-delete :
      (h k : Text)
      → contains s.hashes h ≡ false
      → contains (delete env k false s).1.hashes h ≡ false
  absent-delete h k c =
      let (r, view, hashes, files) = delete_lem env k false s in
      rw hashes (ground (arith, contains-keep_absent (λ j. not (j == k)) h s.hashes c, c))

  IsGone-delete : (h k : Text) → IsGone env s h → IsGone env (delete env k false s).1 h
  unfolding after_delete
  IsGone-delete h k g =
      let (r, view, hashes, files) = delete_lem env k false s in
      (
        absent-delete h k g.0,
        ground (arith, view (disk_path env h), g),
        ground (arith, view (quad_path env h), g),
      )

-- The deletion of hashes without rows succeeds and removes them all.
module _ (env : Env) where
  delete_each-ok : (hs : List Text) (s : Store) → (delete_each env hs s).0 ≡ ok tt
  unfolding delete_each
  delete_each-ok [] s = refl
  delete_each-ok (h ∷ hs) s =
      rw (delete_lem env h false s).0 (delete_each-ok hs (delete env h false s).1)

  delete_each-cons :
      (h : Text) (hs : List Text) (s : Store)
      → (delete_each env (h ∷ hs) s).1 ≡ (delete_each env hs (delete env h false s).1).1
  unfolding delete_each
  delete_each-cons h hs s = rw (delete_lem env h false s).0

  IsGone-delete_each :
      (h : Text) (ks : List Text) (s : Store)
      → IsGone env s h
      → IsGone env (delete_each env ks s).1 h
  IsGone-delete_each h [] s g = unfold delete_each in g
  IsGone-delete_each h (k ∷ ks) s g =
      rw delete_each-cons
        (IsGone-delete_each h ks (delete env k false s).1 (IsGone-delete env s h k g))

  absent-delete_list :
      (h : Text) (ks : List Text) (s : Store)
      → All (λ k. contains s.hashes k ≡ false) ks
      → All (λ k. contains (delete env h false s).1.hashes k ≡ false) ks
  absent-delete_list h [] s a = tt
  absent-delete_list h (k ∷ ks) s a = (absent-delete env s k h a.0, absent-delete_list h ks s a.1)

  delete_each-IsGone :
      (hs : List Text) (s : Store)
      → All (λ k. contains s.hashes k ≡ false) hs
      → All (IsGone env (delete_each env hs s).1) hs
  delete_each-IsGone [] s a = tt
  delete_each-IsGone (h ∷ hs) s a =
      let t = (delete env h false s).1 in
      subst (λ r. All (IsGone env r) (h ∷ hs)) (sym (delete_each-cons h hs s))
        (
          IsGone-delete_each h hs t (delete-IsGone env s h a.0),
          delete_each-IsGone hs t (absent-delete_list h hs s a.1),
        )

  delete_each-IsBacked :
      (w : IsLawful env) (hs : List Text) (s : Store)
      → All IsDigest hs
      → IsBacked env s
      → IsBacked env (delete_each env hs s).1
  delete_each-IsBacked w [] s d b = unfold delete_each in b
  delete_each-IsBacked w (h ∷ hs) s d b =
      rw delete_each-cons
        (delete_each-IsBacked w hs (delete env h false s).1 d.1 (delete-IsBacked w h false s d.0 b))

All-take {κ} : (P : Text → Type κ) (n : ℕ) (hs : List Text) → All P hs → All P (take n hs)
All-take P zero hs a = tt
All-take P (suc n) [] a = tt
All-take P (suc n) (h ∷ hs) a = (a.0, All-take P n hs a.1)

unused-count :
    (fs : List FileRow) (hs : List Text)
    → All (λ h. count_rows h fs ≡ 0) (keep (λ h. count_rows h fs == 0) hs)
unused-count fs [] = tt
unused-count fs (h ∷ hs) = ground (arith, unused-count fs hs)

-- A row is not in a batch of hashes that no row names.
row_not_in :
    (f : FileRow) (fs : List FileRow) (batch : List Text)
    → All (λ h. count_rows h (f ∷ fs) ≡ 0) batch
    → contains batch f.hash ≡ false
row_not_in f fs [] a = refl
row_not_in f fs (h ∷ hs) a =
    let other : f.hash ≢ h = λ e. absurd (omega (arith, row_counts h f fs e, a.0)) in
    ground (arith, other, row_not_in f fs hs a.1)

contains-keep_batch :
    (batch : List Text) (h : Text) (hs : List Text)
    → contains (keep (λ k. not (contains batch k)) hs) h
      ≡ (if contains batch h then false else contains hs h)
contains-keep_batch batch h [] = ground arith
contains-keep_batch batch h (k ∷ hs) = elim (h =? k) [
  | inl e ↦ ground (arith, contains-keep_batch batch h hs, e, ap (contains batch) e)
  | inr n ↦ ground (arith, contains-keep_batch batch h hs, n)
]

batch_absent :
    (batch hs ks : List Text)
    → ((k : Text) → contains ks k ≡ true → contains batch k ≡ true)
    → All (λ k. contains (keep (λ j. not (contains batch j)) hs) k ≡ false) ks
batch_absent batch hs [] h = tt
batch_absent batch hs (k ∷ ks) h = (
  rw (contains-keep_batch batch k hs) (ground (arith, h k)),
  batch_absent batch hs ks (λ j c. h j (ground (arith, c))),
)

module _ {env : Env} (w : IsLawful env) (limit : ℕ) (s : Store) (b : IsBacked env s) where
  abbrev pub batch : List Text
  batch = take (if limit == 0 then 100 else limit) (unused s)

  abbrev started : Store
  started = record s { hashes = keep (λ h. not (contains batch h)) s.hashes }

  rows_started :
      (fs : List FileRow)
      → All (IsBackedRow env s) fs
      → All (λ h. count_rows h fs ≡ 0) batch
      → All (IsBackedRow env started) fs
  rows_started [] a z = tt
  rows_started (f ∷ fs) a z = (
    (a.0.0, contains-keep_batch batch f.hash s.hashes ∙ rw (row_not_in f fs batch z) a.0.1, a.0.2),
    rows_started fs a.1 (fewer batch z),
  )
    where
      fewer :
          (ks : List Text)
          → All (λ h. count_rows h (f ∷ fs) ≡ 0) ks
          → All (λ h. count_rows h fs ≡ 0) ks
      fewer [] y = tt
      fewer (k ∷ ks) y = (omega (arith, count_rows-cons k f fs, y.0), fewer ks y.1)

  started-IsBacked : IsBacked env started
  started-IsBacked = record {
    digests = All-keep (λ h. not (contains batch h)) s.hashes b.digests;
    rows =
        rows_started s.files b.rows (
          All-take _ (if limit == 0 then 100 else limit) (unused s)
            (unused-count s.files s.hashes));
  }

  batch-IsDigest : All IsDigest batch
  batch-IsDigest =
      All-take IsDigest (if limit == 0 then 100 else limit) (unused s)
        (All-keep (λ h. count_rows h s.files == 0) s.hashes b.digests)

  -- A sweep with no list takes up to `limit` of the hashes that no file uses, 100 if the limit is 0,
  -- succeeds, and returns them. Each of them then has neither a row nor a file nor a quad file, and
  -- every file of the table keeps its content.
  pub sweep_lem :
      ((delete_unused_hashes env [] limit s).0 ≡ ok batch)
      × All (IsGone env (delete_unused_hashes env [] limit s).1) batch
      × IsBacked env (delete_unused_hashes env [] limit s).1
  unfolding delete_unused_hashes
  sweep_lem = rw (delete_each-ok env batch started) (
    refl,
    delete_each-IsGone env batch started (batch_absent batch s.hashes batch (λ k c. c)),
    delete_each-IsBacked env w batch started batch-IsDigest started-IsBacked,
  )
