-- ===== src/Files/Removing.antt =====
-- src/index.js: `deleteFile` as the removal of a path from the map of contents.
use caskfs.Base.{ℕ, ◌≤◌, ◌≡◌, refl, sym, subst, ap, ◌∙◌, Bool, true, false}
use caskfs.Base.{inl, inr, ◌=?◌, Option-cases, contains}
use caskfs.Base.{Option, none, some, arith, nat_eq, list_eq, pair_eq, [], ◌∷◌}
use mathlib.Core.Option.{none-ne-some}
use caskfs.Base.Dict.{lookup, erase, lookup-erase}
use caskfs.Base.Text.{Text}
use caskfs.Base.Exec.{ok, err}
use caskfs.Paths.{basename, parse_dir}
use caskfs.Cas.{Store, Deletion, disk_path, quad_path}
use caskfs.Cas
use caskfs.Cas.Ops.{count_rows, references}
use caskfs.Cas.Layout.{IsDigest, IsLawful, disk_path_injective, quad_path-ne-disk_path}
use caskfs.Cas.Deleting.{removes, after_delete, delete_lem, contains-keep_ne}
use caskfs.Acl.Db.{Permission}
use caskfs.Acl.Checks.{find_directory}
use caskfs.Files.Repo.{
  missing_file, Row, Rows, Repo, Host, Request, file_rows, store_of, with_store,
}
use caskfs.Files.Rows.{file_at, key_of, drop_file}
use caskfs.Files.Copy.{Deleted, delete_body, delete_file}
use caskfs.Files.Changes.{IsSound, SameFile, directory_of, row_at_key, same_key}
use caskfs.Files.Saving.{metadata_free, metadata_missing}
use caskfs.Files.Contents.{contents, IsFilled, MayAccess, checked, same_or_not, file_at-SameFile}

-- A row that has the hash counts.
counted :
    (h : Text) (rows : Rows) (k : ℕ × Text) (f : Row)
    → lookup k rows ≡ some f
    → f.hash ≡ h
    → 1 ≤ count_rows h (file_rows rows)
unfolding lookup
counted h [] k f e same = absurd (none-ne-some f e)
counted h (x ∷ rows) k f e same = ground (arith, e, same, counted h rows k f)

module _ (r : Repo) (s : IsSound r) (p : Text) (d : ℕ)
    (dir : find_directory r.acl.db (parse_dir p) ≡ some d) where
  abbrev pub dropped : Repo
  dropped = record r { rows = erase (d, basename p) r.rows }

  pub drop_file-row : drop_file p r ≡ (ok tt, dropped)
  unfolding drop_file key_of
  drop_file-row = ground (arith, dir)

  -- A row that is still there was there.
  lookup-dropped :
      (k : ℕ × Text) (f : Row) → lookup k dropped.rows ≡ some f → lookup k r.rows ≡ some f
  lookup-dropped k f e = elim (same_key k (d, basename p)) [
    | inl same ↦ absurd (ground (arith, same, e, lookup-erase k (d, basename p) r.rows))
    | inr apart ↦ ground (arith, apart, e, lookup-erase k (d, basename p) r.rows)
  ]

  pub dropped_gone : file_at dropped p ≡ none
  unfolding file_at key_of
  dropped_gone = ground (arith, dir, lookup-erase (d, basename p) (d, basename p) r.rows)

  pub dropped_others : (q : Text) → ¬ SameFile q p → file_at dropped q ≡ file_at r q
  unfolding file_at key_of
  dropped_others q other = elim (Option-cases (find_directory r.acl.db (parse_dir q))) [
    | inl missing ↦ ground (arith, missing)
    | inr (e, there) ↦ elim (same_key (e, basename q) (d, basename p)) [
      | inl same ↦ absurd (
          other (
            s.tree.injective (parse_dir q) (parse_dir p) d (there ∙ ap (λ k. some (k.0)) same) dir,
            ap (λ k. k.1) same,
          ))
      | inr apart ↦
          ground (arith, there, apart, lookup-erase (e, basename q) (d, basename p) r.rows)
    ]
  ]

  pub dropped-IsSound : IsSound dropped
  dropped-IsSound = record {
    tree = s.tree;
    placed = λ e name f h. s.placed e name f (lookup-dropped (e, name) f h);
    listed = λ k f h. s.listed k f (lookup-dropped k f h);
  }

-- What deleting a hash leaves, when no row is taken away with it.
module _ (host : Host) (w : IsLawful host.env) (r : Repo) (s : IsSound r) (h : Text)
    (d : IsDigest h) (soft : Bool) where
  abbrev gone : Bool
  gone = removes h soft (store_of r)

  abbrev pub swept : Repo
  swept = with_store (Cas.delete host.env h soft (store_of r)).1 r

  -- A hash that a row has is not removed.
  used : (k : ℕ × Text) (f : Row) → lookup k r.rows ≡ some f → f.hash ≡ h → gone ≡ false
  used k f e same =
      let listed = sym (ap (contains r.hashes) same) ∙ s.listed k f e in
      let many = counted h r.rows k f e same in ground (arith, listed, many)

  swept_listed :
      (k : ℕ × Text) (f : Row) → lookup k r.rows ≡ some f → contains swept.hashes f.hash ≡ true
  swept_listed k f e =
      let left = (delete_lem host.env h soft (store_of r)).2 in
      elim (f.hash =? h) [
        | inl same ↦ ground (arith, left, used k f e same, s.listed k f e)
        | inr other ↦ ground (arith, left, contains-keep_ne f.hash h r.hashes other, s.listed k f e)
      ]

  pub swept-IsSound : IsSound swept
  swept-IsSound = record { tree = s.tree; placed = s.placed; listed = swept_listed }

  pub swept_kept :
      (k : ℕ × Text) (f : Row)
      → lookup k r.rows ≡ some f
      → IsDigest f.hash
      → lookup (disk_path host.env f.hash) swept.disk ≡ lookup (disk_path host.env f.hash) r.disk
  unfolding after_delete
  swept_kept k f e digest =
      let view = (delete_lem host.env h soft (store_of r)).1 (disk_path host.env f.hash) in
      elim (f.hash =? h) [
        | inl same ↦ ground (arith, view, used k f e same)
        | inr other ↦ ground (
          arith,
          view,
          other,
          disk_path_injective w f.hash h digest d,
          quad_path-ne-disk_path w h f.hash d digest,
        )
      ]

  pub file_at-swept : (p : Text) → file_at swept p ≡ file_at r p
  unfolding file_at key_of
  file_at-swept p = refl

  pub swept_kept_at :
      (p : Text) (f : Row)
      → file_at r p ≡ some f
      → IsDigest f.hash
      → lookup (disk_path host.env f.hash) swept.disk ≡ lookup (disk_path host.env f.hash) r.disk
  swept_kept_at p f there digest =
      let (e, dir) = directory_of r p f there in
      swept_kept (e, basename p) f (row_at_key r p e dir ∙ there) digest

-- The path is gone, every other path holds what it held, and what is left is in order.
pub record IsRemoved (host : Host) (p : Text) (r r' : Repo) : Type 0 where
  pub here : file_at r' p ≡ none
  pub others : (q : Text) → ¬ SameFile q p → contents host r' q ≡ contents host r q
  pub filled : IsFilled host r'
  pub sound : IsSound r'

-- What a deletion does on a path with no file and on one with a file.
abbrev pub Deletes : Host → Request → Repo → Option Row → Type 0
Deletes host q r none = delete_file host q r ≡ (err (missing_file q.file_path), r)
Deletes host q r (some row) =
    (done : Deleted) × (r' : Repo) × (delete_file host q r ≡ (ok done, r'))
    × (done.file ≡ row)
    × IsRemoved host q.file_path r r'

module _ (host : Host) (q : Request) (r : Repo) (may : MayAccess host Permission.write q r)
    (w : IsLawful host.env) (s : IsSound r) (filled : IsFilled host r) where
  delete_missing : file_at r q.file_path ≡ none → Deletes host q r none
  unfolding delete_file delete_body
  delete_missing missing = ground (arith, may, metadata_missing host (checked q) r refl missing)

  module _ (row : Row) (there : file_at r q.file_path ≡ some row) where
    abbrev found : (d : ℕ) × (find_directory r.acl.db (parse_dir q.file_path) ≡ some d)
    found = directory_of r q.file_path row there

    abbrev mid : Repo
    mid = dropped r s q.file_path found.0 found.1

    mid-IsSound : IsSound mid
    mid-IsSound = dropped-IsSound r s q.file_path found.0 found.1

    abbrev digest : IsDigest row.hash
    digest = (filled q.file_path row there).0

    abbrev end : Repo
    end = swept host w mid mid-IsSound row.hash digest q.soft_delete

    abbrev done : Deleted
    done = record {
      file = row;
      file_deleted = removes row.hash q.soft_delete (store_of mid);
      references_remaining = references row.hash (store_of mid);
    }

    run_delete : delete_file host q r ≡ (ok done, end)
    unfolding delete_file delete_body
    run_delete = ground (
      arith,
      may,
      metadata_free host (checked q) r row refl there,
      drop_file-row r s q.file_path found.0 found.1,
      (delete_lem host.env row.hash q.soft_delete (store_of mid)).0,
    )

    end_gone : file_at end q.file_path ≡ none
    end_gone =
        file_at-swept host w mid mid-IsSound row.hash digest q.soft_delete q.file_path
        ∙ dropped_gone r s q.file_path found.0 found.1

    end_others : (p : Text) → ¬ SameFile p q.file_path → file_at end p ≡ file_at r p
    end_others p n =
        file_at-swept host w mid mid-IsSound row.hash digest q.soft_delete p
        ∙ dropped_others r s q.file_path found.0 found.1 p n

    end_kept :
        (p : Text) (f : Row)
        → ¬ SameFile p q.file_path
        → file_at r p ≡ some f
        → lookup (disk_path host.env f.hash) end.disk ≡ lookup (disk_path host.env f.hash) r.disk
    end_kept p f n e =
        swept_kept_at host w mid mid-IsSound row.hash digest q.soft_delete p f
          (dropped_others r s q.file_path found.0 found.1 p n ∙ e) (filled p f e).0

    contents-end : (p : Text) → ¬ SameFile p q.file_path → contents host end p ≡ contents host r p
    unfolding contents
    contents-end p n = elim (Option-cases (file_at r p)) [
      | inl missing ↦ ground (arith, end_others p n, missing)
      | inr (f, e) ↦ ground (arith, end_others p n, e, end_kept p f n e)
    ]

    end-IsFilled : IsFilled host end
    end-IsFilled p f e = elim (same_or_not p q.file_path) [
      | inl same ↦
          absurd (none-ne-some f (sym end_gone ∙ sym (file_at-SameFile end p q.file_path same) ∙ e))
      | inr other ↦
          let before = sym (end_others p other) ∙ e in
          let (d, stored) = filled p f before in
          (d, (stored.0, end_kept p f other before ∙ stored.1))
    ]

    delete_there : Deletes host q r (some row)
    delete_there = (
      done,
      end,
      run_delete,
      refl,
      record {
        here = end_gone;
        others = contents-end;
        filled = end-IsFilled;
        sound = swept-IsSound host w mid mid-IsSound row.hash digest q.soft_delete;
      },
    )

  -- Deleting a path whose file is missing fails and changes nothing; otherwise it succeeds, the path is
  -- gone, every other path holds what it held, and every file that is left has its content. The
  -- requestor may write.
  pub delete_file-IsRemoved : Deletes host q r (file_at r q.file_path)
  delete_file-IsRemoved = elim (Option-cases (file_at r q.file_path)) [
    | inl missing ↦ subst (Deletes host q r) (sym missing) (delete_missing missing)
    | inr (row, there) ↦ subst (Deletes host q r) (sym there) (delete_there row there)
  ]
