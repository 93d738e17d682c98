-- ===== src/Files/Moving.antt =====
-- src/index.js: `copyFile` with the option `move`.
use caskfs.Base.{◌≡◌, refl, ap, ◌∙◌, true, false, inl, inr, Option-cases}
use caskfs.Base.{none, some, arith, nat_eq, list_eq, subst, [], ◌∷◌, ◌++◌}
use caskfs.Base.Dict.{lookup}
use caskfs.Base.Text.{Text}
use caskfs.Base.Exec.{ok}
use caskfs.Paths.{path_of}
use caskfs.Cas.{Bytes, disk_path}
use caskfs.Cas.Staging.{from_hash}
use caskfs.Acl.Db.{Permission}
use caskfs.Acl.Checks.{check_permissions, acl_lookup_required}
use caskfs.Files.Repo.{Row, Repo, Host, Request, can_access}
use caskfs.Files.Rows.{file_at}
use caskfs.Files.Write.{Actions, Written, write}
use caskfs.Files.Copy.{Deleted, CopyOptions, copy_request, plain_request, copy_file, delete_file}
use caskfs.Files.Changes.{IsSound, SameFile}
use caskfs.Files.Saving.{metadata_free}
use caskfs.Files.Contents.{contents, content, IsFilled, MayAccess, checked, same_or_not}
use caskfs.Files.Contents.{IsWritable, IsUpdated, stored_bytes, Succeeds, write_succeeds}
use caskfs.Files.Contents.{file_at-SameFile}
use caskfs.Files.Writing.{IsOpen}
use caskfs.Files.Removing.{Deletes, delete_file-IsRemoved}

contents-some :
    (host : Host) (r : Repo) (p : Text) (c : Bytes)
    → contents host r p ≡ some c
    → (row : Row) × (file_at r p ≡ some row)
unfolding contents
contents-some host r p c e = elim (Option-cases (file_at r p)) [
  | inl missing ↦ absurd (ground (arith, missing, e))
  | inr there ↦ there
]

contents_at :
    (host : Host) (r : Repo) (p : Text) (row : Row)
    → file_at r p ≡ some row
    → contents host r p ≡ lookup (disk_path host.env row.hash) r.disk
unfolding contents
contents_at host r p row e = ap (content host r) e

contents-SameFile :
    (host : Host) (r : Repo) (p q : Text) → SameFile p q → contents host r p ≡ contents host r q
unfolding contents
contents-SameFile host r p q same = ap (content host r) (file_at-SameFile r p q same)

-- With the access control off, every check passes.
pub access_off :
    (host : Host) (p : Permission) (q : Request) (r : Repo)
    → host.config.enabled ≡ false
    → MayAccess host p q r
unfolding can_access check_permissions acl_lookup_required
access_off host p q r off = ground (arith, off)

abbrev pub deletion : CopyOptions → Request → Request
deletion opts q = record (plain_request q.file_path q.requestor) { soft_delete = opts.soft_delete }

module _ (host : Host) (q : Request) (opts : CopyOptions) (row : Row) (b : Bytes) (r : Repo)
    (off : host.config.enabled ≡ false) (there : file_at r q.file_path ≡ some row)
    (c : IsWritable host (copy_request opts row q.requestor) (from_hash row.hash) b r)
    (way : IsOpen host (checked (copy_request opts row q.requestor)) b r) where
  abbrev copied : Succeeds host (copy_request opts row q.requestor) b r
  copied = write_succeeds host (copy_request opts row q.requestor) (from_hash row.hash) b r c way

  dest_named : opts.dest_path ≡ path_of (c.named.parts ++ c.named.name ∷ [])
  unfolding copy_request
  dest_named = c.named.path

  dest-IsUpdated : IsUpdated host opts.dest_path (stored_bytes host b r) r copied.after
  unfolding copy_request
  dest-IsUpdated = copied.update

  -- The source is still there after the copy.
  still_there : (f : Row) × (file_at copied.after q.file_path ≡ some f)
  still_there = elim (same_or_not q.file_path opts.dest_path) [
    | inl same ↦
        contents-some host copied.after q.file_path (stored_bytes host b r) (
          contents-SameFile host copied.after q.file_path opts.dest_path same ∙ dest-IsUpdated.here)
    | inr other ↦ contents-some host copied.after q.file_path (c.filled q.file_path row there).1.0 (
        dest-IsUpdated.others q.file_path other
        ∙ contents_at host r q.file_path row there
        ∙ (c.filled q.file_path row there).1.1)
  ]

  moved :
      (a : Actions) (r1 : Repo)
      → write host (copy_request opts row q.requestor) r
        ≡ (ok (record { error = none; actions = a }), r1)
      → (done : Deleted) (r2 : Repo) → delete_file host (deletion opts q) r1 ≡ (ok done, r2)
      → opts.move ≡ true
      → copy_file host q opts r ≡ (ok (record { error = none; actions = a }), r2)
  unfolding copy_file
  moved a r1 written done r2 deleted move = ground (
    arith,
    access_off host Permission.read q r off,
    metadata_free host (checked q) r row refl there,
    dest_named,
    written,
    deleted,
    move,
  )

  -- The access control is off, the source has a file, and a write of its content to the destination is
  -- possible, its partition keys included. Then a move succeeds, and after it the source has no file.
  -- Every path that is neither the source nor the destination holds what it held. The destination holds
  -- the content of the source, unless it is the source itself: a file that is moved onto itself is deleted.
  pub copy_file-IsMoved :
      opts.move ≡ true
      → (w : Written) × (r' : Repo) × (copy_file host q opts r ≡ (ok w, r'))
        × (file_at r' q.file_path ≡ none)
        × ((p : Text)
            → ¬ SameFile p q.file_path
            → ¬ SameFile p opts.dest_path
            → contents host r' p ≡ contents host r p)
        × (¬ SameFile opts.dest_path q.file_path
            → contents host r' opts.dest_path ≡ some (stored_bytes host b r))
        × IsFilled host r'
        × IsSound r'
  copy_file-IsMoved move =
      let s = copied in
      let (f, found) = still_there in
      let gone =
        delete_file-IsRemoved host (deletion opts q) s.after
          (access_off host Permission.write (deletion opts q) s.after off) c.ready.lawful s.sound
          s.filled in
      let (done, r', run, file, removed) =
        subst (Deletes host (deletion opts q) s.after) found gone in
      (
        record { error = none; actions = s.done },
        r',
        moved s.done s.after s.run done r' run move,
        removed.here,
        λ p n m. removed.others p n ∙ dest-IsUpdated.others p m,
        λ n. removed.others opts.dest_path n ∙ dest-IsUpdated.here,
        removed.filled,
        removed.sound,
      )
