-- ===== src/Files/Saving.antt =====
-- src/index.js: what `write` leaves in the tables, step by step.
use caskfs.Base.{
  All, length, List, ◌≤◌, ℕ, suc, ◌≡◌, refl, sym, subst, arith, nat_eq, list_eq, true, false,
}
use caskfs.Base.{Option, none, some, Bool-cases, inl, inr}
use caskfs.Base.Text.{Text}
use caskfs.Base.Exec.{ok, err}
use caskfs.Paths.{parse_dir, basename}
use caskfs.Cas.{Bytes}
use caskfs.Acl.Db.{Permission}
use caskfs.Acl.State.{Config}
use caskfs.Acl.Checks.{find_directory, check_permissions, acl_lookup_required}
use caskfs.Metadata.{Metadata, Patch, is_unchanged, apply_git_patch}
use caskfs.Metadata.{KeyTables, Fits, new_keys, set_partition_keys, set_partition_keys-some}
use caskfs.Files.Repo.{missing_file, Row, Repo, Host, Request, can_access}
use caskfs.Files.Rows.{file_at, change_file, metadata, add_hash}
use caskfs.Files.Write.{Actions, file_meta, with_keys, set_keys, content_of}
use caskfs.Files.Write.{insert_new, patch_file, patch_same, parse, insert_linked_data}
use caskfs.Files.Changes.{IsSound, IsChanged, Changed-trans, stored, stored-IsChanged, new_row}
use caskfs.Files.Changes.{add_hash_grown, add_hash_has, rekeyed-IsChanged, keys-change_file}
use caskfs.Files.Changes.{insert_file-new, change_file-IsChanged}

-- A request that was checked is not checked again.
pub access_free :
    (cfg : Config) (p : Permission) (q : Request) (r : Repo)
    → q.ignore_acl ≡ true
    → can_access cfg p q r ≡ (ok q, r)
unfolding can_access check_permissions acl_lookup_required
access_free cfg p q r h = ground (arith, h)

pub metadata_free :
    (host : Host) (q : Request) (r : Repo) (row : Row)
    → q.ignore_acl ≡ true
    → file_at r q.file_path ≡ some row
    → metadata host q r ≡ (ok row, r)
unfolding metadata
metadata_free host q r row h there =
    ground (arith, access_free host.config Permission.read q r h, there)

pub metadata_missing :
    (host : Host) (q : Request) (r : Repo)
    → q.ignore_acl ≡ true
    → file_at r q.file_path ≡ none
    → metadata host q r ≡ (err (missing_file q.file_path), r)
unfolding metadata
metadata_missing host q r h there =
    ground (arith, access_free host.config Permission.read q r h, there)

-- The partition keys that a request gives a file can be set, with this outcome.
abbrev pub Sets : Host → Request → KeyTables → KeyTables × List Text → Type 0
Sets host q t x = set_partition_keys (host.auto_keys q.file_path) q.partition_keys t ≡ some x

abbrev pub rekeyed : Text → KeyTables × List Text → Repo → Repo
rekeyed path x r = (change_file path (with_keys x.1) (record r { keys = x.0 })).1

-- Every value given has room in its column, and the rules of the others are there.
abbrev pub IsKeyed : Host → Request → KeyTables → Type 0
IsKeyed host q t = All (Fits t) (new_keys (host.auto_keys q.file_path) q.partition_keys)

pub keys_set :
    (host : Host) (q : Request) (t : KeyTables)
    → IsKeyed host q t
    → (x : KeyTables × List Text) × Sets host q t x
keys_set host q t keyed =
    set_partition_keys-some (host.auto_keys q.file_path) q.partition_keys t keyed

module _ (host : Host) (q : Request) (x : KeyTables × List Text) (r : Repo) (s : IsSound r)
    (row : Row) (there : file_at r q.file_path ≡ some row) where
  pub set_keys-ok : Sets host q r.keys x → set_keys host q r ≡ (ok tt, rekeyed q.file_path x r)
  unfolding set_keys change_file
  set_keys-ok sets = ground (arith, sets)

  pub rekeyed_lem : IsChanged q.file_path (with_keys x.1 row) r (rekeyed q.file_path x r)
  rekeyed_lem =
      let c = rekeyed-IsChanged r s q.file_path x.0 row there in
      Changed-trans q.file_path row (with_keys x.1 row) r (record r { keys = x.0 })
        (rekeyed q.file_path x r) c
        (change_file-IsChanged (record r { keys = x.0 }) c.sound q.file_path (with_keys x.1) row
          c.here refl)

module _ (host : Host) (q : Request) (free : q.ignore_acl ≡ true) (user : Text)
    (by : q.requestor ≡ some user) (r : Repo) (s : IsSound r) (d : ℕ)
    (dir : find_directory r.acl.db (parse_dir q.file_path) ≡ some d) (m : Metadata) (h : Text)
    (x : KeyTables × List Text) where
  abbrev pub inserted_row : Row
  inserted_row = new_row r h (apply_git_patch q.git m) user

  abbrev with_row : Repo
  with_row = stored r q.file_path d inserted_row (add_hash h r.hashes) (suc r.next_file)

  with_row-IsChanged : IsChanged q.file_path inserted_row r with_row
  with_row-IsChanged =
      stored-IsChanged r s q.file_path d inserted_row dir (add_hash h r.hashes) (suc r.next_file)
        (add_hash_grown h r.hashes) (add_hash_has h r.hashes)

  abbrev pub inserted : Repo
  inserted = rekeyed q.file_path x with_row

  pub insert_new-ok :
      (a : Actions)
      → Sets host q r.keys x
      → length (basename q.file_path) ≤ 256
      → file_at r q.file_path ≡ none
      → insert_new host q m h (some d) (record { repo = r; actions = a }) ≡ (
        ok tt,
        record {
          repo = inserted;
          actions = record a { file_insert = true; updated_metadata = true };
        },
      )
  unfolding insert_new
  insert_new-ok a sets short new = ground (
    arith,
    by,
    insert_file-new r q.file_path d dir h (apply_git_patch q.git m) user short new,
    metadata_free host q with_row inserted_row free with_row-IsChanged.here,
    set_keys-ok host q x with_row with_row-IsChanged.sound inserted_row with_row-IsChanged.here
        sets,
  )

  pub inserted-IsChanged : IsChanged q.file_path (with_keys x.1 inserted_row) r inserted
  inserted-IsChanged =
      Changed-trans q.file_path inserted_row (with_keys x.1 inserted_row) r with_row inserted
        with_row-IsChanged
        (rekeyed_lem host q x with_row with_row-IsChanged.sound inserted_row
          with_row-IsChanged.here)

-- The file is there: its content is replaced, or its metadata.
module _ (host : Host) (q : Request) (free : q.ignore_acl ≡ true) (r : Repo) (s : IsSound r)
    (row : Row) (there : file_at r q.file_path ≡ some row) where
  unchanged : IsChanged q.file_path row r r
  unchanged = record { sound = s; here = there; others = λ p n. refl; disk = refl }

  abbrev asked : Metadata → Patch
  asked m = record {
    metadata = m;
    git = q.git;
    partition_keys = q.partition_keys;
    auto_keys = host.auto_keys q.file_path;
    only_on_change = true;
  }

  abbrev with_metadata : Metadata → Row → Row
  with_metadata m f = record f { metadata = apply_git_patch q.git m }

  abbrev changed : Metadata → Repo
  changed m = (change_file q.file_path (with_metadata m) r).1

  changed-IsChanged : (m : Metadata) → IsChanged q.file_path (with_metadata m row) r (changed m)
  changed-IsChanged m = change_file-IsChanged r s q.file_path (with_metadata m) row there refl

  patch_kept :
      (m : Metadata)
      → is_unchanged (file_meta row) (asked m) ≡ true
      → patch_file host q m r ≡ (ok false, r)
  unfolding patch_file
  patch_kept m h = ground (
    arith,
    h,
    access_free host.config Permission.write q r free,
    metadata_free host q r row free there,
  )

  same_keys : (m : Metadata) → (changed m).keys ≡ r.keys
  same_keys m = keys-change_file r q.file_path (with_metadata m) row there

  module _ (m : Metadata) (x : KeyTables × List Text) (kept : Sets host q r.keys x) where
    sets : Sets host q (changed m).keys x
    sets = subst (λ t. Sets host q t x) (sym (same_keys m)) kept

    abbrev patched : Repo
    patched = rekeyed q.file_path x (changed m)

    patched-IsChanged : IsChanged q.file_path (with_keys x.1 (with_metadata m row)) r patched
    patched-IsChanged =
        let c = changed-IsChanged m in
        Changed-trans q.file_path (with_metadata m row) (with_keys x.1 (with_metadata m row)) r
          (changed m) patched c
          (rekeyed_lem host q x (changed m) c.sound (with_metadata m row) c.here)

    patch_done :
        is_unchanged (file_meta row) (asked m) ≡ false → patch_file host q m r ≡ (ok true, patched)
    unfolding patch_file change_file
    patch_done h = ground (
      arith,
      h,
      access_free host.config Permission.write q r free,
      metadata_free host q r row free there,
      set_keys-ok host q x (changed m) (changed-IsChanged m).sound (with_metadata m row)
          (changed-IsChanged m).here sets,
      metadata_free host q patched (with_keys x.1 (with_metadata m row)) free
          patched-IsChanged.here,
    )

    pub patch_same-ok :
        (a : Actions)
        → (row' : Row) × (r' : Repo) × (a' : Actions) × (patch_same host q m
              (record { repo = r; actions = a })
            ≡ (ok tt, record { repo = r'; actions = a' }))
          × (row'.hash ≡ row.hash)
          × IsChanged q.file_path row' r r'
    unfolding patch_same
    patch_same-ok a = elim (Bool-cases (is_unchanged (file_meta row) (asked m))) [
      | inr h ↦ (
        with_keys x.1 (with_metadata m row),
        patched,
        record a { updated_metadata = true },
        ground (
          arith,
          patch_done h,
          metadata_free host q patched (with_keys x.1 (with_metadata m row)) free
              patched-IsChanged.here,
        ),
        refl,
        patched-IsChanged,
      )
      | inl h ↦ (
        row,
        r,
        record a { updated_metadata = false },
        ground (arith, patch_kept m h, metadata_free host q r row free there),
        refl,
        unchanged,
      )
    ]

  abbrev pub quaded : Bytes → Row → Row
  quaded b f = record f { nquads = b }

  abbrev pub parsed : Bytes → Repo
  parsed b = (change_file q.file_path (quaded b) r).1

  pub parsed-IsChanged : (b : Bytes) → IsChanged q.file_path (quaded b row) r (parsed b)
  parsed-IsChanged b = change_file-IsChanged r s q.file_path (quaded b) row there refl

  pub insert_linked_data-ok :
      (tmp : Option Text) (a : Actions) (quads : Option Bytes × Bytes)
      → parse host q row.metadata (content_of tmp r) ≡ some quads
      → insert_linked_data host q tmp (record { repo = r; actions = a }) ≡ (
        ok quads.0,
        record { repo = parsed quads.1; actions = record a { parsed_linked_data = true } },
      )
  unfolding insert_linked_data change_file
  insert_linked_data-ok tmp a quads h = ground (arith, h, metadata_free host q r row free there)
