-- ===== src/Files/Write.antt =====
-- src/index.js: `write`, and the part of src/lib/ld.js that it calls.
use caskfs.Base.{ℕ, suc, ◌==◌, nat_eq, list_eq, Bool, true, false, not, ◌&&◌}
use caskfs.Base.{Option, none, some, is_some, option_eq, List, [], if◌then◌else◌}
use caskfs.Base.Dict.{lookup}
use caskfs.Base.Text.{Text}
use caskfs.Base.Exec.{Result, ok, err, Exec, ◌>>=◌, ◌>>◌, pure, throw, or_throw}
use caskfs.Paths.{basename, parse_dir}
use caskfs.Cas.{Bytes, Staged, stage_write, finalize_write}
use caskfs.Acl.Db.{Permission}
use caskfs.Acl.Facade.{mkdir}
use caskfs.Metadata.{Metadata, FileMeta, Patch, apply_git_patch, is_unchanged}
use caskfs.Metadata.{KeyTables, set_partition_keys}
use caskfs.Files.Repo.{FsError, no_file_path, not_parsed, not_added, duplicate, Row, Repo}
use caskfs.Files.Repo.{Host, Request, Fs, cas, can_access, file_path_in}
use caskfs.Files.Rows.{file_exists, insert_file, update_file, change_file, metadata}
use caskfs.Files.Kinds.{described, is_rdf, resource_key, resource_type}

pub record Actions : Type 0 where
  pub replaced_file : Bool
  pub detected_ld : Bool
  pub file_insert : Bool
  pub updated_metadata : Bool
  pub parsed_linked_data : Bool
  pub file_copied_to_cas : Bool

abbrev pub no_actions : Actions
no_actions = record {
  replaced_file = false;
  detected_ld = false;
  file_insert = false;
  updated_metadata = false;
  parsed_linked_data = false;
  file_copied_to_cas = false;
}

-- The context that `write` returns: an error stands in it.
pub record Written : Type 0 where
  pub error : Option FsError
  pub actions : Actions

-- The state inside the transaction.
pub record Work : Type 0 where
  pub repo : Repo
  pub actions : Actions

abbrev pub Job : Type 0 → Type 0
Job = Exec FsError Work

abbrev pub on_repo : {A : Type 0} → Fs A → Job A
on_repo m w = let (a, r) = m w.repo in (a, record w { repo = r })

abbrev pub note : (Actions → Actions) → Job Unit
note f w = (ok tt, record w { actions = f w.actions })

-- ROLLBACK: the disk stays as it is, and so do the caches.
abbrev pub rolled_back : Repo → Repo → Repo
rolled_back start r = record r {
  acl = record r.acl { db = start.acl.db };
  rows = start.rows;
  hashes = start.hashes;
  keys = start.keys;
  next_file = start.next_file;
}

abbrev pub conclude : Repo → Result FsError Bool → Work → Result FsError Written × Repo
conclude start (ok copied) w = (
  ok (record { error = none; actions = record w.actions { file_copied_to_cas = copied } }),
  w.repo,
)
conclude start (err e) w =
    (ok (record { error = some e; actions = w.actions }), rolled_back start w.repo)

abbrev pub make_directory : Text → Fs (Option ℕ)
make_directory path r =
    let (d, db) = mkdir (parse_dir path) r.acl.db in
    (ok d, record r { acl = record r.acl { db = db } })

abbrev pub content_of : Option Text → Repo → Option Bytes
content_of none r = none
content_of (some tmp) r = lookup tmp r.disk

abbrev pub file_meta : Row → FileMeta
file_meta row = record { metadata = row.metadata; partition_keys = row.partition_keys }

abbrev pub with_keys : List Text → Row → Row
with_keys ks row = record row { partition_keys = ks }

abbrev pub keep_keys : Text → Option (KeyTables × List Text) → Fs Unit
keep_keys path none r = (err not_added, r)
keep_keys path (some x) r = change_file path (with_keys x.1) (record r { keys = x.0 })

module _ (host : Host) where
  -- cas.stageWrite, with the next UUID
  unfoldable pub stage : Request → Fs Staged
  stage q r =
      cas (stage_write host.env (host.uuid r.drawn) q.input) (record r { drawn = suc r.drawn })

  -- The file that is replaced, if the path has one.
  abbrev pub start_replacement : Request → Bool → Job (Option Row)
  start_replacement q false = pure none
  start_replacement q true = if not q.replace then throw (duplicate q.file_path) else do
    file ← on_repo (metadata host q)
    note (λ a. record a { replaced_file = true })
    pure (some file)

  -- _setPartitionKeys; the values of the rules are those of getAutoPathValues.
  unfoldable pub set_keys : Request → Fs Unit
  unfolding change_file
  set_keys q r =
      keep_keys q.file_path
        (set_partition_keys (host.auto_keys q.file_path) q.partition_keys r.keys) r

  -- The record of a new file.
  unfoldable pub insert_new : Request → Metadata → Text → Option ℕ → Job Unit
  unfolding insert_file metadata set_keys
  insert_new q m hash directory = do
    on_repo (insert_file directory q.file_path hash (apply_git_patch q.git m) q.requestor)
    on_repo (metadata host q)
    on_repo (set_keys q)
    note (λ a. record a { file_insert = true; updated_metadata = true })

  -- patchMetadata with onlyOnChange
  unfoldable pub patch_file : Request → Metadata → Fs Bool
  unfolding can_access metadata change_file set_keys
  patch_file q m = do
    can_access host.config Permission.write q
    file ← metadata host q
    let patch : Patch = record {
      metadata = m;
      git = q.git;
      partition_keys = q.partition_keys;
      auto_keys = host.auto_keys q.file_path;
      only_on_change = true;
    }
    if patch.only_on_change && is_unchanged (file_meta file) patch then pure false else do
      change_file q.file_path (λ row. record row { metadata = apply_git_patch q.git m })
      set_keys q
      metadata host q
      pure true

  unfoldable pub patch_same : Request → Metadata → Job Unit
  unfolding patch_file metadata
  patch_same q m = do
    updated ← on_repo (patch_file q m)
    on_repo (metadata host q)
    note (λ a. record a { updated_metadata = updated })

  abbrev pub save_row : Request → Metadata → Text → Option ℕ → Option Row → Job Unit
  save_row q m hash directory none = insert_new q m hash directory
  save_row q m hash directory (some file) =
      if not (file.hash == hash)
      then on_repo (update_file directory q.file_path hash m q.requestor)
      else patch_same q m

  -- parseLinkedData: the file to parse is the temporary one, and RDF is not parsed without it.
  unfoldable pub parse : Request → Metadata → Option Bytes → Option (Option Bytes × Bytes)
  unfolding resource_key resource_type
  parse q m content =
      if lookup resource_key m == some (resource_type true) && not (is_some content)
      then none
      else host.parse_linked_data (file_path_in (parse_dir q.file_path) (basename q.file_path)) m
          content

  unfoldable pub insert_linked_data : Request → Option Text → Job (Option Bytes)
  unfolding metadata parse change_file
  insert_linked_data q tmp = do
    file ← on_repo (metadata host q)
    quads ← on_repo (λ r. or_throw (parse q file.metadata (content_of tmp r)) not_parsed r)
    note (λ a. record a { parsed_linked_data = true })
    on_repo (change_file q.file_path (λ row. record row { nquads = quads.1 }))
    pure quads.0

  -- Linked data is parsed for a new file only.
  abbrev pub add_linked_data : Request → Option Text → Option Row → Job (Option Bytes)
  add_linked_data q tmp none = insert_linked_data q tmp
  add_linked_data q tmp (some file) = pure none

  -- What the transaction does; the answer is whether the content was copied.
  unfoldable pub write_body : Request → Job Bool
  unfolding stage insert_new patch_same insert_linked_data file_exists metadata update_file
      described is_rdf
  write_body q = do
    there ← on_repo (file_exists q.file_path)
    file ← start_replacement q there
    staged ← on_repo (stage q)
    note (λ a. record a { detected_ld = is_rdf host q })
    directory ← on_repo (make_directory q.file_path)
    save_row q (described host q) staged.hash_value directory file
    quads ← add_linked_data q staged.tmp_file file
    on_repo (cas (finalize_write host.env staged.tmp_file staged.hash_file quads))

  -- The hash that a replaced file had is not looked at after the commit: `replacedFile` is never set.
  unfoldable pub write : Request → Fs Written
  unfolding write_body can_access
  write q = if q.file_path == [] then throw no_file_path else do
    q' ← can_access host.config Permission.write q
    λ r. let (a, w) = write_body q' (record { repo = r; actions = no_actions }) in conclude r a w
