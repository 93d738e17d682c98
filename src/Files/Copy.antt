-- ===== src/Files/Copy.antt =====
-- src/index.js: `deleteFile`, `copyFile` and `sync`.
use caskfs.Base.{ℕ, ◌==◌, nat_eq, list_eq, Bool, true, false, not, ◌&&◌, ◌||◌, leb}
use caskfs.Base.{Option, none, some, is_some, List, [], ◌∷◌, ◌++◌, length, if◌then◌else◌}
use caskfs.Base.Dict.{lookup, insert}
use caskfs.Base.Text.{Text}
use caskfs.Base.Exec.{Result, ok, err, ◌>>=◌, ◌>>◌, pure, throw}
use caskfs.Paths.{join}
use caskfs.Cas.{WriteInput, hash_not_found}
use caskfs.Cas
use caskfs.Cas.Ops.{truthy}
use caskfs.Acl.Db.{Permission}
use caskfs.Metadata.{Metadata}
use caskfs.Files.Repo.{FsError, no_dest_path, no_hash, too_many, cas_error, Row, Repo}
use caskfs.Files.Repo.{Host, Request, Fs, cas, can_access}
use caskfs.Files.Rows.{metadata, drop_file}
use caskfs.Files.Kinds.{mime_key, if_true, or_else}
use caskfs.Files.Write.{Written, rolled_back, write}

pub record Deleted : Type 0 where
  pub file : Row
  pub file_deleted : Bool
  pub references_remaining : ℕ

abbrev pub undo_failed : {A : Type 0} → Repo → Result FsError A → Repo → Result FsError A × Repo
undo_failed start (ok a) r = (ok a, r)
undo_failed start (err e) r = (err e, rolled_back start r)

pub record CopyOptions : Type 0 where
  pub dest_path : Text
  pub copy_metadata : Bool
  pub copy_partitions : Bool
  pub metadata : Option Metadata
  pub partition_keys : Option (List Text)
  pub replace : Bool
  pub move : Bool
  pub soft_delete : Bool

-- { ...m, ...n }
abbrev pub merge : Metadata → Metadata → Metadata
merge m [] = m
merge m (e ∷ n) = merge (insert e.0 e.1 m) n

abbrev pub merge_given : Metadata → Option Metadata → Metadata
merge_given m none = m
merge_given m (some n) = merge m n

abbrev pub set_if_some : Text → Option Text → Metadata → Metadata
set_if_some k none m = m
set_if_some k (some v) m = insert k v m

unfoldable pub dest_metadata : CopyOptions → Row → Metadata
unfolding mime_key
dest_metadata opts src =
    let m = merge_given (if opts.copy_metadata then src.metadata else []) opts.metadata in
    set_if_some mime_key (or_else (if_true (lookup mime_key m)) (lookup mime_key src.metadata)) m

abbrev pub dest_keys : CopyOptions → Row → Option (List Text)
dest_keys opts src =
    if is_some opts.partition_keys
    then opts.partition_keys
    else if opts.copy_partitions
    then some src.partition_keys
    else none

-- A request with a path and a requestor, and nothing to write.
abbrev pub plain_request : Text → Option Text → Request
plain_request path requestor = record {
  file_path = path;
  directory = [];
  requestor = requestor;
  ignore_acl = false;
  replace = false;
  soft_delete = false;
  input = record { hash = none; read_stream = none; read_path = none; payload = none };
  metadata = [];
  mime_type = none;
  content_type = none;
  git = [];
  partition_keys = none;
}

-- What `copyFile` passes to `write`: the content by its hash.
unfoldable pub copy_request : CopyOptions → Row → Option Text → Request
unfolding dest_metadata
copy_request opts src requestor =
    let input : WriteInput = record {
      hash = some src.hash;
      read_stream = none;
      read_path = none;
      payload = none;
    } in
    record (plain_request opts.dest_path requestor) {
      replace = opts.replace;
      input = input;
      metadata = dest_metadata opts src;
      partition_keys = dest_keys opts src;
    }

abbrev pub throw_error : Option FsError → Fs Unit
throw_error none = pure tt
throw_error (some e) = throw e

-- The lists of paths that `sync` answers.
pub record Synced : Type 0 where
  pub file_inserts : List Text
  pub metadata_updates : List Text
  pub no_changes : List Text
  pub errors : List (Text × FsError)
  pub does_not_exist : List Text

abbrev pub nothing_synced : Synced
nothing_synced = record {
  file_inserts = [];
  metadata_updates = [];
  no_changes = [];
  errors = [];
  does_not_exist = [];
}

-- A file to sync: every field of the request but two is taken as it is given.
pub record SyncFile : Type 0 where
  pub filename : Text
  pub request : Request

abbrev pub is_missing_hash : Option FsError → Bool
is_missing_hash (some (cas_error hash_not_found)) = true
is_missing_hash _ = false

-- The list that a path goes to after a write.
unfoldable pub classify : Text → Written → Synced → Synced
classify path w s =
    if is_missing_hash w.error
    then record s { does_not_exist = s.does_not_exist ++ path ∷ [] }
    else if w.actions.file_insert
    then record s { file_inserts = s.file_inserts ++ path ∷ [] }
    else if w.actions.updated_metadata
    then record s { metadata_updates = s.metadata_updates ++ path ∷ [] }
    else record s { no_changes = s.no_changes ++ path ∷ [] }

abbrev pub report : Text → Result FsError Written → Synced → Synced
report path (ok w) s = classify path w s
report path (err e) s = record s { errors = s.errors ++ (path, e) ∷ [] }

unfoldable pub sync_path : SyncFile → Text
unfolding join
sync_path f =
    if f.request.file_path == [] && not (f.filename == [] || f.request.directory == [])
    then join f.request.directory f.filename
    else f.request.file_path

unfoldable pub sync_request : Bool → Option Text → SyncFile → Request
unfolding sync_path
sync_request replace requestor f = record f.request {
  file_path = sync_path f;
  replace = replace;
  requestor = requestor;
}

module _ (host : Host) where
  unfoldable pub delete_body : Request → Fs Deleted
  unfolding metadata drop_file
  delete_body q = do
    file ← metadata host q
    drop_file q.file_path
    d ← cas (Cas.delete host.env file.hash q.soft_delete)
    pure (record {
      file = file;
      file_deleted = d.file_deleted;
      references_remaining = d.references_remaining;
    })

  unfoldable pub delete_file : Request → Fs Deleted
  unfolding delete_body can_access
  delete_file q = do
    q' ← can_access host.config Permission.write q
    λ r. let (a, r') = delete_body q' r in undo_failed r a r'

  -- The write and the deletion run on connections of their own, so that the transaction around them
  -- undoes nothing.
  unfoldable pub copy_file : Request → CopyOptions → Fs Written
  unfolding delete_file copy_request can_access metadata write
  copy_file q opts = do
    q' ← can_access host.config Permission.read q
    if opts.dest_path == [] then throw no_dest_path else do
      src ← metadata host q'
      w ← write host (copy_request opts src q.requestor)
      throw_error w.error
      if not opts.move then pure w else do
        delete_file
            (record (plain_request q.file_path q.requestor) { soft_delete = opts.soft_delete })
        pure w

  unfoldable pub sync_one : Bool → Option Text → SyncFile → Synced → Repo → Synced × Repo
  unfolding sync_request sync_path classify write
  sync_one replace requestor f s r =
      let path = sync_path f in
      if path == [] || not (is_some (truthy f.request.input.hash))
      then (report path (err no_hash) s, r)
      else let (a, r') = write host (sync_request replace requestor f) r in (report path a s, r')

  unfoldable pub sync_each : Bool → Option Text → List SyncFile → Synced → Repo → Synced × Repo
  unfolding sync_one
  sync_each replace requestor [] s r = (s, r)
  sync_each replace requestor (f ∷ fs) s r =
      let (s', r') = sync_one replace requestor f s r in sync_each replace requestor fs s' r'

  -- No files: the answer is the context, without lists.
  unfoldable pub sync : Bool → Option Text → List SyncFile → Fs (Option Synced)
  unfolding sync_each
  sync replace requestor files r =
      if not (leb (length files) host.max_files)
      then (err too_many, r)
      else if length files == 0
      then (ok none, r)
      else let (s, r') = sync_each replace requestor files nothing_synced r in (ok (some s), r')
