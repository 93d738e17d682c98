-- ===== src/Files/Repo.antt =====
-- src/index.js: the state behind `CaskFs`, its errors, and what its methods take from elsewhere.
use caskfs.Base.{ℕ, ◌==◌, nat_eq, Bool, true, Option, none, some, List, [], ◌∷◌, ◌++◌, find}
use caskfs.Base.Dict.{Dict}
use caskfs.Base.Text.{Text}
use caskfs.Base.Exec.{Result, ok, err, Exec}
use caskfs.Paths.{slash}
use caskfs.Cas.{Bytes, CasError, FileRow, Store, Io}
use caskfs.Cas.{Env, WriteInput}
use caskfs.Acl.Db.{Permission, Directory, FileEntry}
use caskfs.Acl.State.{AclError, Config, State, permission_name}
use caskfs.Acl.Checks.{check_permissions}
use caskfs.Acl.Checks as Acl
use caskfs.AutoPath.{Found}
use caskfs.Metadata.{Metadata, KeyTables}

-- `not_null`, `not_unique` and `too_long` are refusals of PostgreSQL, `no_row` is the exception of
-- update_file, `not_added` that of add_partition_key, or a partition key that is too long, `not_parsed`
-- is an error of linked data.
pub data FsError : Type 0 where
  no_file_path no_dest_path no_hash too_many not_null not_unique too_long no_row not_added
        not_parsed :
      FsError
  acl_error : AclError → FsError
  cas_error : CasError → FsError
  duplicate missing_file : Text → FsError

-- A row of the table `file` with its partition keys.
pub record Row : Type 0 where
  pub file_id : ℕ
  pub hash : Text
  pub metadata : Metadata
  pub last_modified_by : Text
  pub nquads : Bytes
  pub partition_keys : List Text

-- A row is kept under its directory_id and name, which are unique together.
abbrev pub Rows : Type 0
Rows = Dict (ℕ × Text) Row

-- The tables of users, directories and permissions stand in `acl`, beside the two caches. The ids of
-- files and the UUIDs of temporary files are numbered.
pub record Repo : Type 0 where
  pub acl : State
  pub rows : Rows
  pub hashes : List Text
  pub keys : KeyTables
  pub next_file : ℕ
  pub disk : Dict Text Bytes
  pub drawn : ℕ

-- The configuration, and what is asked of packages and of other components: the n-th UUID,
-- mime.getType, the values of the auto-path rules for a path, and the quads of a file and about it
-- that are parsed from its path, its metadata and the temporary file.
pub record Host : Type 0 where
  pub env : Env
  pub config : Config
  pub max_files : ℕ
  pub uuid : ℕ → Text
  pub get_type : Text → Option Text
  pub auto_keys : Text → List Found
  pub parse_linked_data : Text → Metadata → Option Bytes → Option (Option Bytes × Bytes)

-- `context.data`, as far as the methods read it; an empty text is an absent one.
pub record Request : Type 0 where
  pub file_path : Text
  pub directory : Text
  pub requestor : Option Text
  pub ignore_acl : Bool
  pub replace : Bool
  pub soft_delete : Bool
  pub input : WriteInput
  pub metadata : Metadata
  pub mime_type : Option Text
  pub content_type : Option Text
  pub git : Metadata
  pub partition_keys : Option (List Text)

abbrev pub Fs : Type 0 → Type 0
Fs = Exec FsError Repo

-- The part of the state that src/lib/cas.js sees.
abbrev pub file_rows : Rows → List FileRow
file_rows [] = []
file_rows (e ∷ rows) = record { file_id = e.1.file_id; hash = e.1.hash } ∷ file_rows rows

abbrev pub store_of : Repo → Store
store_of r = record { disk = r.disk; hashes = r.hashes; files = file_rows r.rows }

abbrev pub with_store : Store → Repo → Repo
with_store s r = record r { disk = s.disk; hashes = s.hashes }

abbrev pub from_cas : {A : Type 0} → Result CasError A → Result FsError A
from_cas (ok a) = ok a
from_cas (err e) = err (cas_error e)

abbrev pub cas : {A : Type 0} → Io A → Fs A
cas m r = let (a, s) = m (store_of r) in (from_cas a, with_store s r)

-- The column filepath of file_view.
abbrev pub file_path_in : Text → Text → Text
file_path_in [] name = slash ∷ name
file_path_in (c ∷ []) name = c ∷ name
file_path_in (c ∷ d ∷ t) name = (c ∷ d ∷ t) ++ slash ∷ name

abbrev pub entry_of : ℕ → Text → Option Directory → List FileEntry → List FileEntry
entry_of d name none rest = rest
entry_of d name (some dir) rest =
    record { filepath = file_path_in dir.fullname name; directory_id = d } ∷ rest

-- file_view
abbrev pub entries : List Directory → Rows → List FileEntry
entries dirs [] = []
entries dirs (e ∷ rows) =
    entry_of e.0.0 e.0.1 (find (λ (d : Directory). d.directory_id == e.0.0) dirs)
      (entries dirs rows)

-- The part of the state that src/lib/acl.js sees.
abbrev pub acl_view : Repo → State
acl_view r =
    let db = r.acl.db in record r.acl { db = record db { files = entries db.directories r.rows } }

abbrev pub or_empty : Option Text → Text
or_empty none = []
or_empty (some t) = t

abbrev pub acl_request : Request → Acl.Request
acl_request q = record {
  requestor = or_empty q.requestor;
  ignore_acl = q.ignore_acl;
  directory = q.directory;
  file_path = q.file_path;
}

abbrev pub marked : Request → Result AclError Acl.Request → Result FsError Request
marked q (ok a) = ok (record q { ignore_acl = a.ignore_acl })
marked q (err e) = err (acl_error e)

-- canReadFile and canWriteFile: the request that comes back no longer asks for a check.
unfoldable pub can_access : Config → Permission → Request → Fs Request
can_access cfg p q r =
    let (a, s) = check_permissions cfg (acl_request q) (permission_name p) true (acl_view r) in
    (
      marked q a,
      record r {
        acl = record r.acl { user_roles = s.user_roles; dir_permissions = s.dir_permissions };
      },
    )
