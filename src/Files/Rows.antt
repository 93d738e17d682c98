-- ===== src/Files/Rows.antt =====
-- src/lib/database/index.js, the functions of src/schema/layer2-fs.sql that it calls, and the reads
-- of src/index.js: `metadata`, `exists`, `read`.
use caskfs.Base.{
  ℕ, suc, Bool, ◌||◌, Option, none, some, is_some, List, [], ◌∷◌, contains, not, leb, length,
}
use caskfs.Base.{nat_eq, list_eq, pair_eq, if◌then◌else◌}
use caskfs.Base.Dict.{lookup, insert, erase}
use caskfs.Base.Text.{Text}
use caskfs.Base.Exec.{ok, err, ◌>>=◌, ◌>>◌, or_throw}
use caskfs.Paths.{basename, parse_dir}
use caskfs.Cas.{Bytes, CasError}
use caskfs.Cas
use caskfs.Acl.Db.{read}
use caskfs.Acl.Checks.{find_directory}
use caskfs.Metadata.{Metadata}
use caskfs.Files.Repo.{not_null, not_unique, too_long, no_row, missing_file, Row, Repo}
use caskfs.Files.Repo.{Host, Request, Fs, cas, can_access}

-- WHERE directory = $1 AND filename = $2, for the two parts of a path
abbrev pub key_in : Text → Option ℕ → Option (ℕ × Text)
key_in path none = none
key_in path (some d) = some (d, basename path)

unfoldable pub key_of : Repo → Text → Option (ℕ × Text)
key_of r path = key_in path (find_directory r.acl.db (parse_dir path))

abbrev pub row_at : Repo → Option (ℕ × Text) → Option Row
row_at r none = none
row_at r (some k) = lookup k r.rows

unfoldable pub file_at : Repo → Text → Option Row
unfolding key_of
file_at r path = row_at r (key_of r path)

-- fileExists
unfoldable pub file_exists : Text → Fs Bool
file_exists path r = (ok (is_some (file_at r path)), r)

-- pathExists
unfoldable pub path_exists : Text → Fs Bool
path_exists path r = (ok (is_some (find_directory r.acl.db path) || is_some (file_at r path)), r)

abbrev pub add_hash : Text → List Text → List Text
add_hash h hashes = if contains hashes h then hashes else h ∷ hashes

-- The columns directory_id and last_modified_by are not null, a name has at most 256 characters, and a
-- directory has it once.
abbrev pub insert_row : Option ℕ → Text → Text → Metadata → Option Text → Fs Unit
insert_row none name h m user r = (err not_null, r)
insert_row (some d) name h m none r = (err not_null, r)
insert_row (some d) name h m (some user) r =
    if not (leb (length name) 256)
    then (err too_long, r)
    else if is_some (lookup (d, name) r.rows)
    then (err not_unique, r)
    else (
      ok tt,
      record r {
        rows =
            insert (d, name)
              (record {
                file_id = r.next_file;
                hash = h;
                metadata = m;
                last_modified_by = user;
                nquads = [];
                partition_keys = [];
              })
              r.rows;
        hashes = add_hash h r.hashes;
        next_file = suc r.next_file;
      },
    )

-- insertFile
unfoldable pub insert_file : Option ℕ → Text → Text → Metadata → Option Text → Fs Unit
insert_file directory path = insert_row directory (basename path)

abbrev pub update_row : Option ℕ → Text → Text → Metadata → Option Text → Option Row → Fs Unit
update_row d name h m user none r = (err no_row, r)
update_row none name h m user (some row) r = (err no_row, r)
update_row (some d) name h m none (some row) r = (err not_null, r)
update_row (some d) name h m (some user) (some row) r = (
  ok tt,
  record r {
    rows = insert (d, name) (record row { hash = h; metadata = m; last_modified_by = user }) r.rows;
    hashes = add_hash h r.hashes;
  },
)

abbrev pub row_in : Option ℕ → Text → Repo → Option Row
row_in none name r = none
row_in (some d) name r = lookup (d, name) r.rows

-- updateFile
unfoldable pub update_file : Option ℕ → Text → Text → Metadata → Option Text → Fs Unit
update_file directory path h m user r =
    update_row directory (basename path) h m user (row_in directory (basename path) r) r

-- A statement that changes the row of a file, which is named by its path.
abbrev pub change_at : (Row → Row) → Option (ℕ × Text) → Option Row → Repo → Repo
change_at f none row r = r
change_at f (some k) none r = r
change_at f (some k) (some row) r = record r { rows = insert k (f row) r.rows }

unfoldable pub change_file : Text → (Row → Row) → Fs Unit
unfolding key_of file_at
change_file path f r = (ok tt, change_at f (key_of r path) (file_at r path) r)

-- DELETE FROM file WHERE file_id = $1
abbrev pub drop_at : Option (ℕ × Text) → Repo → Repo
drop_at none r = r
drop_at (some k) r = record r { rows = erase k r.rows }

unfoldable pub drop_file : Text → Fs Unit
unfolding key_of
drop_file path r = (ok tt, drop_at (key_of r path) r)

module _ (host : Host) where
  -- metadata
  unfoldable pub metadata : Request → Fs Row
  unfolding can_access file_at
  metadata q = do
    can_access host.config read q
    λ r. or_throw (file_at r q.file_path) (missing_file q.file_path) r

  -- exists; `context.file` is not `context.data.file`, so that directories count as well.
  unfoldable pub exists : Request → Fs Bool
  unfolding can_access path_exists
  exists q = do can_access host.config read q; path_exists q.file_path

  unfoldable pub read_file : Request → Fs Bytes
  unfolding can_access file_at
  read_file q = do
    can_access host.config read q
    row ← λ r. or_throw (file_at r q.file_path) (missing_file q.file_path) r
    cas (Cas.read host.env row.hash)
