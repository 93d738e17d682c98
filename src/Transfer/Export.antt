-- ===== src/Transfer/Export.antt =====
-- src/lib/transfer.js: `_exportCas`, and what it takes from the tables.
use caskfs.Base.{ℕ, ◌==◌, nat_eq, list_eq, Bool, true, false, ◌&&◌, ◌||◌, any, find, keep, length}
use caskfs.Base.{Option, none, some, List, [], ◌∷◌, ◌++◌, if◌then◌else◌}
use caskfs.Base.Dict.{lookup}
use caskfs.Base.Text.{Text, codes}
use caskfs.Base.Exec.{Result, ok, err}
use caskfs.Paths.{slash, strip}
use caskfs.Cas.{Bytes, Env, hash_file_path, disk_path}
use caskfs.Acl.Db.{Directory}
use caskfs.Metadata.{Metadata}
use caskfs.Files.Repo.{Row, Rows, Repo}

-- Some end of a text.
abbrev pub any_end : (Text → Bool) → Text → Bool
any_end p [] = p []
any_end p (c ∷ t) = p (c ∷ t) || any_end p t

abbrev pub one_char : (ℕ → Bool) → (Text → Bool) → Text → Bool
one_char p q [] = false
one_char p q (c ∷ t) = p c && q t

-- t LIKE p: `%` is any text, `_` any character, and a backslash takes the next one literally. A pattern
-- that ends in a backslash is refused by PostgreSQL, and none does here.
unfoldable pub like : Text → Text → Bool
like [] [] = true
like [] (d ∷ t) = false
like (c ∷ []) t = if c == 37 then true else if c == 95 then length t == 1 else t == (c ∷ [])
like (c ∷ e ∷ p) t =
    let rest = like (e ∷ p) in
    let past = like p in
    if c == 37
    then any_end rest t
    else if c == 95
    then one_char (λ d. true) rest t
    else if c == 92
    then one_char (λ d. d == e) past t
    else one_char (λ d. d == c) rest t

abbrev or_slash : Text → Text
or_slash [] = slash ∷ []
or_slash (c ∷ t) = c ∷ t

-- rootDir.replace(/\/+$/, '') || '/'
unfoldable pub clean_root : Text → Text
unfolding strip
clean_root t = or_slash (strip t)

-- directory = $1 OR directory LIKE $1 || '/%', where the root is not "/"
unfoldable pub is_under : Text → Text → Bool
unfolding like
is_under root dir =
    if root == (slash ∷ []) then true else dir == root || like (root ++ slash ∷ 37 ∷ []) dir

-- The columns of file_view that are read.
pub record ViewRow : Type 0 where
  pub file_id : ℕ
  pub hash : Text
  pub filename : Text
  pub directory : Text
  pub metadata : Metadata
  pub partition_keys : List Text

abbrev pub view_row : Text → Row → Option Directory → List ViewRow → List ViewRow
view_row name row none rest = rest
view_row name row (some d) rest =
    record {
      file_id = row.file_id;
      hash = row.hash;
      filename = name;
      directory = d.fullname;
      metadata = row.metadata;
      partition_keys = row.partition_keys;
    }
    ∷ rest

-- Every file has a directory and a hash, by foreign keys.
abbrev pub view_rows : List Directory → Rows → List ViewRow
view_rows dirs [] = []
view_rows dirs (e ∷ rows) =
    view_row e.0.1 e.1 (find (λ (d : Directory). d.directory_id == e.0.0) dirs)
      (view_rows dirs rows)

unfoldable pub file_view : Repo → List ViewRow
file_view r = view_rows r.acl.db.directories r.rows

abbrev pub is_file_of : Text → Text → ViewRow → Bool
is_file_of root h v = v.hash == h && is_under root v.directory

-- The two entries of a hash in the archive: its bytes, and the files that have it.
pub record HashEntry : Type 0 where
  pub value : Text
  pub tar_base : Text
  pub bytes : Bytes
  pub files : List ViewRow

pub data ExportError : Type 0 where
  no_root_dir : ExportError
  no_such_file : Text → ExportError

abbrev pub entry_for : Text → List ViewRow → Option Bytes → Text → Result ExportError HashEntry
entry_for h files none path = err (no_such_file path)
entry_for h files (some b) path =
    ok (record { value = h; tar_base = codes "cas/" ++ hash_file_path h; bytes = b; files = files })

abbrev put_entry :
    Result ExportError HashEntry
    → Result ExportError (List HashEntry)
    → Result ExportError (List HashEntry)
put_entry (err e) rest = err e
put_entry (ok e) (err d) = err d
put_entry (ok e) (ok es) = ok (e ∷ es)

-- The hashes that have a file below the directory, in their order.
unfoldable pub exported_hashes : Text → Repo → List Text
unfolding file_view is_under
exported_hashes root r = keep (λ h. any (is_file_of root h) (file_view r)) r.hashes

module _ (env : Env) where
  abbrev pub entry_of_hash : Text → Repo → Text → Result ExportError HashEntry
  entry_of_hash root r h =
      entry_for h (keep (is_file_of root h) (file_view r)) (lookup (disk_path env h) r.disk)
        (disk_path env h)

  unfoldable pub export_each : Text → Repo → List Text → Result ExportError (List HashEntry)
  unfolding file_view is_under disk_path
  export_each root r [] = ok []
  export_each root r (h ∷ hs) = put_entry (entry_of_hash root r h) (export_each root r hs)

  unfoldable pub export_cas : Text → Repo → Result ExportError (List HashEntry)
  unfolding export_each exported_hashes clean_root
  export_cas [] r = err no_root_dir
  export_cas (c ∷ t) r = export_each (clean_root (c ∷ t)) r (exported_hashes (clean_root (c ∷ t)) r)

abbrev pub listed : List HashEntry → List ViewRow
listed [] = []
listed (e ∷ es) = e.files ++ listed es

-- hashCount and fileCount
abbrev pub summary : List HashEntry → ℕ × ℕ
summary es = (length es, length (listed es))
