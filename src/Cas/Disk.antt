-- ===== src/Cas/Disk.antt =====
-- src/lib/storage/fs.js: the storage, and actions that change it and may throw.
use caskfs.Base.{ℕ, nat_eq, list_eq, Bool, is_some, List, length}
use caskfs.Base.Exec.{Exec, ok, ◌>>=◌, pure, or_throw}
use caskfs.Base.Dict.{Dict, lookup, insert, erase}
use caskfs.Base.Text.{Text}

abbrev pub Bytes : Type 0
Bytes = List ℕ

-- `missing` is ENOENT; `no_tmp_file` is a null path given to the file system; `not_updatable` is
-- PostgreSQL's refusal to delete from a view over a join.
pub data CasError : Type 0 where
  missing : Text → CasError
  no_input not_absolute no_source hash_not_found not_in_cas no_tmp_file not_updatable : CasError

-- A row of the table `file`, as far as this component reads it.
pub record FileRow : Type 0 where
  pub file_id : ℕ
  pub hash : Text

pub record Store : Type 0 where
  pub disk : Dict Text Bytes
  pub hashes : List Text
  pub files : List FileRow

abbrev pub Io : Type 0 → Type 0
Io = Exec CasError Store

-- fs.existsSync
abbrev pub exists : Text → Io Bool
exists p s = (ok (is_some (lookup p s.disk)), s)

abbrev pub read_file : Text → Io Bytes
read_file p s = or_throw (lookup p s.disk) (missing p) s

abbrev pub write_file : Text → Bytes → Io Unit
write_file p b s = (ok tt, record s { disk = insert p b s.disk })

abbrev pub copy_file : Text → Text → Io Unit
copy_file from to = do b ← read_file from; write_file to b

abbrev pub unlink : Text → Io Unit
unlink p = do b ← read_file p; λ s. (ok tt, record s { disk = erase p s.disk })

-- fsp.stat(p).size
abbrev pub stat : Text → Io ℕ
stat p = do b ← read_file p; pure (length b)
