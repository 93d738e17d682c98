-- ===== src/Cas/Ops.antt =====
-- src/lib/cas.js: the methods of `Cas`.
use caskfs.Base.{ℕ, zero, suc, ◌==◌, nat_eq, list_eq, Bool, true, false, Option, none, some, not}
use caskfs.Base.{List, [], ◌∷◌, ◌++◌, keep, take, drop, length, contains, if◌then◌else◌}
use caskfs.Base.Exec.{ok, err, ◌>>=◌, ◌>>◌, pure, throw, or_throw}
use caskfs.Base.Text.{Text, codes}
use caskfs.Paths.{slash, join, basename}
use caskfs.Cas.Disk.{Bytes, no_input, not_absolute, no_source, hash_not_found, not_in_cas}
use caskfs.Cas.Disk.{no_tmp_file, not_updatable, FileRow, Store, Io}
use caskfs.Cas.Disk.{exists, read_file, write_file, copy_file, unlink, stat}

-- `config.rootDir`, and the two hash functions of `config.digests`, which Node's crypto computes.
pub record Env : Type 0 where
  pub root_dir : Text
  pub sha256 : Bytes → Text
  pub md5 : Bytes → Text

pub record Digests : Type 0 where
  pub sha256 : Text
  pub md5 : Text

-- The fields of `context.data` that say what to write. A stream is the bytes that it yields.
pub record WriteInput : Type 0 where
  pub hash : Option Text
  pub read_stream : Option Bytes
  pub read_path : Option Text
  pub payload : Option Bytes

pub record Staged : Type 0 where
  pub hash_value : Text
  pub digests : Digests
  pub tmp_file : Option Text
  pub size : ℕ
  pub hash_file : Text

pub record Deletion : Type 0 where
  pub file_deleted : Bool
  pub soft_delete : Bool
  pub references_remaining : ℕ

-- A text that is not empty; JavaScript takes the empty one for false.
abbrev pub truthy : Option Text → Option Text
truthy none = none
truthy (some []) = none
truthy (some (c ∷ t)) = some (c ∷ t)

-- _getHashFilePath
unfoldable pub hash_file_path : Text → Text
hash_file_path h = take 3 h ++ slash ∷ (take 3 (drop 3 h) ++ slash ∷ h)

-- path.isAbsolute
abbrev pub is_absolute : Text → Bool
is_absolute [] = false
is_absolute (c ∷ t) = c == slash

-- if( tmpFile && !fs.existsSync(tmpFile) ) tmpFile = null
abbrev pub drop_missing : Option Text → Io (Option Text)
drop_missing none = pure none
drop_missing (some p) = do there ← exists p; pure (if there then some p else none)

abbrev pub or_path : Option Text → Text → Text
or_path none q = q
or_path (some p) q = p

-- fs.existsSync(null) is false
unfoldable pub abort_write : Option Text → Io Unit
abort_write none = pure tt
abort_write (some p) = do there ← exists p; if there then unlink p else pure tt

abbrev pub unlink_if_there : Text → Io Unit
unlink_if_there p = do there ← exists p; if there then unlink p else pure tt

-- SELECT COUNT(*) FROM file JOIN hash … WHERE hash.value = $1
abbrev pub count_rows : Text → List FileRow → ℕ
count_rows h [] = 0
count_rows h (f ∷ fs) = let rest = count_rows h fs in if f.hash == h then suc rest else rest

abbrev pub references : Text → Store → ℕ
references h s = if contains s.hashes h then count_rows h s.files else 0

-- DELETE FROM hash WHERE value = $1
abbrev pub delete_hash_row : Text → Io Unit
delete_hash_row h s = (ok tt, record s { hashes = keep (λ k. not (k == h)) s.hashes })

-- SELECT value FROM unused_hashes
abbrev pub unused : Store → List Text
unused s = keep (λ h. count_rows h s.files == 0) s.hashes

unfoldable pub get_unused_hash_count : Io ℕ
get_unused_hash_count s = (ok (length (unused s)), s)

module _ (env : Env) where
  unfoldable pub disk_path : Text → Text
  unfolding hash_file_path
  disk_path h = join env.root_dir (codes "cas" ++ slash ∷ hash_file_path h)

  unfoldable pub quad_path : Text → Text
  quad_path h = disk_path h ++ codes ".nq"

  -- path.join(config.rootDir, 'tmp', uuidV4())
  unfoldable pub tmp_path : Text → Text
  tmp_path uuid = join env.root_dir (codes "tmp" ++ slash ∷ uuid)

  -- _hashData
  abbrev pub hash_data : Bytes → Digests
  hash_data b = record { sha256 = env.sha256 b; md5 = env.md5 b }

  -- _getFileHash
  unfoldable pub get_file_hash : Text → Io Digests
  get_file_hash p = do b ← read_file p; pure (hash_data b)

  unfoldable pub write_stream : Option Text → Bytes → Io Digests
  write_stream tmp b = do p ← or_throw tmp no_tmp_file; write_file p b; pure (hash_data b)

  -- The file is not copied when the store has its content.
  unfoldable pub write_path : Option Text → Text → Io Digests
  unfolding get_file_hash
  write_path tmp src = if not (is_absolute src) then throw not_absolute else do
    there ← exists src
    if not there then throw no_source else do
      digests ← get_file_hash src
      stored ← exists (disk_path digests.sha256)
      if stored
          then pure digests
          else do p ← or_throw tmp no_tmp_file; copy_file src p; pure digests

  unfoldable pub write_data : Option Text → Bytes → Io Digests
  unfolding get_file_hash
  write_data tmp b = do p ← or_throw tmp no_tmp_file; write_file p b; get_file_hash p

  unfoldable pub write_hash : Text → Io Digests
  unfolding get_file_hash
  write_hash h = do
    there ← exists (disk_path h)
    if there then get_file_hash (disk_path h) else throw hash_not_found

  -- The branches of `stageWrite`: the digests, and the temporary file that is left.
  unfoldable pub stage_input :
      Option Text
      → Option Bytes
      → Option Text
      → Option Bytes
      → Option Text
      → Io (Digests × Option Text)
  unfolding write_stream write_path write_data write_hash
  stage_input tmp (some b) read_path payload hash = do d ← write_stream tmp b; pure (d, tmp)
  stage_input tmp none (some src) payload hash = do
    d ← write_path tmp src
    left ← drop_missing tmp
    pure (d, left)
  stage_input tmp none none (some b) hash = do d ← write_data tmp b; pure (d, tmp)
  stage_input tmp none none none (some h) = do d ← write_hash h; pure (d, tmp)
  stage_input tmp none none none none = throw no_input

  abbrev pub tmp_file_of : Text → Option Text → Option Text
  tmp_file_of uuid none = some (tmp_path uuid)
  tmp_file_of uuid (some h) = none

  unfoldable pub stage_write : Text → WriteInput → Io Staged
  unfolding stage_input
  stage_write uuid input = do
    let hash = truthy input.hash
    r ←
        stage_input (tmp_file_of uuid hash) input.read_stream (truthy input.read_path) input.payload
          hash
    let hash_file = disk_path r.0.sha256
    size ← stat (or_path r.1 hash_file)
    pure (record {
      hash_value = r.0.sha256;
      digests = r.0;
      tmp_file = r.1;
      size = size;
      hash_file = hash_file;
    })

  unfoldable pub write_quads : Text → Bytes → Io Unit
  write_quads h nquads = write_file (quad_path h) nquads

  unfoldable pub read_quads : Text → Io Bytes
  read_quads h = do
    there ← exists (quad_path h)
    if there then read_file (quad_path h) else throw not_in_cas

  unfoldable pub quad_exists : Text → Io Bool
  quad_exists h = exists (quad_path h)

  unfoldable pub write_quads_of : Text → Option Bytes → Io Unit
  unfolding write_quads
  write_quads_of h none = pure tt
  write_quads_of h (some nquads) = write_quads h nquads

  unfoldable pub add_missing_quads : Text → Option Bytes → Io Unit
  unfolding write_quads quad_exists
  add_missing_quads h none = pure tt
  add_missing_quads h (some nquads) = do
    there ← quad_exists h
    if there then pure tt else write_quads h nquads

  -- The hash file is there: only the quads may be missing.
  unfoldable pub keep_stored : Option Text → Text → Option Bytes → Io Bool
  unfolding add_missing_quads abort_write
  keep_stored tmp h nquads = do add_missing_quads h nquads; abort_write tmp; pure false

  -- The hash file is new: it is copied from the temporary file.
  unfoldable pub store_new : Option Text → Text → Text → Option Bytes → Io Bool
  unfolding write_quads_of abort_write
  store_new tmp hash_file h nquads = do
    p ← or_throw tmp no_tmp_file
    copy_file p hash_file
    write_quads_of h nquads
    abort_write tmp
    pure true

  -- An empty N-Quads string counts as none.
  unfoldable pub finalize_write : Option Text → Text → Option Bytes → Io Bool
  unfolding keep_stored store_new
  finalize_write tmp hash_file nquads = do
    let h = basename hash_file
    there ← exists hash_file
    if there then keep_stored tmp h (truthy nquads) else store_new tmp hash_file h (truthy nquads)

  unfoldable pub read : Text → Io Bytes
  read h = do
    there ← exists (disk_path h)
    if there then read_file (disk_path h) else throw not_in_cas

  abbrev pub delete_counted : ℕ → Text → Bool → Io Deletion
  delete_counted count h true =
      pure (record { file_deleted = false; soft_delete = true; references_remaining = count })
  delete_counted zero h false = do
    unlink_if_there (disk_path h)
    unlink_if_there (quad_path h)
    delete_hash_row h
    pure (record { file_deleted = true; soft_delete = false; references_remaining = 0 })
  delete_counted (suc n) h false =
      pure (record { file_deleted = false; soft_delete = false; references_remaining = suc n })

  unfoldable pub delete : Text → Bool → Io Deletion
  delete h soft s = delete_counted (references h s) h soft s

  unfoldable pub delete_each : List Text → Io Unit
  unfolding delete
  delete_each [] = pure tt
  delete_each (h ∷ hs) = do delete h false; delete_each hs

  -- The rows of the hashes go first, and then each is deleted from the storage.
  unfoldable pub delete_unused_hashes : List Text → ℕ → Io (List Text)
  unfolding delete_each
  delete_unused_hashes (h ∷ hs) limit s = (err not_updatable, s)
  delete_unused_hashes [] limit s =
      let batch = take (if limit == 0 then 100 else limit) (unused s) in
      let start = record s { hashes = keep (λ h. not (contains batch h)) s.hashes } in
      (do delete_each batch; pure batch) start
