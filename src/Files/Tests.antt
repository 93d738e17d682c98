-- ===== src/Files/Tests.antt =====
-- src/index.js: requests to a repository with one file, and the theorems at them.
use caskfs.Base.{◌≡◌, refl, ap, is_some, false, inl, inr, none, some, nat_eq, list_eq, pair_eq}
use caskfs.Base.{true, length, ◌≤◌, [], ◌∷◌, arith}
use caskfs.Base.Dict.{lookup}
use caskfs.Base.Text.{Text, codes}
use caskfs.Base.Exec.{ok}
use caskfs.Paths.{basename, parse_dir}
use caskfs.Cas.Staging.{from_payload, from_hash, input_of}
use caskfs.Cas.Tests.{env-IsLawful, digest_of, digest_of-IsDigest}
use caskfs.Acl.Db.{Permission}
use caskfs.Acl.Checks.{find_directory}
use caskfs.Acl.Facade.{mkdir}
use caskfs.Acl.Trees.{IsTree, IsGrown, mkdir-IsTree}
use caskfs.Files.Repo.{Repo, Request}
use caskfs.Files.Rows.{file_at, key_of, file_exists, read_file}
use caskfs.Files.Kinds.{is_rdf, mime_type_of, given_type, rdf_types, json_ld}
use caskfs.Files.Write.{Actions, Written, parse, write_body, write}
use caskfs.Files.Copy.{CopyOptions, SyncFile, nothing_synced, plain_request, copy_file}
use caskfs.Files.Copy.{copy_request, sync_request, sync_path, sync_one}
use caskfs.Files.Changes.{IsSound, SameFile}
use caskfs.Files.Contents.{contents, answer, checked, IsFilled, IsWritable, IsUpdated}
use caskfs.Files.Contents.{stored_bytes, write-IsUpdated, read_file_lem}
use caskfs.Files.Writing.{IsParsed, IsOpen, IsShort}
use caskfs.Files.Removing.{Deletes, delete_file-IsRemoved}
use caskfs.Files.Moving.{access_off, copy_file-IsMoved}
use caskfs.Files.Syncing.{sync_one-replaced, sync_one-lost}
use caskfs.Files.Undoing.{ended_well, file_at-write}
use caskfs.Files.Sample.{host, tables, first, second, row, repo, tables-IsTree, repo-IsSound}
use caskfs.Files.Sample.{
  repo-IsFilled, at_first, at_second, not_stored, hashes_apart, request-IsReady, request-IsNamed,
  request-IsKeyed,
}
use caskfs.Files.Saving.{IsKeyed}

abbrev path : Text
path = codes "/a"

abbrev request : Text → Request
request p = plain_request p (some (codes "ann"))

at_path : file_at repo path ≡ some row
unfolding file_at key_of nat_eq list_eq lookup parse_dir basename find_directory pair_eq
at_path = refl

free_path : file_at repo (codes "/b") ≡ none
unfolding file_at key_of nat_eq list_eq lookup parse_dir basename find_directory pair_eq
free_path = refl

-- A write of four bytes to a free path.
abbrev upload : Request
upload = record (request (codes "/b")) { input = input_of (from_payload (9 ∷ 9 ∷ [])) }

upload-IsParsed : IsParsed host (checked upload) (9 ∷ 9 ∷ []) repo
unfolding parse
upload-IsParsed = record {
  from_bytes = ground arith;
  without = λ stored. absurd (ground (arith, not_stored, stored));
}

upload-IsWritable : IsWritable host upload (from_payload (9 ∷ 9 ∷ [])) (9 ∷ 9 ∷ []) repo
upload-IsWritable = record {
  may = access_off host Permission.write upload repo refl;
  ready = request-IsReady (checked upload) (from_payload (9 ∷ 9 ∷ [])) (9 ∷ 9 ∷ []) refl refl;
  named = request-IsNamed (checked upload) 98 (omega arith) refl refl;
  filled = repo-IsFilled;
}

short_dir : length (parse_dir (codes "/b")) ≤ 256
unfolding parse_dir nat_eq
short_dir = omega arith

short_name : length (basename (codes "/b")) ≤ 256
unfolding basename nat_eq
short_name = omega arith

write-IsUpdated_example :
    (done : Actions) × (r' : Repo) × (write host upload repo
      ≡ (ok (record { error = none; actions = done }), r'))
    × IsUpdated host (codes "/b") (stored_bytes host (9 ∷ 9 ∷ []) repo) repo r'
    × IsFilled host r'
    × IsSound r'
write-IsUpdated_example =
    write-IsUpdated host upload (from_payload (9 ∷ 9 ∷ [])) (9 ∷ 9 ∷ []) repo upload-IsWritable (
      inl (
        free_path,
        upload-IsParsed,
        request-IsKeyed (checked upload) refl,
        (short_dir, short_name),
      ))

read_file_lem_example :
    (read_file host (request path) repo).0 ≡ answer path (contents host repo path)
read_file_lem_example =
    read_file_lem host (request path) repo
      (access_off host Permission.read (request path) repo refl) repo-IsFilled

delete_file-IsRemoved_example : Deletes host (request path) repo (file_at repo path)
delete_file-IsRemoved_example =
    delete_file-IsRemoved host (request path) repo
      (access_off host Permission.write (request path) repo refl) env-IsLawful repo-IsSound
      repo-IsFilled

mkdir-IsTree_example :
    IsTree (mkdir (codes "/x/y") tables).1 × IsGrown tables (mkdir (codes "/x/y") tables).1
mkdir-IsTree_example = mkdir-IsTree (codes "/x/y") tables tables-IsTree

abbrev again : Request
again = record upload { file_path = path }

-- The path is taken and no replacement is asked for.
fails : ended_well (write host again repo).0 ≡ false
unfolding write write_body file_exists
fails = ground (arith, access_off host Permission.write again repo refl, at_path)

file_at-write_example : file_at (write host again repo).1 path ≡ file_at repo path
file_at-write_example = file_at-write host again repo path fails

-- A sync that gives /a the second content.
abbrev replacing : SyncFile
replacing = record {
  filename = [];
  request = record (request path) { input = input_of (from_hash (digest_of second)) };
}

replacing-IsWritable :
    IsWritable host
      (sync_request true (some (codes "ann")) replacing)
      (from_hash (digest_of second))
      second
      repo
unfolding sync_request sync_path list_eq
replacing-IsWritable = record {
  may = access_off host Permission.write _ repo refl;
  ready =
      request-IsReady _ (from_hash (digest_of second)) second (digest_of-IsDigest second, at_second)
        refl;
  named = request-IsNamed _ 97 (omega arith) refl refl;
  filled = repo-IsFilled;
}

replacing_at : file_at repo (sync_path replacing) ≡ some row
unfolding file_at key_of nat_eq list_eq lookup parse_dir basename find_directory pair_eq sync_path
replacing_at = refl

sync_one-replaced_example :
    (r' : Repo) × (sync_one host true (some (codes "ann")) replacing nothing_synced repo
      ≡ (record nothing_synced { no_changes = sync_path replacing ∷ [] }, r'))
    × IsUpdated host (sync_path replacing) (stored_bytes host second repo) repo r'
sync_one-replaced_example =
    sync_one-replaced host true (some (codes "ann")) replacing (digest_of second) second repo
      replacing-IsWritable nothing_synced row replacing_at hashes_apart refl

-- A sync of JSON-LD, with the second content, to a free path.
abbrev linking : SyncFile
linking = record {
  filename = [];
  request = record (request (codes "/b")) {
    input = input_of (from_hash (digest_of second));
    mime_type = some (codes "application/ld+json");
  };
}

linking-IsWritable :
    IsWritable host
      (sync_request false (some (codes "ann")) linking)
      (from_hash (digest_of second))
      second
      repo
unfolding sync_request sync_path list_eq
linking-IsWritable = record {
  may = access_off host Permission.write _ repo refl;
  ready =
      request-IsReady _ (from_hash (digest_of second)) second (digest_of-IsDigest second, at_second)
        refl;
  named = request-IsNamed _ 98 (omega arith) refl refl;
  filled = repo-IsFilled;
}

linking_free : file_at repo (sync_path linking) ≡ none
unfolding file_at key_of nat_eq list_eq lookup parse_dir basename find_directory pair_eq sync_path
linking_free = refl

linking_rdf : is_rdf host (checked (sync_request false (some (codes "ann")) linking)) ≡ true
unfolding is_rdf mime_type_of given_type rdf_types json_ld lookup nat_eq list_eq sync_request
linking_rdf = refl

linking-IsKeyed : IsKeyed host (checked (sync_request false (some (codes "ann")) linking)) repo.keys
unfolding sync_request
linking-IsKeyed = request-IsKeyed (checked (sync_request false (some (codes "ann")) linking)) refl

linking-IsShort : IsShort (checked (sync_request false (some (codes "ann")) linking))
unfolding sync_request list_eq
linking-IsShort = (short_dir, short_name)

sync_one-lost_example :
    (r' : Repo) × (sync_one host false (some (codes "ann")) linking nothing_synced repo
      ≡ (record nothing_synced { file_inserts = sync_path linking ∷ [] }, r'))
    × ((p : Text) → file_at r' p ≡ file_at repo p)
sync_one-lost_example =
    sync_one-lost host false (some (codes "ann")) linking (digest_of second) second repo
      linking-IsWritable nothing_synced linking_free linking_rdf linking-IsKeyed linking-IsShort

-- /a is moved onto itself.
abbrev onto_itself : CopyOptions
onto_itself = record {
  dest_path = path;
  copy_metadata = true;
  copy_partitions = true;
  metadata = none;
  partition_keys = none;
  replace = true;
  move = true;
  soft_delete = false;
}

onto_itself-IsWritable :
    IsWritable host
      (copy_request onto_itself row (some (codes "ann")))
      (from_hash row.hash)
      first
      repo
unfolding copy_request
onto_itself-IsWritable = record {
  may = access_off host Permission.write _ repo refl;
  ready = request-IsReady _ (from_hash row.hash) first (digest_of-IsDigest first, at_first) refl;
  named = request-IsNamed _ 97 (omega arith) refl refl;
  filled = repo-IsFilled;
}

onto_itself-IsOpen :
    IsOpen host (checked (copy_request onto_itself row (some (codes "ann")))) first repo
unfolding copy_request
onto_itself-IsOpen = inr (
  ap is_some at_path,
  refl,
  λ f e same. request-IsKeyed (checked (copy_request onto_itself row (some (codes "ann")))) refl,
)

copy_file-IsMoved_example :
    (w : Written) × (r' : Repo) × (copy_file host (request path) onto_itself repo ≡ (ok w, r'))
    × (file_at r' path ≡ none)
    × ((p : Text)
        → ¬ SameFile p path
        → ¬ SameFile p path
        → contents host r' p ≡ contents host repo p)
    × (¬ SameFile path path → contents host r' path ≡ some (stored_bytes host first repo))
    × IsFilled host r'
    × IsSound r'
copy_file-IsMoved_example =
    copy_file-IsMoved host (request path) onto_itself row first repo refl at_path
      onto_itself-IsWritable onto_itself-IsOpen refl
