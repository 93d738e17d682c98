-- ===== src/Files/Contents.antt =====
-- src/index.js: CaskFs as a map from paths to bytes, and `write` as an update of it.
use caskfs.Base.{
  ◌≡◌, ◌≢◌, refl, sym, ap, ◌∙◌, subst, true, false, not, inl, inr, ◌⊎◌, ◌=?◌, Option-cases,
}
use caskfs.Base.{ℕ, Option, none, some, is_some, arith, nat_eq, list_eq}
use mathlib.Core.Option.{some-injective}
use caskfs.Base.Dict.{lookup}
use caskfs.Base.Text.{Text}
use caskfs.Base.Exec.{Result, ok, err}
use caskfs.Paths.{basename, parse_dir}
use caskfs.Cas.{Bytes, Env, disk_path}
use caskfs.Cas
use caskfs.Cas.Layout.{IsDigest}
use caskfs.Cas.Staging.{Source, or_bytes}
use caskfs.Cas.Writing.{after_put-home, after_put-other}
use caskfs.Acl.Db.{Permission}
use caskfs.Files.Repo.{FsError, missing_file, Row, Repo, Host, Request, can_access}
use caskfs.Acl.Checks.{find_directory}
use caskfs.Files.Rows.{file_at, key_of, key_in, row_at, read_file}
use caskfs.Files.Write.{Actions, no_actions, write}
use caskfs.Files.Changes.{IsSound, SameFile}
use caskfs.Files.Storing.{IsReady}
use caskfs.Files.Writing.{IsNamed, IsOpen, IsWritten, body_lem}

abbrev pub content : Host → Repo → Option Row → Option Bytes
content host r none = none
content host r (some row) = lookup (disk_path host.env row.hash) r.disk

-- What a path holds.
unfoldable pub contents : Host → Repo → Text → Option Bytes
contents host r p = content host r (file_at r p)

-- Every file has its content on the disk, under its hash.
abbrev pub IsFilled : Host → Repo → Type 0
IsFilled host r =
    (p : Text) (row : Row)
    → file_at r p ≡ some row
    → IsDigest row.hash × ((c : Bytes) × (lookup (disk_path host.env row.hash) r.disk ≡ some c))

abbrev pub checked : Request → Request
checked q = record q { ignore_acl = true }

-- The check passes, and changes nothing.
abbrev pub MayAccess : Host → Permission → Request → Repo → Type 0
MayAccess host p q r = can_access host.config p q r ≡ (ok (checked q), r)

key_in-basename : (p q : Text) (d : Option ℕ) → basename p ≡ basename q → key_in p d ≡ key_in q d
key_in-basename p q none e = refl
key_in-basename p q (some d) e = ap (λ name. some (d, name)) e

pub file_at-SameFile : (r : Repo) (p q : Text) → SameFile p q → file_at r p ≡ file_at r q
unfolding file_at key_of
file_at-SameFile r p q same = ap (row_at r) (
    ap (λ t. key_in p (find_directory r.acl.db t)) same.0
    ∙ key_in-basename p q (find_directory r.acl.db (parse_dir q)) same.1)

pub same_or_not : (p q : Text) → SameFile p q ⊎ (¬ SameFile p q)
same_or_not p q = elim (parse_dir p =? parse_dir q) [
  | inr other ↦ inr (λ same. other same.0)
  | inl dirs ↦ elim (basename p =? basename q) [
    | inr other ↦ inr (λ same. other same.1)
    | inl names ↦ inl (dirs, names)
  ]
]

-- What a read answers.
abbrev pub answer : Text → Option Bytes → Result FsError Bytes
answer p none = err (missing_file p)
answer p (some c) = ok c

-- The path holds these bytes and every other path what it held.
pub record IsUpdated (host : Host) (p : Text) (c : Bytes) (r r' : Repo) : Type 0 where
  pub here : contents host r' p ≡ some c
  pub others : (q : Text) → ¬ SameFile q p → contents host r' q ≡ contents host r q

module _ (host : Host) (q : Request) (src : Source) (b : Bytes) (r r' : Repo)
    (ready : IsReady host q src b r) (filled : IsFilled host r) (w : IsWritten host q b r r') where
  abbrev home : Text
  home = disk_path host.env (host.env.sha256 b)

  abbrev new : Bytes
  new = or_bytes (lookup home r.disk) b

  at_home : lookup home r'.disk ≡ some new
  at_home =
      w.disk home ∙ after_put-home ready.lawful (host.uuid r.drawn) ready.uuid b w.quads r.disk

  -- What lies under a digest stays.
  kept :
      (h : Text) (c : Bytes)
      → IsDigest h
      → lookup (disk_path host.env h) r.disk ≡ some c
      → lookup (disk_path host.env h) r'.disk ≡ some c
  kept h c d e = elim (h =? host.env.sha256 b) [
    | inl same ↦ let place = ap (disk_path host.env) same in ground (arith, same, place, e, at_home)
    | inr other ↦
        w.disk (disk_path host.env h)
        ∙ after_put-other ready.lawful (host.uuid r.drawn) ready.uuid b w.quads r.disk h d other
        ∙ e
  ]

  updated : IsUpdated host q.file_path new r r'
  unfolding contents
  updated = record {
    here = ground (arith, w.here, ap (disk_path host.env) w.hash, at_home);
    others = λ p n. elim (Option-cases (file_at r p)) [
      | inl missing ↦ ground (arith, w.others p n, missing)
      | inr (row, there) ↦
          let (d, stored) = filled p row there in
          ground (arith, w.others p n, there, stored.1, kept row.hash stored.0 d stored.1)
    ];
  }

  still-IsFilled : IsFilled host r'
  still-IsFilled p row there = elim (same_or_not p q.file_path) [
    | inl same ↦
        let found = sym (sym w.here ∙ sym (file_at-SameFile r' p q.file_path same) ∙ there) in
        let hash = ap (λ (f : Row). f.hash) (some-injective row w.row found) ∙ w.hash in
        (
          subst IsDigest (sym hash) (ready.lawful.digest b),
          (new, ap (λ h. lookup (disk_path host.env h) r'.disk) hash ∙ at_home),
        )
    | inr other ↦
        let (d, stored) = filled p row (sym (w.others p other) ∙ there) in
        (d, (stored.0, kept row.hash stored.0 d stored.1))
  ]

-- What a write of the bytes needs: a requestor who may write, a store and a path that are in order,
-- and content for every file.
pub record IsWritable (host : Host) (q : Request) (src : Source) (b : Bytes) (r : Repo)
    : Type 0 where
  pub may : MayAccess host Permission.write q r
  pub ready : IsReady host (checked q) src b r
  pub named : IsNamed (checked q) r
  pub filled : IsFilled host r

-- What the store has under the hash of the bytes after they were written.
abbrev pub stored_bytes : Host → Bytes → Repo → Bytes
stored_bytes host b r = or_bytes (lookup (disk_path host.env (host.env.sha256 b)) r.disk) b

-- A write that ends well. The actions name neither an insert nor a change of metadata where a file is
-- replaced that had another hash.
pub record Succeeds (host : Host) (q : Request) (b : Bytes) (r : Repo) : Type 0 where
  pub done : Actions
  pub after : Repo
  pub run : write host q r ≡ (ok (record { error = none; actions = done }), after)
  pub update : IsUpdated host q.file_path (stored_bytes host b r) r after
  pub filled : IsFilled host after
  pub sound : IsSound after
  pub silent :
      (old : Row)
      → file_at r q.file_path ≡ some old
      → old.hash ≢ host.env.sha256 b
      → (done.file_insert ≡ false) × (done.updated_metadata ≡ false)

pub write_succeeds :
    (host : Host) (q : Request) (src : Source) (b : Bytes) (r : Repo)
    → IsWritable host q src b r
    → IsOpen host (checked q) b r
    → Succeeds host q b r
unfolding write
write_succeeds host q src b r c way =
    let (r', a, run, w, silent) =
      body_lem host (checked q) src b r refl c.ready c.named no_actions way in
    let copied = not (is_some (lookup (disk_path host.env (host.env.sha256 b)) r.disk)) in
    record {
      done = record a { file_copied_to_cas = copied };
      after = r';
      run = ground (arith, c.named.path, c.may, run);
      update = updated host (checked q) src b r r' c.ready c.filled w;
      filled = still-IsFilled host (checked q) src b r r' c.ready c.filled w;
      sound = w.sound;
      silent = silent;
    }

-- Writing to a path that is free, or whose file is to be replaced, succeeds and updates that path
-- alone: it then holds the bytes, or what the store had under their hash, and every other path
-- what it held; every file still has its content. The requestor may write, and the store and the path
-- are as a write needs them. The linked data of a new file can be parsed, and its names and partition
-- keys have room in their columns. Where the partition keys are set, which is for a new file and for one
-- with the same content, the auto-path rules that they come from are there.
pub write-IsUpdated :
    (host : Host) (q : Request) (src : Source) (b : Bytes) (r : Repo)
    → IsWritable host q src b r
    → IsOpen host (checked q) b r
    → (done : Actions) × (r' : Repo) × (write host q r
        ≡ (ok (record { error = none; actions = done }), r'))
      × IsUpdated host q.file_path (stored_bytes host b r) r r'
      × IsFilled host r'
      × IsSound r'
write-IsUpdated host q src b r c way =
    let s = write_succeeds host q src b r c way in
    (s.done, s.after, s.run, s.update, s.filled, s.sound)

-- A read answers what the path holds, and that the file is missing if there is none. The requestor may
-- read.
pub read_file_lem :
    (host : Host) (q : Request) (r : Repo)
    → MayAccess host Permission.read q r
    → IsFilled host r
    → (read_file host q r).0 ≡ answer q.file_path (contents host r q.file_path)
unfolding read_file contents Cas.read
read_file_lem host q r may filled = elim (Option-cases (file_at r q.file_path)) [
  | inl missing ↦ ground (arith, may, missing)
  | inr (row, there) ↦ ground (arith, may, there, (filled q.file_path row there).1.1)
]
