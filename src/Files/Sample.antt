-- ===== src/Files/Sample.antt =====
-- src/index.js: a repository with one file. The access control is off, nothing is parsed, hashes go by
-- the length, and an auto-path rule gives each file a partition key.
use caskfs.Base.{ℕ, ◌≤◌, ◌≡◌, ◌≢◌, refl, sym, ap, ◌∙◌, false, inl, inr}
use caskfs.Base.{none, arith, nat_eq, list_eq, pair_eq, [], ◌∷◌}
use caskfs.Base.{◌+◌, length, ◌=?◌, contains}
use caskfs.Base.Dict.{lookup}
use caskfs.Base.Text.{Text, codes}
use caskfs.Paths.{slash, path_of, IsClean, basename}
use caskfs.Cas.{Bytes, disk_path, tmp_path}
use caskfs.Cas.Layout.{disk_path_injective, tmp_path-ne-disk_path}
use caskfs.Cas.Staging.{Source, input_of, IsAddressed, Provides}
use caskfs.Cas.Tests.{env, env-IsLawful, digest_of, digest_of-IsDigest, uuid, uuid-IsUuid}
use caskfs.Acl.Db.{Db}
use caskfs.Acl.Checks.{find_directory}
use caskfs.Acl.Trees.{IsTree}
use caskfs.Files.Repo.{Row, Repo, Host, Request, store_of}
use caskfs.Files.Changes.{IsSound, directory_of, row_at_key}
use caskfs.Files.Contents.{IsFilled}
use caskfs.Files.Storing.{IsReady}
use caskfs.Files.Writing.{IsNamed}
use caskfs.Files.Saving.{IsKeyed}
use caskfs.Metadata.{Fits, or_none}
use caskfs.Base.{All, map, ◌++◌, subst, some}

abbrev pub host : Host
host = record {
  env = env;
  config = record {
    enabled = false;
    enabled_cache = false;
    admin_role = codes "admin";
    super_admin_user = codes "root";
  };
  max_files = 10;
  uuid = λ n. uuid;
  get_type = λ path. none;
  auto_keys = λ path. record { name = codes "year"; value = codes "year-2024" } ∷ [];
  parse_linked_data = λ path m content. some (none, []);
}

abbrev pub tables : Db
tables = record {
  next_id = 1;
  roles = [];
  users = [];
  role_users = [];
  directories = record { directory_id = 0; fullname = slash ∷ []; parent_id = none } ∷ [];
  root_acls = [];
  directory_acls = [];
  grants = [];
  files = [];
}

abbrev pub first : Bytes
first = 1 ∷ 2 ∷ 3 ∷ []

abbrev pub second : Bytes
second = 4 ∷ []

abbrev pub name : Text
name = codes "a"

abbrev pub row : Row
row = record {
  file_id = 0;
  hash = digest_of first;
  metadata = [];
  last_modified_by = codes "ann";
  nquads = [];
  partition_keys = [];
}

-- The path /a has the first content; the second has no file.
abbrev pub repo : Repo
repo = record {
  acl = record { user_roles = []; dir_permissions = []; db = tables };
  rows = ((0, name), row) ∷ [];
  hashes = digest_of first ∷ [];
  keys = record { rules = (codes "year", 1) ∷ []; keys = [] };
  next_file = 1;
  disk = (disk_path env (digest_of first), first) ∷ (disk_path env (digest_of second), second) ∷ [];
  drawn = 0;
}

only_root : (q : Text) (i : ℕ) → find_directory tables q ≡ some i → (i ≡ 0) × (q ≡ slash ∷ [])
unfolding find_directory
only_root q i h = ground arith

only_row : (k : ℕ × Text) (f : Row) → lookup k repo.rows ≡ some f → (k ≡ (0, name)) × (f ≡ row)
unfolding lookup
only_row k f h = ground arith

pub tables-IsTree : IsTree tables
tables-IsTree = record {
  bounded = λ q i h. omega (arith, (only_root q i h).0);
  injective = λ p q i h k. (only_root p i h).1 ∙ sym (only_root q i k).1;
}

pub repo-IsSound : IsSound repo
unfolding nat_eq list_eq
repo-IsSound = record {
  tree = tables-IsTree;
  placed = λ d n f h. omega (arith, ap (λ k. k.0) (only_row (d, n) f h).0);
  listed = λ k f h. ap (λ (g : Row). contains repo.hashes g.hash) (only_row k f h).1;
}

abbrev home : Bytes → Text
home b = disk_path env (digest_of b)

abbrev head_of : Text → ℕ
head_of [] = 0
head_of (c ∷ t) = c

pub hashes_apart : digest_of first ≢ digest_of second
hashes_apart e = absurd (omega (arith, ap head_of e))

homes_apart : home second ≢ home first
homes_apart e = absurd (
    omega (
      arith,
      ap head_of (
          disk_path_injective env-IsLawful (digest_of second) (digest_of first)
            (digest_of-IsDigest second) (digest_of-IsDigest first) e),
    ))

pub at_first : lookup (home first) repo.disk ≡ some first
unfolding lookup
at_first = ground arith

pub at_second : lookup (home second) repo.disk ≡ some second
unfolding lookup
at_second = ground (arith, homes_apart)

-- Two bytes are not in the store.
pub not_stored : lookup (home (9 ∷ 9 ∷ [])) repo.disk ≡ none
unfolding lookup
not_stored = ground (arith, other first (omega arith), other second (omega arith))
  where
    other : (b : Bytes) → ¬ (length b + 97 ≡ 99) → home (9 ∷ 9 ∷ []) ≢ home b
    other b n e = n (
        ap head_of (
          disk_path_injective env-IsLawful (digest_of b) (digest_of (9 ∷ 9 ∷ []))
            (digest_of-IsDigest b) (digest_of-IsDigest (9 ∷ 9 ∷ [])) (sym e)))

pub repo-IsFilled : IsFilled host repo
repo-IsFilled p f h =
    let (d, dir) = directory_of repo p f h in
    let same = (only_row (d, basename p) f (row_at_key repo p d dir ∙ h)).1 in
    rw same (digest_of-IsDigest first, (first, at_first))

repo-IsAddressed : IsAddressed env (store_of repo)
unfolding lookup
repo-IsAddressed h b d e = elim (h =? digest_of first) [
  | inl same ↦ ground (arith, same, ap (disk_path env) same, e)
  | inr other ↦ ground (
    arith,
    other,
    e,
    disk_path_injective env-IsLawful h (digest_of first) d (digest_of-IsDigest first),
    disk_path_injective env-IsLawful h (digest_of second) d (digest_of-IsDigest second),
  )
]

tmp_free : lookup (tmp_path env uuid) repo.disk ≡ none
unfolding lookup
tmp_free = ground (
  arith,
  tmp_path-ne-disk_path env-IsLawful uuid (digest_of first) uuid-IsUuid (digest_of-IsDigest first),
  tmp_path-ne-disk_path env-IsLawful uuid (digest_of second) uuid-IsUuid
      (digest_of-IsDigest second),
)

pub request-IsReady :
    (q : Request) (src : Source) (b : Bytes)
    → Provides env (store_of repo) src b
    → q.input ≡ input_of src
    → IsReady host q src b repo
request-IsReady q src b from input = record {
  lawful = env-IsLawful;
  uuid = uuid-IsUuid;
  fresh = tmp_free;
  addressed = repo-IsAddressed;
  provides = from;
  input = input;
}

short-IsClean : (c : ℕ) → 64 ≤ c → IsClean (c ∷ [])
short-IsClean c l = record {
  some_text = λ e. cc;
  no_slash = ((λ e. absurd (omega (arith, l, e))), tt);
  not_dot = λ e. absurd (omega (arith, l, ap head_of e));
  not_dots = λ e. absurd (omega (arith, l, ap head_of e));
}

pub request-IsNamed :
    (q : Request) (c : ℕ)
    → 64 ≤ c
    → q.file_path ≡ path_of ((c ∷ []) ∷ [])
    → q.requestor ≡ some (codes "ann")
    → IsNamed q repo
unfolding find_directory nat_eq list_eq
request-IsNamed q c l path by = record {
  sound = repo-IsSound;
  parts = [];
  name = c ∷ [];
  path = path;
  clean = (short-IsClean c l, tt);
  root = 0;
  root_there = refl;
  user = codes "ann";
  by = by;
}

-- The rule of the partition key is there.
pub request-IsKeyed : (q : Request) → or_none q.partition_keys ≡ [] → IsKeyed host q repo.keys
unfolding lookup nat_eq list_eq
request-IsKeyed q nothing =
    subst
      (λ ks.
        All (Fits repo.keys)
          (map (λ v. (v, none)) ks ++ (codes "year-2024", some (codes "year")) ∷ []))
      (sym nothing) ((omega arith, refl), tt)
