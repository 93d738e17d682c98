-- ===== src/Files/Changes.antt =====
-- src/lib/database/index.js: what the statements on the table `file` leave of its rows.
use caskfs.Base.{ℕ, suc, ◌≤◌, ◌≡◌, refl, ap, ◌∙◌, arith, nat_eq, list_eq, pair_eq}
use caskfs.Base.{true, contains, length, List, [], none, some, Option-cases, ◌=?◌, ◌⊎◌, inl, inr}
use caskfs.Base.Dict.{lookup, insert, lookup-insert}
use caskfs.Base.Text.{Text}
use caskfs.Base.Exec.{ok}
use caskfs.Paths.{basename, parse_dir}
use caskfs.Acl.Checks.{find_directory}
use caskfs.Acl.Trees.{IsTree, IsGrown, mkdir-IsTree}
use caskfs.Metadata.{Metadata, KeyTables}
use caskfs.Files.Repo.{Row, Repo}
use caskfs.Files.Rows.{key_of, file_at, insert_file, update_file, change_file, add_hash}
use caskfs.Files.Write.{make_directory}

-- The ids of directories are apart, and the rows of files lie in directories and have hashes that
-- the table `hash` has.
pub record IsSound (r : Repo) : Type 0 where
  pub tree : IsTree r.acl.db
  pub placed :
      (d : ℕ) (name : Text) (row : Row)
      → lookup (d, name) r.rows ≡ some row
      → suc d ≤ r.acl.db.next_id
  pub listed :
      (k : ℕ × Text) (row : Row) → lookup k r.rows ≡ some row → contains r.hashes row.hash ≡ true

-- Two paths that name one file.
abbrev pub SameFile : Text → Text → Type 0
SameFile p q = (parse_dir p ≡ parse_dir q) × (basename p ≡ basename q)

-- The file of a path is this row, all other files are as they were, and so is the disk.
pub record IsChanged (p : Text) (row : Row) (r r' : Repo) : Type 0 where
  pub sound : IsSound r'
  pub here : file_at r' p ≡ some row
  pub others : (q : Text) → ¬ SameFile q p → file_at r' q ≡ file_at r q
  pub disk : r'.disk ≡ r.disk

pub Changed-trans :
    (p : Text) (row row' : Row) (a b c : Repo)
    → IsChanged p row a b
    → IsChanged p row' b c
    → IsChanged p row' a c
Changed-trans p row row' a b c g h = record {
  sound = h.sound;
  here = h.here;
  others = λ q n. h.others q n ∙ g.others q n;
  disk = h.disk ∙ g.disk;
}

pub same_key : (k j : ℕ × Text) → (k ≡ j) ⊎ (¬ (k ≡ j))
same_key k j = k =? j

-- The table `hash` takes a value once.
pub add_hash_grown :
    (h : Text) (hs : List Text) (k : Text)
    → contains hs k ≡ true
    → contains (add_hash h hs) k ≡ true
add_hash_grown h hs k e = ground (arith, e)

pub add_hash_has : (h : Text) (hs : List Text) → contains (add_hash h hs) h ≡ true
add_hash_has h hs = ground arith

abbrev pub stored : Repo → Text → ℕ → Row → List Text → ℕ → Repo
stored r p d row hs n = record r {
  rows = insert (d, basename p) row r.rows;
  hashes = hs;
  next_file = n;
}

abbrev pub new_row : Repo → Text → Metadata → Text → Row
new_row r h m user = record {
  file_id = r.next_file;
  hash = h;
  metadata = m;
  last_modified_by = user;
  nquads = [];
  partition_keys = [];
}

-- A state with a row more, or another row, in a directory that is there.
module _ (r : Repo) (s : IsSound r) (p : Text) (d : ℕ) (row : Row)
    (dir : find_directory r.acl.db (parse_dir p) ≡ some d) (hs : List Text) (n : ℕ)
    (grown : (h : Text) → contains r.hashes h ≡ true → contains hs h ≡ true)
    (has : contains hs row.hash ≡ true) where
  abbrev after : Repo
  after = stored r p d row hs n

  stored_here : file_at after p ≡ some row
  unfolding file_at key_of
  stored_here = ground (arith, dir, lookup-insert (d, basename p) (d, basename p) row r.rows)

  stored_others : (q : Text) → ¬ SameFile q p → file_at after q ≡ file_at r q
  unfolding file_at key_of
  stored_others q other = elim (Option-cases (find_directory r.acl.db (parse_dir q))) [
    | inl missing ↦ ground (arith, missing)
    | inr (e, there) ↦ elim (same_key (e, basename q) (d, basename p)) [
      | inl same ↦ absurd (
          other (
            s.tree.injective (parse_dir q) (parse_dir p) d (there ∙ ap (λ k. some (k.0)) same) dir,
            ap (λ k. k.1) same,
          ))
      | inr apart ↦
          ground (arith, there, apart, lookup-insert (e, basename q) (d, basename p) row r.rows)
    ]
  ]

  stored_placed :
      (e : ℕ) (name : Text) (found : Row)
      → lookup (e, name) after.rows ≡ some found
      → suc e ≤ r.acl.db.next_id
  stored_placed e name found h = elim (same_key (e, name) (d, basename p)) [
    | inl same ↦ rw (ap (λ k. k.0) same) (s.tree.bounded (parse_dir p) d dir)
    | inr apart ↦
        s.placed e name found
          (ground (arith, apart, h, lookup-insert (e, name) (d, basename p) row r.rows))
  ]

  stored_listed :
      (k : ℕ × Text) (found : Row)
      → lookup k after.rows ≡ some found
      → contains hs found.hash ≡ true
  stored_listed k found h = elim (same_key k (d, basename p)) [
    | inl same ↦ ground (arith, same, h, has, lookup-insert k (d, basename p) row r.rows)
    | inr apart ↦
        grown found.hash
          (s.listed k found (ground (arith, apart, h, lookup-insert k (d, basename p) row r.rows)))
  ]

  pub stored-IsChanged : IsChanged p row r after
  stored-IsChanged = record {
    sound = record { tree = s.tree; placed = stored_placed; listed = stored_listed };
    here = stored_here;
    others = stored_others;
    disk = refl;
  }

pub row_at_key :
    (r : Repo) (p : Text) (d : ℕ)
    → find_directory r.acl.db (parse_dir p) ≡ some d
    → lookup (d, basename p) r.rows ≡ file_at r p
unfolding file_at key_of
row_at_key r p d dir = ground (arith, dir)

-- The directory of a file that is there.
pub directory_of :
    (r : Repo) (p : Text) (row : Row)
    → file_at r p ≡ some row
    → (d : ℕ) × (find_directory r.acl.db (parse_dir p) ≡ some d)
unfolding file_at key_of
directory_of r p row h = elim (Option-cases (find_directory r.acl.db (parse_dir p))) [
  | inl missing ↦ absurd (ground (arith, missing, h))
  | inr there ↦ there
]

change_file-row :
    (r : Repo) (p : Text) (f : Row → Row) (row : Row) (d : ℕ)
    → find_directory r.acl.db (parse_dir p) ≡ some d
    → file_at r p ≡ some row
    → change_file p f r ≡ (ok tt, stored r p d (f row) r.hashes r.next_file)
unfolding change_file file_at key_of
change_file-row r p f row d dir h = ground (arith, dir, h)

-- A change of a row that keeps its hash.
pub change_file-IsChanged :
    (r : Repo) (s : IsSound r) (p : Text) (f : Row → Row) (row : Row)
    → file_at r p ≡ some row
    → (f row).hash ≡ row.hash
    → IsChanged p (f row) r (change_file p f r).1
change_file-IsChanged r s p f row h same =
    let (d, dir) = directory_of r p row h in
    let has =
      ap (contains r.hashes) same ∙ s.listed (d, basename p) row (row_at_key r p d dir ∙ h) in
    rw (change_file-row r p f row d dir h)
      (stored-IsChanged r s p d (f row) dir r.hashes r.next_file (λ k e. e) has)

module _ (r : Repo) (p : Text) (d : ℕ) (dir : find_directory r.acl.db (parse_dir p) ≡ some d)
    (h : Text) (m : Metadata) (user : Text) where
  pub insert_file-new :
      length (basename p) ≤ 256
      → file_at r p ≡ none
      → insert_file (some d) p h m (some user) r
        ≡ (ok tt, stored r p d (new_row r h m user) (add_hash h r.hashes) (suc r.next_file))
  unfolding insert_file file_at key_of
  insert_file-new short free = ground (arith, dir, short, free)

  pub update_file-row :
      (row : Row)
      → file_at r p ≡ some row
      → update_file (some d) p h m (some user) r ≡ (
        ok tt,
        stored r p d
            (record row { hash = h; metadata = m; last_modified_by = user })
            (add_hash h r.hashes)
            r.next_file,
      )
  unfolding update_file file_at key_of
  update_file-row row there = ground (arith, dir, there)

-- Making directories moves no file.
module _ (r : Repo) (s : IsSound r) (path : Text) where
  abbrev pub made : Repo
  made = (make_directory path r).1

  abbrev grown : IsTree made.acl.db × IsGrown r.acl.db made.acl.db
  grown = mkdir-IsTree (parse_dir path) r.acl.db s.tree

  pub file_at-make_directory : (q : Text) → file_at made q ≡ file_at r q
  unfolding file_at key_of
  file_at-make_directory q = elim (Option-cases (find_directory made.acl.db (parse_dir q))) [
    | inl missing ↦ elim (Option-cases (find_directory r.acl.db (parse_dir q))) [
      | inl also ↦ ground (arith, missing, also)
      | inr (d, there) ↦ absurd (cc (missing, grown.1.kept (parse_dir q) d there))
    ]
    | inr (d, there) ↦ elim (grown.1.fresh (parse_dir q) d there) [
      | inl old ↦ ground (arith, there, old)
      | inr new ↦ elim (Option-cases (lookup (d, basename q) r.rows)) [
        | inl free ↦ elim (Option-cases (find_directory r.acl.db (parse_dir q))) [
          | inl also ↦ ground (arith, there, free, also)
          | inr (e, old) ↦ ground (arith, there, old, grown.1.kept (parse_dir q) e old)
        ]
        | inr (row, found) ↦ absurd (omega (arith, s.placed d (basename q) row found, new))
      ]
    ]
  ]

  pub make_directory-IsSound : IsSound made
  make_directory-IsSound = record {
    tree = grown.0;
    placed = λ d name row h. omega (arith, s.placed d name row h, grown.1.next);
    listed = s.listed;
  }

-- The tables of partition keys have no part in where files are.
pub rekeyed-IsChanged :
    (r : Repo) (s : IsSound r) (p : Text) (t : KeyTables) (row : Row)
    → file_at r p ≡ some row
    → IsChanged p row r (record r { keys = t })
unfolding file_at key_of
rekeyed-IsChanged r s p t row h = record {
  sound = record { tree = s.tree; placed = s.placed; listed = s.listed };
  here = h;
  others = λ q n. refl;
  disk = refl;
}

pub keys-change_file :
    (r : Repo) (p : Text) (f : Row → Row) (row : Row)
    → file_at r p ≡ some row
    → (change_file p f r).1.keys ≡ r.keys
keys-change_file r p f row h =
    let (d, dir) = directory_of r p row h in ap (λ x. x.1.keys) (change_file-row r p f row d dir h)
