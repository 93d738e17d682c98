-- ===== src/Acl/Trees.antt =====
-- src/lib/directory.js: the ids of directories, and how `mkdir` adds to them.
use caskfs.Base.{ℕ, suc, ◌≤◌, ◌≡◌, refl, sym, ap, ◌∙◌, arith, nat_eq, list_eq, ◌==◌}
use caskfs.Base.{Option, none, some, Option-cases, ◌⊎◌, inl, inr, if◌then◌else◌}
use caskfs.Base.{List, [], ◌∷◌, ◌++◌, find, ◌=?◌}
use caskfs.Base.Text.{Text}
use caskfs.Paths.{slash, parts, join}
use caskfs.Acl.Db.{Db, Directory}
use caskfs.Acl.Checks.{find_directory, directory_id_of}
use caskfs.Acl.Facade.{add_directory, mark, make_missing, make_one, make_parts, mkdir}
use caskfs.Acl.Making.{has_name, added, after_adding}

-- The ids of directories lie below the next one, and no two directories share one.
pub record IsTree (db : Db) : Type 0 where
  pub bounded : (q : Text) (i : ℕ) → find_directory db q ≡ some i → suc i ≤ db.next_id
  pub injective :
      (p q : Text) (i : ℕ) → find_directory db p ≡ some i → find_directory db q ≡ some i → p ≡ q

-- The directories of one state are there in the other, and what is new there has a new id.
pub record IsGrown (db db' : Db) : Type 0 where
  pub next : db.next_id ≤ db'.next_id
  pub kept : (q : Text) (i : ℕ) → find_directory db q ≡ some i → find_directory db' q ≡ some i
  pub fresh :
      (q : Text) (i : ℕ)
      → find_directory db' q ≡ some i
      → (find_directory db q ≡ some i) ⊎ (db.next_id ≤ i)

abbrev or_id : Option ℕ → Option ℕ → Option ℕ
or_id none b = b
or_id (some a) b = some a

find-append :
    (q : Text) (e : Directory) (ds : List Directory)
    → directory_id_of (find (has_name q) (ds ++ e ∷ []))
      ≡ or_id
          (directory_id_of (find (has_name q) ds))
          (if e.fullname == q then some e.directory_id else none)
find-append q e [] = ground arith
find-append q e (d ∷ ds) = ground (arith, find-append q e ds)

Grown-refl : (db : Db) → IsGrown db db
Grown-refl db = record { next = omega arith; kept = λ q i h. h; fresh = λ q i h. inl h }

Grown-trans : (a b c : Db) → IsGrown a b → IsGrown b c → IsGrown a c
Grown-trans a b c g h = record {
  next = omega (arith, g.next, h.next);
  kept = λ q i k. h.kept q i (g.kept q i k);
  fresh = λ q i k. elim (h.fresh q i k) [
    | inl old ↦ g.fresh q i old
    | inr new ↦ inr (omega (arith, g.next, new))
  ];
}

next-mark : (acl : Option ℕ) (d : ℕ) (db : Db) → (mark acl d db).next_id ≡ db.next_id
next-mark none d db = refl
next-mark (some a) d db = refl

module _ (parent acl : Option ℕ) (db : Db) (path : Text) where
  abbrev after : Db
  after = (make_one path parent acl db).1

  found :
      find_directory db path ≡ none
      → (q : Text)
      → find_directory after q
        ≡ or_id (find_directory db q) (if path == q then some db.next_id else none)
  unfolding find_directory
  found missing q =
      after_adding parent acl db path q missing
      ∙ find-append q (added path parent db) db.directories

  next-make_one : find_directory db path ≡ none → after.next_id ≡ suc db.next_id
  unfolding make_one find_directory
  next-make_one missing =
      ap (λ o. (make_missing path parent acl db o).1.next_id) missing
      ∙ next-mark _ db.next_id (add_directory path parent db)

  -- What is found afterwards was there, or is the directory that was added.
  origin :
      find_directory db path ≡ none
      → (q : Text) (i : ℕ) → find_directory after q ≡ some i
      → (find_directory db q ≡ some i) ⊎ ((path ≡ q) × (i ≡ db.next_id))
  origin missing q i h = elim (Option-cases (find_directory db q)) [
    | inr (j, there) ↦ inl (there ∙ sym (ground (arith, found missing q, there)) ∙ h)
    | inl new ↦ elim (path =? q) [
      | inl same ↦ inr (same, ground (arith, found missing q, new, same, h))
      | inr other ↦ absurd (ground (arith, found missing q, new, other, h))
    ]
  ]

  grown_by_one : IsTree db → find_directory db path ≡ none → IsTree after × IsGrown db after
  grown_by_one t missing = (
    record {
      bounded = λ q i h. elim (origin missing q i h) [
        | inl old ↦ omega (arith, t.bounded q i old, next-make_one missing)
        | inr (same, new) ↦ omega (arith, new, next-make_one missing)
      ];
      injective = λ p q i h k. elim (origin missing p i h) [
        | inl old ↦ elim (origin missing q i k) [
          | inl also ↦ t.injective p q i old also
          | inr (same, new) ↦ absurd (omega (arith, t.bounded p i old, new))
        ]
        | inr (same, new) ↦ elim (origin missing q i k) [
          | inl also ↦ absurd (omega (arith, t.bounded q i also, new))
          | inr (again, new') ↦ sym same ∙ again
        ]
      ];
    },
    record {
      next = omega (arith, next-make_one missing);
      kept = λ q i h. ground (arith, found missing q, h);
      fresh = λ q i h. elim (origin missing q i h) [
        | inl old ↦ inl old
        | inr (same, new) ↦ inr (omega (arith, new))
      ];
    },
  )

  one_grows : IsTree db → IsTree after × IsGrown db after
  unfolding make_one find_directory
  one_grows t = elim (Option-cases (find_directory db path)) [
    | inl missing ↦ grown_by_one t missing
    | inr (d, there) ↦ rw (ap (λ o. (make_missing path parent acl db o).1) there) (t, Grown-refl db)
  ]

parts_grow :
    (current : Text) (ps : List Text) (parent acl : Option ℕ) (db : Db)
    → IsTree db
    → IsTree (make_parts current ps parent acl db).1
      × IsGrown db (make_parts current ps parent acl db).1
parts_grow current [] parent acl db t = (t, Grown-refl db)
parts_grow current (p ∷ ps) parent acl db t =
    let r = make_one (join current p) parent acl db in
    let (t', g) = one_grows parent acl db (join current p) t in
    let (t'', g') = parts_grow (join current p) ps r.0.0 r.0.1 r.1 t' in
    (t'', Grown-trans db r.1 _ g g')

-- After mkdir the ids of directories are still apart, and the new directories have new ones.
pub mkdir-IsTree :
    (path : Text) (db : Db) → IsTree db → IsTree (mkdir path db).1 × IsGrown db (mkdir path db).1
unfolding mkdir
mkdir-IsTree path db t = parts_grow (slash ∷ []) (parts path) _ _ db t
