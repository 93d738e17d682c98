-- ===== src/Acl/Making.antt =====
-- src/lib/directory.js: what `mkdir` leaves.
use caskfs.Base.{ℕ, ◌≡◌, refl, sym, ap, ◌∙◌, Bool, true, arith, nat_eq, list_eq, ◌==◌}
use caskfs.Base.{Option, none, some, is_some, Option-cases, inl, inr}
use caskfs.Base.{List, [], ◌∷◌, ◌++◌, find, All, All-append, append-nil, append_assoc}
use caskfs.Base.Text.{Text}
use caskfs.Paths.{slash, parts, join, path_of, IsClean, join-path_of, parts-path_of}
use caskfs.Acl.Db.{Db, Directory}
use caskfs.Acl.Checks.{find_directory, directory_id_of}
use caskfs.Acl.Tables.{get_root_directory_acl}
use caskfs.Acl.Facade.{add_directory, mark, or_own, make_missing, make_one, make_parts, mkdir}

-- The directories that are visited, one for each part of the path.
abbrev pub visited : Text → List Text → List Text
visited current [] = []
visited current (p ∷ ps) = join current p ∷ visited (join current p) ps

abbrev pub last_of : Text → List Text → Text
last_of q [] = q
last_of q (p ∷ ps) = last_of p ps

abbrev pub IsThere : Db → Text → Type 0
IsThere db q = is_some (find_directory db q) ≡ true

abbrev pub has_name : Text → Directory → Bool
has_name q d = d.fullname == q

found_in_front :
    (q : Text) (e : Directory) (ds : List Directory) (i : ℕ)
    → directory_id_of (find (has_name q) ds) ≡ some i
    → directory_id_of (find (has_name q) (ds ++ e ∷ [])) ≡ some i
found_in_front q e [] i h = ground (arith, h)
found_in_front q e (d ∷ ds) i h = ground (arith, h, found_in_front q e ds i)

found_at_end :
    (q : Text) (e : Directory) (ds : List Directory)
    → directory_id_of (find (has_name q) ds) ≡ none
    → e.fullname ≡ q
    → directory_id_of (find (has_name q) (ds ++ e ∷ [])) ≡ some e.directory_id
found_at_end q e [] h same = ground (arith, same)
found_at_end q e (d ∷ ds) h same = ground (arith, h, same, found_at_end q e ds)

mark_same :
    (acl : Option ℕ) (d : ℕ) (db : Db) (q : Text)
    → find_directory (mark acl d db) q ≡ find_directory db q
unfolding find_directory
mark_same none d db q = refl
mark_same (some a) d db q = refl

-- The directory that is added, and the ACL that it comes under.
abbrev pub added : Text → Option ℕ → Db → Directory
added path parent db = record { directory_id = db.next_id; fullname = path; parent_id = parent }

abbrev passed : Text → Option ℕ → Option ℕ → Db → Option ℕ
passed path parent acl db = or_own acl (get_root_directory_acl (add_directory path parent db) path)

module _ (parent acl : Option ℕ) (db : Db) (path : Text) where
  pub after_adding :
      (q : Text)
      → find_directory db path ≡ none
      → find_directory (make_one path parent acl db).1 q
        ≡ directory_id_of (find (has_name q) (db.directories ++ added path parent db ∷ []))
  unfolding make_one find_directory
  after_adding q missing =
      ap (λ o. find_directory (make_missing path parent acl db o).1 q) missing
      ∙ mark_same (passed path parent acl db) db.next_id (add_directory path parent db) q

  one_keeps :
      (q : Text) (i : ℕ)
      → find_directory db q ≡ some i
      → find_directory (make_one path parent acl db).1 q ≡ some i
  unfolding make_one find_directory
  one_keeps q i h = elim (Option-cases (find_directory db path)) [
    | inl missing ↦
        after_adding q missing ∙ found_in_front q (added path parent db) db.directories i h
    | inr (d, there) ↦ ap (λ o. find_directory (make_missing path parent acl db o).1 q) there ∙ h
  ]

  one_makes :
      (i : ℕ) × ((make_one path parent acl db).0.0 ≡ some i)
      × (find_directory (make_one path parent acl db).1 path ≡ some i)
  unfolding make_one find_directory
  one_makes = elim (Option-cases (find_directory db path)) [
    | inl missing ↦ (
      db.next_id,
      ap (λ o. (make_missing path parent acl db o).0.0) missing,
      after_adding path missing
          ∙ found_at_end path (added path parent db) db.directories missing refl,
    )
    | inr (d, there) ↦ (
      d,
      ap (λ o. (make_missing path parent acl db o).0.0) there,
      ap (λ o. find_directory (make_missing path parent acl db o).1 path) there ∙ there,
    )
  ]

parts_keep :
    (current : Text) (ps : List Text) (parent acl : Option ℕ) (db : Db) (q : Text) (i : ℕ)
    → find_directory db q ≡ some i
    → find_directory (make_parts current ps parent acl db).1 q ≡ some i
parts_keep current [] parent acl db q i h = h
parts_keep current (p ∷ ps) parent acl db q i h =
    let r = make_one (join current p) parent acl db in
    parts_keep (join current p) ps r.0.0 r.0.1 r.1 q i
      (one_keeps parent acl db (join current p) q i h)

parts_make :
    (current : Text) (ps : List Text) (parent acl : Option ℕ) (db : Db)
    → parent ≡ find_directory db current
    → All (IsThere (make_parts current ps parent acl db).1) (visited current ps)
      × ((make_parts current ps parent acl db).0
          ≡ find_directory
              (make_parts current ps parent acl db).1
              (last_of current (visited current ps)))
parts_make current [] parent acl db h = (tt, h)
parts_make current (p ∷ ps) parent acl db h =
    let r = make_one (join current p) parent acl db in
    let (i, out, there) = one_makes parent acl db (join current p) in
    let (all, last) = parts_make (join current p) ps r.0.0 r.0.1 r.1 (out ∙ sym there) in
    (
      (ap is_some (parts_keep (join current p) ps r.0.0 r.0.1 r.1 (join current p) i there), all),
      last,
    )

-- After mkdir every directory on the way to the path is there, and what it answers is the id of the
-- last of them; the directories that were there keep their ids.
pub mkdir_lem :
    (path : Text) (db : Db)
    → All (IsThere (mkdir path db).1) (visited (slash ∷ []) (parts path))
      × ((mkdir path db).0
          ≡ find_directory
              (mkdir path db).1
              (last_of (slash ∷ []) (visited (slash ∷ []) (parts path))))
      × ((q : Text) (i : ℕ)
          → find_directory db q ≡ some i
          → find_directory (mkdir path db).1 q ≡ some i)
unfolding mkdir
mkdir_lem path db =
    let root = find_directory db (slash ∷ []) in
    let acl = or_own none (get_root_directory_acl db (slash ∷ [])) in
    let (all, last) = parts_make (slash ∷ []) (parts path) root acl db refl in
    (all, last, parts_keep (slash ∷ []) (parts path) root acl db)

-- Below a clean directory the last directory that is visited is the path itself.
pub last_of-visited :
    (qs ps : List Text)
    → All IsClean qs
    → All IsClean ps
    → last_of (path_of qs) (visited (path_of qs) ps) ≡ path_of (qs ++ ps)
last_of-visited qs [] h k = ap path_of (sym (append-nil qs))
last_of-visited qs (p ∷ ps) h k =
    let one = join-path_of qs p [] h (k.0, tt) in
    ap (λ t. last_of t (visited t ps)) one
    ∙ last_of-visited (qs ++ p ∷ []) ps (All-append IsClean qs (p ∷ []) h (k.0, tt)) k.1
    ∙ ap path_of (append_assoc qs (p ∷ []) ps)

-- mkdir answers the id of the directory of a clean path.
pub mkdir-path_of :
    (ps : List Text) (db : Db)
    → All IsClean ps
    → (mkdir (path_of ps) db).0 ≡ find_directory (mkdir (path_of ps) db).1 (path_of ps)
mkdir-path_of ps db h =
    (mkdir_lem (path_of ps) db).1
    ∙ ap (find_directory (mkdir (path_of ps) db).1) (
        ap (λ r. last_of (slash ∷ []) (visited (slash ∷ []) r)) (parts-path_of ps h)
        ∙ last_of-visited [] ps tt h)

last-IsThere :
    (db : Db) (q : Text) (qs : List Text)
    → IsThere db q
    → All (IsThere db) qs
    → IsThere db (last_of q qs)
last-IsThere db q [] h a = h
last-IsThere db q (p ∷ qs) h a = last-IsThere db p qs a.0 a.1

-- With a root, mkdir answers an id for a clean path, and the directory has it.
pub mkdir-some :
    (ps : List Text) (db : Db) (root : ℕ)
    → All IsClean ps
    → find_directory db (slash ∷ []) ≡ some root
    → (d : ℕ) × ((mkdir (path_of ps) db).0 ≡ some d)
      × (find_directory (mkdir (path_of ps) db).1 (path_of ps) ≡ some d)
mkdir-some ps db root h there =
    let after = (mkdir (path_of ps) db).1 in
    let (all, last, kept) = mkdir_lem (path_of ps) db in
    let top : IsThere after (slash ∷ []) = ap is_some (kept (slash ∷ []) root there) in
    let found =
      last-IsThere after (slash ∷ []) (visited (slash ∷ []) (parts (path_of ps))) top all in
    elim (Option-cases (mkdir (path_of ps) db).0) [
      | inl missing ↦ absurd (ground (arith, missing, last, found))
      | inr (d, made) ↦ (d, made, sym (mkdir-path_of ps db h) ∙ made)
    ]
