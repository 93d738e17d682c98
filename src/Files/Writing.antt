-- ===== src/Files/Writing.antt =====
-- src/index.js: `write` puts the content under the path, and what it leaves elsewhere.
use caskfs.Base.{length, ◌≤◌, ℕ, suc, ◌≡◌, ◌≢◌, refl, sym, ap, ◌∙◌, true, not, Option-cases}
use caskfs.Base.{Option, none, some, is_some, inl, inr, ◌⊎◌, arith, nat_eq, list_eq}
use caskfs.Base.{contains, List, [], ◌∷◌, ◌++◌, All, All-front}
use caskfs.Base.Dict.{Dict, lookup}
use caskfs.Base.Text.{Text}
use caskfs.Base.Exec.{ok}
use caskfs.Paths.{slash, path_of, IsClean, basename, parse_dir, parse_dir-path_of}
use caskfs.Cas.{Bytes, Store, finalize_write, disk_path}
use caskfs.Cas.Staging.{Source}
use caskfs.Cas.Writing.{after_put}
use caskfs.Cas.Finalizing.{hashes-finalize_write}
use caskfs.Acl.Facade.{mkdir}
use caskfs.Acl.Making.{mkdir-some}
use caskfs.Acl.Checks.{find_directory}
use caskfs.Metadata.{apply_git_patch}
use caskfs.Files.Repo.{Row, Repo, Host, Request, store_of, with_store}
use caskfs.Files.Rows.{file_at, key_of, file_exists}
use caskfs.Files.Kinds.{described, is_rdf}
use caskfs.Files.Write.{
  content_of, Work, Actions, parse, write_body, make_directory, start_replacement,
}
use caskfs.Files.Changes.{IsSound, SameFile, made, file_at-make_directory}
use caskfs.Files.Changes.{make_directory-IsSound}
use caskfs.Files.Saving.{metadata_free, IsKeyed}
use caskfs.Files.Phases.{IsSaved, save_new, save_over}
use caskfs.Files.Storing.{IsReady, IsUnderWay, under_way, place}

-- What the tables need for a write: a clean path, a root directory, and a requestor.
pub record IsNamed (q : Request) (r : Repo) : Type 0 where
  pub sound : IsSound r
  pub parts : List Text
  pub name : Text
  pub path : q.file_path ≡ path_of (parts ++ name ∷ [])
  pub clean : All IsClean (parts ++ name ∷ [])
  pub root : ℕ
  pub root_there : find_directory r.acl.db (slash ∷ []) ≡ some root
  pub user : Text
  pub by : q.requestor ≡ some user

-- The linked data of a new file can be parsed: from its bytes, or, where these are stored already
-- and no temporary file is left, without them.
pub record IsParsed (host : Host) (q : Request) (b : Bytes) (r : Repo) : Type 0 where
  pub from_bytes : is_some (parse host q (apply_git_patch q.git (described host q)) (some b)) ≡ true
  pub without :
      is_some (lookup (disk_path host.env (host.env.sha256 b)) r.disk) ≡ true
      → is_some (parse host q (apply_git_patch q.git (described host q)) none) ≡ true

-- The names of the path have room in their columns.
abbrev pub IsShort : Request → Type 0
IsShort q = (length (parse_dir q.file_path) ≤ 256) × (length (basename q.file_path) ≤ 256)

-- The path is free, linked data can be parsed, and the names and partition keys can be stored; or its
-- file is to be replaced, and the partition keys can be stored, if it has the same content.
abbrev pub IsOpen : Host → Request → Bytes → Repo → Type 0
IsOpen host q b r =
    ((file_at r q.file_path ≡ none) × IsParsed host q b r × IsKeyed host q r.keys × IsShort q)
    ⊎ ((is_some (file_at r q.file_path) ≡ true)
        × (q.replace ≡ true)
        × ((row : Row)
            → file_at r q.file_path ≡ some row
            → row.hash ≡ host.env.sha256 b
            → IsKeyed host q r.keys))

-- The file is written: its row has the hash of the bytes, the other files are as they were, and the
-- disk is that of a write to the store.
pub record IsWritten (host : Host) (q : Request) (b : Bytes) (r r' : Repo) : Type 0 where
  pub row : Row
  pub hash : row.hash ≡ host.env.sha256 b
  pub sound : IsSound r'
  pub here : file_at r' q.file_path ≡ some row
  pub others : (p : Text) → ¬ SameFile p q.file_path → file_at r' p ≡ file_at r p
  pub quads : Option Bytes
  pub disk : (p : Text) → lookup p r'.disk ≡ after_put host.env (host.uuid r.drawn) b quads r.disk p

file_at-with_store : (s : Store) (r : Repo) (p : Text) → file_at (with_store s r) p ≡ file_at r p
unfolding file_at key_of
file_at-with_store s r p = refl

-- The directories that a write makes, on any disk.
module _ (q : Request) (r : Repo) (named : IsNamed q r) (disk : Dict Text Bytes) where
  abbrev pub r1 : Repo
  r1 = record r { drawn = suc r.drawn; disk = disk }

  pub sound1 : IsSound r1
  sound1 = record {
    tree = named.sound.tree;
    placed = named.sound.placed;
    listed = named.sound.listed;
  }

  pub same1 : (p : Text) → file_at r1 p ≡ file_at r p
  unfolding file_at key_of
  same1 p = refl

  abbrev pub r2 : Repo
  r2 = made r1 sound1 q.file_path

  pub directory :
      (d : ℕ) × (make_directory q.file_path r1 ≡ (ok (some d), r2))
      × (find_directory r2.acl.db (parse_dir q.file_path) ≡ some d)
  directory =
      let front = All-front IsClean named.parts named.name named.clean in
      let dir = ap parse_dir named.path ∙ parse_dir-path_of named.parts named.name named.clean in
      let (d, made, there) = mkdir-some named.parts r.acl.db named.root front named.root_there in
      (
        d,
        ap (λ x. (ok x, r2)) (ap (λ t. (mkdir t r.acl.db).0) dir ∙ made),
        ap (λ t. find_directory (mkdir t r.acl.db).1 t) dir ∙ there,
      )

  pub sound2 : IsSound r2
  sound2 = make_directory-IsSound r1 sound1 q.file_path

  pub same2 : file_at r2 q.file_path ≡ file_at r q.file_path
  same2 = file_at-make_directory r1 sound1 q.file_path q.file_path ∙ same1 q.file_path

module _ (host : Host) (q : Request) (src : Source) (b : Bytes) (r : Repo)
    (free : q.ignore_acl ≡ true) (ready : IsReady host q src b r) (named : IsNamed q r)
    (a : Actions) where
  abbrev way : IsUnderWay host q src b r ready
  way = under_way host q src b r ready

  abbrev start : Work
  start = record { repo = r; actions = a }

  -- A run of the transaction that ends well.
  abbrev Runs : Type 0
  Runs =
      (r' : Repo) × (a' : Actions) × (write_body host q start ≡ (
        ok (not (is_some (lookup (place host q src b r ready) r.disk))),
        record { repo = r'; actions = a' },
      ))
      × IsWritten host q b r r'
      × ((old : Row)
          → file_at r q.file_path ≡ some old
          → old.hash ≢ host.env.sha256 b
          → (a'.file_insert ≡ a.file_insert) × (a'.updated_metadata ≡ a.updated_metadata))

  abbrev noted : Actions → Actions
  noted a0 = record a0 { detected_ld = is_rdf host q }

  rest :
      (file : Option Row) (a0 : Actions)
      → start_replacement host q (is_some (file_at r q.file_path)) start
        ≡ (ok file, record { repo = r; actions = a0 })
      → IsSaved host q
          (described host q)
          (host.env.sha256 b)
          (directory q r named way.disk).0
          way.tmp_file
          file
          (r2 q r named way.disk)
          (noted a0)
      → ((a0.file_insert ≡ a.file_insert) × (a0.updated_metadata ≡ a.updated_metadata))
      → file ≡ file_at r q.file_path
      → Runs
  unfolding write_body file_exists
  rest file a0 begin saved as_before same =
      let (d, made, dir) = (directory q r named way.disk) in
      let t = store_of saved.after in
      let (out, view) = way.finish t saved.quads saved.changed.disk in
      let x = finalize_write host.env way.tmp_file (place host q src b r ready) saved.quads t in
      (
        with_store x.1 saved.after,
        saved.actions,
        ground (arith, begin, way.step, made, saved.save_step, saved.data_step, out),
        record {
          row = saved.row;
          hash = saved.hash;
          sound = record {
            tree = saved.changed.sound.tree;
            placed = saved.changed.sound.placed;
            listed = λ k f e.
                ap (λ hs. contains hs f.hash)
                  (hashes-finalize_write host.env way.tmp_file (place host q src b r ready)
                    saved.quads t)
                ∙ saved.changed.sound.listed k f e;
          };
          here = file_at-with_store x.1 saved.after q.file_path ∙ saved.changed.here;
          others = λ p n.
              file_at-with_store x.1 saved.after p
              ∙ saved.changed.others p n
              ∙ file_at-make_directory (r1 q r named way.disk) (sound1 q r named way.disk)
                  q.file_path p
              ∙ (same1 q r named way.disk) p;
          quads = saved.quads;
          disk = view;
        },
        λ old there n.
            let (f, g) = saved.silent old (same ∙ there) n in (f ∙ as_before.0, g ∙ as_before.1),
      )

  parses :
      IsParsed host q b r
      → (t : Repo) → t.disk ≡ (r2 q r named way.disk).disk
      → is_some
          (parse host q (apply_git_patch q.git (described host q)) (content_of way.tmp_file t))
        ≡ true
  parses parsed t e = elim (way.content t e) [
    | inl bytes ↦ rw bytes parsed.from_bytes
    | inr (nothing, stored) ↦ rw nothing (parsed.without stored)
  ]

  body_new :
      file_at r q.file_path ≡ none → IsParsed host q b r → IsKeyed host q r.keys → IsShort q → Runs
  body_new new parsed keyed short =
      rest none a (ground (arith, new))
        (save_new host q free named.user named.by (r2 q r named way.disk)
          (sound2 q r named way.disk) (directory q r named way.disk).0
          (directory q r named way.disk).2 (described host q) (host.env.sha256 b) way.tmp_file
          (noted a) keyed short.1 ((same2 q r named way.disk) ∙ new) (parses parsed))
        (refl, refl) (sym new)

  body_over :
      (row : Row)
      → file_at r q.file_path ≡ some row
      → q.replace ≡ true
      → (row.hash ≡ host.env.sha256 b → IsKeyed host q r.keys)
      → Runs
  body_over row there replace keyed =
      let a0 = record a { replaced_file = true } in
      rest (some row) a0 (ground (arith, there, replace, metadata_free host q r row free there))
        (save_over host q free named.user named.by (r2 q r named way.disk)
          (sound2 q r named way.disk) (directory q r named way.disk).0
          (directory q r named way.disk).2 (described host q) (host.env.sha256 b) way.tmp_file
          (noted a0) row ((same2 q r named way.disk) ∙ there) keyed)
        (refl, refl) (sym there)

  pub body_lem : IsOpen host q b r → Runs
  body_lem (inl (new, parsed, keyed, short)) = body_new new parsed keyed short
  body_lem (inr (there, replace, keyed)) = elim (Option-cases (file_at r q.file_path)) [
    | inl missing ↦ absurd (ground (arith, missing, there))
    | inr (row, found) ↦ body_over row found replace (keyed row found)
  ]
