-- ===== src/Transfer/Ungranted.antt =====
-- src/bin/lib/transfer.js: `_importAcl` puts no directory under an ACL.
use caskfs.Base.{ℕ, ◌≡◌, refl, ap, ◌∙◌, ◌||◌, Bool, false, nat_eq, list_eq}
use caskfs.Base.{Option, none, some, List, [], ◌∷◌, Bool-cases, any, ◌&&◌, inl, inr}
use caskfs.Base.Dict.{Dict, lookup}
use caskfs.Base.Text.{Text}
use caskfs.Base.Exec.{for_each, ok, ◌>>=◌, pure, throw, or_throw}
use caskfs.Acl.Db.{
  Permission, pick, no_rights, rights_on, Db, RootAcl, has_permission, get_permission, acl_of, read,
  write, admin,
}
use caskfs.Acl.State.{missing_argument, no_directory, invalid_enum, AclError, State, Acl}
use caskfs.Acl.Checks.{find_directory, is_empty, parse_permission}
use caskfs.Acl.Spread.{root_of}
use caskfs.Acl.Tables.{ensure_role, ensure_root_directory_acl}
use caskfs.Acl.Tables.{set_directory_permission, upsert_root, add_grant, is_grant, query, execute}
use caskfs.Transfer.AclData.{AclData, DirectoryData, Conflict, call}
use caskfs.Transfer.AclData.{refuse_when, is_refused, has_acl, acl_there, is_skip, or_empty}
use caskfs.Transfer.AclData.{
  import_grants, import_entry, import_directory, import_acl, import_people,
}
use caskfs.Transfer.Keeping.{
  Keeps, bind-Keeps, if-Keeps, branch-Keeps, refuse-Keeps, each-Keeps, role-Keeps, people-Keeps,
}

abbrev acls : State → Dict ℕ ℕ
acls s = s.db.directory_acls

throw-Keeps : {A : Type 0} (o : Option A) (e : AclError) → Keeps acls (or_throw o e)
throw-Keeps none e s = refl
throw-Keeps (some a) e s = refl

upsert_same :
    (d : ℕ) (public : Bool) (o : Option RootAcl) (db : Db)
    → (upsert_root d public o db).1.directory_acls ≡ db.directory_acls
upsert_same d public none db = refl
upsert_same d public (some r) db = refl

-- The statement behind ensureRootDirectoryAcl.
abbrev put_root : Bool → ℕ → Acl (ℕ × ℕ)
put_root public d s =
    let (a, db) = upsert_root d public (root_of s.db d) s.db in (ok (a, d), record s { db = db })

root-Keeps : (path : Text) (public : Bool) → Keeps acls (ensure_root_directory_acl path public)
unfolding ensure_root_directory_acl
root-Keeps path public =
    if-Keeps acls (is_empty path) (throw missing_argument)
      (query (λ db. find_directory db path)
        >>= (λ found. or_throw found (no_directory path) >>= put_root public))
      (λ s. refl)
      (bind-Keeps acls (query (λ db. find_directory db path))
        (λ found. or_throw found (no_directory path) >>= put_root public) (λ s. refl)
        (λ found.
          bind-Keeps acls (or_throw found (no_directory path)) (put_root public)
            (throw-Keeps found (no_directory path))
            (λ d s. upsert_same d public (root_of s.db d) s.db)))

grant-Keeps : (a r : ℕ) (p : Permission) → Keeps acls (execute (add_grant a r p))
grant-Keeps a r p s = elim (Bool-cases (any (is_grant a r p) s.db.grants)) [
  | inl there ↦ rw there refl
  | inr fresh ↦ rw fresh refl
]

-- What setDirectoryPermission does with the ids of the role and of the ACL.
abbrev give : Text → ℕ → ℕ × ℕ → Acl (ℕ × ℕ)
give permission r acl =
    or_throw (parse_permission permission) invalid_enum
    >>= (λ p. execute (add_grant acl.0 r p) >>= (λ u. pure acl))

permission-Keeps :
    (path role permission : Text) → Keeps acls (set_directory_permission path role permission)
unfolding set_directory_permission
permission-Keeps path role permission =
    if-Keeps acls (is_empty path || is_empty role || is_empty permission) (throw missing_argument)
      (ensure_role role >>= (λ r. ensure_root_directory_acl path false >>= give permission r))
      (λ s. refl)
      (bind-Keeps acls (ensure_role role)
        (λ r. ensure_root_directory_acl path false >>= give permission r)
        (λ s. ap (λ v. v.0) (role-Keeps role s))
        (λ r.
          bind-Keeps acls (ensure_root_directory_acl path false) (give permission r)
            (root-Keeps path false)
            (λ acl.
              bind-Keeps acls (or_throw (parse_permission permission) invalid_enum)
                (λ p. execute (add_grant acl.0 r p) >>= (λ u. pure acl))
                (throw-Keeps (parse_permission permission) invalid_enum)
                (λ p.
                  bind-Keeps acls (execute (add_grant acl.0 r p)) (λ u. pure acl)
                    (grant-Keeps acl.0 r p) (λ u s. refl)))))

grants-Keeps : (path : Text) (gs : List (Option Text × Text)) → Keeps acls (import_grants path gs)
unfolding import_grants
grants-Keeps path [] = λ s. refl
grants-Keeps path (g ∷ gs) =
    bind-Keeps acls (call (set_directory_permission path (or_empty g.0) g.1))
      (λ u. import_grants path gs) (permission-Keeps path (or_empty g.0) g.1)
      (λ u. grants-Keeps path gs)

entry-Keeps : (e : DirectoryData) → Keeps acls (import_entry e)
unfolding import_entry
entry-Keeps e =
    bind-Keeps acls (call (ensure_root_directory_acl e.directory e.is_public))
      (λ u. import_grants e.directory e.permissions) (root-Keeps e.directory e.is_public)
      (λ u. grants-Keeps e.directory e.permissions)

directory-Keeps : (c : Conflict) (e : DirectoryData) → Keeps acls (import_directory c e)
unfolding import_directory
directory-Keeps c e =
    bind-Keeps acls (refuse_when (is_refused c (has_acl e.directory)) (acl_there e.directory)) _
      (refuse-Keeps acls _ _)
      (λ u s.
        branch-Keeps acls (is_skip c && has_acl e.directory s.db) (ok tt, s) (import_entry e s) s
          refl (entry-Keeps e s))

import-Keeps : (c : Conflict) (archive : AclData) → Keeps acls (import_acl c archive)
unfolding import_acl
import-Keeps c archive =
    bind-Keeps acls (import_people c archive)
      (λ u. for_each (import_directory c) archive.permissions)
      (λ s. ap (λ v. v.0) (people-Keeps c archive s))
      (λ u. each-Keeps acls (import_directory c) archive.permissions (directory-Keeps c))

pick_none : (p : Permission) → pick p no_rights ≡ false
pick_none read = refl
pick_none write = refl
pick_none admin = refl

nothing_on : (db : Db) (user : Option ℕ) → rights_on db user none ≡ no_rights
nothing_on db user = refl

-- Whatever an archive says, whichever way of handling conflicts is asked for, and however far the
-- import comes: every directory is under the same ACL afterwards as before, if any, so that a directory
-- that was under none has no permission for anyone.
pub import_acl-IsInert :
    (c : Conflict) (archive : AclData) (s : State)
    → ((d : ℕ)
        → lookup d (import_acl c archive s).1.db.directory_acls ≡ lookup d s.db.directory_acls)
      × ((d : ℕ) (p : Permission) (user : Option ℕ)
          → lookup d s.db.directory_acls ≡ none
          → has_permission (import_acl c archive s).1.db (some d) p user ≡ false)
unfolding has_permission get_permission acl_of
import_acl-IsInert c archive s = (
  (λ d. ap (lookup d) (import-Keeps c archive s)),
  (λ d p user h. rw (ap (lookup d) (import-Keeps c archive s) ∙ h) (pick_none p)),
)
