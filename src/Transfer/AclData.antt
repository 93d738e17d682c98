-- ===== src/Transfer/AclData.antt =====
-- `_exportAcl` of src/lib/transfer.js and `_importAcl` of src/bin/lib/transfer.js.
use caskfs.Base.{ℕ, ◌==◌, nat_eq, list_eq, Bool, true, false, not, ◌&&◌, any, find}
use caskfs.Base.{Option, none, some, is_some, List, [], ◌∷◌, ◌++◌, if◌then◌else◌}
use caskfs.Base.Dict.{Dict, lookup}
use caskfs.Base.Text.{Text}
use caskfs.Base.Exec.{Result, ok, err, Exec, ◌>>◌, pure, for_each}
use caskfs.Acl.Db.{Directory, RootAcl, Grant, RoleUser, Db, has_role}
use caskfs.Acl.State.{AclError, State, Acl, permission_name}
use caskfs.Acl.Checks.{find_directory, in_role}
use caskfs.Acl.Tables.{ensure_role, ensure_user, ensure_user_role, ensure_root_directory_acl}
use caskfs.Acl.Tables.{set_directory_permission, root_at}

-- The permissions of a directory: the names of roles, and of what they may do.
pub record DirectoryData : Type 0 where
  pub directory : Text
  pub is_public : Bool
  pub permissions : List (Option Text × Text)

-- roles.json, users.json, user-roles.json and permissions.json; a missing name is null.
pub record AclData : Type 0 where
  pub roles : List Text
  pub users : List Text
  pub user_roles : List (Text × Option Text)
  pub permissions : List DirectoryData

abbrev pub names : Dict Text ℕ → List Text
names [] = []
names (e ∷ d) = e.0 ∷ names d

-- The users of a role, in the order of their names.
abbrev pub members : Db → ℕ → Text → Dict Text ℕ → List (Text × Option Text)
members db r role [] = []
members db r role (u ∷ us) =
    let rest = members db r role us in if has_role db u.1 r then (u.0, some role) ∷ rest else rest

abbrev pub memberships : Db → Dict Text ℕ → List (Text × Option Text)
memberships db [] = []
memberships db (r ∷ rs) = members db r.1 r.0 db.users ++ memberships db rs

abbrev pub has_no_role : Db → ℕ → Bool
has_no_role db u = not (any (λ (m : RoleUser). m.user_id == u) db.role_users)

-- A user without a role has one row in acl_user_roles_view, without a role.
abbrev pub without_role : Db → Dict Text ℕ → List (Text × Option Text)
without_role db [] = []
without_role db (u ∷ us) =
    let rest = without_role db us in if has_no_role db u.1 then (u.0, none) ∷ rest else rest

-- ORDER BY role, "user"; a null comes last.
unfoldable pub export_user_roles : Db → List (Text × Option Text)
export_user_roles db = memberships db db.roles ++ without_role db db.users

abbrev pub role_name : ℕ → Dict Text ℕ → Option Text
role_name r [] = none
role_name r (e ∷ d) = let rest = role_name r d in if e.1 == r then some e.0 else rest

abbrev pub grant_data : Db → ℕ → List Grant → List (Option Text × Text)
grant_data db a [] = []
grant_data db a (g ∷ gs) =
    let rest = grant_data db a gs in
    if g.root_directory_acl_id == a
    then (role_name g.role_id db.roles, permission_name g.permission) ∷ rest
    else rest

abbrev pub directory_data : Db → RootAcl → Option Directory → List DirectoryData
directory_data db a none = []
directory_data db a (some d) =
    record {
      directory = d.fullname;
      is_public = a.is_public;
      permissions = grant_data db a.root_directory_acl_id db.grants;
    }
    ∷ []

abbrev pub export_permissions : Db → List RootAcl → List DirectoryData
export_permissions db [] = []
export_permissions db (a ∷ rest) =
    directory_data db a (find (λ (d : Directory). d.directory_id == a.directory_id) db.directories)
    ++ export_permissions db rest

unfoldable pub export_acl : Db → AclData
unfolding export_user_roles
export_acl db = record {
  roles = names db.roles;
  users = names db.users;
  user_roles = export_user_roles db;
  permissions = export_permissions db db.root_acls;
}

pub data Conflict : Type 0 where
  fail skip merge : Conflict

abbrev pub is_fail : Conflict → Bool
is_fail fail = true
is_fail skip = false
is_fail merge = false

abbrev pub is_skip : Conflict → Bool
is_skip fail = false
is_skip skip = true
is_skip merge = false

pub data ImportError : Type 0 where
  role_there user_there acl_there : Text → ImportError
  mapping_there : Text → Text → ImportError
  acl_error : AclError → ImportError

-- The statements run one by one, outside of a transaction.
abbrev pub Import : Type 0 → Type 0
Import = Exec ImportError State

-- The call, without what it returns.
abbrev pub from_call : {A : Type 0} → Result AclError A → Result ImportError Unit
from_call (ok a) = ok tt
from_call (err e) = err (acl_error e)

abbrev pub call : {A : Type 0} → Acl A → Import Unit
call m s = let (a, s') = m s in (from_call a, s')

abbrev pub refuse_when : (State → Bool) → ImportError → Import Unit
refuse_when test e s = if test s then (err e, s) else (ok tt, s)

abbrev pub or_empty : Option Text → Text
or_empty none = []
or_empty (some t) = t

abbrev pub is_mapped : Db → Text → Option Text → Bool
is_mapped db user none = false
is_mapped db user (some role) = in_role db user role

unfoldable pub import_grants : Text → List (Option Text × Text) → Import Unit
unfolding set_directory_permission
import_grants path [] = pure tt
import_grants path (g ∷ gs) = do
  call (set_directory_permission path (or_empty g.0) g.1)
  import_grants path gs

unfoldable pub import_entry : DirectoryData → Import Unit
unfolding ensure_root_directory_acl import_grants
import_entry e = do
  call (ensure_root_directory_acl e.directory e.is_public)
  import_grants e.directory e.permissions

abbrev pub role_exists : Text → Db → Bool
role_exists name db = is_some (lookup name db.roles)

abbrev pub user_exists : Text → Db → Bool
user_exists name db = is_some (lookup name db.users)

abbrev pub has_acl : Text → Db → Bool
has_acl path db = is_some (root_at db (find_directory db path))

module _ (conflict : Conflict) where
  abbrev pub is_refused : (Db → Bool) → State → Bool
  is_refused there s = is_fail conflict && there s.db

  unfoldable pub import_role : Text → Import Unit
  unfolding ensure_role
  import_role name = do
    refuse_when (is_refused (role_exists name)) (role_there name)
    call (ensure_role name)

  unfoldable pub import_user : Text → Import Unit
  unfolding ensure_user
  import_user name = do
    refuse_when (is_refused (user_exists name)) (user_there name)
    call (ensure_user name)

  -- A null is refused as an empty name is.
  unfoldable pub import_user_role : Text × Option Text → Import Unit
  unfolding ensure_user_role in_role
  import_user_role e = do
    refuse_when (is_refused (λ db. is_mapped db e.0 e.1)) (mapping_there e.0 (or_empty e.1))
    call (ensure_user_role e.0 (or_empty e.1))

  unfoldable pub import_directory : DirectoryData → Import Unit
  unfolding import_entry find_directory
  import_directory e = do
    refuse_when (is_refused (has_acl e.directory)) (acl_there e.directory)
    λ s. if is_skip conflict && has_acl e.directory s.db then (ok tt, s) else import_entry e s

unfoldable pub import_people : Conflict → AclData → Import Unit
unfolding import_role import_user import_user_role
import_people conflict archive = do
  for_each (import_role conflict) archive.roles
  for_each (import_user conflict) archive.users
  for_each (import_user_role conflict) archive.user_roles

unfoldable pub import_acl : Conflict → AclData → Import Unit
unfolding import_people import_directory
import_acl conflict archive = do
  import_people conflict archive
  for_each (import_directory conflict) archive.permissions
