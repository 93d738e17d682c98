-- ===== src/Acl/Db.antt =====
-- src/schema/layer2-fs.sql: the tables of users, roles, directories and permissions, and the SQL
-- functions that answer from them.
use caskfs.Base.{ℕ, ◌==◌, nat_eq, Bool, true, false, ◌&&◌, ◌||◌, Option, none, some}
use caskfs.Base.{List, keep, any, find}
use caskfs.Base.Dict.{Dict, lookup}
use caskfs.Base.Text.{Text}

pub data Permission : Type 0 where
  read write admin : Permission

pub record Directory : Type 0 where
  pub directory_id : ℕ
  pub fullname : Text
  pub parent_id : Option ℕ

pub record RootAcl : Type 0 where
  pub root_directory_acl_id : ℕ
  pub directory_id : ℕ
  pub is_public : Bool

pub record Grant : Type 0 where
  pub root_directory_acl_id : ℕ
  pub permission : Permission
  pub role_id : ℕ

pub record RoleUser : Type 0 where
  pub role_id : ℕ
  pub user_id : ℕ

pub record FileEntry : Type 0 where
  pub filepath : Text
  pub directory_id : ℕ

-- A column with a unique constraint is the key of a map. Every id is drawn from `next_id`.
pub record Db : Type 0 where
  pub next_id : ℕ
  pub roles : Dict Text ℕ
  pub users : Dict Text ℕ
  pub role_users : List RoleUser
  pub directories : List Directory
  pub root_acls : List RootAcl
  pub directory_acls : Dict ℕ ℕ
  pub grants : List Grant
  pub files : List FileEntry

-- The columns of get_permission.
pub record Rights : Type 0 where
  pub can_read : Bool
  pub can_write : Bool
  pub is_admin : Bool

abbrev pub no_rights : Rights
no_rights = record { can_read = false; can_write = false; is_admin = false }

-- p.permission IN ('write', 'admin') and p.permission = 'admin'
abbrev pub writes : Permission → Bool
writes read = false
writes write = true
writes admin = true

abbrev pub administers : Permission → Bool
administers read = false
administers write = false
administers admin = true

abbrev pub has_role : Db → ℕ → ℕ → Bool
has_role db user role = any (λ m. m.role_id == role && m.user_id == user) db.role_users

-- The rows of acl_permission that join a row of the user's in acl_role_user.
abbrev pub grants_of : Db → ℕ → ℕ → List Grant
grants_of db acl user =
    keep (λ g. g.root_directory_acl_id == acl && has_role db user g.role_id) db.grants

-- bool_or over no rows is NULL, which has_permission turns into FALSE.
abbrev pub rights_on : Db → Option ℕ → Option RootAcl → Rights
rights_on db user none = no_rights
rights_on db none (some acl) = record {
  can_read = acl.is_public;
  can_write = false;
  is_admin = false;
}
rights_on db (some user) (some acl) =
    let rows = grants_of db acl.root_directory_acl_id user in
    record {
      can_read = any (λ (g : Grant). acl.is_public || true) rows;
      can_write = any (λ (g : Grant). writes g.permission) rows;
      is_admin = any (λ (g : Grant). administers g.permission) rows;
    }

abbrev pub root_acl_with : Db → Option ℕ → Option RootAcl
root_acl_with db none = none
root_acl_with db (some acl) = find (λ r. r.root_directory_acl_id == acl) db.root_acls

unfoldable pub acl_of : Db → ℕ → Option RootAcl
acl_of db d = root_acl_with db (lookup d db.directory_acls)

unfoldable pub get_permission : Db → Option ℕ → Option ℕ → Rights
unfolding acl_of
get_permission db none user = no_rights
get_permission db (some d) user = rights_on db user (acl_of db d)

abbrev pub pick : Permission → Rights → Bool
pick read r = r.can_read
pick write r = r.can_write
pick admin r = r.is_admin

unfoldable pub has_permission : Db → Option ℕ → Permission → Option ℕ → Bool
unfolding get_permission
has_permission db d p user = pick p (get_permission db d user)
