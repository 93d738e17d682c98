-- ===== src/Acl/State.antt =====
-- src/lib/acl.js: the class `AclCache`, the configuration, and the state that the actions change.
use caskfs.Base.{nat_eq, list_eq, Bool, not, Option, none, some, is_some, ◌++◌, if◌then◌else◌}
use caskfs.Base.Dict.{Dict, lookup, insert, erase}
use caskfs.Base.Text.{Text, codes}
use caskfs.Base.Exec.{Exec, ok}
use caskfs.Acl.Db.{Permission, read, write, admin, Db}

-- `missing_argument` is the check at the head of each method, `not_in_rows` the TypeError of
-- `res.rows[0].…` on no rows, `out_of_fuel` is never thrown.
pub data AclError : Type 0 where
  missing_argument : AclError
  invalid_permission access_denied : Text → Text → AclError
  no_user no_directory : Text → AclError
  invalid_enum not_in_rows syntax_error out_of_fuel : AclError

-- config.acl
pub record Config : Type 0 where
  pub enabled : Bool
  pub enabled_cache : Bool
  pub admin_role : Text
  pub super_admin_user : Text

pub record State : Type 0 where
  pub user_roles : Dict Text Bool
  pub dir_permissions : Dict Text Bool
  pub db : Db

abbrev pub Acl : Type 0 → Type 0
Acl = Exec AclError State

abbrev pub permission_name : Permission → Text
permission_name read = codes "read"
permission_name write = codes "write"
permission_name admin = codes "admin"

-- The keys of the two caches.
abbrev pub role_key : Text → Text → Text
role_key user role = user ++ codes "-" ++ role

abbrev pub permission_key : Text → Text → Text → Text
permission_key user path permission = user ++ codes "-" ++ path ++ codes "-" ++ permission

-- What a lookup in a cache yields: `off` is null, `absent` is undefined.
pub data Cached : Type 0 where
  off absent : Cached
  hit : Bool → Cached

abbrev pub cached : Option Bool → Cached
cached none = absent
cached (some b) = hit b

abbrev pub put_new : Text → Bool → Dict Text Bool → Dict Text Bool
put_new key value d = if is_some (lookup key d) then d else insert key value d

module _ (cfg : Config) where
  unfoldable pub get_cached_role : Text → Text → State → Cached
  get_cached_role user role s =
      if not cfg.enabled_cache then off else cached (lookup (role_key user role) s.user_roles)

  unfoldable pub set_cached_role : Text → Text → Bool → Acl Unit
  set_cached_role user role value s =
      if not cfg.enabled_cache
      then (ok tt, s)
      else (ok tt, record s { user_roles = put_new (role_key user role) value s.user_roles })

  unfoldable pub get_cached_permission : Text → Text → Text → State → Cached
  get_cached_permission user path permission s =
      if not cfg.enabled_cache
      then off
      else cached (lookup (permission_key user path permission) s.dir_permissions)

  unfoldable pub set_cached_permission : Text → Text → Text → Bool → Acl Unit
  set_cached_permission user path permission value s =
      if not cfg.enabled_cache then (ok tt, s) else (
        ok tt,
        record s {
          dir_permissions = put_new (permission_key user path permission) value s.dir_permissions;
        },
      )

-- The timers of `setUserRole` and `setDirPermissions`.
unfoldable pub expire_role : Text → State → State
expire_role key s = record s { user_roles = erase key s.user_roles }

unfoldable pub expire_permission : Text → State → State
expire_permission key s = record s { dir_permissions = erase key s.dir_permissions }
