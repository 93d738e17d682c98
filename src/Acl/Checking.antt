-- ===== src/Acl/Checking.antt =====
-- src/lib/acl.js and src/index.js: what `checkPermissions` answers.
use caskfs.Base.{◌≡◌, refl, ap, ◌≢◌, Bool, true, false, not, ◌&&◌, ◌||◌, arith}
use caskfs.Base.{none, some, [], ◌==◌, nat_eq, list_eq}
use caskfs.Base.Text.{Text}
use caskfs.Base.Exec.{Result, ok, err}
use caskfs.Acl.Db.{Permission, read, write, admin, Db}
use caskfs.Acl.State.{AclError, access_denied, Config, State, permission_name}
use caskfs.Acl.State.{
  get_cached_role, get_cached_permission, set_cached_role, set_cached_permission,
}
use caskfs.Base.Dict.{Dict, lookup}
use caskfs.Acl.State.{role_key, permission_key}
use caskfs.Acl.Checks.{cache_name}
use caskfs.Acl.Checks.{Request, is_empty, name_of, target, in_role, answer_for, check_permissions}
use caskfs.Acl.Checks.{parse_permission, user_in_role, acl_lookup_required, can, is_admin_user}

-- Who passes without a look at the directory.
abbrev pub is_exempt : Config → Request → Db → Bool
is_exempt cfg q db =
    q.ignore_acl
    || not cfg.enabled
    || (not (is_empty q.requestor)
        && (q.requestor == cfg.super_admin_user || in_role db q.requestor cfg.admin_role))

abbrev pub verdict : Request → Permission → Bool → Result AclError Request
verdict q p true = ok (record q { ignore_acl = true })
verdict q p false = err (access_denied (target q) (permission_name p))

pub parse-permission_name : (p : Permission) → parse_permission (permission_name p) ≡ some p
unfolding parse_permission nat_eq list_eq
parse-permission_name read = refl
parse-permission_name write = refl
parse-permission_name admin = refl

pub some_name : (p : Permission) → is_empty (permission_name p) ≡ false
some_name read = refl
some_name write = refl
some_name admin = refl

module _ (cfg : Config) (s : State) where
  pub lookup_required :
      (q : Request)
      → cfg.enabled_cache ≡ false
      → is_empty cfg.admin_role ≡ false
      → acl_lookup_required cfg q.requestor q.ignore_acl s ≡ (ok (not (is_exempt cfg q s.db)), s)
  unfolding acl_lookup_required is_admin_user user_in_role get_cached_role set_cached_role
  lookup_required q off some_role = ground arith

  can_answer :
      (q : Request) (p : Permission) (is_file : Bool)
      → cfg.enabled_cache ≡ false
      → is_empty (target q) ≡ false
      → can cfg q.requestor (target q) (permission_name p) is_file s
        ≡ (ok (some (answer_for (name_of q.requestor) p (target q) is_file s.db)), s)
  unfolding can get_cached_permission set_cached_permission
  can_answer q p is_file off some_path = ground (arith, parse-permission_name p, some_name p)

  -- With the cache off: a check passes exactly if the requestor is exempt or the tables give the
  -- permission, and then the request is marked; otherwise access is denied. Nothing else changes.
  -- The configuration names an admin role, and the request a path.
  pub check_permissions_lem :
      (q : Request) (p : Permission) (is_file : Bool)
      → cfg.enabled_cache ≡ false
      → is_empty cfg.admin_role ≡ false
      → is_empty (target q) ≡ false
      → check_permissions cfg q (permission_name p) is_file s ≡ (
        verdict q p (
            is_exempt cfg q s.db
            || answer_for
                (name_of q.requestor)
                p
                (target q)
                (is_empty q.directory && is_file)
                s.db),
        s,
      )
  unfolding check_permissions
  check_permissions_lem q p is_file off some_role some_path = ground (
    arith,
    lookup_required q off some_role,
    can_answer q p (is_empty q.directory && is_file) off some_path,
  )

  no_key : (key : Text) (d : Dict Text Bool) → d ≡ [] → lookup key d ≡ none
  unfolding lookup
  no_key key d h = ap (lookup key) h

  required_cached :
      (q : Request)
      → cfg.enabled_cache ≡ true
      → cfg.enabled ≡ true
      → q.ignore_acl ≡ false
      → q.requestor ≢ cfg.super_admin_user
      → is_empty cfg.admin_role ≡ false
      → s.user_roles ≡ []
      → acl_lookup_required cfg q.requestor q.ignore_acl s ≡ (ok true, s)
  unfolding acl_lookup_required is_admin_user user_in_role get_cached_role
  required_cached q on enabled ask other some_role no_roles =
      ground (arith, no_key (role_key q.requestor cfg.admin_role) s.user_roles no_roles)

  can_cached :
      (q : Request) (p : Permission) (is_file : Bool)
      → cfg.enabled_cache ≡ true
      → is_empty (target q) ≡ false
      → s.dir_permissions ≡ []
      → can cfg q.requestor (target q) (permission_name p) is_file s ≡ (ok none, s)
  unfolding can get_cached_permission
  can_cached q p is_file on some_path no_paths = ground (
    arith,
    parse-permission_name p,
    some_name p,
    no_key (permission_key (cache_name (name_of q.requestor)) (target q) (permission_name p))
        s.dir_permissions no_paths,
  )

  -- With the cache on, and nothing in it, a lookup answers undefined. So where ACLs are enabled with a
  -- named admin role, a check for a path of a request that was not exempted beforehand denies access to
  -- every requestor but the super admin, whatever the tables say, and changes nothing: the cache stays
  -- empty.
  pub check_permissions_cached :
      (q : Request) (p : Permission) (is_file : Bool)
      → cfg.enabled_cache ≡ true
      → cfg.enabled ≡ true
      → q.ignore_acl ≡ false
      → q.requestor ≢ cfg.super_admin_user
      → is_empty cfg.admin_role ≡ false
      → is_empty (target q) ≡ false
      → s.user_roles ≡ []
      → s.dir_permissions ≡ []
      → check_permissions cfg q (permission_name p) is_file s
        ≡ (err (access_denied (target q) (permission_name p)), s)
  unfolding check_permissions
  check_permissions_cached q p is_file on enabled ask other some_role some_path no_roles no_paths =
      ground (
        arith,
        required_cached q on enabled ask other some_role no_roles,
        can_cached q p (is_empty q.directory && is_file) on some_path no_paths,
      )
