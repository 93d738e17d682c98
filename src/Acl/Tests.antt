-- ===== src/Acl/Tests.antt =====
-- src/lib/acl.js and src/index.js: a small database, and the theorems at it.
use caskfs.Base.{ℕ, ◌≡◌, ◌≢◌, refl, ◌↔◌, true, false, ◌||◌}
use caskfs.Base.{none, some, [], ◌∷◌, nat_eq, list_eq, option_eq, any}
use caskfs.Base.Dict.{Dict, lookup, insert}
use caskfs.Base.Text.{Text, codes}
use caskfs.Base.Exec.{ok, err}
use caskfs.Acl.Db.{read, write}
use caskfs.Acl.Db.{Db, has_permission, get_permission, acl_of}
use caskfs.Acl.State.{Config, State, permission_name, access_denied}
use caskfs.Acl.Checks.{Request, check_permissions, answer_for, name_of}
use caskfs.Acl.Spread.{set_directory_acl}
use caskfs.Acl.Rights.{IsGranted, has_permission-IsGranted}
use caskfs.Acl.Moves.{Below, Moves}
use caskfs.Acl.Inheritance.{set_directory_acl_lem}
use caskfs.Acl.Checking.{is_exempt, verdict, check_permissions_lem, check_permissions_cached}
use caskfs.Base.{All}
use caskfs.Paths.{parts, join}
use caskfs.Acl.Checks.{find_directory}
use caskfs.Acl.Tables.{get_root_directory_acl}
use caskfs.Acl.Facade.{mkdir, make_one}
use caskfs.Acl.Spread.{root_of}
use caskfs.Acl.Db.{RootAcl}
use caskfs.Acl.Tables.{is_grant}
use caskfs.Acl.Granting.{set_directory_permission_lem}
use caskfs.Acl.Making.{IsThere, visited, last_of, mkdir_lem}
use caskfs.Acl.Tables
use caskfs.Acl.Facade.{mkdir}

-- The user "bob" is in the role "staff", which may write in /a; /a/b and "/a/b/c" are below it, and
-- "/a" is public.
abbrev tables : Db
tables = record {
  next_id = 40;
  roles = (codes "staff", 1) ∷ (codes "admin", 2) ∷ [];
  users = (codes "bob", 10) ∷ (codes "eve", 11) ∷ [];
  role_users = record { role_id = 1; user_id = 10 } ∷ [];
  directories =
      record { directory_id = 20; fullname = codes "/"; parent_id = none }
      ∷ record { directory_id = 21; fullname = codes "/a"; parent_id = some 20 }
      ∷ record { directory_id = 22; fullname = codes "/a/b"; parent_id = some 21 }
      ∷ record { directory_id = 23; fullname = codes "/a/b/c"; parent_id = some 22 }
      ∷ [];
  root_acls = record { root_directory_acl_id = 30; directory_id = 21; is_public = true } ∷ [];
  directory_acls = (21, 30) ∷ [];
  grants = record { root_directory_acl_id = 30; permission = write; role_id = 1 } ∷ [];
  files = [];
}

abbrev start : State
start = record { user_roles = []; dir_permissions = []; db = tables }

abbrev plain : Config
plain = record {
  enabled = true;
  enabled_cache = false;
  admin_role = codes "admin";
  super_admin_user = codes "root";
}

abbrev caching : Config
caching = record plain { enabled_cache = true }

abbrev request : Text → Text → Request
request user path = record {
  requestor = user;
  ignore_acl = false;
  directory = path;
  file_path = [];
}

-- Anyone may read /a without a name; "eve", who is known and in no role, may not.
public_read :
    (has_permission tables (some 21) read none ≡ true)
    × (has_permission tables (some 21) read (some 11) ≡ false)
    × (has_permission tables (some 21) write (some 10) ≡ true)
unfolding has_permission get_permission acl_of lookup nat_eq
public_read = (refl, refl, refl)

spread_below : set_directory_acl tables 30 22 ≡ some ((21, 30) ∷ (22, 30) ∷ (23, 30) ∷ [])
unfolding set_directory_acl lookup insert nat_eq option_eq
spread_below = refl

bob_writes : has_permission tables (some 21) write (some 10) ≡ true
unfolding has_permission get_permission acl_of lookup nat_eq
bob_writes = refl

has_permission-IsGranted_example :
    (has_permission tables (some 21) write (some 10) ≡ true) ↔ IsGranted tables 21 10 write
has_permission-IsGranted_example = has_permission-IsGranted tables 21 10 write

set_directory_acl_lem_example :
    (b : Dict ℕ ℕ) × (set_directory_acl tables 30 22 ≡ some b)
    × Moves tables 30 (Below tables 22) tables.directory_acls b
    × (lookup 22 b ≡ some 30)
set_directory_acl_lem_example = set_directory_acl_lem tables 30 22

check_permissions_lem_example :
    check_permissions plain (request (codes "bob") (codes "/a")) (permission_name write) false start
    ≡ (
      verdict (request (codes "bob") (codes "/a")) write (
          is_exempt plain (request (codes "bob") (codes "/a")) tables
          || answer_for (name_of (codes "bob")) write (codes "/a") false tables),
      start,
    )
check_permissions_lem_example =
    check_permissions_lem plain start (request (codes "bob") (codes "/a")) write false refl refl
      refl

bob_is_not_root : codes "bob" ≢ codes "root"
bob_is_not_root p = cc

check_permissions_cached_example :
    check_permissions caching
      (request (codes "bob") (codes "/a"))
      (permission_name write)
      false
      start
    ≡ (err (access_denied (codes "/a") (permission_name write)), start)
check_permissions_cached_example =
    check_permissions_cached caching start (request (codes "bob") (codes "/a")) write false refl
      refl refl bob_is_not_root refl refl refl refl

staff_there : lookup (codes "staff") tables.roles ≡ some 1
unfolding lookup nat_eq list_eq
staff_there = refl

mkdir_lem_example :
    All (IsThere (mkdir (codes "/a/x/y") tables).1) (visited (codes "/") (parts (codes "/a/x/y")))
    × ((mkdir (codes "/a/x/y") tables).0
        ≡ find_directory
            (mkdir (codes "/a/x/y") tables).1
            (last_of (codes "/") (visited (codes "/") (parts (codes "/a/x/y")))))
    × ((q : Text) (i : ℕ)
        → find_directory tables q ≡ some i
        → find_directory (mkdir (codes "/a/x/y") tables).1 q ≡ some i)
mkdir_lem_example = mkdir_lem (codes "/a/x/y") tables

-- The new directories below the public "/a" are under no ACL.
no_acl_passed :
    ((mkdir (codes "/a/x") tables).0 ≡ some 40)
    × ((mkdir (codes "/a/x") tables).1.directory_acls ≡ tables.directory_acls)
unfolding mkdir make_one find_directory get_root_directory_acl parts join nat_eq list_eq lookup
no_acl_passed = (refl, refl)

a_found : find_directory tables (codes "/a") ≡ some 21
unfolding find_directory nat_eq list_eq
a_found = refl

-- "/a" was public.
set_directory_permission_lem_example :
    (r : ℕ) × (a : RootAcl) × (s' : State) × (Tables.set_directory_permission
        (codes "/a")
        (codes "guest")
        (permission_name read)
        start
      ≡ (ok (a.root_directory_acl_id, 21), s'))
    × (lookup (codes "guest") s'.db.roles ≡ some r)
    × (root_of s'.db 21 ≡ some a)
    × (any (is_grant a.root_directory_acl_id r read) s'.db.grants ≡ true)
    × (a.is_public ≡ false)
set_directory_permission_lem_example =
    set_directory_permission_lem (codes "/a") (codes "guest") read 21 start refl refl a_found
