-- ===== src/Transfer/Tests.antt =====
-- src/lib/transfer.js and src/bin/lib/transfer.js: small tables, and the theorems at them.
use caskfs.Base.{ℕ, ◌≡◌, refl, false, true, inl, inr, none, some}
use caskfs.Base.{[], ◌∷◌, All, nat_eq, list_eq, option_eq}
use caskfs.Base.Dict.{lookup, insert}
use caskfs.Base.Text.{codes}
use caskfs.Base.Exec.{ok}
use caskfs.Acl.Db.{Db, write, has_permission}
use caskfs.Acl.State.{State}
use caskfs.Acl.Checks.{in_role, find_directory, parse_permission}
use caskfs.Acl.Tables.{ensure_role, ensure_user, ensure_user_role, ensure_root_directory_acl}
use caskfs.Acl.Tables.{set_directory_permission}
use caskfs.AutoPath.Rules.{Host, Rule}
use caskfs.Transfer.AclData.{AclData, DirectoryData, fail, merge}
use caskfs.Transfer.AclData.{export_acl, export_user_roles, import_acl, import_people, import_role}
use caskfs.Transfer.AclData.{
  import_user, import_user_role, import_directory, import_entry, import_grants,
}
use caskfs.Transfer.AclData.{has_no_role}
use caskfs.Transfer.Keeping.{said}
use caskfs.Transfer.Ungranted.{import_acl-IsInert}
use caskfs.Transfer.Failing.{Fails, import_acl-export_acl-Fails}
use caskfs.Transfer.RuleData.{RuleData, AutoPaths, export_auto_partition, import_auto_partition}
use caskfs.Transfer.Restoring.{IsRestored, import_rules-export_rules}

-- The user "bob" is in the role "staff", "eve" in none; "/a" is public, and staff may write in it.
abbrev tables : Db
tables = record {
  next_id = 40;
  roles = (codes "staff", 1) ∷ [];
  users = (codes "bob", 10) ∷ (codes "eve", 11) ∷ [];
  role_users = record { role_id = 1; user_id = 10 } ∷ [];
  directories = record { directory_id = 21; fullname = codes "/a"; parent_id = none } ∷ [];
  root_acls = record { root_directory_acl_id = 30; directory_id = 21; is_public = true } ∷ [];
  directory_acls = (21, 30) ∷ [];
  grants = record { root_directory_acl_id = 30; permission = write; role_id = 1 } ∷ [];
  files = [];
}

-- The directory, and nothing said of it.
abbrev bare : State
bare = record {
  user_roles = [];
  dir_permissions = [];
  db = record tables {
    roles = [];
    users = [];
    role_users = [];
    root_acls = [];
    directory_acls = [];
    grants = [];
  };
}

abbrev of_a : DirectoryData
of_a = record {
  directory = codes "/a";
  is_public = true;
  permissions = (some (codes "staff"), codes "write") ∷ [];
}

export_run : export_acl tables ≡ record {
  roles = codes "staff" ∷ [];
  users = codes "bob" ∷ codes "eve" ∷ [];
  user_roles = (codes "bob", some (codes "staff")) ∷ (codes "eve", none) ∷ [];
  permissions = of_a ∷ [];
}
unfolding export_acl export_user_roles nat_eq list_eq
export_run = refl

abbrev good : AclData
good = record {
  roles = codes "staff" ∷ [];
  users = codes "bob" ∷ [];
  user_roles = (codes "bob", some (codes "staff")) ∷ [];
  permissions = of_a ∷ [];
}

-- The import succeeds, the directory is no longer public, and bob still may not write.
import_run :
    let s = import_acl fail good bare in
    (s.0 ≡ ok tt)
    × (in_role s.1.db (codes "bob") (codes "staff") ≡ true)
    × (s.1.db.root_acls
        ≡ record { root_directory_acl_id = 42; directory_id = 21; is_public = false } ∷ [])
unfolding import_acl import_people import_role import_user import_user_role import_directory
    import_entry import_grants ensure_role ensure_user ensure_user_role ensure_root_directory_acl
    set_directory_permission in_role find_directory parse_permission lookup insert nat_eq list_eq
import_run = (refl, refl, refl)

import_acl-IsInert_example :
    ((d : ℕ)
      → lookup d (import_acl fail good bare).1.db.directory_acls ≡ lookup d bare.db.directory_acls)
    × ((d : ℕ) (p : _) (user : _)
        → lookup d bare.db.directory_acls ≡ none
        → has_permission (import_acl fail good bare).1.db (some d) p user ≡ false)
import_acl-IsInert_example = import_acl-IsInert fail good bare

eve_has_no_role : has_no_role tables 11 ≡ true
unfolding nat_eq
eve_has_no_role = refl

import_acl-export_acl-Fails_example :
    Fails (import_acl merge (export_acl tables) bare).0
    × (said (import_acl merge (export_acl tables) bare).1 ≡ said bare)
import_acl-export_acl-Fails_example =
    import_acl-export_acl-Fails merge tables bare (codes "eve") 11 (inr (inl refl)) eve_has_no_role

abbrev host : Host
host = record {
  compiles = λ regex. true;
  matches = λ regex p. true;
  call = λ body name p regex. body;
}

abbrev second_part : Rule
second_part = record {
  id = 5;
  name = codes "year";
  index = some 2;
  filter_regex = some (codes "^20");
  get_value = some (codes "return name");
}

abbrev rules : AutoPaths
rules = record {
  partition_rules = record {
    next_id = 6;
    rows = (codes "year", second_part) ∷ [];
    config = none;
    paths = [];
  };
  bucket_rules = record { next_id = 1; rows = []; config = none; paths = [] };
}

abbrev no_rules : AutoPaths
no_rules = record {
  partition_rules = record { next_id = 1; rows = []; config = none; paths = [] };
  bucket_rules = record { next_id = 1; rows = []; config = none; paths = [] };
}

abbrev year : RuleData
year = record {
  name = codes "year";
  index = some 2;
  filter_regex = some (codes "^20");
  get_value = some (codes "return name");
}

import_rules-export_rules_example :
    (u : AutoPaths) × (import_auto_partition host fail (export_auto_partition rules) no_rules
      ≡ (ok tt, u))
    × All (IsRestored u.partition_rules) (year ∷ [])
    × All (IsRestored u.bucket_rules) []
unfolding export_auto_partition
import_rules-export_rules_example =
    import_rules-export_rules host fail rules no_rules
      (
        record {
          has_name = refl;
          has_position = (1, refl);
          filter_kept = refl;
          compiled = refl;
          value_kept = refl;
        },
        tt,
      )
      tt (tt, tt) tt refl refl refl refl
