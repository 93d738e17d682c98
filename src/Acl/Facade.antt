-- ===== src/Acl/Facade.antt =====
-- src/index.js: the methods of `CaskFs` that change users, roles and directory ACLs, and
-- src/lib/directory.js: `mkdir`.
use caskfs.Base.{ℕ, suc, ◌==◌, nat_eq, list_eq, Bool, Option, none, some}
use caskfs.Base.{List, [], ◌∷◌, ◌++◌}
use caskfs.Base.Text.{Text, codes}
use caskfs.Base.Exec.{Result, ok, err, ◌>>=◌, ◌>>◌, pure}
use caskfs.Paths.{slash, parts, join}
use caskfs.Acl.Db.{RootAcl, Db}
use caskfs.Acl.State.{AclError, State, Acl, Config}
use caskfs.Acl.Checks.{Request, find_directory, allow_admin_action, can_update_dir_acl}
use caskfs.Acl.Spread.{set_one}
use caskfs.Acl.Tables.{query, execute, apply_acl, get_root_directory_acl}
use caskfs.Acl.Tables

-- What a failed transaction changed in the tables is undone; the caches are not part of it.
abbrev pub settle : {A : Type 0} → Db → Result AclError A → State → Result AclError A × State
settle db (ok a) s = (ok a, s)
settle db (err e) s = (err e, record s { db = db })

unfoldable pub run_in_transaction : {A : Type 0} → Acl A → Acl A
run_in_transaction f s = let (r, s') = f s in settle s.db r s'

-- context.data.permission is 'true' or true
abbrev pub says_true : Text → Bool
says_true permission = permission == codes "true"

abbrev pub ensure_all : Text → List Text → Acl Unit
ensure_all user [] = pure tt
ensure_all user (r ∷ rs) = do Tables.ensure_user_role user r; ensure_all user rs

abbrev pub ensure_each : List (Text × List Text) → Acl Unit
ensure_each [] = pure tt
ensure_each (e ∷ es) = do ensure_all e.0 e.1; ensure_each es

module _ (cfg : Config) where
  -- What allowAdminAction answers is not looked at, in this method and the next five.
  unfoldable pub ensure_role : Request → Text → Acl Unit
  unfolding allow_admin_action Tables.ensure_role
  ensure_role q role = do allow_admin_action cfg q; Tables.ensure_role role; pure tt

  unfoldable pub remove_role : Request → Text → Acl Unit
  unfolding allow_admin_action Tables.remove_role run_in_transaction
  remove_role q role = do allow_admin_action cfg q; run_in_transaction (Tables.remove_role role)

  unfoldable pub ensure_user : Request → Text → Acl ℕ
  unfolding allow_admin_action Tables.ensure_user
  ensure_user q user = do allow_admin_action cfg q; Tables.ensure_user user

  unfoldable pub ensure_user_roles : Request → List (Text × List Text) → Acl Unit
  unfolding allow_admin_action Tables.ensure_user_role
  ensure_user_roles q user_roles = do allow_admin_action cfg q; ensure_each user_roles

  unfoldable pub set_user_role : Request → Text → Text → Acl Unit
  unfolding allow_admin_action Tables.ensure_user_role run_in_transaction
  set_user_role q user role = do
    allow_admin_action cfg q
    run_in_transaction
        (do Tables.ensure_user user; Tables.ensure_role role; Tables.ensure_user_role user role)

  -- Neither a role nor a connection is passed on.
  unfoldable pub remove_user_role : Request → Text → Acl Unit
  unfolding allow_admin_action Tables.remove_user_role run_in_transaction
  remove_user_role q user = do
    allow_admin_action cfg q
    run_in_transaction (Tables.remove_user_role user [])

  unfoldable pub set_directory_public : Request → Text → Acl Unit
  unfolding can_update_dir_acl Tables.ensure_root_directory_acl run_in_transaction
  set_directory_public q permission = do
    can_update_dir_acl cfg q
    run_in_transaction (do
      acl ← Tables.ensure_root_directory_acl q.directory (says_true permission)
      apply_acl acl.0 acl.1)

  unfoldable pub set_directory_permission : Request → Text → Text → Acl Unit
  unfolding can_update_dir_acl Tables.set_directory_permission run_in_transaction
  set_directory_permission q role permission = do
    can_update_dir_acl cfg (record q { file_path = q.directory })
    run_in_transaction (do
      acl ← Tables.set_directory_permission q.directory role permission
      apply_acl acl.0 acl.1)

  unfoldable pub remove_directory_permission : Request → Text → Text → Acl Unit
  unfolding can_update_dir_acl Tables.remove_directory_permission run_in_transaction
  remove_directory_permission q role permission = do
    can_update_dir_acl cfg q
    run_in_transaction (Tables.remove_directory_permission q.directory role permission)

  unfoldable pub remove_directory_acl : Request → Acl Unit
  unfolding can_update_dir_acl Tables.remove_root_directory_acl run_in_transaction
  remove_directory_acl q = do
    can_update_dir_acl cfg q
    run_in_transaction (Tables.remove_root_directory_acl q.directory)

-- The ACL that mkdir passes down: the one of "/", or else the first that a new directory has.
abbrev pub or_own : Option ℕ → Option RootAcl → Option ℕ
or_own (some a) own = some a
or_own none none = none
or_own none (some r) = some r.root_directory_acl_id

abbrev pub mark : Option ℕ → ℕ → Db → Db
mark none d db = db
mark (some a) d db = record db { directory_acls = set_one a d db.directory_acls }

-- The table `directory` takes a new row.
abbrev pub add_directory : Text → Option ℕ → Db → Db
add_directory path parent db = record db {
  next_id = suc db.next_id;
  directories =
      db.directories
      ++ record { directory_id = db.next_id; fullname = path; parent_id = parent } ∷ [];
}

abbrev pub make_missing : Text → Option ℕ → Option ℕ → Db → Option ℕ → (Option ℕ × Option ℕ) × Db
make_missing path parent acl db (some d) = ((some d, acl), db)
make_missing path parent acl db none =
    let db' = add_directory path parent db in
    let acl' = or_own acl (get_root_directory_acl db' path) in
    ((some db.next_id, acl'), mark acl' db.next_id db')

-- One part of the path: the id of its directory, the ACL to pass down, and the tables.
unfoldable pub make_one : Text → Option ℕ → Option ℕ → Db → (Option ℕ × Option ℕ) × Db
unfolding find_directory get_root_directory_acl
make_one path parent acl db = make_missing path parent acl db (find_directory db path)

abbrev pub make_parts : Text → List Text → Option ℕ → Option ℕ → Db → Option ℕ × Db
make_parts current [] parent acl db = (parent, db)
make_parts current (p ∷ ps) parent acl db =
    let (out, db') = make_one (join current p) parent acl db in
    make_parts (join current p) ps out.0 out.1 db'

-- get_directory_id yields a row with NULL where the root directory is missing.
unfoldable pub mkdir : Text → Db → Option ℕ × Db
unfolding parts join make_one find_directory get_root_directory_acl
mkdir path db =
    make_parts (slash ∷ []) (parts path) (find_directory db (slash ∷ []))
      (or_own none (get_root_directory_acl db (slash ∷ []))) db
