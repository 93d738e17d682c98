-- ===== src/Acl/Tables.antt =====
-- src/lib/acl.js: the methods that change the tables.
use caskfs.Base.{ℕ, zero, suc, ◌==◌, nat_eq, list_eq, Bool, true, false, not, ◌&&◌, ◌||◌}
use caskfs.Base.{Option, none, some, is_some, List, [], ◌∷◌, length, keep, any, find}
use caskfs.Base.{if◌then◌else◌}
use caskfs.Base.Dict.{Dict, lookup, insert, erase}
use caskfs.Base.Text.{Text}
use caskfs.Base.Exec.{ok, err, ◌>>=◌, ◌>>◌, pure, throw, or_throw, gets, modify}
use caskfs.Acl.Db.{Permission, read, write, admin, Directory, RootAcl, Grant, RoleUser, Db}
use caskfs.Acl.Db.{has_role}
use caskfs.Acl.State.{missing_argument, no_user, no_directory, invalid_enum, not_in_rows}
use caskfs.Acl.State.{syntax_error, out_of_fuel, Acl}
use caskfs.Acl.Checks.{is_empty, find_directory, parse_permission}
use caskfs.Acl.Spread.{root_of, set_directory_acl}

abbrev pub query : {A : Type 0} → (Db → A) → Acl A
query f = gets (λ s. f s.db)

abbrev pub execute : (Db → Db) → Acl Unit
execute f = modify (λ s. record s { db = f s.db })

-- The rows that go with a role, a user or an ACL by ON DELETE CASCADE.
abbrev pub drop_role : ℕ → Db → Db
drop_role r db = record db {
  role_users = keep (λ (m : RoleUser). not (m.role_id == r)) db.role_users;
  grants = keep (λ (g : Grant). not (g.role_id == r)) db.grants;
}

abbrev pub drop_user : ℕ → Db → Db
drop_user u db = record db {
  role_users = keep (λ (m : RoleUser). not (m.user_id == u)) db.role_users;
}

abbrev pub without_acl : ℕ → Dict ℕ ℕ → Dict ℕ ℕ
without_acl a = keep (λ e. not (e.1 == a))

abbrev pub drop_acl : ℕ → Db → Db
drop_acl a db = record db {
  root_acls = keep (λ (r : RootAcl). not (r.root_directory_acl_id == a)) db.root_acls;
  directory_acls = without_acl a db.directory_acls;
  grants = keep (λ (g : Grant). not (g.root_directory_acl_id == a)) db.grants;
}

abbrev pub some_role : Text → Option ℕ → Acl ℕ
some_role role (some r) s = (ok r, s)
some_role role none s = (
  ok s.db.next_id,
  record s {
    db = record s.db { next_id = suc s.db.next_id; roles = insert role s.db.next_id s.db.roles };
  },
)

abbrev pub some_user : Text → Option ℕ → Acl ℕ
some_user user (some u) s = (ok u, s)
some_user user none s = (
  ok s.db.next_id,
  record s {
    db = record s.db { next_id = suc s.db.next_id; users = insert user s.db.next_id s.db.users };
  },
)

unfoldable pub ensure_role : Text → Acl ℕ
ensure_role role s =
    if is_empty role then (err missing_argument, s) else some_role role (lookup role s.db.roles) s

unfoldable pub ensure_user : Text → Acl ℕ
ensure_user user s =
    if is_empty user then (err missing_argument, s) else some_user user (lookup user s.db.users) s

abbrev pub remove_role_row : Text → Option ℕ → Db → Db
remove_role_row role none db = db
remove_role_row role (some r) db = record (drop_role r db) { roles = erase role db.roles }

unfoldable pub remove_role : Text → Acl Unit
remove_role role s =
    if is_empty role
    then (err missing_argument, s)
    else (ok tt, record s { db = remove_role_row role (lookup role s.db.roles) s.db })

abbrev pub remove_user_row : Text → Option ℕ → Db → Db
remove_user_row user none db = db
remove_user_row user (some u) db = record (drop_user u db) { users = erase user db.users }

unfoldable pub remove_user : Text → Acl Unit
remove_user user s =
    if is_empty user
    then (err missing_argument, s)
    else (ok tt, record s { db = remove_user_row user (lookup user s.db.users) s.db })

unfoldable pub get_user_id : Text → Acl ℕ
get_user_id user s =
    if is_empty user
    then (err missing_argument, s)
    else or_throw (lookup user s.db.users) (no_user user) s

-- ON CONFLICT (user_id, role_id) DO NOTHING
abbrev pub add_role_user : ℕ → ℕ → Db → Db
add_role_user u r db =
    if has_role db u r
    then db
    else record db { role_users = record { role_id = r; user_id = u } ∷ db.role_users }

unfoldable pub ensure_user_role : Text → Text → Acl Unit
unfolding ensure_user ensure_role
ensure_user_role user role =
    if is_empty user || is_empty role
    then throw missing_argument
    else do u ← ensure_user user; r ← ensure_role role; execute (add_role_user u r)

-- The statement names a query `user`, a reserved word of PostgreSQL.
unfoldable pub remove_user_role : Text → Text → Acl Unit
unfolding ensure_user ensure_role
remove_user_role user role =
    if is_empty user || is_empty role
    then throw missing_argument
    else do u ← ensure_user user; r ← ensure_role role; throw syntax_error

-- The directory's own ACL, where the directory has a row in directory_acl.
abbrev pub own_acl : Db → Option ℕ → Option RootAcl
own_acl db none = none
own_acl db (some d) = if is_some (lookup d db.directory_acls) then root_of db d else none

unfoldable pub get_root_directory_acl : Db → Text → Option RootAcl
get_root_directory_acl db path = own_acl db (find_directory db path)

abbrev pub set_public : ℕ → Bool → List RootAcl → List RootAcl
set_public d public [] = []
set_public d public (r ∷ rs) =
    let rest = set_public d public rs in
    (if r.directory_id == d then record r { is_public = public } else r) ∷ rest

-- ON CONFLICT (directory_id) DO UPDATE SET public = EXCLUDED.public
abbrev pub upsert_root : ℕ → Bool → Option RootAcl → Db → ℕ × Db
upsert_root d public (some r) db =
    (r.root_directory_acl_id, record db { root_acls = set_public d public db.root_acls })
upsert_root d public none db = (
  db.next_id,
  record db {
    next_id = suc db.next_id;
    root_acls =
        record { root_directory_acl_id = db.next_id; directory_id = d; is_public = public }
        ∷ db.root_acls;
  },
)

-- The id of the ACL, and the one of the directory.
unfoldable pub ensure_root_directory_acl : Text → Bool → Acl (ℕ × ℕ)
unfolding find_directory
ensure_root_directory_acl path public = if is_empty path then throw missing_argument else do
  found ← query (λ db. find_directory db path)
  d ← or_throw found (no_directory path)
  λ s. let (a, db) = upsert_root d public (root_of s.db d) s.db in (ok (a, d), record s { db = db })

abbrev pub same_permission : Permission → Permission → Bool
same_permission read read = true
same_permission write write = true
same_permission admin admin = true
same_permission read write = false
same_permission read admin = false
same_permission write read = false
same_permission write admin = false
same_permission admin read = false
same_permission admin write = false

abbrev pub is_grant : ℕ → ℕ → Permission → Grant → Bool
is_grant a r p g = g.root_directory_acl_id == a && g.role_id == r && same_permission p g.permission

-- ON CONFLICT … DO UPDATE SET permission = EXCLUDED.permission
abbrev pub add_grant : ℕ → ℕ → Permission → Db → Db
add_grant a r p db = if any (is_grant a r p) db.grants then db else record db {
  grants = record { root_directory_acl_id = a; permission = p; role_id = r } ∷ db.grants;
}

unfoldable pub set_directory_permission : Text → Text → Text → Acl (ℕ × ℕ)
unfolding ensure_role ensure_root_directory_acl parse_permission
set_directory_permission path role permission =
    if is_empty path || is_empty role || is_empty permission then throw missing_argument else do
      r ← ensure_role role
      acl ← ensure_root_directory_acl path false
      p ← or_throw (parse_permission permission) invalid_enum
      execute (add_grant acl.0 r p)
      pure acl

abbrev pub remove_grant : Option RootAcl → Option ℕ → Permission → Db → Db
remove_grant none r p db = db
remove_grant (some a) none p db = db
remove_grant (some a) (some r) p db = record db {
  grants = keep (λ g. not (is_grant a.root_directory_acl_id r p g)) db.grants;
}

abbrev pub root_at : Db → Option ℕ → Option RootAcl
root_at db none = none
root_at db (some d) = root_of db d

unfoldable pub remove_directory_permission : Text → Text → Text → Acl Unit
unfolding find_directory parse_permission
remove_directory_permission path role permission =
    if is_empty path || is_empty role || is_empty permission then throw missing_argument else do
      p ← or_throw (parse_permission permission) invalid_enum
      execute (λ db. remove_grant (root_at db (find_directory db path)) (lookup role db.roles) p db)

abbrev pub parent_of : Option Directory → Option ℕ
parent_of none = none
parent_of (some d) = d.parent_id

abbrev pub parent : Db → ℕ → Option ℕ
parent db d = parent_of (find (λ (c : Directory). c.directory_id == d) db.directories)

-- The nearest directory with an ACL of its own, from this one upwards.
abbrev pub nearest : ℕ → Db → Option ℕ → Option RootAcl
nearest zero db d = none
nearest (suc n) db none = none
nearest (suc n) db (some d) = elim (root_of db d) [
  | some r ↦ some r
  | none ↦ nearest n db (parent db d)
]

-- setDirectoryAcl
abbrev pub apply_acl : ℕ → ℕ → Acl Unit
apply_acl a d = do
  acls ← query (λ db. set_directory_acl db a d)
  new ← or_throw acls out_of_fuel
  execute (λ db. record db { directory_acls = new })

abbrev pub inherit : Option RootAcl → ℕ → Acl Unit
inherit none d = pure tt
inherit (some r) d = apply_acl r.root_directory_acl_id d

unfoldable pub remove_root_directory_acl : Text → Acl Unit
unfolding find_directory set_directory_acl
remove_root_directory_acl path = if is_empty path then throw missing_argument else do
  found ← query (λ db. find_directory db path)
  d ← or_throw found not_in_rows
  row ← query (λ db. root_of db d)
  r ← or_throw row not_in_rows
  execute (drop_acl r.root_directory_acl_id)
  above ← query (λ db. nearest (suc (length db.directories)) db (parent db d))
  inherit above d
