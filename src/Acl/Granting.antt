-- ===== src/Acl/Granting.antt =====
-- src/lib/acl.js: what `setDirectoryPermission` leaves in the tables.
use caskfs.Base.{ℕ, ◌≡◌, refl, ap, ◌∙◌, Bool, true, false, arith, nat_eq}
use caskfs.Base.{list_eq, ◌==◌, none, some, Option-cases, inl, inr, any, find}
use caskfs.Base.{List, [], ◌∷◌, Bool-cases}
use caskfs.Base.Dict.{lookup, lookup-insert}
use caskfs.Base.Text.{Text}
use caskfs.Base.Exec.{ok}
use caskfs.Acl.Db.{Permission, read, write, admin, Db, RootAcl, Directory}
use caskfs.Acl.State.{State, permission_name}
use caskfs.Acl.Checks.{is_empty, directory_id_of, find_directory}
use caskfs.Acl.Spread.{root_of}
use caskfs.Acl.Checking.{parse-permission_name, some_name}
use caskfs.Acl.Tables.{ensure_role, ensure_root_directory_acl, set_directory_permission, some_role}
use caskfs.Acl.Tables.{set_public, upsert_root, add_grant, is_grant, same_permission}

abbrev of_directory : ℕ → RootAcl → Bool
of_directory d r = r.directory_id == d

set_public_found :
    (d : ℕ) (b : Bool) (r : RootAcl) (rs : List RootAcl)
    → find (of_directory d) rs ≡ some r
    → find (of_directory d) (set_public d b rs) ≡ some (record r { is_public = b })
set_public_found d b r [] h = ground (arith, h)
set_public_found d b r (x ∷ rs) h = ground (arith, h, set_public_found d b r rs)

same_self : (p : Permission) → same_permission p p ≡ true
same_self read = refl
same_self write = refl
same_self admin = refl

grant_added :
    (a r : ℕ) (p : Permission) (db : Db) → any (is_grant a r p) (add_grant a r p db).grants ≡ true
grant_added a r p db = elim (Bool-cases (any (is_grant a r p) db.grants)) [
  | inl there ↦ ground (arith, there)
  | inr missing ↦ ground (arith, missing, same_self p)
]

root_kept : (a r d : ℕ) (p : Permission) (db : Db) → root_of (add_grant a r p db) d ≡ root_of db d
root_kept a r d p db = elim (Bool-cases (any (is_grant a r p) db.grants)) [
  | inl there ↦ ground (arith, there)
  | inr missing ↦ ground (arith, missing)
]

roles_kept : (a r : ℕ) (p : Permission) (db : Db) → (add_grant a r p db).roles ≡ db.roles
roles_kept a r p db = elim (Bool-cases (any (is_grant a r p) db.grants)) [
  | inl there ↦ ground (arith, there)
  | inr missing ↦ ground (arith, missing)
]

role_made :
    (role : Text) (s : State)
    → is_empty role ≡ false
    → (r : ℕ) × (s' : State) × (ensure_role role s ≡ (ok r, s'))
      × (lookup role s'.db.roles ≡ some r)
      × (s'.db.directories ≡ s.db.directories)
unfolding ensure_role
role_made role s h = elim (Option-cases (lookup role s.db.roles)) [
  | inl fresh ↦ (
    s.db.next_id,
    (some_role role none s).1,
    ground (arith, fresh),
    ground (arith, lookup-insert role role s.db.next_id s.db.roles),
    refl,
  )
  | inr (r, there) ↦ (r, s, ground (arith, there), there, refl)
]

acl_made :
    (path : Text) (d : ℕ) (s : State)
    → is_empty path ≡ false
    → find_directory s.db path ≡ some d
    → (a : RootAcl) × (s' : State) × (ensure_root_directory_acl path false s
        ≡ (ok (a.root_directory_acl_id, d), s'))
      × (root_of s'.db d ≡ some a)
      × (a.is_public ≡ false)
      × (s'.db.roles ≡ s.db.roles)
unfolding ensure_root_directory_acl
acl_made path d s h found = elim (Option-cases (root_of s.db d)) [
  | inl missing ↦ (
    record { root_directory_acl_id = s.db.next_id; directory_id = d; is_public = false },
    record s { db = (upsert_root d false none s.db).1 },
    ground (arith, h, found, missing),
    ground arith,
    refl,
    refl,
  )
  | inr (r, there) ↦ (
    record r { is_public = false },
    record s { db = (upsert_root d false (some r) s.db).1 },
    ground (arith, h, found, there),
    set_public_found d false r s.db.root_acls there,
    refl,
    refl,
  )
]

same_place :
    (path : Text) (b c : Db)
    → b.directories ≡ c.directories
    → find_directory b path ≡ find_directory c path
unfolding find_directory
same_place path b c h =
    ap (λ ds. directory_id_of (find (λ (x : Directory). x.fullname == path) ds)) h

-- Giving a role a permission on a directory that is there succeeds. Then the role is there, the
-- directory has an ACL of its own with the grant on it, and this ACL is not public, also where it was
-- public before.
pub set_directory_permission_lem :
    (path role : Text) (p : Permission) (d : ℕ) (s : State)
    → is_empty path ≡ false
    → is_empty role ≡ false
    → find_directory s.db path ≡ some d
    → (r : ℕ) × (a : RootAcl) × (s' : State) × (set_directory_permission path role
          (permission_name p)
          s
        ≡ (ok (a.root_directory_acl_id, d), s'))
      × (lookup role s'.db.roles ≡ some r)
      × (root_of s'.db d ≡ some a)
      × (any (is_grant a.root_directory_acl_id r p) s'.db.grants ≡ true)
      × (a.is_public ≡ false)
unfolding set_directory_permission
set_directory_permission_lem path role p d s hp hr found =
    let (r, s1, e1, f1, g1) = role_made role s hr in
    let (a, s2, e2, f2, g2, h2) = acl_made path d s1 hp (same_place path s1.db s.db g1 ∙ found) in
    let id = a.root_directory_acl_id in
    (
      r,
      a,
      record s2 { db = add_grant id r p s2.db },
      ground (arith, hp, hr, some_name p, e1, e2, parse-permission_name p),
      ap (lookup role) (roles_kept id r p s2.db ∙ h2) ∙ f1,
      root_kept id r d p s2.db ∙ f2,
      grant_added id r p s2.db,
      g2,
    )
