-- ===== src/Acl/Members.antt =====
-- src/index.js and src/lib/acl.js: who is in a role after a role is given or removed.
use caskfs.Base.{ℕ, ◌≡◌, refl, ap, ◌∙◌, true, false, not, ◌&&◌, ◌||◌, arith}
use caskfs.Base.{Option, none, some, Option-cases, List, [], ◌∷◌, ◌==◌, nat_eq, list_eq}
use caskfs.Base.{inl, inr, any, keep}
use caskfs.Base.Dict.{lookup, lookup-insert, lookup-erase}
use caskfs.Base.Text.{Text}
use caskfs.Base.Exec.{ok, err}
use caskfs.Acl.Db.{Db, RoleUser, Grant, has_role}
use caskfs.Acl.State.{Config, State, missing_argument}
use caskfs.Acl.Checks.{Request, is_empty, in_role, role_row, allow_admin_action}
use caskfs.Acl.Tables.{add_role_user, some_user, some_role}
use caskfs.Acl.Checking.{lookup_required}
use caskfs.Acl.Tables
use caskfs.Acl.Facade.{run_in_transaction}
use caskfs.Acl.Facade

has_role-add :
    (db : Db) (u r v t : ℕ)
    → has_role (add_role_user u r db) v t ≡ (has_role db v t || (r == t && u == v))
has_role-add db u r v t = ground arith

-- The two rows, and the membership.
added :
    (db : Db) (user role : Text) (u r : ℕ)
    → lookup user db.users ≡ some u
    → lookup role db.roles ≡ some r
    → in_role (add_role_user u r db) user role ≡ true
unfolding in_role
added db user role u r hu hr = ground (arith, has_role-add db u r u r)

user_ensured :
    (user : Text) (s : State)
    → is_empty user ≡ false
    → (u : ℕ) × (s' : State) × (Tables.ensure_user user s ≡ (ok u, s'))
      × (lookup user s'.db.users ≡ some u)
unfolding Tables.ensure_user
user_ensured user s h = elim (Option-cases (lookup user s.db.users)) [
  | inl fresh ↦ (
    s.db.next_id,
    (some_user user none s).1,
    ground (arith, fresh),
    ground (arith, lookup-insert user user s.db.next_id s.db.users),
  )
  | inr (u, there) ↦ (u, s, ground (arith, there), there)
]

role_ensured :
    (role : Text) (s : State)
    → is_empty role ≡ false
    → (r : ℕ) × (s' : State) × (Tables.ensure_role role s ≡ (ok r, s'))
      × (lookup role s'.db.roles ≡ some r)
      × (s'.db.users ≡ s.db.users)
unfolding Tables.ensure_role
role_ensured role s h = elim (Option-cases (lookup role s.db.roles)) [
  | inl fresh ↦ (
    s.db.next_id,
    (some_role role none s).1,
    ground (arith, fresh),
    ground (arith, lookup-insert role role s.db.next_id s.db.roles),
    refl,
  )
  | inr (r, there) ↦ (r, s, ground (arith, there), there, refl)
]

ensured :
    (user role : Text) (s : State)
    → is_empty user ≡ false
    → is_empty role ≡ false
    → ((Tables.ensure_user_role user role s).0 ≡ ok tt)
      × (in_role (Tables.ensure_user_role user role s).1.db user role ≡ true)
unfolding Tables.ensure_user_role
ensured user role s hu hr =
    let (u, s1, e1, f1) = user_ensured user s hu in
    let (r, s2, e2, f2, g2) = role_ensured role s1 hr in
    let m = added s2.db user role u r (ap (lookup user) g2 ∙ f1) f2 in
    (ground (arith, e1, e2), ground (arith, e1, e2, m))

-- Whoever asks: the user is in the role afterwards, also where allowAdminAction answers no. The cache
-- is off, and the configuration names an admin role.
pub set_user_role_lem :
    (cfg : Config) (q : Request) (user role : Text) (s : State)
    → cfg.enabled_cache ≡ false
    → is_empty cfg.admin_role ≡ false
    → is_empty user ≡ false
    → is_empty role ≡ false
    → ((Facade.set_user_role cfg q user role s).0 ≡ ok tt)
      × (in_role (Facade.set_user_role cfg q user role s).1.db user role ≡ true)
unfolding Facade.set_user_role run_in_transaction allow_admin_action
set_user_role_lem cfg q user role s off some_admin hu hr =
    let (u, s1, e1, f1) = user_ensured user s hu in
    let (r, s2, e2, f2, g2) = role_ensured role s1 hr in
    let (a, b) = ensured user role s2 hu hr in
    let c = lookup_required cfg s q off some_admin in
    (ground (arith, c, e1, e2, a), ground (arith, c, e1, e2, a, b))

dropped_members :
    (u t r : ℕ) (ms : List RoleUser)
    → any (λ m. m.role_id == t && m.user_id == u) (keep (λ m. not (m.role_id == r)) ms)
      ≡ (any (λ m. m.role_id == t && m.user_id == u) ms && not (t == r))
dropped_members u t r [] = refl
dropped_members u t r (m ∷ ms) = ground (arith, dropped_members u t r ms)

dropped_grants :
    (r : ℕ) (gs : List Grant)
    → any (λ (g : Grant). g.role_id == r) (keep (λ (g : Grant). not (g.role_id == r)) gs) ≡ false
dropped_grants r [] = refl
dropped_grants r (g ∷ gs) = ground (arith, dropped_grants r gs)

nobody_in : (db : Db) (u : Option ℕ) → role_row db u none ≡ false
nobody_in db none = refl
nobody_in db (some u) = refl

-- Removing a role that is there succeeds. The role is gone from the table, and with it every
-- membership in it and every permission given to it; the memberships in other roles stay.
pub remove_role_lem :
    (role : Text) (r : ℕ) (s : State)
    → is_empty role ≡ false
    → lookup role s.db.roles ≡ some r
    → ((Tables.remove_role role s).0 ≡ ok tt)
      × ((user : Text) → in_role (Tables.remove_role role s).1.db user role ≡ false)
      × ((u t : ℕ)
          → has_role (Tables.remove_role role s).1.db u t ≡ (has_role s.db u t && not (t == r)))
      × (any (λ (g : Grant). g.role_id == r) (Tables.remove_role role s).1.db.grants ≡ false)
unfolding Tables.remove_role in_role
remove_role_lem role r s h found = (
  ground arith,
  λ user. ground (
    arith,
    lookup-erase role role s.db.roles,
    nobody_in (Tables.remove_role role s).1.db (lookup user s.db.users),
  ),
  λ u t. ground (arith, dropped_members u t r s.db.role_users),
  ground (arith, dropped_grants r s.db.grants),
)

-- Taking a role from a user always fails and changes nothing: no role is passed on. The cache is off,
-- and the configuration names an admin role.
pub remove_user_role_lem :
    (cfg : Config) (q : Request) (user : Text) (s : State)
    → cfg.enabled_cache ≡ false
    → is_empty cfg.admin_role ≡ false
    → Facade.remove_user_role cfg q user s ≡ (err missing_argument, s)
unfolding Facade.remove_user_role run_in_transaction allow_admin_action Tables.remove_user_role
remove_user_role_lem cfg q user s off some_admin =
    ground (arith, lookup_required cfg s q off some_admin)
