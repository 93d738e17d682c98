-- ===== src/Acl/Rights.antt =====
-- src/schema/layer2-fs.sql: what get_permission and has_permission answer.
use caskfs.Base.{ℕ, ◌≤◌, ◌≡◌, refl, ◌∙◌, sym, ap, ◌↔◌, inl, inr, arith}
use caskfs.Base.{Bool, true, false, ◌&&◌, ◌||◌, ◌==◌, nat_eq}
use caskfs.Base.{Option, none, some, Option-cases, List, [], ◌∷◌, any, Mem, any_of_Mem, Mem_of_any}
use caskfs.Base.{any-keep}
use caskfs.Acl.Db.{Permission, read, write, admin, Grant, RoleUser, RootAcl, Db, Rights, pick}
use caskfs.Acl.Db.{writes, administers, has_role, grants_of, rights_on, acl_of, get_permission}
use caskfs.Acl.Db.{has_permission, no_rights}

-- Each permission includes those of a lower rank.
abbrev pub rank : Permission → ℕ
rank read = 1
rank write = 2
rank admin = 3

-- The rows by which a user has a permission on a directory: the ACL that the directory is under, a
-- grant on it of at least this permission, and the user's membership in the role of the grant.
pub record IsGranted (db : Db) (d user : ℕ) (wanted : Permission) : Type 0 where
  pub acl : RootAcl
  pub grant : Grant
  pub member : RoleUser
  pub acl_found : acl_of db d ≡ some acl
  pub grant_listed : Mem grant db.grants
  pub grant_of_acl : grant.root_directory_acl_id ≡ acl.root_directory_acl_id
  pub grant_enough : rank wanted ≤ rank grant.permission
  pub member_listed : Mem member db.role_users
  pub member_of_role : member.role_id ≡ grant.role_id
  pub member_is_user : member.user_id ≡ user

-- One grant against a wanted permission.
abbrev covers : RootAcl → Permission → Grant → Bool
covers acl read g = acl.is_public || true
covers acl write g = writes g.permission
covers acl admin g = administers g.permission

abbrev in_rank : Permission → Permission → Bool
in_rank read q = true
in_rank write q = writes q
in_rank admin q = administers q

rank-in_rank : (p q : Permission) → (in_rank p q ≡ true) ↔ (rank p ≤ rank q)
rank-in_rank read read = (λ h. omega arith, λ h. ground arith)
rank-in_rank read write = (λ h. omega arith, λ h. ground arith)
rank-in_rank read admin = (λ h. omega arith, λ h. ground arith)
rank-in_rank write read = (λ h. ground arith, λ h. ground arith)
rank-in_rank write write = (λ h. omega arith, λ h. refl)
rank-in_rank write admin = (λ h. omega arith, λ h. refl)
rank-in_rank admin read = (λ h. ground arith, λ h. ground arith)
rank-in_rank admin write = (λ h. ground arith, λ h. ground arith)
rank-in_rank admin admin = (λ h. omega arith, λ h. refl)

split_and : (a b : Bool) → (a && b) ≡ true → (a ≡ true) × (b ≡ true)
split_and true b h = (refl, h)
split_and false b h = ground arith

nobody : (p : Permission) → ¬ (pick p no_rights ≡ true)
nobody read h = ground arith
nobody write h = ground arith
nobody admin h = ground arith

covers_enough :
    (acl : RootAcl) (p : Permission) (g : Grant)
    → (covers acl p g ≡ true) ↔ (rank p ≤ rank g.permission)
covers_enough acl read g = (λ h. (rank-in_rank read g.permission).0 refl, λ h. ground arith)
covers_enough acl write g = rank-in_rank write g.permission
covers_enough acl admin g = rank-in_rank admin g.permission

pick-rights_on :
    (db : Db) (user : ℕ) (acl : RootAcl) (p : Permission)
    → pick p (rights_on db (some user) (some acl))
      ≡ any (covers acl p) (grants_of db acl.root_directory_acl_id user)
pick-rights_on db user acl read = refl
pick-rights_on db user acl write = refl
pick-rights_on db user acl admin = refl

abbrev is_member : ℕ → ℕ → RoleUser → Bool
is_member user role m = m.role_id == role && m.user_id == user

-- The rows that the query joins.
abbrev joins : Db → ℕ → RootAcl → Grant → Bool
joins db user acl g =
    g.root_directory_acl_id == acl.root_directory_acl_id && has_role db user g.role_id

rows-IsGranted :
    (db : Db) (d user : ℕ) (p : Permission) (acl : RootAcl)
    → acl_of db d ≡ some acl
    → any (λ g. joins db user acl g && covers acl p g) db.grants ≡ true
    → IsGranted db d user p
rows-IsGranted db d user p acl found h =
    let (g, gm, gh) = Mem_of_any (λ g. joins db user acl g && covers acl p g) db.grants h in
    let (a, b) = split_and (joins db user acl g) (covers acl p g) gh in
    let (c, e) =
      split_and (g.root_directory_acl_id == acl.root_directory_acl_id) (has_role db user g.role_id)
        a in
    let (m, mm, mh) = Mem_of_any (is_member user g.role_id) db.role_users e in
    record {
      acl = acl;
      grant = g;
      member = m;
      acl_found = found;
      grant_listed = gm;
      grant_of_acl = ground arith;
      grant_enough = (covers_enough acl p g).0 b;
      member_listed = mm;
      member_of_role = ground arith;
      member_is_user = ground arith;
    }

granted_any :
    (db : Db) (d user : ℕ) (p : Permission) (t : IsGranted db d user p)
    → any (covers t.acl p) (grants_of db t.acl.root_directory_acl_id user) ≡ true
granted_any db d user p t =
    let row =
      any_of_Mem (is_member user t.grant.role_id) t.member db.role_users t.member_listed
        (ground (arith, t.member_of_role, t.member_is_user)) in
    let enough = (covers_enough t.acl p t.grant).1 t.grant_enough in
    any-keep (covers t.acl p) _ db.grants
    ∙ any_of_Mem (λ g. joins db user t.acl g && covers t.acl p g) t.grant db.grants t.grant_listed
        (ground (arith, row, enough, t.grant_of_acl))

-- A known user has a permission on a directory, as the SQL computes it, exactly if the directory is
-- under an ACL with a grant of at least this permission to a role that the user is in.
pub has_permission-IsGranted :
    (db : Db) (d user : ℕ) (p : Permission)
    → (has_permission db (some d) p (some user) ≡ true) ↔ IsGranted db d user p
unfolding has_permission get_permission
has_permission-IsGranted db d user p = (
  λ h. elim (Option-cases (acl_of db d)) [
    | inl nothing ↦
        absurd (nobody p (sym (ap (λ o. pick p (rights_on db (some user) o)) nothing) ∙ h))
    | inr (acl, found) ↦ rows-IsGranted db d user p acl found (
        sym (any-keep (covers acl p) (joins db user acl) db.grants)
        ∙ sym (pick-rights_on db user acl p)
        ∙ sym (ap (λ o. pick p (rights_on db (some user) o)) found)
        ∙ h)
  ],
  λ t.
      ap (λ o. pick p (rights_on db (some user) o)) t.acl_found
      ∙ pick-rights_on db user t.acl p
      ∙ granted_any db d user p t,
)

pick_mono :
    (r : Rights) (p q : Permission)
    → (r.can_write ≡ true → r.can_read ≡ true)
    → (r.is_admin ≡ true → r.can_write ≡ true)
    → rank q ≤ rank p
    → pick p r ≡ true
    → pick q r ≡ true
pick_mono r read read f g h e = e
pick_mono r read write f g h e = ground arith
pick_mono r read admin f g h e = ground arith
pick_mono r write read f g h e = f e
pick_mono r write write f g h e = e
pick_mono r write admin f g h e = ground arith
pick_mono r admin read f g h e = f (g e)
pick_mono r admin write f g h e = g e
pick_mono r admin admin f g h e = e

any_mono :
    (f g : Grant → Bool) (xs : List Grant)
    → ((x : Grant) → f x ≡ true → g x ≡ true)
    → any f xs ≡ true
    → any g xs ≡ true
any_mono f g [] h e = e
any_mono f g (x ∷ xs) h e = ground (arith, h x, any_mono f g xs h)

administers-writes : (q : Permission) → administers q ≡ true → writes q ≡ true
administers-writes read h = h
administers-writes write h = refl
administers-writes admin h = refl

rights_mono :
    (db : Db) (user : Option ℕ) (acl : Option RootAcl)
    → ((rights_on db user acl).can_write ≡ true → (rights_on db user acl).can_read ≡ true)
      × ((rights_on db user acl).is_admin ≡ true → (rights_on db user acl).can_write ≡ true)
rights_mono db user none = (λ h. h, λ h. h)
rights_mono db none (some acl) = (λ h. ground arith, λ h. h)
rights_mono db (some user) (some acl) = (
  any_mono _ _ (grants_of db acl.root_directory_acl_id user) (λ g h. ground arith),
  any_mono _ _ (grants_of db acl.root_directory_acl_id user) (λ g. administers-writes g.permission),
)

-- Whoever has a permission on a directory, with a name or without, has those of a lower rank: admin
-- includes write, and write includes read.
pub has_permission_descends :
    (db : Db) (d user : Option ℕ) (p q : Permission)
    → rank q ≤ rank p
    → has_permission db d p user ≡ true
    → has_permission db d q user ≡ true
unfolding has_permission get_permission
has_permission_descends db none user p q h e = absurd (nobody p e)
has_permission_descends db (some d) user p q h e =
    let (f, g) = rights_mono db user (acl_of db d) in
    pick_mono (rights_on db user (acl_of db d)) p q f g h e
