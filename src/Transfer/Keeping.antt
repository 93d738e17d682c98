-- ===== src/Transfer/Keeping.antt =====
-- src/bin/lib/transfer.js: what the import of roles, users and their roles leaves as it is.
use caskfs.Base.{ℕ, ◌≡◌, refl, ◌∙◌, ◌||◌, Bool, true, false, nat_eq, list_eq}
use caskfs.Base.{Option, none, some, List, [], ◌∷◌, Bool-cases, inl, inr, if◌then◌else◌}
use caskfs.Base.Dict.{Dict, lookup}
use caskfs.Base.Text.{Text}
use caskfs.Base.Exec.{for_each, Result, ok, err, Exec, ◌>>=◌, throw, and_then}
use caskfs.Acl.Db.{has_role, RootAcl, Grant}
use caskfs.Acl.State.{missing_argument, State}
use caskfs.Acl.Checks.{is_empty}
use caskfs.Acl.Tables.{ensure_role, ensure_user, ensure_user_role}
use caskfs.Acl.Tables.{some_role, some_user, add_role_user, execute}
use caskfs.Transfer.AclData.{AclData, Conflict, ImportError, Import, call}
use caskfs.Transfer.AclData.{
  refuse_when, is_refused, role_exists, user_exists, role_there, user_there, mapping_there,
  is_mapped, or_empty, import_role, import_user, import_user_role,
}
use caskfs.Transfer.AclData.{import_people}

-- An action that leaves a part of the state as it is, whether it throws or not.
module _ {X : Type 0} (view : State → X) where
  abbrev pub Keeps : {E A : Type 0} → Exec E State A → Type 0
  Keeps m = (s : State) → view (m s).1 ≡ view s

  then-Keeps :
      {E A B : Type 0} (r : Result E A) (f : A → Exec E State B) (s : State)
      → ((a : A) → Keeps (f a))
      → view (and_then r f s).1 ≡ view s
  then-Keeps (ok a) f s h = h a s
  then-Keeps (err e) f s h = refl

  pub bind-Keeps :
      {E A B : Type 0} (m : Exec E State A) (f : A → Exec E State B)
      → Keeps m
      → ((a : A) → Keeps (f a))
      → Keeps (m >>= f)
  bind-Keeps m f hm hf s = then-Keeps (m s).0 f (m s).1 hf ∙ hm s

  pub if-Keeps :
      {E A : Type 0} (b : Bool) (m n : Exec E State A)
      → Keeps m
      → Keeps n
      → Keeps (if b then m else n)
  if-Keeps true m n hm hn = hm
  if-Keeps false m n hm hn = hn

  pub branch-Keeps :
      {R : Type 0} (b : Bool) (x y : R × State) (s : State)
      → view x.1 ≡ view s
      → view y.1 ≡ view s
      → view (if b then x else y).1 ≡ view s
  branch-Keeps true x y s hx hy = hx
  branch-Keeps false x y s hx hy = hy

  pub refuse-Keeps : (test : State → Bool) (e : ImportError) → Keeps (refuse_when test e)
  refuse-Keeps test e s = branch-Keeps (test s) (err e, s) (ok tt, s) s refl refl

  pub each-Keeps :
      {A : Type 0} (f : A → Import Unit) (xs : List A)
      → ((a : A) → Keeps (f a))
      → Keeps (for_each f xs)
  each-Keeps f [] h = λ s. refl
  each-Keeps f (x ∷ xs) h = bind-Keeps (f x) (λ u. for_each f xs) (h x) (λ u. each-Keeps f xs h)

-- What is said of directories: which ACL they are under, the ACLs, and the permissions.
abbrev pub said : State → Dict ℕ ℕ × List RootAcl × List Grant
said s = (s.db.directory_acls, s.db.root_acls, s.db.grants)

some_role-Keeps : (role : Text) (o : Option ℕ) → Keeps said (some_role role o)
some_role-Keeps role none s = refl
some_role-Keeps role (some r) s = refl

some_user-Keeps : (user : Text) (o : Option ℕ) → Keeps said (some_user user o)
some_user-Keeps user none s = refl
some_user-Keeps user (some u) s = refl

pub role-Keeps : (role : Text) → Keeps said (ensure_role role)
unfolding ensure_role
role-Keeps role s =
    branch-Keeps said (is_empty role) (err missing_argument, s)
      (some_role role (lookup role s.db.roles) s) s refl
      (some_role-Keeps role (lookup role s.db.roles) s)

pub user-Keeps : (user : Text) → Keeps said (ensure_user user)
unfolding ensure_user
user-Keeps user s =
    branch-Keeps said (is_empty user) (err missing_argument, s)
      (some_user user (lookup user s.db.users) s) s refl
      (some_user-Keeps user (lookup user s.db.users) s)

member-Keeps : (u r : ℕ) → Keeps said (execute (add_role_user u r))
member-Keeps u r s = elim (Bool-cases (has_role s.db u r)) [
  | inl there ↦ rw there refl
  | inr fresh ↦ rw fresh refl
]

pub user_role-Keeps : (user role : Text) → Keeps said (ensure_user_role user role)
unfolding ensure_user_role
user_role-Keeps user role =
    if-Keeps said (is_empty user || is_empty role) (throw missing_argument) _ (λ s. refl)
      (bind-Keeps said (ensure_user user) _ (user-Keeps user)
        (λ u. bind-Keeps said (ensure_role role) _ (role-Keeps role) (λ r. member-Keeps u r)))

import_role-Keeps : (c : Conflict) (role : Text) → Keeps said (import_role c role)
unfolding import_role
import_role-Keeps c role =
    bind-Keeps said (refuse_when (is_refused c (role_exists role)) (role_there role))
      (λ u. call (ensure_role role)) (refuse-Keeps said _ _) (λ u. role-Keeps role)

import_user-Keeps : (c : Conflict) (user : Text) → Keeps said (import_user c user)
unfolding import_user
import_user-Keeps c user =
    bind-Keeps said (refuse_when (is_refused c (user_exists user)) (user_there user))
      (λ u. call (ensure_user user)) (refuse-Keeps said _ _) (λ u. user-Keeps user)

import_user_role-Keeps : (c : Conflict) (e : Text × Option Text) → Keeps said (import_user_role c e)
unfolding import_user_role
import_user_role-Keeps c e =
    bind-Keeps said
      (refuse_when (is_refused c (λ db. is_mapped db e.0 e.1)) (mapping_there e.0 (or_empty e.1)))
      (λ u. call (ensure_user_role e.0 (or_empty e.1))) (refuse-Keeps said _ _)
      (λ u. user_role-Keeps e.0 (or_empty e.1))

-- The first three parts of an import say nothing of directories.
pub people-Keeps : (c : Conflict) (archive : AclData) → Keeps said (import_people c archive)
unfolding import_people
people-Keeps c archive =
    bind-Keeps said (for_each (import_role c) archive.roles) _
      (each-Keeps said (import_role c) archive.roles (import_role-Keeps c))
      (λ u.
        bind-Keeps said (for_each (import_user c) archive.users) _
          (each-Keeps said (import_user c) archive.users (import_user-Keeps c))
          (λ v. each-Keeps said (import_user_role c) archive.user_roles (import_user_role-Keeps c)))
