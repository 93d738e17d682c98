-- ===== src/Transfer/Failing.antt =====
-- src/lib/transfer.js and src/bin/lib/transfer.js: a user without a role stops the import.
use caskfs.Base.{ℕ, ◌≡◌, refl, ap, ◌∙◌, Bool, true, false, nat_eq, list_eq, Mem}
use caskfs.Base.{none, List, [], ◌∷◌, ◌++◌, ◌⊎◌, inl, inr, if◌then◌else◌, subst}
use caskfs.Base.Dict.{Dict}
use caskfs.Base.Text.{Text}
use caskfs.Base.Exec.{for_each, Result, ok, err, Exec, ◌>>=◌, and_then}
use caskfs.Acl.Db.{Db}
use caskfs.Acl.State.{State, missing_argument}
use caskfs.Acl.Tables.{ensure_user_role}
use caskfs.Transfer.AclData.{AclData, Conflict, Import, acl_error, call}
use caskfs.Transfer.AclData.{refuse_when, is_refused, mapping_there, has_no_role}
use caskfs.Transfer.AclData.{without_role, memberships, export_user_roles, export_acl, import_role}
use caskfs.Transfer.AclData.{
  import_user, import_user_role, import_people, import_directory, import_acl,
}
use caskfs.Transfer.Keeping.{said, people-Keeps}

abbrev pub Fails : {E A : Type 0} → Result E A → Type 0
Fails {E} r = (e : E) × (r ≡ err e)

pub then-Fails :
    {E S A B : Type 0} (r : Result E A) (f : A → Exec E S B) (s : S)
    → Fails r ⊎ ((a : A) (t : S) → Fails (f a t).0)
    → Fails (and_then r f s).0
then-Fails (ok a) f s (inl (e, p)) = absurd (cc p)
then-Fails (ok a) f s (inr h) = h a s
then-Fails (err e) f s h = (e, refl)

pub each-Fails :
    {E S A : Type 0} (f : A → Exec E S Unit) (xs : List A) (x : A)
    → Mem x xs
    → ((s : S) → Fails (f x s).0)
    → (s : S) → Fails (for_each f xs s).0
each-Fails f [] x m h s = absurd m
each-Fails f (y ∷ xs) x (inl p) h s =
    then-Fails (f y s).0 (λ u. for_each f xs) (f y s).1 (inl (subst (λ z. Fails (f z s).0) p (h s)))
each-Fails f (y ∷ xs) x (inr m) h s =
    then-Fails (f y s).0 (λ u. for_each f xs) (f y s).1 (inr (λ u. each-Fails f xs x m h))

no_name : (user : Text) (s : State) → Fails (call (ensure_user_role user []) s).0
unfolding ensure_user_role
no_name [] s = (acl_error missing_argument, refl)
no_name (c ∷ user) s = (acl_error missing_argument, refl)

no_role-Fails :
    (c : Conflict) (user : Text) (s : State) → Fails (import_user_role c (user, none) s).0
unfolding import_user_role
no_role-Fails c user s =
    let check : Import Unit = refuse_when (is_refused c (λ db. false)) (mapping_there user []) in
    then-Fails (check s).0 (λ u. call (ensure_user_role user [])) (check s).1
      (inr (λ u. no_name user))

Mem_last : {A : Type 0} (a : A) (xs ys : List A) → Mem a ys → Mem a (xs ++ ys)
Mem_last a [] ys m = m
Mem_last a (x ∷ xs) ys m = inr (Mem_last a xs ys m)

Mem_kept :
    {A : Type 0} (a x : A) (b : Bool) (xs : List A) → Mem a xs → Mem a (if b then x ∷ xs else xs)
Mem_kept a x true xs m = inr m
Mem_kept a x false xs m = m

Mem_taken :
    {A : Type 0} (x : A) (b : Bool) (xs : List A) → b ≡ true → Mem x (if b then x ∷ xs else xs)
Mem_taken x true xs h = inl refl
Mem_taken x false xs h = absurd (cc h)

listed :
    (db : Db) (user : Text) (u : ℕ) (us : Dict Text ℕ)
    → Mem (user, u) us
    → has_no_role db u ≡ true
    → Mem (user, none) (without_role db us)
listed db user u [] m h = m
listed db user u (v ∷ us) (inl p) h =
    subst (λ e. Mem (user, none) (without_role db (e ∷ us))) p
      (Mem_taken (user, none) (has_no_role db u) (without_role db us) h)
listed db user u (v ∷ us) (inr m) h =
    Mem_kept (user, none) (v.0, none) (has_no_role db v.1) (without_role db us)
      (listed db user u us m h)

people_fail :
    (c : Conflict) (archive : AclData) (user : Text) (s : State)
    → Mem (user, none) archive.user_roles
    → Fails (import_people c archive s).0
unfolding import_people
people_fail c archive user s m =
    let roles = for_each (import_role c) archive.roles in
    let users = for_each (import_user c) archive.users in
    let pairs = for_each (import_user_role c) archive.user_roles in
    then-Fails (roles s).0 (λ u. users >>= (λ v. pairs)) (roles s).1
      (inr (λ u t.
        then-Fails (users t).0 (λ v. pairs) (users t).1
          (inr (λ v.
            each-Fails (import_user_role c) archive.user_roles (user, none) m
              (no_role-Fails c user)))))

stopped :
    {E A B : Type 0} (m : Exec E State A) (f : A → Exec E State B) (s : State)
    → Fails (m s).0
    → Fails ((m >>= f) s).0 × (((m >>= f) s).1 ≡ (m s).1)
stopped {E} {A} m f s (e, p) = after (m s).0 p
  where
    after :
        (r : Result E A)
        → r ≡ err e
        → Fails (and_then r f (m s).1).0 × ((and_then r f (m s).1).1 ≡ (m s).1)
    after (ok a) q = absurd (cc q)
    after (err d) q = ((d, refl), refl)

-- If a user of the exported tables has no role, the import of the export fails, into whatever tables
-- and in whatever way conflicts are handled, before it comes to the directories: their ACLs and
-- permissions are what they were.
pub import_acl-export_acl-Fails :
    (c : Conflict) (db : Db) (s : State) (user : Text) (u : ℕ)
    → Mem (user, u) db.users
    → has_no_role db u ≡ true
    → Fails (import_acl c (export_acl db) s).0 × (said (import_acl c (export_acl db) s).1 ≡ said s)
unfolding import_acl export_acl export_user_roles
import_acl-export_acl-Fails c db s user u m h =
    let archive = export_acl db in
    let (fails, same) =
      stopped (import_people c archive) (λ v. for_each (import_directory c) archive.permissions) s
        (people_fail c archive user s (
          Mem_last (user, none) (memberships db db.roles) (without_role db db.users)
            (listed db user u db.users m h))) in
    (fails, ap said same ∙ people-Keeps c archive s)
