-- ===== src/LinkedData/Shown.antt =====
-- src/schema/layer2-fs.sql: to whom the view directory_user_permissions_lookup shows a directory.
use caskfs.Base.{
  ℕ, ◌≡◌, refl, ap, ap₂, ◌∙◌, ◌==◌, nat_eq, arith, Bool, true, false, not, ◌&&◌, ◌||◌,
}
use caskfs.Base.{Option, none, some, List, [], ◌∷◌, ◌++◌, map, keep, any, any-keep}
use caskfs.Acl.Db.{Db, RootAcl, Grant, RoleUser, acl_of, has_role}
use caskfs.LinkedData.Readable.{
  LookupRow, left_join, reading, grant_rows, anyone, padded, grants_on,
}
use caskfs.LinkedData.Readable.{rows_under, is_for, may_read}

any-append :
    {A : Type 0} (p : A → Bool) (xs ys : List A) → any p (xs ++ ys) ≡ (any p xs || any p ys)
any-append p [] ys = refl
any-append p (x ∷ xs) ys = ground (arith, any-append p xs ys)

any-map :
    {A B : Type 0} (p : B → Bool) (f : A → B) (xs : List A)
    → any p (map f xs) ≡ any (λ x. p (f x)) xs
any-map p f [] = refl
any-map p f (x ∷ xs) = ap (λ b. p (f x) || b) (any-map p f xs)

abbrev has_member : Db → ℕ → Bool
has_member db role = any (λ (m : RoleUser). m.role_id == role) db.role_users

abbrev is_member : Db → Option ℕ → ℕ → Bool
is_member db none role = false
is_member db (some u) role = has_role db u role

-- A permission shows its directory to the members of its role, and to everyone where it has none.
abbrev pub shows : Db → Option ℕ → Grant → Bool
shows db user g = not (has_member db g.role_id) || is_member db user g.role_id

abbrev pub is_shown : Db → Option ℕ → Option RootAcl → Bool
is_shown db user none = false
is_shown db user (some acl) =
    acl.is_public
    || any (λ g. g.root_directory_acl_id == acl.root_directory_acl_id && shows db user g) db.grants

abbrev fits : Option ℕ → LookupRow → Bool
fits user r = is_for user r.user_id && r.can_read

abbrev is_this : Option ℕ → RoleUser → Bool
is_this user m = is_for user (some m.user_id)

abbrev is_empty : List RoleUser → Bool
is_empty [] = true
is_empty (m ∷ ms) = false

members_read :
    (user : Option ℕ) (ms : List RoleUser)
    → any (fits user) (map reading (map (λ (m : RoleUser). some m.user_id) ms))
      ≡ any (is_this user) ms
members_read user [] = refl
members_read user (m ∷ ms) = ground (arith, members_read user ms)

left_join_lem :
    (user : Option ℕ) (ms : List RoleUser)
    → any (fits user) (map reading (left_join ms)) ≡ (is_empty ms || any (is_this user) ms)
left_join_lem user [] = refl
left_join_lem user (m ∷ ms) = members_read user (m ∷ ms)

is_empty-keep : (p : RoleUser → Bool) (ms : List RoleUser) → is_empty (keep p ms) ≡ not (any p ms)
is_empty-keep p [] = refl
is_empty-keep p (m ∷ ms) = ground (arith, is_empty-keep p ms)

nobody_in :
    (role : ℕ) (ms : List RoleUser) → any (λ m. m.role_id == role && is_this none m) ms ≡ false
nobody_in role [] = refl
nobody_in role (m ∷ ms) = ground (arith, nobody_in role ms)

is_this_of_role :
    (db : Db) (user : Option ℕ) (role : ℕ)
    → any (λ m. m.role_id == role && is_this user m) db.role_users ≡ is_member db user role
is_this_of_role db none role = nobody_in role db.role_users
is_this_of_role db (some v) role = refl

shows_lem :
    (db : Db) (user : Option ℕ) (g : Grant)
    → any (fits user) (map reading (left_join (keep (λ m. m.role_id == g.role_id) db.role_users)))
      ≡ shows db user g
shows_lem db user g =
    left_join_lem user (keep (λ m. m.role_id == g.role_id) db.role_users)
    ∙ ap₂ (λ a b. a || b) (is_empty-keep (λ m. m.role_id == g.role_id) db.role_users)
        (any-keep (is_this user) (λ m. m.role_id == g.role_id) db.role_users
          ∙ is_this_of_role db user g.role_id)

grant_rows_lem :
    (db : Db) (user : Option ℕ) (gs : List Grant)
    → any (fits user) (grant_rows db gs) ≡ any (shows db user) gs
grant_rows_lem db user [] = refl
grant_rows_lem db user (g ∷ gs) =
    any-append (fits user)
      (map reading (left_join (keep (λ m. m.role_id == g.role_id) db.role_users)))
      (grant_rows db gs)
    ∙ ap₂ (λ a b. a || b) (shows_lem db user g) (grant_rows_lem db user gs)

-- The row in place of no permissions says what the row for everyone says.
padded_lem :
    (user : Option ℕ) (public : Bool) (rs : List LookupRow)
    → any (fits user) (padded public rs ++ anyone public ∷ []) ≡ (public || any (fits user) rs)
padded_lem user public [] = ground arith
padded_lem user public (r ∷ rs) =
    any-append (fits user) (r ∷ rs) (anyone public ∷ []) ∙ ground arith

rows_under_lem :
    (db : Db) (user : Option ℕ) (acl : Option RootAcl)
    → any (fits user) (rows_under db acl) ≡ is_shown db user acl
rows_under_lem db user none = refl
rows_under_lem db user (some acl) =
    padded_lem user acl.is_public (grant_rows db (grants_on db acl))
    ∙ ap (λ b. acl.is_public || b)
        (grant_rows_lem db user (grants_on db acl)
          ∙ any-keep (shows db user) (λ g. g.root_directory_acl_id == acl.root_directory_acl_id)
              db.grants)

readable_only :
    (user : Option ℕ) (rs : List LookupRow)
    → any (fits user) (keep (λ r. r.can_read) rs) ≡ any (fits user) rs
readable_only user [] = refl
readable_only user (r ∷ rs) = ground (arith, readable_only user rs)

-- A directory shows to a user, or to nobody in particular, exactly if it is under an ACL that is
-- public, or has a permission for a role that the user is in or that nobody is in.
pub may_read_lem :
    (db : Db) (user : Option ℕ) (d : ℕ) → may_read db user d ≡ is_shown db user (acl_of db d)
may_read_lem db user d =
    readable_only user (rows_under db (acl_of db d)) ∙ rows_under_lem db user (acl_of db d)
