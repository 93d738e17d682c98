-- ===== src/LinkedData/Readable.antt =====
-- src/lib/database/index.js and src/schema/layer2-fs.sql: the view directory_user_permissions_lookup, as
-- far as it says who may read, and the clause of generateAclWithFilter that asks it.
use caskfs.Base.{ℕ, ◌==◌, nat_eq, Bool, true, false, ◌&&◌, Option, none, some, List, [], ◌∷◌, ◌++◌}
use caskfs.Base.{map, keep, any}
use caskfs.Acl.Db.{Db, RootAcl, Grant, RoleUser, acl_of}

-- The rows of one directory, in which NULL is no user.
pub record LookupRow : Type 0 where
  pub user_id : Option ℕ
  pub can_read : Bool

abbrev user_of : RoleUser → Option ℕ
user_of m = some m.user_id

-- LEFT JOIN acl_role_user
abbrev pub left_join : List RoleUser → List (Option ℕ)
left_join [] = none ∷ []
left_join (m ∷ ms) = map user_of (m ∷ ms)

-- Each permission lets its users read.
abbrev pub reading : Option ℕ → LookupRow
reading u = record { user_id = u; can_read = true }

abbrev pub grant_rows : Db → List Grant → List LookupRow
grant_rows db [] = []
grant_rows db (g ∷ gs) =
    map reading (left_join (keep (λ m. m.role_id == g.role_id) db.role_users)) ++ grant_rows db gs

abbrev pub anyone : Bool → LookupRow
anyone public = record { user_id = none; can_read = public }

-- LEFT JOIN acl_permission
abbrev pub padded : Bool → List LookupRow → List LookupRow
padded public [] = anyone public ∷ []
padded public (r ∷ rs) = r ∷ rs

abbrev pub grants_on : Db → RootAcl → List Grant
grants_on db acl = keep (λ g. g.root_directory_acl_id == acl.root_directory_acl_id) db.grants

-- The two parts of the union
abbrev pub rows_under : Db → Option RootAcl → List LookupRow
rows_under db none = anyone false ∷ anyone false ∷ []
rows_under db (some acl) =
    padded acl.is_public (grant_rows db (grants_on db acl)) ++ anyone acl.is_public ∷ []

abbrev pub lookup_rows : Db → ℕ → List LookupRow
lookup_rows db d = keep (λ r. r.can_read) (rows_under db (acl_of db d))

abbrev pub is_for : Option ℕ → Option ℕ → Bool
is_for user none = true
is_for none (some u) = false
is_for (some v) (some u) = u == v

-- aclWhere, joined by OR
abbrev pub may_read : Db → Option ℕ → ℕ → Bool
may_read db user d = any (λ r. is_for user r.user_id && r.can_read) (lookup_rows db d)
