-- ===== src/Listing/Defs.antt =====
-- src/lib/database/index.js: `getChildDirectories`, `getChildFiles`; src/index.js: `ls`.
use caskfs.Base.{ℕ, zero, suc, ◌+◌, ◌-◌, ◌==◌, nat_eq, list_eq, ltb, Bool, true, false}
use caskfs.Base.{◌&&◌, Option, none, some, List, [], ◌∷◌, length, take, drop, keep}
use caskfs.Base.{if◌then◌else◌}
use caskfs.Base.Text.{Text, codes}
use caskfs.Base.Exec.{◌>>=◌, pure, throw}
use caskfs.Acl.Db.{Db, Directory, Grant, RoleUser, RootAcl, FileEntry, acl_of}
use caskfs.Acl.State.{Acl, Config, missing_argument}
use caskfs.Acl.Checks.{Request, acl_lookup_required, check_permissions, is_empty, find_directory}
use caskfs.Acl.Tables.{query, get_user_id}

-- Rows with COUNT(*) OVER(): the count comes with a row, and is 0 where there is none.
pub record Page (A : Type 0) : Type 0 where
  pub results : List A
  pub total_count : ℕ

abbrev pub or_default : ℕ → ℕ → ℕ
or_default default zero = default
or_default default (suc n) = suc n

abbrev pub total : {A : Type 0} → List A → ℕ → ℕ
total [] n = 0
total (x ∷ xs) n = n

-- LIMIT and OFFSET on the distinct rows of a query, in their order; `count` is the number of rows that
-- the window function counts, before the duplicates go.
unfoldable pub page : {A : Type 0} → ℕ → ℕ → ℕ → List A → Page A
page limit offset count rows =
    let results = take (or_default 100 limit) (drop offset rows) in
    record { results = results; total_count = total results count }

abbrev pub at_least_one : ℕ → ℕ
at_least_one zero = 1
at_least_one (suc n) = suc n

-- The rows of acl_role_user that join a role, all of them or those of one user.
abbrev pub is_member : Option ℕ → ℕ → RoleUser → Bool
is_member none role m = m.role_id == role
is_member (some user) role m = m.role_id == role && m.user_id == user

-- A left join keeps a permission that nothing joins.
abbrev pub grant_rows : Db → Option ℕ → ℕ → List Grant → ℕ
grant_rows db user acl [] = 0
grant_rows db user acl (g ∷ gs) =
    (if g.root_directory_acl_id == acl
      then at_least_one (length (keep (is_member user g.role_id) db.role_users))
      else 0)
    + grant_rows db user acl gs

-- The rows that the joins make of a directory under an ACL, and that the condition keeps: without a
-- user, those of a public ACL; with a user, those of a public ACL or with any permission.
abbrev pub rows_under : Db → Option ℕ → Option RootAcl → ℕ
rows_under db user none = 0
rows_under db none (some r) =
    if r.is_public then at_least_one (grant_rows db none r.root_directory_acl_id db.grants) else 0
rows_under db (some u) (some r) =
    if r.is_public
    then at_least_one (grant_rows db (some u) r.root_directory_acl_id db.grants)
    else grant_rows db (some u) r.root_directory_acl_id db.grants

unfoldable pub directory_rows : Db → Bool → Option ℕ → Directory → ℕ
unfolding acl_of
directory_rows db false user d = 1
directory_rows db true user d = rows_under db user (acl_of db d.directory_id)

abbrev pub sum_rows : (Directory → ℕ) → List Directory → ℕ
sum_rows f [] = 0
sum_rows f (d ∷ ds) = f d + sum_rows f ds

abbrev pub same_parent : Option ℕ → Option ℕ → Bool
same_parent none p = false
same_parent (some d) none = false
same_parent (some d) (some p) = d == p

abbrev pub in_directory : Db → Text → List Directory
in_directory db path =
    keep (λ (d : Directory). same_parent (find_directory db path) d.parent_id) db.directories

-- The rows of getChildDirectories, without LIMIT and OFFSET; the table is in the order of the query.
unfoldable pub child_directories : Db → Text → Bool → Option ℕ → List Directory
unfolding directory_rows find_directory
child_directories db path required user =
    keep (λ d. ltb 0 (directory_rows db required user d)) (in_directory db path)

unfoldable pub child_count : Db → Text → Bool → Option ℕ → ℕ
unfolding directory_rows find_directory
child_count db path required user =
    sum_rows (directory_rows db required user) (in_directory db path)

unfoldable pub child_files : Db → Text → List FileEntry
unfolding find_directory
child_files db path =
    keep (λ (f : FileEntry). same_parent (find_directory db path) (some f.directory_id)) db.files

pub record FileRange : Type 0 where
  pub limit : ℕ
  pub offset : ℕ

pub record Listing (D F : Type 0) : Type 0 where
  pub files : List F
  pub directories : List D
  pub total_count : ℕ
  pub limit : ℕ
  pub offset : ℕ
  pub file_range : FileRange

-- The limit and the offset of the query for files.
unfoldable pub range_of : {D : Type 0} → ℕ → ℕ → Page D → FileRange
range_of limit offset dirs = record {
  limit = limit - length dirs.results;
  offset = if ltb dirs.total_count offset then offset - dirs.total_count else offset;
}

-- What `ls` makes of the rows of the two queries.
unfoldable pub combine : {D F : Type 0} → ℕ → ℕ → ℕ → List D → List F → Listing D F
unfolding page range_of
combine limit offset count dirs files =
    let n = or_default 100 limit in
    let found = page n offset count dirs in
    let range = range_of n offset found in
    let there = page range.limit range.offset (length files) files in
    record {
      files = there.results;
      directories = found.results;
      total_count = found.total_count + there.total_count;
      limit = n;
      offset = offset;
      file_range = range;
    }

abbrev pub drop_slash : Text → Text
drop_slash [] = []
drop_slash (c ∷ []) = if (c ∷ []) == codes "/" then [] else c ∷ []
drop_slash (c ∷ d ∷ t) = c ∷ drop_slash (d ∷ t)

-- A trailing slash goes, but for the root.
unfoldable pub clean_directory : Text → Text
clean_directory path = if path == codes "/" then path else drop_slash path

-- getUserId of the requestor throws where there is no such user.
abbrev pub known_user : Bool → Text → Acl (Option ℕ)
known_user false requestor = pure none
known_user true [] = pure none
known_user true (c ∷ t) = do u ← get_user_id (c ∷ t); pure (some u)

-- The directory is checked, and then the children are looked up; getChildDirectories asks again
-- whether ACLs apply, without the request's mark.
unfoldable pub ls : Config → Request → ℕ → ℕ → Acl (Listing Directory FileEntry)
unfolding check_permissions acl_lookup_required child_directories child_files
ls cfg q limit offset = if is_empty q.directory then throw missing_argument else do
  checked ←
      check_permissions cfg (record q { directory = clean_directory q.directory }) (codes "read")
        false
  required ← acl_lookup_required cfg checked.requestor false
  user ← known_user required checked.requestor
  dirs ← query (λ db. child_directories db checked.directory required user)
  count ← query (λ db. child_count db checked.directory required user)
  files ← query (λ db. child_files db checked.directory)
  pure (combine limit offset count dirs files)
