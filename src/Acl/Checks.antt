-- ===== src/Acl/Checks.antt =====
-- src/lib/acl.js: `aclLookupRequired`, `isAdmin`, `userInRole`, `hasPermission`, and the checks of
-- src/index.js that call them.
use caskfs.Base.{ℕ, ◌==◌, nat_eq, list_eq, ltb, Bool, true, false, not, ◌&&◌, ◌||◌}
use caskfs.Base.{Option, none, some, List, [], ◌∷◌, length, find, contains}
use caskfs.Base.{if◌then◌else◌}
use caskfs.Base.Dict.{lookup}
use caskfs.Base.Text.{Text, codes}
use caskfs.Base.Exec.{ok, err, ◌>>=◌, ◌>>◌, pure, throw}
use caskfs.Paths.{slash, parts, path_of}
use caskfs.Acl.Db.{
  Permission, read, write, admin, Db, Directory, FileEntry, has_role, has_permission,
}
use caskfs.Acl.State.{missing_argument, invalid_permission, access_denied, Config, Acl}
use caskfs.Acl.State.{
  Cached, off, absent, hit, get_cached_role, set_cached_role, get_cached_permission,
}
use caskfs.Acl.State.{set_cached_permission}

-- A JavaScript value that is true, false or undefined.
abbrev pub Answer : Type 0
Answer = Option Bool

abbrev pub holds : Answer → Bool
holds none = false
holds (some b) = b

abbrev pub is_empty : Text → Bool
is_empty [] = true
is_empty (c ∷ t) = false

-- SELECT 1 FROM acl_user_roles_view WHERE "user" = $1 AND "role" = $2
abbrev pub role_row : Db → Option ℕ → Option ℕ → Bool
role_row db none role = false
role_row db (some u) none = false
role_row db (some u) (some r) = has_role db u r

unfoldable pub in_role : Db → Text → Text → Bool
in_role db user role = role_row db (lookup user db.users) (lookup role db.roles)

abbrev pub directory_id_of : Option Directory → Option ℕ
directory_id_of none = none
directory_id_of (some d) = some d.directory_id

-- SELECT directory_id FROM directory WHERE fullname = $1
unfoldable pub find_directory : Db → Text → Option ℕ
find_directory db path =
    directory_id_of (find (λ (d : Directory). d.fullname == path) db.directories)

abbrev pub file_directory : Option FileEntry → Option ℕ
file_directory none = none
file_directory (some f) = some f.directory_id

-- The prefixes of a list, the longest first, without the empty one.
abbrev pub map_path {ℓ} : {A : Type ℓ} → A → List (List A) → List (List A)
map_path a [] = (a ∷ []) ∷ []
map_path a (p ∷ ps) = (a ∷ p) ∷ map_path a ps

abbrev pub prefixes {ℓ} : {A : Type ℓ} → List A → List (List A)
prefixes [] = []
prefixes (p ∷ ps) = map_path p (prefixes ps)

abbrev pub paths_of : List (List Text) → List Text
paths_of [] = (slash ∷ []) ∷ []
paths_of (p ∷ ps) = path_of p ∷ paths_of ps

-- The path and the directories above it, the deepest first.
unfoldable pub lookup_paths : Text → List Text
lookup_paths path = paths_of (prefixes (parts path))

-- ORDER BY LENGTH(fullname) DESC LIMIT 1
abbrev pub longer : Directory → Option Directory → Option Directory
longer d none = some d
longer d (some e) = if ltb (length d.fullname) (length e.fullname) then some e else some d

abbrev pub longest : List Text → List Directory → Option Directory
longest paths [] = none
longest paths (d ∷ ds) =
    let rest = longest paths ds in if contains paths d.fullname then longer d rest else rest

-- The query `dir` of hasPermission.
unfoldable pub lookup_dir : Db → Text → Permission → Bool → Option ℕ
unfolding lookup_paths find_directory
lookup_dir db path p false = find_directory db path
lookup_dir db path write true = directory_id_of (longest (lookup_paths path) db.directories)
lookup_dir db path read true =
    file_directory (find (λ (f : FileEntry). f.filepath == path) db.files)
lookup_dir db path admin true =
    file_directory (find (λ (f : FileEntry). f.filepath == path) db.files)

-- ALLOWED_PERMISSIONS
unfoldable pub parse_permission : Text → Option Permission
parse_permission t =
    if t == codes "read"
    then some read
    else if t == codes "write"
    then some write
    else if t == codes "admin"
    then some admin
    else none

-- `opts.requestor`: an empty name counts as none.
abbrev pub name_of : Text → Option Text
name_of [] = none
name_of (c ∷ t) = some (c ∷ t)

abbrev pub user_row : Db → Option Text → Option ℕ
user_row db none = none
user_row db (some user) = lookup user db.users

abbrev pub cache_name : Option Text → Text
cache_name none = codes "PUBLIC"
cache_name (some user) = user

-- A request, as far as the checks read its context; an empty text is an absent one.
pub record Request : Type 0 where
  pub requestor : Text
  pub ignore_acl : Bool
  pub directory : Text
  pub file_path : Text

-- Without a user only `read` is looked up.
abbrev pub answer_for : Option Text → Permission → Text → Bool → Db → Bool
answer_for none write path is_file db = false
answer_for none admin path is_file db = false
answer_for none read path is_file db = has_permission db (lookup_dir db path read is_file) read none
answer_for (some user) p path is_file db =
    has_permission db (lookup_dir db path p is_file) p (user_row db (some user))

-- An answer to nobody for `write` and `admin` is not stored.
abbrev pub stores : Option Text → Permission → Bool
stores none read = true
stores none write = false
stores none admin = false
stores (some user) p = true

-- context.data.directory || context.data.filePath
abbrev pub target : Request → Text
target q = if is_empty q.directory then q.file_path else q.directory

module _ (cfg : Config) where
  abbrev pub role_from : Cached → Text → Text → Acl Answer
  role_from off user role s =
      let value = in_role s.db user role in
      (do set_cached_role cfg user role value; pure (some value)) s
  role_from absent user role s = (ok none, s)
  role_from (hit b) user role s = (ok (some b), s)

  unfoldable pub user_in_role : Text → Text → Acl Answer
  unfolding in_role get_cached_role set_cached_role
  user_in_role requestor role s =
      if is_empty role
      then (err missing_argument, s)
      else if is_empty requestor
      then (ok (some false), s)
      else if requestor == cfg.super_admin_user
      then (ok (some true), s)
      else role_from (get_cached_role cfg requestor role s) requestor role s

  unfoldable pub is_admin_user : Text → Acl Answer
  unfolding user_in_role
  is_admin_user requestor = user_in_role requestor cfg.admin_role

  unfoldable pub acl_lookup_required : Text → Bool → Acl Bool
  unfolding is_admin_user
  acl_lookup_required requestor ignore_acl =
      if ignore_acl
      then pure false
      else if not cfg.enabled
      then pure false
      else do a ← is_admin_user requestor; pure (not (holds a))

  abbrev pub permission_from : Cached → Option Text → Permission → Text → Text → Bool → Acl Answer
  permission_from (hit b) user p name path is_file s = (ok (some b), s)
  permission_from absent user p name path is_file s = (ok none, s)
  permission_from off user p name path is_file s =
      let value = answer_for user p path is_file s.db in
      if stores user p
      then (do set_cached_permission cfg (cache_name user) path name value; pure (some value)) s
      else (ok (some value), s)

  abbrev pub check_known : Option Permission → Text → Text → Text → Bool → Acl Answer
  check_known none requestor path name is_file s = (err (invalid_permission path name), s)
  check_known (some p) requestor path name is_file s =
      permission_from (get_cached_permission cfg (cache_name (name_of requestor)) path name s)
        (name_of requestor) p name path is_file s

  unfoldable pub can : Text → Text → Text → Bool → Acl Answer
  unfolding lookup_dir has_permission get_cached_permission set_cached_permission parse_permission
  can requestor path name is_file s =
      if is_empty path || is_empty name
      then (err missing_argument, s)
      else check_known (parse_permission name) requestor path name is_file s

  -- The request that comes back no longer asks for a check.
  unfoldable pub check_permissions : Request → Text → Bool → Acl Request
  unfolding acl_lookup_required can
  check_permissions q name is_file = do
    required ← acl_lookup_required q.requestor q.ignore_acl
    if not required then pure (record q { ignore_acl = true }) else do
      a ← can q.requestor (target q) name (is_empty q.directory && is_file)
      if holds a
          then pure (record q { ignore_acl = true })
          else throw (access_denied (target q) name)

  unfoldable pub allow_admin_action : Request → Acl Bool
  unfolding acl_lookup_required
  allow_admin_action q = do
    required ← acl_lookup_required q.requestor q.ignore_acl
    pure (not required)

  unfoldable pub can_read_file : Request → Acl Request
  unfolding check_permissions
  can_read_file q = check_permissions q (codes "read") true

  unfoldable pub can_write_file : Request → Acl Request
  unfolding check_permissions
  can_write_file q = check_permissions q (codes "write") true

  unfoldable pub can_update_dir_acl : Request → Acl Request
  unfolding check_permissions
  can_update_dir_acl q = check_permissions q (codes "admin") false
