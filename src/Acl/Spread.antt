-- ===== src/Acl/Spread.antt =====
-- src/lib/acl.js: `setDirectoryAcl`, as it changes the table directory_acl.
use caskfs.Base.{ℕ, zero, suc, ◌==◌, nat_eq, option_eq, Option, none, some, is_some}
use caskfs.Base.{List, [], ◌∷◌, length, keep, map, find, if◌then◌else◌}
use caskfs.Base.Dict.{Dict, lookup, insert}
use caskfs.Acl.Db.{Directory, RootAcl, Db}

abbrev pub root_of : Db → ℕ → Option RootAcl
root_of db d = find (λ (r : RootAcl). r.directory_id == d) db.root_acls

abbrev pub ids : List Directory → List ℕ
ids = map (λ (d : Directory). d.directory_id)

-- WHERE d.parent_id = $1
abbrev pub children : Db → ℕ → List ℕ
children db d = ids (keep (λ (c : Directory). c.parent_id == some d) db.directories)

-- An action on each of the children that have no ACL of their own.
abbrev pub each_after :
    Db → (ℕ → Dict ℕ ℕ → Option (Dict ℕ ℕ)) → List ℕ → Option (Dict ℕ ℕ) → Option (Dict ℕ ℕ)
each_after db visit cs none = none
each_after db visit [] (some acls) = some acls
each_after db visit (c ∷ cs) (some acls) =
    each_after db visit cs (if is_some (root_of db c) then some acls else visit c acls)

-- The number bounds the depth of the recursion; none is returned where it is too small.
unfoldable pub spread : Db → ℕ → ℕ → ℕ → Dict ℕ ℕ → Option (Dict ℕ ℕ)
spread db acl zero d acls = none
spread db acl (suc n) d acls =
    let below = each_after db (spread db acl n) (children db d) (some (insert d acl acls)) in
    if lookup d acls == some acl then some acls else below

-- opts.recurse === false
unfoldable pub set_one : ℕ → ℕ → Dict ℕ ℕ → Dict ℕ ℕ
set_one acl d acls = if lookup d acls == some acl then acls else insert d acl acls

-- One level of recursion for each directory, and one more.
unfoldable pub set_directory_acl : Db → ℕ → ℕ → Option (Dict ℕ ℕ)
unfolding spread
set_directory_acl db acl d = spread db acl (suc (suc (length db.directories))) d db.directory_acls
