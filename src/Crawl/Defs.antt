-- ===== src/Crawl/Defs.antt =====
-- src/bin/lib/cp-utils.js: crawlLocal, on a tree of directories as fs.readdir reads it. A path is the
-- list of its parts, onto which path.join puts a name.
use caskfs.Base.{◌==◌, nat_eq, list_eq, Bool, true, false, ◌||◌}
use caskfs.Base.{List, [], ◌∷◌, ◌++◌, drop, if◌then◌else◌}
use caskfs.Base.Text.{Text, codes}

-- A directory that cannot be read, or its entries: directories, files, and others.
mutual
  pub data Folder : Type 0 where
    unreadable : Folder
    readable : Entries → Folder

  pub data Entries : Type 0 where
    done : Entries
    dir : Text → Folder → Entries → Entries
    file : Text → Entries → Entries
    other : Text → Entries → Entries

pub data Problem : Type 0 where
  cannot_read : List Text → Problem
  multiple_sentinels : List Text → List Text → Problem
  extension_mismatch : List Text → Text → Problem

-- The files, from where to where, and the errors.
pub record Crawled : Type 0 where
  pub files : List (List Text × List Text)
  pub errors : List Problem

abbrev pub starts_with : Text → Text → Bool
starts_with [] t = true
starts_with (c ∷ p) [] = false
starts_with (c ∷ p) (d ∷ t) = let rest = starts_with p t in if c == d then rest else false

unfoldable pub dir_ext : Text → Text
dir_ext [] = []
dir_ext (c ∷ t) = let rest = dir_ext t in if c == 46 then c ∷ t else rest

unfoldable pub is_sentinel : Text → Bool
is_sentinel name = name == codes "__file__" || starts_with (codes "__file__.") name

unfoldable pub sentinel_ext : Text → Text
sentinel_ext name = if name == codes "__file__" then [] else drop 8 name

unfoldable pub is_hidden : Text → Bool
is_hidden name = starts_with (codes ".") name

abbrev pub basename : List Text → Text
basename [] = []
basename (p ∷ []) = p
basename (p ∷ q ∷ ps) = basename (q ∷ ps)

abbrev pub sentinels : Entries → List Text
sentinels done = []
sentinels (dir n f es) = sentinels es
sentinels (file n es) =
    let rest = sentinels es in
    if is_hidden n then rest else if is_sentinel n then n ∷ rest else rest
sentinels (other n es) = sentinels es

abbrev pub nothing : Crawled
nothing = record { files = []; errors = [] }

abbrev pub failed : Problem → Crawled
failed p = record { files = []; errors = p ∷ [] }

abbrev pub join_crawled : Crawled → Crawled → Crawled
join_crawled a b = record { files = a.files ++ b.files; errors = a.errors ++ b.errors }

abbrev pub one_file : List Text → List Text → Crawled
one_file from to = record { files = (from, to) ∷ []; errors = [] }

abbrev pub judge : List Text → List Text → List Text → Crawled → Crawled
judge [] d c rest = rest
judge (s ∷ []) d c rest =
    if sentinel_ext s == dir_ext (basename d)
    then join_crawled (one_file (d ++ s ∷ []) c) rest
    else failed (extension_mismatch d s)
judge (s ∷ t ∷ ss) d c rest = failed (multiple_sentinels d (s ∷ t ∷ ss))

abbrev pub is_skipped : Text → Bool
is_skipped n = is_hidden n || is_sentinel n

unfoldable mutual
  pub walk : Folder → List Text → List Text → Crawled
  walk unreadable d c = failed (cannot_read d)
  walk (readable es) d c = judge (sentinels es) d c (walk_entries es d c)

  pub walk_entries : Entries → List Text → List Text → Crawled
  walk_entries done d c = nothing
  walk_entries (dir n f es) d c =
      let below = walk f (d ++ n ∷ []) (c ++ n ∷ []) in
      let rest = walk_entries es d c in if is_skipped n then rest else join_crawled below rest
  walk_entries (file n es) d c =
      let rest = walk_entries es d c in
      if is_skipped n then rest else join_crawled (one_file (d ++ n ∷ []) (c ++ n ∷ [])) rest
  walk_entries (other n es) d c = walk_entries es d c

unfoldable pub crawl_local : Folder → List Text → List Text → Crawled
crawl_local f local_dir cask_dir = walk f local_dir cask_dir
