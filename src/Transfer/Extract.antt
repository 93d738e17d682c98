-- ===== src/Transfer/Extract.antt =====
-- src/bin/lib/transfer.js: `_extractArchiveToLocation`. The disk is a map from paths to bytes, where
-- directories are not kept; that a path is in use as a directory is not looked at.
use caskfs.Base.{◌==◌, nat_eq, list_eq, Bool, true, false, not, ◌&&◌, ◌||◌, List, [], ◌∷◌, ◌++◌}
use caskfs.Base.{if◌then◌else◌}
use caskfs.Base.Dict.{Dict, insert}
use caskfs.Base.Text.{Text, codes}
use caskfs.Base.Exec.{Exec, ok, err, for_each}
use caskfs.Paths.{slash, split, normalize, join, join_slash, put_pieces, ends_with_slash, rebuild}
use caskfs.Cas.{Bytes}
use caskfs.Transfer.Export.{HashEntry}

abbrev ends_with_dots : List Text → Bool
ends_with_dots [] = true
ends_with_dots (p ∷ []) = p == codes ".."
ends_with_dots (p ∷ q ∷ ps) = ends_with_dots (q ∷ ps)

abbrev drop_end : List Text → List Text
drop_end [] = []
drop_end (p ∷ []) = []
drop_end (p ∷ q ∷ ps) = p ∷ drop_end (q ∷ ps)

-- One piece of path.normalize on a relative path: ".." stays where there is nothing to take away.
abbrev pub put_relative : List Text → Text → List Text
put_relative out [] = out
put_relative out (c ∷ t) =
    if (c ∷ t) == codes "."
    then out
    else if (c ∷ t) == codes ".." && not (ends_with_dots out)
    then drop_end out
    else out ++ (c ∷ t) ∷ []

abbrev pub put_all_relative : List Text → List Text → List Text
put_all_relative out [] = out
put_all_relative out (p ∷ ps) = put_all_relative (put_relative out p) ps

abbrev pub rebuild_relative : List Text → Bool → Text
rebuild_relative [] trailing = if trailing then codes "./" else codes "."
rebuild_relative (p ∷ ps) trailing = join_slash (p ∷ ps) ++ (if trailing then slash ∷ [] else [])

-- path.normalize of any path
unfoldable pub normalize_any : Text → Text
unfolding split normalize
normalize_any [] = codes "."
normalize_any (c ∷ t) =
    if c == slash
    then normalize (c ∷ t)
    else rebuild_relative (put_all_relative [] (split (c ∷ t))) (ends_with_slash (c ∷ t))

-- replace(/^(\.\.(\/|\\|$))+/, '')
unfoldable pub strip_dots : Text → Text
strip_dots [] = []
strip_dots (a ∷ []) = a ∷ []
strip_dots (a ∷ b ∷ []) = if a == 46 && b == 46 then [] else a ∷ b ∷ []
strip_dots (a ∷ b ∷ c ∷ t) =
    let rest = strip_dots t in
    if a == 46 && b == 46 && (c == slash || c == 92) then rest else a ∷ b ∷ c ∷ t

-- path.resolve of an absolute path
unfoldable pub resolve : Text → Text
unfolding split
resolve t = rebuild (put_pieces [] (split t)) false

-- path.join leaves out an empty argument.
abbrev pub join_under : Text → Text → Text
join_under location [] = normalize location
join_under location (c ∷ t) = join location (c ∷ t)

unfoldable pub destination : Text → Text → Text
unfolding normalize_any strip_dots resolve join
destination location name = resolve (join_under location (strip_dots (normalize_any name)))

abbrev pub starts_with : Text → Text → Bool
starts_with [] t = true
starts_with (c ∷ p) [] = false
starts_with (c ∷ p) (d ∷ t) = c == d && starts_with p t

abbrev pub is_inside : Text → Text → Bool
is_inside root dest = starts_with (root ++ slash ∷ []) dest || dest == root

-- The content of a file, or a kind of entry that has none.
pub data Content : Type 0 where
  directory other : Content
  file : Bytes → Content

pub record TarEntry : Type 0 where
  pub name : Text
  pub content : Content

-- Invalid tar entry path
pub data TarError : Type 0 where
  invalid_path : Text → TarError

abbrev pub Disk : Type 0
Disk = Dict Text Bytes

abbrev pub put_content : Text → Content → Disk → Disk
put_content path directory disk = disk
put_content path other disk = disk
put_content path (file b) disk = insert path b disk

abbrev pub extract_to : Text → Text → TarEntry → Exec TarError Disk Unit
extract_to root dest e disk =
    if not (is_inside root dest)
    then (err (invalid_path e.name), disk)
    else (ok tt, put_content dest e.content disk)

unfoldable pub extract_entry : Text → TarEntry → Exec TarError Disk Unit
unfolding destination resolve
extract_entry location e = extract_to (resolve location) (destination location e.name) e

unfoldable pub extract_archive : Text → List TarEntry → Exec TarError Disk Unit
unfolding extract_entry
extract_archive location entries = for_each (extract_entry location) entries

-- The two entries of each hash, the files listed as `json` writes them.
unfoldable pub tar_entries : (HashEntry → Bytes) → List HashEntry → List TarEntry
tar_entries json [] = []
tar_entries json (e ∷ es) =
    record { name = e.tar_base; content = file e.bytes }
    ∷ record { name = e.tar_base ++ codes ".json"; content = file (json e) }
    ∷ tar_entries json es
