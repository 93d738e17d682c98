-- ===== src/Metadata/Defs.antt =====
-- src/index.js: `_applyGitPatch`, `_arrayEquals`, `_setPartitionKeys`, `patchMetadata`.
use caskfs.Base.{◌==◌, nat_eq, list_eq, Bool, true, false, ◌&&◌}
use caskfs.Base.{Option, none, some, List, [], ◌∷◌, ◌++◌, map, length, contains}
use caskfs.Base.{if◌then◌else◌}
use caskfs.Base.Dict.{Dict, lookup, insert}
use caskfs.Base.Text.{Text, codes}
use caskfs.AutoPath.{Found}

-- A metadata object, its values as JSON text.
abbrev pub Metadata : Type 0
Metadata = Dict Text Text

-- config.git.metadataProperties
abbrev pub git_properties : List Text
git_properties =
    codes "remote" ∷ codes "branch" ∷ codes "commit" ∷ codes "tag" ∷ codes "lastCommitTime" ∷ []

unfoldable pub git_key : Text → Text
git_key property = codes "git-" ++ property

-- key.startsWith('git-')
abbrev pub starts_with : Text → Text → Bool
starts_with [] t = true
starts_with (c ∷ p) [] = false
starts_with (c ∷ p) (d ∷ t) = c == d && starts_with p t

unfoldable pub is_git : Text → Bool
is_git = starts_with (codes "git-")

unfoldable pub drop_git : Metadata → Metadata
drop_git [] = []
drop_git (e ∷ m) = let rest = drop_git m in if is_git e.0 then rest else e ∷ rest

-- undefined and null are left out.
abbrev pub given : Option Text → Option Text
given none = none
given (some v) = if v == codes "null" then none else some v

abbrev pub put_property : Text → Option Text → Metadata → Metadata
put_property property none m = m
put_property property (some v) m = insert (git_key property) v m

unfoldable pub put_properties : List Text → Metadata → Metadata → Metadata
put_properties [] patch m = m
put_properties (p ∷ ps) patch m =
    put_properties ps patch (put_property p (given (lookup p patch)) m)

-- _applyGitPatch
unfoldable pub apply_git_patch : Metadata → Metadata → Metadata
unfolding drop_git put_properties
apply_git_patch patch m = put_properties git_properties patch (drop_git m)

-- _arrayEquals
abbrev pub all_included : List Text → List Text → Bool
all_included [] ys = true
all_included (x ∷ xs) ys = contains ys x && all_included xs ys

unfoldable pub array_equals : List Text → List Text → Bool
array_equals xs ys = length xs == length ys && all_included xs ys

abbrev pub or_none : Option (List Text) → List Text
or_none none = []
or_none (some ks) = ks

abbrev pub values : List Found → List Text
values = map (λ (f : Found). f.value)

pub record FileMeta : Type 0 where
  pub metadata : Metadata
  pub partition_keys : List Text

pub record Patch : Type 0 where
  pub metadata : Metadata
  pub git : Metadata
  pub partition_keys : Option (List Text)
  pub auto_keys : List Found
  pub only_on_change : Bool

abbrev pub same_entry : Text × Text → Text × Text → Bool
same_entry a b = a.0 == b.0 && a.1 == b.1

-- Two objects have one JSON text if they have the same entries in the same order.
abbrev pub same_json : Metadata → Metadata → Bool
same_json [] [] = true
same_json [] (e ∷ b) = false
same_json (e ∷ a) [] = false
same_json (e ∷ a) (f ∷ b) = same_entry e f && same_json a b

-- The git properties are looked for beside the metadata, not in it, so that none is taken out.
unfoldable pub is_unchanged : FileMeta → Patch → Bool
unfolding array_equals
is_unchanged file p =
    same_json file.metadata p.metadata
    && array_equals file.partition_keys (values p.auto_keys ++ or_none p.partition_keys)
