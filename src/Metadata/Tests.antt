-- ===== src/Metadata/Tests.antt =====
-- src/index.js: small patches, and the theorems at them.
use caskfs.Base.{◌≡◌, refl, true, false, nat_eq, list_eq, none, some, ◌↔◌}
use caskfs.Base.{List, [], ◌∷◌}
use caskfs.Base.Dict.{lookup, insert}
use caskfs.Base.Text.{Text, codes}
use caskfs.AutoPath.{Found}
use caskfs.Metadata.Defs.{Metadata, git_key, is_git}
use caskfs.Metadata.Defs.{apply_git_patch, drop_git, put_properties}
use caskfs.Metadata.Defs.{array_equals, is_unchanged}
use caskfs.Metadata.Patching.{Gives, apply_git_patch_lem}

abbrev old : Metadata
old = (codes "title", codes "t") ∷ (codes "git-tag", codes "v1") ∷ []

abbrev patch : Metadata
patch = (codes "branch", codes "main") ∷ (codes "author", codes "x") ∷ []

abbrev year : List Found
year = record { name = codes "year"; value = codes "year-2024" } ∷ []

patched_old :
    apply_git_patch patch old ≡ (codes "title", codes "t") ∷ (codes "git-branch", codes "main") ∷ []
unfolding apply_git_patch drop_git put_properties is_git git_key lookup insert nat_eq list_eq
patched_old = refl

-- The arrays count as equal, although their keys come a different number of times.
equal_arrays :
    array_equals (codes "a" ∷ codes "a" ∷ codes "b" ∷ []) (codes "a" ∷ codes "b" ∷ codes "b" ∷ [])
    ≡ true
unfolding array_equals nat_eq list_eq
equal_arrays = refl

-- A patch with the metadata that the file has, and no git data: it is written, since the git
-- properties of the file are not taken out before the comparison.
git_compared :
    is_unchanged
      (record { metadata = old; partition_keys = [] })
      (record {
        metadata = (codes "title", codes "t") ∷ [];
        git = [];
        partition_keys = none;
        auto_keys = [];
        only_on_change = true;
      })
    ≡ false
unfolding is_unchanged array_equals nat_eq list_eq
git_compared = refl

-- A property that is null is left out, and the old value goes.
null_left_out :
    apply_git_patch ((codes "tag", codes "null") ∷ []) old ≡ (codes "title", codes "t") ∷ []
unfolding apply_git_patch drop_git put_properties is_git git_key lookup insert nat_eq list_eq
null_left_out = refl

apply_git_patch_lem_example :
    ((p : Text)
      → (v : Text) → lookup (git_key p) (apply_git_patch patch old) ≡ some v ↔ Gives p patch v)
    × ((k : Text) → is_git k ≡ false → lookup k (apply_git_patch patch old) ≡ lookup k old)
apply_git_patch_lem_example = apply_git_patch_lem patch old
