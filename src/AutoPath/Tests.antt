-- ===== src/AutoPath/Tests.antt =====
-- src/lib/auto-path/base.js: rules on small paths, and the theorems at them.
use caskfs.Base.{ℕ, zero, suc, ◌≡◌, refl, ◌↔◌, true, false, none, some, [], ◌∷◌}
use caskfs.Base.{◌==◌, nat_eq, list_eq}
use caskfs.Base.Dict.{lookup, insert}
use caskfs.Base.Text.{Text, codes}
use caskfs.Base.Exec.{ok, err}
use caskfs.AutoPath.Rules.{partition, bucket, Rule, Rules, Host, too_long}
use caskfs.Paths.{dir_parts}
use caskfs.AutoPath.Lookup.{pick_part, get_config, apply_rule, get_rule_from_path}
use caskfs.AutoPath.Changes.{Opts, set, set_all, pass_over, is_equal}
use caskfs.AutoPath.Changes.{clean}
use caskfs.AutoPath.Chosen.{IsTaken, pick_part-IsTaken}
use caskfs.AutoPath.Updates.{IsValid}

-- An expression matches a piece that it equals.
abbrev host : Host
host = record {
  compiles = λ regex. true;
  matches = λ regex p. regex == p;
  call = λ body name p regex. body;
}

abbrev by_index : Rule
by_index = record {
  id = 1;
  name = codes "year";
  index = some 2;
  filter_regex = none;
  get_value = none;
}

abbrev loaded : Rules
loaded = record {
  next_id = 2;
  rows = (codes "year", by_index) ∷ [];
  config = some (by_index ∷ []);
  paths = [];
}

abbrev same_again : Opts
same_again = record {
  name = codes "year";
  index = some 2;
  filter_regex = none;
  get_value = none;
  others = [];
}

-- The second piece; where the path has one piece only, the first.
second_piece :
    (pick_part host by_index (codes "a" ∷ codes "b" ∷ []) ≡ some (codes "b"))
    × (pick_part host by_index (codes "a" ∷ []) ≡ some (codes "a"))
unfolding pick_part nat_eq list_eq
second_piece = (refl, refl)

-- The same definition again: nothing changes for a partition; a bucket is written anew, since the
-- column auto_path_bucket_id is compared with it.
partition_kept : set host partition same_again loaded ≡ (ok false, loaded)
unfolding set get_config is_equal clean lookup insert nat_eq list_eq
partition_kept = refl

bucket_written : set host bucket same_again loaded ≡ (ok true, record loaded { next_id = 3 })
unfolding set get_config is_equal clean lookup insert nat_eq list_eq
bucket_written = refl

abbrev copies : ℕ → Text
copies zero = []
copies (suc n) = 97 ∷ copies n

-- The function of the rule gives a text of that length.
abbrev of_length : ℕ → Opts
of_length n = record same_again { get_value = some (copies n) }

-- A rule that is written is applied to the files: a value of 257 characters is refused.
pass_refused :
    ((set_all host partition (of_length 256) (record loaded { paths = codes "/a/b/c" ∷ [] })).0
      ≡ ok tt)
    × ((set_all host partition (of_length 257) (record loaded { paths = codes "/a/b/c" ∷ [] })).0
        ≡ err too_long)
unfolding set_all pass_over get_rule_from_path apply_rule pick_part dir_parts set get_config
    is_equal clean lookup insert nat_eq list_eq
pass_refused = (refl, refl)

pick_part-IsTaken_example :
    (pick_part host by_index (codes "a" ∷ codes "b" ∷ []) ≡ some (codes "b"))
    ↔ IsTaken host by_index (codes "a" ∷ codes "b" ∷ []) (codes "b")
pick_part-IsTaken_example = pick_part-IsTaken host (codes "b") by_index (codes "a" ∷ codes "b" ∷ [])

same_again-IsValid : IsValid same_again
same_again-IsValid = record { has_name = refl; has_rule = refl; position = refl }
