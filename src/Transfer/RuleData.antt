-- ===== src/Transfer/RuleData.antt =====
-- `_exportAutoPartition` of src/lib/transfer.js and `_importAutoPartition` of src/bin/lib/transfer.js.
use caskfs.Base.{ℕ, Bool, ◌&&◌, Option, none, some, List, [], ◌∷◌, if◌then◌else◌}
use caskfs.Base.Text.{Text}
use caskfs.Base.Exec.{Result, ok, err, Exec, ◌>>=◌, ◌>>◌, pure, throw, for_each}
use caskfs.AutoPath.Rules.{Host, Kind, partition, bucket, Rule, Rules, RuleError, Auto, rules_of}
use caskfs.AutoPath.Changes.{Opts, set_all, exists}
use caskfs.Transfer.AclData.{Conflict, is_fail, is_skip}

pub record RuleData : Type 0 where
  pub name : Text
  pub index : Option ℕ
  pub filter_regex : Option Text
  pub get_value : Option Text

abbrev pub rule_data : List Rule → List RuleData
rule_data [] = []
rule_data (r ∷ rs) =
    record {
      name = r.name;
      index = r.index;
      filter_regex = r.filter_regex;
      get_value = r.get_value;
    }
    ∷ rule_data rs

-- partitions.json and buckets.json
pub record RulesData : Type 0 where
  pub partitions : List RuleData
  pub buckets : List RuleData

-- The two tables, of `autoPath.partition` and `autoPath.bucket`.
pub record AutoPaths : Type 0 where
  pub partition_rules : Rules
  pub bucket_rules : Rules

unfoldable pub export_auto_partition : AutoPaths → RulesData
export_auto_partition s = record {
  partitions = rule_data (rules_of s.partition_rules.rows);
  buckets = rule_data (rules_of s.bucket_rules.rows);
}

pub data RuleImportError : Type 0 where
  rule_there : Text → RuleImportError
  rule_error : RuleError → RuleImportError

abbrev pub RuleImport : Type 0 → Type 0
RuleImport = Exec RuleImportError Rules

abbrev from_auto : {A : Type 0} → Result RuleError A → Result RuleImportError A
from_auto (ok a) = ok a
from_auto (err e) = err (rule_error e)

abbrev pub auto : {A : Type 0} → Auto A → RuleImport A
auto m s = let (a, s') = m s in (from_auto a, s')

-- A position that is null, and not undefined, is compared as 0, and counts as no position.
abbrev pub given_index : Option ℕ → Option ℕ
given_index none = some 0
given_index (some n) = some n

abbrev pub opts_of : RuleData → Opts
opts_of d = record {
  name = d.name;
  index = given_index d.index;
  filter_regex = d.filter_regex;
  get_value = d.get_value;
  others = [];
}

abbrev pub on_partitions : RuleImport Unit → Exec RuleImportError AutoPaths Unit
on_partitions m s = let (a, r) = m s.partition_rules in (a, record s { partition_rules = r })

abbrev pub on_buckets : RuleImport Unit → Exec RuleImportError AutoPaths Unit
on_buckets m s = let (a, r) = m s.bucket_rules in (a, record s { bucket_rules = r })

module _ (host : Host) where
  abbrev pub set_rule : Kind → RuleData → RuleImport Unit
  set_rule kind d = auto (set_all host kind (opts_of d))

  abbrev pub set_unless : Conflict → Kind → RuleData → Bool → RuleImport Unit
  set_unless conflict kind d there =
      if is_fail conflict && there
      then throw (rule_there d.name)
      else if is_skip conflict && there
      then pure tt
      else set_rule kind d

  unfoldable pub import_rule : Conflict → Kind → RuleData → RuleImport Unit
  unfolding set_all exists
  import_rule conflict kind d = auto (exists d.name) >>= set_unless conflict kind d

  unfoldable pub import_auto_partition : Conflict → RulesData → Exec RuleImportError AutoPaths Unit
  unfolding import_rule
  import_auto_partition conflict archive = do
    on_partitions (for_each (import_rule conflict partition) archive.partitions)
    on_buckets (for_each (import_rule conflict bucket) archive.buckets)
