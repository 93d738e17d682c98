-- ===== src/Transfer/Restoring.antt =====
-- src/lib/transfer.js and src/bin/lib/transfer.js: exported auto-path rules, imported again.
use caskfs.Base.{ℕ, zero, suc, ◌≡◌, ◌≢◌, refl, ap, ◌∙◌, true, false, arith}
use caskfs.Base.{nat_eq, list_eq, ◌==◌, Option, none, some, is_some, List, [], ◌∷◌, All}
use caskfs.Base.{if◌then◌else◌}
use caskfs.Base.Dict.{Dict, lookup, insert, lookup-insert}
use caskfs.Base.Text.{Text, codes}
use caskfs.Base.Exec.{ok, for_each}
use caskfs.AutoPath.Rules.{
  Host, Kind, partition, bucket, Rule, Rules, rules_of, is_compiled, all_compiled,
}
use caskfs.AutoPath.Changes.{
  Opts, set, set_all, pass_over, exists, upsert, no_text, truthy_text, truthy_number, is_zero,
  Value, text,
}
use caskfs.AutoPath.Changes.{is_equal, clean, opts_object, rule_from, id_from}
use caskfs.AutoPath.Updates.{IsValid, save, set_lem}
use caskfs.Transfer.AclData.{Conflict, fail, skip, merge}
use caskfs.Transfer.RuleData.{RuleData, AutoPaths, export_auto_partition}
use caskfs.Transfer.RuleData.{opts_of, given_index, set_rule, set_unless}
use caskfs.Transfer.RuleData.{import_rule, import_auto_partition}

-- A rule with a name and a position, no empty text beside them, and an expression that compiles, if it
-- has one.
pub record IsRule (host : Host) (d : RuleData) : Type 0 where
  pub has_name : no_text d.name ≡ false
  pub has_position : (n : ℕ) × (d.index ≡ some (suc n))
  pub filter_kept : truthy_text d.filter_regex ≡ d.filter_regex
  pub compiled : is_compiled host d.filter_regex ≡ true
  pub value_kept : truthy_text d.get_value ≡ d.get_value

-- The rule of that name in the table, whatever its id.
abbrev pub IsRestored : Rules → RuleData → Type 0
IsRestored s d =
    (r : Rule) × (lookup d.name s.rows ≡ some r)
    × (r.name ≡ d.name)
    × (r.index ≡ d.index)
    × (r.filter_regex ≡ d.filter_regex)
    × (r.get_value ≡ d.get_value)

named_first :
    (o : Opts)
    → (rest : Dict Text Value) × (clean (opts_object o) ≡ (codes "name", text o.name) ∷ rest)
unfolding clean nat_eq list_eq
named_first o = (_, refl)

new_rule : (o : Opts) → is_equal [] (opts_object o) ≡ false
unfolding is_equal
new_rule o = let (rest, e) = named_first o in rw e (ground arith)

some_position :
    (i : Option ℕ) (n : ℕ)
    → i ≡ some (suc n)
    → (is_some (truthy_number (given_index i)) ≡ true)
      × (is_zero (given_index i) ≡ false)
      × (truthy_number (given_index i) ≡ i)
some_position none n e = absurd (cc e)
some_position (some zero) n e = absurd (ground (arith, e))
some_position (some (suc k)) n e = (refl, ground arith, refl)

abbrev Compiles : Host → Rules → Type 0
Compiles host s = all_compiled host (rules_of s.rows) ≡ true

insert-compiled :
    (host : Host) (name : Text) (r : Rule) (rows : Dict Text Rule)
    → is_compiled host r.filter_regex ≡ true
    → all_compiled host (rules_of rows) ≡ true
    → all_compiled host (rules_of (insert name r rows)) ≡ true
unfolding insert
insert-compiled host name r [] h a = ground (arith, h)
insert-compiled host name r (e ∷ rows) h a =
    ground (arith, h, a, insert-compiled host name r rows h)

module _ (host : Host) where
  is_valid : (d : RuleData) → IsRule host d → IsValid (opts_of d)
  is_valid d h =
      let (there, position, same) = some_position d.index h.has_position.0 h.has_position.1 in
      record { has_name = h.has_name; has_rule = ground (arith, there); position = position }

  upsert-Compiles :
      (d : RuleData) (s : Rules)
      → IsRule host d
      → Compiles host s
      → Compiles host (upsert (opts_of d) s)
  upsert-Compiles d s h good =
      insert-compiled host d.name (rule_from (id_from s.next_id (lookup d.name s.rows)) (opts_of d))
        s.rows (ap (is_compiled host) h.filter_kept ∙ h.compiled) good

  written :
      (kind : Kind) (d : RuleData) (s : Rules)
      → IsRule host d
      → Compiles host s
      → lookup d.name s.rows ≡ none
      → set host kind (opts_of d) s ≡ (ok true, save (opts_of d) s)
  written kind d s h good fresh =
      (set_lem host kind (opts_of d) s (is_valid d h) (upsert-Compiles d s h good)).0
      ∙ rw (fresh, new_rule (opts_of d)) refl

  set_new :
      (kind : Kind) (d : RuleData) (s : Rules)
      → IsRule host d
      → Compiles host s
      → lookup d.name s.rows ≡ none
      → s.paths ≡ []
      → set_all host kind (opts_of d) s ≡ (ok tt, save (opts_of d) s)
  unfolding set_all pass_over
  set_new bucket d s h good fresh empty = rw (written bucket d s h good fresh) refl
  set_new partition d s h good fresh empty =
      ground (arith, written partition d s h good fresh, empty)

  exists_new :
      (name : Text) (s : Rules)
      → no_text name ≡ false
      → lookup name s.rows ≡ none
      → exists name s ≡ (ok false, s)
  unfolding exists
  exists_new name s h fresh = rw (h, fresh) refl

  no_conflict :
      (c : Conflict) (kind : Kind) (d : RuleData)
      → set_unless host c kind d false ≡ set_rule host kind d
  no_conflict fail kind d = refl
  no_conflict skip kind d = refl
  no_conflict merge kind d = refl

  import_new :
      (c : Conflict) (kind : Kind) (d : RuleData) (s : Rules)
      → IsRule host d
      → Compiles host s
      → lookup d.name s.rows ≡ none
      → s.paths ≡ []
      → import_rule host c kind d s ≡ (ok tt, save (opts_of d) s)
  unfolding import_rule
  import_new c kind d s h good fresh empty =
      rw
        (
          exists_new d.name s h.has_name fresh,
          no_conflict c kind d,
          set_new kind d s h good fresh empty,
        )
        refl

abbrev pub HaveApartNames : List RuleData → Type 0
HaveApartNames [] = Unit
HaveApartNames (d ∷ ds) = All (λ (e : RuleData). d.name ≢ e.name) ds × HaveApartNames ds

abbrev AreNew : Rules → List RuleData → Type 0
AreNew s ds = All (λ (d : RuleData). lookup d.name s.rows ≡ none) ds

saved_row :
    (d : RuleData) (s : Rules) (name : Text)
    → lookup name (save (opts_of d) s).rows ≡ (
        if name == d.name
        then some (rule_from (id_from s.next_id (lookup d.name s.rows)) (opts_of d))
        else lookup name s.rows)
saved_row d s name = lookup-insert name d.name _ s.rows

still_new :
    (d : RuleData) (s : Rules) (ds : List RuleData)
    → All (λ (e : RuleData). d.name ≢ e.name) ds
    → AreNew s ds
    → AreNew (save (opts_of d) s) ds
still_new d s [] apart new = tt
still_new d s (e ∷ ds) apart new =
    (ground (arith, saved_row d s e.name, apart.0, new.0), still_new d s ds apart.1 new.1)

saved-IsRestored :
    (host : Host) (d : RuleData) (s : Rules) → IsRule host d → IsRestored (save (opts_of d) s) d
saved-IsRestored host d s h =
    let (there, position, same) = some_position d.index h.has_position.0 h.has_position.1 in
    (
      rule_from (id_from s.next_id (lookup d.name s.rows)) (opts_of d),
      ground (arith, saved_row d s d.name),
      refl,
      same,
      h.filter_kept,
      h.value_kept,
    )

IsRestored-same :
    (d : RuleData) (s t : Rules)
    → lookup d.name t.rows ≡ lookup d.name s.rows
    → IsRestored s d
    → IsRestored t d
IsRestored-same d s t same (r, there, n, i, f, g) = (r, same ∙ there, n, i, f, g)

restore_all :
    (host : Host) (c : Conflict) (kind : Kind) (ds : List RuleData) (s : Rules)
    → All (IsRule host) ds
    → HaveApartNames ds
    → AreNew s ds
    → Compiles host s
    → s.paths ≡ []
    → (t : Rules) × (for_each (import_rule host c kind) ds s ≡ (ok tt, t))
      × All (IsRestored t) ds
      × ((name : Text)
          → All (λ (d : RuleData). name ≢ d.name) ds
          → lookup name t.rows ≡ lookup name s.rows)
restore_all host c kind [] s rules apart new good empty = (s, refl, tt, (λ name a. refl))
restore_all host c kind (d ∷ ds) s rules apart new good empty =
    let s1 = save (opts_of d) s in
    let (t, run, restored, others) =
      restore_all host c kind ds s1 rules.1 apart.1 (still_new d s ds apart.0 new.1)
        (upsert-Compiles host d s rules.0 good) empty in
    (
      t,
      rw (import_new host c kind d s rules.0 good new.0 empty) run,
      (
        IsRestored-same d s1 t (others d.name apart.0) (saved-IsRestored host d s rules.0),
        restored,
      ),
      (λ name a. others name a.1 ∙ ground (arith, saved_row d s name, a.0)),
    )

all_new : (s : Rules) (ds : List RuleData) → s.rows ≡ [] → AreNew s ds
unfolding lookup
all_new s [] e = tt
all_new s (d ∷ ds) e = (ap (lookup d.name) e, all_new s ds e)

none_to_compile : (host : Host) (s : Rules) → s.rows ≡ [] → Compiles host s
none_to_compile host s e = ap (λ rows. all_compiled host (rules_of rows)) e

-- The rules of the two tables, exported and imported into empty ones before there is any file: where each rule has a name of its
-- own, a position, and an expression that compiles, if it has one, the import succeeds, and each rule is
-- there with its position, its expression and its function.
pub import_rules-export_rules :
    (host : Host) (c : Conflict) (s t : AutoPaths)
    → let data_of = export_auto_partition s in
      All (IsRule host) data_of.partitions
      → All (IsRule host) data_of.buckets
      → HaveApartNames data_of.partitions
      → HaveApartNames data_of.buckets
      → t.partition_rules.rows ≡ []
      → t.bucket_rules.rows ≡ []
      → t.partition_rules.paths ≡ []
      → t.bucket_rules.paths ≡ []
      → (u : AutoPaths) × (import_auto_partition host c data_of t ≡ (ok tt, u))
        × All (IsRestored u.partition_rules) data_of.partitions
        × All (IsRestored u.bucket_rules) data_of.buckets
unfolding import_auto_partition
import_rules-export_rules host c s t hp hb np nb ep eb no_files none_there =
    let archive = export_auto_partition s in
    let (p, run_p, there_p, others_p) =
      restore_all host c partition archive.partitions t.partition_rules hp np
        (all_new t.partition_rules archive.partitions ep)
        (none_to_compile host t.partition_rules ep) no_files in
    let (b, run_b, there_b, others_b) =
      restore_all host c bucket archive.buckets t.bucket_rules hb nb
        (all_new t.bucket_rules archive.buckets eb) (none_to_compile host t.bucket_rules eb)
        none_there in
    (record { partition_rules = p; bucket_rules = b }, rw (run_p, run_b) refl, there_p, there_b)
