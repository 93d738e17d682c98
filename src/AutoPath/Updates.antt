-- ===== src/AutoPath/Updates.antt =====
-- src/lib/auto-path/base.js: what setting and removing a rule do to the table and to the copy of it.
use caskfs.Base.{◌≡◌, refl, true, false, ◌||◌, arith}
use caskfs.Base.{Option, none, some, is_some, List, [], ◌∷◌, ◌==◌, nat_eq, list_eq}
use caskfs.Base.{if◌then◌else◌, Option-cases, inl, inr}
use caskfs.Base.Dict.{lookup, lookup-insert, lookup-erase}
use caskfs.Base.Text.{Text}
use caskfs.Base.Exec.{Result, ok, err}
use caskfs.AutoPath.Rules.{Kind, Rule, Rules, Host, rules_of, or_rows, all_compiled}
use caskfs.AutoPath.Rules.{RuleError, rule_not_found}
use caskfs.AutoPath.Lookup.{Found, apply_rule, named, add_found}
use caskfs.AutoPath.Lookup.{get_from_path, get_config, each_rule, get_rule_from_path}
use caskfs.AutoPath.Changes.{Opts, set, remove, upsert, current, opts_object}
use caskfs.AutoPath.Changes.{is_equal, rule_from, id_from, is_zero, no_text, truthy_text}
use caskfs.AutoPath.Changes.{truthy_number}

-- What `set` asks of its argument.
pub record IsValid (o : Opts) : Type 0 where
  pub has_name : no_text o.name ≡ false
  pub has_rule : (is_some (truthy_text o.filter_regex) || is_some (truthy_number o.index)) ≡ true
  pub position : is_zero o.index ≡ false

-- What `set` leaves where the expressions compile.
abbrev pub save : Opts → Rules → Rules
save o s = let t = upsert o s in record t { config = some (rules_of t.rows) }

-- With valid arguments, and where the expressions of the table compile, `set` either finds the
-- definition unchanged, answers false and changes nothing, or answers true: then the rule stands in the
-- table under its name, with the id it had, the other rules are as before, and the copy of the table is
-- up to date.
pub set_lem :
    (host : Host) (kind : Kind) (o : Opts) (s : Rules)
    → IsValid o
    → all_compiled host (rules_of (upsert o s).rows) ≡ true
    → (set host kind o s ≡ (
        if is_equal (current kind (lookup o.name s.rows)) (opts_object o)
        then (ok false, s)
        else (ok true, save o s)))
      × ((name : Text)
          → lookup name (save o s).rows ≡ (
              if name == o.name
              then some (rule_from (id_from s.next_id (lookup o.name s.rows)) o)
              else lookup name s.rows))
      × ((save o s).config ≡ some (rules_of (save o s).rows))
unfolding set get_config
set_lem host kind o s v good = (
  ground (arith, v.has_name, v.has_rule, v.position, good),
  λ name. lookup-insert name o.name _ s.rows,
  refl,
)

module _ (host : Host) (kind : Kind) (path : Text) where
  abbrev answer : Text → Option Rule → Result RuleError (Option Found)
  answer name none = err (rule_not_found name)
  answer name (some r) = ok (apply_rule host kind r path)

  abbrev joined :
      Result RuleError (Option Found)
      → Result RuleError (List Found)
      → Result RuleError (List Found)
  joined (err e) fs = err e
  joined (ok f) (err e) = err e
  joined (ok f) (ok fs) = ok (add_found f fs)

  abbrev answers : Option (List Rule) → List Rule → Result RuleError (List Found)
  answers config [] = ok []
  answers config (r ∷ rs) =
      joined (answer r.name (named r.name (or_rows config []))) (answers config rs)

  rule_run :
      (name : Text) (s : Rules)
      → get_rule_from_path host kind path name s
        ≡ (answer name (named name (or_rows s.config [])), s)
  unfolding get_rule_from_path
  rule_run name s = elim (Option-cases (named name (or_rows s.config []))) [
    | inl missing ↦ ground (arith, missing)
    | inr (r, there) ↦ ground (arith, there)
  ]

  each_run : (rs : List Rule) (s : Rules) → each_rule host kind path rs s ≡ (answers s.config rs, s)
  each_run [] s = refl
  each_run (r ∷ rs) s = ground (arith, rule_run r.name s, each_run rs s)

  -- Once the rules have been read, removing one succeeds, and every path still gets the values that it
  -- got before: the copy of the table is not read again.
  pub get_from_path-remove :
      (name : Text) (rules : List Rule) (s : Rules)
      → no_text name ≡ false
      → s.config ≡ some rules
      → ((remove name s).0 ≡ ok tt)
        × (lookup name (remove name s).1.rows ≡ none)
        × ((get_from_path host kind path (remove name s).1).0 ≡ (get_from_path host kind path s).0)
  unfolding remove get_from_path get_config
  get_from_path-remove name rules s h loaded = (
    ground (arith, h),
    ground (arith, h, lookup-erase name name s.rows),
    ground (
      arith,
      h,
      loaded,
      each_run rules (record (remove name s).1 { config = some rules }),
      each_run rules (record s { config = some rules }),
    ),
  )
