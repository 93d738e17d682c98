-- ===== src/AutoPath/Lookup.antt =====
-- src/lib/auto-path/base.js: `getConfig`, `getFromPath`, `getRuleFromPath`.
use caskfs.Base.{ℕ, zero, suc, ◌==◌, nat_eq, list_eq, leb, Bool, true, false, Option, none, some}
use caskfs.Base.{List, [], ◌∷◌, keep, find, length, if◌then◌else◌}
use caskfs.Base.Text.{Text}
use caskfs.Base.Exec.{ok, err, ◌>>=◌, pure, or_throw}
use caskfs.Paths.{dir_parts}
use caskfs.AutoPath.Rules.{
  Kind, Rule, Host, rule_not_found, Auto, rules_of, or_rows, all_compiled, bad_expression,
}
use caskfs.AutoPath.Rules.{get_value}

pub record Found : Type 0 where
  pub name : Text
  pub value : Text

-- The table is read, and its expressions are compiled.
abbrev pub read_rules : Host → Auto (List Rule)
read_rules host s =
    let rules = rules_of s.rows in
    if all_compiled host rules
    then (ok rules, record s { config = some rules })
    else (err bad_expression, s)

abbrev pub from_config : Host → Option (List Rule) → Auto (List Rule)
from_config host none = read_rules host
from_config host (some rules) = pure rules

unfoldable pub get_config : Host → Bool → Auto (List Rule)
get_config host force s = if force then read_rules host s else from_config host s.config s

abbrev pub nth : ℕ → List Text → List Text
nth i [] = []
nth zero (p ∷ ps) = p ∷ []
nth (suc i) (p ∷ ps) = nth i ps

-- rule.index && dirParts.length >= rule.index
abbrev pub at_index : Option ℕ → List Text → List Text
at_index none ps = ps
at_index (some zero) ps = ps
at_index (some (suc i)) ps = if leb (suc i) (length ps) then nth i ps else ps

abbrev pub passes : Host → Option Text → Text → Bool
passes host none p = true
passes host (some regex) p = host.matches regex p

abbrev pub first : List Text → Option Text
first [] = none
first (p ∷ ps) = some p

-- The piece of the path that a rule takes.
unfoldable pub pick_part : Host → Rule → List Text → Option Text
pick_part host rule ps = first (keep (passes host rule.filter_regex) (at_index rule.index ps))

abbrev pub value_of : Host → Kind → Rule → Option Text → Text → Text
value_of host kind rule none p = get_value kind rule.name p
value_of host kind rule (some body) p = host.call body rule.name p rule.filter_regex

abbrev pub found : Host → Kind → Rule → Option Text → Option Found
found host kind rule none = none
found host kind rule (some p) =
    some (record { name = rule.name; value = value_of host kind rule rule.get_value p })

unfoldable pub apply_rule : Host → Kind → Rule → Text → Option Found
unfolding pick_part dir_parts
apply_rule host kind rule path = found host kind rule (pick_part host rule (dir_parts path))

abbrev pub named : Text → List Rule → Option Rule
named name = find (λ (r : Rule). r.name == name)

unfoldable pub get_rule_from_path : Host → Kind → Text → Text → Auto (Option Found)
unfolding apply_rule
get_rule_from_path host kind path name s =
    (do
      rule ← or_throw (named name (or_rows s.config [])) (rule_not_found name)
      pure (apply_rule host kind rule path))
      s

abbrev pub add_found : Option Found → List Found → List Found
add_found none fs = fs
add_found (some f) fs = f ∷ fs

abbrev pub each_rule : Host → Kind → Text → List Rule → Auto (List Found)
each_rule host kind path [] = pure []
each_rule host kind path (r ∷ rs) = do
  f ← get_rule_from_path host kind path r.name
  fs ← each_rule host kind path rs
  pure (add_found f fs)

unfoldable pub get_from_path : Host → Kind → Text → Auto (List Found)
unfolding get_config get_rule_from_path
get_from_path host kind path = do rules ← get_config host false; each_rule host kind path rules
