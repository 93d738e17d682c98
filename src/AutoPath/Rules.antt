-- ===== src/AutoPath/Rules.antt =====
-- src/schema/config.sql and src/lib/auto-path/base.js: the rules and the state of an `AutoPath`.
use caskfs.Base.{ℕ, Bool, true, ◌&&◌, Option, none, some, List, [], ◌∷◌, ◌++◌}
use caskfs.Base.Dict.{Dict}
use caskfs.Base.Text.{Text, codes}
use caskfs.Base.Exec.{Exec}

pub data Kind : Type 0 where
  partition bucket : Kind

pub record Rule : Type 0 where
  pub id : ℕ
  pub name : Text
  pub index : Option ℕ
  pub filter_regex : Option Text
  pub get_value : Option Text

-- Whether `new RegExp` takes a text, whether an expression matches a piece of a path, and what the
-- function with a given body returns for a rule's name, a piece, and the expression that the piece was
-- matched with.
pub record Host : Type 0 where
  pub compiles : Text → Bool
  pub matches : Text → Text → Bool
  pub call : Text → Text → Text → Option Text → Text

-- `rows` is the table, `config` the copy that `getConfig` keeps, `paths` those of all files.
pub record Rules : Type 0 where
  pub next_id : ℕ
  pub rows : Dict Text Rule
  pub config : Option (List Rule)
  pub paths : List Text

pub data RuleError : Type 0 where
  name_required rule_required bad_position bad_expression too_long : RuleError
  rule_not_found : Text → RuleError

abbrev pub Auto : Type 0 → Type 0
Auto = Exec RuleError Rules

abbrev pub rules_of : Dict Text Rule → List Rule
rules_of [] = []
rules_of (e ∷ d) = e.1 ∷ rules_of d

abbrev pub or_rows : Option (List Rule) → List Rule → List Rule
or_rows none rows = rows
or_rows (some c) rows = c

-- getValue of the two classes
abbrev pub get_value : Kind → Text → Text → Text
get_value bucket name value = name
get_value partition name value = name ++ codes "-" ++ value

-- A row without an expression has nothing to compile.
abbrev pub is_compiled : Host → Option Text → Bool
is_compiled host none = true
is_compiled host (some []) = true
is_compiled host (some (c ∷ t)) = host.compiles (c ∷ t)

abbrev pub all_compiled : Host → List Rule → Bool
all_compiled host [] = true
all_compiled host (r ∷ rs) = is_compiled host r.filter_regex && all_compiled host rs
