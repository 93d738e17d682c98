-- ===== src/AutoPath/Changes.antt =====
-- src/lib/auto-path/base.js: `set`, `exists`, `remove`, and the comparison of two definitions; the `set`
-- of src/lib/auto-path/partition.js.
use caskfs.Base.{ℕ, zero, suc, ◌==◌, nat_eq, list_eq, Bool, true, false, not, ◌&&◌}
use caskfs.Base.{Option, none, some, is_some, List, [], ◌∷◌, length, leb, ltb, if◌then◌else◌}
use caskfs.Base.Dict.{Dict, lookup, insert, erase}
use caskfs.Base.Text.{Text, codes}
use caskfs.Base.Exec.{ok, err, pure, throw, ◌>>=◌, ◌>>◌}
use caskfs.AutoPath.Lookup.{Found, get_config, get_rule_from_path}
use caskfs.AutoPath.Rules.{Host, Kind, partition, bucket, Rule, Rules, Auto}
use caskfs.AutoPath.Rules.{name_required, rule_required, bad_position, too_long}

-- The argument of `set`. `others` are the further properties of the object, such as a connection or
-- a callback.
pub record Opts : Type 0 where
  pub name : Text
  pub index : Option ℕ
  pub filter_regex : Option Text
  pub get_value : Option Text
  pub others : Dict Text ℕ

-- A value of a property: `numeral n` is the text that n is written as, `thing` any object.
pub data Value : Type 0 where
  text : Text → Value
  number numeral thing : ℕ → Value

abbrev pub Object : Type 0
Object = Dict Text (Option Value)

abbrev pub as_text : Option Text → Option Value
as_text none = none
as_text (some t) = some (text t)

abbrev pub as_number : Option ℕ → Option Value
as_number none = none
as_number (some n) = some (number n)

abbrev pub id_key : Kind → Text
id_key partition = codes "auto_path_partition_id"
id_key bucket = codes "auto_path_bucket_id"

abbrev pub row_object : Kind → Rule → Object
row_object kind r =
    (id_key kind, some (thing r.id))
    ∷ (codes "name", some (text r.name))
    ∷ (codes "index", as_number r.index)
    ∷ (codes "filter_regex", as_text r.filter_regex)
    ∷ (codes "get_value", as_text r.get_value)
    ∷ []

abbrev pub things : Dict Text ℕ → Object
things [] = []
things (e ∷ d) = (e.0, some (thing e.1)) ∷ things d

abbrev pub opts_object : Opts → Object
opts_object o =
    (codes "name", some (text o.name))
    ∷ (codes "index", as_number o.index)
    ∷ (codes "filterRegex", as_text o.filter_regex)
    ∷ (codes "getValue", as_text o.get_value)
    ∷ things o.others

abbrev pub as_string : Value → Value
as_string (number n) = numeral n
as_string (text t) = text t
as_string (numeral n) = numeral n
as_string (thing n) = thing n

abbrev pub new_key : Text → Text
new_key key = if key == codes "filter_regex" then codes "filterRegex" else key

abbrev pub clean_value : Text → Option Value → Dict Text Value → Dict Text Value
clean_value key none rest = rest
clean_value key (some v) rest = (new_key key, as_string v) ∷ rest

-- _cleanForCompare
unfoldable pub clean : Object → Dict Text Value
clean [] = []
clean (e ∷ o) =
    let rest = clean o in if e.0 == id_key partition then rest else clean_value e.0 e.1 rest

abbrev pub same_value : Value → Value → Bool
same_value (text a) (text b) = a == b
same_value (number a) (number b) = a == b
same_value (numeral a) (numeral b) = a == b
same_value (thing a) (thing b) = a == b
same_value (text a) (number b) = false
same_value (text a) (numeral b) = false
same_value (text a) (thing b) = false
same_value (number a) (text b) = false
same_value (number a) (numeral b) = false
same_value (number a) (thing b) = false
same_value (numeral a) (text b) = false
same_value (numeral a) (number b) = false
same_value (numeral a) (thing b) = false
same_value (thing a) (text b) = false
same_value (thing a) (number b) = false
same_value (thing a) (numeral b) = false

abbrev pub same_there : Value → Option Value → Bool
same_there v none = false
same_there v (some w) = same_value v w

abbrev pub all_in : Dict Text Value → Dict Text Value → Bool
all_in [] d = true
all_in (e ∷ es) d = same_there e.1 (lookup e.0 d) && all_in es d

-- _isEqual
unfoldable pub is_equal : Object → Object → Bool
unfolding clean
is_equal a b = length (clean a) == length (clean b) && all_in (clean a) (clean b)

abbrev pub current : Kind → Option Rule → Object
current kind none = []
current kind (some r) = row_object kind r

-- A text that is not empty, a number that is not 0.
abbrev pub truthy_text : Option Text → Option Text
truthy_text none = none
truthy_text (some []) = none
truthy_text (some (c ∷ t)) = some (c ∷ t)

abbrev pub truthy_number : Option ℕ → Option ℕ
truthy_number none = none
truthy_number (some zero) = none
truthy_number (some (suc n)) = some (suc n)

abbrev pub id_from : ℕ → Option Rule → ℕ
id_from next none = next
id_from next (some r) = r.id

abbrev pub rule_from : ℕ → Opts → Rule
rule_from id o = record {
  id = id;
  name = o.name;
  index = truthy_number o.index;
  filter_regex = truthy_text o.filter_regex;
  get_value = truthy_text o.get_value;
}

-- ON CONFLICT (name) DO UPDATE
abbrev pub upsert : Opts → Rules → Rules
upsert o s = record s {
  next_id = suc s.next_id;
  rows = insert o.name (rule_from (id_from s.next_id (lookup o.name s.rows)) o) s.rows;
}

abbrev pub is_zero : Option ℕ → Bool
is_zero none = false
is_zero (some n) = ltb n 1

abbrev pub no_text : Text → Bool
no_text [] = true
no_text (c ∷ t) = false

-- The row is stored, also where an expression of the table is then refused.
abbrev pub change : Host → Opts → Bool → Auto Bool
change host o true = pure false
change host o false = λ s. (get_config host true >> pure true) (upsert o s)

unfoldable pub set : Host → Kind → Opts → Auto Bool
unfolding is_equal get_config
set host kind o s =
    if no_text o.name
    then (err name_required, s)
    else if not (is_some (truthy_text o.filter_regex)) && not (is_some (truthy_number o.index))
    then (err rule_required, s)
    else if is_zero o.index
    then (err bad_position, s)
    else change host o (is_equal (current kind (lookup o.name s.rows)) (opts_object o)) s

-- The rule is in the table, so that add_partition_key refuses a value only if it is too long.
abbrev pub add_value : Option Found → Auto Unit
add_value none = pure tt
add_value (some f) = if leb (length f.value) 256 then pure tt else throw too_long

unfoldable pub pass_over : Host → Text → List Text → Auto Unit
unfolding get_rule_from_path
pass_over host name [] = pure tt
pass_over host name (p ∷ ps) =
    (get_rule_from_path host partition p name >>= add_value) >> pass_over host name ps

abbrev pub after_set : Host → Kind → Text → Bool → Auto Unit
after_set host bucket name updated = pure tt
after_set host partition name false = pure tt
after_set host partition name true = λ s. pass_over host name s.paths s

-- `set` of the two classes: a partition rule that was written is applied to every file.
unfoldable pub set_all : Host → Kind → Opts → Auto Unit
unfolding set pass_over
set_all host kind o = set host kind o >>= after_set host kind o.name

unfoldable pub exists : Text → Auto Bool
exists name s =
    if no_text name then (err name_required, s) else (ok (is_some (lookup name s.rows)), s)

-- The copy in `config` stays as it is.
unfoldable pub remove : Text → Auto Unit
remove name s =
    if no_text name then (err name_required, s) else (ok tt, record s { rows = erase name s.rows })
