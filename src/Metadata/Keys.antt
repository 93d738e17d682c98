-- ===== src/Metadata/Keys.antt =====
-- src/index.js: `_setPartitionKeys`, and add_partition_key of src/schema/layer2-fs.sql.
use caskfs.Base.{
  ℕ, ◌≡◌, refl, ap, ◌∙◌, ◌==◌, nat_eq, list_eq, option_eq, Bool, true, not, ◌||◌, arith,
}
use caskfs.Base.{
  Option, none, some, is_some, List, [], ◌∷◌, ◌++◌, map, keep, length, leb, contains, All, ◌≤◌,
}
use caskfs.Base.{if◌then◌else◌, Option-cases, inl, inr}
use caskfs.Base.Dict.{Dict, lookup, insert}
use caskfs.Base.Text.{Text}
use caskfs.AutoPath.{Found}
use caskfs.Metadata.Defs.{or_none}

-- auto_path_partition by the name of a rule, and partition_key by its value, with the rule it is of.
-- A key goes with its rule.
pub record KeyTables : Type 0 where
  pub rules : Dict Text ℕ
  pub keys : Dict Text (Option ℕ)

-- A value, and the name of the rule that gave it, if one did.
abbrev pub NewKey : Type 0
NewKey = Text × Option Text

-- `none` is the exception: the rule is not there.
abbrev pub named_rule : Option ℕ → Option (Option ℕ)
named_rule none = none
named_rule (some id) = some (some id)

-- v_auto_path_partition_id
abbrev pub rule_for : KeyTables → Option (Option ℕ) → Option Text → Option (Option ℕ)
rule_for t (some (some id)) name = some (some id)
rule_for t (some none) none = some none
rule_for t (some none) (some n) = named_rule (lookup n t.rules)
rule_for t none none = some none
rule_for t none (some n) = named_rule (lookup n t.rules)

-- The update of a key of another rule sets the rule that it has. A value has at most 256 characters.
abbrev pub put_key : Text → Option ℕ → Option (Option ℕ) → KeyTables → Option KeyTables
put_key value rule (some old) t = some t
put_key value rule none t =
    if leb (length value) 256 then some (record t { keys = insert value rule t.keys }) else none

-- The other keys of the file that are of the rule go.
abbrev pub drop_old : Text → Option ℕ → KeyTables → List Text → List Text
drop_old value none t own = own
drop_old value (some id) t own =
    keep (λ k. k == value || not (lookup k t.keys == some (some id))) own

abbrev pub add_own : Text → List Text → List Text
add_own value own = if contains own value then own else own ++ value ∷ []

abbrev pub attach : Text → Option ℕ → List Text → Option KeyTables → Option (KeyTables × List Text)
attach value rule own none = none
attach value rule own (some t) = some (t, add_own value (drop_old value rule t own))

abbrev pub add_with :
    Text → Option (Option ℕ) → KeyTables → List Text → Option (KeyTables × List Text)
add_with value none t own = none
add_with value (some rule) t own =
    attach value rule own (put_key value rule (lookup value t.keys) t)

-- On the tables and the keys of the file
unfoldable pub add_partition_key : NewKey → KeyTables → List Text → Option (KeyTables × List Text)
add_partition_key k t own = add_with k.0 (rule_for t (lookup k.0 t.keys) k.1) t own

abbrev pub and_add :
    (KeyTables → List Text → Option (KeyTables × List Text))
    → Option (KeyTables × List Text)
    → Option (KeyTables × List Text)
and_add f none = none
and_add f (some x) = f x.0 x.1

unfoldable pub add_partition_keys :
    List NewKey → KeyTables → List Text → Option (KeyTables × List Text)
add_partition_keys [] t own = some (t, own)
add_partition_keys (k ∷ ks) t own = and_add (add_partition_keys ks) (add_partition_key k t own)

abbrev pub new_keys : List Found → Option (List Text) → List NewKey
new_keys auto manual =
    map (λ v. (v, none)) (or_none manual) ++ map (λ (f : Found). (f.value, some f.name)) auto

-- _setPartitionKeys: the keys of the file are cleared first.
unfoldable pub set_partition_keys :
    List Found → Option (List Text) → KeyTables → Option (KeyTables × List Text)
unfolding add_partition_keys
set_partition_keys auto manual t = add_partition_keys (new_keys auto manual) t []

abbrev pub has_rule : KeyTables → Option Text → Bool
has_rule t none = true
has_rule t (some n) = is_some (lookup n t.rules)

-- The value has room in its column, and the rule is there.
abbrev pub Fits : KeyTables → NewKey → Type 0
Fits t k = (length k.0 ≤ 256) × (has_rule t k.1 ≡ true)

abbrev Added : KeyTables → Option (KeyTables × List Text) → Type 0
Added t x = (y : KeyTables × List Text) × (x ≡ some y) × (y.0.rules ≡ t.rules)

add_with-some :
    (v : Text) (rule : Option ℕ) (t : KeyTables) (own : List Text)
    → length v ≤ 256
    → Added t (add_with v (some rule) t own)
add_with-some v rule t own short = elim (Option-cases (lookup v t.keys)) [
  | inl new ↦
      let t' : KeyTables = record t { keys = insert v rule t.keys } in
      ((t', add_own v (drop_old v rule t' own)), ground (arith, new, short), refl)
  | inr (old, there) ↦ ((t, add_own v (drop_old v rule t own)), ground (arith, there), refl)
]

rule_for-some :
    (t : KeyTables) (row : Option (Option ℕ)) (name : Option Text)
    → has_rule t name ≡ true
    → (rule : Option ℕ) × (rule_for t row name ≡ some rule)
rule_for-some t (some (some id)) name h = (some id, refl)
rule_for-some t (some none) none h = (none, refl)
rule_for-some t none none h = (none, refl)
rule_for-some t (some none) (some n) h = elim (Option-cases (lookup n t.rules)) [
  | inl missing ↦ absurd (ground (arith, missing, h))
  | inr (id, there) ↦ (some id, ap named_rule there)
]
rule_for-some t none (some n) h = elim (Option-cases (lookup n t.rules)) [
  | inl missing ↦ absurd (ground (arith, missing, h))
  | inr (id, there) ↦ (some id, ap named_rule there)
]

add_partition_key-some :
    (k : NewKey) (t : KeyTables) (own : List Text) → Fits t k → Added t (add_partition_key k t own)
unfolding add_partition_key
add_partition_key-some k t own fits =
    let (rule, found) = rule_for-some t (lookup k.0 t.keys) k.1 fits.1 in
    let (y, e, kept) = add_with-some k.0 rule t own fits.0 in
    (y, ap (λ x. add_with k.0 x t own) found ∙ e, kept)

Fits-still :
    (t u : KeyTables) (ks : List NewKey) → u.rules ≡ t.rules → All (Fits t) ks → All (Fits u) ks
Fits-still t u [] e a = tt
Fits-still t u ((v, none) ∷ ks) e a = (a.0, Fits-still t u ks e a.1)
Fits-still t u ((v, some n) ∷ ks) e a =
    ((a.0.0, ap (λ r. is_some (lookup n r)) e ∙ a.0.1), Fits-still t u ks e a.1)

-- Keys that fit are added without an exception.
add_partition_keys-some :
    (ks : List NewKey) (t : KeyTables) (own : List Text)
    → All (Fits t) ks
    → (y : KeyTables × List Text) × (add_partition_keys ks t own ≡ some y)
unfolding add_partition_keys
add_partition_keys-some [] t own a = ((t, own), refl)
add_partition_keys-some (k ∷ ks) t own a =
    let (x, made, kept) = add_partition_key-some k t own a.0 in
    let (y, rest) = add_partition_keys-some ks x.0 x.1 (Fits-still t x.0 ks kept a.1) in
    (y, ap (and_add (add_partition_keys ks)) made ∙ rest)

-- So that the keys of a file are set.
pub set_partition_keys-some :
    (auto : List Found) (manual : Option (List Text)) (t : KeyTables)
    → All (Fits t) (new_keys auto manual)
    → (y : KeyTables × List Text) × (set_partition_keys auto manual t ≡ some y)
unfolding set_partition_keys
set_partition_keys-some auto manual t a = add_partition_keys-some (new_keys auto manual) t [] a
