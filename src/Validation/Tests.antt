-- ===== src/Validation/Tests.antt =====
-- src/controllers/validate.js: a schema, runs of it, and the theorems at them.
use caskfs.Base.{
  ℕ, zero, suc, ◌≡◌, refl, true, false, none, some, [], ◌∷◌, All, Mem, nat_eq, list_eq, List,
}
use caskfs.Base.Dict.{Dict, lookup}
use caskfs.Base.Text.{Text, codes}
use caskfs.Base.Exec.{ok, err}
use caskfs.Validation.Values.{whole, infinity, pos, negsuc, text, number, bool, Value, one, many}
use caskfs.Validation.Values.{parse_int, to_double, value_text, split_list}
use caskfs.Validation.Rules.{not_in_set, positive_expected, string, positive_integer}
use caskfs.Validation.Rules.{positive_integer_or_zero, Rules, validate, validate_value}
use caskfs.Validation.Rules.{validate_fields, validate_field, validate_integer, validate_boolean}
use caskfs.Validation.Rules.{validate_in_set, arrange}
use caskfs.Validation.Conforming.{Conforms, has_key, validate-Conforms}

abbrev plain : Rules
plain = record { kind = positive_integer; multiple = false; is_required = true; in_set = none }

abbrev schema : Dict Text Rules
schema =
    (codes "limit", plain)
    ∷ (codes "ids", record plain { multiple = true; is_required = false })
    ∷ (
      codes "order",
      record plain { kind = string; is_required = false; in_set = some (codes "asc" ∷ []) },
    )
    ∷ []

abbrev given : Dict Text Value
given =
    (codes "limit", one (text (codes " 12x")))
    ∷ (codes "ids", one (text (codes "3, 4")))
    ∷ (codes "order", one (text (codes "ASC")))
    ∷ []

abbrev out : List (Text × Value)
out =
    (codes "limit", one (number (whole (pos 12))))
    ∷ (codes "ids", many (number (whole (pos 3)) ∷ number (whole (pos 4)) ∷ []))
    ∷ (codes "order", one (text (codes "ASC")))
    ∷ []

validate_run : validate schema given ≡ ok out
unfolding validate validate_fields validate_field validate_value arrange validate_integer
    validate_boolean validate_in_set parse_int to_double value_text split_list lookup nat_eq list_eq
validate_run = refl

validate_errors :
    validate schema
      ((codes "limit", one (text (codes "0"))) ∷ (codes "order", one (bool true)) ∷ [])
    ≡ err ((codes "limit", positive_expected) ∷ (codes "order", not_in_set) ∷ [])
unfolding validate validate_fields validate_field validate_value arrange validate_integer
    validate_boolean validate_in_set parse_int to_double value_text split_list lookup nat_eq list_eq
validate_errors = refl

validate-Conforms_example :
    All (Conforms schema) out
    × ((f : Text × Rules) → Mem f schema → f.1.is_required ≡ true → has_key f.0 out ≡ true)
validate-Conforms_example = validate-Conforms schema given out validate_run

-- "-5" passes as a positive integer or zero.
negative_run :
    validate_value (record plain { kind = positive_integer_or_zero }) (one (text (codes "-5")))
    ≡ ok (one (number (whole (negsuc 4))))
unfolding validate_value arrange validate_integer validate_in_set parse_int to_double value_text
    nat_eq list_eq
negative_run = refl

abbrev nines : ℕ → Text
nines zero = []
nines (suc n) = 57 ∷ nines n

-- 309 digits are infinite, and pass as a positive integer.
infinite_run : parse_int (nines 309) ≡ some infinity
unfolding parse_int to_double nat_eq list_eq
infinite_run = refl

-- 2 ^ 53 + 1 is not a double.
rounded_run : parse_int (codes "9007199254740993") ≡ some (whole (pos 9007199254740992))
unfolding parse_int to_double nat_eq list_eq
rounded_run = refl
