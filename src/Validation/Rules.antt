-- ===== src/Validation/Rules.antt =====
-- src/controllers/validate.js: the class `Validator`.
use caskfs.Base.{zero, suc, ◌==◌, nat_eq, list_eq, Bool, true, false, ◌||◌, ◌&&◌, not}
use caskfs.Base.{Option, none, some, List, [], ◌∷◌, map, contains, if◌then◌else◌}
use caskfs.Base.Dict.{Dict, lookup}
use caskfs.Base.Text.{Text, codes}
use caskfs.Base.Exec.{Result, ok, err}
use caskfs.Validation.Values.{
  Number, whole, infinity, minus_infinity, pos, negsuc, Item, text, number, bool, Value, one, many,
}
use caskfs.Validation.Values.{parse_int, value_text, lower, split_list, split_commas}

pub data Code : Type 0 where
  required integer_expected positive_expected boolean_expected not_in_set : Code

pub data Kind : Type 0 where
  string integer positive_integer positive_integer_or_zero boolean : Kind

pub record Rules : Type 0 where
  pub kind : Kind
  pub multiple : Bool
  pub is_required : Bool
  pub in_set : Option (List Text)

abbrev pub is_positive : Number → Bool
is_positive (whole (pos zero)) = false
is_positive (whole (pos (suc n))) = true
is_positive (whole (negsuc n)) = false
is_positive infinity = true
is_positive minus_infinity = false

abbrev pub is_zero : Number → Bool
is_zero (whole (pos zero)) = true
is_zero (whole (pos (suc n))) = false
is_zero (whole (negsuc n)) = false
is_zero infinity = false
is_zero minus_infinity = false

abbrev pub and_ok : {A B : Type 0} → Result Code A → (A → Result Code B) → Result Code B
and_ok (ok a) f = f a
and_ok (err c) f = err c

abbrev pub checked : Bool → Bool → Option Number → Result Code Number
checked positive allow_zero none = err integer_expected
checked positive allow_zero (some iv) =
    if allow_zero && is_zero iv
    then ok iv
    else if positive && not (is_positive iv)
    then err positive_expected
    else ok iv

-- validateInteger
unfoldable pub validate_integer : Value → Bool → Bool → Result Code Number
unfolding parse_int value_text
validate_integer v positive allow_zero = checked positive allow_zero (parse_int (value_text v))

abbrev pub boolean_text : Text → Result Code Bool
boolean_text t =
    if t == codes "true" || t == codes "1"
    then ok true
    else if t == codes "false" || t == codes "0"
    then ok false
    else err boolean_expected

-- validateBoolean
unfoldable pub validate_boolean : Value → Result Code Bool
validate_boolean (one (bool b)) = ok b
validate_boolean (one (number (whole (pos zero)))) = ok false
validate_boolean (one (number (whole (pos (suc zero))))) = ok true
validate_boolean (one (number (whole (pos (suc (suc n)))))) = err boolean_expected
validate_boolean (one (number (whole (negsuc n)))) = err boolean_expected
validate_boolean (one (number infinity)) = err boolean_expected
validate_boolean (one (number minus_infinity)) = err boolean_expected
validate_boolean (one (text t)) = boolean_text t
validate_boolean (many is) = err boolean_expected

-- validateInSet
unfoldable pub validate_in_set : Value → List Text → Result Code Unit
unfolding value_text
validate_in_set v allowed =
    if contains (map lower allowed) (lower (value_text v)) then ok tt else err not_in_set

-- A text is split where several values are allowed, and a single value is put in an array.
unfoldable pub arrange : Bool → Value → Value
unfolding split_list
arrange false v = v
arrange true (one (text t)) = many (split_list (split_commas t))
arrange true (one (number z)) = many (number z ∷ [])
arrange true (one (bool b)) = many (bool b ∷ [])
arrange true (many is) = many is

abbrev pub each : (Value → Result Code Item) → List Item → Result Code (List Item)
each f [] = ok []
each f (i ∷ is) = and_ok (f (one i)) (λ j. and_ok (each f is) (λ js. ok (j ∷ js)))

-- A check of every item where several values are allowed; the value is then an array.
abbrev pub coerce_with : (Value → Result Code Item) → Bool → Value → Result Code Value
coerce_with f true (many is) = and_ok (each f is) (λ js. ok (many js))
coerce_with f true (one i) = and_ok (f (one i)) (λ j. ok (one j))
coerce_with f false v = and_ok (f v) (λ j. ok (one j))

abbrev pub as_number : Bool → Bool → Value → Result Code Item
as_number positive allow_zero v =
    and_ok (validate_integer v positive allow_zero) (λ z. ok (number z))

abbrev pub as_boolean : Value → Result Code Item
as_boolean v = and_ok (validate_boolean v) (λ b. ok (bool b))

abbrev pub coerce : Kind → Bool → Value → Result Code Value
coerce string multiple v = ok v
coerce integer multiple v = coerce_with (as_number false false) multiple v
coerce positive_integer multiple v = coerce_with (as_number true false) multiple v
coerce positive_integer_or_zero multiple v = coerce_with (as_number false true) multiple v
coerce boolean multiple v = coerce_with as_boolean multiple v

abbrev pub each_in_set : List Item → List Text → Result Code Unit
each_in_set [] allowed = ok tt
each_in_set (i ∷ is) allowed =
    and_ok (validate_in_set (one i) allowed) (λ u. each_in_set is allowed)

abbrev pub check_set : Bool → Value → Option (List Text) → Result Code Unit
check_set multiple v none = ok tt
check_set true (many is) (some allowed) = each_in_set is allowed
check_set true (one i) (some allowed) = validate_in_set (one i) allowed
check_set false v (some allowed) = validate_in_set v allowed

unfoldable pub validate_value : Rules → Value → Result Code Value
unfolding arrange validate_integer validate_boolean validate_in_set
validate_value rules v =
    and_ok (coerce rules.kind rules.multiple (arrange rules.multiple v))
      (λ w. and_ok (check_set rules.multiple w rules.in_set) (λ u. ok w))

-- A value that is undefined or null is passed over, unless the field is required.
unfoldable pub validate_field : Rules → Option Value → Result Code (Option Value)
unfolding validate_value
validate_field rules none = if rules.is_required then err required else ok none
validate_field rules (some v) = and_ok (validate_value rules v) (λ w. ok (some w))

abbrev pub Outcome : Type 0
Outcome = List (Text × Value) × List (Text × Code)

abbrev pub add_result : Text → Result Code (Option Value) → Outcome → Outcome
add_result key (ok none) rest = rest
add_result key (ok (some v)) rest = ((key, v) ∷ rest.0, rest.1)
add_result key (err c) rest = (rest.0, (key, c) ∷ rest.1)

unfoldable pub validate_fields : Dict Text Rules → Dict Text Value → Outcome
unfolding validate_field
validate_fields [] given = ([], [])
validate_fields (e ∷ schema) given =
    add_result e.0 (validate_field e.1 (lookup e.0 given)) (validate_fields schema given)

abbrev pub conclude : Outcome → Result (List (Text × Code)) (List (Text × Value))
conclude (out, []) = ok out
conclude (out, e ∷ errors) = err (e ∷ errors)

-- validate: the fields that are given, or the errors of all fields.
unfoldable pub validate :
    Dict Text Rules → Dict Text Value → Result (List (Text × Code)) (List (Text × Value))
unfolding validate_fields
validate schema given = conclude (validate_fields schema given)
