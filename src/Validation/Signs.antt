-- ===== src/Validation/Signs.antt =====
-- src/controllers/validate.js: the kind positiveIntegerOrZero.
use caskfs.Base.{zero, suc, ◌≡◌, refl, ap, Bool, true, false}
use caskfs.Base.{Option, none, some, List, [], ◌∷◌}
use caskfs.Base.{nat_eq, list_eq}
use caskfs.Base.Exec.{Result, ok}
use caskfs.Validation.Values.{
  Number, whole, infinity, minus_infinity, pos, negsuc, Item, number, Value, one, many,
}
use caskfs.Validation.Values.{parse_int, value_text}
use caskfs.Validation.Rules.{Code, integer}
use caskfs.Validation.Rules.{positive_integer_or_zero, Rules}
use caskfs.Validation.Rules.{and_ok, checked, each, coerce_with, as_number}
use caskfs.Validation.Rules.{check_set, arrange}
use caskfs.Validation.Rules.{validate_integer, validate_value}

or_zero_same : (o : Option Number) → checked false true o ≡ checked false false o
or_zero_same none = refl
or_zero_same (some (whole (pos zero))) = refl
or_zero_same (some (whole (pos (suc n)))) = refl
or_zero_same (some (whole (negsuc n))) = refl
or_zero_same (some infinity) = refl
or_zero_same (some minus_infinity) = refl

number_same : (v : Value) → as_number false true v ≡ as_number false false v
unfolding validate_integer
number_same v = ap (λ x. and_ok x (λ z. ok (number z))) (or_zero_same (parse_int (value_text v)))

each_same :
    (f g : Value → Result Code Item) (is : List Item)
    → ((v : Value) → f v ≡ g v)
    → each f is ≡ each g is
each_same f g [] h = refl
each_same f g (i ∷ is) h = rw (h (one i), each_same f g is h) refl

coerce_same :
    (f g : Value → Result Code Item) (multiple : Bool) (v : Value)
    → ((w : Value) → f w ≡ g w)
    → coerce_with f multiple v ≡ coerce_with g multiple v
coerce_same f g true (many is) h = rw (each_same f g is h) refl
coerce_same f g true (one i) h = rw (h (one i)) refl
coerce_same f g false v h = rw (h v) refl

-- A value of the kind positiveIntegerOrZero is checked as one of the kind integer: it passes exactly
-- then, with the same number, so that negative numbers pass.
pub validate_value-or_zero :
    (rules : Rules) (v : Value)
    → validate_value (record rules { kind = positive_integer_or_zero }) v
      ≡ validate_value (record rules { kind = integer }) v
unfolding validate_value
validate_value-or_zero rules v =
    ap (λ x. and_ok x (λ w. and_ok (check_set rules.multiple w rules.in_set) (λ u. ok w)))
      (coerce_same (as_number false true) (as_number false false) rules.multiple
        (arrange rules.multiple v) number_same)
