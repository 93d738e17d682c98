-- ===== src/Validation/Kinds.antt =====
-- src/controllers/validate.js: a value that passes is of its kind.
use caskfs.Base.{ℕ, zero, suc, ◌≡◌, refl, ◌⊎◌, inl, inr, Bool, true, false}
use caskfs.Base.{Option, none, some, List, [], ◌∷◌, All}
use caskfs.Base.{nat_eq, list_eq}
use caskfs.Base.Exec.{Result, ok, err}
use caskfs.Validation.Values.{
  Number, whole, infinity, minus_infinity, pos, negsuc, Item, number, bool, Value, one, many,
}
use caskfs.Validation.Values.{parse_int, value_text}
use caskfs.Validation.Rules.{Code, Kind, string, integer, positive_integer}
use caskfs.Validation.Rules.{positive_integer_or_zero, boolean}
use caskfs.Validation.Rules.{and_ok, checked, each, coerce_with, coerce}
use caskfs.Validation.Rules.{validate_integer, validate_boolean}

-- An item of a kind: a number, which is whole or infinite, one above 0, a Boolean.
abbrev pub IsOf : Kind → Item → Type 0
IsOf string i = Unit
IsOf integer i = (z : Number) × (i ≡ number z)
IsOf positive_integer i = ((n : ℕ) × (i ≡ number (whole (pos (suc n))))) ⊎ (i ≡ number infinity)
IsOf positive_integer_or_zero i = (z : Number) × (i ≡ number z)
IsOf boolean i = (b : Bool) × (i ≡ bool b)

abbrev pub IsOfKind : Kind → Value → Type 0
IsOfKind k (one i) = IsOf k i
IsOfKind k (many is) = All (IsOf k) is

-- What a successful result satisfies.
abbrev pub IfOk : {A E : Type 0} → (A → Type 0) → Result E A → Type 0
IfOk P (ok a) = P a
IfOk P (err e) = Unit

pub IfOk-and_ok :
    {A B : Type 0} (P : A → Type 0) (Q : B → Type 0) (x : Result Code A) (f : A → Result Code B)
    → IfOk P x
    → ((a : A) → P a → IfOk Q (f a))
    → IfOk Q (and_ok x f)
IfOk-and_ok P Q (ok a) f p k = k a p
IfOk-and_ok P Q (err c) f p k = tt

pub each-All :
    (f : Value → Result Code Item) (P : Item → Type 0) (is : List Item)
    → ((v : Value) → IfOk P (f v))
    → IfOk (All P) (each f is)
each-All f P [] h = tt
each-All f P (i ∷ is) h =
    IfOk-and_ok P (All P) (f (one i)) _ (h (one i))
      (λ j p. IfOk-and_ok (All P) (All P) (each f is) _ (each-All f P is h) (λ js ps. (p, ps)))

pub coerce_with-IsOfKind :
    (f : Value → Result Code Item) (k : Kind) (multiple : Bool) (v : Value)
    → ((w : Value) → IfOk (IsOf k) (f w))
    → IfOk (IsOfKind k) (coerce_with f multiple v)
coerce_with-IsOfKind f k true (many is) h =
    IfOk-and_ok (All (IsOf k)) (IsOfKind k) (each f is) _ (each-All f (IsOf k) is h) (λ js ps. ps)
coerce_with-IsOfKind f k true (one i) h =
    IfOk-and_ok (IsOf k) (IsOfKind k) (f (one i)) _ (h (one i)) (λ j p. p)
coerce_with-IsOfKind f k false v h = IfOk-and_ok (IsOf k) (IsOfKind k) (f v) _ (h v) (λ j p. p)

pub positive_item :
    (o : Option Number)
    → IfOk (IsOf positive_integer) (and_ok (checked true false o) (λ z. ok (number z)))
positive_item none = tt
positive_item (some (whole (pos zero))) = tt
positive_item (some (whole (pos (suc n)))) = inl (n, refl)
positive_item (some (whole (negsuc n))) = tt
positive_item (some infinity) = inr refl
positive_item (some minus_infinity) = tt

pub number_item : (x : Result Code Number) → IfOk (IsOf integer) (and_ok x (λ z. ok (number z)))
number_item (ok z) = (z, refl)
number_item (err c) = tt

pub boolean_item : (x : Result Code Bool) → IfOk (IsOf boolean) (and_ok x (λ b. ok (bool b)))
boolean_item (ok b) = (b, refl)
boolean_item (err c) = tt

pub is_any : (v : Value) → IsOfKind string v
is_any (one i) = tt
is_any (many is) = all_any is
  where
    all_any : (is : List Item) → All (IsOf string) is
    all_any [] = tt
    all_any (i ∷ is) = (tt, all_any is)

pub coerce-IsOfKind :
    (k : Kind) (multiple : Bool) (v : Value) → IfOk (IsOfKind k) (coerce k multiple v)
unfolding validate_integer
coerce-IsOfKind string multiple v = is_any v
coerce-IsOfKind integer multiple v =
    coerce_with-IsOfKind _ integer multiple v (λ w. number_item (validate_integer w false false))
coerce-IsOfKind positive_integer multiple v =
    coerce_with-IsOfKind _ positive_integer multiple v
      (λ w. positive_item (parse_int (value_text w)))
coerce-IsOfKind positive_integer_or_zero multiple v =
    coerce_with-IsOfKind _ positive_integer_or_zero multiple v
      (λ w. number_item (validate_integer w false true))
coerce-IsOfKind boolean multiple v =
    coerce_with-IsOfKind _ boolean multiple v (λ w. boolean_item (validate_boolean w))
