-- ===== src/Validation/Values.antt =====
-- src/controllers/validate.js: values of a request, and what JavaScript's parseInt, String, split, trim
-- and toLowerCase make of them, on ASCII.
use caskfs.Base.{ℕ, zero, suc, ◌+◌, ◌-◌, ◌==◌, nat_eq, leb, ltb, Bool, true, false, ◌&&◌, ◌||◌}
use caskfs.Base.{Option, none, some, List, [], ◌∷◌, ◌++◌, if◌then◌else◌}
use caskfs.Base.Text.{Text, codes}
use Prim.Native.Nat.{◌*◌, ◌/◌, ◌%◌, ◌^◌}

-- `negsuc n` is -(n + 1).
pub data ℤ : Type 0 where
  pos : ℕ → ℤ
  negsuc : ℕ → ℤ

-- The numbers that parseInt answers, but for NaN.
pub data Number : Type 0 where
  whole : ℤ → Number
  infinity minus_infinity : Number

pub data Item : Type 0 where
  text : Text → Item
  number : Number → Item
  bool : Bool → Item

-- A value, or an array of values.
pub data Value : Type 0 where
  one : Item → Value
  many : List Item → Value

abbrev pub is_space : ℕ → Bool
is_space c = c == 32 || (leb 9 c && leb c 13)

abbrev pub trim_start : Text → Text
trim_start [] = []
trim_start (c ∷ t) = let rest = trim_start t in if is_space c then rest else c ∷ t

abbrev pub end_cons : ℕ → Text → Text
end_cons c [] = if is_space c then [] else c ∷ []
end_cons c (d ∷ t) = c ∷ d ∷ t

abbrev pub trim_end : Text → Text
trim_end [] = []
trim_end (c ∷ t) = end_cons c (trim_end t)

abbrev pub trim : Text → Text
trim t = trim_end (trim_start t)

abbrev pub is_digit : ℕ → Bool
is_digit c = leb 48 c && leb c 57

-- The number at the front of a text, after some digits.
abbrev pub digits_from : ℕ → Text → ℕ
digits_from n [] = n
digits_from n (c ∷ t) =
    let rest = digits_from (n * 10 + (c - 48)) t in if is_digit c then rest else n

abbrev pub unsigned : Text → Option ℕ
unsigned [] = none
unsigned (c ∷ t) = if is_digit c then some (digits_from 0 (c ∷ t)) else none

-- How often a number is halved until it has 53 bits at most; below 2 ^ 1024 it is 971 times at most.
abbrev pub halvings : ℕ → ℕ → ℕ
halvings zero n = 0
halvings (suc fuel) n =
    let rest = halvings fuel (n / 2) in if leb 9007199254740992 n then suc rest else 0

-- To the nearest multiple, and to the even one of two.
abbrev pub round_to : ℕ → ℕ → ℕ
round_to p n =
    let up = ltb p (2 * (n % p)) || (2 * (n % p) == p && n / p % 2 == 1) in
    (if up then n / p + 1 else n / p) * p

-- The double next to a number; none is Infinity.
unfoldable pub to_double : ℕ → Option ℕ
to_double n = if leb (2 ^ 1024 - 2 ^ 970) n then none else some (round_to (2 ^ halvings 971 n) n)

abbrev pub positive : Option ℕ → Number
positive none = infinity
positive (some n) = whole (pos n)

abbrev pub negative : Option ℕ → Number
negative none = minus_infinity
negative (some zero) = whole (pos 0)
negative (some (suc n)) = whole (negsuc n)

abbrev pub as_pos : Option ℕ → Option Number
as_pos none = none
as_pos (some n) = some (positive (to_double n))

abbrev pub as_neg : Option ℕ → Option Number
as_neg none = none
as_neg (some n) = some (negative (to_double n))

abbrev pub signed : Text → Option Number
signed [] = none
signed (c ∷ t) =
    if c == 45
    then as_neg (unsigned t)
    else if c == 43
    then as_pos (unsigned t)
    else as_pos (unsigned (c ∷ t))

-- parseInt(t, 10); none is NaN
unfoldable pub parse_int : Text → Option Number
unfolding to_double
parse_int t = signed (trim_start t)

abbrev pub decimal : ℕ → ℕ → Text → Text
decimal zero n out = out
decimal (suc fuel) n out =
    let rest = decimal fuel (n / 10) ((48 + n % 10) ∷ out) in
    if leb n 9 then (48 + n) ∷ out else rest

-- A number has no more digits than its successor says.
abbrev pub integer_text : ℤ → Text
integer_text (pos n) = decimal (suc n) n []
integer_text (negsuc n) = 45 ∷ decimal (suc (suc n)) (suc n) []

abbrev pub number_text : Number → Text
number_text (whole z) = integer_text z
number_text infinity = codes "Infinity"
number_text minus_infinity = codes "-Infinity"

-- String(v), of numbers below 10 ^ 21, which have no exponent, or infinite ones
abbrev pub item_text : Item → Text
item_text (text t) = t
item_text (number z) = number_text z
item_text (bool true) = codes "true"
item_text (bool false) = codes "false"

abbrev pub items_text : List Item → Text
items_text [] = []
items_text (i ∷ []) = item_text i
items_text (i ∷ j ∷ is) = item_text i ++ 44 ∷ items_text (j ∷ is)

unfoldable pub value_text : Value → Text
value_text (one i) = item_text i
value_text (many is) = items_text is

-- t.toLowerCase()
abbrev pub lower : Text → Text
lower [] = []
lower (c ∷ t) = (if leb 65 c && leb c 90 then c + 32 else c) ∷ lower t

abbrev pub onto : ℕ → List Text → List Text
onto c [] = (c ∷ []) ∷ []
onto c (p ∷ ps) = (c ∷ p) ∷ ps

abbrev pub split_commas : Text → List Text
split_commas [] = [] ∷ []
split_commas (c ∷ t) = let rest = split_commas t in if c == 44 then [] ∷ rest else onto c rest

-- t.split(',').map(s => s.trim())
unfoldable pub split_list : List Text → List Item
split_list [] = []
split_list (t ∷ ts) = text (trim t) ∷ split_list ts
