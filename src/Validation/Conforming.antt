-- ===== src/Validation/Conforming.antt =====
-- src/controllers/validate.js: what the values that come out of a validation are.
use caskfs.Base.{◌≡◌, refl, sym, ap, ◌∙◌, Bool, true, false}
use caskfs.Base.{Option, none, some, List, [], ◌∷◌, All, Mem, any, inl, inr}
use caskfs.Base.{subst, arith, nat_eq, list_eq, ◌==◌, if◌then◌else◌}
use caskfs.Base.Dict.{Dict, lookup}
use caskfs.Base.Text.{Text}
use caskfs.Base.Exec.{Result, ok, err}
use caskfs.Validation.Values.{Value}
use caskfs.Validation.Rules.{Code, required}
use caskfs.Validation.Rules.{Rules, Outcome}
use caskfs.Validation.Rules.{check_set, arrange, add_result, conclude}
use caskfs.Validation.Rules.{validate_value, validate_field}
use caskfs.Validation.Rules.{validate_fields, validate}
use caskfs.Validation.Kinds.{IsOfKind, IfOk, IfOk-and_ok, coerce-IsOfKind}

-- The rules that a field was checked by, and the kind of what came out.
abbrev pub Conforms : Dict Text Rules → Text × Value → Type 0
Conforms schema e = (rules : Rules) × Mem (e.0, rules) schema × IsOfKind rules.kind e.1

abbrev pub has_key : Text → List (Text × Value) → Bool
has_key key out = any (λ (e : Text × Value). e.0 == key) out

-- What a field that passes its check yields.
abbrev FieldOk : Rules → Option Value → Type 0
FieldOk rules none = rules.is_required ≡ false
FieldOk rules (some v) = IsOfKind rules.kind v

IfOk-any : {A : Type 0} (x : Result Code A) → IfOk (λ a. Unit) x
IfOk-any (ok a) = tt
IfOk-any (err c) = tt

value_ok : (rules : Rules) (v : Value) → IfOk (IsOfKind rules.kind) (validate_value rules v)
unfolding validate_value
value_ok rules v =
    IfOk-and_ok (IsOfKind rules.kind) (IsOfKind rules.kind) _ _
      (coerce-IsOfKind rules.kind rules.multiple (arrange rules.multiple v))
      (λ w p.
        IfOk-and_ok (λ u. Unit) (IsOfKind rules.kind) (check_set rules.multiple w rules.in_set) _
          (IfOk-any _) (λ u t. p))

missing_ok :
    (rules : Rules) (b : Bool)
    → rules.is_required ≡ b
    → IfOk (FieldOk rules) (if b then err required else ok none)
missing_ok rules true e = tt
missing_ok rules false e = e

field_ok : (rules : Rules) (v : Option Value) → IfOk (FieldOk rules) (validate_field rules v)
unfolding validate_field
field_ok rules none = missing_ok rules rules.is_required refl
field_ok rules (some v) =
    IfOk-and_ok (IsOfKind rules.kind) (FieldOk rules) (validate_value rules v) _ (value_ok rules v)
      (λ w p. p)

weaken :
    (f : Text × Rules) (schema : Dict Text Rules) (out : List (Text × Value))
    → All (Conforms schema) out
    → All (Conforms (f ∷ schema)) out
weaken f schema [] a = tt
weaken f schema (e ∷ out) a =
    let (rules, m, k) = a.0 in ((rules, inr m, k), weaken f schema out a.1)

added :
    (f : Text × Rules) (schema : Dict Text Rules) (x : Result Code (Option Value)) (o : Outcome)
    → IfOk (FieldOk f.1) x
    → All (Conforms schema) o.0
    → All (Conforms (f ∷ schema)) (add_result f.0 x o).0
added f schema (ok none) o p a = weaken f schema o.0 a
added f schema (ok (some v)) o p a = ((f.1, inl refl, p), weaken f schema o.0 a)
added f schema (err c) o p a = weaken f schema o.0 a

fields-Conforms :
    (schema : Dict Text Rules) (given : Dict Text Value)
    → All (Conforms schema) (validate_fields schema given).0
unfolding validate_fields
fields-Conforms [] given = tt
fields-Conforms (f ∷ schema) given =
    added f schema (validate_field f.1 (lookup f.0 given)) (validate_fields schema given)
      (field_ok f.1 (lookup f.0 given)) (fields-Conforms schema given)

-- A field that is required and passes is among the values.
answered :
    (f : Text × Rules) (x : Result Code (Option Value)) (o : Outcome)
    → IfOk (FieldOk f.1) x
    → f.1.is_required ≡ true
    → (add_result f.0 x o).1 ≡ []
    → has_key f.0 (add_result f.0 x o).0 ≡ true
answered f (ok none) o p r e = absurd (cc (p, r))
answered f (ok (some v)) o p r e = ground arith
answered f (err c) o p r e = absurd (cc e)

stays :
    (key : Text) (f : Text × Rules) (x : Result Code (Option Value)) (o : Outcome)
    → (add_result f.0 x o).1 ≡ []
    → (o.1 ≡ [] → has_key key o.0 ≡ true)
    → has_key key (add_result f.0 x o).0 ≡ true
stays key f (ok none) o e k = k e
stays key f (ok (some v)) o e k = ground (arith, k e)
stays key f (err c) o e k = absurd (cc e)

required_there :
    (schema : Dict Text Rules) (given : Dict Text Value) (f : Text × Rules)
    → Mem f schema
    → f.1.is_required ≡ true
    → (validate_fields schema given).1 ≡ []
    → has_key f.0 (validate_fields schema given).0 ≡ true
unfolding validate_fields
required_there [] given f m r e = absurd m
required_there (g ∷ schema) given f (inl same) r e = rw same (
    answered g (validate_field g.1 (lookup g.0 given)) (validate_fields schema given)
      (field_ok g.1 (lookup g.0 given)) (ap (λ h. h.1.is_required) (sym same) ∙ r) e)
required_there (g ∷ schema) given f (inr m) r e =
    stays f.0 g (validate_field g.1 (lookup g.0 given)) (validate_fields schema given) e
      (required_there schema given f m r)

concluded :
    (o : Outcome) (out : List (Text × Value)) → conclude o ≡ ok out → (o.0 ≡ out) × (o.1 ≡ [])
concluded (values, []) out e = (cc e, refl)
concluded (values, c ∷ errors) out e = absurd (cc e)

-- If a request passes, every value that comes out belongs to a field of the schema and is of its kind:
-- numbers, whole or infinite, above 0 for a positive integer, and Booleans; and every required field is
-- there.
pub validate-Conforms :
    (schema : Dict Text Rules) (given : Dict Text Value) (out : List (Text × Value))
    → validate schema given ≡ ok out
    → All (Conforms schema) out
      × ((f : Text × Rules) → Mem f schema → f.1.is_required ≡ true → has_key f.0 out ≡ true)
unfolding validate
validate-Conforms schema given out e =
    let (same, none_wrong) = concluded (validate_fields schema given) out e in
    (
      subst (All (Conforms schema)) same (fields-Conforms schema given),
      λ f m r. ap (has_key f.0) (sym same) ∙ required_there schema given f m r none_wrong,
    )
