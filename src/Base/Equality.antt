-- ===== src/Base/Equality.antt =====
-- JavaScript's `===` and `includes`, for every type whose equality can be decided.
use Prim.Native.Nat.{ℕ}
use Prim.Native.String.{String}
use mathlib.Core.Path.{◌≡◌, refl, ap, ap₂}
use mathlib.Core.Logic.{ite, dite, ◌⊎◌, inl, inr}
use mathlib.Core.Bool.{Bool, true, false, ◌||◌, Bool-discrete}
use mathlib.Core.Option.{Option, none, some, none-ne-some, some-ne-none, some-injective}
use mathlib.Core.List.{List, [], ◌∷◌}
use native.Mathlib.Decide.{ℕ_discrete}
use text.Mathlib.Text
use text.Mathlib.TextEquality.{eq_iff}

pub record Eq {ℓ} (A : Type ℓ) : Type ℓ where
  pub dec : Discrete A

module _ {ℓ} {A : Type ℓ} ⦃e : Eq A⦄ where
  infix 50 ◌==◌
  abbrev pub ◌==◌ : A → A → Bool
  a == b = ite (e.dec a b) true false

  -- Array.prototype.includes
  abbrev pub contains : List A → A → Bool
  contains [] a = false
  contains (x ∷ xs) a = a == x || contains xs a

  -- Two values are one or not.
  infix 50 ◌=?◌
  pub ◌=?◌ : (a b : A) → (a ≡ b) ⊎ (¬ (a ≡ b))
  a =? b = elim (e.dec a b) [ yes p ↦ inl p | no n ↦ inr n ]

  option_dec : Discrete (Option A)
  option_dec none none = yes refl
  option_dec none (some b) = no (none-ne-some b)
  option_dec (some a) none = no (some-ne-none a)
  option_dec (some a) (some b) =
      dite (e.dec a b) (λ p. yes (ap some p)) (λ n. no (λ p. n (some-injective a b p)))

  instance unfoldable pub option_eq : Eq (Option A)
  unfolding option_dec
  option_eq = record { dec = option_dec }

  pub cons_head : (a b : A) (xs ys : List A) → (a ∷ xs) ≡ (b ∷ ys) → a ≡ b
  cons_head a b xs ys p = cc

  pub cons_tail : (a b : A) (xs ys : List A) → (a ∷ xs) ≡ (b ∷ ys) → xs ≡ ys
  cons_tail a b xs ys p = cc

  pub nil_ne_cons : (a : A) (xs : List A) → ¬ ([] ≡ (a ∷ xs))
  nil_ne_cons a xs p = cc

  pub cons_ne_nil : (a : A) (xs : List A) → ¬ ((a ∷ xs) ≡ [])
  cons_ne_nil a xs p = cc

  list_dec : Discrete (List A)
  list_dec [] [] = yes refl
  list_dec [] (b ∷ ys) = no (nil_ne_cons b ys)
  list_dec (a ∷ xs) [] = no (cons_ne_nil a xs)
  list_dec (a ∷ xs) (b ∷ ys) =
      let rest = list_dec xs ys in
      dite (e.dec a b)
        (λ p. dite rest (λ q. yes (ap₂ ◌∷◌ p q)) (λ n. no (λ r. n (cons_tail a b xs ys r))))
        (λ n. no (λ r. n (cons_head a b xs ys r)))

  instance unfoldable pub list_eq : Eq (List A)
  unfolding list_dec
  list_eq = record { dec = list_dec }

module _ {ℓ κ} {A : Type ℓ} {B : Type κ} ⦃a : Eq A⦄ ⦃b : Eq B⦄ where
  pair_dec : Discrete (A × B)
  pair_dec x y =
      let rest = b.dec x.1 y.1 in
      dite (a.dec x.0 y.0)
        (λ p. dite rest (λ q. yes (ap₂ (λ u v. (u, v)) p q)) (λ n. no (λ r. n (ap (λ z. z.1) r))))
        (λ n. no (λ r. n (ap (λ z. z.0) r)))

  instance unfoldable pub pair_eq : Eq (A × B)
  unfolding pair_dec
  pair_eq = record { dec = pair_dec }

-- Shut in proofs, where a split on a test yields the equation or its negation.
instance unfoldable pub nat_eq : Eq ℕ
unfolding ℕ_discrete
nat_eq = record { dec = ℕ_discrete }

instance unfoldable pub string_eq : Eq String
string_eq = record {
  dec = λ s t.
      dite (Bool-discrete (Text.◌==◌ s t) true) (λ same. yes ((eq_iff s t).0 same))
        (λ differ. no (λ p. differ ((eq_iff s t).1 p)));
}
