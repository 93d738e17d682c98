-- ===== src/Base/Lists.antt =====
-- Lists measured by native numbers, under the library's names.
use Prim.Native.Nat.{ℕ, zero, suc, ◌+◌, ◌≤◌}
use mathlib.Core.Path.{◌≡◌, refl, ap, sym, subst}
use mathlib.Core.Bool.{Bool, true, false, ◌||◌, ◌&&◌}
use mathlib.Core.Option.{Option, none, some}
use mathlib.Core.List.{List, [], ◌∷◌, ◌++◌, map}
use native.Mathlib.Omega.{arith}
use mathlib.Core.Logic.{◌⊎◌, inl, inr}
use caskfs.Base.Tests.{if◌then◌else◌, Bool-cases}

module _ {ℓ} {A : Type ℓ} where
  abbrev pub length : List A → ℕ
  length [] = 0
  length (x ∷ xs) = suc (length xs)

  abbrev pub take : ℕ → List A → List A
  take zero xs = []
  take (suc n) [] = []
  take (suc n) (x ∷ xs) = x ∷ take n xs

  abbrev pub drop : ℕ → List A → List A
  drop zero xs = xs
  drop (suc n) [] = []
  drop (suc n) (x ∷ xs) = drop n xs

  abbrev pub replicate : ℕ → A → List A
  replicate zero a = []
  replicate (suc n) a = a ∷ replicate n a

  -- Array.prototype.filter
  abbrev pub keep : (A → Bool) → List A → List A
  keep p [] = []
  keep p (x ∷ xs) = let rest = keep p xs in if p x then x ∷ rest else rest

  abbrev pub any : (A → Bool) → List A → Bool
  any p [] = false
  any p (x ∷ xs) = p x || any p xs

  abbrev pub find : (A → Bool) → List A → Option A
  find p [] = none
  find p (x ∷ xs) = let rest = find p xs in if p x then some x else rest

  abbrev pub All {κ} : (A → Type κ) → List A → Type κ
  All P [] = Unit
  All P (x ∷ xs) = P x × All P xs

  pub length-append : (xs ys : List A) → length (xs ++ ys) ≡ length xs + length ys
  length-append [] ys = omega arith
  length-append (x ∷ xs) ys = omega (arith, length-append xs ys)

  pub take-all : (n : ℕ) (xs : List A) → length xs ≤ n → take n xs ≡ xs
  take-all zero [] h = refl
  take-all zero (x ∷ xs) h = absurd (omega arith)
  take-all (suc n) [] h = refl
  take-all (suc n) (x ∷ xs) h = ap (λ r. x ∷ r) (take-all n xs (omega arith))

  pub drop-append_self : (xs ys : List A) → drop (length xs) (xs ++ ys) ≡ ys
  drop-append_self [] ys = refl
  drop-append_self (x ∷ xs) ys = drop-append_self xs ys

  pub All-append {κ} : (P : A → Type κ) (xs ys : List A) → All P xs → All P ys → All P (xs ++ ys)
  All-append P [] ys hx hy = hy
  All-append P (x ∷ xs) ys hx hy = (hx.0, All-append P xs ys hx.1 hy)

pub All-front {ℓ κ} :
    {A : Type ℓ} (P : A → Type κ) (xs : List A) (y : A) → All P (xs ++ y ∷ []) → All P xs
All-front P [] y h = tt
All-front P (x ∷ xs) y h = (h.0, All-front P xs y h.1)

-- Membership, with the place.
abbrev pub Mem : {A : Type 0} → A → List A → Type 0
Mem a [] = ⊥
Mem a (x ∷ xs) = (a ≡ x) ⊎ Mem a xs

pub any_of_Mem :
    {A : Type 0} (p : A → Bool) (a : A) (xs : List A) → Mem a xs → p a ≡ true → any p xs ≡ true
any_of_Mem p a [] m h = absurd m
any_of_Mem p a (x ∷ xs) (inl e) h = ground (arith, ap p e)
any_of_Mem p a (x ∷ xs) (inr m) h = ground (arith, any_of_Mem p a xs m h)

pub Mem_of_any :
    {A : Type 0} (p : A → Bool) (xs : List A) → any p xs ≡ true → (a : A) × Mem a xs × (p a ≡ true)
Mem_of_any p [] h = ground arith
Mem_of_any p (x ∷ xs) h = elim (Bool-cases (p x)) [
  | inl this ↦ (x, inl refl, this)
  | inr other ↦ let (a, m, pa) = Mem_of_any p xs (ground arith) in (a, inr m, pa)
]

pub any-keep :
    {A : Type 0} (p q : A → Bool) (xs : List A) → any p (keep q xs) ≡ any (λ x. q x && p x) xs
any-keep p q [] = refl
any-keep p q (x ∷ xs) = ground (arith, any-keep p q xs)

pub Mem_append : {A : Type 0} (a : A) (xs ys : List A) → Mem a xs ⊎ Mem a ys → Mem a (xs ++ ys)
Mem_append a [] ys (inl m) = absurd m
Mem_append a [] ys (inr m) = m
Mem_append a (x ∷ xs) ys (inl (inl p)) = inl p
Mem_append a (x ∷ xs) ys (inl (inr m)) = inr (Mem_append a xs ys (inl m))
Mem_append a (x ∷ xs) ys (inr m) = inr (Mem_append a xs ys (inr m))

pub Mem_of_append : {A : Type 0} (a : A) (xs ys : List A) → Mem a (xs ++ ys) → Mem a xs ⊎ Mem a ys
Mem_of_append a [] ys m = inr m
Mem_of_append a (x ∷ xs) ys (inl p) = inl (inl p)
Mem_of_append a (x ∷ xs) ys (inr m) = elim (Mem_of_append a xs ys m) [
  | inl l ↦ inl (inr l)
  | inr r ↦ inr r
]

Mem_if :
    {A : Type 0} (a x : A) (b : Bool) (xs : List A)
    → ((a ≡ x) × (b ≡ true)) ⊎ Mem a xs
    → Mem a (if b then x ∷ xs else xs)
Mem_if a x true xs (inl p) = inl p.0
Mem_if a x true xs (inr m) = inr m
Mem_if a x false xs (inl p) = absurd (ground (arith, p.1))
Mem_if a x false xs (inr m) = m

Mem_of_if :
    {A : Type 0} (a x : A) (b : Bool) (xs : List A)
    → Mem a (if b then x ∷ xs else xs)
    → ((a ≡ x) × (b ≡ true)) ⊎ Mem a xs
Mem_of_if a x true xs (inl p) = inl (p, refl)
Mem_of_if a x true xs (inr m) = inr m
Mem_of_if a x false xs m = inr m

pub Mem_keep :
    {A : Type 0} (p : A → Bool) (a : A) (xs : List A) → Mem a xs → p a ≡ true → Mem a (keep p xs)
Mem_keep p a [] m h = m
Mem_keep p a (x ∷ xs) (inl e) h = Mem_if a x (p x) (keep p xs) (inl (e, ground (arith, ap p e, h)))
Mem_keep p a (x ∷ xs) (inr m) h = Mem_if a x (p x) (keep p xs) (inr (Mem_keep p a xs m h))

pub Mem_of_keep :
    {A : Type 0} (p : A → Bool) (a : A) (xs : List A) → Mem a (keep p xs) → Mem a xs × (p a ≡ true)
Mem_of_keep p a [] m = absurd m
Mem_of_keep p a (x ∷ xs) m = elim (Mem_of_if a x (p x) (keep p xs) m) [
  | inl here ↦ (inl here.0, ground (arith, ap p here.0, here.1))
  | inr there ↦ let (mem, holds) = Mem_of_keep p a xs there in (inr mem, holds)
]

pub All_at {κ} : {A : Type 0} (P : A → Type κ) (a : A) (xs : List A) → All P xs → Mem a xs → P a
All_at P a [] h m = absurd m
All_at P a (x ∷ xs) h (inl e) = subst P (sym e) h.0
All_at P a (x ∷ xs) h (inr m) = All_at P a xs h.1 m

pub Mem_map : {A B : Type 0} (f : A → B) (a : A) (xs : List A) → Mem a xs → Mem (f a) (map f xs)
Mem_map f a [] m = m
Mem_map f a (x ∷ xs) (inl e) = inl (ap f e)
Mem_map f a (x ∷ xs) (inr m) = inr (Mem_map f a xs m)

pub Mem_of_map :
    {A B : Type 0} (f : A → B) (b : B) (xs : List A)
    → Mem b (map f xs)
    → (a : A) × Mem a xs × (b ≡ f a)
Mem_of_map f b [] m = absurd m
Mem_of_map f b (x ∷ xs) (inl e) = (x, inl refl, e)
Mem_of_map f b (x ∷ xs) (inr m) = let (a, there, e) = Mem_of_map f b xs m in (a, inr there, e)
