-- ===== src/Transfer/Below.antt =====
-- src/lib/transfer.js: which directories an export takes.
use caskfs.Base.{
  ℕ, ◌≡◌, ◌≢◌, refl, sym, ap, ap₂, ◌∙◌, ◌↔◌, Bool, true, false, ◌||◌, ◌&&◌, ◌==◌, arith,
}
use caskfs.Base.{nat_eq, list_eq, [], ◌∷◌, ◌++◌, All, ◌⊎◌, inl, inr}
use caskfs.Base.Text.{Text}
use caskfs.Paths.{slash}
use caskfs.Transfer.Export.{one_char, like, is_under}

-- A character that LIKE takes as itself.
pub record IsLiteral (c : ℕ) : Type 0 where
  pub not_percent : c ≢ 37
  pub not_underscore : c ≢ 95
  pub not_backslash : c ≢ 92

-- The directory itself, or one below it.
abbrev pub IsBelow : Text → Text → Type 0
IsBelow root dir = (dir ≡ root) ⊎ ((rest : Text) × (dir ≡ root ++ slash ∷ rest))

some_pattern : (root : Text) → ¬ ((root ++ slash ∷ 37 ∷ []) ≡ [])
some_pattern [] p = cc p
some_pattern (c ∷ root) p = cc p

like-literal :
    (c : ℕ) (p t : Text)
    → IsLiteral c
    → ¬ (p ≡ [])
    → like (c ∷ p) t ≡ one_char (λ d. d == c) (like p) t
unfolding like
like-literal c [] t h n = absurd (n refl)
like-literal c (e ∷ p) t h n = ground (arith, h.not_percent, h.not_underscore, h.not_backslash)

like-end : (d : ℕ) (t : Text) → like (slash ∷ 37 ∷ []) (d ∷ t) ≡ true → d ≡ slash
unfolding like nat_eq
like-end d t h = ground (arith, h)

like_end : (t : Text) → like (slash ∷ 37 ∷ []) (slash ∷ t) ≡ true
unfolding like nat_eq
like_end t = refl

like_nothing : like (slash ∷ 37 ∷ []) [] ≡ false
unfolding like nat_eq
like_nothing = refl

both : (b c : Bool) → b && c ≡ true → (b ≡ true) × (c ≡ true)
both true c h = (refl, h)
both false c h = absurd (ground (arith, h))

-- The pattern of a directory matches exactly what is below it.
like-below :
    (root dir : Text)
    → All IsLiteral root
    → like (root ++ slash ∷ 37 ∷ []) dir ≡ true
    → (rest : Text) × (dir ≡ root ++ slash ∷ rest)
like-below [] [] a h = absurd (ground (arith, like_nothing, h))
like-below [] (d ∷ t) a h = (t, ap (λ c. c ∷ t) (like-end d t h))
like-below (c ∷ root) [] a h =
    absurd (cc (like-literal c (root ++ slash ∷ 37 ∷ []) [] a.0 (some_pattern root), h))
like-below (c ∷ root) (d ∷ t) a h =
    let p = root ++ slash ∷ 37 ∷ [] in
    let (same, more) =
      both (d == c) (like p t) (sym (like-literal c p (d ∷ t) a.0 (some_pattern root)) ∙ h) in
    let (rest, e) = like-below root t a.1 more in
    (rest, ap₂ (λ x y. x ∷ y) (ground (arith, same)) e)

below-like :
    (root rest : Text)
    → All IsLiteral root
    → like (root ++ slash ∷ 37 ∷ []) (root ++ slash ∷ rest) ≡ true
below-like [] rest a = like_end rest
below-like (c ∷ root) rest a =
    let p = root ++ slash ∷ 37 ∷ [] in
    like-literal c p (c ∷ (root ++ slash ∷ rest)) a.0 (some_pattern root)
    ∙ ground (arith, below-like root rest a.1)

not_root :
    (root dir : Text)
    → root ≢ slash ∷ []
    → is_under root dir ≡ (dir == root || like (root ++ slash ∷ 37 ∷ []) dir)
unfolding is_under
not_root root dir n = ground (arith, n)

either : (b c : Bool) → b || c ≡ true → (b ≡ true) ⊎ (c ≡ true)
either true c h = inl refl
either false c h = inr h

-- For a root other than "/" without %, _ and backslash, an export takes exactly the files of that
-- directory and of those below it.
pub is_under-IsBelow :
    (root dir : Text)
    → All IsLiteral root
    → root ≢ slash ∷ []
    → (is_under root dir ≡ true) ↔ IsBelow root dir
is_under-IsBelow root dir a n = (
  (λ h.
      elim (either (dir == root) (like (root ++ slash ∷ 37 ∷ []) dir)
        (sym (not_root root dir n) ∙ h)) [
          | inl same ↦ inl (ground (arith, same))
          | inr more ↦ inr (like-below root dir a more)
        ]),
  (λ b. elim b [
    | inl same ↦ not_root root dir n ∙ ground (arith, same)
    | inr (rest, e) ↦
        not_root root dir n
        ∙ ground (arith, ap (like (root ++ slash ∷ 37 ∷ [])) e ∙ below-like root rest a)
  ]),
)
