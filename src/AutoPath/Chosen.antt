-- ===== src/AutoPath/Chosen.antt =====
-- src/lib/auto-path/base.js: which piece of a path a rule takes.
use caskfs.Base.{ℕ, zero, suc, ◌≡◌, refl, sym, ◌∙◌, ap, ◌⊎◌, inl, inr, arith, ◌↔◌}
use mathlib.Core.Option.{none-ne-some, some-injective}
use caskfs.Base.{Bool, true, false, Bool-cases, Option, none, some, List, [], ◌∷◌, ◌++◌, keep, All}
use caskfs.Base.{length, leb}
use caskfs.Base.Text.{Text}
use caskfs.AutoPath.Rules.{Rule, Host}
use caskfs.AutoPath.Lookup.{nth, at_index, passes, first, pick_part}

-- Whether the position of a rule lies in the path.
abbrev pub in_range : Option ℕ → List Text → Bool
in_range none ps = false
in_range (some zero) ps = false
in_range (some (suc i)) ps = leb (suc i) (length ps)

abbrev pub position : Option ℕ → ℕ
position none = 0
position (some i) = i

abbrev pub Fails : Host → Option Text → Text → Type 0
Fails host regex p = passes host regex p ≡ false

-- The piece `p` is taken: it passes, and it stands at the rule's position, if that is in the path, and
-- otherwise before every other piece that passes.
pub record IsTaken (host : Host) (r : Rule) (ps : List Text) (p : Text) : Type 0 where
  pub before : List Text
  pub after : List Text
  pub place : ps ≡ before ++ p ∷ after
  pub passing : passes host r.filter_regex p ≡ true
  pub at_position :
      ((in_range r.index ps ≡ true) × (suc (length before) ≡ position r.index))
      ⊎ ((in_range r.index ps ≡ false) × All (Fails host r.filter_regex) before)

module _ (f : Text → Bool) where
  abbrev FailsAll : List Text → Type 0
  FailsAll = All (λ p. f p ≡ false)

  first-keep :
      (p : Text) (ps : List Text)
      → first (keep f ps) ≡ some p
      → (before : List Text) × (after : List Text) × (ps ≡ before ++ p ∷ after)
        × (f p ≡ true)
        × FailsAll before
  first-keep p [] h = absurd (none-ne-some p h)
  first-keep p (q ∷ ps) h = elim (Bool-cases (f q)) [
    | inl good ↦
        let same = some-injective q p (ground (arith, good)) in
        ([], ps, ap (λ x. x ∷ ps) same, ap f (sym same) ∙ good, tt)
    | inr bad ↦
        let (before, after, place, good, none_before) = first-keep p ps (ground (arith, bad)) in
        (q ∷ before, after, ap (λ x. q ∷ x) place, good, (bad, none_before))
  ]

  keep-first :
      (p : Text) (before after : List Text)
      → f p ≡ true
      → FailsAll before
      → first (keep f (before ++ p ∷ after)) ≡ some p
  keep-first p [] after good h = ground arith
  keep-first p (q ∷ before) after good h = ground (arith, h.0, keep-first p before after good h.1)

  first-nth :
      (p : Text) (i : ℕ) (ps : List Text)
      → first (keep f (nth i ps)) ≡ some p
      → (before : List Text) × (after : List Text) × (ps ≡ before ++ p ∷ after)
        × (f p ≡ true)
        × (length before ≡ i)
  first-nth p i [] h = absurd (none-ne-some p h)
  first-nth p zero (q ∷ ps) h = elim (Bool-cases (f q)) [
    | inl good ↦
        let same = some-injective q p (ground (arith, good)) in
        ([], ps, ap (λ x. x ∷ ps) same, ap f (sym same) ∙ good, refl)
    | inr bad ↦ absurd (none-ne-some p (ground (arith, bad)))
  ]
  first-nth p (suc i) (q ∷ ps) h =
      let (before, after, place, good, long) = first-nth p i ps h in
      (q ∷ before, after, ap (λ x. q ∷ x) place, good, ap suc long)

  nth-first :
      (p : Text) (before after : List Text)
      → f p ≡ true
      → first (keep f (nth (length before) (before ++ p ∷ after))) ≡ some p
  nth-first p [] after good = ground arith
  nth-first p (q ∷ before) after good = nth-first p before after good

same_place : (i j k : ℕ) → k ≡ suc i → suc j ≡ k → i ≡ j
same_place i j k a b = omega arith

at_index_outside : (o : Option ℕ) (ps : List Text) → in_range o ps ≡ false → at_index o ps ≡ ps
at_index_outside none ps h = refl
at_index_outside (some zero) ps h = refl
at_index_outside (some (suc i)) ps h = ground (arith, h)

at_index_inside :
    (o : Option ℕ) (ps : List Text)
    → in_range o ps ≡ true
    → (i : ℕ) × (position o ≡ suc i) × (at_index o ps ≡ nth i ps)
at_index_inside none ps h = ground arith
at_index_inside (some zero) ps h = ground arith
at_index_inside (some (suc i)) ps h = (i, refl, ground (arith, h))

module _ (host : Host) (p : Text) where
  free-IsTaken :
      (r : Rule) (ps : List Text)
      → in_range r.index ps ≡ false
      → (first (keep (passes host r.filter_regex) ps) ≡ some p) ↔ IsTaken host r ps p
  free-IsTaken r ps out = (
    λ h.
        let (before, after, place, good, fails) = first-keep (passes host r.filter_regex) p ps h in
        record {
          before = before;
          after = after;
          place = place;
          passing = good;
          at_position = inr (out, fails);
        },
    λ t. elim t.at_position [
      | inl inside ↦ ground (arith, inside.0)
      | inr outside ↦
          ap (λ l. first (keep (passes host r.filter_regex) l)) t.place
          ∙ keep-first (passes host r.filter_regex) p t.before t.after t.passing outside.1
    ],
  )

  at-IsTaken :
      (r : Rule) (i : ℕ) (ps : List Text)
      → in_range r.index ps ≡ true
      → position r.index ≡ suc i
      → (first (keep (passes host r.filter_regex) (nth i ps)) ≡ some p) ↔ IsTaken host r ps p
  at-IsTaken r i ps inside at = (
    λ h.
        let (before, after, place, good, long) = first-nth (passes host r.filter_regex) p i ps h in
        record {
          before = before;
          after = after;
          place = place;
          passing = good;
          at_position = inl (inside, ap suc long ∙ sym at);
        },
    λ t. elim t.at_position [
      | inl there ↦
          ap (λ l. first (keep (passes host r.filter_regex) (nth i l))) t.place
          ∙ ap (λ j. first (keep (passes host r.filter_regex) (nth j (t.before ++ p ∷ t.after))))
              (same_place i (length t.before) (position r.index) at there.1)
          ∙ nth-first (passes host r.filter_regex) p t.before t.after t.passing
      | inr outside ↦ ground (arith, outside.0)
    ],
  )

  -- A rule takes a piece of a path exactly if it is the piece at the rule's position and passes the
  -- rule's expression, or, where the path has no such position, the first piece that passes.
  pub pick_part-IsTaken :
      (r : Rule) (ps : List Text) → (pick_part host r ps ≡ some p) ↔ IsTaken host r ps p
  unfolding pick_part
  pick_part-IsTaken r ps = elim (Bool-cases (in_range r.index ps)) [
    | inl inside ↦
        let (i, at, e) = at_index_inside r.index ps inside in
        let chosen = λ (l : List Text). first (keep (passes host r.filter_regex) l) in
        (
          λ h. (at-IsTaken r i ps inside at).0 (sym (ap chosen e) ∙ h),
          λ t. ap chosen e ∙ (at-IsTaken r i ps inside at).1 t,
        )
    | inr out ↦
        let e = at_index_outside r.index ps out in
        let chosen = λ (l : List Text). first (keep (passes host r.filter_regex) l) in
        (
          λ h. (free-IsTaken r ps out).0 (sym (ap chosen e) ∙ h),
          λ t. ap chosen e ∙ (free-IsTaken r ps out).1 t,
        )
  ]
