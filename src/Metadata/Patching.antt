-- ===== src/Metadata/Patching.antt =====
-- src/index.js: what a git patch leaves in the metadata.
use caskfs.Base.{◌≡◌, ◌≢◌, ◌↔◌, refl, sym, subst, ap, ◌∙◌, Bool, true, false, arith}
use caskfs.Base.{◌==◌, ◌=?◌, nat_eq, list_eq, Option, none, some, List, [], ◌∷◌, contains, drop}
use caskfs.Base.{inl, inr, if◌then◌else◌}
use caskfs.Base.Dict.{lookup, lookup-insert}
use caskfs.Base.Text.{Text, codes}
use caskfs.Metadata.Defs.{Metadata, git_properties, git_key, is_git, drop_git, put_property}
use caskfs.Metadata.Defs.{put_properties, apply_git_patch, given}

lookup-drop_git :
    (k : Text) (m : Metadata) → lookup k (drop_git m) ≡ (if is_git k then none else lookup k m)
unfolding drop_git lookup
lookup-drop_git k [] = ground arith
lookup-drop_git k (e ∷ m) = ground (arith, lookup-drop_git k m)

untouched :
    (k p : Text) (v : Option Text) (m : Metadata)
    → k ≢ git_key p
    → lookup k (put_property p v m) ≡ lookup k m
untouched k p none m h = refl
untouched k p (some v) m h = ground (arith, h, lookup-insert k (git_key p) v m)

is_git-git_key : (p : Text) → is_git (git_key p) ≡ true
unfolding is_git git_key nat_eq
is_git-git_key p = refl

true_ne_false : ¬ (true ≡ false)
true_ne_false h = ground arith

lookup-put_properties :
    (k : Text) (ps : List Text) (patch m : Metadata)
    → ((p : Text) → k ≢ git_key p)
    → lookup k (put_properties ps patch m) ≡ lookup k m
unfolding put_properties
lookup-put_properties k [] patch m h = refl
lookup-put_properties k (p ∷ ps) patch m h =
    lookup-put_properties k ps patch (put_property p (given (lookup p patch)) m) h
    ∙ untouched k p (given (lookup p patch)) m (h p)

git_key_injective : (p q : Text) → git_key p ≡ git_key q → p ≡ q
unfolding git_key
git_key_injective p q h = ap (drop 4) h

-- The value of a patch, or else the one that is there.
abbrev or_old : Option Text → Option Text → Option Text
or_old none old = old
or_old (some v) old = some v

put_at :
    (q p : Text) (v : Option Text) (m : Metadata)
    → lookup (git_key q) (put_property p v m)
      ≡ (if q == p then or_old v (lookup (git_key q) m) else lookup (git_key q) m)
put_at q p none m = ground arith
put_at q p (some v) m =
    ground (arith, lookup-insert (git_key q) (git_key p) v m, git_key_injective q p)

or_old_twice : (v o : Option Text) → or_old v (or_old v o) ≡ or_old v o
or_old_twice none o = refl
or_old_twice (some v) o = refl

put_all_at :
    (q : Text) (ps : List Text) (patch m : Metadata)
    → lookup (git_key q) (put_properties ps patch m) ≡ (
        if contains ps q
        then or_old (given (lookup q patch)) (lookup (git_key q) m)
        else lookup (git_key q) m)
unfolding put_properties
put_all_at q [] patch m = refl
put_all_at q (p ∷ ps) patch m =
    let rest = put_all_at q ps patch (put_property p (given (lookup p patch)) m) in
    let one = put_at q p (given (lookup p patch)) m in
    let twice = or_old_twice (given (lookup q patch)) (lookup (git_key q) m) in
    elim (q =? p) [
      | inl same ↦ ground (arith, same, rest, one, twice)
      | inr other ↦ ground (arith, other, rest, one)
    ]

patched :
    (b : Bool) (v old now : Option Text)
    → now ≡ (if b then or_old v old else old)
    → old ≡ none
    → now ≡ (if b then v else none)
patched true none old now h e = h ∙ e
patched true (some v) old now h e = h
patched false v old now h e = h ∙ e

given-some : (x : Option Text) (v : Text) → given x ≡ some v → (x ≡ some v) × (v ≢ codes "null")
given-some none v e = absurd (ground (arith, e))
given-some (some w) v e = elim (w =? codes "null") [
  | inl null ↦ absurd (ground (arith, null, e))
  | inr other ↦ (ground (arith, other, e), λ null. ground (arith, other, null, e))
]

kept_value : (x : Option Text) (v : Text) → x ≡ some v → v ≢ codes "null" → given x ≡ some v
kept_value x v e other = ap given e ∙ ground (arith, other)

-- Which value the patch gives to a property, if any.
gives_lem :
    (b : Bool) (x : Option Text) (v : Text)
    → (if b then given x else none) ≡ some v ↔ (b ≡ true) × (x ≡ some v) × (v ≢ codes "null")
gives_lem true x v =
    ((λ e. (refl, (given-some x v e).0, (given-some x v e).1)), (λ h. kept_value x v h.1 h.2))
gives_lem false x v = ((λ e. absurd (ground (arith, e))), (λ h. absurd (ground (arith, h.0))))

-- The property is configured, and the patch has that value, which is not null.
abbrev pub Gives : Text → Metadata → Text → Type 0
Gives p patch v =
    (contains git_properties p ≡ true) × (lookup p patch ≡ some v) × (v ≢ codes "null")

-- After a patch the metadata has a value for a git property exactly if the property is configured and
-- the patch gives it that value, and not null; the metadata that does not begin with "git-" is as it
-- was.
pub apply_git_patch_lem :
    (patch m : Metadata)
    → ((p : Text)
        → (v : Text) → lookup (git_key p) (apply_git_patch patch m) ≡ some v ↔ Gives p patch v)
      × ((k : Text) → is_git k ≡ false → lookup k (apply_git_patch patch m) ≡ lookup k m)
unfolding apply_git_patch
apply_git_patch_lem patch m = (
  λ p v.
      subst (λ x. x ≡ some v ↔ Gives p patch v)
        (sym (
          patched (contains git_properties p) (given (lookup p patch)) _ _
            (put_all_at p git_properties patch (drop_git m))
            (lookup-drop_git (git_key p) m
              ∙ ap (λ b. if b then none else lookup (git_key p) m) (is_git-git_key p))))
        (gives_lem (contains git_properties p) (lookup p patch) v),
  λ k h.
      lookup-put_properties k git_properties patch (drop_git m)
        (λ p e. true_ne_false (sym (is_git-git_key p) ∙ ap is_git (sym e) ∙ h))
      ∙ lookup-drop_git k m
      ∙ ground (arith, h),
)
