-- ===== src/Paths/Parse.antt =====
-- path.parse on a path of clean parts.
use caskfs.Base.{false, ◌≡◌, refl, ◌∙◌, ap, nat_eq, list_eq, arith}
use caskfs.Base.{[], ◌∷◌, List, ◌++◌, All}
use caskfs.Base.Text.{Text}
use caskfs.Paths.Defs.{slash, split, join_slash, path_of, drop_last, ends_with_slash}
use caskfs.Paths.Defs.{strip, or_root, parse_dir, IsClean}
use caskfs.Paths.Laws.{split-join_slash, ends_with_slash-past, join_slash-ne-nil}
use caskfs.Paths.Laws.{ends_with_slash-join_slash}

strip-no_slash : (c : _) (t : Text) → ends_with_slash (c ∷ t) ≡ false → strip (c ∷ t) ≡ c ∷ t
unfolding strip
strip-no_slash c [] h = ground (arith, h)
strip-no_slash c (d ∷ t) h = rw (strip-no_slash d t h) refl

drop_last-append : (ps : List Text) (q : Text) → drop_last (ps ++ q ∷ []) ≡ ps
drop_last-append [] q = refl
drop_last-append (p ∷ []) q = refl
drop_last-append (p ∷ r ∷ ps) q = ap (λ x. p ∷ x) (drop_last-append (r ∷ ps) q)

-- The directory of the text of some clean parts, for a list that is not empty.
parse_dir-cons :
    (p : Text) (ps : List Text)
    → All IsClean (p ∷ ps)
    → parse_dir (path_of (p ∷ ps))
      ≡ or_root (path_of (p ∷ ps)) (join_slash (drop_last ([] ∷ p ∷ ps)))
unfolding parse_dir nat_eq split
parse_dir-cons p ps h =
    rw
      (
        strip-no_slash slash (join_slash (p ∷ ps)) (
            ends_with_slash-past [] (join_slash (p ∷ ps)) (join_slash-ne-nil p ps h.0)
              (ends_with_slash-join_slash p ps h)),
        split-join_slash p ps h,
      )
      refl

or_root-path_of :
    (t : Text) (ps : List Text) → or_root (slash ∷ t) (join_slash ([] ∷ ps)) ≡ path_of ps
unfolding nat_eq
or_root-path_of t [] = refl
or_root-path_of t (p ∷ ps) = refl

-- The directory of a file of clean parts is made of all of them but the last.
pub parse_dir-path_of :
    (ps : List Text) (q : Text)
    → All IsClean (ps ++ q ∷ [])
    → parse_dir (path_of (ps ++ q ∷ [])) ≡ path_of ps
parse_dir-path_of [] q h = parse_dir-cons q [] h ∙ or_root-path_of (join_slash (q ∷ [])) []
parse_dir-path_of (p ∷ ps) q h =
    parse_dir-cons p (ps ++ q ∷ []) h
    ∙ rw (drop_last-append ([] ∷ p ∷ ps) q)
        (or_root-path_of (join_slash (p ∷ ps ++ q ∷ [])) (p ∷ ps))
