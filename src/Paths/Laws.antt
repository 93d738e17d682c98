-- ===== src/Paths/Laws.antt =====
-- Paths and the lists of their parts.
use caskfs.Base.{ℕ, false, ◌≡◌, ◌≢◌, refl, sym, ◌∙◌, ap, nat_eq, list_eq}
use caskfs.Base.{List, [], ◌∷◌, ◌++◌, keep, All, append-nil, append_assoc, arith}
use caskfs.Base.Text.{Text}
use caskfs.Paths.Defs.{
  slash, onto_first, split, is_part, parts, join_slash, path_of, put_piece, put_pieces,
}
use caskfs.Paths.Defs.{ends_with_slash, rebuild, join, last_or, basename, NoSlash, IsClean}

onto_first-onto_first :
    (c d : ℕ) (l ys : List Text)
    → onto_first c (onto_first d l ++ ys) ≡ onto_first c (onto_first d l) ++ ys
onto_first-onto_first c d [] ys = refl
onto_first-onto_first c d (p ∷ l) ys = refl

onto_first-append :
    (c : ℕ) (t : Text) (ys : List Text)
    → onto_first c (split t ++ ys) ≡ onto_first c (split t) ++ ys
unfolding split
onto_first-append c [] ys = refl
onto_first-append c (d ∷ t) ys = ground (arith, onto_first-onto_first c d (split t) ys)

split-append : (x y : Text) → split (x ++ slash ∷ y) ≡ split x ++ split y
unfolding split
split-append [] y = ground arith
split-append (c ∷ x) y = ground (arith, split-append x y, onto_first-append c x (split y))

split-NoSlash : (p : Text) → NoSlash p → split p ≡ p ∷ []
unfolding split
split-NoSlash [] h = refl
split-NoSlash (c ∷ p) h = ground (arith, h, split-NoSlash p)

pub split-join_slash :
    (p : Text) (ps : List Text) → All IsClean (p ∷ ps) → split (join_slash (p ∷ ps)) ≡ p ∷ ps
split-join_slash p [] h = split-NoSlash p h.0.no_slash
split-join_slash p (q ∷ ps) h =
    split-append p (join_slash (q ∷ ps))
    ∙ rw (split-NoSlash p h.0.no_slash, split-join_slash q ps h.1)

put_pieces-append :
    (out xs ys : List Text) → put_pieces out (xs ++ ys) ≡ put_pieces (put_pieces out xs) ys
put_pieces-append out [] ys = refl
put_pieces-append out (x ∷ xs) ys = put_pieces-append (put_piece out x) xs ys

put_piece-IsClean : (out : List Text) (p : Text) → IsClean p → put_piece out p ≡ out ++ p ∷ []
put_piece-IsClean out [] h = absurd (h.some_text refl)
put_piece-IsClean out (c ∷ p) h = ground (arith, h.not_dot, h.not_dots)

put_pieces-IsClean : (out ps : List Text) → All IsClean ps → put_pieces out ps ≡ out ++ ps
put_pieces-IsClean out [] h = sym (append-nil out)
put_pieces-IsClean out (p ∷ ps) h =
    rw (put_piece-IsClean out p h.0)
      (put_pieces-IsClean (out ++ p ∷ []) ps h.1 ∙ append_assoc out (p ∷ []) ps)

-- The pieces of the text of clean parts, put in order, are the parts.
pub put_pieces-split :
    (out ps : List Text) → All IsClean ps → put_pieces out (split (join_slash ps)) ≡ out ++ ps
put_pieces-split out [] h = unfold split in sym (append-nil out)
put_pieces-split out (p ∷ ps) h = rw (split-join_slash p ps h) (put_pieces-IsClean out (p ∷ ps) h)

ends_with_slash-append :
    (x : Text) (c : ℕ) (y : Text) → ends_with_slash (x ++ c ∷ y) ≡ ends_with_slash (c ∷ y)
ends_with_slash-append [] c y = refl
ends_with_slash-append (d ∷ []) c y = refl
ends_with_slash-append (d ∷ e ∷ x) c y = ends_with_slash-append (e ∷ x) c y

ends_with_slash-NoSlash : (p : Text) → NoSlash p → ends_with_slash p ≡ false
ends_with_slash-NoSlash [] h = refl
ends_with_slash-NoSlash (c ∷ []) h = ground (arith, h.0)
ends_with_slash-NoSlash (c ∷ d ∷ p) h = ends_with_slash-NoSlash (d ∷ p) h.1

pub ends_with_slash-past :
    (x p : Text) → p ≢ [] → ends_with_slash p ≡ false → ends_with_slash (x ++ slash ∷ p) ≡ false
ends_with_slash-past x [] n h = absurd (n refl)
ends_with_slash-past x (c ∷ p) n h = ends_with_slash-append x slash (c ∷ p) ∙ h

pub join_slash-ne-nil : (p : Text) (ps : List Text) → IsClean p → join_slash (p ∷ ps) ≢ []
join_slash-ne-nil [] ps h e = h.some_text refl
join_slash-ne-nil (c ∷ p) [] h e = cc
join_slash-ne-nil (c ∷ p) (q ∷ ps) h e = cc

pub ends_with_slash-join_slash :
    (p : Text) (ps : List Text)
    → All IsClean (p ∷ ps)
    → ends_with_slash (join_slash (p ∷ ps)) ≡ false
ends_with_slash-join_slash p [] h = ends_with_slash-NoSlash p h.0.no_slash
ends_with_slash-join_slash p (q ∷ ps) h =
    ends_with_slash-past p (join_slash (q ∷ ps)) (join_slash-ne-nil q ps h.1.0)
      (ends_with_slash-join_slash q ps h.1)

pub rebuild-past :
    (ps : List Text) (q : Text) (qs : List Text)
    → rebuild (ps ++ q ∷ qs) false ≡ path_of (ps ++ q ∷ qs)
rebuild-past [] q qs = append-nil _
rebuild-past (p ∷ ps) q qs = append-nil _

-- Joining clean parts below a clean directory appends them.
pub join-path_of :
    (ps : List Text) (q : Text) (qs : List Text)
    → All IsClean ps
    → All IsClean (q ∷ qs)
    → join (path_of ps) (join_slash (q ∷ qs)) ≡ path_of (ps ++ q ∷ qs)
unfolding join nat_eq
join-path_of ps q qs hp hq =
    let below = join_slash (q ∷ qs) in
    rw
      (
        ends_with_slash-past (path_of ps) below (join_slash-ne-nil q qs hq.0)
            (ends_with_slash-join_slash q qs hq),
        split-append (path_of ps) below,
      )
      (ap (λ out. rebuild out false)
          (put_pieces-append [] (split (path_of ps)) (split below)
            ∙ rw put_pieces-path_of (put_pieces-split ps (q ∷ qs) hq))
        ∙ rebuild-past ps q qs)
  where
    put_pieces-path_of : put_pieces [] (split (path_of ps)) ≡ ps
    put_pieces-path_of = put_pieces-split [] ps hp

keep-IsClean : (ps : List Text) → All IsClean ps → keep is_part ps ≡ ps
keep-IsClean [] h = refl
keep-IsClean ([] ∷ ps) h = absurd (h.0.some_text refl)
keep-IsClean ((c ∷ p) ∷ ps) h = ap (λ r. (c ∷ p) ∷ r) (keep-IsClean ps h.1)

-- The parts of a path of clean parts are those parts.
pub parts-path_of : (ps : List Text) → All IsClean ps → parts (path_of ps) ≡ ps
unfolding parts nat_eq
parts-path_of [] h = refl
parts-path_of (p ∷ ps) h = rw (split-join_slash p ps h) (keep-IsClean (p ∷ ps) h)

pub path_of_injective :
    (ps qs : List Text) → All IsClean ps → All IsClean qs → path_of ps ≡ path_of qs → ps ≡ qs
path_of_injective ps qs hp hq e = sym (parts-path_of ps hp) ∙ ap parts e ∙ parts-path_of qs hq

last_or-append : (d : Text) (ps : List Text) (q : Text) → last_or d (ps ++ q ∷ []) ≡ q
last_or-append d [] q = refl
last_or-append d (p ∷ ps) q = last_or-append p ps q

pub basename-path_of :
    (ps : List Text) (q : Text) → All IsClean (ps ++ q ∷ []) → basename (path_of (ps ++ q ∷ [])) ≡ q
unfolding basename
basename-path_of ps q h = rw (parts-path_of (ps ++ q ∷ []) h) (last_or-append [] ps q)
