-- ===== src/Transfer/Extracted.antt =====
-- src/lib/transfer.js and src/bin/lib/transfer.js: an exported archive, extracted.
use caskfs.Base.{ℕ, ◌≡◌, ◌≢◌, refl, sym, ap, ◌∙◌, true, false, arith}
use caskfs.Base.{nat_eq, list_eq, List, [], ◌∷◌, ◌++◌, All, All-append}
use caskfs.Base.{append_assoc, append-nil}
use caskfs.Base.Dict.{insert}
use caskfs.Base.Text.{Text, codes}
use caskfs.Base.Exec.{ok}
use caskfs.Paths.{slash, split, path_of, join_slash, ends_with_slash, rebuild}
use caskfs.Paths.{
  put_pieces-split, split-join_slash, ends_with_slash-join_slash, IsClean, join-path_of,
}
use caskfs.Cas.{Bytes}
use caskfs.Transfer.Extract.{
  put_relative, put_all_relative, normalize_any, strip_dots, resolve, rebuild_relative,
}
use caskfs.Transfer.Extract.{join_under, destination, starts_with, is_inside, file, Disk}
use caskfs.Transfer.Extract.{extract_entry}

put_relative-IsClean : (out : List Text) (p : Text) → IsClean p → put_relative out p ≡ out ++ p ∷ []
put_relative-IsClean out [] h = absurd (h.some_text refl)
put_relative-IsClean out (c ∷ t) h = ground (arith, h.not_dot, h.not_dots)

put_all_relative-IsClean :
    (out ps : List Text) → All IsClean ps → put_all_relative out ps ≡ out ++ ps
put_all_relative-IsClean out [] h = sym (append-nil out)
put_all_relative-IsClean out (p ∷ ps) h =
    rw (put_relative-IsClean out p h.0)
      (put_all_relative-IsClean (out ++ p ∷ []) ps h.1 ∙ append_assoc out (p ∷ []) ps)

-- The name of an entry below "cas".
abbrev under_cas : List Text → Text
under_cas qs = join_slash (codes "cas" ∷ qs)

relative :
    (c : ℕ) (t : Text)
    → c ≢ slash
    → normalize_any (c ∷ t)
      ≡ rebuild_relative (put_all_relative [] (split (c ∷ t))) (ends_with_slash (c ∷ t))
unfolding normalize_any
relative c t n = ground (arith, n)

cas_start :
    (q : Text) (qs : List Text) → under_cas (q ∷ qs) ≡ 99 ∷ 97 ∷ 115 ∷ slash ∷ join_slash (q ∷ qs)
cas_start q qs = refl

normalize_any-clean :
    (q : Text) (qs : List Text)
    → All IsClean (codes "cas" ∷ q ∷ qs)
    → normalize_any (under_cas (q ∷ qs)) ≡ under_cas (q ∷ qs)
normalize_any-clean q qs h =
    relative 99 (97 ∷ 115 ∷ slash ∷ join_slash (q ∷ qs)) (omega arith)
    ∙ rw
        (
          split-join_slash (codes "cas") (q ∷ qs) h,
          ends_with_slash-join_slash (codes "cas") (q ∷ qs) h,
          put_all_relative-IsClean [] (codes "cas" ∷ q ∷ qs) h,
        )
        (append-nil (under_cas (q ∷ qs)))

strip_dots-cas : (t : Text) → strip_dots (99 ∷ 97 ∷ 115 ∷ t) ≡ 99 ∷ 97 ∷ 115 ∷ t
unfolding strip_dots
strip_dots-cas t = ground arith

rebuild-parts : (ps : List Text) → rebuild ps false ≡ path_of ps
rebuild-parts [] = refl
rebuild-parts (p ∷ ps) = append-nil (path_of (p ∷ ps))

resolve-path_of : (ps : List Text) → All IsClean ps → resolve (path_of ps) ≡ path_of ps
unfolding resolve split nat_eq
resolve-path_of ps h = rw (put_pieces-split [] ps h) (rebuild-parts ps)

-- An entry with a clean name below "cas" goes to that place below the location.
destination-clean :
    (ps : List Text) (q : Text) (qs : List Text)
    → All IsClean ps
    → All IsClean (codes "cas" ∷ q ∷ qs)
    → destination (path_of ps) (under_cas (q ∷ qs)) ≡ path_of (ps ++ codes "cas" ∷ q ∷ qs)
unfolding destination
destination-clean ps q qs hp hq =
    ap (λ n. resolve (join_under (path_of ps) (strip_dots n))) (normalize_any-clean q qs hq)
    ∙ ap (λ n. resolve (join_under (path_of ps) n)) (strip_dots-cas (slash ∷ join_slash (q ∷ qs)))
    ∙ ap resolve (join-path_of ps (codes "cas") (q ∷ qs) hp hq)
    ∙ resolve-path_of (ps ++ codes "cas" ∷ q ∷ qs)
        (All-append IsClean ps (codes "cas" ∷ q ∷ qs) hp hq)

starts-append : (x y : Text) → starts_with x (x ++ y) ≡ true
starts-append [] y = refl
starts-append (c ∷ x) y = ground (arith, starts-append x y)

path_of-append :
    (p : Text) (ps : List Text) (q : Text) (qs : List Text)
    → join_slash (p ∷ ps ++ q ∷ qs) ≡ (join_slash (p ∷ ps) ++ slash ∷ []) ++ join_slash (q ∷ qs)
path_of-append p [] q qs = sym (append_assoc p (slash ∷ []) (join_slash (q ∷ qs)))
path_of-append p (r ∷ ps) q qs =
    let x = join_slash (r ∷ ps) in
    let y = join_slash (q ∷ qs) in
    ap (λ t. p ++ slash ∷ t) (path_of-append r ps q qs ∙ append_assoc x (slash ∷ []) y)
    ∙ sym (append_assoc (p ++ slash ∷ x) (slash ∷ []) y ∙ append_assoc p (slash ∷ x) (slash ∷ y))

inside-clean :
    (p : Text) (ps : List Text) (q : Text) (qs : List Text)
    → is_inside (path_of (p ∷ ps)) (path_of ((p ∷ ps) ++ q ∷ qs)) ≡ true
inside-clean p ps q qs =
    let root = path_of (p ∷ ps) ++ slash ∷ [] in
    ground (
      arith,
      ap (λ t. starts_with root (slash ∷ t)) (path_of-append p ps q qs),
      starts-append root (join_slash (q ∷ qs)),
    )

-- Such an entry is accepted, and its bytes are written there.
pub extract_entry-clean :
    (p : Text) (ps : List Text) (q : Text) (qs : List Text) (name : Text) (b : Bytes) (disk : Disk)
    → All IsClean (p ∷ ps)
    → All IsClean (codes "cas" ∷ q ∷ qs)
    → name ≡ under_cas (q ∷ qs)
    → extract_entry (path_of (p ∷ ps)) (record { name = name; content = file b }) disk
      ≡ (ok tt, insert (path_of ((p ∷ ps) ++ codes "cas" ∷ q ∷ qs)) b disk)
unfolding extract_entry
extract_entry-clean p ps q qs name b disk hp hq e =
    rw
      (
        e,
        destination-clean (p ∷ ps) q qs hp hq,
        resolve-path_of (p ∷ ps) hp,
        inside-clean p ps (codes "cas") (q ∷ qs),
      )
      refl
