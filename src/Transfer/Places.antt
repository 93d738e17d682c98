-- ===== src/Transfer/Places.antt =====
-- src/lib/transfer.js and src/bin/lib/transfer.js: where the entries of an exported archive come to lie,
-- and that no two of them meet.
use caskfs.Base.{◌≡◌, ◌≢◌, refl, sym, ap, ◌∙◌, arith, nat_eq, list_eq}
use caskfs.Base.{
  List, [], ◌∷◌, ◌++◌, All, All-append, length, length-append, append_assoc, take, drop,
}
use caskfs.Base.Text.{Text, codes}
use caskfs.Paths.{slash, path_of, join_slash, IsClean, NoSlash, path_of_injective}
use caskfs.Cas.{hash_file_path}
use caskfs.Cas.Layout.{IsDigest, cas_parts, cas_parts-IsClean, long-IsClean, append-cancel_right}

abbrev pub json_parts : Text → List Text
json_parts h = codes "cas" ∷ take 3 h ∷ take 3 (drop 3 h) ∷ (h ++ codes ".json") ∷ []

NoSlash-append : (x y : Text) → NoSlash x → NoSlash y → NoSlash (x ++ y)
NoSlash-append x y hx hy = All-append (λ c. c ≢ slash) x y hx hy

pub json_parts-IsClean : (h : Text) → IsDigest h → All IsClean (json_parts h)
json_parts-IsClean h d =
    let (a, (b, (c, rest))) = cas_parts-IsClean h (omega (arith, d.size)) d.no_slash in
    (
      a,
      (
        b,
        (
          c,
          (
            long-IsClean (h ++ codes ".json")
                (omega (arith, length-append h (codes ".json"), d.size))
                (NoSlash-append h (codes ".json") d.no_slash (ground arith)),
            tt,
          ),
        ),
      ),
    )

pub json_name :
    (h : Text) → (codes "cas/" ++ hash_file_path h) ++ codes ".json" ≡ join_slash (json_parts h)
unfolding hash_file_path
json_name h =
    ap (λ t. 99 ∷ 97 ∷ 115 ∷ 47 ∷ t)
      (append_assoc (take 3 h) (slash ∷ (take 3 (drop 3 h) ++ slash ∷ h)) (codes ".json")
        ∙ ap (λ t. take 3 h ++ slash ∷ t)
            (append_assoc (take 3 (drop 3 h)) (slash ∷ h) (codes ".json")))

pub cas_name : (h : Text) → codes "cas/" ++ hash_file_path h ≡ join_slash (cas_parts h)
unfolding hash_file_path
cas_name h = refl

append-cancel_left : (xs ys zs : List Text) → xs ++ ys ≡ xs ++ zs → ys ≡ zs
append-cancel_left [] ys zs e = e
append-cancel_left (x ∷ xs) ys zs e = append-cancel_left xs ys zs (cc e)

module _ (p : Text) (ps : List Text) (clean : All IsClean (p ∷ ps)) where
  -- Where the bytes of a hash, and the list of its files, come to lie.
  abbrev pub cas_at : Text → Text
  cas_at h = path_of ((p ∷ ps) ++ cas_parts h)

  abbrev pub json_at : Text → Text
  json_at h = path_of ((p ∷ ps) ++ json_parts h)

  pub cas-IsClean : (h : Text) → IsDigest h → All IsClean (cas_parts h)
  cas-IsClean h d = cas_parts-IsClean h (omega (arith, d.size)) d.no_slash

  same_parts :
      (xs ys : List Text)
      → All IsClean xs
      → All IsClean ys
      → path_of ((p ∷ ps) ++ xs) ≡ path_of ((p ∷ ps) ++ ys)
      → xs ≡ ys
  same_parts xs ys hx hy e = append-cancel_left (p ∷ ps) xs ys (
      path_of_injective ((p ∷ ps) ++ xs) ((p ∷ ps) ++ ys) (All-append IsClean (p ∷ ps) xs clean hx)
        (All-append IsClean (p ∷ ps) ys clean hy) e)

  pub cas_apart : (h k : Text) → IsDigest h → IsDigest k → h ≢ k → cas_at h ≢ cas_at k
  cas_apart h k dh dk n e =
      n (cc (same_parts (cas_parts h) (cas_parts k) (cas-IsClean h dh) (cas-IsClean k dk) e))

  pub mixed_apart : (h k : Text) → IsDigest h → IsDigest k → cas_at h ≢ json_at k
  mixed_apart h k dh dk e =
      let parts =
        same_parts (cas_parts h) (json_parts k) (cas-IsClean h dh) (json_parts-IsClean k dk) e in
      let same : h ≡ k ++ codes ".json" = cc parts in
      absurd (omega (arith, ap length same, length-append k (codes ".json"), dh.size, dk.size))

  pub json_apart : (h k : Text) → IsDigest h → IsDigest k → h ≢ k → json_at h ≢ json_at k
  json_apart h k dh dk n e =
      let parts =
        same_parts (json_parts h) (json_parts k) (json_parts-IsClean h dh) (json_parts-IsClean k dk)
          e in
      let same : h ++ codes ".json" ≡ k ++ codes ".json" = cc parts in
      n (append-cancel_right h k (codes ".json") (dh.size ∙ sym dk.size) same)
