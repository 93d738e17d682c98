-- ===== src/Transfer/Contained.antt =====
-- src/bin/lib/transfer.js: where an archive is extracted to.
use caskfs.Base.{◌≡◌, ◌≢◌, refl, sym, ap, ap₂, ◌∙◌, true, ◌==◌, arith}
use caskfs.Base.{nat_eq, list_eq, List, [], ◌∷◌, ◌++◌, ◌⊎◌, inl, inr, Bool-cases, subst}
use caskfs.Base.Dict.{lookup, lookup-insert}
use caskfs.Base.Text.{Text}
use caskfs.Base.Exec.{Result, ok, err, Exec, and_then, for_each}
use caskfs.Paths.{slash}
use caskfs.Transfer.Extract.{
  Disk, TarEntry, Content, directory, other, file, put_content, is_inside,
}
use caskfs.Transfer.Extract.{starts_with, extract_entry, extract_archive, resolve}
use caskfs.Transfer.Extract.{destination, TarError}

-- The location itself, or a path below it.
abbrev pub IsInside : Text → Text → Type 0
IsInside root path = (path ≡ root) ⊎ ((rest : Text) × (path ≡ root ++ slash ∷ rest))

past :
    (root path : Text)
    → starts_with (root ++ slash ∷ []) path ≡ true
    → (rest : Text) × (path ≡ root ++ slash ∷ rest)
past [] [] h = absurd (cc h)
past [] (d ∷ t) h = (t, ap (λ c. c ∷ t) (ground (arith, h)))
past (c ∷ root) [] h = absurd (cc h)
past (c ∷ root) (d ∷ t) h = elim (Bool-cases (c == d)) [
  | inl same ↦
      let (rest, e) = past root t (ground (arith, h)) in
      (rest, ap₂ (λ x y. x ∷ y) (ground (arith, same)) e)
  | inr differ ↦ absurd (ground (arith, h, differ))
]

is_inside-IsInside : (root path : Text) → is_inside root path ≡ true → IsInside root path
is_inside-IsInside root path h = elim (Bool-cases (starts_with (root ++ slash ∷ []) path)) [
  | inl below ↦ inr (past root path below)
  | inr above ↦ inl (ground (arith, h, above))
]

put_outside :
    (dest path : Text) (c : Content) (disk : Disk)
    → path ≢ dest
    → lookup path (put_content dest c disk) ≡ lookup path disk
put_outside dest path directory disk n = refl
put_outside dest path other disk n = refl
put_outside dest path (file b) disk n = ground (arith, lookup-insert path dest b disk, n)

entry_outside :
    (location path : Text) (e : TarEntry) (disk : Disk)
    → ¬ IsInside (resolve location) path
    → lookup path (extract_entry location e disk).1 ≡ lookup path disk
unfolding extract_entry
entry_outside location path e disk out =
    let dest = destination location e.name in
    elim (Bool-cases (is_inside (resolve location) dest)) [
      | inl inside ↦ rw inside (
          put_outside dest path e.content disk (λ same. out (
            subst (IsInside (resolve location)) (sym same)
              (is_inside-IsInside (resolve location) dest inside))))
      | inr outside ↦ rw outside refl
    ]

then_outside :
    (path : Text) (r : Result TarError Unit) (m : Exec TarError Disk Unit) (disk : Disk)
    → lookup path (m disk).1 ≡ lookup path disk
    → lookup path (and_then r (λ u. m) disk).1 ≡ lookup path disk
then_outside path (ok u) m disk h = h
then_outside path (err x) m disk h = refl

rest_outside :
    (location path : Text) (es : List TarEntry) (disk : Disk)
    → ¬ IsInside (resolve location) path
    → lookup path (for_each (extract_entry location) es disk).1 ≡ lookup path disk
rest_outside location path [] disk out = refl
rest_outside location path (e ∷ es) disk out =
    let (r, next) = extract_entry location e disk in
    then_outside path r (for_each (extract_entry location) es) next
      (rest_outside location path es next out)
    ∙ entry_outside location path e disk out

-- Whatever names the entries of an archive have, and whether its extraction succeeds or is refused:
-- no file changes but at the location and below it.
pub extract_archive-IsContained :
    (location path : Text) (es : List TarEntry) (disk : Disk)
    → ¬ IsInside (resolve location) path
    → lookup path (extract_archive location es disk).1 ≡ lookup path disk
unfolding extract_archive
extract_archive-IsContained location path es disk out = rest_outside location path es disk out
