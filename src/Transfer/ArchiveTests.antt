-- ===== src/Transfer/ArchiveTests.antt =====
-- src/lib/transfer.js and src/bin/lib/transfer.js: an export, an extraction, and the theorems at them.
use caskfs.Base.{ap, ◌++◌, ℕ, ◌≡◌, ◌≢◌, ◌↔◌, refl, true, inl, inr, some}
use caskfs.Base.{List, [], ◌∷◌, All, Mem, nat_eq, list_eq, option_eq, arith}
use caskfs.Base.Dict.{lookup, insert}
use caskfs.Base.Text.{Text, codes}
use caskfs.Base.Exec.{ok, err}
use caskfs.Paths.{slash, strip, split, join, normalize}
use caskfs.Cas.{disk_path}
use caskfs.Cas.Tests.{env, digest_of-IsDigest}
use caskfs.Cas.Deleting.{IsBacked}
use caskfs.Files.Repo.{store_of}
use caskfs.Files.Sample.{repo, first}
use caskfs.Transfer.Export.{
  ViewRow, HashEntry, export_cas, clean_root, is_under, file_view, listed, like,
}
use caskfs.Transfer.Below.{IsLiteral, IsBelow, is_under-IsBelow}
use caskfs.Transfer.Listed.{IsEntry, export_cas-IsComplete}
use caskfs.Transfer.Extract.{TarEntry, file, extract_archive, extract_entry, destination}
use caskfs.Transfer.Extract.{resolve, normalize_any, strip_dots, Disk, invalid_path}
use caskfs.Transfer.Contained.{IsInside, extract_archive-IsContained}
use caskfs.Cas.{Bytes, hash_file_path}
use caskfs.Cas.Layout.{cas_parts, long-IsClean}
use caskfs.Cas.Tests.{digest_of}
use caskfs.Paths.{path_of, IsClean}
use caskfs.Transfer.Extract.{tar_entries}
use caskfs.Transfer.Places.{json_parts}
use caskfs.Transfer.Unpacked.{IsExported, extract_archive-tar_entries}

-- An export of "/a_b" takes the files of "/axb/c" as well.
wildcard_run : is_under (codes "/a_b") (codes "/axb/c") ≡ true
unfolding is_under like nat_eq list_eq
wildcard_run = refl

clean_root_run : clean_root (codes "/ab//") ≡ codes "/ab"
unfolding clean_root strip nat_eq
clean_root_run = refl

literal : (c : ℕ) → c ≢ 37 → c ≢ 95 → c ≢ 92 → IsLiteral c
literal c p u b = record { not_percent = p; not_underscore = u; not_backslash = b }

is_under-IsBelow_example :
    (is_under (codes "/ab") (codes "/ab/c") ≡ true) ↔ IsBelow (codes "/ab") (codes "/ab/c")
is_under-IsBelow_example =
    is_under-IsBelow (codes "/ab") (codes "/ab/c")
      (
        literal 47 (omega arith) (omega arith) (omega arith),
        (
          literal 97 (omega arith) (omega arith) (omega arith),
          (literal 98 (omega arith) (omega arith) (omega arith), tt),
        ),
      )
      (λ e. cc e)

repo-IsBacked : IsBacked env (store_of repo)
unfolding nat_eq list_eq lookup disk_path join
repo-IsBacked = record {
  digests = (digest_of-IsDigest first, tt);
  rows = ((digest_of-IsDigest first, refl, refl), tt);
}

export_cas-IsComplete_example :
    (es : List HashEntry) × (export_cas env (codes "/") repo ≡ ok es)
    × All (IsEntry env (clean_root (codes "/")) repo) es
    × ((v : ViewRow)
        → Mem v (listed es)
          ↔ (Mem v (file_view repo) × (is_under (clean_root (codes "/")) v.directory ≡ true)))
export_cas-IsComplete_example = export_cas-IsComplete env slash [] repo repo-IsBacked

abbrev tar : List TarEntry
tar =
    record { name = codes "../../x"; content = file (1 ∷ []) }
    ∷ record { name = codes "cas/../y/./z"; content = file (2 ∷ []) }
    ∷ record { name = codes "/etc"; content = file (3 ∷ []) }
    ∷ []

abbrev disk : Disk
disk = (codes "/x", 9 ∷ []) ∷ []

extract_run : extract_archive (codes "/tmp/a") tar disk ≡ (
  ok tt,
  (codes "/x", 9 ∷ [])
      ∷ (codes "/tmp/a/x", 1 ∷ [])
      ∷ (codes "/tmp/a/y/z", 2 ∷ [])
      ∷ (codes "/tmp/a/etc", 3 ∷ [])
      ∷ [],
)
unfolding extract_archive extract_entry destination resolve normalize_any strip_dots split join
    normalize insert nat_eq list_eq
extract_run = refl

-- The root of the disk is no location: nothing below "/" begins with "//".
root_refused :
    extract_archive (codes "/") (record { name = codes "x"; content = file [] } ∷ []) disk
    ≡ (err (invalid_path (codes "x")), disk)
unfolding extract_archive extract_entry destination resolve normalize_any strip_dots split join
    normalize insert nat_eq list_eq
root_refused = refl

x_outside : ¬ IsInside (resolve (codes "/tmp/a")) (codes "/x")
unfolding resolve split nat_eq list_eq
x_outside (inl e) = cc e
x_outside (inr (rest, e)) = cc e

extract_archive-IsContained_example :
    lookup (codes "/x") (extract_archive (codes "/tmp/a") tar disk).1 ≡ lookup (codes "/x") disk
extract_archive-IsContained_example =
    extract_archive-IsContained (codes "/tmp/a") (codes "/x") tar disk x_outside

abbrev listing : HashEntry → Bytes
listing e = e.value

abbrev start : Text → ℕ
start [] = 0
start (c ∷ t) = c

abbrev entry : Bytes → HashEntry
entry b = record {
  value = digest_of b;
  tar_base = codes "cas/" ++ hash_file_path (digest_of b);
  bytes = b;
  files = [];
}

abbrev entries : List HashEntry
entries = entry (1 ∷ []) ∷ entry (2 ∷ 3 ∷ []) ∷ []

entry-IsExported : (b : Bytes) → IsExported (entry b)
entry-IsExported b = record { digest = digest_of-IsDigest b; tar_base = refl }

place-IsClean : IsClean (codes "tmp")
place-IsClean = long-IsClean (codes "tmp") (omega arith) (ground arith)

extract_archive-tar_entries_example :
    (t : Disk) × (extract_archive (path_of (codes "tmp" ∷ [])) (tar_entries listing entries) disk
      ≡ (ok tt, t))
    × All
        (λ (e : HashEntry).
          (lookup (path_of (codes "tmp" ∷ cas_parts e.value)) t ≡ some e.bytes)
          × (lookup (path_of (codes "tmp" ∷ json_parts e.value)) t ≡ some (listing e)))
        entries
extract_archive-tar_entries_example =
    extract_archive-tar_entries (codes "tmp") [] listing entries disk (place-IsClean, tt)
      (entry-IsExported (1 ∷ []), (entry-IsExported (2 ∷ 3 ∷ []), tt))
      (((λ e. absurd (omega (arith, ap start e))), tt), (tt, tt))
