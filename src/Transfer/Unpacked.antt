-- ===== src/Transfer/Unpacked.antt =====
-- src/lib/transfer.js and src/bin/lib/transfer.js: every entry of an exported archive is there once it
-- is extracted.
use caskfs.Base.{◌≡◌, ◌≢◌, refl, sym, ap, ◌∙◌, arith, nat_eq, list_eq}
use caskfs.Base.{List, [], ◌∷◌, ◌++◌, All, take, drop, some}
use caskfs.Base.Dict.{lookup, insert, lookup-insert}
use caskfs.Base.Text.{Text, codes}
use caskfs.Base.Exec.{ok, for_each}
use caskfs.Paths.{path_of, IsClean}
use caskfs.Cas.{Bytes, hash_file_path}
use caskfs.Cas.Layout.{IsDigest, cas_parts}
use caskfs.Transfer.Export.{HashEntry}
use caskfs.Transfer.Extract.{Disk, tar_entries, extract_entry, extract_archive}
use caskfs.Transfer.Extracted.{extract_entry-clean}
use caskfs.Transfer.Places.{
  json_parts, json_parts-IsClean, json_name, cas_name, cas_at, json_at, cas-IsClean, cas_apart,
  mixed_apart, json_apart,
}

-- An entry as an export makes it.
pub record IsExported (e : HashEntry) : Type 0 where
  pub digest : IsDigest e.value
  pub tar_base : e.tar_base ≡ codes "cas/" ++ hash_file_path e.value

abbrev pub HaveApartHashes : List HashEntry → Type 0
HaveApartHashes [] = Unit
HaveApartHashes (e ∷ es) = All (λ (d : HashEntry). e.value ≢ d.value) es × HaveApartHashes es

module _ (p : Text) (ps : List Text) (clean : All IsClean (p ∷ ps)) where
  abbrev AreThere : (HashEntry → Bytes) → Disk → List HashEntry → Type 0
  AreThere json disk es =
      All
        (λ (e : HashEntry).
          (lookup (cas_at p ps clean e.value) disk ≡ some e.bytes)
          × (lookup (json_at p ps clean e.value) disk ≡ some (json e)))
        es

  two_put : (json : HashEntry → Bytes) (e : HashEntry) (disk : Disk) → Disk
  two_put json e disk =
      insert (json_at p ps clean e.value) (json e) (insert (cas_at p ps clean e.value) e.bytes disk)

  two_others :
      (json : HashEntry → Bytes) (e : HashEntry) (disk : Disk) (k : Text)
      → k ≢ cas_at p ps clean e.value
      → k ≢ json_at p ps clean e.value
      → lookup k (two_put json e disk) ≡ lookup k disk
  unfolding two_put
  two_others json e disk k m n =
      let inner = insert (cas_at p ps clean e.value) e.bytes disk in
      ground (
        arith,
        lookup-insert k (json_at p ps clean e.value) (json e) inner,
        lookup-insert k (cas_at p ps clean e.value) e.bytes disk,
        m,
        n,
      )

  -- The two writes of an entry, and what they leave.
  two_there :
      (json : HashEntry → Bytes) (e : HashEntry) (disk : Disk)
      → IsDigest e.value
      → (lookup (cas_at p ps clean e.value) (two_put json e disk) ≡ some e.bytes)
        × (lookup (json_at p ps clean e.value) (two_put json e disk) ≡ some (json e))
  unfolding two_put
  two_there json e disk d =
      let inner = insert (cas_at p ps clean e.value) e.bytes disk in
      let apart = mixed_apart p ps clean e.value e.value d d in
      (
        ground (
          arith,
          lookup-insert (cas_at p ps clean e.value) (json_at p ps clean e.value) (json e) inner,
          lookup-insert (cas_at p ps clean e.value) (cas_at p ps clean e.value) e.bytes disk,
          apart,
        ),
        ground (
          arith,
          lookup-insert (json_at p ps clean e.value) (json_at p ps clean e.value) (json e) inner,
        ),
      )

  two_run :
      (json : HashEntry → Bytes) (e : HashEntry) (es : List HashEntry) (disk : Disk)
      → IsExported e
      → for_each (extract_entry (path_of (p ∷ ps))) (tar_entries json (e ∷ es)) disk
        ≡ for_each (extract_entry (path_of (p ∷ ps))) (tar_entries json es) (two_put json e disk)
  unfolding tar_entries two_put
  two_run json e es disk h =
      let v = e.value in
      rw
        (
          extract_entry-clean p ps (take 3 v) (take 3 (drop 3 v) ∷ v ∷ []) e.tar_base e.bytes disk
              clean (cas-IsClean p ps clean v h.digest) (h.tar_base ∙ cas_name v),
          extract_entry-clean p ps (take 3 v) (take 3 (drop 3 v) ∷ (v ++ codes ".json") ∷ [])
              (e.tar_base ++ codes ".json") (json e) (insert (cas_at p ps clean v) e.bytes disk)
              clean (json_parts-IsClean v h.digest)
              (ap (λ t. t ++ codes ".json") h.tar_base ∙ json_name v),
        )
        refl

  cas_free :
      (e : HashEntry) (es : List HashEntry)
      → IsExported e
      → All IsExported es
      → All (λ (d : HashEntry). e.value ≢ d.value) es
      → All
          (λ (d : HashEntry).
            (cas_at p ps clean e.value ≢ cas_at p ps clean d.value)
            × (cas_at p ps clean e.value ≢ json_at p ps clean d.value))
          es
  cas_free e [] h a n = tt
  cas_free e (d ∷ es) h a n = (
    (
      cas_apart p ps clean e.value d.value h.digest a.0.digest n.0,
      mixed_apart p ps clean e.value d.value h.digest a.0.digest,
    ),
    cas_free e es h a.1 n.1,
  )

  json_free :
      (e : HashEntry) (es : List HashEntry)
      → IsExported e
      → All IsExported es
      → All (λ (d : HashEntry). e.value ≢ d.value) es
      → All
          (λ (d : HashEntry).
            (json_at p ps clean e.value ≢ cas_at p ps clean d.value)
            × (json_at p ps clean e.value ≢ json_at p ps clean d.value))
          es
  json_free e [] h a n = tt
  json_free e (d ∷ es) h a n = (
    (
      (λ q. mixed_apart p ps clean d.value e.value a.0.digest h.digest (sym q)),
      json_apart p ps clean e.value d.value h.digest a.0.digest n.0,
    ),
    json_free e es h a.1 n.1,
  )

  all_there :
      (json : HashEntry → Bytes) (es : List HashEntry) (disk : Disk)
      → All IsExported es
      → HaveApartHashes es
      → (t : Disk) × (for_each (extract_entry (path_of (p ∷ ps))) (tar_entries json es) disk
          ≡ (ok tt, t))
        × AreThere json t es
        × ((k : Text)
            → All
                (λ (e : HashEntry).
                  (k ≢ cas_at p ps clean e.value) × (k ≢ json_at p ps clean e.value))
                es
            → lookup k t ≡ lookup k disk)
  unfolding tar_entries
  all_there json [] disk h apart = (disk, refl, tt, (λ k a. refl))
  all_there json (e ∷ es) disk h apart =
      let disk1 = two_put json e disk in
      let (t, run, there, others) = all_there json es disk1 h.1 apart.1 in
      let here = two_there json e disk h.0.digest in
      (
        t,
        two_run json e es disk h.0 ∙ run,
        (
          (
            others (cas_at p ps clean e.value) (cas_free e es h.0 h.1 apart.0) ∙ here.0,
            others (json_at p ps clean e.value) (json_free e es h.0 h.1 apart.0) ∙ here.1,
          ),
          there,
        ),
        (λ k a. others k a.1 ∙ two_others json e disk k a.0.0 a.0.1),
      )

-- The archive of an export, whose hashes are different digests, extracted below any directory of clean
-- parts but the root: the extraction succeeds, and below "cas" lie the bytes of each hash, and beside
-- them the list of its files, whatever was there before.
pub extract_archive-tar_entries :
    (p : Text) (ps : List Text) (json : HashEntry → Bytes) (es : List HashEntry) (disk : Disk)
    → (clean : All IsClean (p ∷ ps)) → All IsExported es
    → HaveApartHashes es
    → (t : Disk) × (extract_archive (path_of (p ∷ ps)) (tar_entries json es) disk ≡ (ok tt, t))
      × All
          (λ (e : HashEntry).
            (lookup (path_of ((p ∷ ps) ++ cas_parts e.value)) t ≡ some e.bytes)
            × (lookup (path_of ((p ∷ ps) ++ json_parts e.value)) t ≡ some (json e)))
          es
unfolding extract_archive
extract_archive-tar_entries p ps json es disk clean h apart =
    let (t, run, there, others) = all_there p ps clean json es disk h apart in (t, run, there)
