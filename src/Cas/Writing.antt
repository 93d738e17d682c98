-- ===== src/Cas/Writing.antt =====
-- src/lib/cas.js: what a write leaves on the disk, and what reading yields after it.
use caskfs.Base.{◌≡◌, ◌≢◌, sym, ◌∙◌, ap, true, false, not, Option-cases, inl, inr, arith}
use caskfs.Base.{◌=?◌, Option, none, some, is_some, ◌==◌, nat_eq, list_eq, if◌then◌else◌, [], ◌∷◌}
use caskfs.Base.Dict.{Dict, lookup, insert, lookup-insert, lookup-erase}
use caskfs.Base.Exec.{ok}
use caskfs.Base.Text.{Text}
use caskfs.Paths.{basename}
use caskfs.Cas.Disk.{Bytes, Store}
use caskfs.Cas.Ops.{Env, read, truthy, disk_path, quad_path, tmp_path}
use caskfs.Cas.Ops.{finalize_write}
use caskfs.Cas.Layout.{
  IsDigest, IsUuid, IsLawful, basename-disk_path, disk_path_injective, tmp_path-ne-disk_path,
}
use caskfs.Cas.Layout.{tmp_path-ne-quad_path, quad_path-ne-disk_path}
use caskfs.Cas.Staging.{Source, input_of, put, IsAddressed, Provides, stage, or_bytes}

-- New quads are written next to a new file, and next to a stored one only if it has none.
abbrev pub quads_after : Option Bytes → Option Bytes → Option Bytes → Option Bytes
quads_after stored none old = old
quads_after none (some q) old = some q
quads_after (some c) (some q) old = some (or_bytes old q)

-- The disk after a write of the bytes `b`, path by path.
unfoldable pub after_put : Env → Text → Bytes → Option Bytes → Dict Text Bytes → Text → Option Bytes
after_put env u b nquads d p =
    let home = disk_path env (env.sha256 b) in
    let quad = quad_path env (env.sha256 b) in
    if p == tmp_path env u
    then none
    else if p == home
    then some (or_bytes (lookup home d) b)
    else if p == quad
    then quads_after (lookup home d) (truthy nquads) (lookup quad d)
    else lookup p d

module _ {env : Env} (w : IsLawful env) (u : Text) (uuid : IsUuid u) (b : Bytes) (p : Text) where
  abbrev place : Text
  place = disk_path env (env.sha256 b)

  abbrev quads : Text
  quads = quad_path env (env.sha256 b)

  abbrev scratch : Text
  scratch = tmp_path env u

  abbrev named : basename place ≡ env.sha256 b
  named = basename-disk_path w (env.sha256 b) (w.digest b)

  apart : (scratch ≢ place) × (scratch ≢ quads) × (quads ≢ place)
  apart = (
    tmp_path-ne-disk_path w u (env.sha256 b) uuid (w.digest b),
    tmp_path-ne-quad_path w u (env.sha256 b) uuid (w.digest b),
    quad_path-ne-disk_path w (env.sha256 b) (env.sha256 b) (w.digest b) (w.digest b),
  )

  module _ (s : Store) where
    abbrev d1 : Dict Text Bytes
    d1 = insert scratch b s.disk

    abbrev d2 : Dict Text Bytes
    d2 = insert place b d1

  -- The temporary file is there and the hash file is not.
  finalize_new :
      (s : Store) (nquads : Option Bytes)
      → lookup place s.disk ≡ none
      → let t = record s { disk = insert scratch b s.disk } in
        let r = finalize_write env (some scratch) place nquads t in
        (r.0 ≡ ok true) × (lookup p r.1.disk ≡ after_put env u b nquads s.disk p)
  unfolding finalize_write after_put
  finalize_new s none k = ground (
    arith,
    apart,
    lookup-insert place scratch b s.disk,
    lookup-insert scratch scratch b s.disk,
    lookup-insert scratch place b (d1 s),
    lookup-erase p scratch (d2 s),
    lookup-insert p place b (d1 s),
    lookup-insert p scratch b s.disk,
  )
  finalize_new s (some []) k = ground (
    arith,
    apart,
    lookup-insert place scratch b s.disk,
    lookup-insert scratch scratch b s.disk,
    lookup-insert scratch place b (d1 s),
    lookup-erase p scratch (d2 s),
    lookup-insert p place b (d1 s),
    lookup-insert p scratch b s.disk,
  )
  finalize_new s (some (c ∷ q)) k = ground (
    arith,
    apart,
    named,
    lookup-insert place scratch b s.disk,
    lookup-insert scratch scratch b s.disk,
    lookup-insert scratch place b (d1 s),
    lookup-insert scratch quads (c ∷ q) (d2 s),
    lookup-erase p scratch (insert quads (c ∷ q) (d2 s)),
    lookup-insert p quads (c ∷ q) (d2 s),
    lookup-insert p place b (d1 s),
    lookup-insert p scratch b s.disk,
  )

  -- Both are there.
  finalize_stored :
      (s : Store) (c : Bytes) (nquads : Option Bytes)
      → lookup place s.disk ≡ some c
      → let t = record s { disk = insert scratch b s.disk } in
        let r = finalize_write env (some scratch) place nquads t in
        (r.0 ≡ ok false) × (lookup p r.1.disk ≡ after_put env u b nquads s.disk p)
  unfolding finalize_write after_put
  finalize_stored s c none k = ground (
    arith,
    apart,
    lookup-insert place scratch b s.disk,
    lookup-insert scratch scratch b s.disk,
    lookup-erase p scratch (d1 s),
    lookup-insert p scratch b s.disk,
  )
  finalize_stored s c (some []) k = ground (
    arith,
    apart,
    lookup-insert place scratch b s.disk,
    lookup-insert scratch scratch b s.disk,
    lookup-erase p scratch (d1 s),
    lookup-insert p scratch b s.disk,
  )
  finalize_stored s c (some (x ∷ q)) k = ground (
    arith,
    apart,
    named,
    lookup-insert place scratch b s.disk,
    lookup-insert quads scratch b s.disk,
    lookup-insert scratch scratch b s.disk,
    lookup-insert scratch quads (x ∷ q) (d1 s),
    lookup-erase p scratch (insert quads (x ∷ q) (d1 s)),
    lookup-erase p scratch (d1 s),
    lookup-insert p quads (x ∷ q) (d1 s),
    lookup-insert p scratch b s.disk,
  )

  -- Only the hash file is there.
  pub finalize_linked :
      (s : Store) (c : Bytes) (nquads : Option Bytes)
      → lookup place s.disk ≡ some c
      → lookup scratch s.disk ≡ none
      → let r = finalize_write env none place nquads s in
        (r.0 ≡ ok (not (is_some (lookup place s.disk))))
        × (lookup p r.1.disk ≡ after_put env u b nquads s.disk p)
  unfolding finalize_write after_put
  finalize_linked s c none k f = ground (arith, apart)
  finalize_linked s c (some []) k f = ground (arith, apart)
  finalize_linked s c (some (x ∷ q)) k f =
      ground (arith, apart, named, lookup-insert p quads (x ∷ q) s.disk)

  pub finalize_staged :
      (s : Store) (nquads : Option Bytes)
      → let t = record s { disk = insert scratch b s.disk } in
        let r = finalize_write env (some scratch) place nquads t in
        (r.0 ≡ ok (not (is_some (lookup place s.disk))))
        × (lookup p r.1.disk ≡ after_put env u b nquads s.disk p)
  finalize_staged s nquads = elim (Option-cases (lookup place s.disk)) [
    | inl k ↦ rw k (finalize_new s nquads k)
    | inr (c, k) ↦ rw k (finalize_stored s c nquads k)
  ]

-- Whatever the source of the bytes, a write succeeds and says that it copied exactly if the hash was
-- new. Afterwards the temporary file is gone, the file of the hash holds what it held, or the
-- bytes if it was not there, its quad file is written if it was missing or the hash was new, and no
-- other file of the disk has changed.
pub put_lem :
    {env : Env} (w : IsLawful env) (u : Text) (s : Store) (src : Source) (b : Bytes)
    (nquads : Option Bytes)
    → IsUuid u
    → IsAddressed env s
    → lookup (tmp_path env u) s.disk ≡ none
    → Provides env s src b
    → ((put env u (input_of src) nquads s).0
        ≡ ok (not (is_some (lookup (disk_path env (env.sha256 b)) s.disk))))
      × ((p : Text)
          → lookup p (put env u (input_of src) nquads s).1.disk ≡ after_put env u b nquads s.disk p)
unfolding put
put_lem w u s src b nquads uuid a f e = elim (stage w u uuid s b src a f e) [
  | inl r ↦
      rw r
        ((finalize_staged w u uuid b [] s nquads).0, λ p. (finalize_staged w u uuid b p s nquads).1)
  | inr (c, k, r) ↦ rw r (
    (finalize_linked w u uuid b [] s c nquads k f).0,
    λ p. (finalize_linked w u uuid b p s c nquads k f).1,
  )
]

-- The file of the hash holds what it held, or the bytes; the files of other hashes are untouched.
module _ {env : Env} (w : IsLawful env) (u : Text) (uuid : IsUuid u) (b : Bytes)
    (nquads : Option Bytes) (d : Dict Text Bytes) where
  pub after_put-home :
      after_put env u b nquads d (disk_path env (env.sha256 b))
      ≡ some (or_bytes (lookup (disk_path env (env.sha256 b)) d) b)
  unfolding after_put
  after_put-home = ground (arith, tmp_path-ne-disk_path w u (env.sha256 b) uuid (w.digest b))

  pub after_put-other :
      (h : Text)
      → IsDigest h
      → h ≢ env.sha256 b
      → after_put env u b nquads d (disk_path env h) ≡ lookup (disk_path env h) d
  unfolding after_put
  after_put-other h digest n = ground (
    arith,
    n,
    tmp_path-ne-disk_path w u h uuid digest,
    disk_path_injective w h (env.sha256 b) digest (w.digest b),
    quad_path-ne-disk_path w (env.sha256 b) h (w.digest b) digest,
  )

module _ {env : Env} (w : IsLawful env) (u : Text) (s : Store) (src : Source) (b : Bytes)
    (nquads : Option Bytes) (uuid : IsUuid u) (a : IsAddressed env s)
    (fresh : lookup (tmp_path env u) s.disk ≡ none) (from : Provides env s src b) where
  abbrev pub after : Store
  after = (put env u (input_of src) nquads s).1

  view : (p : Text) → lookup p after.disk ≡ after_put env u b nquads s.disk p
  view = (put_lem w u s src b nquads uuid a fresh from).1

  lookup-home :
      lookup (disk_path env (env.sha256 b)) after.disk
      ≡ some (or_bytes (lookup (disk_path env (env.sha256 b)) s.disk) b)
  lookup-home = view (disk_path env (env.sha256 b)) ∙ after_put-home w u uuid b nquads s.disk

  lookup-other :
      (h : Text)
      → IsDigest h
      → h ≢ env.sha256 b
      → lookup (disk_path env h) after.disk ≡ lookup (disk_path env h) s.disk
  lookup-other h d n = view (disk_path env h) ∙ after_put-other w u uuid b nquads s.disk h d n

  -- After a write every file that lies under a hash still has that hash.
  pub put-IsAddressed : IsAddressed env after
  put-IsAddressed h c d e = elim (h =? env.sha256 b) [
    | inl same ↦ ground (
      arith,
      same,
      ap (disk_path env) same,
      lookup-home,
      a h (or_bytes (lookup (disk_path env (env.sha256 b)) s.disk) b) d,
      e,
    )
    | inr other ↦ a h c d (sym (lookup-other h d other) ∙ e)
  ]

  -- What is read back under the hash of the bytes has that hash, and is the bytes themselves if the
  -- hash was new. What is read under any other hash is what was read before.
  pub read-put :
      (r : Bytes) × ((read env (env.sha256 b) after).0 ≡ ok r)
      × (env.sha256 r ≡ env.sha256 b)
      × (lookup (disk_path env (env.sha256 b)) s.disk ≡ none → r ≡ b)
      × ((h : Text) → IsDigest h → h ≢ env.sha256 b → (read env h after).0 ≡ (read env h s).0)
  unfolding read
  read-put = (
    or_bytes (lookup (disk_path env (env.sha256 b)) s.disk) b,
    ground (arith, lookup-home),
    put-IsAddressed (env.sha256 b) _ (w.digest b) lookup-home,
    λ k. ground (arith, k),
    λ h d n. ground (arith, lookup-other h d n),
  )
