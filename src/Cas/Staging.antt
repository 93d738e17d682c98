-- ===== src/Cas/Staging.antt =====
-- src/lib/cas.js: what staging a write leaves on the disk, as src/index.js calls it.
use caskfs.Base.{ℕ, ◌≡◌, ap, Bool, true, Option-cases, inl, inr, ◌⊎◌, arith}
use caskfs.Base.{Option, none, some, nat_eq, list_eq, [], ◌∷◌, length}
use caskfs.Base.Dict.{lookup, insert, lookup-insert}
use caskfs.Base.Exec.{Result, ok, ◌>>=◌}
use caskfs.Base.Text.{Text}
use caskfs.Cas.Disk.{CasError, Bytes, Store, Io}
use caskfs.Cas.Ops.{Env, WriteInput, Staged, is_absolute, disk_path, tmp_path}
use caskfs.Cas.Ops.{hash_data, stage_write, finalize_write}
use caskfs.Cas.Layout.{IsDigest, IsUuid, IsLawful}

-- The four ways to say what to write.
pub data Source : Type 0 where
  from_payload from_stream : Bytes → Source
  from_path from_hash : Text → Source

abbrev pub input_of : Source → WriteInput
input_of (from_payload b) = record {
  hash = none;
  read_stream = none;
  read_path = none;
  payload = some b;
}
input_of (from_stream b) = record {
  hash = none;
  read_stream = some b;
  read_path = none;
  payload = none;
}
input_of (from_path p) = record {
  hash = none;
  read_stream = none;
  read_path = some p;
  payload = none;
}
input_of (from_hash h) = record {
  hash = some h;
  read_stream = none;
  read_path = none;
  payload = none;
}

-- The two calls that a write makes of the store, with the N-Quads that were parsed in between.
unfoldable pub put : Env → Text → WriteInput → Option Bytes → Io Bool
put env uuid input nquads = do
  staged ← stage_write env uuid input
  finalize_write env staged.tmp_file staged.hash_file nquads

-- A file under the path of a hash has that hash.
abbrev pub IsAddressed : Env → Store → Type 0
IsAddressed env s =
    (h : Text) (b : Bytes)
    → IsDigest h
    → lookup (disk_path env h) s.disk ≡ some b
    → env.sha256 b ≡ h

-- The bytes that a source stands for.
abbrev pub Provides : Env → Store → Source → Bytes → Type 0
Provides env s (from_payload b) c = b ≡ c
Provides env s (from_stream b) c = b ≡ c
Provides env s (from_path p) c = (is_absolute p ≡ true) × (lookup p s.disk ≡ some c)
Provides env s (from_hash h) c = IsDigest h × (lookup (disk_path env h) s.disk ≡ some c)

module _ {env : Env} (w : IsLawful env) (u : Text) (uuid : IsUuid u) (s : Store) (b : Bytes) where
  abbrev pub tmp : Text
  tmp = tmp_path env u

  abbrev pub home : Text
  home = disk_path env (env.sha256 b)

  abbrev pub staged : Option Text → ℕ → Staged
  staged tmp_file size = record {
    hash_value = env.sha256 b;
    digests = hash_data env b;
    tmp_file = tmp_file;
    size = size;
    hash_file = home;
  }

  -- The bytes are in the temporary file, or there is none and the store has their hash.
  abbrev pub IsStaged : Result CasError Staged × Store → Type 0
  IsStaged r =
      (r ≡ (ok (staged (some tmp) (length b)), record s { disk = insert tmp b s.disk }))
      ⊎ ((c : Bytes) × (lookup home s.disk ≡ some c) × (r ≡ (ok (staged none (length c)), s)))

  pub stage_payload : IsStaged (stage_write env u (input_of (from_payload b)) s)
  unfolding stage_write
  stage_payload = inl (ground (arith, lookup-insert tmp tmp b s.disk))

  pub stage_stream : IsStaged (stage_write env u (input_of (from_stream b)) s)
  unfolding stage_write
  stage_stream = inl (ground (arith, lookup-insert tmp tmp b s.disk))

  pub stage_stored :
      (p : Text) (c : Bytes)
      → is_absolute p ≡ true
      → lookup p s.disk ≡ some b
      → lookup tmp s.disk ≡ none
      → lookup home s.disk ≡ some c
      → stage_write env u (input_of (from_path p)) s ≡ (ok (staged none (length c)), s)
  unfolding stage_write
  stage_stored [] c a e f k = cc
  stage_stored (x ∷ p) c a e f k = ground arith

  pub stage_copied :
      (p : Text)
      → is_absolute p ≡ true
      → lookup p s.disk ≡ some b
      → lookup home s.disk ≡ none
      → stage_write env u (input_of (from_path p)) s
        ≡ (ok (staged (some tmp) (length b)), record s { disk = insert tmp b s.disk })
  unfolding stage_write
  stage_copied [] a e k = cc
  stage_copied (x ∷ p) a e k = ground (arith, lookup-insert tmp tmp b s.disk)

  pub stage_path :
      (p : Text)
      → is_absolute p ≡ true
      → lookup p s.disk ≡ some b
      → lookup tmp s.disk ≡ none
      → IsStaged (stage_write env u (input_of (from_path p)) s)
  stage_path p a e f = elim (Option-cases (lookup home s.disk)) [
    | inl k ↦ inl (stage_copied p a e k)
    | inr (c, k) ↦ inr (c, k, stage_stored p c a e f k)
  ]

  pub stage_known :
      (h : Text)
      → IsAddressed env s
      → IsDigest h
      → lookup (disk_path env h) s.disk ≡ some b
      → stage_write env u (input_of (from_hash h)) s ≡ (ok (staged none (length b)), s)
  unfolding stage_write
  stage_known [] a d e = absurd (omega (arith, d.size))
  stage_known (x ∷ h) a d e =
      let same = a (x ∷ h) b d e in ground (arith, same, ap (disk_path env) same)

  pub stage_hash :
      (h : Text)
      → IsAddressed env s
      → IsDigest h
      → lookup (disk_path env h) s.disk ≡ some b
      → IsStaged (stage_write env u (input_of (from_hash h)) s)
  stage_hash h a d e =
      let same = ap (disk_path env) (a h b d e) in inr (b, rw same e, stage_known h a d e)

  pub stage :
      (src : Source)
      → IsAddressed env s
      → lookup tmp s.disk ≡ none
      → Provides env s src b
      → IsStaged (stage_write env u (input_of src) s)
  stage (from_payload c) a f e = rw e stage_payload
  stage (from_stream c) a f e = rw e stage_stream
  stage (from_path p) a f e = stage_path p e.0 e.1 f
  stage (from_hash h) a f e = stage_hash h a e.0 e.1

abbrev pub or_bytes : Option Bytes → Bytes → Bytes
or_bytes none b = b
or_bytes (some c) b = c
