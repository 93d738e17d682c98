-- ===== src/Cas/Tests.antt =====
-- src/lib/cas.js: a store under /cask with a hash function that goes by the length, runs of it, and
-- the theorems at them.
use caskfs.Base.{
  ℕ, zero, suc, ◌+◌, ◌≡◌, ◌≢◌, refl, false, not, none, some, is_some, nat_eq, list_eq,
}
use caskfs.Base.{[], ◌∷◌, All, replicate, length, arith}
use caskfs.Base.Dict.{lookup, insert, erase}
use caskfs.Base.Exec.{ok}
use caskfs.Base.Text.{Text, codes}
use caskfs.Paths.{slash, NoSlash, IsClean, join, basename}
use caskfs.Cas.Disk.{Bytes, Store}
use caskfs.Cas.Ops.{Env, disk_path, quad_path, tmp_path, stage_write, finalize_write, read, delete}
use caskfs.Cas.Ops.{delete_unused_hashes}
use caskfs.Cas.Layout.{IsDigest, IsUuid, IsLawful}
use caskfs.Cas.Staging.{from_payload, input_of, put, IsAddressed}
use caskfs.Cas.Writing.{after_put, put_lem, put-IsAddressed}
use caskfs.Cas.Writing.{read-put}
use caskfs.Cas.Deleting.{IsBacked, delete-IsBacked}
use caskfs.Cas.Sweeping.{IsGone, sweep_lem}

abbrev pub digest_of : Bytes → Text
digest_of b = replicate 64 (length b + 97)

abbrev pub env : Env
env = record { root_dir = codes "/cask"; sha256 = digest_of; md5 = digest_of }

NoSlash-replicate : (n c : ℕ) → c ≢ slash → NoSlash (replicate n c)
NoSlash-replicate zero c h = tt
NoSlash-replicate (suc n) c h = (h, NoSlash-replicate n c h)

pub digest_of-IsDigest : (b : Bytes) → IsDigest (digest_of b)
digest_of-IsDigest b = record {
  size = refl;
  no_slash = NoSlash-replicate 64 (length b + 97) (omega arith);
}

root-IsClean : IsClean (codes "cask")
root-IsClean = record {
  some_text = λ e. cc;
  no_slash = ground arith;
  not_dot = λ e. cc;
  not_dots = λ e. cc;
}

pub env-IsLawful : IsLawful env
env-IsLawful = record {
  root = codes "cask" ∷ [];
  root_dir = refl;
  root_IsClean = (root-IsClean, tt);
  digest = digest_of-IsDigest;
}

abbrev pub uuid : Text
uuid = replicate 36 97

pub uuid-IsUuid : IsUuid uuid
uuid-IsUuid = record { size = refl; no_slash = NoSlash-replicate 36 97 (omega arith) }

abbrev empty : Store
empty = record { disk = []; hashes = []; files = [] }

abbrev content : Bytes
content = 1 ∷ 2 ∷ 3 ∷ []

empty-IsAddressed : IsAddressed env empty
unfolding lookup
empty-IsAddressed h b d e = cc

empty-fresh : lookup (tmp_path env uuid) empty.disk ≡ none
unfolding lookup
empty-fresh = refl

abbrev written : Store
written = (put env uuid (input_of (from_payload content)) (some (7 ∷ [])) empty).1

disk_path_run : disk_path env (codes "abcdefgh") ≡ codes "/cask/cas/abc/def/abcdefgh"
unfolding disk_path nat_eq list_eq join
disk_path_run = refl

-- The file and its quads are there and the temporary file is not.
put_run :
    (lookup (disk_path env (digest_of content)) written.disk ≡ some content)
    × (lookup (quad_path env (digest_of content)) written.disk ≡ some (7 ∷ []))
    × (lookup (tmp_path env uuid) written.disk ≡ none)
unfolding put stage_write finalize_write disk_path quad_path tmp_path lookup insert erase nat_eq
    list_eq basename join
put_run = (refl, refl, refl)

put_lem_example :
    ((put env uuid (input_of (from_payload content)) none empty).0
      ≡ ok (not (is_some (lookup (disk_path env (digest_of content)) empty.disk))))
    × ((p : Text)
        → lookup p (put env uuid (input_of (from_payload content)) none empty).1.disk
          ≡ after_put env uuid content none empty.disk p)
put_lem_example =
    put_lem env-IsLawful uuid empty (from_payload content) content none uuid-IsUuid
      empty-IsAddressed empty-fresh refl

put-IsAddressed_example : IsAddressed env written
put-IsAddressed_example =
    put-IsAddressed env-IsLawful uuid empty (from_payload content) content (some (7 ∷ []))
      uuid-IsUuid empty-IsAddressed empty-fresh refl

read-put_example :
    (r : Bytes) × ((read env (digest_of content) written).0 ≡ ok r)
    × (digest_of r ≡ digest_of content)
    × (lookup (disk_path env (digest_of content)) empty.disk ≡ none → r ≡ content)
    × ((h : Text)
        → IsDigest h
        → h ≢ digest_of content
        → (read env h written).0 ≡ (read env h empty).0)
read-put_example =
    read-put env-IsLawful uuid empty (from_payload content) content (some (7 ∷ [])) uuid-IsUuid
      empty-IsAddressed empty-fresh refl

-- Two hashes on the disk; a file has the first.
abbrev used : Store
used = record {
  disk =
      (disk_path env (digest_of content), content)
      ∷ (disk_path env (digest_of (1 ∷ [])), 1 ∷ [])
      ∷ [];
  hashes = digest_of content ∷ digest_of (1 ∷ []) ∷ [];
  files = record { file_id = 1; hash = digest_of content } ∷ [];
}

used-IsBacked : IsBacked env used
unfolding lookup disk_path nat_eq list_eq join
used-IsBacked = record {
  digests = (digest_of-IsDigest content, (digest_of-IsDigest (1 ∷ []), tt));
  rows = ((digest_of-IsDigest content, refl, refl), tt);
}

delete-IsBacked_example : IsBacked env (delete env (digest_of (1 ∷ [])) false used).1
delete-IsBacked_example =
    delete-IsBacked env-IsLawful (digest_of (1 ∷ [])) false used (digest_of-IsDigest (1 ∷ []))
      used-IsBacked

sweep_lem_example :
    ((delete_unused_hashes env [] 5 used).0 ≡ ok (digest_of (1 ∷ []) ∷ []))
    × All (IsGone env (delete_unused_hashes env [] 5 used).1) (digest_of (1 ∷ []) ∷ [])
    × IsBacked env (delete_unused_hashes env [] 5 used).1
unfolding nat_eq list_eq
sweep_lem_example = sweep_lem env-IsLawful 5 used used-IsBacked
