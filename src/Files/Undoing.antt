-- ===== src/Files/Undoing.antt =====
-- src/index.js: a write that fails leaves the tables as they were.
use caskfs.Base.{◌≡◌, refl, sym, ap, ◌∙◌, Bool, true, false, not, is_some}
use caskfs.Base.{inl, inr, Bool-cases, arith, nat_eq, list_eq, ◌==◌, []}
use caskfs.Base.Text.{Text}
use caskfs.Base.Exec.{Result, ok, err, and_then}
use caskfs.Acl.Db.{Permission}
use caskfs.Acl.State.{Config}
use caskfs.Files.Repo.{FsError, Repo, Host, Request, can_access}
use caskfs.Files.Rows.{file_at, key_of}
use caskfs.Files.Write.{Written, Work, conclude, rolled_back, no_actions, write_body, write}

-- No error was thrown, and none stands in the context that came back.
abbrev pub ended_well : Result FsError Written → Bool
ended_well (ok w) = not (is_some w.error)
ended_well (err e) = false

file_at-rolled_back :
    (start r : Repo) (p : Text) → file_at (rolled_back start r) p ≡ file_at start p
unfolding file_at key_of
file_at-rolled_back start r p = refl

file_at-can_access :
    (cfg : Config) (a : Permission) (q : Request) (r : Repo) (p : Text)
    → file_at (can_access cfg a q r).1 p ≡ file_at r p
unfolding file_at key_of can_access
file_at-can_access cfg a q r p = refl

file_at-conclude :
    (start : Repo) (x : Result FsError Bool) (w : Work) (p : Text)
    → ended_well (conclude start x w).0 ≡ false
    → file_at (conclude start x w).1 p ≡ file_at start p
file_at-conclude start (ok copied) w p h = absurd (ground arith)
file_at-conclude start (err e) w p h = file_at-rolled_back start w.repo p

abbrev transact : Host → Request → Repo → Result FsError Written × Repo
transact host q r =
    let x = write_body host q (record { repo = r; actions = no_actions }) in conclude r x.0 x.1

after_check :
    (host : Host) (r : Repo) (p : Text) (x : Result FsError Request × Repo)
    → file_at x.1 p ≡ file_at r p
    → let y = and_then x.0 (transact host) x.1 in
      ended_well y.0 ≡ false → file_at y.1 p ≡ file_at r p
after_check host r p (ok q, s) e h =
    let x = write_body host q (record { repo = s; actions = no_actions }) in
    file_at-conclude s x.0 x.1 p h ∙ e
after_check host r p (err error, s) e h = e

write_checked :
    (host : Host) (q : Request) (r : Repo)
    → (q.file_path == []) ≡ false
    → write host q r
      ≡ (let x = can_access host.config Permission.write q r in and_then x.0 (transact host) x.1)
unfolding write
write_checked host q r path = ground (arith, path)

write_pathless :
    (host : Host) (q : Request) (r : Repo) → (q.file_path == []) ≡ true → (write host q r).1 ≡ r
unfolding write
write_pathless host q r path = ground (arith, path)

-- If a write throws, or answers with an error, every path has the file that it had, with the same
-- hash, metadata and partition keys.
pub file_at-write :
    (host : Host) (q : Request) (r : Repo) (p : Text)
    → ended_well (write host q r).0 ≡ false
    → file_at (write host q r).1 p ≡ file_at r p
file_at-write host q r p h = elim (Bool-cases (q.file_path == [])) [
  | inl empty ↦ ap (λ s. file_at s p) (write_pathless host q r empty)
  | inr path ↦
      let e = write_checked host q r path in
      ap (λ y. file_at y.1 p) e
      ∙ after_check host r p (can_access host.config Permission.write q r)
          (file_at-can_access host.config Permission.write q r p)
          (sym (ap (λ y. ended_well y.0) e) ∙ h)
]
