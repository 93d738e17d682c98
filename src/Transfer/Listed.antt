-- ===== src/Transfer/Listed.antt =====
-- src/lib/transfer.js: what an export holds.
use caskfs.Base.{ℕ, ◌≡◌, refl, sym, ap, ◌↔◌, true, ◌==◌, arith, nat_eq, list_eq}
use caskfs.Base.{Option, none, some, is_some, List, [], ◌∷◌, ◌++◌, All, Mem, any, keep, inl, inr}
use caskfs.Base.{
  Mem_append, Mem_of_append, Mem_keep, Mem_of_keep, any_of_Mem, Option-cases, Bool-cases, subst,
  Mem_of_any, All_at, find, contains, ◌=?◌,
}
use caskfs.Base.Dict.{lookup}
use caskfs.Base.Text.{Text, codes}
use caskfs.Base.Exec.{ok}
use caskfs.Cas.{Env, disk_path, hash_file_path}
use caskfs.Cas.Deleting.{IsBacked, IsBackedRow}
use caskfs.Acl.Db.{Directory}
use caskfs.Files.Repo.{Repo, Row, Rows, store_of, file_rows}
use caskfs.Transfer.Export.{
  ViewRow, HashEntry, is_under, is_file_of, file_view, listed, view_row, view_rows,
}
use caskfs.Transfer.Export.{
  export_each, export_cas, exported_hashes, clean_root, entry_of_hash, entry_for,
}

module _ (env : Env) (root : Text) (r : Repo) where
  -- The bytes of an entry are those under its hash, its files are the hash's below the root, and its
  -- name is the path of the hash.
  abbrev pub IsEntry : HashEntry → Type 0
  IsEntry e =
      (lookup (disk_path env e.value) r.disk ≡ some e.bytes)
      × (e.files ≡ keep (is_file_of root e.value) (file_view r))
      × (e.tar_base ≡ codes "cas/" ++ hash_file_path e.value)

  abbrev pub HasBytes : Text → Type 0
  HasBytes h = is_some (lookup (disk_path env h) r.disk) ≡ true

  files_of : Text → List ViewRow
  files_of h = keep (is_file_of root h) (file_view r)

  entry_of_hash-IsEntry :
      (h : Text)
      → HasBytes h
      → (e : HashEntry) × (entry_of_hash env root r h ≡ ok e) × IsEntry e × (e.files ≡ files_of h)
  unfolding files_of
  entry_of_hash-IsEntry h there = elim (Option-cases (lookup (disk_path env h) r.disk)) [
    | inl missing ↦ absurd (cc (ap is_some missing, there))
    | inr (b, found) ↦
        let e : HashEntry = record {
          value = h;
          tar_base = codes "cas/" ++ hash_file_path h;
          bytes = b;
          files = files_of h;
        } in
        (e, ap (λ o. entry_for h (files_of h) o (disk_path env h)) found, (found, refl, refl), refl)
  ]

  of_hash :
      (h : Text) (v : ViewRow)
      → Mem v (files_of h)
      → (v.hash ≡ h) × Mem v (file_view r) × (is_under root v.directory ≡ true)
  unfolding files_of
  of_hash h v m =
      let (there, same) = Mem_of_keep (is_file_of root h) v (file_view r) m in
      (ground (arith, same), there, ground (arith, same))

  to_hash :
      (h : Text) (v : ViewRow)
      → v.hash ≡ h
      → Mem v (file_view r)
      → is_under root v.directory ≡ true
      → Mem v (files_of h)
  unfolding files_of
  to_hash h v same there under =
      Mem_keep (is_file_of root h) v (file_view r) there (ground (arith, same, under))

  abbrev Lists : List Text → List HashEntry → Type 0
  Lists hs es =
      (v : ViewRow)
      → Mem v (listed es)
        ↔ (Mem v.hash hs × Mem v (file_view r) × (is_under root v.directory ≡ true))

  one_more :
      (h : Text) (hs : List Text) (e : HashEntry) (es : List HashEntry)
      → e.files ≡ files_of h
      → Lists hs es
      → Lists (h ∷ hs) (e ∷ es)
  one_more h hs e es same rest v = (
    (λ m. elim (Mem_of_append v e.files (listed es) m) [
      | inl here ↦
          let (q, there, under) = of_hash h v (subst (Mem v) same here) in (inl q, there, under)
      | inr later ↦ let (q, there, under) = (rest v).0 later in (inr q, there, under)
    ]),
    (λ m. Mem_append v e.files (listed es) (elim m.0 [
      | inl q ↦ inl (subst (Mem v) (sym same) (to_hash h v q m.1 m.2))
      | inr q ↦ inr ((rest v).1 (q, m.1, m.2))
    ])),
  )

  pub each_made :
      (hs : List Text)
      → All HasBytes hs
      → (es : List HashEntry) × (export_each env root r hs ≡ ok es) × All IsEntry es × Lists hs es
  unfolding export_each
  each_made [] a = ([], refl, tt, (λ v. ((λ m. absurd m), (λ m. absurd m.0))))
  each_made (h ∷ hs) a =
      let (e, made, entry, files) = entry_of_hash-IsEntry h a.0 in
      let (es, rest, entries, lists) = each_made hs a.1 in
      (e ∷ es, rw (made, rest) refl, (entry, entries), one_more h hs e es files lists)

-- A file of the view has its hash in the table, and the bytes of it on the disk.
abbrev pub IsStored : Env → Repo → ViewRow → Type 0
IsStored env r v = Mem v.hash r.hashes × (is_some (lookup (disk_path env v.hash) r.disk) ≡ true)

taken :
    (env : Env) (root : Text) (r : Repo) (h : Text)
    → All (IsStored env r) (file_view r)
    → any (is_file_of root h) (file_view r) ≡ true
    → is_some (lookup (disk_path env h) r.disk) ≡ true
taken env root r h a p =
    let (v, m, q) = Mem_of_any (is_file_of root h) (file_view r) p in
    let same : v.hash ≡ h = ground (arith, q) in
    subst (λ x. is_some (lookup (disk_path env x) r.disk) ≡ true) same
      (All_at (IsStored env r) v (file_view r) a m).1

all_taken :
    (env : Env) (root : Text) (r : Repo) (hs : List Text)
    → All (IsStored env r) (file_view r)
    → All (HasBytes env root r) (keep (λ h. any (is_file_of root h) (file_view r)) hs)
all_taken env root r [] a = tt
all_taken env root r (h ∷ hs) a = elim (Bool-cases (any (is_file_of root h) (file_view r))) [
  | inl p ↦ rw p (taken env root r h a p, all_taken env root r hs a)
  | inr p ↦ rw p (all_taken env root r hs a)
]

Mem_of_contains : (h : Text) (hs : List Text) → contains hs h ≡ true → Mem h hs
Mem_of_contains h [] p = absurd (ground (arith, p))
Mem_of_contains h (k ∷ hs) p = elim (h =? k) [
  | inl e ↦ inl e
  | inr n ↦ inr (Mem_of_contains h hs (ground (arith, n, p)))
]

row-IsStored :
    (env : Env) (r : Repo) (name : Text) (row : Row) (d : Option Directory) (rest : List ViewRow)
    → IsBackedRow env (store_of r) (record { file_id = row.file_id; hash = row.hash })
    → All (IsStored env r) rest
    → All (IsStored env r) (view_row name row d rest)
row-IsStored env r name row none rest b a = a
row-IsStored env r name row (some d) rest b a = ((Mem_of_contains row.hash r.hashes b.1, b.2), a)

rows-IsStored :
    (env : Env) (r : Repo) (dirs : List Directory) (rows : Rows)
    → All (IsBackedRow env (store_of r)) (file_rows rows)
    → All (IsStored env r) (view_rows dirs rows)
rows-IsStored env r dirs [] a = tt
rows-IsStored env r dirs (e ∷ rows) a =
    row-IsStored env r e.0.1 e.1 (find (λ (d : Directory). d.directory_id == e.0.0) dirs)
      (view_rows dirs rows) a.0 (rows-IsStored env r dirs rows a.1)

-- Where every file has its hash in the table and its content on the disk, an export succeeds. Its
-- entries hold the bytes under their hashes, and the files that it lists are exactly those under the
-- root, each one beside its hash.
pub export_cas-IsComplete :
    (env : Env) (c : ℕ) (t : Text) (r : Repo)
    → IsBacked env (store_of r)
    → (es : List HashEntry) × (export_cas env (c ∷ t) r ≡ ok es)
      × All (IsEntry env (clean_root (c ∷ t)) r) es
      × ((v : ViewRow)
          → Mem v (listed es)
            ↔ (Mem v (file_view r) × (is_under (clean_root (c ∷ t)) v.directory ≡ true)))
unfolding export_cas exported_hashes file_view
export_cas-IsComplete env c t r backed =
    let a = rows-IsStored env r r.acl.db.directories r.rows backed.rows in
    let root = clean_root (c ∷ t) in
    let hs = exported_hashes root r in
    let (es, made, entries, lists) = each_made env root r hs (all_taken env root r r.hashes a) in
    (
      es,
      made,
      entries,
      (λ v. (
        (λ m. let l = (lists v).0 m in (l.1, l.2)),
        (λ m. (lists v).1 (
          Mem_keep (λ h. any (is_file_of root h) (file_view r)) v.hash r.hashes
              (All_at (IsStored env r) v (file_view r) a m.0).0
              (any_of_Mem (is_file_of root v.hash) v (file_view r) m.0 (ground (arith, m.1))),
          m.0,
          m.1,
        )),
      )),
    )
