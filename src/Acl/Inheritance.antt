-- ===== src/Acl/Inheritance.antt =====
-- src/lib/acl.js: `setDirectoryAcl` reaches the directories below that have no ACL of their own.
use caskfs.Base.{ℕ, zero, suc, ◌≤◌, ◌≡◌, refl, sym, ◌∙◌, ap, inl, inr, arith, subst}
use caskfs.Base.{Bool, true, false, ◌==◌, ◌=?◌, nat_eq, option_eq, if◌then◌else◌, is_some}
use caskfs.Base.{Option, none, some, Option-cases, List, [], ◌∷◌, length, keep, Mem}
use caskfs.Base.Dict.{Dict, lookup, insert, lookup-insert}
use mathlib.Core.Option.{none-ne-some}
use caskfs.Acl.Db.{Directory, Db}
use caskfs.Acl.Spread.{root_of, ids, children, each_after, spread, set_directory_acl}
use caskfs.Acl.Moves.{
  Below, Below-trans, AtAcl, Moves, here, child, pending, Moves-refl, stays, Moves-trans,
  Moves-wider, pending-Moves, pending-insert_le, pending-insert_lt, pending-length,
}

list_one :
    (b : Bool) (c : ℕ) (d : Directory) (es ds : List Directory)
    → (Mem c (ids es) → Mem c (ids ds))
    → Mem c (ids (if b then d ∷ es else es))
    → Mem c (ids (d ∷ ds))
list_one true c d es ds f (inl p) = inl p
list_one true c d es ds f (inr n) = inr (f n)
list_one false c d es ds f n = inr (f n)

child_listed :
    (f : Directory → Bool) (c : ℕ) (ds : List Directory) → Mem c (ids (keep f ds)) → Mem c (ids ds)
child_listed f c [] m = m
child_listed f c (d ∷ ds) m = list_one (f d) c d (keep f ds) ds (child_listed f c ds) m

length-ids : (ds : List Directory) → length (ids ds) ≡ length ds
length-ids [] = refl
length-ids (d ∷ ds) = ap suc (length-ids ds)

-- A visit that returns: who has moved, and the directory itself is under the ACL.
abbrev Visited : Db → ℕ → ℕ → Dict ℕ ℕ → Option (Dict ℕ ℕ) → Type 0
Visited db acl d a r = (b : Dict ℕ ℕ) × (r ≡ some b) × Moves db acl (Below db d) a b × AtAcl acl b d

abbrev Visits : Db → ℕ → ℕ → ℕ → Type 0
Visits db acl n m =
    (c : ℕ) (a : Dict ℕ ℕ)
    → Mem c (ids db.directories)
    → pending acl (ids db.directories) a ≤ m
    → Visited db acl c a (spread db acl n c a)

abbrev Covered : Db → ℕ → (ℕ → Type 0) → List ℕ → Dict ℕ ℕ → Option (Dict ℕ ℕ) → Type 0
Covered db acl R cs a r =
    (b : Dict ℕ ℕ) × (r ≡ some b)
    × Moves db acl R a b
    × ((c : ℕ) → Mem c cs → root_of db c ≡ none → AtAcl acl b c)

module _ (db : Db) (acl : ℕ) where
  children-Covered :
      (n m : ℕ) (R : ℕ → Type 0) (cs : List ℕ) (a : Dict ℕ ℕ)
      → Visits db acl n m
      → ((c : ℕ) → Mem c cs → Mem c (ids db.directories))
      → ((c k : ℕ) → Mem c cs → root_of db c ≡ none → Below db c k → R k)
      → pending acl (ids db.directories) a ≤ m
      → Covered db acl R cs a (each_after db (spread db acl n) cs (some a))
  children-Covered n m R [] a visits listed inside h =
      (a, refl, Moves-refl db acl R a, λ c i. absurd i)
  children-Covered n m R (c ∷ cs) a visits listed inside h = elim (Option-cases (root_of db c)) [
    | inl free ↦
        let (b, eb, mb, atb) = visits c a (listed c (inl refl)) h in
        let mb' = Moves-wider db acl (Below db c) R a b (λ k. inside c k (inl refl) free) mb in
        let (e, ee, me, ate) =
          children-Covered n m R cs b visits (λ k i. listed k (inr i)) (λ k l i. inside k l (inr i))
            (omega (arith, pending-Moves db acl R a b (ids db.directories) mb')) in
        (
          e,
          ap
                (λ o.
                  each_after db (spread db acl n) cs
                    (if is_some o then some a else spread db acl n c a))
                free
              ∙ ap (each_after db (spread db acl n) cs) eb
              ∙ ee,
          Moves-trans db acl R a b e mb' me,
          λ k i f. elim i [
            | inl p ↦ ap (λ j. lookup j e) p ∙ stays db acl R b e me c atb
            | inr l ↦ ate k l f
          ],
        )
    | inr (r, own) ↦
        let (e, ee, me, ate) =
          children-Covered n m R cs a visits (λ k i. listed k (inr i)) (λ k l i. inside k l (inr i))
            h in
        (
          e,
          ap
                (λ o.
                  each_after db (spread db acl n) cs
                    (if is_some o then some a else spread db acl n c a))
                own
              ∙ ee,
          me,
          λ k i f. elim i [
            | inl p ↦ absurd (none-ne-some r (sym f ∙ ap (root_of db) p ∙ own))
            | inr l ↦ ate k l f
          ],
        )
  ]

  Moves-from :
      (d : ℕ) (a b : Dict ℕ ℕ)
      → Moves db acl (Below db d) (insert d acl a) b
      → ((c : ℕ) → Mem c (children db d) → root_of db c ≡ none → AtAcl acl b c)
      → Moves db acl (Below db d) a b
  Moves-from d a b m done = record {
    frame = λ k. elim (k =? d) [
      | inl p ↦ inr (
        subst (Below db d) (sym p) here,
        stays db acl (Below db d) (insert d acl a) b m k (ground (arith, lookup-insert k d acl a)),
      )
      | inr other ↦ elim (m.frame k) [
        | inl same ↦ inl (same ∙ ground (arith, lookup-insert k d acl a))
        | inr t ↦ inr t
      ]
    ];
    closed = λ k c out at i free. elim (k =? d) [
      | inl p ↦ done c (subst (λ j. Mem c (children db j)) p i) free
      | inr other ↦
          m.closed k c (λ e. out (sym (ground (arith, lookup-insert k d acl a)) ∙ e)) at i free
    ];
  }

  visit_body :
      (n m d : ℕ) (a : Dict ℕ ℕ)
      → Visits db acl n m
      → ¬ AtAcl acl a d
      → pending acl (ids db.directories) (insert d acl a) ≤ m
      → Visited db acl d a (spread db acl (suc n) d a)
  unfolding spread
  visit_body n m d a visits out h =
      let (b, eb, mb, atb) =
        children-Covered n m (Below db d) (children db d) (insert d acl a) visits
          (λ c i. child_listed (λ x. x.parent_id == some d) c db.directories i)
          (λ c k i free p. Below-trans db d c k (child d c here i free) p) h in
      (
        b,
        ground (arith, eb, out),
        Moves-from d a b mb atb,
        stays db acl (Below db d) (insert d acl a) b mb d (ground (arith, lookup-insert d d acl a)),
      )

  all-Visits : (n : ℕ) → Visits db acl (suc n) n
  unfolding spread
  all-Visits zero c a i h = elim (lookup c a =? some acl) [
    | inl there ↦ (a, ground (arith, there), Moves-refl db acl (Below db c) a, there)
    | inr out ↦ absurd (omega (arith, pending-insert_lt db acl c a (ids db.directories) i out))
  ]
  all-Visits (suc n) c a i h = elim (lookup c a =? some acl) [
    | inl there ↦ (a, ground (arith, there), Moves-refl db acl (Below db c) a, there)
    | inr out ↦
        visit_body (suc n) n c a (all-Visits n) out
          (omega (arith, pending-insert_lt db acl c a (ids db.directories) i out))
  ]

-- `setDirectoryAcl` returns, however the parents of the directories are linked. Then the directory is
-- under the ACL; every other directory is under what it was under, or under the ACL and then it is
-- below the directory, with no ACL of its own on the way; and each directory that came under the ACL
-- took its children that have no ACL of their own with it.
pub set_directory_acl_lem :
    (db : Db) (acl d : ℕ)
    → (b : Dict ℕ ℕ) × (set_directory_acl db acl d ≡ some b)
      × Moves db acl (Below db d) db.directory_acls b
      × (lookup d b ≡ some acl)
unfolding set_directory_acl spread
set_directory_acl_lem db acl d = elim (lookup d db.directory_acls =? some acl) [
  | inl there ↦ (
    db.directory_acls,
    ground (arith, there),
    Moves-refl db acl (Below db d) db.directory_acls,
    there,
  )
  | inr out ↦
      visit_body db acl (suc (length db.directories)) (length db.directories) d db.directory_acls
        (all-Visits db acl (length db.directories)) out
        (omega (
          arith,
          pending-insert_le db acl d db.directory_acls (ids db.directories),
          pending-length db acl db.directory_acls (ids db.directories),
          length-ids db.directories,
        ))
]
