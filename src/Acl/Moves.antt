-- ===== src/Acl/Moves.antt =====
-- src/lib/acl.js: what `setDirectoryAcl` may change, and how much of it is left to change.
use caskfs.Base.{ℕ, suc, ◌+◌, ◌≤◌, ◌≡◌, refl, ◌∙◌, ◌⊎◌, inl, inr, arith}
use caskfs.Base.{◌==◌, ◌=?◌, nat_eq, option_eq, if◌then◌else◌}
use caskfs.Base.{none, some, List, [], ◌∷◌, length, Mem}
use caskfs.Base.Dict.{Dict, lookup, insert, lookup-insert}
use caskfs.Acl.Db.{Db}
use caskfs.Acl.Spread.{root_of, children}

-- The directories that take over an ACL set on `d`: `d`, and the children of such a directory that
-- have no ACL of their own.
pub data Below (db : Db) (d : ℕ) : ℕ → Type 0 where
  here : Below db d d
  child : (k c : ℕ) → Below db d k → Mem c (children db k) → root_of db c ≡ none → Below db d c

pub Below-trans : (db : Db) (d e k : ℕ) → Below db d e → Below db e k → Below db d k
Below-trans db d e _ p here = p
Below-trans db d e _ p (child k c q m h) = child k c (Below-trans db d e k p q) m h

abbrev pub AtAcl : ℕ → Dict ℕ ℕ → ℕ → Type 0
AtAcl acl a k = lookup k a ≡ some acl

-- From `a` to `b` some of the directories in `R` come under the ACL, each with its children.
pub record Moves (db : Db) (acl : ℕ) (R : ℕ → Type 0) (a b : Dict ℕ ℕ) : Type 0 where
  pub frame : (k : ℕ) → (lookup k b ≡ lookup k a) ⊎ (R k × (lookup k b ≡ some acl))
  pub closed :
      (k c : ℕ)
      → ¬ AtAcl acl a k
      → AtAcl acl b k
      → Mem c (children db k)
      → root_of db c ≡ none
      → AtAcl acl b c

-- The number of directories that are not under the ACL.
abbrev pub pending : ℕ → List ℕ → Dict ℕ ℕ → ℕ
pending acl [] a = 0
pending acl (d ∷ ds) a = (if lookup d a == some acl then 0 else 1) + pending acl ds a

module _ (db : Db) (acl : ℕ) where
  pub Moves-refl : (R : ℕ → Type 0) (a : Dict ℕ ℕ) → Moves db acl R a a
  Moves-refl R a = record { frame = λ k. inl refl; closed = λ k c out at m h. absurd (out at) }

  pub stays :
      (R : ℕ → Type 0) (a b : Dict ℕ ℕ)
      → Moves db acl R a b
      → (k : ℕ) → AtAcl acl a k
      → AtAcl acl b k
  stays R a b m k h = elim (m.frame k) [ inl same ↦ same ∙ h | inr there ↦ there.1 ]

  pub frame_trans :
      (R : ℕ → Type 0) (a b c : Dict ℕ ℕ)
      → Moves db acl R a b
      → Moves db acl R b c
      → (k : ℕ) → (lookup k c ≡ lookup k a) ⊎ (R k × (lookup k c ≡ some acl))
  frame_trans R a b c m n k = elim (n.frame k) [
    | inr there ↦ inr there
    | inl same ↦ elim (m.frame k) [
      | inl before ↦ inl (same ∙ before)
      | inr there ↦ inr (there.0, same ∙ there.1)
    ]
  ]

  pub Moves-trans :
      (R : ℕ → Type 0) (a b c : Dict ℕ ℕ)
      → Moves db acl R a b
      → Moves db acl R b c
      → Moves db acl R a c
  Moves-trans R a b c m n = record {
    frame = frame_trans R a b c m n;
    closed = λ k d out at child h. elim (lookup k b =? some acl) [
      | inl mid ↦ stays R b c n d (m.closed k d out mid child h)
      | inr not_mid ↦ n.closed k d not_mid at child h
    ];
  }

  pub Moves-wider :
      (R Q : ℕ → Type 0) (a b : Dict ℕ ℕ)
      → ((k : ℕ) → R k → Q k)
      → Moves db acl R a b
      → Moves db acl Q a b
  Moves-wider R Q a b f m = record {
    frame = λ k. elim (m.frame k) [ inl same ↦ inl same | inr t ↦ inr (f k t.0, t.1) ];
    closed = m.closed;
  }

  pub pending-Moves :
      (R : ℕ → Type 0) (a b : Dict ℕ ℕ) (ds : List ℕ)
      → Moves db acl R a b
      → pending acl ds b ≤ pending acl ds a
  pending-Moves R a b [] m = omega arith
  pending-Moves R a b (d ∷ ds) m = ground (arith, stays R a b m d, pending-Moves R a b ds m)

  pub pending-insert_le :
      (d : ℕ) (a : Dict ℕ ℕ) (ds : List ℕ) → pending acl ds (insert d acl a) ≤ pending acl ds a
  pending-insert_le d a [] = omega arith
  pending-insert_le d a (e ∷ ds) = ground (arith, lookup-insert e d acl a, pending-insert_le d a ds)

  pub pending-insert_lt :
      (d : ℕ) (a : Dict ℕ ℕ) (ds : List ℕ)
      → Mem d ds
      → ¬ AtAcl acl a d
      → suc (pending acl ds (insert d acl a)) ≤ pending acl ds a
  pending-insert_lt d a [] m h = absurd m
  pending-insert_lt d a (e ∷ ds) (inl p) h =
      ground (arith, lookup-insert e d acl a, pending-insert_le d a ds)
  pending-insert_lt d a (e ∷ ds) (inr m) h =
      ground (arith, lookup-insert e d acl a, pending-insert_lt d a ds m h)

  pub pending-length : (a : Dict ℕ ℕ) (ds : List ℕ) → pending acl ds a ≤ length ds
  pending-length a [] = omega arith
  pending-length a (d ∷ ds) = ground (arith, pending-length a ds)
