-- ===== src/LinkedData/Noted.antt =====
-- src/lib/ld.js: what `parseLinkedData` notes of the quads, by the quads.
use caskfs.Base.{
  ℕ, ◌≡◌, refl, sym, ap, ap₂, ◌∙◌, subst, ◌↔◌, ◌⊎◌, ◌==◌, ◌=?◌, true, false, ◌&&◌, arith, nat_eq,
  list_eq,
}
use caskfs.Base.{Bool, is_some, List, [], ◌∷◌, All, Mem, inl, inr, Bool-cases, contains}
use caskfs.Base.{Mem_append, Mem_of_append}
use caskfs.Base.Dict.{Dict, insert, lookup}
use caskfs.Base.Text.{Text}
use caskfs.LinkedData.Quads.{Settings, Quad, Parsed, resolve_id_path, is_named, add_when}
use caskfs.LinkedData.Quads.{link_key, add_link, note_quad, note_other, note_quads}
use caskfs.LinkedData.Tables.{values}

Text_of_contains : (v : Text) (vs : List Text) → contains vs v ≡ true → Mem v vs
Text_of_contains v [] h = absurd (ground (arith, h))
Text_of_contains v (w ∷ vs) h = elim (v =? w) [
  | inl e ↦ inl e
  | inr n ↦ inr (Text_of_contains v vs (ground (arith, n, h)))
]

add_when_lem :
    (b : Bool) (x v : Text) (vs : List Text)
    → Mem x (add_when b v vs) ↔ (((b ≡ true) × (x ≡ v)) ⊎ Mem x vs)
add_when_lem false x v vs =
    ((λ m. inr m), (λ m. elim m [ inl (off, e) ↦ absurd (ground (arith, off)) | inr old ↦ old ]))
add_when_lem true x v vs = elim (Bool-cases (contains vs v)) [
  | inl there ↦ rw there (
    (λ m. inr m),
    (λ m. elim m [
      | inl (on, e) ↦ subst (λ y. Mem y vs) (sym e) (Text_of_contains v vs there)
      | inr old ↦ old
    ]),
  )
  | inr absent ↦ rw absent (
    (λ m. elim (Mem_of_append x vs (v ∷ []) m) [
      | inl old ↦ inr old
      | inr new ↦ elim new [ inl e ↦ inl (refl, e) | inr nil ↦ absurd nil ]
    ]),
    (λ m. Mem_append x vs (v ∷ []) (elim m [ inl (on, e) ↦ inr (inl e) | inr old ↦ inl old ])),
  )
]

-- A text without "|"
abbrev pub NoBar : Text → Type 0
NoBar t = All (λ (c : ℕ). ¬ (c ≡ 124)) t

link_key_injective :
    (p q o r : Text) → NoBar p → NoBar q → link_key p o ≡ link_key q r → (p ≡ q) × (o ≡ r)
link_key_injective [] [] o r hp hq e = (refl, cc)
link_key_injective [] (c ∷ q) o r hp hq e = absurd (hq.0 cc)
link_key_injective (c ∷ p) [] o r hp hq e = absurd (hp.0 cc)
link_key_injective (c ∷ p) (d ∷ q) o r hp hq e =
    let (same, rest) = link_key_injective p q o r hp.1 hq.1 cc in
    let head : c ≡ d = cc in (cc (head, same), rest)

-- A link stands under its key.
abbrev pub IsKeyed : Text × (Text × Text) → Type 0
IsKeyed e = (e.0 ≡ link_key e.1.0 e.1.1) × NoBar e.1.0

module _ (set : Settings) where
  -- A key that is there is that of the same link.
  link_there :
      (p o : Text) (d : Dict Text (Text × Text))
      → NoBar p
      → All IsKeyed d
      → is_some (lookup (link_key p o) d) ≡ true
      → Mem (p, o) (values d)
  unfolding lookup
  link_there p o [] bar keyed there = absurd (ground (arith, there))
  link_there p o (e ∷ d) bar keyed there = elim (link_key p o =? e.0) [
    | inl same ↦
        let (first, second) = link_key_injective p e.1.0 o e.1.1 bar keyed.0.1 (same ∙ keyed.0.0) in
        inl (ap₂ (λ x y. (x, y)) first second)
    | inr other ↦ inr (link_there p o d bar keyed.1 (ground (arith, other, there)))
  ]

  insert_new_lem :
      (k : Text) (x v : Text × Text) (d : Dict Text (Text × Text))
      → is_some (lookup k d) ≡ false
      → Mem x (values (insert k v d)) ↔ ((x ≡ v) ⊎ Mem x (values d))
  unfolding lookup insert
  insert_new_lem k x v [] absent = (
    (λ m. elim m [ inl e ↦ inl e | inr nil ↦ absurd nil ]),
    (λ m. elim m [ inl e ↦ inl e | inr nil ↦ absurd nil ]),
  )
  insert_new_lem k x v (e ∷ d) absent = elim (k =? e.0) [
    | inl same ↦ absurd (ground (arith, same, absent))
    | inr other ↦
        let rest = insert_new_lem k x v d (ground (arith, other, absent)) in
        let head : (k == e.0) ≡ false = ground (arith, other) in
        rw head (
          (λ m. elim m [
            | inl here ↦ inr (inl here)
            | inr later ↦ elim (rest.0 later) [ inl new ↦ inl new | inr old ↦ inr (inr old) ]
          ]),
          (λ m. elim m [
            | inl new ↦ inr (rest.1 (inl new))
            | inr old ↦ elim old [ inl here ↦ inl here | inr later ↦ inr (rest.1 (inr later)) ]
          ]),
        )
  ]

  insert-Keyed :
      (p o : Text) (d : Dict Text (Text × Text))
      → NoBar p
      → All IsKeyed d
      → All IsKeyed (insert (link_key p o) (p, o) d)
  unfolding insert
  insert-Keyed p o [] bar keyed = ((refl, bar), tt)
  insert-Keyed p o (e ∷ d) bar keyed = elim (Bool-cases (link_key p o == e.0)) [
    | inl same ↦ rw same ((refl, bar), keyed.1)
    | inr other ↦ rw other (keyed.0, insert-Keyed p o d bar keyed.1)
  ]

  add_link_lem :
      (b : Bool) (x : Text × Text) (p o : Text) (d : Dict Text (Text × Text))
      → NoBar p
      → All IsKeyed d
      → (Mem x (values (add_link b p o d)) ↔ (((b ≡ true) × (x ≡ (p, o))) ⊎ Mem x (values d)))
        × All IsKeyed (add_link b p o d)
  add_link_lem false x p o d bar keyed = (
    ((λ m. inr m), (λ m. elim m [ inl (off, e) ↦ absurd (ground (arith, off)) | inr old ↦ old ])),
    keyed,
  )
  add_link_lem true x p o d bar keyed = elim (Bool-cases (is_some (lookup (link_key p o) d))) [
    | inl there ↦ rw there (
      (
        (λ m. inr m),
        (λ m. elim m [
          | inl (on, e) ↦ subst (λ y. Mem y (values d)) (sym e) (link_there p o d bar keyed there)
          | inr old ↦ old
        ]),
      ),
      keyed,
    )
    | inr absent ↦
        let made = insert_new_lem (link_key p o) x (p, o) d absent in
        rw absent (
          (
            (λ m. elim (made.0 m) [ inl e ↦ inl (refl, e) | inr old ↦ inr old ]),
            (λ m. elim m [ inl (on, e) ↦ made.1 (inl e) | inr old ↦ made.1 (inr old) ]),
          ),
          insert-Keyed p o d bar keyed,
        )
  ]

  -- A quad that does not give a type says it.
  abbrev IsSaid : {B : Type 0} → (Quad → B → Type 0) → List Quad → B → Type 0
  IsSaid Says qs b = (q : Quad) × Mem q qs × ¬ (q.predicate.value ≡ set.type_predicate) × Says q b

  abbrev NamesLink : Quad → Text × Text → Type 0
  NamesLink q l =
      ((is_named q.predicate && is_named q.object) ≡ true)
      × (l ≡ (q.predicate.value, q.object.value))

  abbrev NamesSubject : Text → Quad → Text → Type 0
  NamesSubject path q u =
      (is_named q.subject ≡ true) × (u ≡ resolve_id_path set q.subject.value path)

  abbrev pub IsLink : List Quad → Text × Text → Type 0
  IsLink = IsSaid NamesLink

  abbrev pub IsSubject : Text → List Quad → Text → Type 0
  IsSubject path = IsSaid (NamesSubject path)

  module _ (path : Text) where
    note_quads-skipped :
        (q : Quad) (qs : List Quad) (p : Parsed)
        → q.predicate.value ≡ set.type_predicate
        → note_quads set path (q ∷ qs) p ≡ note_quads set path qs p
    unfolding note_quads
    note_quads-skipped q qs p type =
        let skipped : (q.predicate.value == set.type_predicate) ≡ true = ground (arith, type) in
        ap (λ b. note_quads set path qs (note_other set path b q p)) skipped

    note_quads-noted :
        (q : Quad) (qs : List Quad) (p : Parsed)
        → ¬ (q.predicate.value ≡ set.type_predicate)
        → note_quads set path (q ∷ qs) p ≡ note_quads set path qs (note_quad set path q p)
    unfolding note_quads
    note_quads-noted q qs p other =
        let noted : (q.predicate.value == set.type_predicate) ≡ false = ground (arith, other) in
        ap (λ b. note_quads set path qs (note_other set path b q p)) noted

    module _ {B : Type 0} (f : Parsed → List B) (Says : Quad → B → Type 0) (Fits : Quad → Type 0)
        (Keeps : Parsed → Type 0)
        (once : (q : Quad) (p : Parsed) (b : B)
          → Fits q
          → Keeps p
          → (Mem b (f (note_quad set path q p)) ↔ (Says q b ⊎ Mem b (f p)))
            × Keeps (note_quad set path q p)) where
      -- What each quad that is noted says is what is noted of all.
      note_quads_lem :
          (b : B) (qs : List Quad) (p : Parsed)
          → All Fits qs
          → Keeps p
          → Mem b (f (note_quads set path qs p)) ↔ (IsSaid Says qs b ⊎ Mem b (f p))
      unfolding note_quads
      note_quads_lem b [] p fits keeps =
          ((λ m. inr m), (λ m. elim m [ inl (q, nil, other, says) ↦ absurd nil | inr old ↦ old ]))
      note_quads_lem b (q ∷ qs) p fits keeps = elim (q.predicate.value =? set.type_predicate) [
        | inl type ↦
            let rest = note_quads_lem b qs p fits.1 keeps in
            let skip = ap f (note_quads-skipped q qs p type) in
            (
              (λ m. elim (rest.0 (subst (Mem b) skip m)) [
                | inl (k, there, other, says) ↦ inl (k, inr there, other, says)
                | inr old ↦ inr old
              ]),
              (λ m. subst (Mem b) (sym skip) (elim m [
                | inl (k, there, other, says) ↦ elim there [
                  | inl same ↦ absurd (other (ap (λ (x : Quad). x.predicate.value) same ∙ type))
                  | inr later ↦ rest.1 (inl (k, later, other, says))
                ]
                | inr old ↦ rest.1 (inr old)
              ])),
            )
        | inr other ↦
            let (made, kept) = once q p b fits.0 keeps in
            let rest = note_quads_lem b qs (note_quad set path q p) fits.1 kept in
            let noted = ap f (note_quads-noted q qs p other) in
            (
              (λ m. elim (rest.0 (subst (Mem b) noted m)) [
                | inl (k, there, apart, says) ↦ inl (k, inr there, apart, says)
                | inr new ↦ elim (made.0 new) [
                  | inl says ↦ inl (q, inl refl, other, says)
                  | inr old ↦ inr old
                ]
              ]),
              (λ m. subst (Mem b) (sym noted) (elim m [
                | inl (k, there, apart, says) ↦ elim there [
                  | inl same ↦ rest.1 (inr (made.1 (inl (subst (λ x. Says x b) same says))))
                  | inr later ↦ rest.1 (inl (k, later, apart, says))
                ]
                | inr old ↦ rest.1 (inr (made.1 (inr old)))
              ])),
            )
      ]

    all_quads : (qs : List Quad) → All {0, 0} (λ (q : Quad). Unit) qs
    all_quads [] = tt
    all_quads (q ∷ qs) = (tt, all_quads qs)

    pub note_quads-subjects :
        (u : Text) (qs : List Quad) (p : Parsed)
        → Mem u (note_quads set path qs p).subjects ↔ (IsSubject path qs u ⊎ Mem u p.subjects)
    note_quads-subjects u qs p =
        note_quads_lem (λ p. p.subjects) (NamesSubject path) (λ q. Unit) (λ p. Unit)
          (λ q p u fits keeps. (
            add_when_lem (is_named q.subject) u (resolve_id_path set q.subject.value path)
                p.subjects,
            tt,
          ))
          u qs p (all_quads qs) tt

    pub note_quads-links :
        (l : Text × Text) (qs : List Quad) (p : Parsed)
        → All (λ (q : Quad). NoBar q.predicate.value) qs
        → All IsKeyed p.link_map
        → Mem l (values (note_quads set path qs p).link_map)
          ↔ (IsLink qs l ⊎ Mem l (values p.link_map))
    note_quads-links l qs p bars keyed =
        note_quads_lem (λ p. values p.link_map) NamesLink (λ q. NoBar q.predicate.value)
          (λ p. All IsKeyed p.link_map)
          (λ q p l bar keeps.
            add_link_lem (is_named q.predicate && is_named q.object) l q.predicate.value
              q.object.value p.link_map bar keeps)
          l qs p bars keyed
