-- ===== src/LinkedData/Exact.antt =====
-- src/lib/ld.js: what a write leaves of the linked data of a file, by the quads.
use caskfs.Base.{ℕ, ◌≡◌, sym, ap, ap₂, subst, ◌↔◌, ◌⊎◌, ◌==◌, not, ◌≤◌, arith, nat_eq}
use caskfs.Base.{List, ◌++◌, All, Mem, inl, inr, keep, Mem_keep, Mem_of_keep}
use caskfs.Base.Text.{Text, codes}
use caskfs.LinkedData.Quads.{Settings, Quad, parse_quads, resolve_id_path}
use caskfs.LinkedData.Tables.{Triple, Tables, delete, replace, values}
use caskfs.LinkedData.Noted.{NoBar, IsLink, IsSubject, note_quads-subjects, note_quads-links}
use caskfs.LinkedData.Replaced.{insert-links, insert-subjects}

kept_lem :
    (f : ℕ) (r : Triple) (rs : List Triple)
    → Mem r (keep (λ (x : Triple). not (x.0 == f)) rs) ↔ (¬ (r.0 ≡ f) × Mem r rs)
kept_lem f r rs = (
  (λ m.
      let (there, apart) = Mem_of_keep (λ (x : Triple). not (x.0 == f)) r rs m in
      ((λ same. ground (arith, same, apart)), there)),
  (λ m. Mem_keep (λ (x : Triple). not (x.0 == f)) r rs m.1 (ground (arith, m.0))),
)

-- A link of the quads, its object resolved
abbrev pub IsLinkTo : Settings → Text → List Quad → Text → Text → Type 0
IsLinkTo set path qs p u = (o : Text) × IsLink set qs (p, o) × (u ≡ resolve_id_path set o path)

module _ (set : Settings) (some_size : 1 ≤ set.insert_batch_size) (f : ℕ) (path : Text) where
  links_of :
      (cask_quads file_quads : List Quad) (l : Text × Text)
      → All (λ (q : Quad). NoBar q.predicate.value) (cask_quads ++ file_quads)
      → Mem l (values (parse_quads set path cask_quads file_quads).link_map)
        ↔ IsLink set (cask_quads ++ file_quads) l
  unfolding parse_quads
  links_of cask_quads file_quads l bars =
      let noted = note_quads-links set path l (cask_quads ++ file_quads) _ bars tt in
      (
        (λ m. elim (noted.0 m) [ inl link ↦ link | inr nil ↦ absurd nil ]),
        (λ link. noted.1 (inl link)),
      )

  subjects_of :
      (cask_quads file_quads : List Quad) (u : Text)
      → Mem u (parse_quads set path cask_quads file_quads).subjects
        ↔ IsSubject set path (cask_quads ++ file_quads) u
  unfolding parse_quads
  subjects_of cask_quads file_quads u =
      let noted = note_quads-subjects set path u (cask_quads ++ file_quads) _ in
      (
        (λ m. elim (noted.0 m) [ inl named ↦ named | inr nil ↦ absurd nil ]),
        (λ named. noted.1 (inl named)),
      )

  pub links_lem :
      (cask_quads file_quads : List Quad) (t : Tables) (g : ℕ) (p u : Text)
      → All (λ (q : Quad). NoBar q.predicate.value) (cask_quads ++ file_quads)
      → Mem (g, (p, u)) (replace set f path cask_quads file_quads t).links ↔ (
          ((g ≡ f) × IsLinkTo set path (cask_quads ++ file_quads) p u)
          ⊎ (¬ (g ≡ f) × Mem (g, (p, u)) t.links))
  unfolding replace delete
  links_lem cask_quads file_quads t g p u bars =
      let r : Triple = (g, (p, u)) in
      let qs = cask_quads ++ file_quads in
      let parsed = parse_quads set path cask_quads file_quads in
      let made = insert-links set some_size f path r parsed (delete f t) in
      let old = kept_lem f r t.links in
      (
        (λ m. elim (made.0 m) [
          | inl (l, there, e) ↦ inl (
            ap (λ (x : Triple). x.0) e,
            (
              l.1,
              subst (λ x. IsLink set qs (x, l.1)) (sym (ap (λ (x : Triple). x.1.0) e))
                  ((links_of cask_quads file_quads l bars).0 there),
              ap (λ (x : Triple). x.1.1) e,
            ),
          )
          | inr rest ↦ inr (old.0 rest)
        ]),
        (λ m. elim m [
          | inl (same, (o, link, e)) ↦
              let at : ℕ → Text → Triple = λ x y. (x, (p, y)) in
              made.1
                (inl ((p, o), (links_of cask_quads file_quads (p, o) bars).1 link, ap₂ at same e))
          | inr rest ↦ made.1 (inr (old.1 rest))
        ]),
      )

  pub subjects_lem :
      (cask_quads file_quads : List Quad) (t : Tables) (g : ℕ) (u : Text)
      → Mem (g, (codes "subject", u)) (replace set f path cask_quads file_quads t).filters ↔ (
          ((g ≡ f) × IsSubject set path (cask_quads ++ file_quads) u)
          ⊎ (¬ (g ≡ f) × Mem (g, (codes "subject", u)) t.filters))
  unfolding replace delete
  subjects_lem cask_quads file_quads t g u =
      let parsed = parse_quads set path cask_quads file_quads in
      let made = insert-subjects set some_size f path g u parsed (delete f t) in
      let old = kept_lem f (g, (codes "subject", u)) t.filters in
      let here = subjects_of cask_quads file_quads u in
      (
        (λ m. elim (made.0 m) [
          | inl (same, there) ↦ inl (same, here.0 there)
          | inr rest ↦ inr (old.0 rest)
        ]),
        (λ m. elim m [
          | inl (same, named) ↦ made.1 (inl (same, here.1 named))
          | inr rest ↦ made.1 (inr (old.1 rest))
        ]),
      )

  -- Where the batches have at least one item and no predicate of the quads has a "|": after the
  -- linked data of a file are replaced, its links and its subjects are those of the quads, but for the
  -- quads that give a type: a link for a predicate and an object that are named, the object resolved,
  -- and a subject that is named, resolved. The links and the subjects of other files are as before.
  pub replace_lem :
      (cask_quads file_quads : List Quad) (t : Tables) (g : ℕ)
      → All (λ (q : Quad). NoBar q.predicate.value) (cask_quads ++ file_quads)
      → ((p u : Text)
          → Mem (g, (p, u)) (replace set f path cask_quads file_quads t).links ↔ (
              ((g ≡ f) × IsLinkTo set path (cask_quads ++ file_quads) p u)
              ⊎ (¬ (g ≡ f) × Mem (g, (p, u)) t.links)))
        × ((u : Text)
            → Mem (g, (codes "subject", u)) (replace set f path cask_quads file_quads t).filters ↔ (
                ((g ≡ f) × IsSubject set path (cask_quads ++ file_quads) u)
                ⊎ (¬ (g ≡ f) × Mem (g, (codes "subject", u)) t.filters)))
  replace_lem cask_quads file_quads t g bars = (
    (λ p u. links_lem cask_quads file_quads t g p u bars),
    subjects_lem cask_quads file_quads t g,
  )
