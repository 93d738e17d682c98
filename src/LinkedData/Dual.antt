-- ===== src/LinkedData/Dual.antt =====
-- src/lib/ld.js: what `getOutboundLinks` and `getInboundLinks` say of each other.
use caskfs.Base.{
  ℕ, ◌≡◌, refl, sym, ap, ap₂, ◌∙◌, subst, ◌↔◌, ◌==◌, true, ◌&&◌, arith, nat_eq, list_eq,
}
use caskfs.Base.{List, [], ◌∷◌, map, keep, any, inl, inr, length, take-all, ◌≤◌}
use caskfs.Base.{
  Mem, Mem_map, Mem_of_map, Mem_keep, Mem_of_keep, any_of_Mem, Mem_of_any, Mem_append,
  Mem_of_append,
}
use caskfs.Base.Text.{Text, codes}
use caskfs.LinkedData.Tables.{Triple}
use caskfs.LinkedData.Links.{Options, World, LinkRow, is_selected, is_asked, limit_of}
use caskfs.LinkedData.Links.{is_subject, is_inbound, links_in, inbound_rows, get_inbound_links}
use caskfs.LinkedData.Links.{
  target_objects, is_outbound, links_out, outbound_filters, joined, outbound_rows,
  get_outbound_links,
}

triple_eq : (t : Triple) (f : ℕ) (a b : Text) → t.0 ≡ f → t.1.0 ≡ a → t.1.1 ≡ b → t ≡ (f, (a, b))
triple_eq t f a b p q r = ap₂ (λ x y. (x, y)) p (ap₂ (λ x y. (x, y)) q r)

-- A row of a join comes of two rows with the same URI.
Mem_of_joined :
    (x : LinkRow) (ls rs : List Triple)
    → Mem x (joined ls rs)
    → (l : Triple) × (r : Triple) × Mem l ls × Mem r rs × (r.1.1 ≡ l.1.1) × (x ≡ (l.1.0, r.0))
Mem_of_joined x [] rs m = absurd m
Mem_of_joined x (l ∷ ls) rs m =
    elim (Mem_of_append x (map (λ (r : Triple). (l.1.0, r.0)) (keep (λ r. r.1.1 == l.1.1) rs))
      (joined ls rs) m) [
        | inl here ↦
            let (r, there, e) =
              Mem_of_map (λ (r : Triple). (l.1.0, r.0)) x (keep (λ r. r.1.1 == l.1.1) rs) here in
            let (mr, same) = Mem_of_keep (λ (r : Triple). r.1.1 == l.1.1) r rs there in
            (l, r, inl refl, mr, ground (arith, same), e)
        | inr later ↦
            let (k, r, mk, mr, same, e) = Mem_of_joined x ls rs later in (k, r, inr mk, mr, same, e)
      ]

Mem_joined :
    (l r : Triple) (ls rs : List Triple)
    → Mem l ls
    → Mem r rs
    → r.1.1 ≡ l.1.1
    → Mem (l.1.0, r.0) (joined ls rs)
Mem_joined l r [] rs m mr same = absurd m
Mem_joined l r (k ∷ ls) rs (inl e) mr same =
    Mem_append (l.1.0, r.0) (map (λ (s : Triple). (k.1.0, s.0)) (keep (λ s. s.1.1 == k.1.1) rs))
      (joined ls rs)
      (inl (
        subst
          (λ h.
            Mem {A = LinkRow} (h, r.0)
              (map (λ (s : Triple). (k.1.0, s.0)) (keep (λ s. s.1.1 == k.1.1) rs)))
          (ap (λ (t : Triple). t.1.0) (sym e))
          (Mem_map (λ (s : Triple). (k.1.0, s.0)) r (keep (λ s. s.1.1 == k.1.1) rs)
            (Mem_keep (λ (s : Triple). s.1.1 == k.1.1) r rs mr
              (ground (arith, same ∙ ap (λ (t : Triple). t.1.1) e))))))
Mem_joined l r (k ∷ ls) rs (inr m) mr same =
    Mem_append (l.1.0, r.0) (map (λ (s : Triple). (k.1.0, s.0)) (keep (λ s. s.1.1 == k.1.1) rs))
      (joined ls rs) (inr (Mem_joined l r ls rs m mr same))

module _ (o : Options) (w : World) where
  -- A link of the first file with the predicate names a subject of the second.
  abbrev pub IsLinked : Text → ℕ → ℕ → Type 0
  IsLinked p a b =
      (u : Text) × Mem (a, (p, u)) w.tables.links
      × Mem (b, (codes "subject", u)) w.tables.filters
      × (is_asked o.predicate p ≡ true)

  subject_of :
      (b : ℕ) (u : Text)
      → is_subject o w b u ≡ true
      → Mem (b, (codes "subject", u)) w.tables.filters
  subject_of b u h =
      let (r, m, e) =
        Mem_of_any (λ (r : Triple). r.0 == b && r.1.0 == codes "subject" && r.1.1 == u)
          w.tables.filters h in
      subst (λ x. Mem x w.tables.filters)
        (triple_eq r b (codes "subject") u (ground (arith, e)) (ground (arith, e))
          (ground (arith, e)))
        m

  inbound-IsLinked : (p : Text) (a b : ℕ) → Mem (p, a) (inbound_rows o w b) → IsLinked p a b
  inbound-IsLinked p a b m =
      let (l, there, e) =
        Mem_of_map (λ (l : Triple). (l.1.0, l.0)) (p, a)
          (keep (λ l. links_in o w b l.0 && is_inbound o w b l) w.tables.links) m in
      let (ml, holds) =
        Mem_of_keep (λ (l : Triple). links_in o w b l.0 && is_inbound o w b l) l w.tables.links
          there in
      let asked : is_asked o.predicate l.1.0 ≡ true = ground (arith, holds) in
      let named : is_subject o w b l.1.1 ≡ true = ground (arith, holds) in
      let same : l.1.0 ≡ p = sym (ap (λ (x : LinkRow). x.0) e) in
      (
        l.1.1,
        subst (λ x. Mem x w.tables.links)
            (triple_eq l a p l.1.1 (sym (ap (λ (x : LinkRow). x.1) e)) same refl) ml,
        subject_of b l.1.1 named,
        subst (λ x. is_asked o.predicate x ≡ true) same asked,
      )

  IsLinked-inbound :
      (p : Text) (a b : ℕ)
      → ¬ (a ≡ b)
      → is_selected o w a ≡ true
      → IsLinked p a b
      → Mem (p, a) (inbound_rows o w b)
  IsLinked-inbound p a b other sel (u, link, name, asked) =
      let named : is_subject o w b u ≡ true =
        any_of_Mem (λ (r : Triple). r.0 == b && r.1.0 == codes "subject" && r.1.1 == u)
          (b, (codes "subject", u)) w.tables.filters name (ground arith) in
      let seen : any (λ (l : Triple). l.0 == a && is_inbound o w b l) w.tables.links ≡ true =
        any_of_Mem (λ (l : Triple). l.0 == a && is_inbound o w b l) (a, (p, u)) w.tables.links link
          (ground (arith, named, asked)) in
      Mem_map (λ (l : Triple). (l.1.0, l.0)) (a, (p, u))
        (keep (λ l. links_in o w b l.0 && is_inbound o w b l) w.tables.links)
        (Mem_keep (λ (l : Triple). links_in o w b l.0 && is_inbound o w b l) (a, (p, u))
          w.tables.links link (ground (arith, named, asked, seen, sel, other)))

  pub outbound-IsLinked : (p : Text) (a b : ℕ) → Mem (p, b) (outbound_rows o w a) → IsLinked p a b
  outbound-IsLinked p a b m =
      let (l, r, ml, mr, same, e) =
        Mem_of_joined (p, b) (target_objects o w a) (outbound_filters o w a) m in
      let (link, holds) =
        Mem_of_keep (λ (l : Triple). l.0 == a && is_asked o.predicate l.1.0) l w.tables.links ml in
      let (name, fits) =
        Mem_of_keep (λ (r : Triple). links_out o w a r.0 && is_outbound o w a r) r w.tables.filters
          mr in
      let asked : is_asked o.predicate l.1.0 ≡ true = ground (arith, holds) in
      let subject : r.1.0 ≡ codes "subject" = ground (arith, fits) in
      let pred : l.1.0 ≡ p = sym (ap (λ (x : LinkRow). x.0) e) in
      (
        l.1.1,
        subst (λ x. Mem x w.tables.links) (triple_eq l a p l.1.1 (ground (arith, holds)) pred refl)
            link,
        subst (λ x. Mem x w.tables.filters)
            (triple_eq r b (codes "subject") l.1.1 (sym (ap (λ (x : LinkRow). x.1) e)) subject same)
            name,
        subst (λ x. is_asked o.predicate x ≡ true) pred asked,
      )

  pub IsLinked-outbound :
      (p : Text) (a b : ℕ)
      → ¬ (a ≡ b)
      → is_selected o w b ≡ true
      → IsLinked p a b
      → Mem (p, b) (outbound_rows o w a)
  IsLinked-outbound p a b other sel (u, link, name, asked) =
      let target : Mem (a, (p, u)) (target_objects o w a) =
        Mem_keep (λ (l : Triple). l.0 == a && is_asked o.predicate l.1.0) (a, (p, u)) w.tables.links
          link (ground (arith, asked)) in
      let named : any (λ (l : Triple). l.1.1 == u) (target_objects o w a) ≡ true =
        any_of_Mem (λ (l : Triple). l.1.1 == u) (a, (p, u)) (target_objects o w a) target
          (ground arith) in
      let seen : any (λ (r : Triple). r.0 == b && is_outbound o w a r) w.tables.filters ≡ true =
        any_of_Mem (λ (r : Triple). r.0 == b && is_outbound o w a r) (b, (codes "subject", u))
          w.tables.filters name (ground (arith, named)) in
      Mem_joined (a, (p, u)) (b, (codes "subject", u)) (target_objects o w a)
        (outbound_filters o w a) target
        (Mem_keep (λ (r : Triple). links_out o w a r.0 && is_outbound o w a r)
          (b, (codes "subject", u)) w.tables.filters name
          (ground (arith, named, seen, sel, (λ (q : b ≡ a). other (sym q)))))
        refl

  -- Of two different files that the options select, the first lists the second among its outbound
  -- links under a predicate exactly if the second lists the first among its inbound links under it,
  -- where neither listing has more rows than its limit.
  pub outbound-inbound :
      (p : Text) (a b : ℕ)
      → ¬ (a ≡ b)
      → is_selected o w a ≡ true
      → is_selected o w b ≡ true
      → length (outbound_rows o w a) ≤ limit_of o
      → length (inbound_rows o w b) ≤ limit_of o
      → Mem (p, b) (get_outbound_links o w a) ↔ Mem (p, a) (get_inbound_links o w b)
  unfolding get_outbound_links get_inbound_links
  outbound-inbound p a b other first second few_out few_in = (
    (λ m. subst (Mem (p, a)) (sym (take-all (limit_of o) (inbound_rows o w b) few_in)) (
        IsLinked-inbound p a b other first (
          outbound-IsLinked p a b
            (subst (Mem (p, b)) (take-all (limit_of o) (outbound_rows o w a) few_out) m)))),
    (λ m. subst (Mem (p, b)) (sym (take-all (limit_of o) (outbound_rows o w a) few_out)) (
        IsLinked-outbound p a b other second (
          inbound-IsLinked p a b
            (subst (Mem (p, a)) (take-all (limit_of o) (inbound_rows o w b) few_in) m)))),
  )
