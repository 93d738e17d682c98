-- ===== src/LinkedData/Replaced.antt =====
-- src/lib/ld.js: what the tables have of a file whose linked data are deleted and inserted again.
use caskfs.Base.{
  ℕ, zero, suc, ◌≡◌, refl, sym, ap, ◌∙◌, subst, ◌↔◌, ◌⊎◌, ◌=?◌, true, ◌≤◌, arith, nat_eq, list_eq,
  pair_eq,
}
use caskfs.Base.{List, [], ◌∷◌, Mem, length, take, drop, inl, inr, Bool-cases, contains}
use caskfs.Base.{Mem_append, Mem_of_append}
use caskfs.Base.Text.{Text, codes}
use caskfs.LinkedData.Quads.{Settings, LiteralItem, Parsed}
use caskfs.LinkedData.Tables.{Triple, Tables, add_triple, each, in_batches, values, resolved}
use caskfs.LinkedData.Tables.{insert_file_ld_filter, insert_file_ld_link, insert_file_ld_literal}
use caskfs.LinkedData.Tables.{insert_filters, insert_links, insert_literals, insert}

length-drop : {A : Type 0} (n : ℕ) (xs : List A) → length (drop n xs) ≤ length xs
length-drop zero xs = omega arith
length-drop (suc n) [] = omega arith
length-drop (suc n) (x ∷ xs) = omega (arith, length-drop n xs)

Mem_contains : (r : Triple) (rs : List Triple) → contains rs r ≡ true → Mem r rs
Mem_contains r [] h = absurd (ground (arith, h))
Mem_contains r (s ∷ rs) h = elim (r =? s) [
  | inl e ↦ inl e
  | inr n ↦ inr (Mem_contains r rs (ground (arith, n, h)))
]

add_triple_lem : (x r : Triple) (rs : List Triple) → Mem x (add_triple r rs) ↔ ((x ≡ r) ⊎ Mem x rs)
add_triple_lem x r rs = elim (Bool-cases (contains rs r)) [
  | inl there ↦ rw there (
    (λ m. inr m),
    (λ m. elim m [
      | inl e ↦ subst (λ y. Mem y rs) (sym e) (Mem_contains r rs there)
      | inr old ↦ old
    ]),
  )
  | inr absent ↦ rw absent (
    (λ m. elim (Mem_of_append x rs (r ∷ []) m) [
      | inl old ↦ inr old
      | inr new ↦ elim new [ inl e ↦ inl e | inr none ↦ absurd none ]
    ]),
    (λ m. Mem_append x rs (r ∷ []) (elim m [ inl e ↦ inr (inl e) | inr old ↦ inl old ])),
  )
]

module _ {A : Type 0} (step : A → Tables → Tables) where
  each-split :
      (n : ℕ) (xs : List A) (t : Tables)
      → each step (drop n xs) (each step (take n xs) t) ≡ each step xs t
  each-split zero xs t = refl
  each-split (suc n) [] t = refl
  each-split (suc n) (x ∷ xs) t = each-split n xs (step x t)

  -- Batches of at least one item come to the same as one item after the other.
  in_batches-each :
      (m rounds : ℕ) (xs : List A) (t : Tables)
      → length xs ≤ rounds
      → in_batches (suc m) step rounds xs t ≡ each step xs t
  unfolding in_batches
  in_batches-each m zero [] t enough = refl
  in_batches-each m zero (x ∷ xs) t enough = absurd (omega arith)
  in_batches-each m (suc n) [] t enough = refl
  in_batches-each m (suc n) (x ∷ xs) t enough =
      in_batches-each m n (drop m xs) (each step (take m xs) (step x t))
        (omega (arith, length-drop m xs))
      ∙ each-split m xs (step x t)

  each-Keeps :
      {X : Type 0} (f : Tables → X)
      → ((x : A) (t : Tables) → f (step x t) ≡ f t)
      → (xs : List A) (t : Tables) → f (each step xs t) ≡ f t
  each-Keeps f h [] t = refl
  each-Keeps f h (x ∷ xs) t = each-Keeps f h xs (step x t) ∙ h x t

  -- Where each item adds a row, the rows are those of the items and the old ones.
  each_added :
      (f : Tables → List Triple) (row : A → Triple)
      → ((x : A) (t : Tables) → f (step x t) ≡ add_triple (row x) (f t))
      → (r : Triple) (xs : List A) (t : Tables)
      → Mem r (f (each step xs t)) ↔ (((x : A) × Mem x xs × (r ≡ row x)) ⊎ Mem r (f t))
  each_added f row h r [] t =
      ((λ m. inr m), (λ m. elim m [ inl (x, none, e) ↦ absurd none | inr old ↦ old ]))
  each_added f row h r (x ∷ xs) t =
      let rest = each_added f row h r xs (step x t) in
      let first = add_triple_lem r (row x) (f t) in
      (
        (λ m. elim (rest.0 m) [
          | inl (y, there, e) ↦ inl (y, inr there, e)
          | inr new ↦ elim (first.0 (subst (Mem r) (h x t) new)) [
            | inl e ↦ inl (x, inl refl, e)
            | inr old ↦ inr old
          ]
        ]),
        (λ m. elim m [
          | inl (y, there, e) ↦ elim there [
            | inl same ↦
                rest.1 (inr (subst (Mem r) (sym (h x t)) (first.1 (inl (e ∙ ap row same)))))
            | inr later ↦ rest.1 (inl (y, later, e))
          ]
          | inr old ↦ rest.1 (inr (subst (Mem r) (sym (h x t)) (first.1 (inr old))))
        ]),
      )

  batched :
      (size : ℕ) (xs : List A) (t : Tables)
      → 1 ≤ size
      → in_batches size step (length xs) xs t ≡ each step xs t
  batched zero xs t some_size = absurd (omega arith)
  batched (suc m) xs t some_size = in_batches-each m (length xs) xs t (omega arith)

module _ (set : Settings) (some_size : 1 ≤ set.insert_batch_size) (f : ℕ) where
  insert_literals-links :
      (ls : List LiteralItem) (t : Tables) → (insert_literals set f ls t).links ≡ t.links
  unfolding insert_literals
  insert_literals-links ls t =
      ap (λ (t : Tables). t.links)
        (batched (insert_file_ld_literal f) set.insert_batch_size ls t some_size)
      ∙ each-Keeps (insert_file_ld_literal f) (λ t. t.links) (λ x t. refl) ls t

  insert_literals-filters :
      (ls : List LiteralItem) (t : Tables) → (insert_literals set f ls t).filters ≡ t.filters
  unfolding insert_literals
  insert_literals-filters ls t =
      ap (λ (t : Tables). t.filters)
        (batched (insert_file_ld_literal f) set.insert_batch_size ls t some_size)
      ∙ each-Keeps (insert_file_ld_literal f) (λ t. t.filters) (λ x t. refl) ls t

  insert_filters-links :
      (type : Text) (us : List Text) (t : Tables) → (insert_filters set f type us t).links ≡ t.links
  unfolding insert_filters
  insert_filters-links type us t =
      ap (λ (t : Tables). t.links)
        (batched (insert_file_ld_filter f type) set.insert_batch_size us t some_size)
      ∙ each-Keeps (insert_file_ld_filter f type) (λ t. t.links) (λ x t. refl) us t

  insert_filters_lem :
      (r : Triple) (type : Text) (us : List Text) (t : Tables)
      → Mem r (insert_filters set f type us t).filters
        ↔ (((u : Text) × Mem u us × (r ≡ (f, (type, u)))) ⊎ Mem r t.filters)
  unfolding insert_filters
  insert_filters_lem r type us t =
      rw (batched (insert_file_ld_filter f type) set.insert_batch_size us t some_size) (
        each_added (insert_file_ld_filter f type) (λ t. t.filters) (λ u. (f, (type, u)))
          (λ x t. refl) r us t)

  module _ (path : Text) where
    insert_links-filters :
        (ls : List (Text × Text)) (t : Tables) → (insert_links set f path ls t).filters ≡ t.filters
    unfolding insert_links
    insert_links-filters ls t =
        ap (λ (t : Tables). t.filters)
          (batched (λ l. insert_file_ld_link f (resolved set path l)) set.insert_batch_size ls t
            some_size)
        ∙ each-Keeps (λ l. insert_file_ld_link f (resolved set path l)) (λ t. t.filters)
            (λ x t. refl) ls t

    insert_links_lem :
        (r : Triple) (ls : List (Text × Text)) (t : Tables)
        → Mem r (insert_links set f path ls t).links
          ↔ (((l : Text × Text) × Mem l ls × (r ≡ (f, resolved set path l))) ⊎ Mem r t.links)
    unfolding insert_links
    insert_links_lem r ls t =
        rw
          (batched (λ l. insert_file_ld_link f (resolved set path l)) set.insert_batch_size ls t
            some_size)
          (each_added (λ l. insert_file_ld_link f (resolved set path l)) (λ t. t.links)
            (λ l. (f, resolved set path l)) (λ x t. refl) r ls t)

    pub insert-links :
        (r : Triple) (p : Parsed) (t : Tables)
        → Mem r (insert set f path p t).links ↔ (
            ((l : Text × Text) × Mem l (values p.link_map) × (r ≡ (f, resolved set path l)))
            ⊎ Mem r t.links)
    unfolding insert
    insert-links r p t =
        let t1 = insert_filters set f (codes "graph") p.graphs t in
        let t2 = insert_filters set f (codes "subject") p.subjects t1 in
        let t3 = insert_filters set f (codes "predicate") p.predicates t2 in
        let t4 = insert_filters set f (codes "object") p.objects t3 in
        let t5 = insert_filters set f (codes "type") p.types t4 in
        let ls = values p.link_map in
        let kept : t5.links ≡ t.links =
          insert_filters-links (codes "type") p.types t4
          ∙ insert_filters-links (codes "object") p.objects t3
          ∙ insert_filters-links (codes "predicate") p.predicates t2
          ∙ insert_filters-links (codes "subject") p.subjects t1
          ∙ insert_filters-links (codes "graph") p.graphs t in
        let made = insert_links_lem r ls t5 in
        let last = insert_literals-links p.literals (insert_links set f path ls t5) in
        (
          (λ m. elim (made.0 (subst (Mem r) last m)) [
            | inl new ↦ inl new
            | inr old ↦ inr (subst (Mem r) kept old)
          ]),
          (λ m. subst (Mem r) (sym last) (
              made.1
                (elim m [ inl new ↦ inl new | inr old ↦ inr (subst (Mem r) (sym kept) old) ]))),
        )

  -- Filters of another type are added to others.
  other_filters :
      (g : ℕ) (k u type : Text) (us : List Text) (t : Tables)
      → ¬ (k ≡ type)
      → Mem (g, (k, u)) (insert_filters set f type us t).filters ↔ Mem (g, (k, u)) t.filters
  other_filters g k u type us t n =
      let made = insert_filters_lem (g, (k, u)) type us t in
      (
        (λ m. elim (made.0 m) [
          | inl (v, there, e) ↦ absurd (n (ap (λ (r : Triple). r.1.0) e))
          | inr old ↦ old
        ]),
        (λ m. made.1 (inr m)),
      )

  module _ (path : Text) where
    pub insert-subjects :
        (g : ℕ) (u : Text) (p : Parsed) (t : Tables)
        → Mem (g, (codes "subject", u)) (insert set f path p t).filters
          ↔ (((g ≡ f) × Mem u p.subjects) ⊎ Mem (g, (codes "subject", u)) t.filters)
    unfolding insert
    insert-subjects g u p t =
        let r : Triple = (g, (codes "subject", u)) in
        let t1 = insert_filters set f (codes "graph") p.graphs t in
        let t2 = insert_filters set f (codes "subject") p.subjects t1 in
        let t3 = insert_filters set f (codes "predicate") p.predicates t2 in
        let t4 = insert_filters set f (codes "object") p.objects t3 in
        let t5 = insert_filters set f (codes "type") p.types t4 in
        let t6 = insert_links set f path (values p.link_map) t5 in
        let kept : (insert_literals set f p.literals t6).filters ≡ t5.filters =
          insert_literals-filters p.literals t6
          ∙ insert_links-filters path (values p.link_map) t5 in
        let s : Text = codes "subject" in
        let e5 = other_filters g s u (codes "type") p.types t4 (λ e. ground (arith, e)) in
        let e4 = other_filters g s u (codes "object") p.objects t3 (λ e. ground (arith, e)) in
        let e3 = other_filters g s u (codes "predicate") p.predicates t2 (λ e. ground (arith, e)) in
        let made = insert_filters_lem r s p.subjects t1 in
        let e1 = other_filters g s u (codes "graph") p.graphs t (λ e. ground (arith, e)) in
        (
          (λ m. elim (made.0 (e3.0 (e4.0 (e5.0 (subst (Mem r) kept m))))) [
            | inl (v, there, e) ↦ inl (
              ap (λ (x : Triple). x.0) e,
              subst (λ x. Mem x p.subjects) (sym (ap (λ (x : Triple). x.1.1) e)) there,
            )
            | inr old ↦ inr (e1.0 old)
          ]),
          (λ m. subst (Mem r) (sym kept) (
              e5.1 (
                e4.1 (
                  e3.1 (
                    made.1 (elim m [
                      | inl (same, there) ↦
                          let at : ℕ → Triple = λ x. (x, (s, u)) in inl (u, there, ap at same)
                      | inr old ↦ inr (e1.1 old)
                    ])))))),
        )
