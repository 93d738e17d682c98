-- ===== src/LinkedData/Seen.antt =====
-- src/lib/ld.js: what `getOutboundLinks` says of a file after a write.
use caskfs.Base.{ℕ, ◌≡◌, refl, sym, subst, ◌↔◌, true, ◌≤◌, inl, inr, length, take-all}
use caskfs.Base.{List, ◌++◌, All, Mem}
use caskfs.Base.Text.{Text, codes}
use caskfs.LinkedData.Quads.{Settings, Quad}
use caskfs.LinkedData.Tables.{Tables, replace}
use caskfs.LinkedData.Links.{Options, World, is_selected, is_asked, limit_of, outbound_rows}
use caskfs.LinkedData.Links.{get_outbound_links}
use caskfs.LinkedData.Noted.{NoBar}
use caskfs.LinkedData.Dual.{outbound-IsLinked, IsLinked-outbound}
use caskfs.LinkedData.Exact.{IsLinkTo, links_lem, subjects_lem}

module _ (set : Settings) (some_size : 1 ≤ set.insert_batch_size) (o : Options) (w : World) where
  -- After the linked data of a file are replaced, its outbound links list another file under a
  -- predicate exactly if a quad that does not give a type has the predicate and a named object that
  -- resolves to a subject of that file. The options select that file and ask for the predicate, the
  -- listing has no more rows than its limit, no predicate of the quads has a "|", and the batches have
  -- at least one item.
  pub get_outbound_links-replace :
      (f : ℕ) (path : Text) (cask_quads file_quads : List Quad) (t : Tables)
      → w.tables ≡ replace set f path cask_quads file_quads t
      → (p : Text) (b : ℕ) → ¬ (b ≡ f)
      → is_selected o w b ≡ true
      → is_asked o.predicate p ≡ true
      → length (outbound_rows o w f) ≤ limit_of o
      → All (λ (q : Quad). NoBar q.predicate.value) (cask_quads ++ file_quads)
      → Mem (p, b) (get_outbound_links o w f) ↔ (
          (u : Text) × IsLinkTo set path (cask_quads ++ file_quads) p u
          × Mem (b, (codes "subject", u)) t.filters)
  unfolding get_outbound_links
  get_outbound_links-replace f path cask_quads file_quads t now p b other sel asked few bars =
      let whole = take-all (limit_of o) (outbound_rows o w f) few in
      (
        (λ m.
            let (u, link, name, _) = outbound-IsLinked o w p f b (subst (Mem (p, b)) whole m) in
            let named =
              subst (λ (ts : Tables). Mem (b, (codes "subject", u)) ts.filters) now name in
            elim ((links_lem set some_size f path cask_quads file_quads t f p u bars).0
              (subst (λ (ts : Tables). Mem (f, (p, u)) ts.links) now link)) [
                | inl (_, to_u) ↦
                    elim ((subjects_lem set some_size f path cask_quads file_quads t b u).0 named) [
                      | inl (same, _) ↦ absurd (other same)
                      | inr (_, old) ↦ (u, to_u, old)
                    ]
                | inr (apart, _) ↦ absurd (apart refl)
              ]),
        (λ (u, to_u, old).
            let link =
              (links_lem set some_size f path cask_quads file_quads t f p u bars).1
                (inl (refl, to_u)) in
            let name =
              (subjects_lem set some_size f path cask_quads file_quads t b u).1
                (inr (other, old)) in
            subst (Mem (p, b)) (sym whole) (
              IsLinked-outbound o w p f b (λ e. other (sym e)) sel
                (
                  u,
                  subst (λ (ts : Tables). Mem (f, (p, u)) ts.links) (sym now) link,
                  subst (λ (ts : Tables). Mem (b, (codes "subject", u)) ts.filters) (sym now) name,
                  asked,
                ))),
      )
