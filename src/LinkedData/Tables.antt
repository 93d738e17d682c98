-- ===== src/LinkedData/Tables.antt =====
-- src/lib/ld.js and src/schema/layer3-ld.sql: the tables of linked data, `insert` and `delete`. A
-- row names a URI itself, where the database has the id of its row in `uri`, `ld_filter`, `ld_link` or
-- `ld_literal`, which are unique; URIs have room in their columns.
use caskfs.Base.{ℕ, ◌==◌, contains, nat_eq, list_eq, pair_eq, not, if◌then◌else◌}
use caskfs.Base.{Option, none, some, List, [], ◌∷◌, ◌++◌, keep, length, take, drop, zero, suc}
use caskfs.Base.Dict.{Dict}
use caskfs.Base.Text.{Text, codes}
use caskfs.LinkedData.Quads.{Settings, Quad, LiteralItem, Parsed, parse_quads, resolve_id_path}

-- file_id with the type and the URI of a filter, or with the predicate and the object of a link
abbrev pub Triple : Type 0
Triple = ℕ × (Text × Text)

-- graph, subject, predicate, value, language, datatype
abbrev pub LiteralRow : Type 0
LiteralRow = ℕ × (Text × (Text × (Text × (Text × (Text × Text)))))

pub record Tables : Type 0 where
  pub filters : List Triple
  pub links : List Triple
  pub literals : List LiteralRow

-- ON CONFLICT DO NOTHING
abbrev pub add_triple : Triple → List Triple → List Triple
add_triple r rs = if contains rs r then rs else rs ++ r ∷ []

abbrev add_row : LiteralRow → List LiteralRow → List LiteralRow
add_row r rs = if contains rs r then rs else rs ++ r ∷ []

abbrev pub insert_file_ld_filter : ℕ → Text → Text → Tables → Tables
insert_file_ld_filter f type uri t = record t { filters = add_triple (f, (type, uri)) t.filters }

abbrev pub insert_file_ld_link : ℕ → Text × Text → Tables → Tables
insert_file_ld_link f l t = record t { links = add_triple (f, l) t.links }

abbrev or_empty : Option Text → Text
or_empty none = []
or_empty (some v) = v

abbrev pub insert_file_ld_literal : ℕ → LiteralItem → Tables → Tables
insert_file_ld_literal f i t = record t {
  literals =
      add_row
        (
          f,
          (
            i.graph,
            (i.subject, (i.predicate, (i.value, (or_empty i.language, or_empty i.datatype)))),
          ),
        )
        t.literals;
}

abbrev pub each : {A : Type 0} → (A → Tables → Tables) → List A → Tables → Tables
each step [] t = t
each step (x ∷ xs) t = each step xs (step x t)

-- The loop by `insertBatchSize`, which makes at most as many rounds as there are items.
unfoldable pub in_batches : {A : Type 0} → ℕ → (A → Tables → Tables) → ℕ → List A → Tables → Tables
in_batches size step zero xs t = t
in_batches size step (suc rounds) [] t = t
in_batches size step (suc rounds) (x ∷ xs) t =
    in_batches size step rounds (drop size (x ∷ xs)) (each step (take size (x ∷ xs)) t)

-- linkMap.values()
abbrev pub values : Dict Text (Text × Text) → List (Text × Text)
values [] = []
values (e ∷ d) = e.1 ∷ values d

module _ (set : Settings) where
  unfoldable pub insert_filters : ℕ → Text → List Text → Tables → Tables
  insert_filters f type uris =
      in_batches set.insert_batch_size (insert_file_ld_filter f type) (length uris) uris

  abbrev pub resolved : Text → Text × Text → Text × Text
  resolved path l = (l.0, resolve_id_path set l.1 path)

  unfoldable pub insert_links : ℕ → Text → List (Text × Text) → Tables → Tables
  insert_links f path ls =
      in_batches set.insert_batch_size (λ l. insert_file_ld_link f (resolved path l)) (length ls) ls

  unfoldable pub insert_literals : ℕ → List LiteralItem → Tables → Tables
  insert_literals f ls = in_batches set.insert_batch_size (insert_file_ld_literal f) (length ls) ls

  unfoldable pub insert : ℕ → Text → Parsed → Tables → Tables
  insert f path p t = insert_literals f p.literals (
      insert_links f path (values p.link_map) (
        insert_filters f (codes "type") p.types (
          insert_filters f (codes "object") p.objects (
            insert_filters f (codes "predicate") p.predicates (
              insert_filters f (codes "subject") p.subjects
                (insert_filters f (codes "graph") p.graphs t))))))

-- The rows of literals stay.
unfoldable pub delete : ℕ → Tables → Tables
delete f t = record t {
  filters = keep (λ r. not (r.0 == f)) t.filters;
  links = keep (λ r. not (r.0 == f)) t.links;
}

-- The two steps of a write, on the parsed quads about the file and in it
unfoldable pub replace : Settings → ℕ → Text → List Quad → List Quad → Tables → Tables
unfolding insert delete parse_quads
replace set f path cask_quads file_quads t =
    insert set f path (parse_quads set path cask_quads file_quads) (delete f t)
