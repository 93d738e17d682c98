-- ===== src/LinkedData/Links.antt =====
-- src/lib/ld.js: `getInboundLinks`, `getOutboundLinks` and `relationships`, without `stats`, and the
-- clauses that generateFileWithFilter and generateAclWithFilter of src/lib/database/index.js add.
use caskfs.Base.{
  ℕ, ◌==◌, contains, nat_eq, list_eq, option_eq, pair_eq, Bool, true, false, not, ◌&&◌, ◌||◌,
}
use caskfs.Base.{if◌then◌else◌, Option, none, some, List, [], ◌∷◌, ◌++◌, map, keep, any, take}
use caskfs.Base.Dict.{Dict, insert, lookup}
use caskfs.Base.Text.{Text, codes}
use caskfs.Acl.Db.{Db}
use caskfs.LinkedData.Readable.{may_read}
use caskfs.LinkedData.Tables.{Triple, Tables}

pub record FileInfo : Type 0 where
  pub filepath : Text
  pub directory_id : ℕ
  pub partition_keys : List Text

pub record World : Type 0 where
  pub tables : Tables
  pub files : Dict ℕ FileInfo
  pub db : Db

-- `lookup_required` is what aclLookupRequired answers, `user_id` what getUserId finds.
pub record Options : Type 0 where
  pub predicate : Option Text
  pub object : Option Text
  pub subject : Option Text
  pub graph : Option Text
  pub type : Option Text
  pub partition_keys : Option (List Text)
  pub lookup_required : Bool
  pub user_id : Option ℕ
  pub limit : ℕ

abbrev matches_filter : Tables → ℕ → Text → Option Text → Bool
matches_filter t f type none = true
matches_filter t f type (some []) = true
matches_filter t f type (some (c ∷ uri)) = contains t.filters (f, (type, c ∷ uri))

abbrev has_keys : Option FileInfo → List Text → Bool
has_keys none ks = false
has_keys (some i) [] = true
has_keys (some i) (k ∷ ks) = contains i.partition_keys k && has_keys (some i) ks

-- The first of the keys is joined even where the array is empty, and then equals nothing.
abbrev matches_keys : Option FileInfo → Option (List Text) → Bool
matches_keys i none = true
matches_keys i (some []) = false
matches_keys i (some (k ∷ ks)) = has_keys i (k ∷ ks)

-- `predicate` is deleted before the filters are made.
abbrev matches_filters : Options → World → ℕ → Bool
matches_filters o w f =
    matches_filter w.tables f (codes "object") o.object
    && matches_filter w.tables f (codes "subject") o.subject
    && matches_filter w.tables f (codes "graph") o.graph
    && matches_filter w.tables f (codes "type") o.type
    && matches_keys (lookup f w.files) o.partition_keys

abbrev is_readable : Options → Db → Option FileInfo → Bool
is_readable o db none = false
is_readable o db (some i) = may_read db o.user_id i.directory_id

-- The part of `files` and `acl_files` that does not depend on the links
unfoldable pub is_selected : Options → World → ℕ → Bool
is_selected o w f =
    matches_filters o w f && (not o.lookup_required || is_readable o w.db (lookup f w.files))

abbrev pub is_asked : Option Text → Text → Bool
is_asked none p = true
is_asked (some []) p = true
is_asked (some (c ∷ u)) p = p == c ∷ u

abbrev pub limit_of : Options → ℕ
limit_of o = if o.limit == 0 then 1000 else o.limit

-- A row has the predicate and, in place of its path, the file.
abbrev pub LinkRow : Type 0
LinkRow = Text × ℕ

-- INNER JOIN links l ON l.uri_id = tos.object_uri
abbrev pub joined : List Triple → List Triple → List LinkRow
joined [] rs = []
joined (l ∷ ls) rs = map (λ r. (l.1.0, r.0)) (keep (λ r. r.1.1 == l.1.1) rs) ++ joined ls rs

module _ (o : Options) (w : World) where
  -- target_subjects
  abbrev pub is_subject : ℕ → Text → Bool
  is_subject f uri =
      any (λ r. r.0 == f && r.1.0 == codes "subject" && r.1.1 == uri) w.tables.filters

  -- target_subject_match, on a row of file_ld_link
  abbrev pub is_inbound : ℕ → Triple → Bool
  is_inbound f l = is_subject f l.1.1 && is_asked o.predicate l.1.0

  -- files or acl_files, with target_subject_file_match
  abbrev pub links_in : ℕ → ℕ → Bool
  links_in f g =
      any (λ l. l.0 == g && is_inbound f l) w.tables.links && not (g == f) && is_selected o w g

  abbrev pub inbound_rows : ℕ → List LinkRow
  inbound_rows f =
      map (λ l. (l.1.0, l.0)) (keep (λ l. links_in f l.0 && is_inbound f l) w.tables.links)

  unfoldable pub get_inbound_links : ℕ → List LinkRow
  unfolding is_selected
  get_inbound_links f = take (limit_of o) (inbound_rows f)

  -- target_objects
  abbrev pub target_objects : ℕ → List Triple
  target_objects f = keep (λ l. l.0 == f && is_asked o.predicate l.1.0) w.tables.links

  -- target_object_match, on a row of file_ld_filter
  abbrev pub is_outbound : ℕ → Triple → Bool
  is_outbound f r = r.1.0 == codes "subject" && any (λ l. l.1.1 == r.1.1) (target_objects f)

  abbrev pub links_out : ℕ → ℕ → Bool
  links_out f g =
      any (λ r. r.0 == g && is_outbound f r) w.tables.filters && not (g == f) && is_selected o w g

  -- links
  abbrev pub outbound_filters : ℕ → List Triple
  outbound_filters f = keep (λ r. links_out f r.0 && is_outbound f r) w.tables.filters

  abbrev pub outbound_rows : ℕ → List LinkRow
  outbound_rows f = joined (target_objects f) (outbound_filters f)

  unfoldable pub get_outbound_links : ℕ → List LinkRow
  unfolding is_selected
  get_outbound_links f = take (limit_of o) (outbound_rows f)

-- The path of a file, or null
abbrev path_in : Option FileInfo → Option Text
path_in none = none
path_in (some i) = some i.filepath

abbrev listed : Option (List (Option Text)) → Option Text → List (Option Text)
listed none p = p ∷ []
listed (some ps) p = if contains ps p then ps else ps ++ p ∷ []

-- _formatRelResponse
abbrev pub format_rel :
    World → List LinkRow → Dict Text (List (Option Text)) → Dict Text (List (Option Text))
format_rel w [] found = found
format_rel w ((p, f) ∷ rows) found =
    format_rel w rows (insert p (listed (lookup p found) (path_in (lookup f w.files))) found)

pub record Relationships : Type 0 where
  pub outbound : Dict Text (List (Option Text))
  pub inbound : Dict Text (List (Option Text))

-- getInboundLinks deletes `predicate` from the options before getOutboundLinks reads them.
unfoldable pub relationships : Options → World → ℕ → Relationships
unfolding get_inbound_links get_outbound_links
relationships o w f = record {
  outbound = format_rel w (get_outbound_links (record o { predicate = none }) w f) [];
  inbound = format_rel w (get_inbound_links o w f) [];
}
