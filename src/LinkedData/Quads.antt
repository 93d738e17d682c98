-- ===== src/LinkedData/Quads.antt =====
-- src/lib/ld.js: `_resolveIdPath`, `_isLiteralPredicate` and what `parseLinkedData` takes of the quads.
use caskfs.Base.{ℕ, ◌==◌, contains, nat_eq, list_eq, option_eq, Bool, true, false, not, ◌&&◌, ◌||◌}
use caskfs.Base.{
  if◌then◌else◌, leb, is_some, Option, none, some, List, [], ◌∷◌, ◌++◌, map, keep, length, drop,
}
use caskfs.Base.Dict.{Dict, insert, lookup}
use caskfs.Base.Text.{Text, codes}
use caskfs.Paths.{slash, parse_dir}
use caskfs.Transfer.Extract.{resolve, starts_with}

pub data TermType : Type 0 where
  named_node blank_node literal default_graph : TermType

-- `language` and `datatype` are of literals.
pub record Term : Type 0 where
  pub term_type : TermType
  pub value : Text
  pub language : Option Text
  pub datatype : Option Text

pub record Quad : Type 0 where
  pub graph : Term
  pub subject : Term
  pub predicate : Term
  pub object : Term

-- The configuration. `literal_matches` asks whether one of the regular expressions matches.
pub record Settings : Type 0 where
  pub schema_prefix : Text
  pub default_graph : Text
  pub type_predicate : Text
  pub literal_predicates : List Text
  pub literal_matches : Text → Bool
  pub string_data_types : List Text
  pub insert_batch_size : ℕ

pub record LiteralItem : Type 0 where
  pub graph : Text
  pub subject : Text
  pub predicate : Text
  pub value : Text
  pub language : Option Text
  pub datatype : Option Text

-- `filters`, `linkMap`, `literals` and `types`. A set keeps the order in which values are added.
pub record Parsed : Type 0 where
  pub graphs : List Text
  pub subjects : List Text
  pub predicates : List Text
  pub objects : List Text
  pub link_map : Dict Text (Text × Text)
  pub literals : List LiteralItem
  pub types : List Text

abbrev is_named_node : TermType → Bool
is_named_node named_node = true
is_named_node blank_node = false
is_named_node literal = false
is_named_node default_graph = false

abbrev is_literal_type : TermType → Bool
is_literal_type named_node = false
is_literal_type blank_node = false
is_literal_type literal = true
is_literal_type default_graph = false

abbrev pub is_named : Term → Bool
is_named t = is_named_node t.term_type

abbrev is_literal : Term → Bool
is_literal t = is_literal_type t.term_type

-- [a-z0-9+.-] with the flag i
abbrev is_scheme_char : ℕ → Bool
is_scheme_char c =
    (leb 97 c && leb c 122)
    || (leb 65 c && leb c 90)
    || (leb 48 c && leb c 57)
    || c == 43
    || c == 46
    || c == 45

abbrev scheme_ends : Text → Bool
scheme_ends [] = false
scheme_ends (c ∷ t) = c == 58 || (is_scheme_char c && scheme_ends t)

-- id.match(/^[a-z0-9+.-]+:/i)
abbrev has_scheme : Text → Bool
has_scheme [] = false
has_scheme (c ∷ t) = is_scheme_char c && scheme_ends t

-- replace(s, '')
abbrev remove_first : Text → Text → Text
remove_first s [] = []
remove_first s (c ∷ t) =
    let rest = remove_first s t in
    if starts_with s (c ∷ t) then drop (length s) (c ∷ t) else c ∷ rest

abbrev without_ext : Text → Text
without_ext path = remove_first (codes ".jsonld.json") path

module _ (set : Settings) where
  abbrev own_id : Text → Text
  own_id [] = set.default_graph
  own_id (c ∷ path) = set.schema_prefix ++ without_ext (c ∷ path)

  -- An id after the prefix, which is not absolute.
  abbrev beside : Text → Text → Text
  beside id [] = set.schema_prefix ++ id
  beside id (c ∷ path) = set.schema_prefix ++ resolve (parse_dir (c ∷ path) ++ slash ∷ id)

  abbrev resolve_cask : Text → Text → Text
  resolve_cask [] path = set.schema_prefix ++ without_ext path
  resolve_cask (c ∷ id) path =
      if c == slash then set.schema_prefix ++ c ∷ id else beside (c ∷ id) path

  abbrev resolve_id : Text → Text → Text
  resolve_id [] path = own_id path
  resolve_id (c ∷ id) path =
      if starts_with set.schema_prefix (c ∷ id)
      then resolve_cask (drop (length set.schema_prefix) (c ∷ id)) path
      else if not (has_scheme (c ∷ id))
      then set.schema_prefix ++ c ∷ id
      else c ∷ id

  unfoldable pub resolve_id_path : Text → Text → Text
  resolve_id_path id path = resolve_id (if id == codes "./" then [] else id) path

  abbrev pub is_literal_predicate : Quad → Bool
  is_literal_predicate q =
      is_named q.subject
      && is_named q.predicate
      && is_literal q.object
      && (contains set.literal_predicates q.predicate.value
          || set.literal_matches q.predicate.value)

-- Set.add
abbrev pub add_new : Text → List Text → List Text
add_new v vs = if contains vs v then vs else vs ++ v ∷ []

abbrev pub add_when : Bool → Text → List Text → List Text
add_when true v vs = add_new v vs
add_when false v vs = vs

-- The key of a link in `linkMap`; 124 is "|".
abbrev pub link_key : Text → Text → Text
link_key p o = p ++ 124 ∷ o

abbrev pub add_link : Bool → Text → Text → Dict Text (Text × Text) → Dict Text (Text × Text)
add_link true p o links =
    if is_some (lookup (link_key p o) links) then links else insert (link_key p o) (p, o) links
add_link false p o links = links

abbrev non_empty : Option Text → Option Text
non_empty none = none
non_empty (some []) = none
non_empty (some (c ∷ t)) = some (c ∷ t)

abbrev other_type : List Text → Option Text → Option Text
other_type strings none = none
other_type strings (some d) = if contains strings d then none else some d

module _ (set : Settings) (path : Text) where
  abbrev literal_item : Quad → LiteralItem
  literal_item q = record {
    graph = resolve_id_path set q.graph.value [];
    subject = resolve_id_path set q.subject.value path;
    predicate = q.predicate.value;
    value = q.object.value;
    language = non_empty q.object.language;
    datatype = other_type set.string_data_types (non_empty q.object.datatype);
  }

  abbrev pub add_literal : Quad → List LiteralItem → List LiteralItem
  add_literal q ls = if is_literal_predicate set q then ls ++ literal_item q ∷ [] else ls

  -- The body of allQuads.forEach after its first test
  abbrev pub note_quad : Quad → Parsed → Parsed
  note_quad q p = record p {
    graphs = add_when (is_named q.graph) (resolve_id_path set q.graph.value []) p.graphs;
    subjects = add_when (is_named q.subject) (resolve_id_path set q.subject.value path) p.subjects;
    predicates = add_when (is_named q.predicate) q.predicate.value p.predicates;
    objects = add_when (is_named q.object) (resolve_id_path set q.object.value path) p.objects;
    link_map =
        add_link (is_named q.predicate && is_named q.object) q.predicate.value q.object.value
          p.link_map;
    literals = add_literal q p.literals;
  }

  abbrev pub note_other : Bool → Quad → Parsed → Parsed
  note_other true q p = p
  note_other false q p = note_quad q p

  unfoldable pub note_quads : List Quad → Parsed → Parsed
  note_quads [] p = p
  note_quads (q ∷ qs) p = note_quads qs (note_other (q.predicate.value == set.type_predicate) q p)

  abbrev unique : List Text → List Text → List Text
  unique seen [] = seen
  unique seen (v ∷ vs) = unique (add_new v seen) vs

  abbrev types_of : List Quad → List Text
  types_of qs = unique [] (
      map (λ (q : Quad). q.object.value)
        (keep (λ (q : Quad). q.predicate.value == set.type_predicate) qs))

  -- What parseLinkedData takes of the quads about a file and of those in it
  unfoldable pub parse_quads : List Quad → List Quad → Parsed
  unfolding note_quads
  parse_quads cask_quads file_quads = note_quads (cask_quads ++ file_quads) (record {
    graphs = [];
    subjects = [];
    predicates = [];
    objects = [];
    link_map = [];
    literals = [];
    types = types_of file_quads;
  })
