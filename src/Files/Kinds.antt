-- ===== src/Files/Kinds.antt =====
-- src/index.js: how `write` finds the MIME type and the resource type of a file.
use caskfs.Base.{◌==◌, ◌||◌, nat_eq, list_eq, Bool, false, Option, none, some, List, [], ◌∷◌, ◌++◌}
use caskfs.Base.{contains, if◌then◌else◌}
use caskfs.Base.Dict.{lookup, insert}
use caskfs.Base.Text.{Text, codes}
use caskfs.Metadata.{Metadata}
use caskfs.Cas.Ops.{truthy}
use caskfs.Files.Repo.{Host, Request}

-- The JSON text of a string without characters to escape, and of null.
abbrev pub quote : Text → Text
quote t = 34 ∷ (t ++ 34 ∷ [])

abbrev pub or_null : Option Text → Text
or_null none = codes "null"
or_null (some t) = quote t

-- The JSON texts of the values that JavaScript takes for false.
unfoldable pub false_values : List Text
false_values = quote [] ∷ codes "null" ∷ codes "false" ∷ codes "0" ∷ []

abbrev pub if_true : Option Text → Option Text
if_true none = none
if_true (some t) = if contains false_values t then none else some t

abbrev pub quoted : Option Text → Option Text
quoted none = none
quoted (some t) = some (quote t)

abbrev pub or_else : Option Text → Option Text → Option Text
or_else none b = b
or_else (some a) b = some a

abbrev pub or_text : Option Text → Text → Text
or_text none t = t
or_text (some a) t = a

unfoldable pub mime_key : Text
mime_key = codes "mimeType"

unfoldable pub resource_key : Text
resource_key = codes "resourceType"

unfoldable pub json_ld : Text
json_ld = quote (codes "application/ld+json")

unfoldable pub rdf_types : List Text
unfolding json_ld
rdf_types =
    quote (codes "application/n-quads")
    ∷ json_ld
    ∷ quote (codes "text/n3")
    ∷ quote (codes "application/n-triples")
    ∷ quote (codes "text/turtle")
    ∷ []

-- p.endsWith(t)
abbrev pub ends_with : Text → Text → Bool
ends_with t [] = [] == t
ends_with t (c ∷ p) = (c ∷ p) == t || ends_with t p

abbrev pub path_ends_with : Text → Option Text → Bool
path_ends_with t none = false
path_ends_with t (some p) = ends_with t p

unfoldable pub jsonld_ext : Text
jsonld_ext = codes ".jsonld.json"

-- metadata.mimeType || context.data.mimeType || context.data.contentType
unfoldable pub given_type : Request → Option Text
unfolding mime_key false_values
given_type q =
    or_else (if_true (lookup mime_key q.metadata))
      (or_else (quoted (truthy q.mime_type)) (quoted (truthy q.content_type)))

-- `context.readPath` is not `context.data.readPath`, so that the type of the file that is read is
-- never asked for.
unfoldable pub detected_type : Host → Request → Text
unfolding jsonld_ext json_ld
detected_type host q =
    if ends_with jsonld_ext q.file_path || path_ends_with jsonld_ext q.input.read_path
    then json_ld
    else or_null (host.get_type q.file_path)

unfoldable pub mime_type_of : Host → Request → Text
unfolding given_type detected_type
mime_type_of host q = or_text (given_type q) (detected_type host q)

unfoldable pub is_rdf : Host → Request → Bool
unfolding mime_type_of rdf_types
is_rdf host q = contains rdf_types (mime_type_of host q)

unfoldable pub resource_type : Bool → Text
resource_type rdf = quote (if rdf then codes "rdf" else codes "file")

-- The metadata with the two types.
unfoldable pub described : Host → Request → Metadata
unfolding mime_type_of is_rdf mime_key resource_key resource_type
described host q =
    insert resource_key (resource_type (is_rdf host q))
      (insert mime_key (mime_type_of host q) q.metadata)
