-- ===== src/Ranges/Tests.antt =====
-- src/controllers/fs.js: requests of a file of ten bytes, and the theorems at them.
use caskfs.Base.{◌≡◌, ◌↔◌, refl, none, some, nat_eq, list_eq, option_eq, arith}
use caskfs.Base.Text.{codes}
use caskfs.Ranges.Defs.{Request, Found, not_modified, metadata_only, unsatisfiable, partial}
use caskfs.Ranges.Defs.{get_file, serve_range, parse_range_header}
use caskfs.Ranges.Serving.{IsWithin, get_file-IsWithin}
use caskfs.Ranges.Asked.{Asks, Serves, header, serve_range-Asks}

abbrev plain : Request
plain = record { metadata = none; accept = none; if_none_match = none; range = none }

abbrev ten : Found
ten = record { size = some 10; hash_value = some (codes "ab") }

abbrev ranged : Request
ranged = record plain { range = some (codes "bytes=4-99") }

range_run : get_file ranged ten ≡ partial 4 9 10 6
unfolding get_file serve_range parse_range_header nat_eq list_eq option_eq
range_run = refl

-- A request of two ranges is refused, and not answered with the whole file.
two_ranges :
    get_file (record plain { range = some (codes "bytes=0-1,4-5") }) ten ≡ unsatisfiable (some 10)
unfolding get_file serve_range parse_range_header nat_eq list_eq option_eq
two_ranges = refl

empty_file :
    get_file
      (record plain { range = some (codes "bytes=-3") })
      (record { size = some 0; hash_value = none })
    ≡ unsatisfiable (some 0)
unfolding get_file serve_range parse_range_header nat_eq list_eq option_eq
empty_file = refl

same_hash : get_file (record plain { if_none_match = some (codes "ab") }) ten ≡ not_modified
unfolding get_file serve_range parse_range_header nat_eq list_eq option_eq
same_hash = refl

metadata_run : get_file (record plain { metadata = some (codes " True") }) ten ≡ metadata_only
unfolding get_file serve_range parse_range_header nat_eq list_eq option_eq
metadata_run = refl

get_file-IsWithin_example : IsWithin (some 10) (get_file ranged ten)
get_file-IsWithin_example = get_file-IsWithin ranged ten

serve_range-Asks_example :
    Serves (serve_range (header (codes "4") (codes "99")) (some 10)) 7
    ↔ Asks (codes "4") (codes "99") 10 7
serve_range-Asks_example = serve_range-Asks (codes "4") (codes "99") 10 7 refl refl (omega arith)
