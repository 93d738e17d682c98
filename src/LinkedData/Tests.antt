-- ===== src/LinkedData/Tests.antt =====
-- src/lib/ld.js: two files that name each other, and the theorems at them.
use caskfs.Base.{
  ℕ, ◌≡◌, refl, ◌↔◌, ◌⊎◌, false, true, inl, none, some, arith, nat_eq, list_eq, pair_eq, option_eq,
}
use caskfs.Base.Dict.{lookup, insert}
use caskfs.Base.{List, [], ◌∷◌, All, Mem}
use caskfs.Base.Text.{Text, codes}
use caskfs.Acl.Db.{Db, Grant, read, write, acl_of, has_permission}
use caskfs.Paths.{parse_dir}
use caskfs.Transfer.Extract.{resolve}
use caskfs.LinkedData.Quads.{Term, Quad, Settings, named_node, literal, resolve_id_path}
use caskfs.LinkedData.Tables.{
  Tables, replace, insert_literals, in_batches, insert_links, insert_filters,
}
use caskfs.LinkedData.Links.{
  World, Options, is_selected, get_inbound_links, get_outbound_links, relationships,
}
use caskfs.LinkedData.Readable.{may_read}
use caskfs.LinkedData.Shown.{is_shown, may_read_lem}
use caskfs.LinkedData.Dual.{outbound-inbound}
use caskfs.LinkedData.Noted.{NoBar, IsSubject}
use caskfs.LinkedData.Seen.{get_outbound_links-replace}
use caskfs.LinkedData.Exact.{IsLinkTo, replace_lem}

abbrev settings : Settings
settings = record {
  schema_prefix = codes "cask:/";
  default_graph = codes "cask:/default";
  type_predicate = codes "a";
  literal_predicates = codes "n" ∷ [];
  literal_matches = λ p. false;
  string_data_types = [];
  insert_batch_size = 2;
}

abbrev named : Text → Term
named v = record { term_type = named_node; value = v; language = none; datatype = none }

abbrev triple : Text → Text → Term → Quad
triple s p o = record {
  graph = named (codes "cask:/default");
  subject = named s;
  predicate = named p;
  object = o;
}

abbrev word : Text → Term
word v = record { term_type = literal; value = v; language = none; datatype = none }

-- The quads of "/d/x": it is of a type, knows "y" beside it, twice, and has a name.
abbrev of_x : List Quad
of_x =
    triple (codes "cask:/") (codes "a") (named (codes "t:x"))
    ∷ triple (codes "cask:/") (codes "k") (named (codes "cask:/y"))
    ∷ triple (codes "cask:/") (codes "k") (named (codes "cask:/y"))
    ∷ triple (codes "cask:/") (codes "n") (word (codes "X"))
    ∷ []

-- "/d/y" has itself as a subject; "/d/x" has an old link.
abbrev before : Tables
before = record {
  filters = (2, (codes "subject", codes "cask://d/y")) ∷ (1, (codes "subject", codes "s:old")) ∷ [];
  links = (1, (codes "k", codes "s:old")) ∷ [];
  literals = (1, (codes "g:", (codes "s:old", (codes "n", (codes "Old", ([], [])))))) ∷ [];
}

own_id : resolve_id_path settings [] (codes "/d/x.jsonld.json") ≡ codes "cask://d/x"
unfolding resolve_id_path list_eq nat_eq
own_id = refl

relative_id : resolve_id_path settings (codes "y") (codes "/d/x") ≡ codes "cask:/y"
unfolding resolve_id_path list_eq nat_eq
relative_id = refl

abbrev everything : Options
everything = record {
  predicate = none;
  object = none;
  subject = none;
  graph = none;
  type = none;
  partition_keys = none;
  lookup_required = true;
  user_id = some 7;
  limit = 0;
}

-- A private directory, where the role 1 may read, in which the user 7 is, and the role 2 may write, in
-- which nobody is.
abbrev private_under : List Grant → ℕ → Db
private_under gs d = record {
  next_id = 40;
  roles = (codes "r", 1) ∷ (codes "s", 2) ∷ [];
  users = (codes "u", 7) ∷ [];
  role_users = record { role_id = 1; user_id = 7 } ∷ [];
  directories = record { directory_id = d; fullname = codes "/d"; parent_id = none } ∷ [];
  root_acls = record { root_directory_acl_id = 30; directory_id = d; is_public = false } ∷ [];
  directory_acls = (d, 30) ∷ [];
  grants = gs;
  files = [];
}

abbrev reads : Grant
reads = record { root_directory_acl_id = 30; permission = read; role_id = 1 }

abbrev of_nobody : Grant
of_nobody = record { root_directory_acl_id = 30; permission = write; role_id = 2 }

abbrev readers : ℕ → Db
readers = private_under (reads ∷ [])

may_read_lem_example :
    may_read (private_under (reads ∷ of_nobody ∷ []) 5) none 5
    ≡ is_shown
        (private_under (reads ∷ of_nobody ∷ []) 5)
        none
        (acl_of (private_under (reads ∷ of_nobody ∷ []) 5) 5)
may_read_lem_example = may_read_lem (private_under (reads ∷ of_nobody ∷ []) 5) none 5

-- The permission of a role that nobody is in shows the directory to everyone, whom get_permission
-- denies it.
shown_to_all : may_read (private_under (reads ∷ of_nobody ∷ []) 5) none 5 ≡ true
unfolding lookup nat_eq acl_of
shown_to_all = refl

shown_to_readers : may_read (readers 5) none 5 ≡ false
unfolding lookup nat_eq acl_of
shown_to_readers = refl

denied : has_permission (private_under (reads ∷ of_nobody ∷ []) 5) (some 5) read none ≡ false
unfolding has_permission lookup nat_eq
denied = refl

abbrev both : World
both = record {
  tables = record {
    filters =
        (2, (codes "subject", codes "cask://d/y"))
        ∷ (1, (codes "subject", codes "cask://d/x"))
        ∷ [];
    links = (1, (codes "k", codes "cask://d/y")) ∷ (1, (codes "l", codes "cask://d/y")) ∷ [];
    literals = [];
  };
  files =
      (1, record { filepath = codes "/d/x"; directory_id = 5; partition_keys = [] })
      ∷ (2, record { filepath = codes "/d/y"; directory_id = 5; partition_keys = [] })
      ∷ [];
  db = readers 5;
}

outbound-inbound_example :
    Mem (codes "k", 2) (get_outbound_links everything both 1)
    ↔ Mem (codes "k", 1) (get_inbound_links everything both 2)
unfolding is_selected nat_eq list_eq pair_eq option_eq lookup acl_of
outbound-inbound_example =
    outbound-inbound everything both (codes "k") 1 2 (λ e. ground (arith, e)) refl refl
      (omega arith) (omega arith)

-- Asked for the links under "k", the inbound links are those, the outbound links are all.
asked_in :
    (relationships (record everything { predicate = some (codes "k") }) both 2).inbound
    ≡ (codes "k", some (codes "/d/x") ∷ []) ∷ []
unfolding relationships nat_eq list_eq option_eq lookup insert acl_of
asked_in = refl

asked_out :
    (relationships (record everything { predicate = some (codes "k") }) both 1).outbound
    ≡ (codes "k", some (codes "/d/y") ∷ []) ∷ (codes "l", some (codes "/d/y") ∷ []) ∷ []
unfolding relationships nat_eq list_eq option_eq lookup insert acl_of
asked_out = refl

of_x-NoBar : All (λ (q : Quad). NoBar q.predicate.value) of_x
of_x-NoBar = (
  ((λ e. ground (arith, e)), tt),
  (
    ((λ e. ground (arith, e)), tt),
    (((λ e. ground (arith, e)), tt), (((λ e. ground (arith, e)), tt), tt)),
  ),
)

abbrev file_x : ℕ
file_x = 1

replace_lem_example :
    ((p u : Text)
      → Mem (1, (p, u)) (replace settings 1 (codes "/d/x") [] of_x before).links ↔ (
          ((file_x ≡ file_x) × IsLinkTo settings (codes "/d/x") of_x p u)
          ⊎ (¬ (file_x ≡ file_x) × Mem (1, (p, u)) before.links)))
    × ((u : Text)
        → Mem (1, (codes "subject", u)) (replace settings 1 (codes "/d/x") [] of_x before).filters
          ↔ (((file_x ≡ file_x) × IsSubject settings (codes "/d/x") of_x u)
              ⊎ (¬ (file_x ≡ file_x) × Mem (1, (codes "subject", u)) before.filters)))
replace_lem_example =
    replace_lem settings (omega arith) 1 (codes "/d/x") [] of_x before 1 of_x-NoBar

-- The link and the subject are the new ones, the old literal is still there.
replaced_links :
    (replace settings 1 (codes "/d/x") [] of_x before).links
    ≡ (1, (codes "k", codes "cask://d/y")) ∷ []
unfolding replace nat_eq list_eq pair_eq lookup insert insert_literals in_batches insert_links
    insert_filters resolve_id_path resolve parse_dir
replaced_links = refl

kept_literal :
    Mem
      (1, (codes "g:", (codes "s:old", (codes "n", (codes "Old", ([], []))))))
      (replace settings 1 (codes "/d/x") [] of_x before).literals
unfolding replace nat_eq list_eq pair_eq lookup insert insert_literals in_batches insert_links
    insert_filters resolve_id_path resolve parse_dir
kept_literal = inl refl

abbrev reader : ℕ → World
reader d = record both { tables = replace settings 1 (codes "/d/x") [] of_x before; db = readers d }

get_outbound_links-replace_example :
    Mem (codes "k", 2) (get_outbound_links everything (reader 5) 1) ↔ (
      (u : Text) × IsLinkTo settings (codes "/d/x") of_x (codes "k") u
      × Mem (2, (codes "subject", u)) before.filters)
unfolding is_selected replace nat_eq list_eq pair_eq option_eq lookup acl_of insert insert_literals
    in_batches insert_links insert_filters resolve_id_path resolve parse_dir
get_outbound_links-replace_example =
    get_outbound_links-replace settings (omega arith) everything (reader 5) 1 (codes "/d/x") [] of_x
      before refl (codes "k") 2 (λ e. ground (arith, e)) refl refl (omega arith) of_x-NoBar
