-- ===== src/Files/Syncing.antt =====
-- src/index.js: what `sync` reports of a file.
use caskfs.Base.{ℕ, ◌≡◌, ◌≢◌, refl, ap, ◌∙◌, Bool, true, false, inr}
use caskfs.Base.{Option, none, some, is_some, arith, nat_eq, list_eq, option_eq, [], ◌∷◌, ◌++◌}
use caskfs.Base.{subst, length}
use caskfs.Base.Dict.{lookup, insert, lookup-insert}
use caskfs.Base.Text.{Text}
use caskfs.Base.Exec.{ok, err}
use caskfs.Cas.{Bytes, WriteInput}
use caskfs.Cas.Layout.{IsDigest}
use caskfs.Cas.Ops.{truthy}
use caskfs.Cas.Staging.{from_hash, staged, stage_known}
use caskfs.Metadata.Defs.{is_git, apply_git_patch}
use caskfs.Metadata.Patching.{apply_git_patch_lem}
use caskfs.Files.Repo.{not_parsed, Row, Repo, Host, Request, store_of}
use caskfs.Files.Rows.{file_at, key_of, file_exists}
use caskfs.Files.Kinds.{described, is_rdf, mime_type_of, mime_key, resource_key, resource_type}
use caskfs.Files.Write.{Work, Actions, no_actions, parse, insert_linked_data, write_body, write}
use caskfs.Files.Write.{stage, Written, rolled_back}
use caskfs.Files.Copy.{Synced, SyncFile, classify, sync_path, sync_request, sync_one}
use caskfs.Files.Saving.{metadata_free, insert_new-ok, inserted, inserted-IsChanged}
use caskfs.Files.Saving.{IsKeyed, Sets, keys_set}
use caskfs.Metadata.{KeyTables}
use caskfs.Base.{List, sym}
use mathlib.Core.Option.{some-injective}
use caskfs.Files.Storing.{IsReady, run, u}
use caskfs.Files.Writing.{IsNamed, IsShort, r1, r2, sound2, directory, same2}
use caskfs.Files.Contents.{IsWritable, IsUpdated, stored_bytes, write_succeeds, checked}

is_git-resource_key : is_git resource_key ≡ false
unfolding is_git resource_key nat_eq
is_git-resource_key = refl

resource_of :
    (host : Host) (q : Request)
    → lookup resource_key (described host q) ≡ some (resource_type (is_rdf host q))
unfolding described
resource_of host q = ground (
  arith,
  lookup-insert resource_key resource_key (resource_type (is_rdf host q))
      (insert mime_key (mime_type_of host q) q.metadata),
)

-- RDF is not parsed without a temporary file.
parse-rdf :
    (host : Host) (q : Request)
    → is_rdf host q ≡ true
    → parse host q (apply_git_patch q.git (described host q)) none ≡ none
unfolding parse
parse-rdf host q rdf = ground (
  arith,
  (apply_git_patch_lem q.git (described host q)).1 resource_key is_git-resource_key,
  resource_of host q,
  rdf,
)

module _ (host : Host) (q : Request) (h : Text) (b : Bytes) (r : Repo) (free : q.ignore_acl ≡ true)
    (ready : IsReady host q (from_hash h) b r) (named : IsNamed q r)
    (new : file_at r q.file_path ≡ none) (rdf : is_rdf host q ≡ true)
    (keyed : IsKeyed host q r.keys) (short : IsShort q) where
  abbrev r1' : Repo
  r1' = r1 q r named r.disk

  stage_step : stage host q r ≡ (
    ok (
        staged ready.lawful
          (u host q (from_hash h) b r ready)
          ready.uuid
          (store_of r)
          b
          none
          (length b)),
    r1',
  )
  stage_step = run host q (from_hash h) b r ready _ (
      stage_known ready.lawful (u host q (from_hash h) b r ready) ready.uuid (store_of r) b h
        ready.addressed ready.provides.0 ready.provides.1)

  abbrev d : ℕ
  d = (directory q r named r.disk).0

  abbrev t : Repo
  t = r2 q r named r.disk

  abbrev set : (x : KeyTables × List Text) × Sets host q r.keys x
  set = keys_set host q r.keys keyed

  abbrev with_file : Repo
  with_file =
      inserted host q free named.user named.by t (sound2 q r named r.disk) d
        (directory q r named r.disk).2 (described host q) (host.env.sha256 b) set.0

  abbrev noted : Actions
  noted = record no_actions { detected_ld = is_rdf host q }

  abbrev reached : Work
  reached = record {
    repo = with_file;
    actions = record noted { file_insert = true; updated_metadata = true };
  }

  data_fails : insert_linked_data host q none reached ≡ (err not_parsed, reached)
  unfolding insert_linked_data
  data_fails =
      let c =
        inserted-IsChanged host q free named.user named.by t (sound2 q r named r.disk) d
          (directory q r named r.disk).2 (described host q) (host.env.sha256 b) set.0 in
      ground (arith, metadata_free host q with_file _ free c.here, parse-rdf host q rdf)

  pub body_fails :
      write_body host q (record { repo = r; actions = no_actions }) ≡ (err not_parsed, reached)
  unfolding write_body file_exists
  body_fails = ground (
    arith,
    new,
    stage_step,
    (directory q r named r.disk).1,
    insert_new-ok host q free named.user named.by t (sound2 q r named r.disk) d
        (directory q r named r.disk).2 (described host q) (host.env.sha256 b) set.0 noted set.1
        short.1 (same2 q r named r.disk ∙ new),
    data_fails,
  )

truthy-IsDigest : (h : Text) → IsDigest h → truthy (some h) ≡ some h
truthy-IsDigest [] d = absurd (omega (arith, d.size))
truthy-IsDigest (x ∷ h) d = refl

file_at-rolled_back : (r t : Repo) (p : Text) → file_at (rolled_back r t) p ≡ file_at r p
unfolding file_at key_of
file_at-rolled_back r t p = refl

-- What sync asks of a file: a hash, which the store has, and a path at which it may write.
module _ (host : Host) (replace : Bool) (requestor : Option Text) (f : SyncFile) (h : Text)
    (b : Bytes) (r : Repo)
    (c : IsWritable host (sync_request replace requestor f) (from_hash h) b r) where
  abbrev q : Request
  q = sync_request replace requestor f

  same_path : q.file_path ≡ sync_path f
  unfolding sync_request
  same_path = refl

  same_input : f.request.input ≡ q.input
  unfolding sync_request
  same_input = refl

  asked : truthy f.request.input.hash ≡ some h
  asked =
      ap (λ (i : WriteInput). truthy i.hash) (same_input ∙ c.ready.input)
      ∙ truthy-IsDigest h c.ready.provides.0

  reported :
      (w : Written) (s : Synced) (r' : Repo)
      → write host q r ≡ (ok w, r')
      → sync_one host replace requestor f s r ≡ (classify (sync_path f) w s, r')
  unfolding sync_one
  reported w s r' e = ground (arith, asked, same_path, c.named.path, e)

  same_replace : q.replace ≡ replace
  unfolding sync_request
  same_replace = refl

  silent_class :
      (a : Actions) (s : Synced)
      → a.file_insert ≡ false
      → a.updated_metadata ≡ false
      → classify (sync_path f) (record { error = none; actions = a }) s
        ≡ record s { no_changes = s.no_changes ++ sync_path f ∷ [] }
  unfolding classify
  silent_class a s i m = ground (arith, i, m)

  -- Where replacing is asked for and the file at the path has another hash, sync replaces its content
  -- and reports the path as one without changes.
  pub sync_one-replaced :
      (s : Synced) (old : Row)
      → file_at r (sync_path f) ≡ some old
      → old.hash ≢ h
      → replace ≡ true
      → (r' : Repo) × (sync_one host replace requestor f s r
          ≡ (record s { no_changes = s.no_changes ++ sync_path f ∷ [] }, r'))
        × IsUpdated host (sync_path f) (stored_bytes host b r) r r'
  sync_one-replaced s old there other asks =
      let found = ap (file_at r) same_path ∙ there in
      let addressed = c.ready.addressed h b c.ready.provides.0 c.ready.provides.1 in
      let w = write_succeeds host q (from_hash h) b r c (
        inr (
          ap is_some found,
          same_replace ∙ asks,
          λ row at same. absurd (
              other (
                ap (λ (f : Row). f.hash) (some-injective old row (sym found ∙ at))
                ∙ same
                ∙ addressed)),
        )) in
      let (i, m) = w.silent old found (λ e. other (e ∙ addressed)) in
      (
        w.after,
        reported (record { error = none; actions = w.done }) s w.after w.run
            ∙ ap (λ x. (x, w.after)) (silent_class w.done s i m),
        subst (λ p. IsUpdated host p (stored_bytes host b r) r w.after) same_path w.update,
      )

  abbrev lost :
      (file_at r (checked q).file_path ≡ none)
      → is_rdf host (checked q) ≡ true
      → IsKeyed host (checked q) r.keys
      → IsShort (checked q)
      → Work
  lost new rdf keyed short = reached host (checked q) h b r refl c.ready c.named new rdf keyed short

  write-lost :
      (new : file_at r (checked q).file_path ≡ none) (rdf : is_rdf host (checked q) ≡ true)
      (keyed : IsKeyed host (checked q) r.keys) (short : IsShort (checked q))
      → write host q r ≡ (
        ok (record { error = some not_parsed; actions = (lost new rdf keyed short).actions }),
        rolled_back r (lost new rdf keyed short).repo,
      )
  unfolding write
  write-lost new rdf keyed short = ground (
    arith,
    c.named.path,
    c.may,
    body_fails host (checked q) h b r refl c.ready c.named new rdf keyed short,
  )

  -- Where the path is free and the file would be RDF, the write fails, since there is no temporary file
  -- to parse; sync reports an insert, and every path keeps its file, so that this one stays free. The
  -- names and the partition keys have room in their columns, and the rules of these are there.
  pub sync_one-lost :
      (s : Synced)
      → file_at r (sync_path f) ≡ none
      → is_rdf host (checked q) ≡ true
      → IsKeyed host (checked q) r.keys
      → IsShort (checked q)
      → (r' : Repo) × (sync_one host replace requestor f s r
          ≡ (record s { file_inserts = s.file_inserts ++ sync_path f ∷ [] }, r'))
        × ((p : Text) → file_at r' p ≡ file_at r p)
  unfolding classify
  sync_one-lost s free rdf keyed short =
      let new = ap (file_at r) same_path ∙ free in
      let w = lost new rdf keyed short in
      let r' = rolled_back r w.repo in
      (
        r',
        reported (record { error = some not_parsed; actions = w.actions }) s r'
            (write-lost new rdf keyed short),
        file_at-rolled_back r w.repo,
      )
