-- ===== src/Files/Phases.antt =====
-- src/index.js: the three ways in which `write` changes the tables, each with its linked data.
use caskfs.Base.{length, ◌≤◌, ℕ, ◌≡◌, ◌≢◌, refl, sym, ap, ◌∙◌, true, Option-cases}
use caskfs.Base.{Option, none, some, is_some, inl, inr, arith, nat_eq, list_eq, ◌=?◌}
use mathlib.Core.Option.{none-ne-some, some-injective}
use caskfs.Base.Text.{Text}
use caskfs.Base.Exec.{ok}
use caskfs.Paths.{parse_dir, basename}
use caskfs.Cas.{Bytes}
use caskfs.Acl.Checks.{find_directory}
use caskfs.Metadata.{Metadata, apply_git_patch}
use caskfs.Files.Repo.{Row, Repo, Host, Request}
use caskfs.Files.Rows.{file_at, update_file, add_hash}
use caskfs.Files.Write.{Work, Actions, content_of, parse, save_row, add_linked_data}
use caskfs.Files.Write.{patch_same, with_keys}
use caskfs.Files.Changes.{IsSound, IsChanged, Changed-trans, stored, stored-IsChanged}
use caskfs.Files.Changes.{update_file-row, add_hash_grown, add_hash_has}
use caskfs.Files.Saving.{
  insert_new-ok, inserted, inserted-IsChanged, inserted_row, IsKeyed, keys_set,
}
use caskfs.Files.Saving.{patch_same-ok, insert_linked_data-ok, parsed-IsChanged, quaded}

-- The tables after the two steps of a write that change the row of its path.
pub record IsSaved (host : Host) (q : Request) (m : Metadata) (h : Text) (d : ℕ) (tmp : Option Text)
    (file : Option Row) (r : Repo) (a : Actions) : Type 0 where
  pub middle : Work
  pub after : Repo
  pub actions : Actions
  pub quads : Option Bytes
  pub row : Row
  pub save_step :
      save_row host q m h (some d) file (record { repo = r; actions = a }) ≡ (ok tt, middle)
  pub data_step :
      add_linked_data host q tmp file middle
      ≡ (ok quads, record { repo = after; actions = actions })
  pub hash : row.hash ≡ h
  pub changed : IsChanged q.file_path row r after
  pub silent :
      (old : Row)
      → file ≡ some old
      → old.hash ≢ h
      → (actions.file_insert ≡ a.file_insert) × (actions.updated_metadata ≡ a.updated_metadata)

-- What the tables need for a write: a requestor, and linked data that can be parsed.
module _ (host : Host) (q : Request) (free : q.ignore_acl ≡ true) (user : Text)
    (by : q.requestor ≡ some user) (r : Repo) (s : IsSound r) (d : ℕ)
    (dir : find_directory r.acl.db (parse_dir q.file_path) ≡ some d) (m : Metadata) (h : Text)
    (tmp : Option Text) (a : Actions) where
  pub save_new :
      IsKeyed host q r.keys
      → length (basename q.file_path) ≤ 256
      → file_at r q.file_path ≡ none
      → ((t : Repo)
          → t.disk ≡ r.disk
          → is_some (parse host q (apply_git_patch q.git m) (content_of tmp t)) ≡ true)
      → IsSaved host q m h d tmp none r a
  save_new keyed short new parses =
      let (x, sets) = keys_set host q r.keys keyed in
      let c = inserted-IsChanged host q free user by r s d dir m h x in
      let t = inserted host q free user by r s d dir m h x in
      let row = with_keys x.1 (inserted_row host q free user by r s d dir m h x) in
      elim (Option-cases (parse host q (apply_git_patch q.git m) (content_of tmp t))) [
        | inl bad ↦ absurd (ground (arith, bad, parses t c.disk))
        | inr (quads, good) ↦
            let c' = parsed-IsChanged host q free t c.sound row c.here quads.1 in
            record {
              middle = _;
              after = _;
              actions = _;
              quads = quads.0;
              row = quaded host q free t c.sound row c.here quads.1 row;
              save_step = insert_new-ok host q free user by r s d dir m h x a sets short new;
              data_step = insert_linked_data-ok host q free t c.sound row c.here tmp _ quads good;
              hash = refl;
              changed = Changed-trans q.file_path row _ r t _ c c';
              silent = λ old e n. absurd (none-ne-some old e);
            }
      ]

  update_step :
      (row : Row)
      → file_at r q.file_path ≡ some row
      → row.hash ≢ h
      → let saved = record row { hash = h; metadata = m; last_modified_by = user } in
        save_row host q m h (some d) (some row) (record { repo = r; actions = a }) ≡ (
          ok tt,
          record {
            repo = stored r q.file_path d saved (add_hash h r.hashes) r.next_file;
            actions = a;
          },
        )
  unfolding update_file
  update_step row there other =
      ground (arith, other, by, update_file-row r q.file_path d dir h m user row there)

  patch_step :
      (row : Row) (w : Work)
      → row.hash ≡ h
      → save_row host q m h (some d) (some row) w ≡ patch_same host q m w
  patch_step row w same = ground (arith, same)

  pub save_over :
      (row : Row)
      → file_at r q.file_path ≡ some row
      → (row.hash ≡ h → IsKeyed host q r.keys)
      → IsSaved host q m h d tmp (some row) r a
  save_over row there keyed = elim (row.hash =? h) [
    | inr other ↦
        let saved = record row { hash = h; metadata = m; last_modified_by = user } in
        record {
          middle = _;
          after = _;
          actions = _;
          quads = none;
          row = saved;
          save_step = update_step row there other;
          data_step = refl;
          hash = refl;
          changed =
              stored-IsChanged r s q.file_path d saved dir (add_hash h r.hashes) r.next_file
                (add_hash_grown h r.hashes) (add_hash_has h r.hashes);
          silent = λ old e n. (refl, refl);
        }
    | inl same ↦
        let (x, sets) = keys_set host q r.keys (keyed same) in
        let (row', r', a', run, hash, c) = patch_same-ok host q free r s row there m x sets a in
        record {
          middle = _;
          after = r';
          actions = _;
          quads = none;
          row = row';
          save_step = patch_step row (record { repo = r; actions = a }) same ∙ run;
          data_step = refl;
          hash = hash ∙ same;
          changed = c;
          silent = λ old e n.
              absurd (n (ap (λ (f : Row). f.hash) (sym (some-injective row old e)) ∙ same));
        }
  ]
