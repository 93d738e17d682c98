-- ===== src/Files/Storing.antt =====
-- src/index.js: the two calls of the store that `write` makes, with the tables changed in between.
use caskfs.Base.{ℕ, suc, ◌≡◌, refl, sym, ap, ◌∙◌, subst, [], length, true, not}
use caskfs.Base.{Option, none, some, is_some, ◌⊎◌, inl, inr, arith, nat_eq, list_eq}
use caskfs.Base.Dict.{Dict, lookup, insert, lookup-insert}
use caskfs.Base.Text.{Text}
use caskfs.Base.Exec.{Result, ok}
use caskfs.Cas.{Bytes, CasError, Staged, Store, stage_write, finalize_write, tmp_path, disk_path}
use caskfs.Cas.Layout.{IsUuid, IsLawful}
use caskfs.Cas.Staging.{Source, input_of, IsAddressed, Provides, stage, staged}
use caskfs.Cas.Writing.{after_put, finalize_staged, finalize_linked}
use caskfs.Files.Repo.{Repo, Host, Request, store_of, with_store, from_cas, cas}
use caskfs.Files.Write.{content_of}
use caskfs.Files.Write

-- What the store needs for a write of the bytes: a new name for the temporary file, files under their
-- hashes, and the bytes where the request says.
pub record IsReady (host : Host) (q : Request) (src : Source) (b : Bytes) (r : Repo) : Type 0 where
  pub lawful : IsLawful host.env
  pub uuid : IsUuid (host.uuid r.drawn)
  pub fresh : lookup (tmp_path host.env (host.uuid r.drawn)) r.disk ≡ none
  pub addressed : IsAddressed host.env (store_of r)
  pub provides : Provides host.env (store_of r) src b
  pub input : q.input ≡ input_of src

module _ (host : Host) (q : Request) (src : Source) (b : Bytes) (r : Repo)
    (ready : IsReady host q src b r) where
  abbrev pub u : Text
  u = host.uuid r.drawn

  abbrev pub place : Text
  place = disk_path host.env (host.env.sha256 b)

  abbrev pub Finishes : Option Text → Option Bytes → Store → Type 0
  Finishes tmp_file quads t =
      let x = finalize_write host.env tmp_file place quads t in
      (x.0 ≡ ok (not (is_some (lookup place r.disk))))
      × ((p : Text) → lookup p x.1.disk ≡ after_put host.env u b quads r.disk p)

  -- A staged write: its temporary file, if there is one, the disk, and what finalizing it does,
  -- whatever has become of the tables.
  pub record IsUnderWay : Type 0 where
    pub tmp_file : Option Text
    pub size : ℕ
    pub disk : Dict Text Bytes
    pub step : Write.stage host q r ≡ (
      ok (staged ready.lawful u ready.uuid (store_of r) b tmp_file size),
      record r { drawn = suc r.drawn; disk = disk },
    )
    pub content :
        (t : Repo)
        → t.disk ≡ disk
        → (content_of tmp_file t ≡ some b)
          ⊎ ((content_of tmp_file t ≡ none) × (is_some (lookup place r.disk) ≡ true))
    pub finish : (t : Store) (quads : Option Bytes) → t.disk ≡ disk → Finishes tmp_file quads t

  abbrev pub next : Repo
  next = record r { drawn = suc r.drawn }

  pub run :
      (x : Result CasError Staged × Store)
      → stage_write host.env u (input_of src) (store_of r) ≡ x
      → Write.stage host q r ≡ (from_cas x.0, with_store x.1 next)
  unfolding Write.stage
  run x e =
      ap (λ i. cas (stage_write host.env u i) next) ready.input
      ∙ ap (λ y. (from_cas y.0, with_store y.1 next)) e

  abbrev tmp_disk : Dict Text Bytes
  tmp_disk = insert (tmp_path host.env u) b r.disk

  finish_new :
      (t : Store) (quads : Option Bytes)
      → t.disk ≡ tmp_disk
      → Finishes (some (tmp_path host.env u)) quads t
  finish_new t quads e =
      let before = record t { disk = r.disk } in
      subst (Finishes (some (tmp_path host.env u)) quads) (sym (ap (λ d. record t { disk = d }) e))
        (
          (finalize_staged ready.lawful u ready.uuid b [] before quads).0,
          λ p. (finalize_staged ready.lawful u ready.uuid b p before quads).1,
        )

  finish_stored :
      (c : Bytes) (t : Store) (quads : Option Bytes)
      → lookup place r.disk ≡ some c
      → t.disk ≡ r.disk
      → Finishes none quads t
  finish_stored c t quads k e =
      let before = record t { disk = r.disk } in
      subst (Finishes none quads) (sym (ap (λ d. record t { disk = d }) e)) (
        (finalize_linked ready.lawful u ready.uuid b [] before c quads k ready.fresh).0,
        λ p. (finalize_linked ready.lawful u ready.uuid b p before c quads k ready.fresh).1,
      )

  pub under_way : IsUnderWay
  under_way =
      let t = tmp_path host.env u in
      elim (stage ready.lawful u ready.uuid (store_of r) b src ready.addressed ready.fresh
        ready.provides) [
          | inl e ↦ record {
            tmp_file = some t;
            size = length b;
            disk = tmp_disk;
            step = run _ e;
            content =
                λ x same. inl (ap (lookup t) same ∙ ground (arith, lookup-insert t t b r.disk));
            finish = finish_new;
          }
          | inr (c, there, e) ↦ record {
            tmp_file = none;
            size = length c;
            disk = r.disk;
            step = run _ e;
            content = λ x same. inr (refl, ap is_some there);
            finish = λ x quads same. finish_stored c x quads there same;
          }
        ]
