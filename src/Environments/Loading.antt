-- ===== src/Environments/Loading.antt =====
-- src/lib/environment.js: what is saved is loaded, and which settings it sets.
use caskfs.Base.{◌≡◌, ◌≢◌, refl, sym, subst, ◌==◌, ◌||◌, Bool, true, false, arith, ◌=?◌, nat_eq}
use caskfs.Base.{list_eq, Option, none, some, List, [], ◌∷◌, inl, inr, contains}
use caskfs.Base.Dict.{Dict, lookup, lookup-insert}
use caskfs.Base.Text.{Text, codes}
use caskfs.Base.Exec.{ok, err}
use caskfs.Environments.Defs.{Environment, Session, Settings, content, save_env, load_env}
use caskfs.Environments.Defs.{load_environments, save_environments, apply_env, type_error}
use caskfs.Environments.Defs.{is_type, truthy_name}
use caskfs.Environments.Defs.{http_properties, pg_properties, put, copy_keys, or_old}

-- The value that an environment gives, or else the one that was there.
abbrev pub chosen : Bool → Option Text → Option Text → Option Text
chosen false given old = old
chosen true none old = old
chosen true (some v) old = some v

-- A text that is not empty
abbrev pub is_text : Option Text → Bool
is_text none = false
is_text (some []) = false
is_text (some (c ∷ t)) = true

-- The settings after an environment of a type was applied: one for a database sets the connection, the
-- root directory, unless it is empty, and the switch; one for a server sets how it is reached; each only
-- what it gives.
abbrev pub Connects : Environment → Settings → Settings → Type 0
Connects env c c' =
    ((k : Text)
      → lookup k c'.postgres
        ≡ chosen
            (k == codes "host"
              || k == codes "port"
              || k == codes "user"
              || k == codes "password"
              || k == codes "database")
            (lookup k env.properties) (lookup k c.postgres))
    × (c'.webapp ≡ c.webapp)
    × (c'.root_dir
        ≡ chosen (is_text (lookup (codes "rootDir") env.properties))
            (lookup (codes "rootDir") env.properties) c.root_dir)
    × (c'.powerwash_enabled
        ≡ chosen true (lookup (codes "powerwashEnabled") env.properties) c.powerwash_enabled)

abbrev pub Reaches : Environment → Settings → Settings → Type 0
Reaches env c c' =
    ((k : Text)
      → lookup k c'.webapp
        ≡ chosen (k == codes "host" || k == codes "path" || k == codes "token")
            (lookup k env.properties) (lookup k c.webapp))
    × (c'.postgres ≡ c.postgres)
    × (c'.root_dir ≡ c.root_dir)
    × (c'.powerwash_enabled ≡ c.powerwash_enabled)

put_at :
    (k j : Text) (v : Option Text) (t : Dict Text Text)
    → lookup k (put j v t) ≡ chosen (k == j) v (lookup k t)
put_at k j none t = ground arith
put_at k j (some v) t = ground (arith, lookup-insert k j v t)

chosen_twice : (b : Bool) (v old : Option Text) → chosen b v (chosen true v old) ≡ chosen true v old
chosen_twice false v old = refl
chosen_twice true none old = refl
chosen_twice true (some v) old = refl

lookup-copy_keys :
    (k : Text) (ks : List Text) (env t : Dict Text Text)
    → lookup k (copy_keys ks env t) ≡ chosen (contains ks k) (lookup k env) (lookup k t)
unfolding copy_keys
lookup-copy_keys k [] env t = refl
lookup-copy_keys k (j ∷ ks) env t =
    let rest = lookup-copy_keys k ks env (put j (lookup j env) t) in
    let one = put_at k j (lookup j env) t in
    let twice = chosen_twice (contains ks k) (lookup k env) (lookup k t) in
    elim (k =? j) [
      | inl same ↦ ground (arith, same, rest, one, twice)
      | inr other ↦ ground (arith, other, rest, one)
    ]

abbrev pub Sets : Bool → Environment → Settings → Settings → Type 0
Sets true = Connects
Sets false = Reaches

root_dir_lem :
    (given old : Option Text) → or_old (truthy_name given) old ≡ chosen (is_text given) given old
root_dir_lem none old = refl
root_dir_lem (some []) old = refl
root_dir_lem (some (c ∷ t)) old = refl

switch_lem : (given old : Option Text) → or_old given old ≡ chosen true given old
switch_lem none old = refl
switch_lem (some v) old = refl

apply_env-Sets :
    (env : Environment) (c : Settings) (b : Bool)
    → (env.type == codes "direct-pg") ≡ b
    → Sets b env c (apply_env env c)
unfolding apply_env
apply_env-Sets env c true e = rw e (
  (λ k. ground (arith, lookup-copy_keys k pg_properties env.properties c.postgres)),
  refl,
  root_dir_lem (lookup (codes "rootDir") env.properties) c.root_dir,
  switch_lem (lookup (codes "powerwashEnabled") env.properties) c.powerwash_enabled,
)
apply_env-Sets env c false e = rw e (
  (λ k. ground (arith, lookup-copy_keys k http_properties env.properties c.webapp)),
  refl,
  refl,
  refl,
)

-- Where the file has environments, or there is none yet: an environment of a known type that was saved
-- under a name is what loading that name yields, and the settings are those before with the values that
-- it gives: for a database the connection, the root directory and the switch, for a server how it is
-- reached. Loading any other name yields what it yielded before.
pub load_env-save_env :
    (name other : Text) (env : Environment) (s : Session) (es : Dict Text Environment)
    → is_type env.type ≡ true
    → (content s.file).environments ≡ some es
    → let x = load_env name (save_env name env s).1 in
      (x.0 ≡ ok env)
      × Sets (env.type == codes "direct-pg") env s.settings x.1.settings
      × (name ≢ other → (load_env other (save_env name env s).1).0 ≡ (load_env other s).0)
unfolding save_env load_environments save_environments load_env
load_env-save_env name other env s es known has =
    let applied : (load_env name (save_env name env s).1).1.settings ≡ apply_env env s.settings =
      ground (arith, known, has, lookup-insert name name env es) in
    (
      ground (arith, known, has, lookup-insert name name env es),
      subst (Sets (env.type == codes "direct-pg") env s.settings) (sym applied)
          (apply_env-Sets env s.settings (env.type == codes "direct-pg") refl),
      λ ne. ground (arith, ne, has, lookup-insert other name env es),
    )

-- A file without environments cannot be saved to, and stays as it is.
pub save_env-none :
    (name : Text) (env : Environment) (s : Session)
    → (content s.file).environments ≡ none
    → ((save_env name env s).0 ≡ err type_error) × ((save_env name env s).1.file ≡ s.file)
unfolding save_env load_environments save_environments
save_env-none name env s missing = (ground (arith, missing), ground (arith, missing))
