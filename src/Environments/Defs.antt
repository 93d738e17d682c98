-- ===== src/Environments/Defs.antt =====
-- src/lib/environment.js: the file of environments, and the methods.
use caskfs.Base.{◌==◌, nat_eq, list_eq, Bool, true, false, ◌&&◌, not, Option, none, some}
use caskfs.Base.{option_eq, is_some, List, [], ◌∷◌, contains, if◌then◌else◌}
use caskfs.Base.Dict.{Dict, lookup, insert, erase}
use caskfs.Base.Text.{Text, codes}
use caskfs.Base.Exec.{Exec, ok, ◌>>=◌, pure, throw, or_throw, modify, ◌>>◌}

-- An environment: its type and the properties that are set.
pub record Environment : Type 0 where
  pub type : Text
  pub properties : Dict Text Text

-- The file may be without the property `environments`.
pub record Environments : Type 0 where
  pub environments : Option (Dict Text Environment)
  pub default_environment : Option Text

-- The parts of the configuration that an environment sets.
pub record Settings : Type 0 where
  pub postgres : Dict Text Text
  pub webapp : Dict Text Text
  pub root_dir : Option Text
  pub powerwash_enabled : Option Text

-- The file, `this.current`, and the configuration. JSON.parse gives back what JSON.stringify was given, so
-- the file holds the data itself.
pub record Session : Type 0 where
  pub file : Option Environments
  pub current : Environments
  pub settings : Settings

pub data EnvError : Type 0 where
  not_found invalid_type : Text → EnvError
  type_error : EnvError

abbrev pub Run : Type 0 → Type 0
Run = Exec EnvError Session

abbrev pub no_environments : Environments
no_environments = record { environments = some []; default_environment = none }

-- this.data.environments, or else {}
abbrev pub envs_of : Option (Dict Text Environment) → Dict Text Environment
envs_of none = []
envs_of (some d) = d

abbrev pub content : Option Environments → Environments
content none = no_environments
content (some d) = d

unfoldable pub load_environments : Run Environments
load_environments s = (ok (content s.file), record s { current = content s.file })

unfoldable pub save_environments : Environments → Run Unit
save_environments d s = (ok tt, record s { current = d; file = some d })

-- An empty name counts as none.
abbrev pub truthy_name : Option Text → Option Text
truthy_name none = none
truthy_name (some []) = none
truthy_name (some (c ∷ t)) = some (c ∷ t)

abbrev pub or_name : Option Text → Text → Option Text
or_name none name = some name
or_name (some d) name = some d

-- PROPERTIES
abbrev pub http_properties : List Text
http_properties = codes "host" ∷ codes "path" ∷ codes "token" ∷ []

abbrev pub pg_properties : List Text
pg_properties =
    codes "host" ∷ codes "port" ∷ codes "user" ∷ codes "password" ∷ codes "database" ∷ []

abbrev pub put : Text → Option Text → Dict Text Text → Dict Text Text
put key none d = d
put key (some v) d = insert key v d

-- for( let key of … ) if( env[key] !== undefined ) target[key] = env[key]
unfoldable pub copy_keys : List Text → Dict Text Text → Dict Text Text → Dict Text Text
copy_keys [] env target = target
copy_keys (k ∷ ks) env target = copy_keys ks env (put k (lookup k env) target)

abbrev pub or_old : Option Text → Option Text → Option Text
or_old none old = old
or_old (some v) old = some v

-- An empty rootDir is passed over.
unfoldable pub apply_env : Environment → Settings → Settings
unfolding copy_keys
apply_env env c =
    if env.type == codes "direct-pg"
    then record c {
      postgres = copy_keys pg_properties env.properties c.postgres;
      root_dir = or_old (truthy_name (lookup (codes "rootDir") env.properties)) c.root_dir;
      powerwash_enabled =
          or_old (lookup (codes "powerwashEnabled") env.properties) c.powerwash_enabled;
    }
    else record c { webapp = copy_keys http_properties env.properties c.webapp }

-- TYPES
abbrev pub is_type : Text → Bool
is_type t = contains (codes "direct-pg" ∷ codes "http" ∷ []) t

unfoldable pub load_env : Text → Run Environment
unfolding load_environments apply_env
load_env name = do
  d ← load_environments
  modify (λ s. record s { current = record d { environments = some (envs_of d.environments) } })
  env ← or_throw (lookup name (envs_of d.environments)) (not_found name)
  if not (is_type env.type) then throw (invalid_type env.type) else λ s.
      (ok env, record s { settings = apply_env env s.settings })

abbrev pub clear_if : Text → Option Text → Option Text
clear_if name default = if default == some name then none else default

abbrev pub without : Text → Dict Text Environment → Environments → Environments
without name es d = record {
  environments = some (erase name es);
  default_environment = clear_if name d.default_environment;
}

-- A property of undefined is a TypeError.
abbrev pub remove_from : Text → Environments → Option (Dict Text Environment) → Run Unit
remove_from name d none = throw type_error
remove_from name d (some es) =
    if is_some (lookup name es) then save_environments (without name es d) else pure tt

unfoldable pub remove_env : Text → Run Unit
unfolding load_environments save_environments
remove_env name = do d ← load_environments; remove_from name d d.environments

abbrev pub with : Text → Environment → Dict Text Environment → Environments → Environments
with name env es d = record {
  environments = some (insert name env es);
  default_environment = or_name (truthy_name d.default_environment) name;
}

abbrev pub save_in : Text → Environment → Environments → Option (Dict Text Environment) → Run Unit
save_in name env d none = throw type_error
save_in name env d (some es) = save_environments (with name env es d)

unfoldable pub save_env : Text → Environment → Run Unit
unfolding load_environments save_environments
save_env name env = do d ← load_environments; save_in name env d d.environments

unfoldable pub set_default_env : Text → Run Unit
unfolding load_environments save_environments
set_default_env name = do
  d ← load_environments
  if not (is_some (lookup name (envs_of d.environments)))
      then throw (not_found name)
      else save_environments (record d { default_environment = some name })

unfoldable pub get_default_env_name : Run (Option Text)
unfolding load_environments
get_default_env_name = do d ← load_environments; pure (truthy_name d.default_environment)

pub record Existing : Type 0 where
  pub file_exists : Bool
  pub environments_exist : Bool
  pub default_env_exists : Bool

abbrev pub is_filled : Dict Text Environment → Bool
is_filled [] = false
is_filled (e ∷ d) = true

abbrev pub paired : Text → Option Environment → Option (Text × Environment)
paired name none = none
paired name (some env) = some (name, env)

-- The default environment, if it is there.
abbrev pub default_of : Option Text → Dict Text Environment → Option (Text × Environment)
default_of none d = none
default_of (some name) d = paired name (lookup name d)

abbrev pub existing_of : Option Environments → Existing
existing_of none = record {
  file_exists = false;
  environments_exist = false;
  default_env_exists = false;
}
existing_of (some d) = record {
  file_exists = true;
  environments_exist = is_filled (envs_of d.environments);
  default_env_exists =
      is_filled (envs_of d.environments)
      && is_some (default_of (truthy_name d.default_environment) (envs_of d.environments));
}

-- The data is loaded only if there is a file.
unfoldable pub exists : Run Existing
exists s = elim s.file [
  | none ↦ (ok (existing_of none), s)
  | some d ↦ (ok (existing_of (some d)), record s { current = d })
]

abbrev pub first_env : Dict Text Environment → Option (Text × Environment)
first_env [] = none
first_env (e ∷ d) = some e

abbrev pub default_env : Existing → Environments → Option (Text × Environment)
default_env found d =
    if not (found.file_exists && found.environments_exist)
    then none
    else if not found.default_env_exists
    then first_env (envs_of d.environments)
    else default_of (truthy_name d.default_environment) (envs_of d.environments)

unfoldable pub get_default_env : Run (Option (Text × Environment))
unfolding exists
get_default_env = do found ← exists; λ s. (ok (default_env found s.current), s)
