-- ===== src/Environments/Tests.antt =====
-- src/lib/environment.js: a session without a file, and the theorems at it.
use caskfs.Base.{◌≡◌, ◌≢◌, refl, none, some, List, [], ◌∷◌, true, nat_eq, list_eq}
use caskfs.Base.{option_eq, ◌==◌}
use mathlib.Core.Option.{none-ne-some}
use caskfs.Base.Dict.{lookup, insert, erase}
use caskfs.Base.Text.{codes}
use caskfs.Base.Exec.{ok}
use caskfs.Environments.Defs.{Environment, Session, save_env, load_env}
use caskfs.Environments.Defs.{is_type, no_environments, remove_env, set_default_env}
use caskfs.Environments.Defaults.{IsSound, Command, save, remove, choose, perform_all}
use caskfs.Environments.Loading.{Sets, load_env-save_env}

abbrev blank : Session
blank = record {
  file = none;
  current = no_environments;
  settings = record { postgres = []; webapp = []; root_dir = none; powerwash_enabled = none };
}

abbrev local : Environment
local = record { type = codes "http"; properties = (codes "host", codes "localhost") ∷ [] }

abbrev story : List Command
story =
    save (codes "a") local
    ∷ save (codes "b") local
    ∷ remove (codes "a")
    ∷ choose (codes "b")
    ∷ remove (codes "c")
    ∷ []

story_end :
    (perform_all story blank).file
    ≡ some (record {
      environments = some ((codes "b", local) ∷ []);
      default_environment = some (codes "b");
    })
unfolding save_env remove_env set_default_env lookup insert erase nat_eq list_eq option_eq
story_end = refl

blank-IsSound : IsSound blank
blank-IsSound name h = absurd (none-ne-some name h)

http_type : is_type local.type ≡ true
unfolding nat_eq list_eq
http_type = refl

load_env-save_env_example :
    let x = load_env (codes "a") (save_env (codes "a") local blank).1 in
    (x.0 ≡ ok local)
    × Sets (local.type == codes "direct-pg") local blank.settings x.1.settings
    × (codes "a" ≢ codes "b"
        → (load_env (codes "b") (save_env (codes "a") local blank).1).0
          ≡ (load_env (codes "b") blank).0)
load_env-save_env_example = load_env-save_env (codes "a") (codes "b") local blank [] http_type refl
