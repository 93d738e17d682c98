-- ===== src/Environments/Defaults.antt =====
-- src/lib/environment.js: the default names an environment.
use caskfs.Base.{◌≡◌, refl, sym, ap, ◌∙◌, true, arith, ◌=?◌, nat_eq}
use caskfs.Base.{list_eq, option_eq, Option, none, some, is_some, Option-cases, inl, inr, List, []}
use caskfs.Base.{subst, Bool-cases, ◌∷◌}
use mathlib.Core.Option.{none-ne-some}
use caskfs.Base.Dict.{Dict, lookup, lookup-insert, lookup-erase}
use caskfs.Base.Text.{Text}
use caskfs.Environments.Defs.{Environment, Environments, Session, content, save_env}
use caskfs.Environments.Defs.{remove_env, set_default_env, truthy_name}
use caskfs.Environments.Defs.{
  load_environments, save_environments, or_name, with, without, clear_if, envs_of,
}

-- The default names an environment, where there is one.
abbrev pub IsNamed : Environments → Type 0
IsNamed d =
    (name : Text)
    → truthy_name d.default_environment ≡ some name
    → is_some (lookup name (envs_of d.environments)) ≡ true

abbrev pub IsSound : Session → Type 0
IsSound s = IsNamed (content s.file)

truthy_some : (o : Option Text) (d : Text) → truthy_name o ≡ some d → o ≡ some d
truthy_some none d h = h
truthy_some (some []) d h = absurd (none-ne-some d h)
truthy_some (some (c ∷ t)) d h = h

truthy_twice : (o : Option Text) → truthy_name (truthy_name o) ≡ truthy_name o
truthy_twice none = refl
truthy_twice (some []) = refl
truthy_twice (some (c ∷ t)) = refl

with-IsNamed :
    (name : Text) (env : Environment) (es : Dict Text Environment) (d : Environments)
    → d.environments ≡ some es
    → IsNamed d
    → IsNamed (with name env es d)
with-IsNamed name env es d has h k e = elim (Option-cases (truthy_name d.default_environment)) [
  | inl unset ↦
      let same =
        truthy_some (some name) k (sym (ap (λ o. truthy_name (or_name o name)) unset) ∙ e) in
      ground (arith, same, lookup-insert k name env es)
  | inr (c, there) ↦
      let chosen = sym (ap (λ o. truthy_name (or_name o name)) there) ∙ e in
      let kept = h k (there ∙ truthy_some (some c) k chosen) in
      let kept' = sym (ap (λ o. is_some (lookup k (envs_of o))) has) ∙ kept in
      ground (arith, kept', lookup-insert k name env es)
]

without-IsNamed :
    (name : Text) (es : Dict Text Environment) (d : Environments)
    → d.environments ≡ some es
    → IsNamed d
    → IsNamed (without name es d)
without-IsNamed name es d has h k e = elim (d.default_environment =? some name) [
  | inl same ↦ absurd (none-ne-some k (ground (arith, same)))
  | inr other ↦
      let kept : truthy_name d.default_environment
          ≡ truthy_name (clear_if name d.default_environment) =
        ground (arith, other) in
      let default = truthy_some d.default_environment k (kept ∙ e) in
      let there = sym (ap (λ o. is_some (lookup k (envs_of o))) has) ∙ h k (kept ∙ e) in
      ground (arith, other, default, there, lookup-erase k name es)
]

abbrev chosen_in : Text → Environments → Environments
chosen_in name d = record d { default_environment = some name }

chosen-IsNamed :
    (name : Text) (d : Environments)
    → is_some (lookup name (envs_of d.environments)) ≡ true
    → IsNamed (chosen_in name d)
chosen-IsNamed name d h k e = ground (arith, h, truthy_some (some name) k e)

-- Saving keeps the default naming an environment.
pub save_env-IsSound :
    (name : Text) (env : Environment) (s : Session) → IsSound s → IsSound (save_env name env s).1
unfolding save_env load_environments save_environments
save_env-IsSound name env s h = elim (Option-cases (content s.file).environments) [
  | inl missing ↦
      subst IsNamed {x = content s.file} {y = content (save_env name env s).1.file}
        (ground (arith, missing)) h
  | inr (es, has) ↦
      subst IsNamed {x = with name env es (content s.file)}
        {y = content (save_env name env s).1.file} (ground (arith, has))
        (with-IsNamed name env es (content s.file) has h)
]

pub remove_env-IsSound : (name : Text) (s : Session) → IsSound s → IsSound (remove_env name s).1
unfolding remove_env load_environments save_environments
remove_env-IsSound name s h = elim (Option-cases (content s.file).environments) [
  | inl missing ↦
      subst IsNamed {x = content s.file} {y = content (remove_env name s).1.file}
        (ground (arith, missing)) h
  | inr (es, has) ↦ elim (Bool-cases (is_some (lookup name es))) [
    | inl there ↦
        subst IsNamed {x = without name es (content s.file)}
          {y = content (remove_env name s).1.file} (ground (arith, has, there))
          (without-IsNamed name es (content s.file) has h)
    | inr absent ↦
        subst IsNamed {x = content s.file} {y = content (remove_env name s).1.file}
          (ground (arith, has, absent)) h
  ]
]

pub set_default_env-IsSound :
    (name : Text) (s : Session) → IsSound s → IsSound (set_default_env name s).1
unfolding set_default_env load_environments save_environments
set_default_env-IsSound name s h =
    elim (Bool-cases (is_some (lookup name (envs_of (content s.file).environments)))) [
      | inl there ↦
          subst IsNamed {x = chosen_in name (content s.file)}
            {y = content (set_default_env name s).1.file} (ground (arith, there))
            (chosen-IsNamed name (content s.file) there)
      | inr missing ↦
          subst IsNamed {x = content s.file} {y = content (set_default_env name s).1.file}
            (ground (arith, missing)) h
    ]

pub data Command : Type 0 where
  save : Text → Environment → Command
  remove choose : Text → Command

abbrev pub perform : Command → Session → Session
perform (save name env) s = (save_env name env s).1
perform (remove name) s = (remove_env name s).1
perform (choose name) s = (set_default_env name s).1

abbrev pub perform_all : List Command → Session → Session
perform_all [] s = s
perform_all (c ∷ cs) s = perform_all cs (perform c s)

perform-IsSound : (c : Command) (s : Session) → IsSound s → IsSound (perform c s)
perform-IsSound (save name env) s h = save_env-IsSound name env s h
perform-IsSound (remove name) s h = remove_env-IsSound name s h
perform-IsSound (choose name) s h = set_default_env-IsSound name s h

-- Whatever environments are saved, removed and chosen as the default, in any order: a default that
-- is set in the file names an environment of the file, if it did at the start.
pub perform_all-IsSound : (cs : List Command) (s : Session) → IsSound s → IsSound (perform_all cs s)
perform_all-IsSound [] s h = h
perform_all-IsSound (c ∷ cs) s h = perform_all-IsSound cs (perform c s) (perform-IsSound c s h)
