-- ===== src/Base/Exec.antt =====
-- Actions that read and change a state and may throw. What an action changed before it threw stays
-- changed, so the state comes back beside the error too.
use mathlib.Core.Option.{Option, none, some}
use mathlib.Core.List.{List, [], ◌∷◌}

pub data Result (E A : Type 0) : Type 0 where
  ok : A → Result E A
  err : E → Result E A

abbrev pub Exec : Type 0 → Type 0 → Type 0 → Type 0
Exec E S A = S → Result E A × S

module _ {E S : Type 0} where
  abbrev pub and_then : {A B : Type 0} → Result E A → (A → Exec E S B) → Exec E S B
  and_then (ok a) f s = f a s
  and_then (err e) f s = (err e, s)

  infixl 5 ◌>>=◌ ◌>>◌
  abbrev pub ◌>>=◌ : {A B : Type 0} → Exec E S A → (A → Exec E S B) → Exec E S B
  ◌>>=◌ m f s = let (r, s') = m s in and_then r f s'

  abbrev pub ◌>>◌ : {A B : Type 0} → Exec E S A → Exec E S B → Exec E S B
  m >> k = m >>= λ _. k

  abbrev pub pure : {A : Type 0} → A → Exec E S A
  pure a s = (ok a, s)

  abbrev pub throw : {A : Type 0} → E → Exec E S A
  throw e s = (err e, s)

  abbrev pub or_throw : {A : Type 0} → Option A → E → Exec E S A
  or_throw none e s = (err e, s)
  or_throw (some a) e s = (ok a, s)

  -- A read of the state.
  abbrev pub gets : {A : Type 0} → (S → A) → Exec E S A
  gets f s = (ok (f s), s)

  -- A write of the state.
  abbrev pub modify : (S → S) → Exec E S Unit
  modify f s = (ok tt, f s)

  -- A loop that awaits each of its rounds.
  abbrev pub for_each : {A : Type 0} → (A → Exec E S Unit) → List A → Exec E S Unit
  for_each f [] = pure tt
  for_each f (a ∷ rest) = f a >> for_each f rest
