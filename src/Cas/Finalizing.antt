-- ===== src/Cas/Finalizing.antt =====
-- src/lib/cas.js: finalizing a write does not touch the tables.
use caskfs.Base.{◌≡◌, Option, none, some, [], ◌∷◌, nat_eq, list_eq, arith}
use caskfs.Base.Text.{Text}
use caskfs.Cas.Disk.{Bytes, Store}
use caskfs.Cas.Ops.{Env, finalize_write}

pub hashes-finalize_write :
    (env : Env) (tmp : Option Text) (place : Text) (nquads : Option Bytes) (s : Store)
    → (finalize_write env tmp place nquads s).1.hashes ≡ s.hashes
unfolding finalize_write
hashes-finalize_write env none place none s = ground arith
hashes-finalize_write env none place (some []) s = ground arith
hashes-finalize_write env none place (some (c ∷ q)) s = ground arith
hashes-finalize_write env (some t) place none s = ground arith
hashes-finalize_write env (some t) place (some []) s = ground arith
hashes-finalize_write env (some t) place (some (c ∷ q)) s = ground arith
