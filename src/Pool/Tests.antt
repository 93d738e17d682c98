-- ===== src/Pool/Tests.antt =====
-- src/bin/lib/file-processor.js: a run of a pool with one worker, and the theorems at it.
use caskfs.Base.{ℕ, ◌≡◌, refl, true, none, some, List, [], ◌∷◌, map, nat_eq, contains}
use caskfs.Base.{◌≤◌}
use caskfs.Pool.{Item, Message, Event, batch, answer, create, run}
use caskfs.Pool.Ledger.{IsLedger, run-IsLedger, count, settled_ids}
use caskfs.Pool.Fifo.{line, numbered, line-run}
use caskfs.Pool.Busy.{all_settled}

abbrev message : ℕ → Message
message i = record { id = i; file_path = "/f"; hash = "00"; git_info = none; error = none }

abbrev failure : ℕ → Message
failure i = record { id = i; file_path = "/f"; hash = ""; git_info = none; error = some "ENOENT" }

-- Two batches; the answer to id 9 is to nobody.
abbrev half_way : List Event
half_way =
    batch ("/a" ∷ "/b" ∷ []) ∷ answer 0 (message 9) ∷ answer 0 (message 1) ∷ batch ("/c" ∷ []) ∷ []

abbrev finished : List Event
finished =
    batch ("/a" ∷ "/b" ∷ [])
    ∷ answer 0 (failure 1)
    ∷ answer 0 (message 2)
    ∷ batch ("/c" ∷ [])
    ∷ answer 0 (message 3)
    ∷ []

half_way_state :
    ((run half_way (create 1)).callbacks ≡ 2 ∷ [])
    × (map (λ (t : Item). t.id) (run half_way (create 1)).queue ≡ 3 ∷ [])
unfolding run nat_eq
half_way_state = (refl, refl)

half_way_waits : contains (run half_way (create 1)).callbacks 2 ≡ true
unfolding run nat_eq
half_way_waits = refl

finished_waits : (run finished (create 1)).callbacks ≡ []
unfolding run nat_eq
finished_waits = refl

run-IsLedger_example : IsLedger (run half_way (create 1))
run-IsLedger_example = run-IsLedger 1 half_way

line-run_example : line (run half_way (create 1)) ≡ numbered 0 ("/a" ∷ "/b" ∷ "/c" ∷ [])
line-run_example = line-run 1 half_way

all_settled_example :
    ((run finished (create 1)).queue ≡ [])
    × ((i : ℕ)
        → 1 ≤ i
        → i ≤ (run finished (create 1)).id_counter
        → count i (settled_ids (run finished (create 1))) ≡ 1)
all_settled_example = all_settled 1 finished finished_waits
