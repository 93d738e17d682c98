-- ===== src/Pool.antt =====
-- src/bin/lib/file-processor.js: the pool of worker processes that hash files.
-- A promise is named by the id of its item, so `_callbacks` is the list of ids that wait for an
-- answer. `_idle` is a stack, its top first. `sent` and `settled` are the messages to the workers
-- and the settled promises, oldest first; the code keeps neither.
pub mod Ledger
pub mod Fifo
pub mod Busy
pub mod Tests
use caskfs.Base.{ℕ, zero, suc, ◌+◌, String, Bool, true, false, Option, none, some}
use caskfs.Base.{List, [], ◌∷◌, ◌++◌, keep, not, ◌==◌, nat_eq, string_eq, contains, if◌then◌else◌}

pub record Item : Type 0 where
  pub id : ℕ
  pub file_path : String

-- A message to a worker.
pub record Job : Type 0 where
  pub worker : ℕ
  pub item : Item

-- A message from a worker. An `error` that is an empty text counts as none.
pub record Message : Type 0 where
  pub id : ℕ
  pub file_path : String
  pub hash : String
  pub git_info : Option String
  pub error : Option String

pub data Outcome : Type 0 where
  resolved : String → String → Option String → Outcome
  rejected : String → Outcome

pub record Settled : Type 0 where
  pub id : ℕ
  pub outcome : Outcome

pub record Processor : Type 0 where
  pub worker_count : ℕ
  pub workers : List ℕ
  pub idle : List ℕ
  pub queue : List Item
  pub callbacks : List ℕ
  pub id_counter : ℕ
  pub started : Bool
  -- how many processes were ever forked: the next one has this number
  pub forked : ℕ
  pub sent : List Job
  pub settled : List Settled

-- new FileProcessor({ workers }), with `opts.workers || 3`
abbrev pub create : ℕ → Processor
create n = record {
  worker_count = if n == 0 then 3 else n;
  workers = [];
  idle = [];
  queue = [];
  callbacks = [];
  id_counter = 0;
  started = false;
  forked = 0;
  sent = [];
  settled = [];
}

-- the loop of `_ensureStarted`, with the rounds that are left
pub fork_workers : ℕ → Processor → Processor
fork_workers zero p = p
fork_workers (suc n) p = fork_workers n (record p {
  workers = p.workers ++ p.forked ∷ [];
  idle = p.forked ∷ p.idle;
  forked = p.forked + 1;
})

pub ensure_started : Processor → Processor
unfolding fork_workers
ensure_started p =
    if p.started then p else fork_workers p.worker_count (record p { started = true })

-- `Map.set` of an id that is there keeps one entry.
pub set_callback : ℕ → List ℕ → List ℕ
set_callback id ids = if contains ids id then ids else ids ++ id ∷ []

pub dispatch : ℕ → Item → Processor → Processor
unfolding set_callback
dispatch worker item p = record p {
  callbacks = set_callback item.id p.callbacks;
  sent = p.sent ++ record { worker = worker; item = item } ∷ [];
}

-- The item goes to the top idle worker, or to the end of the queue.
pub place : List ℕ → Item → Processor → Processor
unfolding dispatch
place [] item p = record p { queue = p.queue ++ item ∷ [] }
place (w ∷ rest) item p = dispatch w item (record p { idle = rest })

pub enqueue : String → Processor → Processor
unfolding place
enqueue file_path p =
    let id = p.id_counter + 1 in
    place p.idle (record { id = id; file_path = file_path }) (record p { id_counter = id })

-- filePaths.map(fp => this._enqueue(fp))
pub enqueue_all : List String → Processor → Processor
unfolding enqueue
enqueue_all [] p = p
enqueue_all (f ∷ fs) p = enqueue_all fs (enqueue f p)

pub process_batch : List String → Processor → Processor
unfolding enqueue_all ensure_started
process_batch file_paths p = enqueue_all file_paths (ensure_started p)

pub outcome_of : Message → Outcome
outcome_of m = elim m.error [
  | none ↦ resolved m.file_path m.hash m.git_info
  | some e ↦ if e == "" then resolved m.file_path m.hash m.git_info else rejected e
]

-- The worker takes the oldest item of the queue, or goes idle.
pub next_job : ℕ → List Item → Processor → Processor
unfolding dispatch
next_job worker [] p = record p { idle = worker ∷ p.idle }
next_job worker (item ∷ rest) p = dispatch worker item (record p { queue = rest })

-- An answer with an id that does not wait is dropped.
pub on_result : ℕ → Message → Processor → Processor
unfolding next_job outcome_of
on_result worker m p =
    if contains p.callbacks m.id
    then next_job worker p.queue (record p {
      callbacks = keep (λ i. not (i == m.id)) p.callbacks;
      settled = p.settled ++ record { id = m.id; outcome = outcome_of m } ∷ [];
    })
    else p

pub close : Processor → Processor
close p = record p { workers = []; idle = []; queue = []; callbacks = []; started = false }

-- What happens to a processor between two calls of `close`.
pub data Event : Type 0 where
  batch : List String → Event
  answer : ℕ → Message → Event

pub step : Event → Processor → Processor
unfolding process_batch on_result
step (batch fs) p = process_batch fs p
step (answer w m) p = on_result w m p

pub run : List Event → Processor → Processor
unfolding step
run [] p = p
run (e ∷ es) p = run es (step e p)
