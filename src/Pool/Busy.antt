-- ===== src/Pool/Busy.antt =====
-- src/bin/lib/file-processor.js: no promise is left behind.
use caskfs.Base.{ℕ, zero, suc, ◌+◌, ◌≤◌, ◌≡◌, refl, String, true, false, Bool-cases}
use caskfs.Base.{◌⊎◌, inl, inr, List, [], ◌∷◌, length, length-append, keep, not, ◌==◌, nat_eq}
use caskfs.Base.{contains, arith}
use caskfs.Pool.{Item, Message, Processor, Event, batch, answer, create}
use caskfs.Pool.{fork_workers, ensure_started, set_callback, dispatch, place, enqueue, enqueue_all}
use caskfs.Pool.{process_batch, outcome_of, next_job, on_result, step, run}
use caskfs.Pool.Ledger.{count, contains-count, queued, settled_ids, IsLedger, booked, places-booked}
use caskfs.Pool.Ledger.{enqueue-IsLedger, ensure_started-IsLedger, step-IsLedger, run-IsLedger}
use caskfs.Pool.Fifo.{IsOrderly, run-IsOrderly}

-- Each worker is idle or has one job; once started there is a worker.
pub record IsStaffed (p : Processor) : Type 0 where
  pub some_workers : 1 ≤ p.worker_count
  pub balance : length p.idle + length p.callbacks ≡ length p.workers
  pub staffed : (p.started ≡ false) ⊎ (1 ≤ length p.workers)

-- The items whose promise is not settled.
abbrev pub outstanding : Processor → ℕ
outstanding p = length p.queue + length p.callbacks

length-set_callback :
    (id : ℕ) (ids : List ℕ) → count id ids ≡ 0 → length (set_callback id ids) ≡ length ids + 1
unfolding set_callback
length-set_callback id ids h = ground (arith, contains-count id ids, length-append ids (id ∷ []))

length-keep_ne :
    (id : ℕ) (ids : List ℕ) → length (keep (λ j. not (j == id)) ids) + count id ids ≡ length ids
length-keep_ne id [] = omega arith
length-keep_ne id (x ∷ ids) = ground (arith, length-keep_ne id ids)

place-IsStaffed :
    (idle : List ℕ) (item : Item) (p : Processor)
    → p.idle ≡ idle
    → count item.id p.callbacks ≡ 0
    → IsStaffed p
    → IsStaffed (place idle item p)
unfolding place dispatch
place-IsStaffed [] item p e c h = record {
  some_workers = h.some_workers;
  balance = h.balance;
  staffed = h.staffed;
}
place-IsStaffed (w ∷ rest) item p e c h = record {
  some_workers = h.some_workers;
  balance = ground (arith, h.balance, length-set_callback item.id p.callbacks c);
  staffed = h.staffed;
}

enqueue-IsStaffed :
    (f : String) (p : Processor) → IsLedger p → IsStaffed p → IsStaffed (enqueue f p)
unfolding enqueue
enqueue-IsStaffed f p l h =
    place-IsStaffed p.idle _ (record p { id_counter = p.id_counter + 1 }) refl
      (ground (arith, l (p.id_counter + 1)))
      (record { some_workers = h.some_workers; balance = h.balance; staffed = h.staffed })

enqueue_all-IsStaffed :
    (fs : List String) (p : Processor) → IsLedger p → IsStaffed p → IsStaffed (enqueue_all fs p)
unfolding enqueue_all
enqueue_all-IsStaffed [] p l h = h
enqueue_all-IsStaffed (f ∷ fs) p l h =
    enqueue_all-IsStaffed fs (enqueue f p) (enqueue-IsLedger f p l) (enqueue-IsStaffed f p l h)

-- A round of forking adds one idle worker; the first round makes the pool staffed.
fork_workers-IsStaffed :
    (n : ℕ) (p : Processor)
    → 1 ≤ p.worker_count
    → length p.idle + length p.callbacks ≡ length p.workers
    → 1 ≤ length p.workers + n
    → IsStaffed (fork_workers n p)
unfolding fork_workers
fork_workers-IsStaffed zero p c b s = record {
  some_workers = c;
  balance = b;
  staffed = inr (omega arith);
}
fork_workers-IsStaffed (suc n) p c b s =
    let more = length-append p.workers (p.forked ∷ []) in
    fork_workers-IsStaffed n _ c (omega arith) (omega arith)

ensure_started-IsStaffed : (p : Processor) → IsStaffed p → IsStaffed (ensure_started p)
unfolding ensure_started
ensure_started-IsStaffed p h = elim (Bool-cases p.started) [
  | inl up ↦ simp up h
  | inr down ↦ simp down (
      fork_workers-IsStaffed p.worker_count (record p { started = true }) h.some_workers h.balance
        (ground (arith, h.some_workers)))
]

-- The worker that answered is idle again or has a job again.
length-next_job :
    (w : ℕ) (queue : List Item) (p : Processor)
    → p.queue ≡ queue
    → ((i : ℕ) → count i (queued p) + count i p.callbacks ≤ 1)
    → length (next_job w queue p).idle + length (next_job w queue p).callbacks
      ≡ length p.idle + length p.callbacks + 1
unfolding next_job dispatch
length-next_job w [] p e h = omega arith
length-next_job w (item ∷ rest) p e h =
    ground (arith, h item.id, length-set_callback item.id p.callbacks)

-- Handing out a job changes neither the workers nor how they were started.
module _ (w : ℕ) where
  worker_count-next_job :
      (queue : List Item) (p : Processor) → (next_job w queue p).worker_count ≡ p.worker_count
  unfolding next_job dispatch
  worker_count-next_job [] p = refl
  worker_count-next_job (item ∷ rest) p = refl

  workers-next_job : (queue : List Item) (p : Processor) → (next_job w queue p).workers ≡ p.workers
  unfolding next_job dispatch
  workers-next_job [] p = refl
  workers-next_job (item ∷ rest) p = refl

  started-next_job : (queue : List Item) (p : Processor) → (next_job w queue p).started ≡ p.started
  unfolding next_job dispatch
  started-next_job [] p = refl
  started-next_job (item ∷ rest) p = refl

  outstanding-next_job :
      (queue : List Item) (p : Processor)
      → p.queue ≡ queue
      → ((i : ℕ) → count i (queued p) + count i p.callbacks ≤ 1)
      → outstanding (next_job w queue p) ≡ outstanding p
  unfolding next_job dispatch
  outstanding-next_job [] p e h = refl
  outstanding-next_job (item ∷ rest) p e h =
      ground (arith, h item.id, length-set_callback item.id p.callbacks)

module _ (w : ℕ) (m : Message) (p : Processor) (l : IsLedger p)
    (c : contains p.callbacks m.id ≡ true) where
  abbrev after_booking : Processor
  after_booking = booked m (record { id = m.id; outcome = outcome_of m }) p

  once : (i : ℕ) → count i (queued after_booking) + count i after_booking.callbacks ≤ 1
  once i =
      ground
        (arith, places-booked i m (record { id = m.id; outcome = outcome_of m }) p refl l c, l i)

  length-booked : length after_booking.callbacks + 1 ≡ length p.callbacks
  length-booked =
      ground (arith, length-keep_ne m.id p.callbacks, contains-count m.id p.callbacks, l m.id)

  answered-IsStaffed : IsStaffed p → IsStaffed (next_job w p.queue after_booking)
  answered-IsStaffed h = record {
    some_workers = rw worker_count-next_job h.some_workers;
    balance = rw (workers-next_job w p.queue after_booking) (
        omega (arith, length-next_job w p.queue after_booking refl once, length-booked, h.balance));
    staffed = rw (workers-next_job, started-next_job) h.staffed;
  }

on_result-IsStaffed :
    (w : ℕ) (m : Message) (p : Processor) → IsLedger p → IsStaffed p → IsStaffed (on_result w m p)
unfolding on_result
on_result-IsStaffed w m p l h = elim (Bool-cases (contains p.callbacks m.id)) [
  | inl c ↦ rw c (answered-IsStaffed w m p l c h)
  | inr c ↦ rw c h
]

run-IsStaffed_from :
    (es : List Event) (p : Processor) → IsLedger p → IsStaffed p → IsStaffed (run es p)
unfolding run step process_batch
run-IsStaffed_from [] p l h = h
run-IsStaffed_from (batch fs ∷ es) p l h =
    run-IsStaffed_from es _ (step-IsLedger (batch fs) p l)
      (enqueue_all-IsStaffed fs _ (ensure_started-IsLedger p l) (ensure_started-IsStaffed p h))
run-IsStaffed_from (answer w m ∷ es) p l h =
    run-IsStaffed_from es _ (step-IsLedger (answer w m) p l) (on_result-IsStaffed w m p l h)

pub run-IsStaffed : (n : ℕ) (es : List Event) → IsStaffed (run es (create n))
run-IsStaffed n es =
    run-IsStaffed_from es (create n) (λ i. ground arith)
      (record { some_workers = ground arith; balance = refl; staffed = inl refl })

-- An answer to an id that waits settles one promise: after it one item less is outstanding.
pub outstanding-on_result :
    (n : ℕ) (es : List Event) (w : ℕ) (m : Message)
    → contains (run es (create n)).callbacks m.id ≡ true
    → outstanding (on_result w m (run es (create n))) + 1 ≡ outstanding (run es (create n))
unfolding on_result
outstanding-on_result n es w m c =
    let p = run es (create n) in
    let l = run-IsLedger n es in
    simp c (
      omega (
        arith,
        outstanding-next_job w p.queue (after_booking w m p l c) refl (once w m p l c),
        length-booked w m p l c,
      ))

empty_of_idle : (p : Processor) → IsOrderly p → IsStaffed p → p.callbacks ≡ [] → p.queue ≡ []
empty_of_idle p o h c = ground (arith, o.busy, o.fresh, h.staffed, h.balance)

-- When no worker owes an answer, nothing waits in the queue, and every id that was given out has
-- exactly one settled promise.
pub all_settled :
    (n : ℕ) (es : List Event)
    → (run es (create n)).callbacks ≡ []
    → ((run es (create n)).queue ≡ [])
      × ((i : ℕ)
          → 1 ≤ i
          → i ≤ (run es (create n)).id_counter
          → count i (settled_ids (run es (create n))) ≡ 1)
all_settled n es c =
    let q = empty_of_idle _ (run-IsOrderly n es) (run-IsStaffed n es) c in
    (q, λ i lo hi. ground (arith, run-IsLedger n es i, q, c))
