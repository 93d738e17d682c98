-- ===== src/Pool/Ledger.antt =====
-- src/bin/lib/file-processor.js: where each item stands.
use caskfs.Base.{ℕ, zero, suc, ◌+◌, ◌≤◌, ◌≡◌, refl, ◌∙◌, ap, String, true}
use caskfs.Base.{
  List, [], ◌∷◌, ◌++◌, map, keep, not, ◌&&◌, ◌==◌, nat_eq, contains, leb, Bool-cases, inl, inr,
  if◌then◌else◌, arith,
}
use caskfs.Pool.{Item, Message, Settled, Processor, Event, batch, answer, create}
use caskfs.Pool.{fork_workers, ensure_started, set_callback, dispatch, place, enqueue, enqueue_all}
use caskfs.Pool.{process_batch, next_job, outcome_of, on_result, step, run}

-- How often an id stands in a list.
abbrev pub count : ℕ → List ℕ → ℕ
count i [] = 0
count i (j ∷ js) = (if i == j then 1 else 0) + count i js

abbrev pub queued : Processor → List ℕ
queued p = map (λ (item : Item). item.id) p.queue

abbrev pub settled_ids : Processor → List ℕ
settled_ids p = map (λ (s : Settled). s.id) p.settled

-- The places of an id: the queue, a worker, the settled promises.
abbrev pub places : Processor → ℕ → ℕ
places p i = count i (queued p) + count i p.callbacks + count i (settled_ids p)

-- Whether an id has been given out.
abbrev pub issued : Processor → ℕ → ℕ
issued p i = if leb 1 i && leb i p.id_counter then 1 else 0

-- Every id given out stands in one place, once; no other id stands anywhere.
abbrev pub IsLedger : Processor → Type 0
IsLedger p = (i : ℕ) → places p i ≡ issued p i

count-append : (i : ℕ) (xs ys : List ℕ) → count i (xs ++ ys) ≡ count i xs + count i ys
count-append i [] ys = omega arith
count-append i (x ∷ xs) ys = omega (arith, count-append i xs ys)

map-snoc {ℓ} :
    {A : Type ℓ} (f : A → ℕ) (xs : List A) (x : A) → map f (xs ++ x ∷ []) ≡ map f xs ++ f x ∷ []
map-snoc f [] x = refl
map-snoc f (y ∷ xs) x = ap (λ r. f y ∷ r) (map-snoc f xs x)

pub count-keep_ne :
    (i id : ℕ) (xs : List ℕ)
    → count i (keep (λ j. not (j == id)) xs) ≡ (if i == id then 0 else count i xs)
count-keep_ne i id [] = ground arith
count-keep_ne i id (x ∷ xs) = ground (arith, count-keep_ne i id xs)

pub contains-count : (i : ℕ) (xs : List ℕ) → contains xs i ≡ leb 1 (count i xs)
contains-count i [] = refl
contains-count i (x ∷ xs) = ground (arith, contains-count i xs)

-- An id that does not wait yet is added once.
count-set_callback :
    (i id : ℕ) (xs : List ℕ)
    → count id xs ≡ 0
    → count i (set_callback id xs) ≡ count i xs + (if i == id then 1 else 0)
unfolding set_callback
count-set_callback i id xs h = ground (arith, contains-count id xs, count-append i xs (id ∷ []))

abbrev one_at : ℕ → ℕ → ℕ
one_at i id = if i == id then 1 else 0

module _ (i : ℕ) where
  places-dispatch :
      (w : ℕ) (item : Item) (p : Processor)
      → count item.id p.callbacks ≡ 0
      → places (dispatch w item p) i ≡ places p i + one_at i item.id
  unfolding dispatch
  places-dispatch w item p h = omega (arith, count-set_callback i item.id p.callbacks h)

  places-place :
      (idle : List ℕ) (item : Item) (p : Processor)
      → count item.id p.callbacks ≡ 0
      → places (place idle item p) i ≡ places p i + one_at i item.id
  unfolding place
  places-place [] item p h =
      rw (map-snoc (λ (t : Item). t.id)) (omega (arith, count-append i (queued p) (item.id ∷ [])))
  places-place (w ∷ rest) item p h = places-dispatch w item (record p { idle = rest }) h

  places-enqueue :
      (f : String) (p : Processor)
      → count (p.id_counter + 1) p.callbacks ≡ 0
      → places (enqueue f p) i ≡ places p i + one_at i (p.id_counter + 1)
  unfolding enqueue
  places-enqueue f p h = places-place p.idle _ (record p { id_counter = p.id_counter + 1 }) h

id_counter-place :
    (idle : List ℕ) (item : Item) (p : Processor) → (place idle item p).id_counter ≡ p.id_counter
unfolding place dispatch
id_counter-place [] item p = refl
id_counter-place (w ∷ rest) item p = refl

pub id_counter-enqueue : (f : String) (p : Processor) → (enqueue f p).id_counter ≡ p.id_counter + 1
unfolding enqueue
id_counter-enqueue f p = id_counter-place p.idle _ (record p { id_counter = p.id_counter + 1 })

pub enqueue-IsLedger : (f : String) (p : Processor) → IsLedger p → IsLedger (enqueue f p)
enqueue-IsLedger f p h i =
    let fresh = h (p.id_counter + 1) in
    rw id_counter-enqueue (ground (arith, h i, fresh, places-enqueue i f p))

enqueue_all-IsLedger : (fs : List String) (p : Processor) → IsLedger p → IsLedger (enqueue_all fs p)
unfolding enqueue_all
enqueue_all-IsLedger [] p h = h
enqueue_all-IsLedger (f ∷ fs) p h = enqueue_all-IsLedger fs (enqueue f p) (enqueue-IsLedger f p h)

fork_workers-IsLedger : (n : ℕ) (p : Processor) → IsLedger p → IsLedger (fork_workers n p)
unfolding fork_workers
fork_workers-IsLedger zero p h = h
fork_workers-IsLedger (suc n) p h = fork_workers-IsLedger n _ h

pub ensure_started-IsLedger : (p : Processor) → IsLedger p → IsLedger (ensure_started p)
unfolding ensure_started
ensure_started-IsLedger p h = elim (Bool-cases p.started) [
  | inl up ↦ rw up h
  | inr down ↦ rw down (fork_workers-IsLedger p.worker_count (record p { started = true }) h)
]

-- The item that leaves the queue waits for an answer.
places-next_job :
    (i w : ℕ) (queue : List Item) (p : Processor)
    → p.queue ≡ queue
    → ((j : ℕ) → places p j ≤ 1)
    → places (next_job w queue p) i ≡ places p i
unfolding next_job
places-next_job i w [] p e h = refl
places-next_job i w (item ∷ rest) p e h =
    let q : Processor = record p { queue = rest } in
    let e' : queued p ≡ item.id ∷ queued q = ap (map (λ (t : Item). t.id)) e in
    let at = λ (j : ℕ). ap (count j) e' in
    ground (arith, at i, at item.id, h item.id, places-dispatch i w item q)

-- The state after the answer is booked and before the worker takes its next job.
abbrev pub booked : Message → Settled → Processor → Processor
booked m s p = record p {
  callbacks = keep (λ i. not (i == m.id)) p.callbacks;
  settled = p.settled ++ s ∷ [];
}

pub places-booked :
    (i : ℕ) (m : Message) (s : Settled) (p : Processor)
    → s.id ≡ m.id
    → IsLedger p
    → contains p.callbacks m.id ≡ true
    → places (booked m s p) i ≡ places p i
places-booked i m s p e h c = rw (map-snoc (λ (t : Settled). t.id)) (
    ground (
      arith,
      h m.id,
      count-keep_ne i m.id p.callbacks,
      count-append i (settled_ids p) (s.id ∷ []),
      contains-count m.id p.callbacks,
    ))

pub id_counter-next_job :
    (w : ℕ) (queue : List Item) (p : Processor) → (next_job w queue p).id_counter ≡ p.id_counter
unfolding next_job dispatch
id_counter-next_job w [] p = refl
id_counter-next_job w (item ∷ rest) p = refl

on_result-IsLedger : (w : ℕ) (m : Message) (p : Processor) → IsLedger p → IsLedger (on_result w m p)
unfolding on_result
on_result-IsLedger w m p h i = elim (Bool-cases (contains p.callbacks m.id)) [
  | inl c ↦
      let s : Settled = record { id = m.id; outcome = outcome_of m } in
      let q : Processor = booked m s p in
      let kept = λ (j : ℕ). places-booked j m s p refl h c in
      rw c (
        rw (id_counter-next_job w p.queue q)
          (places-next_job i w p.queue q refl (λ j. ground (arith, kept j, h j)) ∙ kept i ∙ h i))
  | inr c ↦ rw c (h i)
]

pub step-IsLedger : (e : Event) (p : Processor) → IsLedger p → IsLedger (step e p)
unfolding step process_batch
step-IsLedger (batch fs) p h =
    enqueue_all-IsLedger fs (ensure_started p) (ensure_started-IsLedger p h)
step-IsLedger (answer w m) p h = on_result-IsLedger w m p h

run-IsLedger_from : (es : List Event) (p : Processor) → IsLedger p → IsLedger (run es p)
unfolding run
run-IsLedger_from [] p h = h
run-IsLedger_from (e ∷ es) p h = run-IsLedger_from es (step e p) (step-IsLedger e p h)

-- Whatever batches and answers come, in any order and also with unknown or repeated ids: every id
-- that was given out stands in exactly one of the queue, the waiting callbacks and the settled
-- promises, and there once; no other id stands in any of them.
pub run-IsLedger : (n : ℕ) (es : List Event) → IsLedger (run es (create n))
run-IsLedger n es = run-IsLedger_from es (create n) (λ i. ground arith)
