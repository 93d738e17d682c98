-- ===== src/Pool/Fifo.antt =====
-- src/bin/lib/file-processor.js: work is handed out in the order in which it came in.
use caskfs.Base.{
  ℕ, zero, suc, ◌+◌, ◌≡◌, refl, sym, ◌∙◌, ap, String, true, Bool-cases, ◌⊎◌, inl, inr,
}
use caskfs.Base.{
  List, [], ◌∷◌, ◌++◌, map, append-nil, length, length-append, subst, append_assoc, nat_eq,
  contains,
}
use caskfs.Base.{arith}
use caskfs.Pool.{Item, Job, Message, Processor, Event, batch, answer, create}
use caskfs.Pool.{fork_workers, ensure_started, dispatch, place, enqueue, enqueue_all}
use caskfs.Pool.Ledger.{id_counter-enqueue}
use caskfs.Pool.{process_batch, next_job, on_result, step, run}

abbrev pub sent_items : Processor → List Item
sent_items p = map (λ (j : Job). j.item) p.sent

-- The items that were sent, then those that wait.
abbrev pub line : Processor → List Item
line p = sent_items p ++ p.queue

-- The items that the batches of a run ask for, numbered on from `n`.
abbrev pub numbered : ℕ → List String → List Item
numbered n [] = []
numbered n (f ∷ fs) = record { id = n + 1; file_path = f } ∷ numbered (n + 1) fs

abbrev pub requests : List Event → List String
requests [] = []
requests (batch fs ∷ es) = fs ++ requests es
requests (answer w m ∷ es) = requests es

-- No worker is idle while an item waits, and nothing waits before the workers are started.
pub record IsOrderly (p : Processor) : Type 0 where
  pub busy : (p.idle ≡ []) ⊎ (p.queue ≡ [])
  pub fresh : (p.started ≡ true) ⊎ (p.queue ≡ [])

map-snoc {ℓ κ} :
    {A : Type ℓ} {B : Type κ} (f : A → B) (xs : List A) (x : A)
    → map f (xs ++ x ∷ []) ≡ map f xs ++ f x ∷ []
map-snoc f [] x = refl
map-snoc f (y ∷ xs) x = ap (λ r. f y ∷ r) (map-snoc f xs x)

module _ (item : Item) where
  line-place :
      (idle : List ℕ) (p : Processor)
      → (idle ≡ []) ⊎ (p.queue ≡ [])
      → line (place idle item p) ≡ line p ++ item ∷ []
  unfolding place dispatch
  line-place [] p h = sym (append_assoc (sent_items p) p.queue (item ∷ []))
  line-place (w ∷ rest) p (inl e) = cc
  line-place (w ∷ rest) p (inr e) = rw (e, map-snoc (λ (j : Job). j.item)) (simp append-nil)

  place-IsOrderly :
      (idle : List ℕ) (p : Processor)
      → p.idle ≡ idle
      → p.started ≡ true
      → (idle ≡ []) ⊎ (p.queue ≡ [])
      → IsOrderly (place idle item p)
  unfolding place dispatch
  place-IsOrderly [] p e s h = record { busy = inl e; fresh = inl s }
  place-IsOrderly (w ∷ rest) p e s (inl n) = cc
  place-IsOrderly (w ∷ rest) p e s (inr n) = record { busy = inr n; fresh = inl s }

started-place :
    (idle : List ℕ) (item : Item) (p : Processor) → (place idle item p).started ≡ p.started
unfolding place dispatch
started-place [] item p = refl
started-place (w ∷ rest) item p = refl

-- One more item at the end of the line.
module _ (f : String) (p : Processor) (o : IsOrderly p) (s : p.started ≡ true) where
  abbrev counted : Processor
  counted = record p { id_counter = p.id_counter + 1 }

  enqueue-IsOrderly : IsOrderly (enqueue f p)
  unfolding enqueue
  enqueue-IsOrderly = place-IsOrderly _ p.idle counted refl s o.busy

  started-enqueue : (enqueue f p).started ≡ true
  unfolding enqueue
  started-enqueue = started-place p.idle _ counted ∙ s

  line-enqueue : line (enqueue f p) ≡ line p ++ record { id = p.id_counter + 1; file_path = f } ∷ []
  unfolding enqueue
  line-enqueue = line-place _ p.idle counted o.busy

numbered-append :
    (n k : ℕ) (xs ys : List String)
    → n + length xs ≡ k
    → numbered n (xs ++ ys) ≡ numbered n xs ++ numbered k ys
numbered-append n k [] ys e = let e' : n ≡ k = omega arith in rw e'
numbered-append n k (x ∷ xs) ys e =
    ap (λ r. record { id = n + 1; file_path = x } ∷ r)
      (numbered-append (n + 1) k xs ys (omega arith))

-- What a run has reached: `c` requests, all in the line.
pub record IsAt (rs : List String) (p : Processor) : Type 0 where
  pub orderly : IsOrderly p
  pub counter : p.id_counter ≡ length rs
  pub in_line : line p ≡ numbered 0 rs

enqueue-IsAt :
    (rs : List String) (f : String) (p : Processor)
    → p.started ≡ true
    → IsAt rs p
    → IsAt (rs ++ f ∷ []) (enqueue f p)
enqueue-IsAt rs f p s h = record {
  orderly = enqueue-IsOrderly f p h.orderly s;
  counter = id_counter-enqueue f p ∙ omega (arith, h.counter, length-append rs (f ∷ []));
  in_line =
      line-enqueue f p h.orderly s
      ∙ rw (h.in_line, h.counter) (sym (numbered-append 0 (length rs) rs (f ∷ []) (omega arith)));
}

enqueue_all-IsAt :
    (fs rs : List String) (p : Processor)
    → p.started ≡ true
    → IsAt rs p
    → IsAt (rs ++ fs) (enqueue_all fs p)
unfolding enqueue_all
enqueue_all-IsAt [] rs p s h = rw append-nil h
enqueue_all-IsAt (f ∷ fs) rs p s h =
    subst (λ l. IsAt l (enqueue_all fs (enqueue f p))) (append_assoc rs (f ∷ []) fs)
      (enqueue_all-IsAt fs (rs ++ f ∷ []) (enqueue f p) (started-enqueue f p h.orderly s)
        (enqueue-IsAt rs f p s h))

-- Forking changes neither the line nor the counter.
fork_workers-IsAt :
    (n : ℕ) (rs : List String) (p : Processor)
    → p.started ≡ true
    → p.queue ≡ []
    → IsAt rs p
    → IsAt rs (fork_workers n p) × ((fork_workers n p).started ≡ true)
unfolding fork_workers
fork_workers-IsAt zero rs p s e h = (h, s)
fork_workers-IsAt (suc n) rs p s e h = fork_workers-IsAt n rs _ s e (record {
  orderly = record { busy = inr e; fresh = inl s };
  counter = h.counter;
  in_line = h.in_line;
})

ensure_started-IsAt :
    (rs : List String) (p : Processor)
    → IsAt rs p
    → IsAt rs (ensure_started p) × ((ensure_started p).started ≡ true)
unfolding ensure_started
ensure_started-IsAt rs p h = elim (Bool-cases p.started) [
  | inl up ↦ simp up (h, refl)
  | inr down ↦
      let empty : p.queue ≡ [] = ground (arith, h.orderly.fresh) in
      simp down (
        fork_workers-IsAt p.worker_count rs (record p { started = true }) refl empty
          (record {
            orderly = record { busy = inr empty; fresh = inl refl };
            counter = h.counter;
            in_line = h.in_line;
          }))
]

-- The head of the queue moves to the end of what was sent.
next_job-IsAt :
    (w : ℕ) (rs : List String) (queue : List Item) (p : Processor)
    → p.queue ≡ queue
    → IsAt rs p
    → IsAt rs (next_job w queue p)
unfolding next_job dispatch
next_job-IsAt w rs [] p e h = record {
  orderly = record { busy = inr e; fresh = h.orderly.fresh };
  counter = h.counter;
  in_line = h.in_line;
}
next_job-IsAt w rs (item ∷ rest) p e h = record {
  orderly = record {
    busy = ground (arith, h.orderly.busy);
    fresh = ground (arith, h.orderly.fresh);
  };
  counter = h.counter;
  in_line =
      rw (map-snoc (λ (j : Job). j.item))
        (append_assoc (sent_items p) (item ∷ []) rest ∙ rw (← e) h.in_line);
}

on_result-IsAt :
    (w : ℕ) (m : Message) (rs : List String) (p : Processor) → IsAt rs p → IsAt rs (on_result w m p)
unfolding on_result
on_result-IsAt w m rs p h = elim (Bool-cases (contains p.callbacks m.id)) [
  | inl c ↦ rw c (
      next_job-IsAt w rs p.queue _ refl (record {
        orderly = record { busy = h.orderly.busy; fresh = h.orderly.fresh };
        counter = h.counter;
        in_line = h.in_line;
      }))
  | inr c ↦ rw c h
]

run-IsAt :
    (es : List Event) (rs : List String) (p : Processor)
    → IsAt rs p
    → IsAt (rs ++ requests es) (run es p)
unfolding run step process_batch
run-IsAt [] rs p h = rw append-nil h
run-IsAt (batch fs ∷ es) rs p h =
    let (up, s) = ensure_started-IsAt rs p h in
    subst (λ l. IsAt l (run es (enqueue_all fs (ensure_started p))))
      (append_assoc rs fs (requests es))
      (run-IsAt es (rs ++ fs) _ (enqueue_all-IsAt fs rs (ensure_started p) s up))
run-IsAt (answer w m ∷ es) rs p h = run-IsAt es rs (on_result w m p) (on_result-IsAt w m rs p h)

IsAt-create : (n : ℕ) → IsAt [] (create n)
IsAt-create n = record {
  orderly = record { busy = inl refl; fresh = inr refl };
  counter = refl;
  in_line = refl;
}

-- The files of all batches, numbered from 1 as they came, are the items that were sent to workers,
-- in that order, followed by those that still wait: the queue is first in, first out, across
-- batches and whatever the workers answer.
pub line-run : (n : ℕ) (es : List Event) → line (run es (create n)) ≡ numbered 0 (requests es)
line-run n es = (run-IsAt es [] (create n) (IsAt-create n)).in_line

-- No worker is idle while an item waits.
pub run-IsOrderly : (n : ℕ) (es : List Event) → IsOrderly (run es (create n))
run-IsOrderly n es = (run-IsAt es [] (create n) (IsAt-create n)).orderly
