-- ===== src/Queue/Dequeue.antt =====
-- Dequeue takes the first job in the order of Less.
use mathlib.Core.List.{Mem, append-nil, perm_middle, not-mem-nil, forall_mem-cons}
use mathlib.Core.List.Perm
use mathlib.Core.Bool.{Bool-set}
use ytmpt.Common.{
  ℕ, suc, ◌+◌, ◌-◌, ◌<◌, ◌≡◌, refl, sym, ◌∙◌, inl, inr, List, [], ◌∷◌, Perm, arith, length, some,
  Returns, length-map, length-perm, Bool-cases, exchange, take, get_or, get_or-exchange,
  length-exchange, exchange-perm, get_elem?-get_or, take-append-get_or, length-take, get_or-take,
  map-take, get_or-map, ◌==◌,
}
use ytmpt.Queue.{
  Job, PriorityJob, JobPq, Queue, Dequeued, waits, takes, dequeue, heap_pop, pop, swap, down,
}
use ytmpt.Queue.Order.{
  Precedes, no_job, no_entry, jobs, key, parent, IsHeap, swap-Returns, root-Precedes,
}
use ytmpt.Queue.Down.{DownInv, down-Returns}
use ytmpt.Queue.Enqueue.{IsValid}

-- What Dequeue takes from a queue: a job that no other comes before, and a valid queue of the rest.
pub record IsTaken (q : Queue) (j : Job) (rest : Queue) : Type 0 where
  pub valid : IsValid rest
  pub capacity_kept : rest.capacity ≡ q.capacity
  pub same : Perm (j ∷ jobs rest.pq) (jobs q.pq)
  pub first : (x : Job) → Mem x (jobs q.pq) → Precedes j x

-- An empty queue makes the caller wait, another one gives its first job.
abbrev pub IsDequeued : Queue → Dequeued → Type 0
IsDequeued q waits = jobs q.pq ≡ []
IsDequeued q (takes j rest) = IsTaken q j rest

Precedes-all :
    (a : List Job) (j : Job)
    → ((i : ℕ) → i < length a → Precedes j (key a i))
    → (x : Job) → Mem x a
    → Precedes j x
Precedes-all [] j h = λ x m. absurd (not-mem-nil m)
Precedes-all (y ∷ a) j h =
    (forall_mem-cons λ x. Bool-set _ _).1
      (h 0 (omega arith), Precedes-all a j λ i p. h (suc i) (omega arith))

-- What heap.Pop hands out of a slice of `suc n` entries.
record IsPopped (pq : JobPq) (r : PriorityJob × JobPq) : Type 0 where
  item : r.0.job ≡ key (jobs pq) 0
  heap : IsHeap (jobs r.1) (length (jobs r.1))
  same : Perm (r.0.job ∷ jobs r.1) (jobs pq)

pop-Returns : (b : JobPq) (n : ℕ) → length b ≡ suc n → pop b ≡ some (get_or b n no_entry, take n b)
unfolding pop
pop-Returns b n h =
    let last : length b - 1 ≡ n = omega arith in
    rw (last, get_elem?-get_or b n no_entry (omega arith))

module _ (a : List Job) (n : ℕ) (h : IsHeap a (length a)) (size : length a ≡ suc n) where
  -- The root and the last entry have changed places.
  abbrev turned : List Job
  turned = exchange a 0 n no_job

  turned-DownInv : DownInv turned n 0
  turned-DownInv =
      let at = get_or-exchange a 0 n no_job (omega arith) (omega arith) in
      record {
        within = omega (arith, length-exchange a 0 n no_job);
        edges = λ c p q r. ground (arith, at c, at (parent c), h c p);
        bridged = λ c p q r t. absurd (omega arith);
      }

  turned-last : key turned n ≡ key a 0
  turned-last = ground (arith, get_or-exchange a 0 n no_job (omega arith) (omega arith) n)

take-perm : (b : List Job) (n : ℕ) → length b ≡ suc n → Perm (key b n ∷ take n b) b
take-perm b n h =
    rw (take-append-get_or n b no_job h) at
      (Perm.symm (rw (append-nil (take n b)) at (perm_middle {a = key b n} (take n b) [])))

-- The run of heap.Pop, from the runs of its parts.
heap_pop-some :
    (pq moved b : JobPq) (n : ℕ)
    → length pq ≡ suc n
    → swap pq 0 n ≡ some moved
    → down (n + 1) moved 0 n ≡ some b
    → length b ≡ suc n
    → heap_pop pq ≡ some (get_or b n no_entry, take n b)
unfolding heap_pop
heap_pop-some pq moved b n size run done size' =
    let last : length pq - 1 ≡ n = omega arith in rw (last, run, done) (pop-Returns b n size')

heap_pop-Returns :
    (pq : JobPq) (n : ℕ)
    → IsHeap (jobs pq) (length (jobs pq))
    → length pq ≡ suc n
    → Returns (IsPopped pq) (heap_pop pq)
heap_pop-Returns pq n h size =
    let size' : length (jobs pq) ≡ suc n = length-map (λ (x : PriorityJob). x.job) pq ∙ size in
    let (moved, run, same) = swap-Returns pq 0 n (omega arith) (omega arith) in
    let (b, done, sunk) =
      down-Returns (n + 1) moved 0 n (omega arith) (rw same (turned-DownInv (jobs pq) n h size')) in
    let all : Perm (jobs b) (jobs pq) =
      Perm.trans sunk.same
        (rw same (exchange-perm (jobs pq) 0 n no_job (omega arith) (omega arith))) in
    let size'' : length (jobs b) ≡ suc n = length-perm all ∙ size' in
    let item : (get_or b n no_entry).job ≡ key (jobs b) n =
      sym (get_or-map (λ (x : PriorityJob). x.job) b n no_entry) in
    let rest : jobs (take n b) ≡ take n (jobs b) = map-take (λ (x : PriorityJob). x.job) n b in
    (
      (get_or b n no_entry, take n b),
      heap_pop-some pq moved b n size run done
          (sym (length-map (λ (x : PriorityJob). x.job) b) ∙ size''),
      record {
        item = item ∙ sunk.kept n (omega arith) ∙ rw same (turned-last (jobs pq) n h size');
        heap =
            rw (rest, length-take n (jobs b) (omega arith))
              (λ c p q. ground (
                arith,
                sunk.heap c p q,
                get_or-take n (jobs b) c no_job,
                get_or-take n (jobs b) (parent c) no_job,
              ));
        same = rw (rest, item) (Perm.trans (take-perm (jobs b) n size'') all);
      },
    )

-- From a valid queue Dequeue returns: it waits exactly if the queue is empty; otherwise it takes a
-- job that no job of the queue comes before (a higher priority, or the same and an earlier
-- EnqueuedAt), and leaves a valid queue of the other jobs with the same capacity.
pub dequeue_lem : (q : Queue) → IsValid q → Returns (IsDequeued q) (dequeue q)
unfolding dequeue
dequeue_lem q v =
    let size = length-map (λ (x : PriorityJob). x.job) q.pq in
    elim (Bool-cases (length q.pq == 0)) [
      | inl empty ↦ (waits, rw empty, ground arith)
      | inr filled ↦
          let (r, run, popped) = heap_pop-Returns q.pq (length q.pq - 1) v.heap (ground arith) in
          (
            takes r.0.job (record q { pq = r.1 }),
            rw (filled, run),
            record {
              valid = record {
                heap = popped.heap;
                bounded = omega (arith, length-perm popped.same, v.bounded);
              };
              capacity_kept = refl;
              same = popped.same;
              first =
                  Precedes-all (jobs q.pq) r.0.job λ i p.
                    rw popped.item (root-Precedes (jobs q.pq) (length (jobs q.pq)) i v.heap p);
            },
          )
    ]
