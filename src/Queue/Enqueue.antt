-- ===== src/Queue/Enqueue.antt =====
-- NewQueue and Enqueue, and the invariant of a queue.
use mathlib.Core.List.{append-nil, perm_middle, map-append}
use mathlib.Core.List.Perm
use ytmpt.Common.{
  ℕ, ◌+◌, ◌-◌, ◌≤◌, ◌≡◌, refl, inl, inr, Bool, true, false, [], ◌∷◌, ◌++◌, Perm, arith, length,
  Returns, length-map, length-append, length-perm, get_or-append, Bool-cases, leb, ltb,
  if◌then◌else◌,
}
use ytmpt.Queue.{Job, PriorityJob, JobPq, Queue, new_queue, enqueue, heap_push}
use ytmpt.Queue.Order.{no_job, jobs, parent, IsHeap}
use ytmpt.Queue.Up.{UpInv, IsRestored, up_loop-Returns}

-- The slice is a heap in the order of Less, and the capacity is kept.
pub record IsValid (q : Queue) : Type 0 where
  pub heap : IsHeap (jobs q.pq) (length (jobs q.pq))
  pub bounded : length (jobs q.pq) ≤ q.capacity

-- What Enqueue leaves: the job is added exactly if there was room.
pub record IsEnqueued (q : Queue) (j : Job) (r : Queue × Bool) : Type 0 where
  pub valid : IsValid r.0
  pub capacity_kept : r.0.capacity ≡ q.capacity
  pub accepted : r.1 ≡ ltb (length (jobs q.pq)) q.capacity
  pub holds : Perm (jobs r.0.pq) (if r.1 then j ∷ jobs q.pq else jobs q.pq)

heap_push-Returns :
    (pq : JobPq) (x : PriorityJob)
    → IsHeap (jobs pq) (length (jobs pq))
    → Returns (λ b. IsRestored (x.job ∷ jobs pq) (jobs b)) (heap_push pq x)
unfolding heap_push
heap_push-Returns pq x h =
    let grown = jobs pq ++ x.job ∷ [] in
    let same : jobs (pq ++ x ∷ []) ≡ grown = map-append (λ (y : PriorityJob). y.job) pq (x ∷ []) in
    let size : length grown ≡ length (jobs pq) + 1 = length-append (jobs pq) (x.job ∷ []) in
    let size' = length-map (λ (y : PriorityJob). y.job) pq in
    let size'' = length-append pq (x ∷ []) in
    let start : UpInv grown (length (pq ++ x ∷ []) - 1) = record {
      inside = omega arith;
      edges = λ c p q r. ground (
        arith,
        h c,
        get_or-append (jobs pq) (x.job ∷ []) c no_job,
        get_or-append (jobs pq) (x.job ∷ []) (parent c) no_job,
      );
      bridged = λ c p q r t. absurd (omega arith);
    } in
    let (b, run, restored) =
      up_loop-Returns (length pq + 1) (pq ++ x ∷ []) (length (pq ++ x ∷ []) - 1) (omega arith)
        (rw same start) in
    (
      b,
      run,
      (
        restored.0,
        Perm.trans restored.1
            (rw same (rw (append-nil (jobs pq)) at (perm_middle {a = x.job} (jobs pq) []))),
      ),
    )

pub new_queue-IsValid : (n : ℕ) → IsValid (new_queue n)
unfolding new_queue
new_queue-IsValid n = record { heap = λ c p q. absurd (omega arith); bounded = omega arith }

-- From a valid queue Enqueue returns, and leaves a valid queue of the same capacity: it accepts
-- the job exactly if the queue held fewer jobs than its capacity, and then the queue holds the
-- job and those it held; otherwise it holds those it held.
pub enqueue_lem : (q : Queue) (j : Job) → IsValid q → Returns (IsEnqueued q j) (enqueue q j)
unfolding enqueue
enqueue_lem q j v =
    let size = length-map (λ (x : PriorityJob). x.job) q.pq in
    elim (Bool-cases (leb q.capacity (length q.pq))) [
      | inl full ↦ (
        (q, false),
        rw full,
        record { valid = v; capacity_kept = refl; accepted = ground arith; holds = Perm.rfl },
      )
      | inr room ↦
          let (b, run, restored) = heap_push-Returns q.pq (record { job = j; index = 0 }) v.heap in
          (
            (record q { pq = b }, true),
            rw (room, run),
            record {
              valid = record {
                heap = restored.0;
                bounded = ground (arith, length-perm restored.1);
              };
              capacity_kept = refl;
              accepted = ground arith;
              holds = restored.1;
            },
          )
    ]
