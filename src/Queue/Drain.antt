-- ===== src/Queue/Drain.antt =====
-- Calls of Dequeue until the queue is empty.
use mathlib.Core.List.{Mem, mem-cons_of_mem}
use mathlib.Core.List.Perm
use ytmpt.Common.{
  ℕ, zero, suc, ◌<◌, ◌≡◌, refl, Option, none, some, List, [], ◌∷◌, Perm, arith, length, Returns,
  length-map, length-perm, ◌>>=◌,
}
use ytmpt.Queue.{Job, PriorityJob, Queue, waits, takes, dequeue}
use ytmpt.Queue.Order.{Precedes, jobs}
use ytmpt.Queue.Enqueue.{IsValid}
use ytmpt.Queue.Dequeue.{IsDequeued, IsTaken, dequeue_lem}

-- What the calls hand out, in order: one call for each unit of fuel, the last of which would wait.
unfoldable pub drain : ℕ → Queue → Option (List Job)
drain zero q = none
drain (suc n) q = dequeue q >>= λ d. elim d [
  | waits ↦ some []
  | takes j rest ↦ drain n rest >>= λ js. some (j ∷ js)
]

-- No job comes before one that is handed out earlier.
abbrev pub IsInOrder : List Job → Type 0
IsInOrder [] = Unit
IsInOrder (j ∷ js) = ((x : Job) → Mem x js → Precedes j x) × IsInOrder js

-- What the calls promise of a queue.
abbrev Drains : ℕ → Queue → Type 0
Drains n q = Returns (λ js. IsInOrder js × Perm js (jobs q.pq)) (drain n q)

jobs-shrink : {q rest : Queue} {j : Job} → IsTaken q j rest → suc (length rest.pq) ≡ length q.pq
jobs-shrink {q} {rest} t =
    let a = length-perm t.same in
    let b = length-map (λ (x : PriorityJob). x.job) q.pq in
    let c = length-map (λ (x : PriorityJob). x.job) rest.pq in omega (arith, a, b, c)

taken_first :
    {q rest : Queue} {j : Job} {js : List Job}
    → IsTaken q j rest
    → IsInOrder js
    → Perm js (jobs rest.pq)
    → IsInOrder (j ∷ js) × Perm (j ∷ js) (jobs q.pq)
taken_first {j = j} t o p =
    let all = Perm.trans (Perm.cons j p) t.same in
    ((λ x m. t.first x ((Perm.mem_iff all).0 (mem-cons_of_mem j m)), o), all)

after_dequeue :
    (n : ℕ) (q : Queue)
    → ((rest : Queue) → IsValid rest → length rest.pq < n → Drains n rest)
    → length q.pq < suc n
    → Returns (IsDequeued q) (dequeue q)
    → Drains (suc n) q
unfolding drain
after_dequeue n q later h (waits, e, empty) = ([], rw e refl, (tt, rw empty Perm.rfl))
after_dequeue n q later h (takes j rest, e, t) =
    let size = jobs-shrink t in
    let (js, run, (o, p)) = later rest t.valid (omega (arith, size)) in
    (j ∷ js, rw (e, run) refl, taken_first t o p)

-- From a valid queue, as many calls of Dequeue as there are jobs, and one that would wait, empty it:
-- they hand out every job of the queue once, by priority, and jobs of one priority by EnqueuedAt.
pub drain_lem :
    (n : ℕ) (q : Queue)
    → IsValid q
    → length q.pq < n
    → Returns (λ js. IsInOrder js × Perm js (jobs q.pq)) (drain n q)
drain_lem zero q v h = absurd (omega arith)
drain_lem (suc n) q v h = after_dequeue n q (drain_lem n) h (dequeue_lem q v)
