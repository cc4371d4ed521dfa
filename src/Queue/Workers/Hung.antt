-- ===== src/Queue/Workers/Hung.antt =====
-- Stop and the workers that wait inside Dequeue.

use ytmpt.Common.{
  ℕ, suc, ◌≤◌, length-perm, ◌<◌, length, ◌⊎◌, inl, inr, ◌≡◌, refl, true, List, [], ◌∷◌, Perm, arith,
  All, ap,
}
use ytmpt.Queue.{Job}
use ytmpt.Queue.Order.{jobs}
use ytmpt.Queue.Enqueue.{IsValid}
use ytmpt.Queue.Workers.{
  Worker, selecting, waiting, handling, WorkerPool, Moves, this, other, Step, pass, take, block,
  finish, leave, submit, refuse, close, Reach, here, next,
}
use ytmpt.Queue.Workers.Known.{taken, submitted}

-- Stop has closed the channel, and every worker waits inside Dequeue on an empty queue.
pub record IsHung (p : WorkerPool) : Type 0 where
  pub valid : IsValid p.queue
  pub closed : p.stopped ≡ true
  pub empty : jobs p.queue.pq ≡ []
  pub some_worker : 0 < length p.workers
  pub all_wait : All (λ w. w ≡ waiting) p.workers

-- In a hung pool only a worker that waits can move.
hung-Moves :
    {w w' : Worker} {ws ws' : List Worker}
    → Moves w w' ws ws'
    → All (λ v. v ≡ waiting) ws
    → w ≡ waiting
hung-Moves this (e, _) = e
hung-Moves (other m) (_, h) = hung-Moves m h

block_keeps :
    {w : Worker} {ws ws' : List Worker}
    → Moves w waiting ws ws'
    → All (λ v. v ≡ waiting) ws
    → All (λ v. v ≡ waiting) ws'
block_keeps this (_, h) = (refl, h)
block_keeps (other m) (e, h) = (e, block_keeps m h)

length-Moves : {w w' : Worker} {ws ws' : List Worker} → Moves w w' ws ws' → length ws' ≡ length ws
length-Moves this = refl
length-Moves (other m) = ap suc (length-Moves m)

empty_of_perm : {xs : List Job} → Perm xs [] → xs ≡ []
empty_of_perm {xs = []} p = refl
empty_of_perm {xs = x ∷ xs} p = absurd (omega (arith, length-perm p))

-- A step either leaves a hung pool hung, or is a client's accepted Enqueue.
Step-IsHung :
    {p q : WorkerPool} → Step p q → IsHung p → IsHung q ⊎ (length p.accepted < length q.accepted)
Step-IsHung (pass s m) h = let e : selecting ≡ waiting = hung-Moves m h.all_wait in cc
Step-IsHung {p} (take d run m) h =
    let t = taken p.queue h.valid run in
    absurd (omega (arith, length-perm t.same, ap length h.empty))
Step-IsHung (block d run m) h = inl (record {
  valid = h.valid;
  closed = h.closed;
  empty = h.empty;
  some_worker = omega (arith, length-Moves m, h.some_worker);
  all_wait = block_keeps m h.all_wait;
})
Step-IsHung (finish {j} m) h = let e : handling j ≡ waiting = hung-Moves m h.all_wait in cc
Step-IsHung (leave s m) h = let e : selecting ≡ waiting = hung-Moves m h.all_wait in cc
Step-IsHung (submit j run) h = inr (omega arith)
Step-IsHung {p} (refuse j {q} run) h =
    let e = submitted p.queue j h.valid run in
    inl (record {
      valid = e.valid;
      closed = h.closed;
      empty = empty_of_perm (rw h.empty at e.holds);
      some_worker = h.some_worker;
      all_wait = h.all_wait;
    })
Step-IsHung close h = inl (record {
  valid = h.valid;
  closed = refl;
  empty = h.empty;
  some_worker = h.some_worker;
  all_wait = h.all_wait;
})

Step-accepted : {p q : WorkerPool} → Step p q → length p.accepted ≤ length q.accepted
Step-accepted (pass s m) = omega arith
Step-accepted (submit j run) = omega arith
Step-accepted _ = omega arith

Reach-accepted : {p q : WorkerPool} → Reach p q → length p.accepted ≤ length q.accepted
Reach-accepted here = omega arith
Reach-accepted (next r s) = omega (arith, Reach-accepted r, Step-accepted s)

Step-IsHung_or :
    {p q : WorkerPool} {n : ℕ}
    → Step p q
    → length p.accepted ≤ length q.accepted
    → n ≤ length p.accepted
    → IsHung p ⊎ (n < length p.accepted)
    → IsHung q ⊎ (n < length q.accepted)
Step-IsHung_or s grows most (inl hung) = elim (Step-IsHung s hung) [
  | inl still ↦ inl still
  | inr more ↦ inr (omega arith)
]
Step-IsHung_or s grows most (inr more) = inr (omega arith)

Reach-IsHung_or :
    {p q : WorkerPool} → Reach p q → IsHung p → IsHung q ⊎ (length p.accepted < length q.accepted)
Reach-IsHung_or here h = inl h
Reach-IsHung_or (next r s) h =
    Step-IsHung_or s (Step-accepted s) (Reach-accepted r) (Reach-IsHung_or r h)

-- Once Stop has closed the channel while every worker waits inside Dequeue on an empty queue, each
-- state that is reached before a client's next accepted job is such a state again: no worker has
-- returned, so Stop still waits.
pub Reach-IsHung : {p q : WorkerPool} → Reach p q → IsHung p → q.accepted ≡ p.accepted → IsHung q
Reach-IsHung r h same = elim (Reach-IsHung_or r h) [
  | inl hung ↦ hung
  | inr more ↦ absurd (omega (arith, ap length same))
]
