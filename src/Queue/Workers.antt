-- ===== src/Queue/Workers.antt =====
-- WorkerPool: its goroutines as a step relation. A step is what one goroutine does between two
-- points at which others may run: a pass of the select, a call of Dequeue under the lock, the end
-- of a handler, a call of Enqueue by a client, or Stop closing its channel.
pub mod Known
pub mod Conserved
pub mod Hung
use mathlib.Core.List.Perm
use mathlib.Core.Path.{subst}
use mathlib.Core.Option.{some-injective}
use mathlib.Core.List.{perm_middle}
use ytmpt.Common.{
  ℕ, suc, ◌≤◌, length-perm, ◌<◌, length, ◌⊎◌, inl, inr, ◌≡◌, refl, sym, ◌∙◌, Bool, true, false,
  List, [], ◌∷◌, ◌++◌, Perm, arith, some, All, ap,
}
use ytmpt.Queue.{Job, Queue, Dequeued, waits, takes, enqueue, dequeue}
use ytmpt.Queue.Order.{jobs}
use ytmpt.Queue.Enqueue.{IsValid, IsEnqueued, enqueue_lem}
use ytmpt.Queue.Dequeue.{IsDequeued, IsTaken, dequeue_lem}

-- At the select, past its default, in the Wait of Dequeue, returned, or in the handler.
pub data Worker : Type 0 where
  selecting entering waiting returned : Worker
  handling : Job → Worker

-- The pool, its queue, whether stopCh is closed, and two logs: the jobs that Enqueue accepted, and
-- those whose handler has returned.
pub record WorkerPool : Type 0 where
  pub workers : List Worker
  pub queue : Queue
  pub stopped : Bool
  pub accepted : List Job
  pub handled : List Job

-- One worker goes from one state to another.
pub data Moves (w w' : Worker) : List Worker → List Worker → Type 0 where
  this : {ws : List Worker} → Moves w w' (w ∷ ws) (w' ∷ ws)
  other : {v : Worker} {ws ws' : List Worker} → Moves w w' ws ws' → Moves w w' (v ∷ ws) (v ∷ ws')

-- A worker that is about to look at the queue: it calls Dequeue, or was woken in Wait.
pub data IsDequeuing : Worker → Type 0 where
  fresh : IsDequeuing entering
  woken : IsDequeuing waiting

pub data Step (p : WorkerPool) : WorkerPool → Type 0 where
  pass :
      {ws : List Worker}
      → p.stopped ≡ false
      → Moves selecting entering p.workers ws
      → Step p (record p { workers = ws })
  take :
      {w : Worker} {ws : List Worker} {j : Job} {rest : Queue}
      → IsDequeuing w
      → dequeue p.queue ≡ some (takes j rest)
      → Moves w (handling j) p.workers ws
      → Step p (record p { workers = ws; queue = rest })
  block :
      {w : Worker} {ws : List Worker}
      → IsDequeuing w
      → dequeue p.queue ≡ some waits
      → Moves w waiting p.workers ws
      → Step p (record p { workers = ws })
  finish :
      {j : Job} {ws : List Worker}
      → Moves (handling j) selecting p.workers ws
      → Step p (record p { workers = ws; handled = j ∷ p.handled })
  leave :
      {ws : List Worker}
      → p.stopped ≡ true
      → Moves selecting returned p.workers ws
      → Step p (record p { workers = ws })
  submit :
      (j : Job) {q : Queue}
      → enqueue p.queue j ≡ some (q, true)
      → Step p (record p { queue = q; accepted = j ∷ p.accepted })
  refuse :
      (j : Job) {q : Queue} → enqueue p.queue j ≡ some (q, false) → Step p (record p { queue = q })
  close : Step p (record p { stopped = true })

pub data Reach (p : WorkerPool) : WorkerPool → Type 0 where
  here : Reach p p
  next : {q r : WorkerPool} → Reach p q → Step q r → Reach p r
