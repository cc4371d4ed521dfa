-- ===== src/Handlers/Orderly.antt =====
-- The jobs that wait in the queues or sleep, how often they were tried, and the counters of metrics.
pub mod Requests
pub mod Workers
use ytmpt.Common.{
  ◌≡◌, ◌∙◌, inl, inr, refl, sym, ap, Bool, true, ◌&&◌, ◌||◌, ◌==◌, List, [], ◌∷◌, ◌++◌, every,
  every-append, every-perm, Returns, Bool-cases, arith, some,
}
use ytmpt.Common.Int.{pos, lt_ℤ}
use ytmpt.Config.{Config}
use ytmpt.Queue.{Job, Queue, takes, enqueue, dequeue}
use ytmpt.Queue.Order.{jobs}
use ytmpt.Queue.Enqueue
use ytmpt.Queue.Enqueue.{enqueue_lem}
use ytmpt.Queue.Workers.Known.{taken}
use ytmpt.Metrics.{Registry}
use ytmpt.Metrics.Counted.{IsCounted}
use ytmpt.Handlers.{World, Sleeper}
use ytmpt.Handlers.Wake.{job_of}

-- A first try, or one that MaxJobRetries allows.
abbrev pub is_within : Config → Job → Bool
is_within cfg job = job.attempts == 0 || lt_ℤ (pos job.attempts) cfg.max_job_retries

-- A valid queue of such jobs.
pub record IsCapped (cfg : Config) (q : Queue) : Type 0 where
  pub valid : Enqueue.IsValid q
  pub within : every (is_within cfg) (jobs q.pq) ≡ true

pub record AreOrderly (cfg : Config) (dl cv : Queue) (waiting : List Sleeper) (metrics : Registry)
    : Type 0 where
  pub dl_queue : IsCapped cfg dl
  pub cv_queue : IsCapped cfg cv
  pub sleepers : every (λ s. is_within cfg (job_of s)) waiting ≡ true
  pub counted : IsCounted metrics

-- Every job that waits was tried fewer times than MaxJobRetries, or not at all, and every success
-- is counted in one bucket.
abbrev pub IsOrderly : Config → World → Type 0
IsOrderly cfg w = AreOrderly cfg w.dl_queue w.cv_queue w.sleepers w.metrics

pub enqueue-IsCapped :
    (cfg : Config) (q : Queue) (j : Job)
    → IsCapped cfg q
    → is_within cfg j ≡ true
    → Returns (λ r. IsCapped cfg r.0) (enqueue q j)
enqueue-IsCapped cfg q j v h =
    let ((q', ok), run, e) = enqueue_lem q j v.valid in
    let within : every (is_within cfg) (jobs q'.pq) ≡ true =
      every-perm (is_within cfg) e.holds ∙ elim (Bool-cases ok) [
        | inl room ↦ rw room (ground (arith, h, v.within))
        | inr full ↦ rw full v.within
      ] in
    ((q', ok), run, record { valid = e.valid; within = within })

pub dequeue-IsCapped :
    (cfg : Config) (q : Queue) {j : Job} {rest : Queue}
    → IsCapped cfg q
    → dequeue q ≡ some (takes j rest)
    → (is_within cfg j ≡ true) × IsCapped cfg rest
dequeue-IsCapped cfg q {j} {rest} v run =
    let t = taken q v.valid run in
    let all : (is_within cfg j && every (is_within cfg) (jobs rest.pq)) ≡ true =
      every-perm (is_within cfg) t.same ∙ v.within in
    (ground (arith, all), record { valid = t.valid; within = ground (arith, all) })

-- One more goroutine that sleeps.
pub asleep :
    (cfg : Config) (sleepers : List Sleeper) (s : Sleeper)
    → every (λ x. is_within cfg (job_of x)) sleepers ≡ true
    → is_within cfg (job_of s) ≡ true
    → every (λ x. is_within cfg (job_of x)) (sleepers ++ s ∷ []) ≡ true
asleep cfg sleepers s v h =
    every-append (λ x. is_within cfg (job_of x)) sleepers (s ∷ []) ∙ ground (arith, v, h)
