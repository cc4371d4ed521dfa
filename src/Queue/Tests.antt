-- ===== src/Queue/Tests.antt =====
-- Runs of the queue, and its theorems at concrete queues.
use mathlib.Core.List.Perm
use ytmpt.Common.{
  ℕ, ◌+◌, ◌≡◌, ◌⊎◌, refl, true, false, some, [], ◌∷◌, Perm, arith, Returns, All, count_if, ◌>>=◌,
}
use ytmpt.Common.Text.{text_eq}
use ytmpt.Queue.{
  Job, job_convert, PriorityJob, Queue, new_queue, enqueue, waits, takes, dequeue, before, is_match,
  kind_eq, position_for_session,
}
use ytmpt.Queue.Order.{jobs}
use ytmpt.Queue.Enqueue.{IsValid, IsEnqueued, enqueue_lem}
use ytmpt.Queue.Dequeue.{IsDequeued, dequeue_lem}
use ytmpt.Queue.Drain.{IsInOrder, drain, drain_lem}
use ytmpt.Queue.Position.{IsEarliest, is_ahead, position_for_session_lem}
use ytmpt.Queue.Workers.{
  WorkerPool, selecting, waiting, this, fresh, Reach, here, next, pass, block, close,
}
use ytmpt.Queue.Workers.Conserved.{IsConserved, Reach-IsConserved}
use ytmpt.Queue.Workers.Hung.{IsHung, Reach-IsHung}

abbrev job : ℕ → ℕ → Job
job priority time = record {
  id = [];
  kind = job_convert;
  session_id = time ∷ [];
  quality = [];
  start_time = [];
  end_time = [];
  enqueued_at = time;
  priority = priority;
  api_key = [];
  attempts = 0;
}

abbrev entry : ℕ → ℕ → ℕ → PriorityJob
entry priority time index = record { job = job priority time; index = index }

-- Three jobs, the premium one in front.
abbrev three : Queue
three = record { pq = entry 50 3 0 ∷ entry 5 2 0 ∷ entry 5 1 2 ∷ []; capacity = 3 }

fill :
    (enqueue (new_queue 3) (job 5 1) >>= λ (q, _).
    enqueue q (job 5 2) >>= λ (q', _). enqueue q' (job 50 3))
    ≡ some (three, true)
unfolding enqueue new_queue before
fill = refl

first_out :
    dequeue three
    ≡ some (takes (job 50 3) (record { pq = entry 5 1 0 ∷ entry 5 2 0 ∷ []; capacity = 3 }))
unfolding dequeue before
first_out = refl

three-IsValid : IsValid three
unfolding before
three-IsValid = record { heap = λ c p q. grind arith; bounded = omega arith }

enqueue_lem_example : Returns (IsEnqueued three (job 5 4)) (enqueue three (job 5 4))
enqueue_lem_example = enqueue_lem three (job 5 4) three-IsValid

dequeue_lem_example : Returns (IsDequeued three) (dequeue three)
dequeue_lem_example = dequeue_lem three three-IsValid

second_place : position_for_session three job_convert (1 ∷ []) ≡ 2
unfolding position_for_session kind_eq is_match text_eq
second_place = refl

position_for_session_lem_example :
    ((position_for_session three job_convert (1 ∷ []) ≡ 0)
      × All (λ j. is_match job_convert (1 ∷ []) j ≡ false) (jobs three.pq))
    ⊎ ((found : Job) × IsEarliest job_convert (1 ∷ []) (jobs three.pq) found
        × (position_for_session three job_convert (1 ∷ [])
            ≡ 1 + count_if (is_ahead job_convert found) (jobs three.pq)))
position_for_session_lem_example = position_for_session_lem three job_convert (1 ∷ [])

abbrev started : WorkerPool
started = record {
  workers = selecting ∷ [];
  queue = new_queue 3;
  stopped = false;
  accepted = [];
  handled = [];
}

started-IsConserved : IsConserved started
unfolding new_queue
started-IsConserved = record {
  valid = record { heap = λ c p q. absurd (omega arith); bounded = omega arith };
  same = Perm.rfl;
}

-- The worker finds the queue empty and waits.
abbrev blocked : WorkerPool
blocked = record started { workers = waiting ∷ [] }

empty_waits : dequeue (new_queue 3) ≡ some waits
unfolding dequeue new_queue
empty_waits = refl

started-blocked : Reach started blocked
started-blocked = next (next here (pass refl this)) (block fresh empty_waits this)

Reach-IsConserved_example : IsConserved blocked
Reach-IsConserved_example = Reach-IsConserved started-blocked started-IsConserved

abbrev closed : WorkerPool
closed = record blocked { stopped = true }

closed-IsHung : IsHung closed
unfolding new_queue
closed-IsHung = record {
  valid = record { heap = λ c p q. absurd (omega arith); bounded = omega arith };
  closed = refl;
  empty = refl;
  some_worker = omega arith;
  all_wait = (refl, tt);
}

Reach-IsHung_example : IsHung closed
Reach-IsHung_example = Reach-IsHung (next here close) closed-IsHung refl

drain_lem_example : Returns (λ js. IsInOrder js × Perm js (jobs three.pq)) (drain 4 three)
drain_lem_example = drain_lem 4 three three-IsValid (omega arith)

drained : drain 4 three ≡ some (job 50 3 ∷ job 5 1 ∷ job 5 2 ∷ [])
unfolding drain dequeue before
drained = refl
