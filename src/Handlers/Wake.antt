-- ===== src/Handlers/Wake.antt =====
-- internal/handlers/api.go: the goroutines that sleep and then enqueue a job again. The result of
-- that Enqueue is ignored.
use ytmpt.Common.{
  ◌≡◌, refl, Option, none, some, ◌∷◌, if◌then◌else◌, ltb, length, Perm, Returns, subst,
}
use ytmpt.Queue.{Job, Queue, enqueue}
use ytmpt.Queue.Order.{jobs}
use ytmpt.Queue.Enqueue.{enqueue_lem}
use ytmpt.Handlers.{World, Sleeper, to_download, to_convert}
use ytmpt.Handlers.Frame.{Frame}
use ytmpt.Handlers.Live.{IsSound}

-- What the goroutine does when its time is over.
unfoldable pub wake : Sleeper → World → Option World
wake (to_download _ job) w = elim (enqueue w.dl_queue job) [
  | none ↦ none
  | some (q, _) ↦ some (record w { dl_queue = q })
]
wake (to_convert _ job) w = elim (enqueue w.cv_queue job) [
  | none ↦ none
  | some (q, _) ↦ some (record w { cv_queue = q })
]

abbrev pub job_of : Sleeper → Job
job_of (to_download _ job) = job
job_of (to_convert _ job) = job

-- The queue that the goroutine writes to.
abbrev pub target : Sleeper → World → Queue
target (to_download _ _) w = w.dl_queue
target (to_convert _ _) w = w.cv_queue

pub record IsWoken (F : Frame) (sleeper : Sleeper) (w w' : World) : Type 0 where
  pub sound : IsSound F w'
  pub store : w'.store ≡ w.store
  pub holds : Perm (jobs (target sleeper w').pq) (
      if ltb (length (jobs (target sleeper w).pq)) (target sleeper w).capacity
      then job_of sleeper ∷ jobs (target sleeper w).pq
      else jobs (target sleeper w).pq)

-- A goroutine that wakes puts its job into its queue if there is room; with a full queue it drops
-- the job: the queue holds the jobs that it held, and the store, with the session, is as before.
pub wake-Returns :
    {F : Frame} (sleeper : Sleeper) (w : World)
    → IsSound F w
    → Returns (IsWoken F sleeper w) (wake sleeper w)
unfolding wake
wake-Returns (to_download d job) w v =
    let ((q, ok), run, e) = enqueue_lem w.dl_queue job v.dl_queue in
    rw (run, wake)
      (
        _,
        refl,
        record {
          sound = record {
            store = v.store;
            kept = v.kept;
            dl_queue = e.valid;
            cv_queue = v.cv_queue;
          };
          store = refl;
          holds =
              subst
                (λ b. Perm (jobs q.pq) (if b then job ∷ jobs w.dl_queue.pq else jobs w.dl_queue.pq))
                e.accepted e.holds;
        },
      )
wake-Returns (to_convert d job) w v =
    let ((q, ok), run, e) = enqueue_lem w.cv_queue job v.cv_queue in
    rw (run, wake)
      (
        _,
        refl,
        record {
          sound = record {
            store = v.store;
            kept = v.kept;
            dl_queue = v.dl_queue;
            cv_queue = e.valid;
          };
          store = refl;
          holds =
              subst
                (λ b. Perm (jobs q.pq) (if b then job ∷ jobs w.cv_queue.pq else jobs w.cv_queue.pq))
                e.accepted e.holds;
        },
      )
