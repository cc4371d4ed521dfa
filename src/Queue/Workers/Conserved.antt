-- ===== src/Queue/Workers/Conserved.antt =====
-- A worker pool loses no job and handles none twice.
use mathlib.Core.List.Perm
use mathlib.Core.List.{perm_middle}
use ytmpt.Common.{◌≡◌, refl, List, [], ◌∷◌, ◌++◌, Perm, ap}
use ytmpt.Queue.{Job}
use ytmpt.Queue.Order.{jobs}
use ytmpt.Queue.Enqueue.{IsValid}
use ytmpt.Queue.Workers.{
  Worker, selecting, entering, waiting, returned, handling, WorkerPool, Moves, this, other,
  IsDequeuing, fresh, woken, Step, pass, take, block, finish, leave, submit, refuse, close, Reach,
  here, next,
}
use ytmpt.Queue.Workers.Known.{taken, submitted}

-- The jobs that are being handled.
abbrev pub running : List Worker → List Job
running [] = []
running (handling j ∷ ws) = j ∷ running ws
running (selecting ∷ ws) = running ws
running (entering ∷ ws) = running ws
running (waiting ∷ ws) = running ws
running (returned ∷ ws) = running ws

-- Every accepted job is queued, being handled, or handled, and as often as it was accepted.
pub record IsConserved (p : WorkerPool) : Type 0 where
  pub valid : IsValid p.queue
  pub same : Perm (p.handled ++ (running p.workers ++ jobs p.queue.pq)) p.accepted

running-take :
    {w : Worker} {j : Job} {ws ws' : List Worker}
    → IsDequeuing w
    → Moves w (handling j) ws ws'
    → Perm (running ws') (j ∷ running ws)
running-take fresh this = Perm.rfl
running-take woken this = Perm.rfl
running-take d (other {v = handling k} m) =
    Perm.trans (Perm.cons k (running-take d m)) (Perm.swap _ k _)
running-take d (other {v = selecting} m) = running-take d m
running-take d (other {v = entering} m) = running-take d m
running-take d (other {v = waiting} m) = running-take d m
running-take d (other {v = returned} m) = running-take d m

running-finish :
    {j : Job} {ws ws' : List Worker}
    → Moves (handling j) selecting ws ws'
    → Perm (running ws) (j ∷ running ws')
running-finish this = Perm.rfl
running-finish (other {v = handling k} m) =
    Perm.trans (Perm.cons k (running-finish m)) (Perm.swap _ k _)
running-finish (other {v = selecting} m) = running-finish m
running-finish (other {v = entering} m) = running-finish m
running-finish (other {v = waiting} m) = running-finish m
running-finish (other {v = returned} m) = running-finish m

running-block :
    {w : Worker} {ws ws' : List Worker}
    → IsDequeuing w
    → Moves w waiting ws ws'
    → running ws' ≡ running ws
running-block fresh this = refl
running-block woken this = refl
running-block d (other {v = handling k} m) = ap (◌∷◌ k) (running-block d m)
running-block d (other {v = selecting} m) = running-block d m
running-block d (other {v = entering} m) = running-block d m
running-block d (other {v = waiting} m) = running-block d m
running-block d (other {v = returned} m) = running-block d m

running-leave : {ws ws' : List Worker} → Moves selecting returned ws ws' → running ws' ≡ running ws
running-leave this = refl
running-leave (other {v = handling k} m) = ap (◌∷◌ k) (running-leave m)
running-leave (other {v = selecting} m) = running-leave m
running-leave (other {v = entering} m) = running-leave m
running-leave (other {v = waiting} m) = running-leave m
running-leave (other {v = returned} m) = running-leave m

running-pass : {ws ws' : List Worker} → Moves selecting entering ws ws' → running ws' ≡ running ws
running-pass this = refl
running-pass (other {v = handling k} m) = ap (◌∷◌ k) (running-pass m)
running-pass (other {v = selecting} m) = running-pass m
running-pass (other {v = entering} m) = running-pass m
running-pass (other {v = waiting} m) = running-pass m
running-pass (other {v = returned} m) = running-pass m

module _ (h : List Job) {r r' a a' : List Job} {j : Job} where
  shift_taken : Perm r' (j ∷ r) → Perm (j ∷ a') a → Perm (h ++ (r' ++ a')) (h ++ (r ++ a))
  shift_taken p q = Perm.append_left h (
      Perm.trans (Perm.append_right a' p)
        (Perm.trans (Perm.symm (perm_middle r a')) (Perm.append_left r q)))

module _ (h : List Job) {r r' : List Job} (a : List Job) {j : Job} where
  shift_finished : Perm r (j ∷ r') → Perm ((j ∷ h) ++ (r' ++ a)) (h ++ (r ++ a))
  shift_finished p =
      Perm.trans (Perm.symm (perm_middle h (r' ++ a)))
        (Perm.append_left h (Perm.append_right a (Perm.symm p)))

module _ (h r : List Job) {a a' : List Job} {j : Job} where
  shift_submitted : Perm a' (j ∷ a) → Perm (h ++ (r ++ a')) (j ∷ (h ++ (r ++ a)))
  shift_submitted p =
      Perm.trans (Perm.append_left h (Perm.trans (Perm.append_left r p) (perm_middle r a)))
        (perm_middle h (r ++ a))

-- One step keeps the queue valid and loses or doubles no job.
pub Step-IsConserved : {p q : WorkerPool} → Step p q → IsConserved p → IsConserved q
Step-IsConserved {p} (pass s m) c = record { valid = c.valid; same = rw (running-pass m) c.same }
Step-IsConserved {p} (take d run m) c =
    let t = taken p.queue c.valid run in
    record {
      valid = t.valid;
      same = Perm.trans (shift_taken p.handled (running-take d m) t.same) c.same;
    }
Step-IsConserved {p} (block d run m) c = record {
  valid = c.valid;
  same = rw (running-block d m) c.same;
}
Step-IsConserved {p} (finish m) c = record {
  valid = c.valid;
  same = Perm.trans (shift_finished p.handled (jobs p.queue.pq) (running-finish m)) c.same;
}
Step-IsConserved {p} (leave s m) c = record { valid = c.valid; same = rw (running-leave m) c.same }
Step-IsConserved {p} (submit j run) c =
    let e = submitted p.queue j c.valid run in
    record {
      valid = e.valid;
      same =
          Perm.trans (shift_submitted p.handled (running p.workers) e.holds) (Perm.cons j c.same);
    }
Step-IsConserved {p} (refuse j run) c =
    let e = submitted p.queue j c.valid run in
    record {
      valid = e.valid;
      same =
          Perm.trans (Perm.append_left p.handled (Perm.append_left (running p.workers) e.holds))
            c.same;
    }
Step-IsConserved close c = record { valid = c.valid; same = c.same }

-- However the goroutines of a pool and its clients interleave, from a state in which the queue is
-- valid and the accepted jobs are, as often as they were accepted, those queued, being handled or
-- handled, every state that is reached is such a state: no job is lost and none is handled twice.
pub Reach-IsConserved : {p q : WorkerPool} → Reach p q → IsConserved p → IsConserved q
Reach-IsConserved here c = c
Reach-IsConserved (next r s) c = Step-IsConserved s (Reach-IsConserved r c)
