-- ===== src/Queue/Workers/Known.antt =====
-- What the runs of Enqueue and Dequeue in a step have left.

use mathlib.Core.Path.{subst}
use ytmpt.Common.{◌≡◌, Bool, some}
use ytmpt.Queue.{Job, Queue, takes, enqueue, dequeue}
use ytmpt.Queue.Enqueue.{IsValid, IsEnqueued, enqueue_lem}
use ytmpt.Queue.Dequeue.{IsDequeued, IsTaken, dequeue_lem}

-- A known run of Dequeue has what `dequeue_lem` promises.
pub taken :
    (q : Queue) {j : Job} {rest : Queue}
    → IsValid q
    → dequeue q ≡ some (takes j rest)
    → IsTaken q j rest
taken q {j} {rest} v run =
    let (r, run', d) = dequeue_lem q v in
    let same : r ≡ takes j rest = cc in subst (IsDequeued q) same d

pub submitted :
    (q : Queue) (j : Job) {r : Queue × Bool} → IsValid q → enqueue q j ≡ some r → IsEnqueued q j r
submitted q j {r} v run =
    let (r', run', d) = enqueue_lem q j v in let same : r' ≡ r = cc in subst (IsEnqueued q j) same d
