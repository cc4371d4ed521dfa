-- ===== src/Queue.antt =====
-- internal/queue/queue.go: jobs, the priority queue over container/heap, and its operations.
-- A queue value is what the mutex protects; each method runs under the lock, so it is one step.
-- `none` is a run-time panic, or the model's fuel running out. An instant is a number of
-- nanoseconds, and a priority a natural number (the program uses 5, 10 and 50).
pub mod Order
pub mod Up
pub mod Down
pub mod Enqueue
pub mod Dequeue
pub mod Drain
pub mod Position
pub mod Workers
mod Tests
use ytmpt.Common.{
  ℕ, zero, suc, ◌+◌, ◌-◌, ◌*◌, ◌/◌, Bool, true, false, ◌&&◌, not, Option, none, some, List, [], ◌∷◌,
  ◌++◌, map, ltb, leb, ◌==◌, if◌then◌else◌, ◌>>=◌, length, get_elem?, set, take,
}
use ytmpt.Common.Text.{Text, text_eq}

pub data JobType : Type 0 where
  job_download job_convert : JobType

pub record Job : Type 0 where
  pub id : Text
  pub kind : JobType
  pub session_id : Text
  pub quality : Text
  pub start_time : Text
  pub end_time : Text
  pub enqueued_at : ℕ
  pub priority : ℕ
  pub api_key : Text
  pub attempts : ℕ

pub record PriorityJob : Type 0 where
  pub job : Job
  pub index : ℕ

abbrev pub JobPq : Type 0
JobPq = List PriorityJob

-- The comparison of Less, on two jobs: a higher priority first, then the earlier one.
unfoldable pub before : Job → Job → Bool
before x y =
    if x.priority == y.priority then ltb x.enqueued_at y.enqueued_at else ltb y.priority x.priority

pub less : JobPq → ℕ → ℕ → Option Bool
less pq i j = do x ← get_elem? pq i; y ← get_elem? pq j; some (before x.job y.job)

-- The exchange, and then the two new indices.
pub swap : JobPq → ℕ → ℕ → Option JobPq
swap pq i j = do
  x ← get_elem? pq i
  y ← get_elem? pq j
  let exchanged = set (set pq i y) j x
  x' ← get_elem? exchanged i
  let first = set exchanged i (record x' { index = i })
  y' ← get_elem? first j
  some (set first j (record y' { index = j }))

pub push : JobPq → PriorityJob → JobPq
push pq x = pq ++ x ∷ []

-- The last item, and the slice without it.
pub pop : JobPq → Option (PriorityJob × JobPq)
pop pq = do item ← get_elem? pq (length pq - 1); some (item, take (length pq - 1) pq)

-- container/heap's up. In Go (0 - 1) / 2 is 0.
pub up : ℕ → JobPq → ℕ → Option JobPq
up zero pq j = none
up (suc fuel) pq j =
    let i = (j - 1) / 2 in
    let rise = swap pq i j >>= λ moved. up fuel moved i in
    let step = less pq j i >>= λ smaller. if smaller then rise else some pq in
    if i == j then some pq else step

-- The child with which down compares: the right one, if there is one that is less.
pub child : JobPq → ℕ → ℕ → Option ℕ
child pq i n =
    let j1 = 2 * i + 1 in
    let j2 = j1 + 1 in
    let right = less pq j2 j1 >>= λ smaller. some (if smaller then j2 else j1) in
    if ltb j2 n then right else some j1

-- container/heap's down, on the first n entries.
pub down : ℕ → JobPq → ℕ → ℕ → Option JobPq
down zero pq i n = none
down (suc fuel) pq i n =
    let step : Option JobPq = do
      j ← child pq i n
      smaller ← less pq j i
      let sink = swap pq i j >>= λ moved. down fuel moved j n
      if smaller then sink else some pq
    in if leb n (2 * i + 1) then some pq else step

-- container/heap's Push and Pop.
pub heap_push : JobPq → PriorityJob → Option JobPq
unfolding push
heap_push pq x = up (length pq + 1) (push pq x) (length (push pq x) - 1)

pub heap_pop : JobPq → Option (PriorityJob × JobPq)
heap_pop pq = do
  let n = length pq - 1
  swapped ← swap pq 0 n
  sunk ← down (n + 1) swapped 0 n
  pop sunk

pub record Queue : Type 0 where
  pub pq : JobPq
  pub capacity : ℕ

unfoldable pub new_queue : ℕ → Queue
new_queue capacity = record { pq = []; capacity = capacity }

unfoldable pub len : Queue → ℕ
len q = length q.pq

-- The new queue, and whether the job was accepted.
unfoldable pub enqueue : Queue → Job → Option (Queue × Bool)
unfolding heap_push up swap less
enqueue q j =
    if leb q.capacity (length q.pq)
    then some (q, false)
    else do pq ← heap_push q.pq (record { job = j; index = 0 }); some (record q { pq = pq }, true)

-- What a call of Dequeue does when it holds the lock: it waits, or it takes a job.
pub data Dequeued : Type 0 where
  waits : Dequeued
  takes : Job → Queue → Dequeued

unfoldable pub dequeue : Queue → Option Dequeued
unfolding heap_pop down child swap less pop
dequeue q =
    let taken : Option Dequeued = do
      (item, rest) ← heap_pop q.pq
      some (takes item.job (record q { pq = rest }))
    in if length q.pq == 0 then some waits else taken

unfoldable pub kind_eq : JobType → JobType → Bool
kind_eq job_download job_download = true
kind_eq job_convert job_convert = true
kind_eq _ _ = false

-- pj.job.Type == t && pj.job.SessionID == sessionID
unfoldable pub is_match : JobType → Text → Job → Bool
is_match t session_id j = kind_eq j.kind t && text_eq j.session_id session_id

-- One round of the first loop: the first hit, or an earlier one.
refine : JobType → Text → Option Job → Job → Option Job
refine t session_id none j = if is_match t session_id j then some j else none
refine t session_id (some found) j =
    if is_match t session_id j && ltb j.enqueued_at found.enqueued_at then some j else some found

find : JobType → Text → Option Job → JobPq → Option Job
find t session_id found [] = found
find t session_id found (x ∷ pq) = find t session_id (refine t session_id found x.job) pq

-- The tests of the second loop: another job of the type stands before the one found.
stands_before : JobType → Job → Job → Bool
stands_before t found j =
    if not (kind_eq j.kind t)
    then false
    else if ltb found.priority j.priority
    then true
    else j.priority == found.priority && ltb j.enqueued_at found.enqueued_at

count_before : JobType → Job → ℕ → JobPq → ℕ
count_before t found pos [] = pos
count_before t found pos (x ∷ pq) =
    count_before t found (if stands_before t found x.job then pos + 1 else pos) pq

unfoldable pub position_for_session : Queue → JobType → Text → ℕ
unfolding find refine count_before stands_before
position_for_session q t session_id = elim (find t session_id none q.pq) [
  | none ↦ 0
  | some found ↦ count_before t found 1 q.pq
]
