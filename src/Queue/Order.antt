-- ===== src/Queue/Order.antt =====
-- The order of Less, and heaps in that order.
use ytmpt.Common.{
  ℕ, zero, suc, ◌-◌, ◌/◌, ◌<◌, ◌≡◌, sym, ap, ◌∙◌, set_self, true, false, some, List, [], map, arith,
  length, get_or, set, exchange, Returns, get_elem?-get_or, map-set, get_or-map, length-set,
}
use ytmpt.Queue.{Job, job_download, PriorityJob, JobPq, before, less, swap}

-- `x` may stand before `y`: `y` does not come first.
abbrev pub Precedes : Job → Job → Type 0
Precedes x y = before y x ≡ false

pub before_asym : (x y : Job) → before x y ≡ true → Precedes x y
unfolding before
before_asym x y h = ground arith

pub Precedes-trans : (x y z : Job) → Precedes x y → Precedes y z → Precedes x z
unfolding before
Precedes-trans x y z h k = ground arith

pub Precedes-total : (x y : Job) → before x y ≡ false → Precedes y x
Precedes-total x y h = h

pub no_job : Job
no_job = record {
  id = [];
  kind = job_download;
  session_id = [];
  quality = [];
  start_time = [];
  end_time = [];
  enqueued_at = 0;
  priority = 0;
  api_key = [];
  attempts = 0;
}

abbrev pub no_entry : PriorityJob
no_entry = record { job = no_job; index = 0 }

-- The jobs of a queue, in the order of the slice.
abbrev pub jobs : JobPq → List Job
jobs pq = map (λ x. x.job) pq

abbrev pub key : List Job → ℕ → Job
key a i = get_or a i no_job

abbrev pub parent : ℕ → ℕ
parent c = (c - 1) / 2

-- Every edge among the first `n` entries is in order.
abbrev pub IsHeap : List Job → ℕ → Type 0
IsHeap a n = (c : ℕ) → 0 < c → c < n → Precedes (key a (parent c)) (key a c)

-- Around `i`: its parent precedes its children.
abbrev pub IsBridged : List Job → ℕ → ℕ → Type 0
IsBridged a n i =
    (c : ℕ) → 0 < c → c < n → parent c ≡ i → 0 < i → Precedes (key a (parent i)) (key a c)

root-Precedes_below :
    (k : ℕ) (a : List Job) (n i : ℕ) → IsHeap a n → i < k → i < n → Precedes (key a 0) (key a i)
root-Precedes_below zero a n i h f p = absurd (omega arith)
root-Precedes_below (suc k) a n zero h f p = ground (arith, before_asym (key a 0) (key a 0))
root-Precedes_below (suc k) a n (suc i) h f p =
    Precedes-trans (key a 0) (key a (parent (suc i))) (key a (suc i))
      (root-Precedes_below k a n (parent (suc i)) h (omega arith) (omega arith))
      (h (suc i) (omega arith) p)

-- The root of a heap precedes every entry.
pub root-Precedes : (a : List Job) (n i : ℕ) → IsHeap a n → i < n → Precedes (key a 0) (key a i)
root-Precedes a n i h p = root-Precedes_below (suc i) a n i h (omega arith) p

-- A new index leaves the jobs as they are.
jobs-reindex :
    (pq : JobPq) (i k : ℕ) → jobs (set pq i (record (get_or pq i no_entry) { index = k })) ≡ jobs pq
jobs-reindex pq i k =
    map-set (λ (x : PriorityJob). x.job) pq i (record (get_or pq i no_entry) { index = k })
    ∙ ap (set (jobs pq) i) (sym (get_or-map (λ (x : PriorityJob). x.job) pq i no_entry))
    ∙ set_self (jobs pq) i no_job

jobs-exchange :
    (pq : JobPq) (i j : ℕ)
    → jobs (set (set pq i (get_or pq j no_entry)) j (get_or pq i no_entry))
      ≡ exchange (jobs pq) i j no_job
unfolding exchange
jobs-exchange pq i j = simp (
  map-set,
  get_or-map (λ (x : PriorityJob). x.job) pq i no_entry,
  get_or-map (λ (x : PriorityJob). x.job) pq j no_entry,
)

module _ (pq : JobPq) (i j : ℕ) (hi : i < length pq) (hj : j < length pq) where
  -- In range Less does not panic.
  pub less-some : less pq i j ≡ some (before (key (jobs pq) i) (key (jobs pq) j))
  unfolding less
  less-some = rw (
    get_elem?-get_or pq i no_entry hi,
    get_elem?-get_or pq j no_entry hj,
    get_or-map (λ (x : PriorityJob). x.job) pq i no_entry,
    get_or-map (λ (x : PriorityJob). x.job) pq j no_entry,
  )

  -- In range Swap exchanges the two jobs.
  pub swap-Returns : Returns (λ moved. jobs moved ≡ exchange (jobs pq) i j no_job) (swap pq i j)
  unfolding swap exchange
  swap-Returns =
      let x = get_or pq i no_entry in
      let y = get_or pq j no_entry in
      let exchanged = set (set pq i y) j x in
      let x' = get_or exchanged i no_entry in
      let first = set exchanged i (record x' { index = i }) in
      let y' = get_or first j no_entry in
      let size : length exchanged ≡ length pq = simp length-set in
      let size' : length first ≡ length pq = simp length-set in
      (
        set first j (record y' { index = j }),
        rw (
          get_elem?-get_or pq i no_entry hi,
          get_elem?-get_or pq j no_entry hj,
          get_elem?-get_or exchanged i no_entry (omega arith),
          get_elem?-get_or first j no_entry (omega arith),
        ),
        jobs-reindex first j j ∙ jobs-reindex exchanged i i ∙ jobs-exchange pq i j,
      )
