-- ===== src/Service/Running/Rest.antt =====
-- The running service (begin_download_job, begin_convert_job and end_job of the workers in
-- internal/handlers/api.go): how it comes to rest.

use ytmpt.Common.{
  ◌<◌, ◌≢◌, length, ℕ, zero, suc, ◌≡◌, ◌∙◌, inl, inr, sym, ap, subst, refl, Option, none, some,
  List, [], ◌∷◌, length-map, length-perm, Bool-cases, Option-cases, Returns, arith,
}
use ytmpt.Common.Text.{Text, is_empty}
use ytmpt.Common.Int.{pos_part}
use ytmpt.Config.{Config}
use ytmpt.Models.{ConversionSession}
use ytmpt.Middleware.{Chain}
use ytmpt.Queue.{Job, Queue, PriorityJob, Dequeued, waits, takes, len, dequeue}
use ytmpt.Queue.Dequeue.{IsDequeued, dequeue_lem}
use ytmpt.Queue.Enqueue
use ytmpt.Queue.Enqueue.{enqueue_lem}
use ytmpt.Queue.Workers.Known.{taken}
use ytmpt.Store.{Ref, assign, get_session}
use ytmpt.Handlers.{World, Outside, is_usable, download_job}
use ytmpt.Handlers.Workers.{
  fill_asset_hash, hydrate, is_waiting, postpone, lose_source, finish_download, finish_convert,
}
use ytmpt.Handlers.Running.{
  Running, on_download, on_convert, Started, over, runs, begin_download_job, begin_conversion,
  begin_convert_job, end_job,
}
use ytmpt.Service.{new_api}
use ytmpt.Service.Running.{Process, settle, Step, download, convert, finish, Reach}
use ytmpt.Service.Running.Sound.{IsFine, Step-IsSafe, Reach-new_api-IsFine}
use ytmpt.Service.Running.Limits.{
  downloads_in, converts_in, ahead, permits_of, Course, stays, goes, Course-trans, Oldest, oldest,
}

abbrev world_of : Started → World
world_of (over w) = w
world_of (runs r w) = w

-- The queues of two worlds hold as much.
record SameQueues (w w' : World) : Type 0 where
  dl_queue : w'.dl_queue ≡ w.dl_queue
  cv_queue : w'.cv_queue ≡ w.cv_queue

dequeue-takes :
    (q : Queue)
    → Enqueue.IsValid q
    → len q ≢ 0
    → (job : Job) × (rest : Queue) × (dequeue q ≡ some (takes job rest))
unfolding len
dequeue-takes q v h = let (d, run, is) = dequeue_lem q v in from d run is
  where
    from :
        (d : Dequeued)
        → dequeue q ≡ some d
        → IsDequeued q d
        → (job : Job) × (rest : Queue) × (dequeue q ≡ some (takes job rest))
    from waits run is =
        absurd (h (sym (length-map (λ (x : PriorityJob). x.job) q.pq) ∙ ap length is))
    from (takes job rest) run is = (job, rest, run)

-- One job fewer.
dequeue-len :
    (q : Queue) {job : Job} {rest : Queue}
    → Enqueue.IsValid q
    → dequeue q ≡ some (takes job rest)
    → len q ≡ suc (len rest)
unfolding len
dequeue-len q {job} {rest} v run =
    let t = taken q v run in
    let a = length-map (λ (x : PriorityJob). x.job) q.pq in
    let b = length-map (λ (x : PriorityJob). x.job) rest.pq in
    omega (arith, a, b, length-perm t.same)

module _ (o : Outside) (cfg : Config) where
  end_job-SameQueues :
      (files : Text → Option ℕ) (r : Running) (w : World)
      → SameQueues w (end_job o cfg none files r w)
  unfolding end_job finish_download finish_convert
  end_job-SameQueues files (on_download p job start) w = record { dl_queue = refl; cv_queue = refl }
  end_job-SameQueues files (on_convert p job start) w = record { dl_queue = refl; cv_queue = refl }

  begin_download_job-SameQueues :
      (job : Job) (w : World) → SameQueues w (world_of (begin_download_job o cfg job w))
  unfolding begin_download_job
  begin_download_job-SameQueues job w = elim (Option-cases (get_session job.session_id w.store).0) [
    | inl missing ↦ rw (missing, begin_download_job) (record { dl_queue = refl; cv_queue = refl })
    | inr (p, found) ↦ rw (found, begin_download_job) (record { dl_queue = refl; cv_queue = refl })
  ]

  postpone-cv_queue :
      (p : Ref) (job : Job) (w : World)
      → Enqueue.IsValid w.dl_queue
      → Returns (λ w'. w'.cv_queue ≡ w.cv_queue) (postpone o cfg p job w)
  unfolding postpone
  postpone-cv_queue p job w v =
      let (r, run, e) = enqueue_lem w.dl_queue (download_job o w.now w.drawn (w.store.at p).id) v in
      elim (Bool-cases (is_empty (w.store.at p).source_path)) [
        | inr there ↦ rw there (_, refl, refl)
        | inl blank ↦ rw (blank, run, postpone) (_, refl, refl)
      ]

  begin_conversion-cv_queue :
      (p : Ref) (job : Job) (w : World)
      → Enqueue.IsValid w.dl_queue
      → Returns (λ s. (world_of s).cv_queue ≡ w.cv_queue) (begin_conversion o cfg p job w)
  unfolding begin_conversion lose_source
  begin_conversion-cv_queue p job w v = elim (Bool-cases (is_waiting o cfg (w.store.at p))) [
    | inl early ↦
        let (w', run, same) = postpone-cv_queue p job w v in
        rw (early, run, begin_conversion) (_, refl, same)
    | inr late ↦ elim (Bool-cases (is_usable w.files (w.store.at p).source_path)) [
      | inr gone ↦ rw (late, gone) (_, refl, refl)
      | inl there ↦ rw (late, there) (_, refl, refl)
    ]
  ]

  begin_convert_job-cv_queue :
      (job : Job) (w : World)
      → Enqueue.IsValid w.dl_queue
      → Returns (λ s. (world_of s).cv_queue ≡ w.cv_queue) (begin_convert_job o cfg job w)
  unfolding begin_convert_job
  begin_convert_job-cv_queue job w v = elim (Option-cases (get_session job.session_id w.store).0) [
    | inl missing ↦ rw (missing, begin_convert_job) (_, refl, refl)
    | inr (p, found) ↦
        let m = (get_session job.session_id w.store).1 in
        rw (found, begin_convert_job)
          (begin_conversion-cv_queue p job
            (record w { store = hydrate o cfg w.files w.now p (assign p (fill_asset_hash o) m) }) v)
  ]

  settle-world : (p : Process) (s : Started) → (settle p s).service.world ≡ world_of s
  settle-world p (over w) = refl
  settle-world p (runs r w) = refl

module _ (o : Outside) (cfg : Config) where
  -- Both queues are empty, and no tool runs.
  pub record Rests (p q : Process) : Type 0 where
    pub reach : Course o cfg p q
    pub idle : q.running ≡ []
    pub fetched : len q.service.world.dl_queue ≡ 0
    pub converted : len q.service.world.cv_queue ≡ 0

length-none : (rs : List Running) → length rs ≡ 0 → rs ≡ []
length-none [] h = refl
length-none (r ∷ rs) h = absurd (omega (arith, h))

length-Oldest : {n : ℕ} (rs : List Running) → length rs ≡ suc n → Oldest rs
length-Oldest [] h = absurd (omega (arith, h))
length-Oldest (r ∷ rs) h = oldest r rs

module _ (o : Outside) (cfg : Config) (workers : 0 < pos_part cfg.worker_pool_size)
    (downloads : 0 < pos_part cfg.max_concurrent_downloads)
    (conversions : 0 < pos_part cfg.max_concurrent_conversions) where
  -- The process that a run leads to: no tool runs, and the queues hold what they held.
  record Idles (p q : Process) : Type 0 where
    reach : Course o cfg p q
    fine : IsFine q
    idle : q.running ≡ []
    queues : SameQueues p.service.world q.service.world

  has_permit : (r : Running) → 0 < permits_of cfg r
  has_permit (on_download p job start) = downloads
  has_permit (on_convert p job start) = conversions

  -- The tools end one after another, the one that asked first for its permit first.
  finish_all : (n : ℕ) (p : Process) → length p.running ≡ n → IsFine p → (q : Process) × Idles p q
  finish_all zero p l f = (
    p,
    record {
      reach = stays;
      fine = f;
      idle = length-none p.running l;
      queues = record { dl_queue = refl; cv_queue = refl };
    },
  )
  finish_all (suc n) p l f =
      let it = length-Oldest p.running l in
      let step : Step o cfg p _ = finish none (λ path. none) it.ends in
      let allowed : ahead it.ends < permits_of cfg it.call =
        subst (λ k. k < permits_of cfg it.call) (sym it.first) (has_permit it.call) in
      let same = end_job-SameQueues o cfg (λ path. none) it.call p.service.world in
      let (q, i) = finish_all n _ (omega (arith, it.fewer, l)) (Step-IsSafe o cfg step f).fine in
      (
        q,
        record {
          reach = Course-trans o cfg (goes stays step allowed) i.reach;
          fine = i.fine;
          idle = i.idle;
          queues = record {
            dl_queue = i.queues.dl_queue ∙ same.dl_queue;
            cv_queue = i.queues.cv_queue ∙ same.cv_queue;
          };
        },
      )

  -- No tool runs, the download queue is empty, and the convert queue holds as much as before.
  record Fetches (p q : Process) : Type 0 where
    reach : Course o cfg p q
    fine : IsFine q
    idle : q.running ≡ []
    fetched : len q.service.world.dl_queue ≡ 0
    cv_queue : q.service.world.cv_queue ≡ p.service.world.cv_queue

  fetch_all :
      (n : ℕ) (p : Process)
      → p.running ≡ []
      → len p.service.world.dl_queue ≡ n
      → IsFine p
      → (q : Process) × Fetches p q
  fetch_all zero p idle size f =
      (p, record { reach = stays; fine = f; idle = idle; fetched = size; cv_queue = refl })
  fetch_all (suc n) p idle size f =
      let w = p.service.world in
      let (job, rest, e) =
        dequeue-takes w.dl_queue f.sound.dl_queue (λ h. omega (arith, size, h)) in
      let started = begin_download_job o cfg job (record w { dl_queue = rest }) in
      let step : Step o cfg p _ = download e in
      let room : downloads_in p.running < pos_part cfg.worker_pool_size =
        subst (λ rs. downloads_in rs < pos_part cfg.worker_pool_size) (sym idle) workers in
      let same = begin_download_job-SameQueues o cfg job (record w { dl_queue = rest }) in
      let (q, i) = finish_all _ (settle p started) refl (Step-IsSafe o cfg step f).fine in
      let dl : q.service.world.dl_queue ≡ rest =
        i.queues.dl_queue
        ∙ ap (λ (x : World). x.dl_queue) (settle-world o cfg p started)
        ∙ same.dl_queue in
      let cv : q.service.world.cv_queue ≡ w.cv_queue =
        i.queues.cv_queue
        ∙ ap (λ (x : World). x.cv_queue) (settle-world o cfg p started)
        ∙ same.cv_queue in
      let left : len q.service.world.dl_queue ≡ n =
        omega (arith, ap len dl, size, dequeue-len w.dl_queue f.sound.dl_queue e) in
      let (q', j) = fetch_all n q i.idle left i.fine in
      (
        q',
        record {
          reach = Course-trans o cfg (Course-trans o cfg (goes stays step room) i.reach) j.reach;
          fine = j.fine;
          idle = j.idle;
          fetched = j.fetched;
          cv_queue = j.cv_queue ∙ cv;
        },
      )

  convert_all :
      (n : ℕ) (p : Process)
      → p.running ≡ []
      → len p.service.world.cv_queue ≡ n
      → IsFine p
      → (q : Process) × Rests o cfg p q
  convert_all zero p idle size f =
      let (q, j) = fetch_all _ p idle refl f in
      (
        q,
        record {
          reach = j.reach;
          idle = j.idle;
          fetched = j.fetched;
          converted = ap len j.cv_queue ∙ size;
        },
      )
  convert_all (suc n) p idle size f =
      let w = p.service.world in
      let (job, rest, e) =
        dequeue-takes w.cv_queue f.sound.cv_queue (λ h. omega (arith, size, h)) in
      let (started, run, same) =
        begin_convert_job-cv_queue o cfg job (record w { cv_queue = rest }) f.sound.dl_queue in
      let step : Step o cfg p _ = convert e run in
      let room : converts_in p.running < pos_part cfg.worker_pool_size =
        subst (λ rs. converts_in rs < pos_part cfg.worker_pool_size) (sym idle) workers in
      let (q, i) = finish_all _ (settle p started) refl (Step-IsSafe o cfg step f).fine in
      let cv : q.service.world.cv_queue ≡ rest =
        i.queues.cv_queue ∙ ap (λ (x : World). x.cv_queue) (settle-world o cfg p started) ∙ same in
      let left : len q.service.world.cv_queue ≡ n =
        omega (arith, ap len cv, size, dequeue-len w.cv_queue f.sound.cv_queue e) in
      let (q', j) = convert_all n q i.idle left i.fine in
      (
        q',
        record {
          reach = Course-trans o cfg (Course-trans o cfg (goes stays step room) i.reach) j.reach;
          idle = j.idle;
          fetched = j.fetched;
          converted = j.converted;
        },
      )

  -- With at least one worker in each pool and at least one permit of each kind, the service can go
  -- on from every state that it reaches from its start to a state in which both queues are empty and
  -- no tool runs: by a run in which each job that is taken finds a free worker in its pool, and each
  -- call that ends is one of the oldest of its kind, of which there are as many as permits.
  pub Reach-new_api-Rests :
      (chain : Chain) (zero_value : ConversionSession) (files : Text → Option ℕ) (now : ℕ)
      {p : Process}
      → Reach o cfg
          (record {
            service = record { chain = chain; world = new_api cfg zero_value files now };
            running = [];
          })
          p
      → (q : Process) × Rests o cfg p q
  Reach-new_api-Rests chain zero_value files now {p} r =
      let f = Reach-new_api-IsFine o cfg chain zero_value files now r in
      let (q, i) = finish_all _ p refl f in
      let (q', j) = convert_all _ q i.idle refl i.fine in
      (
        q',
        record {
          reach = Course-trans o cfg i.reach j.reach;
          idle = j.idle;
          fetched = j.fetched;
          converted = j.converted;
        },
      )
