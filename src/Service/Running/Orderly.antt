-- ===== src/Service/Running/Orderly.antt =====
-- How often a job of the running service was tried.
use ytmpt.Common.{
  ℕ, ◌≡◌, ◌∙◌, sym, ap, refl, Bool, true, Option, some, List, [], ◌∷◌, ◌++◌, every, every-append,
  Returns, Returns-known, arith,
}
use ytmpt.Common.Text.{Text}
use ytmpt.Common.Int.{pos_part}
use ytmpt.Config.{Config}
use ytmpt.Models.{ConversionSession}
use ytmpt.Middleware.{Chain, Request, Verdict, admit, refused, admitted}
use ytmpt.Queue.{new_queue}
use ytmpt.Queue.Enqueue.{new_queue-IsValid}
use ytmpt.Handlers.{World, Outside, Response, Sleeper}
use ytmpt.Handlers.Wake.{job_of}
use ytmpt.Handlers.Running.{Running, Started, over, runs, end_job}
use ytmpt.Metrics.Counted.{new_registry-IsCounted}
use ytmpt.Handlers.Orderly.{is_within, IsCapped, IsOrderly, dequeue-IsCapped}
use ytmpt.Handlers.Orderly.Requests.{
  handle_status-IsOrderly, handle_delete-IsOrderly, handle_prepare-IsOrderly,
  handle_convert_req-IsOrderly,
}
use ytmpt.Handlers.Orderly.Workers.{
  held_job, IsRetried, IsOrderlyStart, end_job-IsRetried, wake-IsOrderly, end_job-IsOrderly,
  begin_download_job-IsOrderly, begin_convert_job-IsOrderly,
}
use ytmpt.Service.{
  new_api, Route, post_prepare, post_convert, get_status, get_download, delete_conversion,
  get_ready, get_stats, get_health, get_metrics, get_selftest, get_docs, get_admin, Reply, answered,
  Service, answer_in, dispatch, serve, clean_up,
}
use ytmpt.Service.Running.{
  Process, settle, Ends, this, other, Step, request, download, convert, finish, awake, tidy, tick,
  Reach, here, next,
}

-- Every job that waits in a queue, that a sleeping goroutine will put back, or whose tool runs, is
-- a first try or was tried fewer times than MaxJobRetries.
pub record IsOrderlyProcess (cfg : Config) (p : Process) : Type 0 where
  pub waiting : IsOrderly cfg p.service.world
  pub running : every (λ r. is_within cfg (held_job r)) p.running ≡ true

-- What the end of a tool does to the jobs that wait.
pub record IsBounded (o : Outside) (cfg : Config) (p : Process) : Type 0 where
  pub retries :
      (err : Text) (files : Text → Option ℕ) (r : Running) {rs : List Running}
      → Ends r p.running rs
      → IsRetried r p.service.world (end_job o cfg (some err) files r p.service.world)
  pub within :
      (outcome : Option Text) (files : Text → Option ℕ) (r : Running) {rs : List Running}
      → Ends r p.running rs
      → IsOrderly cfg (end_job o cfg outcome files r p.service.world)

answer_in-IsOrderly :
    (cfg : Config) (r : Option (Response × World))
    → Returns (λ x. IsOrderly cfg x.1) r
    → Returns (λ x. IsOrderly cfg x.1) (answer_in r)
answer_in-IsOrderly cfg r ((response, w), e, v) = rw e ((answered response, w), refl, v)

-- One entry of the list.
split :
    {A : Type 0} (p : A → Bool) (xs : List A) (x : A) (ys : List A)
    → every p (xs ++ x ∷ ys) ≡ true
    → (p x ≡ true) × (every p (xs ++ ys) ≡ true)
split p xs x ys h =
    let all = sym (every-append p xs (x ∷ ys)) ∙ h in
    (ground (arith, all), every-append p xs ys ∙ ground (arith, all))

Ends-every :
    (p : Running → Bool) {r : Running} {rs rs' : List Running}
    → Ends r rs rs'
    → every p rs ≡ true
    → (p r ≡ true) × (every p rs' ≡ true)
Ends-every p this h = (ground (arith, h), ground (arith, h))
Ends-every p (other e) h =
    let (it, rest) = Ends-every p e (ground (arith, h)) in (it, ground (arith, h, rest))

module _ (o : Outside) (cfg : Config) where
  dispatch-IsOrderly :
      (route : Route) (key : Text) (w : World)
      → IsOrderly cfg w
      → Returns (λ x. IsOrderly cfg x.1) (dispatch o cfg route key w)
  unfolding dispatch
  dispatch-IsOrderly (post_prepare req meta) key w v =
      answer_in-IsOrderly cfg _ (handle_prepare-IsOrderly o cfg req meta w v)
  dispatch-IsOrderly (post_convert req) key w v =
      answer_in-IsOrderly cfg _ (handle_convert_req-IsOrderly o cfg req key w v)
  dispatch-IsOrderly (get_status id) key w v = (_, refl, handle_status-IsOrderly cfg id w v)
  dispatch-IsOrderly (get_download id) key w v = (_, refl, v)
  dispatch-IsOrderly (delete_conversion id) key w v = (_, refl, handle_delete-IsOrderly cfg id w v)
  dispatch-IsOrderly get_ready key w v = (_, refl, v)
  dispatch-IsOrderly get_stats key w v = (_, refl, v)
  dispatch-IsOrderly get_health key w v = (_, refl, v)
  dispatch-IsOrderly get_metrics key w v = (_, refl, v)
  dispatch-IsOrderly (get_selftest ffmpeg yt_dlp) key w v = (_, refl, v)
  dispatch-IsOrderly get_docs key w v = (_, refl, v)
  dispatch-IsOrderly get_admin key w v = (_, refl, v)

  serve-IsOrderly :
      (route : Route) (req : Request) (s : Service)
      → IsOrderly cfg s.world
      → Returns (λ x. IsOrderly cfg x.1.world) (serve o cfg route req s)
  unfolding serve
  serve-IsOrderly route req s v =
      let ((reply, w), run, v') = dispatch-IsOrderly route req.api_key s.world v in
      decide ((admit s.world.now req s.chain).0) refl reply w run v'
    where
      decide :
          (verdict : Verdict)
          → (admit s.world.now req s.chain).0 ≡ verdict
          → (reply : Reply) (w : World) → dispatch o cfg route req.api_key s.world ≡ some (reply, w)
          → IsOrderly cfg w
          → Returns (λ x. IsOrderly cfg x.1.world) (serve o cfg route req s)
      decide (refused code text) e reply w run v' = rw (e, serve) (_, refl, v)
      decide admitted e reply w run v' = rw (e, serve, run) (_, refl, v')

  settle-IsOrderlyProcess :
      (p : Process) (started : Started)
      → IsOrderlyProcess cfg p
      → IsOrderlyStart cfg started
      → IsOrderlyProcess cfg (settle p started)
  settle-IsOrderlyProcess p (over w) v l = record { waiting = l; running = v.running }
  settle-IsOrderlyProcess p (runs r w) v l = record {
    waiting = l.1;
    running = ground (arith, l.0, v.running);
  }

  Step-IsOrderlyProcess :
      {p q : Process} → Step o cfg p q → IsOrderlyProcess cfg p → IsOrderlyProcess cfg q
  unfolding clean_up
  Step-IsOrderlyProcess {p} (request route req run) v = record {
    waiting =
        Returns-known (λ x. IsOrderly cfg x.1.world) (serve-IsOrderly route req p.service v.waiting)
          run;
    running = v.running;
  }
  Step-IsOrderlyProcess {p} (download {job} {q} e) v =
      let w = v.waiting in
      let (within, capped) = dequeue-IsCapped cfg p.service.world.dl_queue w.dl_queue e in
      settle-IsOrderlyProcess p _ v (
        begin_download_job-IsOrderly o cfg job (record p.service.world { dl_queue = q })
          (record {
            dl_queue = capped;
            cv_queue = w.cv_queue;
            sleepers = w.sleepers;
            counted = w.counted;
          })
          within)
  Step-IsOrderlyProcess {p} (convert {job} {q} {started} e run) v =
      let w = v.waiting in
      let (within, capped) = dequeue-IsCapped cfg p.service.world.cv_queue w.cv_queue e in
      settle-IsOrderlyProcess p started v (
        Returns-known (IsOrderlyStart cfg)
          (begin_convert_job-IsOrderly o cfg job (record p.service.world { cv_queue = q })
            (record {
              dl_queue = w.dl_queue;
              cv_queue = capped;
              sleepers = w.sleepers;
              counted = w.counted;
            })
            within)
          run)
  Step-IsOrderlyProcess {p} (finish outcome files {r} {rs} e) v = record {
    waiting = end_job-IsOrderly o cfg outcome files r p.service.world v.waiting;
    running = (Ends-every (λ r. is_within cfg (held_job r)) e v.running).1;
  }
  Step-IsOrderlyProcess {p} (awake earlier later sleeper e run) v =
      let w = v.waiting in
      let test : Sleeper → Bool = λ s. is_within cfg (job_of s) in
      let (within, others) =
        split test earlier sleeper later (sym (ap (every test) e) ∙ w.sleepers) in
      record {
        waiting =
            Returns-known (IsOrderly cfg)
              (wake-IsOrderly cfg sleeper (record p.service.world { sleepers = earlier ++ later })
                (record {
                  dl_queue = w.dl_queue;
                  cv_queue = w.cv_queue;
                  sleepers = others;
                  counted = w.counted;
                })
                within)
              run;
        running = v.running;
      }
  Step-IsOrderlyProcess (tidy outs streams) v = record { waiting = v.waiting; running = v.running }
  Step-IsOrderlyProcess (tick h) v = record { waiting = v.waiting; running = v.running }

  Reach-IsOrderlyProcess :
      {p q : Process} → Reach o cfg p q → IsOrderlyProcess cfg p → IsOrderlyProcess cfg q
  Reach-IsOrderlyProcess here v = v
  Reach-IsOrderlyProcess (next r step) v = Step-IsOrderlyProcess step (Reach-IsOrderlyProcess r v)

  new_api-IsOrderly :
      (zero_value : ConversionSession) (files : Text → Option ℕ) (now : ℕ)
      → IsOrderly cfg (new_api cfg zero_value files now)
  unfolding new_api new_queue
  new_api-IsOrderly zero_value files now =
      let empty : IsCapped cfg (new_queue (pos_part cfg.job_queue_capacity)) = record {
        valid = new_queue-IsValid (pos_part cfg.job_queue_capacity);
        within = refl;
      } in
      let counts = new_registry-IsCounted now in
      record {
        dl_queue = empty;
        cv_queue = empty;
        sleepers = refl;
        counted = record {
          converts = counts.converts;
          downloads = counts.downloads;
          successes = counts.successes;
          active = counts.active;
          queued = counts.queued;
          completed = counts.completed;
          failed = counts.failed;
          sessions = counts.sessions;
        };
      }

  -- In every state that the service reaches from its start, the Attempts of every job that waits in
  -- a queue, that a sleeping goroutine will put back, or whose tool runs, are zero or less than
  -- MaxJobRetries, and the successes that were counted are those of the two histograms. If a tool
  -- that runs fails, then its job sleeps once more with one added to its Attempts, and these are
  -- again less than MaxJobRetries, or no job sleeps for it; the queues stay as they are.
  pub Reach-new_api-IsOrderlyProcess :
      (chain : Chain) (zero_value : ConversionSession) (files : Text → Option ℕ) (now : ℕ)
      {p : Process}
      → Reach o cfg
          (record {
            service = record { chain = chain; world = new_api cfg zero_value files now };
            running = [];
          })
          p
      → IsOrderlyProcess cfg p × IsBounded o cfg p
  Reach-new_api-IsOrderlyProcess chain zero_value files now r =
      let v =
        Reach-IsOrderlyProcess r
          (record { waiting = new_api-IsOrderly zero_value files now; running = refl }) in
      (
        v,
        record {
          retries = λ err files r e. end_job-IsRetried o cfg err files r _;
          within = λ outcome files r e. end_job-IsOrderly o cfg outcome files r _ v.waiting;
        },
      )
