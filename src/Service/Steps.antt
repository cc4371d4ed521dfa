-- ===== src/Service/Steps.antt =====
-- The whole service as a step relation: requests, the two worker pools, the sleeping goroutines, the
-- cleanup and the clock, in any order. The outcomes of the tools and the directory listings are
-- arbitrary.
use ytmpt.Common.{
  ℕ, ◌+◌, ◌≤◌, ◌≡◌, ◌≢◌, inl, inr, refl, ap, Bool, true, false, Option, none, some, List, [], ◌∷◌,
  ◌++◌, if◌then◌else◌, arith, Returns, Returns-known,
}
use ytmpt.Common.Text.{Text}
use ytmpt.Common.Int.{pos_part}
use ytmpt.Config.{Config}
use ytmpt.Models.{ConversionSession}
use ytmpt.Store.{new_memory_store}
use ytmpt.Queue.{Job, Queue, takes, dequeue}
use ytmpt.Queue.Enqueue.{new_queue-IsValid}
use ytmpt.Queue.Workers.Known.{taken}
use ytmpt.Middleware.{Chain, Request, admit, refused, admitted, Verdict}
use ytmpt.Handlers.{World, Sleeper, Outside, Response, new_id}
use ytmpt.Handlers.Frame.{Frame, whole, whole-Keeps}
use ytmpt.Handlers.Live.{IsSound}
use ytmpt.Handlers.Sound.{handle_status-IsSound, handle_delete-IsSound, handle_prepare-Returns}
use ytmpt.Handlers.Sound.Convert.{handle_convert_req-Returns, conversion_of}
use ytmpt.Handlers.Sound.Workers.{handle_download-IsSound, handle_convert-Returns}
use ytmpt.Handlers.Wake.{wake, wake-Returns}
use ytmpt.Handlers.Workers.{handle_download, handle_convert}
use ytmpt.Service.{
  new_api, Route, post_prepare, post_convert, get_status, get_download, delete_conversion,
  get_ready, get_stats, get_health, get_metrics, get_selftest, get_docs, get_admin, Reply, answered,
  Service, answer_in, dispatch, serve, Entry, clean_up,
}

pub new_api-IsSound :
    (cfg : Config) (zero_value : ConversionSession) (files : Text → Option ℕ) (now : ℕ)
    → IsSound (whole (new_memory_store zero_value)) (new_api cfg zero_value files now)
unfolding new_api new_memory_store ytmpt.Common.Dict.lookup
new_api-IsSound cfg zero_value files now = record {
  store = record {
    allocated = λ id p e. absurd (ground arith);
    keyed = λ id p e. absurd (ground arith);
  };
  kept = whole-Keeps (new_memory_store zero_value);
  dl_queue = new_queue-IsValid (pos_part cfg.job_queue_capacity);
  cv_queue = new_queue-IsValid (pos_part cfg.job_queue_capacity);
}

answer_in-Returns :
    {F : Frame} (r : Option (Response × World))
    → Returns (λ x. IsSound F x.1) r
    → Returns (λ x. IsSound F x.1) (answer_in r)
answer_in-Returns r ((response, w), e, v) = rw e ((answered response, w), refl, v)

-- What a request leaves: a sound state, and the world as it was unless the chain admits it.
pub record IsServed (F : Frame) (req : Request) (s : Service) (r : Reply × Service) : Type 0 where
  pub sound : IsSound F r.1.world
  pub refusal : (admit s.world.now req s.chain).0 ≢ admitted → r.1.world ≡ s.world

-- The session that a request is about: the one that it names, or the one that it creates.
abbrev pub subject_of : Outside → World → Route → Text
subject_of o w (post_prepare req meta) = new_id w.now (o.random w.drawn)
subject_of o w (post_convert req) = conversion_of req
subject_of o w (get_status id) = id
subject_of o w (get_download id) = id
subject_of o w (delete_conversion id) = id
subject_of o w get_ready = []
subject_of o w get_stats = []
subject_of o w get_health = []
subject_of o w get_metrics = []
subject_of o w (get_selftest ffmpeg yt_dlp) = []
subject_of o w get_docs = []
subject_of o w get_admin = []

module _ (o : Outside) (cfg : Config) where
  dispatch-Returns :
      {F : Frame} (route : Route) (key : Text) (w : World)
      → IsSound F w
      → ¬ F.spared (subject_of o w route)
      → Returns (λ x. IsSound F x.1) (dispatch o cfg route key w)
  unfolding dispatch
  dispatch-Returns (post_prepare req meta) key w v far =
      answer_in-Returns _ (handle_prepare-Returns o cfg req meta w v far)
  dispatch-Returns (post_convert req) key w v far =
      answer_in-Returns _ (handle_convert_req-Returns o cfg req key w v far)
  dispatch-Returns (get_status id) key w v far = (_, refl, handle_status-IsSound id w v far)
  dispatch-Returns (get_download id) key w v far = (_, refl, v)
  dispatch-Returns (delete_conversion id) key w v far = (_, refl, handle_delete-IsSound id w v far)
  dispatch-Returns get_ready key w v far = (_, refl, v)
  dispatch-Returns get_stats key w v far = (_, refl, v)
  dispatch-Returns get_health key w v far = (_, refl, v)
  dispatch-Returns get_metrics key w v far = (_, refl, v)
  dispatch-Returns (get_selftest ffmpeg yt_dlp) key w v far = (_, refl, v)
  dispatch-Returns get_docs key w v far = (_, refl, v)
  dispatch-Returns get_admin key w v far = (_, refl, v)

  -- In a state whose store and queues are well formed, and in which the frame's objects are kept,
  -- every request is answered, whatever the state of the limiters; it leaves the store and the
  -- queues well formed, the objects and the sessions of a frame that does not spare the session of
  -- the request as they were, and all of the world as it was unless the chain admits the request.
  pub serve-Returns :
      {F : Frame} (route : Route) (req : Request) (s : Service)
      → IsSound F s.world
      → ¬ F.spared (subject_of o s.world route)
      → Returns (IsServed F req s) (serve o cfg route req s)
  unfolding serve
  serve-Returns {F} route req s v far =
      let ((reply, w), run, v') = dispatch-Returns route req.api_key s.world v far in
      decide ((admit s.world.now req s.chain).0) refl reply w run v'
    where
      decide :
          (verdict : Verdict)
          → (admit s.world.now req s.chain).0 ≡ verdict
          → (reply : Reply) (w : World) → dispatch o cfg route req.api_key s.world ≡ some (reply, w)
          → IsSound F w
          → Returns (IsServed F req s) (serve o cfg route req s)
      decide (refused code text) e reply w run v' =
          rw (e, serve) (_, refl, record { sound = v; refusal = λ _. refl })
      decide admitted e reply w run v' =
          rw (e, serve, run) (_, refl, record { sound = v'; refusal = λ h. absurd (h e) })

  pub data Step (s : Service) : Service → Type 0 where
    request :
        (route : Route) (req : Request) {reply : Reply} {s' : Service}
        → serve o cfg route req s ≡ some (reply, s')
        → Step s s'
    download :
        (outcome : Option Text) (files : Text → Option ℕ) {job : Job} {q : Queue}
        → dequeue s.world.dl_queue ≡ some (takes job q)
        → Step s (record s {
          world = handle_download o cfg outcome files job (record s.world { dl_queue = q });
        })
    convert :
        (outcome : Option Text) (files : Text → Option ℕ) {job : Job} {q : Queue} {w : World}
        → dequeue s.world.cv_queue ≡ some (takes job q)
        → handle_convert o cfg outcome files job (record s.world { cv_queue = q }) ≡ some w
        → Step s (record s { world = w })
    awake :
        (earlier later : List Sleeper) (sleeper : Sleeper) {w : World}
        → s.world.sleepers ≡ earlier ++ sleeper ∷ later
        → wake sleeper (record s.world { sleepers = earlier ++ later }) ≡ some w
        → Step s (record s { world = w })
    tidy :
        (outs streams : List Entry)
        → Step s (record s { world = clean_up cfg outs streams s.world })
    tick :
        {now : ℕ} → s.world.now ≤ now → Step s (record s { world = record s.world { now = now } })

  pub data Reach (s : Service) : Service → Type 0 where
    here : Reach s s
    next : {t u : Service} → Reach s t → Step t u → Reach s u

  -- The world of a worker that has taken a job.
  pub taken_download-IsSound :
      {F : Frame} (w : World) {job : Job} {q : Queue}
      → IsSound F w
      → dequeue w.dl_queue ≡ some (takes job q)
      → IsSound F (record w { dl_queue = q })
  taken_download-IsSound w v e = record {
    store = v.store;
    kept = v.kept;
    dl_queue = (taken w.dl_queue v.dl_queue e).valid;
    cv_queue = v.cv_queue;
  }

  pub taken_convert-IsSound :
      {F : Frame} (w : World) {job : Job} {q : Queue}
      → IsSound F w
      → dequeue w.cv_queue ≡ some (takes job q)
      → IsSound F (record w { cv_queue = q })
  taken_convert-IsSound w v e = record {
    store = v.store;
    kept = v.kept;
    dl_queue = v.dl_queue;
    cv_queue = (taken w.cv_queue v.cv_queue e).valid;
  }

  Step-IsSound :
      {F : Frame} {s t : Service}
      → Step s t
      → ((j : Text) → ¬ F.spared j)
      → IsSound F s.world
      → IsSound F t.world
  unfolding clean_up
  Step-IsSound {F} {s} (request route req e) far v =
      (Returns-known (IsServed F req s) (serve-Returns route req s v (far _)) e).sound
  Step-IsSound {F} {s} (download outcome files {job} e) far v =
      handle_download-IsSound o cfg outcome files job _ (taken_download-IsSound s.world v e) (far _)
  Step-IsSound {F} {s} (convert outcome files {job} e run) far v =
      Returns-known (IsSound F)
        (handle_convert-Returns o cfg outcome files job _ (taken_convert-IsSound s.world v e)
          (far _))
        run
  Step-IsSound {F} {s} (awake earlier later sleeper e run) far v =
      (Returns-known _
        (wake-Returns sleeper _
          (record { store = v.store; kept = v.kept; dl_queue = v.dl_queue; cv_queue = v.cv_queue }))
        run).sound
  Step-IsSound (tidy outs streams) far v = record {
    store = v.store;
    kept = v.kept;
    dl_queue = v.dl_queue;
    cv_queue = v.cv_queue;
  }
  Step-IsSound (tick h) far v = record {
    store = v.store;
    kept = v.kept;
    dl_queue = v.dl_queue;
    cv_queue = v.cv_queue;
  }

  Reach-IsSound :
      {F : Frame} {s t : Service}
      → Reach s t
      → ((j : Text) → ¬ F.spared j)
      → IsSound F s.world
      → IsSound F t.world
  Reach-IsSound here far v = v
  Reach-IsSound (next r step) far v = Step-IsSound step far (Reach-IsSound r far v)

  -- In every state that the service reaches from its start, whatever requests, workers, timers and
  -- cleanups come in whatever order, the store and both queues are well formed.
  pub Reach-new_api-IsSound :
      (chain : Chain) (zero_value : ConversionSession) (files : Text → Option ℕ) (now : ℕ)
      {s : Service}
      → Reach (record { chain = chain; world = new_api cfg zero_value files now }) s
      → IsSound (whole (new_memory_store zero_value)) s.world
  Reach-new_api-IsSound chain zero_value files now r =
      Reach-IsSound r (λ j h. h) (new_api-IsSound cfg zero_value files now)
