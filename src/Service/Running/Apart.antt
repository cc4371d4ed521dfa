-- ===== src/Service/Running/Apart.antt =====
-- Which session a step of the service is about.
use ytmpt.Common.{◌≡◌, ◌≢◌, refl, [], Returns-known}
use ytmpt.Common.Text.{Text}
use ytmpt.Config.{Config}
use ytmpt.Store.Views.{session_at}
use ytmpt.Handlers.{World, Outside}
use ytmpt.Handlers.Frame.{Frame, apart, apart-Keeps, Keeps}
use ytmpt.Handlers.Live.{IsLive, IsSound}
use ytmpt.Handlers.Running.{ref_of, Started, over, runs}
use ytmpt.Handlers.Sound.Running.{
  IsStarted, begin_download_job-IsStarted, begin_convert_job-Returns, end_job-IsSound,
}
use ytmpt.Handlers.Wake.{wake-Returns}
use ytmpt.Service.{clean_up}
use ytmpt.Service.Steps.{
  IsServed, serve-Returns, taken_download-IsSound, taken_convert-IsSound, subject_of,
}
use ytmpt.Service.Running.{
  Process, settle, Step, request, download, convert, finish, awake, tidy, tick,
}
use ytmpt.Service.Running.Order.{IsBelow-Mem, Ends-Mem}
use ytmpt.Service.Running.Sound.{store_of, IsFine}

-- A sound world keeps its sessions apart from one.
spare : {F : Frame} (id : Text) (w : World) → IsSound F w → IsSound (apart id w.store) w
spare id w v = record {
  store = v.store;
  kept = apart-Keeps id w.store;
  dl_queue = v.dl_queue;
  cv_queue = v.cv_queue;
}

settled-Keeps :
    {F : Frame} (p : Process) (started : Started)
    → IsStarted F started
    → Keeps F (store_of (settle p started))
settled-Keeps p (over w) v = v.kept
settled-Keeps p (runs r w) v = v.1.kept

module _ (o : Outside) (cfg : Config) where
  -- The session of a request, of the job that a worker takes, or of the copy that it holds.
  abbrev pub concern : {p q : Process} → Step o cfg p q → Text
  concern {p} (request route req run) = subject_of o p.service.world route
  concern (download {job} e) = job.session_id
  concern (convert {job} e run) = job.session_id
  concern {p} (finish outcome files {r} e) = ((store_of p).at (ref_of r)).id
  concern (awake earlier later sleeper e run) = []
  concern (tidy outs streams) = []
  concern (tick h) = []

  -- A step of the running service changes at most the session that it is about: the one that the
  -- request names or creates, that of the job that a worker takes, or that of the copy that a worker
  -- holds. Every other identifier reads as before.
  pub Step-IsApart :
      {p q : Process} (step : Step o cfg p q)
      → IsFine p
      → (j : Text) → concern step ≢ j
      → session_at j (store_of q) ≡ session_at j (store_of p)
  unfolding clean_up
  Step-IsApart {p} (request route req {reply} {s} run) f j other =
      let id = subject_of o p.service.world route in
      let v = spare id p.service.world f.sound in
      (Returns-known (IsServed (apart id (store_of p)) req p.service)
          (serve-Returns o cfg route req p.service v (λ h. h refl)) run).sound.kept.sessions
        j other
  Step-IsApart {p} (download {job} {q} e) f j other =
      let v = spare job.session_id p.service.world f.sound in
      (settled-Keeps p _ (
          begin_download_job-IsStarted o cfg job _
            (taken_download-IsSound o cfg p.service.world v e) (λ h. h refl))).sessions
        j other
  Step-IsApart {p} (convert {job} {q} {started} e run) f j other =
      let v = spare job.session_id p.service.world f.sound in
      (settled-Keeps p started (
          Returns-known (IsStarted (apart job.session_id (store_of p)))
            (begin_convert_job-Returns o cfg job _ (taken_convert-IsSound o cfg p.service.world v e)
              (λ h. h refl))
            run)).sessions
        j other
  Step-IsApart {p} (finish outcome files {r} {rs} e) f j other =
      let w = p.service.world in
      let id = (w.store.at (ref_of r)).id in
      let live : IsLive (apart id w.store) (ref_of r) w.store = record {
        valid = f.sound.store;
        kept = apart-Keeps id w.store;
        allocated = IsBelow-Mem f.below (Ends-Mem e);
        free = λ h. h;
        far = λ h. h refl;
      } in
      (end_job-IsSound o cfg outcome files r w live (spare id w f.sound)).kept.sessions j other
  Step-IsApart {p} (awake earlier later sleeper e run) f j other =
      let v = spare [] p.service.world f.sound in
      (Returns-known _
          (wake-Returns sleeper _ (record {
            store = v.store;
            kept = v.kept;
            dl_queue = v.dl_queue;
            cv_queue = v.cv_queue;
          }))
          run).sound.kept.sessions
        j other
  Step-IsApart (tidy outs streams) f j other = refl
  Step-IsApart (tick h) f j other = refl
