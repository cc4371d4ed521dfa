-- ===== src/Service/Running/Downloads.antt =====
-- The copy of its session that handleDownload holds while yt-dlp runs.
use mathlib.Core.List.{Memᴰ}
use ytmpt.Common.{ℕ, ◌≡◌, ◌∙◌, refl, sym, subst, ap, Option, none, some}
use ytmpt.Common.Text.{Text, text_eq_refl}
use ytmpt.Config.{Config}
use ytmpt.Models.{ConversionSession, downloaded, downloading}
use ytmpt.Queue.{Job, Queue, takes, dequeue}
use ytmpt.Store.{allocate}
use ytmpt.Store.Views.{session_at, stamped}
use ytmpt.Handlers.{Outside}
use ytmpt.Handlers.Saved.{get_session-some, stored-id, allocate-at, allocate-IsKnown}
use ytmpt.Handlers.Workers.{begin_download, stream_path}
use ytmpt.Handlers.Workers.Download.{begun, fill-id, begin_download-at}
use ytmpt.Handlers.Running.{
  Running, on_download, ref_of, Started, runs, begin_download_job, end_job,
}
use ytmpt.Handlers.Running.Ended.{over_stored}
use ytmpt.Service.Running.{Process, settle, download}
use ytmpt.Service.Running.Sound.{store_of, IsFine, Step-IsSafe}
use ytmpt.Service.Running.Meanwhile.{Meanwhile, IsHeld, end_job-Meanwhile}

module _ (o : Outside) (cfg : Config) where
  -- The goroutine that handles the job `job` of the download queue.
  abbrev pub downloader_of : Process → Job → Running
  downloader_of p job = on_download (store_of p).next job p.service.world.now

  -- The process in which it waits for yt-dlp.
  abbrev pub downloading_from : Process → Job → Queue → Process
  downloading_from p job rest =
      settle p (begin_download_job o cfg job (record p.service.world { dl_queue = rest }))

  -- What the session is when the download ends.
  abbrev pub fetched : ℕ → ConversionSession → ConversionSession
  fetched now t =
      stamped now (record t { source_path = stream_path o cfg t.asset_hash; state = downloaded })

  pub begin_download_job-IsHeld :
      (p : Process) (job : Job) (rest : Queue) (s : ConversionSession)
      → IsFine p
      → dequeue p.service.world.dl_queue ≡ some (takes job rest)
      → session_at job.session_id (store_of p) ≡ some s
      → IsHeld o cfg
          (downloader_of p job)
          (begun o p.service.world.now s)
          (downloading_from p job rest)
  unfolding begin_download_job
  begin_download_job-IsHeld p job rest s f e stored =
      let w = record p.service.world { dl_queue = rest } in
      let m = (allocate s (store_of p)).1 in
      let v = f.sound.store in
      let r = downloader_of p job in
      let found = get_session-some job.session_id (store_of p) s v stored in
      let began : Started = runs r (record w { store = begin_download o cfg w.now (ref_of r) m }) in
      let run : begin_download_job o cfg job w ≡ began =
        rw (ap (λ x. x.0) found, begin_download_job, ap (λ x. x.1) found) refl in
      let fine = subst (λ x. IsFine (settle p x)) run (Step-IsSafe o cfg (download e) f).fine in
      subst (λ x. IsHeld o cfg r (begun o w.now s) (settle p x)) (sym run)
        (record {
          fine = fine;
          waits = Memᴰ.head refl;
          object =
              begin_download-at o cfg w.now (ref_of r) m
                (allocate-IsKnown job.session_id (store_of p) s v stored)
              ∙ ap (begun o w.now) (allocate-at job.session_id (store_of p) s v stored);
        })

  -- A worker takes a job of the download queue, and then, while yt-dlp runs, requests, other
  -- workers, timers and cleanups come in any order. When the download ends well, the session of the
  -- job is what the worker read at the beginning, with the path and the state of the download:
  -- whatever was written to it meanwhile is lost. If it was deleted, it stays so.
  pub download_overwrites :
      (files : Text → Option ℕ) (job : Job) (rest : Queue) (s : ConversionSession) {p q : Process}
      → IsFine p
      → dequeue p.service.world.dl_queue ≡ some (takes job rest)
      → session_at job.session_id (store_of p) ≡ some s
      → Meanwhile o cfg (downloader_of p job) (downloading_from p job rest) q
      → session_at job.session_id
          (end_job o cfg none files (downloader_of p job) q.service.world).store
        ≡ over_stored
            (fetched q.service.world.now (begun o p.service.world.now s))
            (session_at job.session_id (store_of q))
  download_overwrites files job rest s {p} {q} f e stored m =
      let t = begun o p.service.world.now s in
      let r = downloader_of p job in
      let id : t.id ≡ job.session_id =
        fill-id o (stamped p.service.world.now (record s { state = downloading }))
        ∙ stored-id job.session_id (store_of p) s f.sound.store stored in
      end_job-Meanwhile o cfg none files r t (begin_download_job-IsHeld p job rest s f e stored) m
        job.session_id
      ∙ rw (id, text_eq_refl job.session_id)
