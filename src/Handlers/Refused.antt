-- ===== src/Handlers/Refused.antt =====
-- What handlePrepare leaves behind when the download queue is full.
use ytmpt.Common.{
  ℕ, ◌≤◌, ◌≡◌, ◌∙◌, refl, true, false, Option, some, [], if◌then◌else◌, leb, length, arith, Returns,
  ap,
}
use ytmpt.Common.Text.{Text, lit}
use ytmpt.Config.{Config}
use ytmpt.Models.{preparing, state_eq}
use ytmpt.Store.{Ref, of_state, expired, set_asset, get_asset}
use ytmpt.Queue.{Queue, Job, enqueue}
use ytmpt.Handlers.{World, Response, Outside, write_err, download_job}
use ytmpt.Handlers.Prepare.{is_stale, needs_download, accepted, start_download, ensure_download}
use ytmpt.Handlers.Workers.Download.{get_asset-set_asset}

enqueue-full : (q : Queue) (j : Job) → q.capacity ≤ length q.pq → enqueue q j ≡ some (q, false)
unfolding enqueue
enqueue-full q j h = let full : leb q.capacity (length q.pq) ≡ true = ground arith in rw full

needs_download-preparing :
    (files : Text → Option ℕ)
    → needs_download files (some (record { source_path = []; state = of_state preparing })) ≡ false
unfolding needs_download state_eq
needs_download-preparing files = refl

-- What a refused preparation leaves: the answer 503, an unchanged queue, and an asset with which the
-- next preparation of the video only answers 202, whatever else has changed.
pub record IsStuck (o : Outside) (cfg : Config) (hash : Text) (w : World) (r : Response × World)
    : Type 0 where
  pub answer : r.0 ≡ write_err 503 (lit "queue full")
  pub queue : r.1.dl_queue ≡ w.dl_queue
  pub next :
      (p : Ref) (id : Text) (w' : World)
      → get_asset hash w'.store ≡ get_asset hash r.1.store
      → ensure_download o cfg p id hash w' ≡ some (accepted o cfg p w', w')

module _ (o : Outside) (cfg : Config) where
  ensure_download-preparing :
      (p : Ref) (id hash : Text) (w : World)
      → get_asset hash w.store ≡ some (record { source_path = []; state = of_state preparing })
      → ensure_download o cfg p id hash w ≡ some (accepted o cfg p w, w)
  unfolding ensure_download
  ensure_download-preparing p id hash w e =
      let none_needed = ap (needs_download w.files) e ∙ needs_download-preparing w.files in
      rw none_needed refl

  -- With a full download queue, the preparation of a video whose asset needs a download is refused
  -- with 503 and enqueues nothing. Yet as long as the asset reads as this preparation leaves it, a
  -- preparation of the video is accepted with 202 and starts no download either, whatever files
  -- there are and whatever room the queue has by then.
  pub ensure_download-full :
      (p : Ref) (id hash : Text) (w : World)
      → needs_download w.files (get_asset hash w.store) ≡ true
      → w.dl_queue.capacity ≤ length w.dl_queue.pq
      → Returns (IsStuck o cfg hash w) (ensure_download o cfg p id hash w)
  unfolding ensure_download start_download
  ensure_download-full p id hash w needed h =
      let stale = is_stale w.files (get_asset hash w.store) in
      let cleared = if stale then set_asset hash [] expired w.store else w.store in
      rw
        (
          needed,
          enqueue-full w.dl_queue (download_job o w.now w.drawn id) h,
          ensure_download,
          start_download,
        )
        (
          _,
          refl,
          record {
            answer = refl;
            queue = refl;
            next = λ p' id' w' same.
                ensure_download-preparing p' id' hash w'
                  (same ∙ get_asset-set_asset hash [] (of_state preparing) cleared);
          },
        )
