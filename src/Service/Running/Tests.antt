-- ===== src/Service/Running/Tests.antt =====
-- The theorems of the interleaved service at a concrete process.

use ytmpt.Common.{◌<◌, ℕ, ◌≡◌, refl, true, false, Option, none, some, [], ◌∷◌, arith, Returns}
use ytmpt.Common.Text.{Text, lit}
use ytmpt.Middleware.{Request}
use ytmpt.Queue.{Queue, new_queue, takes, dequeue}
use ytmpt.Queue.Enqueue
use ytmpt.Common.Int.{pos, pos_part}
use ytmpt.Config.{load, get_env_int}
use ytmpt.Store.{new_memory_store}
use ytmpt.Store.Views.{session_at}
use ytmpt.Handlers.{World, is_usable}
use ytmpt.Handlers.Frame.{whole, whole-Keeps}
use ytmpt.Handlers.Workers.{is_waiting, fill_asset_hash}
use ytmpt.Handlers.Workers.Download.{begun}
use ytmpt.Handlers.Workers.Encode.{encoding}
use ytmpt.Handlers.Running.{on_convert, end_job}
use ytmpt.Handlers.Running.Ended.{verdict, ruled, over_stored}
use ytmpt.Handlers.Samples.{defaults, world_outside, job, song, one, one-IsValid, world, stored}
use ytmpt.Service.{new_api, new_chain, Service, Reply, serve, post_convert, post_prepare}
use ytmpt.Service.Steps.{IsServed, serve-Returns, new_api-IsSound}
use ytmpt.Service.Running.{Process, settle, request, tick, Reach, here, next}
use ytmpt.Service.Running.Order.{no_more}
use ytmpt.Service.Running.Sound.{store_of, IsFine, Reach-new_api-IsFine}
use ytmpt.Service.Running.Meanwhile.{Meanwhile, begins, passes, IsHeld, end_job-Meanwhile}
use ytmpt.Service.Running.Apart.{Step-IsApart}
use ytmpt.Service.Running.Orderly.{IsOrderlyProcess, IsBounded, Reach-new_api-IsOrderlyProcess}
use ytmpt.Service.Running.Reported.{IsReported, Reach-new_api-IsReported}
use ytmpt.Service.Running.Rest.{Rests, Reach-new_api-Rests}
use ytmpt.Service.Running.Downloads.{
  downloader_of, downloading_from, fetched, begin_download_job-IsHeld, download_overwrites,
}
use ytmpt.Service.Running.Conversions.{
  began, begin_convert_job-ready, begin_convert_job-IsHeld, converted, convert_overwrites,
}

-- A queue that holds the job.
abbrev queued : Queue
queued = record { pq = record { job = job; index = 0 } ∷ []; capacity = 10 }

queued-IsValid : Enqueue.IsValid queued
queued-IsValid = record { heap = λ c p q. absurd (omega arith); bounded = omega arith }

queued_job : dequeue queued ≡ some (takes job (new_queue 10))
unfolding dequeue new_queue
queued_job = refl

abbrev five : Text → Option ℕ
five _ = some 5

abbrev busy : World
busy = record world { files = five; dl_queue = queued; cv_queue = queued }

abbrev waiting : Process
waiting = record { service = record { chain = new_chain defaults 0; world = busy }; running = [] }

waiting-IsFine : IsFine waiting
waiting-IsFine = record {
  sound = record {
    store = one-IsValid;
    kept = whole-Keeps one;
    dl_queue = queued-IsValid;
    cv_queue = queued-IsValid;
  };
  below = no_more;
}

abbrev fetching : Process
fetching = downloading_from world_outside defaults waiting job (new_queue 10)

fetching-IsHeld :
    IsHeld world_outside defaults
      (downloader_of world_outside defaults waiting job)
      (begun world_outside 100 song)
      fetching
fetching-IsHeld =
    begin_download_job-IsHeld world_outside defaults waiting job (new_queue 10) song waiting-IsFine
      queued_job stored

abbrev local : Request
local = record { remote_addr = lit "::1:80"; api_key = [] }

-- While the session is downloaded, a client asks for another quality of it.
abbrev ask : Service → Option (Reply × Service)
ask s =
    serve world_outside defaults
      (post_convert (
        some
          (record { conversion_id = 1 ∷ []; quality = lit "320"; start_time = []; end_time = [] })))
      local s

asked_Returns :
    Returns (IsServed (whole (store_of fetching)) local fetching.service) (ask fetching.service)
asked_Returns =
    serve-Returns world_outside defaults _ local fetching.service fetching-IsHeld.fine.sound
      (λ h. h)

abbrev asked : Process
asked = record fetching { service = asked_Returns.0.1 }

asked-Meanwhile :
    Meanwhile world_outside defaults
      (downloader_of world_outside defaults waiting job)
      fetching
      asked
asked-Meanwhile = passes begins (request _ local asked_Returns.1) fetching-IsHeld.waits

end_job-Meanwhile_example :
    session_at
      (1 ∷ [])
      (end_job world_outside defaults none five
        (downloader_of world_outside defaults waiting job)
        asked.service.world).store
    ≡ ruled world_outside defaults
        (verdict world_outside defaults none
          (downloader_of world_outside defaults waiting job)
          asked.service.world.now
          (begun world_outside 100 song))
        (begun world_outside 100 song).id
        (session_at (1 ∷ []) (store_of asked))
        (1 ∷ [])
end_job-Meanwhile_example =
    end_job-Meanwhile world_outside defaults none five
      (downloader_of world_outside defaults waiting job) (begun world_outside 100 song)
      fetching-IsHeld asked-Meanwhile (1 ∷ [])

download_overwrites_example :
    session_at
      (1 ∷ [])
      (end_job world_outside defaults none five
        (downloader_of world_outside defaults waiting job)
        asked.service.world).store
    ≡ over_stored
        (fetched world_outside defaults asked.service.world.now (begun world_outside 100 song))
        (session_at (1 ∷ []) (store_of asked))
download_overwrites_example =
    download_overwrites world_outside defaults five job (new_queue 10) song waiting-IsFine
      queued_job stored asked-Meanwhile

song_ready : is_waiting world_outside defaults song ≡ false
unfolding is_waiting ytmpt.Models.state_eq
song_ready = refl

song_there : is_usable five song.source_path ≡ true
unfolding is_usable
song_there = refl

abbrev encoding_song : Process
encoding_song = settle waiting (
    began world_outside defaults job (new_queue 10) song waiting waiting-IsFine queued_job stored
      song_ready song_there)

encoding_song-IsHeld :
    IsHeld world_outside defaults
      (on_convert 1 job 100)
      (encoding world_outside job 100 (fill_asset_hash world_outside song))
      encoding_song
encoding_song-IsHeld =
    begin_convert_job-IsHeld world_outside defaults job (new_queue 10) song waiting waiting-IsFine
      queued_job stored song_ready song_there

-- While the session is converted, an hour passes.
abbrev later : Process
later = record encoding_song {
  service = record encoding_song.service {
    world = record encoding_song.service.world { now = 3600 };
  };
}

later-Meanwhile : Meanwhile world_outside defaults (on_convert 1 job 100) encoding_song later
later-Meanwhile = passes begins (tick (omega arith)) encoding_song-IsHeld.waits

convert_overwrites_example :
    session_at
      (1 ∷ [])
      (end_job world_outside defaults none five (on_convert 1 job 100) later.service.world).store
    ≡ over_stored
        (converted defaults 3600
          (encoding world_outside job 100 (fill_asset_hash world_outside song)))
        (session_at (1 ∷ []) (store_of later))
convert_overwrites_example =
    convert_overwrites world_outside defaults five job (new_queue 10) song waiting-IsFine queued_job
      stored song_ready song_there
      (begin_convert_job-ready world_outside defaults job (new_queue 10) song waiting waiting-IsFine
        queued_job stored song_ready song_there)
      later-Meanwhile

abbrev fresh : World
fresh = new_api defaults song (λ _. none) 0

abbrev start : Process
start = record { service = record { chain = new_chain defaults 0; world = fresh }; running = [] }

-- The first request of a client.
abbrev prepare : Service → Option (Reply × Service)
prepare s =
    serve world_outside defaults
      (post_prepare (some (record { url = lit "youtube.com" }))
        (record { title = []; duration = pos 60; thumbnail = [] }))
      local s

prepared_Returns :
    Returns (IsServed (whole (new_memory_store song)) local start.service) (prepare start.service)
prepared_Returns =
    serve-Returns world_outside defaults _ local start.service
      (new_api-IsSound defaults song (λ _. none) 0) (λ h. h)

abbrev prepared : Process
prepared = record start { service = prepared_Returns.0.1 }

start-prepared : Reach world_outside defaults start prepared
start-prepared = next here (request _ local prepared_Returns.1)

Reach-new_api-IsFine_example : IsFine prepared
Reach-new_api-IsFine_example =
    Reach-new_api-IsFine world_outside defaults (new_chain defaults 0) song (λ _. none) 0
      start-prepared

Reach-new_api-IsOrderlyProcess_example :
    IsOrderlyProcess defaults prepared × IsBounded world_outside defaults prepared
Reach-new_api-IsOrderlyProcess_example =
    Reach-new_api-IsOrderlyProcess world_outside defaults (new_chain defaults 0) song (λ _. none) 0
      start-prepared

Reach-new_api-IsReported_example : IsReported defaults prepared.service.world
Reach-new_api-IsReported_example =
    Reach-new_api-IsReported world_outside defaults (new_chain defaults 0) song (λ _. none) 0
      start-prepared

some_workers : 0 < pos_part defaults.worker_pool_size
unfolding load get_env_int
some_workers = omega arith

some_downloads : 0 < pos_part defaults.max_concurrent_downloads
unfolding load get_env_int
some_downloads = omega arith

some_conversions : 0 < pos_part defaults.max_concurrent_conversions
unfolding load get_env_int
some_conversions = omega arith

Reach-new_api-Rests_example : (q : Process) × Rests world_outside defaults prepared q
Reach-new_api-Rests_example =
    Reach-new_api-Rests world_outside defaults some_workers some_downloads some_conversions
      (new_chain defaults 0) song (λ _. none) 0 start-prepared

-- The request for another quality, and another session.
Step-IsApart_example :
    session_at (9 ∷ []) (store_of asked) ≡ session_at (9 ∷ []) (store_of fetching)
Step-IsApart_example =
    Step-IsApart world_outside defaults (request _ local asked_Returns.1) fetching-IsHeld.fine
      (9 ∷ []) (λ e. ground (arith, e))
