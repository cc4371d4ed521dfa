-- ===== src/Service/Running.antt =====
-- The service with its workers cut where they wait for yt-dlp or ffmpeg: while some tools run,
-- requests, other workers, timers and the cleanup go on.
pub mod Order
pub mod Sound
pub mod Simulation
pub mod Meanwhile
pub mod Orderly
pub mod Apart
pub mod Limits
pub mod Rest
pub mod Reported
mod Tests
pub mod Downloads
pub mod Conversions
use ytmpt.Common.{ℕ, ◌≤◌, ◌≡◌, Option, some, List, ◌∷◌, ◌++◌}
use ytmpt.Common.Text.{Text}
use ytmpt.Config.{Config}
use ytmpt.Queue.{Job, Queue, takes, dequeue}
use ytmpt.Middleware.{Request}
use ytmpt.Handlers.{World, Sleeper, Outside}
use ytmpt.Handlers.Wake.{wake}
use ytmpt.Handlers.Running.{
  Running, Started, over, runs, begin_download_job, begin_convert_job, end_job,
}
use ytmpt.Service.{Route, Reply, Service, serve, Entry, clean_up}

-- The state of the process, and the goroutines that wait for their tool, the latest first.
pub record Process : Type 0 where
  pub service : Service
  pub running : List Running

-- What the first part of a worker leaves.
abbrev pub settle : Process → Started → Process
settle p (over w) = record p { service = record p.service { world = w } }
settle p (runs r w) = record { service = record p.service { world = w }; running = r ∷ p.running }

-- One goroutine of the list is no longer there.
pub data Ends (r : Running) : List Running → List Running → Type 0 where
  this : {rs : List Running} → Ends r (r ∷ rs) rs
  other : {v : Running} {rs rs' : List Running} → Ends r rs rs' → Ends r (v ∷ rs) (v ∷ rs')

module _ (o : Outside) (cfg : Config) where
  pub data Step (p : Process) : Process → Type 0 where
    request :
        (route : Route) (req : Request) {reply : Reply} {s : Service}
        → serve o cfg route req p.service ≡ some (reply, s)
        → Step p (record p { service = s })
    download :
        {job : Job} {q : Queue}
        → dequeue p.service.world.dl_queue ≡ some (takes job q)
        → Step p (settle p (begin_download_job o cfg job (record p.service.world { dl_queue = q })))
    convert :
        {job : Job} {q : Queue} {started : Started}
        → dequeue p.service.world.cv_queue ≡ some (takes job q)
        → begin_convert_job o cfg job (record p.service.world { cv_queue = q }) ≡ some started
        → Step p (settle p started)
    finish :
        (outcome : Option Text) (files : Text → Option ℕ) {r : Running} {rs : List Running}
        → Ends r p.running rs
        → Step p (record {
          service = record p.service { world = end_job o cfg outcome files r p.service.world };
          running = rs;
        })
    awake :
        (earlier later : List Sleeper) (sleeper : Sleeper) {w : World}
        → p.service.world.sleepers ≡ earlier ++ sleeper ∷ later
        → wake sleeper (record p.service.world { sleepers = earlier ++ later }) ≡ some w
        → Step p (record p { service = record p.service { world = w } })
    tidy :
        (outs streams : List Entry)
        → Step p (record p {
          service = record p.service { world = clean_up cfg outs streams p.service.world };
        })
    tick :
        {now : ℕ}
        → p.service.world.now ≤ now
        → Step p (record p {
          service = record p.service { world = record p.service.world { now = now } };
        })

  pub data Reach (p : Process) : Process → Type 0 where
    here : Reach p p
    next : {q r : Process} → Reach p q → Step q r → Reach p r
