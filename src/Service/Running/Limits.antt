-- ===== src/Service/Running/Limits.antt =====
-- The running service within its limits: each pool of startWorkers in internal/handlers/api.go has
-- WorkerPoolSize workers, and the permits of internal/downloader/downloader.go and
-- internal/converter/converter.go go to the calls in the order in which they ask.
use ytmpt.Common.{ℕ, suc, ◌+◌, ◌<◌, ◌≡◌, refl, ap, List, [], ◌∷◌, length}
use ytmpt.Common.Int.{pos_part}
use ytmpt.Config.{Config}
use ytmpt.Handlers.{Outside}
use ytmpt.Handlers.Running.{Running, on_download, on_convert}
use ytmpt.Service.Running.{
  Process, Ends, this, other, Step, request, download, convert, finish, awake, tidy, tick,
}

-- The calls of yt-dlp, and of ffmpeg, among those that have not ended.
abbrev pub downloads_in : List Running → ℕ
downloads_in [] = 0
downloads_in (on_download p job start ∷ rs) = downloads_in rs + 1
downloads_in (on_convert p job start ∷ rs) = downloads_in rs

abbrev pub converts_in : List Running → ℕ
converts_in [] = 0
converts_in (on_download p job start ∷ rs) = converts_in rs
converts_in (on_convert p job start ∷ rs) = converts_in rs + 1

abbrev pub like_in : Running → List Running → ℕ
like_in (on_download p job start) rs = downloads_in rs
like_in (on_convert p job start) rs = converts_in rs

-- The calls of the same kind that asked for a permit before and have not ended.
pub ahead : {r : Running} {rs rs' : List Running} → Ends r rs rs' → ℕ
ahead {r} (this {rs}) = like_in r rs
ahead (other e) = ahead e

abbrev pub permits_of : Config → Running → ℕ
permits_of cfg (on_download p job start) = pos_part cfg.max_concurrent_downloads
permits_of cfg (on_convert p job start) = pos_part cfg.max_concurrent_conversions

module _ (o : Outside) (cfg : Config) where
  -- A worker of the pool is free to take the job; a call that ends has had its permit.
  abbrev pub IsAllowed : {p q : Process} → Step o cfg p q → Type 0
  IsAllowed (request route req run) = Unit
  IsAllowed {p} (download e) = downloads_in p.running < pos_part cfg.worker_pool_size
  IsAllowed {p} (convert e run) = converts_in p.running < pos_part cfg.worker_pool_size
  IsAllowed (finish outcome files {r} e) = ahead e < permits_of cfg r
  IsAllowed (awake earlier later sleeper e run) = Unit
  IsAllowed (tidy outs streams) = Unit
  IsAllowed (tick h) = Unit

  -- A run that keeps the limits at each of its steps.
  pub data Course (p : Process) : Process → Type 0 where
    stays : Course p p
    goes : {q r : Process} → Course p q → (step : Step o cfg q r) → IsAllowed step → Course p r

  pub Course-trans : {p q r : Process} → Course p q → Course q r → Course p r
  Course-trans a stays = a
  Course-trans a (goes b step allowed) = goes (Course-trans a b) step allowed

-- The call that asked first.
pub record Oldest (rs : List Running) : Type 0 where
  pub call : Running
  pub left : List Running
  pub ends : Ends call rs left
  pub first : ahead ends ≡ 0
  pub fewer : length rs ≡ suc (length left)

pub oldest : (r : Running) (rs : List Running) → Oldest (r ∷ rs)
unfolding ahead
oldest (on_download p job start) [] = record {
  call = on_download p job start;
  left = [];
  ends = this;
  first = refl;
  fewer = refl;
}
oldest (on_convert p job start) [] = record {
  call = on_convert p job start;
  left = [];
  ends = this;
  first = refl;
  fewer = refl;
}
oldest r (v ∷ rs) =
    let it = oldest v rs in
    record {
      call = it.call;
      left = r ∷ it.left;
      ends = other it.ends;
      first = it.first;
      fewer = ap suc it.fewer;
    }
