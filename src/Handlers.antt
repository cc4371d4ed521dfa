-- ===== src/Handlers.antt =====
-- internal/handlers/api.go. The state of the API, and what its handlers do with it. A handler is one
-- step here; Handlers/Running has the workers in two steps. `none` is a panic of a queue operation.
pub mod Format
pub mod Flow
pub mod Prepare
pub mod Convert
pub mod Status
pub mod Monitor
pub mod Workers
pub mod Running
pub mod Saved
pub mod Touched
pub mod Pipeline
pub mod Frame
pub mod Live
pub mod Sound
pub mod Answers
pub mod Refused
pub mod Wake
pub mod Orderly
pub mod Samples
mod Tests
use ytmpt.Common.{
  ℕ, suc, ◌+◌, ◌-◌, ◌/◌, Bool, true, false, ◌&&◌, Option, none, some, List, [], ◌∷◌, ◌++◌, ltb,
  if◌then◌else◌,
}
use ytmpt.Common.Text.{Text, lit}
use ytmpt.Common.Decimal.{decimal}
use ytmpt.Common.Int.{ℤ, pos, lt_ℤ}
use Format.{human_duration}
use ytmpt.Models.{ConversionSession, PrepareResponse, ConvertAcceptedResponse, StatusResponse}
use ytmpt.Queue.{Job, Queue, job_download}
use ytmpt.Util.Canonical.{Url, canonical_video_id}
use mathlib.Core.Option
use ytmpt.Config.{Config}
use ytmpt.Metrics.{Registry, observe_duration}
use ytmpt.Store.{MemoryStore, Ref, update_session, assign, set_asset, AssetState}

-- A goroutine that sleeps for some seconds and then puts its job into a queue.
pub data Sleeper : Type 0 where
  to_download : ℤ → Job → Sleeper
  to_convert : ℤ → Job → Sleeper

-- The store, the sizes of the files that os.Stat finds, the two queues, the sleeping goroutines,
-- the metrics, the clock in nanoseconds, and how many random numbers were drawn.
pub record World : Type 0 where
  pub store : MemoryStore
  pub files : Text → Option ℕ
  pub dl_queue : Queue
  pub cv_queue : Queue
  pub sleepers : List Sleeper
  pub metrics : Registry
  pub now : ℕ
  pub drawn : ℕ

pub data Body : Type 0 where
  error_body : Text → Body
  prepare_body : PrepareResponse → Body
  accepted_body : ConvertAcceptedResponse → Body
  status_body : StatusResponse → Body
  message_body : Text → Text → Body

-- The status code and the body that writeErr or writeJSON writes.
pub record Response : Type 0 where
  pub code : ℕ
  pub body : Body

-- a.metrics.SuccessCount.Add(1), and the same of ErrorCount
abbrev pub one_success : Registry → Registry
one_success r = record r { success_count = r.success_count + 1 }

abbrev pub one_error : Registry → Registry
one_error r = record r { error_count = r.error_count + 1 }

-- a.metrics.ObserveDuration(time.Since(start).Seconds(), isConvert): the clock is monotonic.
abbrev pub observed : ℕ → Bool → World → World
observed start is_convert w = record w {
  metrics = observe_duration (w.now - start) is_convert w.metrics;
}

abbrev pub write_err : ℕ → Text → Response
write_err code msg = record { code = code; body = error_body msg }

-- fi, err := os.Stat(path); err == nil && fi.Size() > 0
unfoldable pub is_usable : (Text → Option ℕ) → Text → Bool
is_usable files path = elim (files path) [ none ↦ false | some size ↦ ltb 0 size ]

-- newID: the time in seconds, and a random number.
unfoldable pub new_id : ℕ → ℕ → Text
new_id now random = lit "conv_" ++ decimal (now / 1000000000) ++ lit "_" ++ decimal random

-- What the handlers call and this repository does not implement: net/url, SHA-1 in hexadecimal, and
-- the numbers that math/rand draws.
pub record Outside : Type 0 where
  pub parse_url : Text → Option Url
  pub hash_string : Text → Text
  pub random : ℕ → ℕ

abbrev pub parse_host : Outside → Text → Option Text
parse_host o s = Option.map (λ u. u.host) (o.parse_url s)

-- util.HashString(util.CanonicalVideoID(url))
abbrev pub asset_hash_of : Outside → Text → Text
asset_hash_of o url = o.hash_string (canonical_video_id o.parse_url url)

-- A fresh job of the download queue.
abbrev pub download_job : Outside → ℕ → ℕ → Text → Job
download_job o now drawn session_id = record {
  id = new_id now (o.random drawn);
  kind = job_download;
  session_id = session_id;
  quality = [];
  start_time = [];
  end_time = [];
  enqueued_at = now;
  priority = 10;
  api_key = [];
  attempts = 0;
}

-- Writes to a session s, and then `_ = a.sessions.UpdateSession(ctx, s)`.
unfoldable pub save : ℕ → Ref → (ConversionSession → ConversionSession) → MemoryStore → MemoryStore
save now p f m = (update_session now p (assign p f m)).1

-- cfg.MaxVideoDurationSeconds > 0 && dur > cfg.MaxVideoDurationSeconds
abbrev pub is_too_long : ℤ → ℤ → Bool
is_too_long most dur = lt_ℤ (pos 0) most && lt_ℤ most dur

abbrev pub too_long : ℤ → ℤ → Response
too_long most dur = write_err 400 (
    lit "video too long: max "
    ++ (human_duration most ++ (lit " allowed, got " ++ human_duration dur)))
