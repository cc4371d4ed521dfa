-- ===== src/Handlers/Monitor.antt =====
-- internal/handlers/api.go: handleHealth, handleMetricsJSON, snapshotBuckets and handleSelfTest. What
-- the two commands of handleSelfTest return is an argument: their output, or the text of the error.
use ytmpt.Common.{ℕ, ◌-◌, ◌==◌, List, [], ◌∷◌, if◌then◌else◌}
use ytmpt.Common.Text.{Text, lit, trim_space}
use ytmpt.Common.Int.{ℤ}
use ytmpt.Config.{Config}
use ytmpt.Metrics.{success_rate, uptime_seconds}
use ytmpt.Handlers.{World}

-- The uptime is a number of nanoseconds, whose text time.Duration writes.
pub record Health : Type 0 where
  pub status : Text
  pub active_jobs : ℤ
  pub queued_jobs : ℤ
  pub completed_jobs : ℤ
  pub failed_jobs : ℤ
  pub workers : ℤ
  pub uptime : ℕ
  pub memory_usage : Text

unfoldable pub handle_health : World → Health
handle_health w = record {
  status = lit "healthy";
  active_jobs = w.metrics.active_jobs;
  queued_jobs = w.metrics.queued_jobs;
  completed_jobs = w.metrics.completed_jobs;
  failed_jobs = w.metrics.failed_jobs;
  workers = w.metrics.workers;
  uptime = w.now - w.metrics.uptime_start;
  memory_usage = [];
}

-- The loads of the counters, one after another.
unfoldable pub snapshot_buckets : List ℕ → List ℕ
snapshot_buckets [] = []
snapshot_buckets (b ∷ bs) = b ∷ snapshot_buckets bs

pub record MetricsReport : Type 0 where
  pub active_jobs : ℤ
  pub queued_jobs : ℤ
  pub completed_jobs : ℤ
  pub failed_jobs : ℤ
  pub workers : ℤ
  pub queue_capacity : ℤ
  pub rate_limit : ℤ
  pub uptime_seconds : ℕ
  pub success_rate : ℕ × ℕ
  pub avg_processing_s : ℕ
  pub sessions_active : ℤ
  pub convert_latency_buckets : List ℕ
  pub download_latency_buckets : List ℕ

unfoldable pub handle_metrics_json : Config → World → MetricsReport
unfolding snapshot_buckets
handle_metrics_json cfg w = record {
  active_jobs = w.metrics.active_jobs;
  queued_jobs = w.metrics.queued_jobs;
  completed_jobs = w.metrics.completed_jobs;
  failed_jobs = w.metrics.failed_jobs;
  workers = w.metrics.workers;
  queue_capacity = cfg.job_queue_capacity;
  rate_limit = cfg.requests_per_second;
  uptime_seconds = uptime_seconds w.now w.metrics;
  success_rate = success_rate w.metrics;
  avg_processing_s = 0;
  sessions_active = w.metrics.sessions_active;
  convert_latency_buckets = snapshot_buckets w.metrics.convert_latency_buckets;
  download_latency_buckets = snapshot_buckets w.metrics.download_latency_buckets;
}

-- What exec.Command(…).Output returns.
pub data Output : Type 0 where
  printed : Text → Output
  broken : Text → Output

pub record ToolInfo : Type 0 where
  pub name : Text
  pub version : Text
  pub error : Text

-- strings.SplitN(s, "\n", 2)[0]
pub first_line : Text → Text
first_line [] = []
first_line (c ∷ s) = let rest = first_line s in if c == b'\n' then [] else c ∷ rest

-- The whole output of yt-dlp, and the first line of ffmpeg's.
unfoldable pub handle_self_test : Output → Output → List ToolInfo
unfolding first_line
handle_self_test ffmpeg yt_dlp =
    (elim ffmpeg [
      | printed out ↦ record {
        name = lit "ffmpeg";
        version = trim_space (first_line out);
        error = [];
      }
      | broken err ↦ record { name = lit "ffmpeg"; version = []; error = err }
    ])
    ∷ (elim yt_dlp [
      | printed out ↦ record { name = lit "yt-dlp"; version = trim_space out; error = [] }
      | broken err ↦ record { name = lit "yt-dlp"; version = []; error = err }
    ])
    ∷ []
