-- ===== src/Service/Running/Reported.antt =====
-- What /health and /metrics show of the running service.
use ytmpt.Common.{ℕ, ◌+◌, ◌≡◌, ◌∙◌, ap, refl, Option, List, [], ◌∷◌, length, arith}
use ytmpt.Common.Text.{Text}
use ytmpt.Common.Int.{pos}
use ytmpt.Config.{Config}
use ytmpt.Models.{ConversionSession}
use ytmpt.Middleware.{Chain}
use ytmpt.Metrics.Counted.{IsCounted, total}
use ytmpt.Handlers.{World, Outside}
use ytmpt.Handlers.Monitor.{handle_health, handle_metrics_json, snapshot_buckets}
use ytmpt.Service.{new_api}
use ytmpt.Service.Running.{Process, Reach}
use ytmpt.Service.Running.Orderly.{Reach-new_api-IsOrderlyProcess}

-- Ten buckets each, which hold the successes; and no jobs or sessions, whatever the service does.
pub record IsReported (cfg : Config) (w : World) : Type 0 where
  pub converts : length (handle_metrics_json cfg w).convert_latency_buckets ≡ 10
  pub downloads : length (handle_metrics_json cfg w).download_latency_buckets ≡ 10
  pub successes :
      w.metrics.success_count
      ≡ total (handle_metrics_json cfg w).convert_latency_buckets
        + total (handle_metrics_json cfg w).download_latency_buckets
  pub active : (handle_health w).active_jobs ≡ pos 0
  pub queued : (handle_health w).queued_jobs ≡ pos 0
  pub completed : (handle_health w).completed_jobs ≡ pos 0
  pub failed : (handle_health w).failed_jobs ≡ pos 0
  pub active_json : (handle_metrics_json cfg w).active_jobs ≡ pos 0
  pub queued_json : (handle_metrics_json cfg w).queued_jobs ≡ pos 0
  pub completed_json : (handle_metrics_json cfg w).completed_jobs ≡ pos 0
  pub failed_json : (handle_metrics_json cfg w).failed_jobs ≡ pos 0
  pub sessions : (handle_metrics_json cfg w).sessions_active ≡ pos 0

-- snapshotBuckets shows the counters as they are.
snapshot_buckets-same : (bs : List ℕ) → snapshot_buckets bs ≡ bs
unfolding snapshot_buckets
snapshot_buckets-same [] = refl
snapshot_buckets-same (b ∷ bs) = ap (◌∷◌ b) (snapshot_buckets-same bs)

counted-IsReported : (cfg : Config) (w : World) → IsCounted w.metrics → IsReported cfg w
unfolding handle_health handle_metrics_json
counted-IsReported cfg w v =
    let cv = snapshot_buckets-same w.metrics.convert_latency_buckets in
    let dl = snapshot_buckets-same w.metrics.download_latency_buckets in
    record {
      converts = ap length cv ∙ v.converts;
      downloads = ap length dl ∙ v.downloads;
      successes = omega (arith, v.successes, ap total cv, ap total dl);
      active = v.active;
      queued = v.queued;
      completed = v.completed;
      failed = v.failed;
      active_json = v.active;
      queued_json = v.queued;
      completed_json = v.completed;
      failed_json = v.failed;
      sessions = v.sessions;
    }

-- In every state that the service reaches from its start, /metrics shows ten buckets of downloads and
-- ten of conversions, whose sum is the number of successes that were counted; and both /health and
-- /metrics show no active, queued, completed or failed job, and /metrics no session, whatever jobs
-- run.
pub Reach-new_api-IsReported :
    (o : Outside) (cfg : Config) (chain : Chain) (zero_value : ConversionSession)
    (files : Text → Option ℕ) (now : ℕ) {p : Process}
    → Reach o cfg
        (record {
          service = record { chain = chain; world = new_api cfg zero_value files now };
          running = [];
        })
        p
    → IsReported cfg p.service.world
Reach-new_api-IsReported o cfg chain zero_value files now {p} r =
    counted-IsReported cfg p.service.world
      (Reach-new_api-IsOrderlyProcess o cfg chain zero_value files now r).0.waiting.counted
