-- ===== src/Service.antt =====
-- internal/handlers/api.go: NewAPI, Router and startCleanup. The memory store is the one that NewAPI
-- falls back on without Redis. A request passes the chain of the middleware before its handler. An
-- os.Remove of a file that ReadDir listed succeeds.
pub mod Cleanup
pub mod Steps
pub mod Running
mod Tests
use ytmpt.Common.{
  ℕ, ◌+◌, Bool, true, false, not, ◌&&◌, Option, none, some, List, [], ◌∷◌, ◌++◌, if◌then◌else◌,
}
use ytmpt.Common.Text.{Text, lit}
use ytmpt.Common.Int.{ℤ, pos_part, sub_ℕ, lt_ℤ}
use ytmpt.Config.{Config}
use ytmpt.Models.{ConversionSession, MetaLite, PrepareRequest, ConvertRequest}
use ytmpt.Store.{new_memory_store}
use ytmpt.Queue.{new_queue}
use ytmpt.Metrics.{new_registry}
use ytmpt.Middleware.{Chain, Request, full_bucket, new_ip_limiter, admit, refused, admitted}
use ytmpt.Handlers.{World, Response, Outside}
use ytmpt.Handlers.Prepare.{handle_prepare}
use ytmpt.Handlers.Convert.{handle_convert_req}
use ytmpt.Handlers.Monitor.{
  Health, MetricsReport, ToolInfo, Output, handle_health, handle_metrics_json, handle_self_test,
}
use ytmpt.Handlers.Status.{
  handle_status, handle_delete, Served, handle_download_file, handle_ready, handle_stats,
  remove_file,
}

-- The state that NewAPI builds, over the files that are there.
unfoldable pub new_api : Config → ConversionSession → (Text → Option ℕ) → ℕ → World
new_api cfg zero_value files now = record {
  store = new_memory_store zero_value;
  files = files;
  dl_queue = new_queue (pos_part cfg.job_queue_capacity);
  cv_queue = new_queue (pos_part cfg.job_queue_capacity);
  sleepers = [];
  metrics = record (new_registry now) {
    workers = cfg.worker_pool_size;
    queue_capacity = cfg.job_queue_capacity;
    rate_limit = cfg.burst_size;
  };
  now = now;
  drawn = 0;
}

-- The middleware that Router installs.
unfoldable pub new_chain : Config → ℕ → Chain
new_chain cfg now = record {
  ip_allowlist = cfg.ip_allowlist;
  require_api_key = cfg.require_api_key;
  api_keys = cfg.api_keys;
  global = full_bucket (pos_part cfg.requests_per_second) (pos_part cfg.burst_size) now;
  per_ip = new_ip_limiter (pos_part cfg.per_ip_rps) (pos_part cfg.per_ip_burst);
}

-- The constant pages of pages.go.
pub data Page : Type 0 where
  docs admin : Page

-- The routes, with what the handler reads of the request or of the commands that it runs.
pub data Route : Type 0 where
  post_prepare : Option PrepareRequest → MetaLite → Route
  post_convert : Option ConvertRequest → Route
  get_status : Text → Route
  get_download : Text → Route
  delete_conversion : Text → Route
  get_ready : Route
  get_stats : Route
  get_health get_metrics : Route
  get_selftest : Output → Output → Route
  get_docs get_admin : Route

pub data Reply : Type 0 where
  turned_away : ℕ → Text → Reply
  answered : Response → Reply
  sent : Served → Reply
  counted : ℕ × ℕ → Reply
  healthy : Health → Reply
  measured : MetricsReport → Reply
  tested : List ToolInfo → Reply
  page : Page → Reply

-- The state of the process.
pub record Service : Type 0 where
  pub chain : Chain
  pub world : World

abbrev pub answer_in : Option (Response × World) → Option (Reply × World)
answer_in none = none
answer_in (some (r, w)) = some (answered r, w)

module _ (o : Outside) (cfg : Config) where
  unfoldable pub dispatch : Route → Text → World → Option (Reply × World)
  dispatch (post_prepare req meta) key w = answer_in (handle_prepare o cfg req meta w)
  dispatch (post_convert req) key w = answer_in (handle_convert_req o cfg req key w)
  dispatch (get_status id) key w = answer_in (some (handle_status id w))
  dispatch (get_download id) key w = some (sent (handle_download_file id w), w)
  dispatch (delete_conversion id) key w = answer_in (some (handle_delete id w))
  dispatch get_ready key w = some (answered (handle_ready cfg w), w)
  dispatch get_stats key w = some (counted (handle_stats w), w)
  dispatch get_health key w = some (healthy (handle_health w), w)
  dispatch get_metrics key w = some (measured (handle_metrics_json cfg w), w)
  dispatch (get_selftest ffmpeg yt_dlp) key w = some (tested (handle_self_test ffmpeg yt_dlp), w)
  dispatch get_docs key w = some (page docs, w)
  dispatch get_admin key w = some (page admin, w)

  unfoldable pub serve : Route → Request → Service → Option (Reply × Service)
  unfolding dispatch
  serve route req s =
      let (verdict, chain) = admit s.world.now req s.chain in
      elim verdict [
        | refused code text ↦ some (turned_away code text, record s { chain = chain })
        | admitted ↦ elim (dispatch route req.api_key s.world) [
          | none ↦ none
          | some (reply, w) ↦ some (reply, record { chain = chain; world = w })
        ]
      ]

-- An entry of os.ReadDir, with the time of os.Stat, if there is no error.
pub record Entry : Type 0 where
  pub name : Text
  pub is_dir : Bool
  pub mod_time : Option ℕ

-- The test of the two loops of startCleanup.
abbrev pub is_expired : ℤ → ℕ → Entry → Bool
is_expired ttl now e = elim e.mod_time [
  | none ↦ false
  | some t ↦ not e.is_dir && lt_ℤ ttl (sub_ℕ now t)
]

-- One of the two loops: the files that are left.
clean : Text → ℤ → ℕ → List Entry → (Text → Option ℕ) → Text → Option ℕ
clean dir ttl now [] files = files
clean dir ttl now (e ∷ entries) files =
    clean dir ttl now entries
      (if is_expired ttl now e then remove_file (dir ++ (lit "/" ++ e.name)) files else files)

-- What one tick of startCleanup does, with the entries of the two directories.
unfoldable pub clean_up : Config → List Entry → List Entry → World → World
unfolding clean
clean_up cfg outs streams w = record w {
  files =
      clean (cfg.conversions_dir ++ lit "/streams") cfg.unconverted_file_ttl w.now streams
        (clean (cfg.conversions_dir ++ lit "/outputs") cfg.converted_file_ttl w.now outs w.files);
}
