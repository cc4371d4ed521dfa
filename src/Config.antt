-- ===== src/Config.antt =====
-- internal/config/config.go: the configuration and its reading from the environment. An int and a
-- duration (in nanoseconds) are integers. What strconv and time read as a float, a bool or a
-- duration is a parameter, and a float is a number of billionths.
pub mod Parts
mod Tests
use ytmpt.Common.{
  ℕ, ◌*◌, ◌-◌, ◌&&◌, leb, map, Bool, false, Option, none, some, List, [], ◌∷◌, if◌then◌else◌,
}
use ytmpt.Common.Text.{Text, lit, is_empty, trim_space, split}
use ytmpt.Common.Int.{ℤ, pos}
use ytmpt.Common.Decimal.{atoi}

pub record Config : Type 0 where
  pub worker_pool_size : ℤ
  pub job_queue_capacity : ℤ
  pub max_job_retries : ℤ
  pub requests_per_second : ℤ
  pub burst_size : ℤ
  pub per_ip_rps : ℤ
  pub per_ip_burst : ℤ
  pub redis_addr : Text
  pub redis_password : Text
  pub redis_db : ℤ
  pub ytdlp_timeout : ℤ
  pub ffmpeg_min_timeout : ℤ
  pub ffmpeg_max_timeout : ℤ
  pub ffmpeg_mode : Text
  pub ffmpeg_cbr_bitrate : Text
  pub ffmpeg_vbr_q : ℤ
  pub ffmpeg_threads : ℤ
  pub always_download : Bool
  pub download_threshold : ℤ
  pub ytdlp_download_concurrency : ℤ
  pub ytdlp_download_timeout : ℤ
  pub conversions_dir : Text
  pub unconverted_file_ttl : ℤ
  pub converted_file_ttl : ℤ
  pub require_api_key : Bool
  pub api_keys : List Text
  pub allowed_origins : List Text
  pub admin_user : Text
  pub admin_pass : Text
  pub oembed_endpoint : Text
  pub duration_api_endpoint : Text
  pub max_concurrent_downloads : ℤ
  pub max_concurrent_conversions : ℤ
  pub allowed_domains : List Text
  pub max_video_duration_seconds : ℤ
  pub ip_allowlist : List Text
  pub shed_queue_threshold : ℤ

-- The loop of splitAndTrim: the parts that are not blank, trimmed.
pub keep_filled : List Text → List Text
keep_filled [] = []
keep_filled (p ∷ parts) =
    let rest = keep_filled parts in if is_empty (trim_space p) then rest else trim_space p ∷ rest

unfoldable pub split_and_trim : Text → List Text
unfolding keep_filled
split_and_trim s = if is_empty s then [] else keep_filled (split b',' s)

-- strings.ToUpper, on ASCII letters.
upper : ℕ → ℕ
upper c = if leb b'a' c && leb c b'z' then c - 32 else c

unfoldable pub to_upper : Text → Text
unfolding upper
to_upper s = map upper s

-- The environment: os.Getenv, which is empty for a variable that is not set.
abbrev pub Environment : Type 0
Environment = Text → Text

-- The common shape of the readers: the default for an empty variable and for one that is not read.
abbrev or_default {ℓ} : {A : Type ℓ} → Text → (Text → Option A) → A → A
or_default v read def =
    if is_empty v then def else elim (read v) [ none ↦ def | some value ↦ value ]

module _ (env : Environment) where
  unfoldable pub get_env : Text → Text → Text
  get_env key def = if is_empty (env key) then def else env key

  unfoldable pub get_env_int : Text → ℤ → ℤ
  get_env_int key def = or_default (env key) atoi def

module _ (env : Environment) (parse_float : Text → Option ℤ) (parse_bool : Text → Option Bool)
    (parse_duration : Text → Option ℤ) where
  unfoldable pub get_env_float : Text → ℤ → ℤ
  get_env_float key def = or_default (env key) parse_float def

  unfoldable pub get_env_bool : Text → Bool → Bool
  get_env_bool key def = or_default (env key) parse_bool def

  unfoldable pub get_env_duration : Text → ℤ → ℤ
  get_env_duration key def = or_default (env key) parse_duration def

  abbrev seconds : ℕ → ℤ
  seconds n = pos (n * 1000000000)

  unfoldable pub load : Config
  load = record {
    worker_pool_size = get_env_int env (lit "WORKER_POOL_SIZE") (pos 20);
    job_queue_capacity = get_env_int env (lit "JOB_QUEUE_CAPACITY") (pos 1000);
    max_job_retries = get_env_int env (lit "MAX_JOB_RETRIES") (pos 3);
    requests_per_second = get_env_float (lit "REQUESTS_PER_SECOND") (seconds 100);
    burst_size = get_env_int env (lit "BURST_SIZE") (pos 200);
    per_ip_rps = get_env_float (lit "PER_IP_RPS") (seconds 10);
    per_ip_burst = get_env_int env (lit "PER_IP_BURST") (pos 20);
    redis_addr = get_env env (lit "REDIS_ADDR") (lit "localhost:6379");
    redis_password = get_env env (lit "REDIS_PASSWORD") [];
    redis_db = get_env_int env (lit "REDIS_DB") (pos 0);
    ytdlp_timeout = get_env_duration (lit "YTDLP_TIMEOUT") (seconds 90);
    ffmpeg_min_timeout = get_env_duration (lit "FFMPEG_MIN_TIMEOUT") (seconds 900);
    ffmpeg_max_timeout = get_env_duration (lit "FFMPEG_MAX_TIMEOUT") (seconds 3600);
    ffmpeg_mode = to_upper (get_env env (lit "FFMPEG_MODE") (lit "CBR"));
    ffmpeg_cbr_bitrate = get_env env (lit "FFMPEG_CBR_BITRATE") (lit "192k");
    ffmpeg_vbr_q = get_env_int env (lit "FFMPEG_VBR_Q") (pos 5);
    ffmpeg_threads = get_env_int env (lit "FFMPEG_THREADS") (pos 0);
    always_download = get_env_bool (lit "ALWAYS_DOWNLOAD") false;
    download_threshold = get_env_duration (lit "DOWNLOAD_THRESHOLD") (seconds 600);
    ytdlp_download_concurrency = get_env_int env (lit "YTDLP_DOWNLOAD_CONCURRENCY") (pos 8);
    ytdlp_download_timeout = get_env_duration (lit "YTDLP_DOWNLOAD_TIMEOUT") (seconds 1800);
    conversions_dir = get_env env (lit "CONVERSIONS_DIR") (lit "/tmp/conversions");
    unconverted_file_ttl = get_env_duration (lit "UNCONVERTED_FILE_TTL") (seconds 300);
    converted_file_ttl = get_env_duration (lit "CONVERTED_FILE_TTL") (seconds 600);
    require_api_key = get_env_bool (lit "REQUIRE_API_KEY") false;
    api_keys = split_and_trim (get_env env (lit "API_KEYS") []);
    allowed_origins = split_and_trim (get_env env (lit "ALLOWED_ORIGINS") (lit "*"));
    admin_user = get_env env (lit "ADMIN_USER") (lit "admin");
    admin_pass = get_env env (lit "ADMIN_PASS") (lit "password");
    oembed_endpoint = get_env env (lit "OEMBED_ENDPOINT") (lit "https://www.youtube.com/oembed");
    duration_api_endpoint =
        get_env env (lit "DURATION_API_ENDPOINT") (lit "https://ds2.ezsrv.net/api/getDuration");
    max_concurrent_downloads = get_env_int env (lit "MAX_CONCURRENT_DOWNLOADS") (pos 20);
    max_concurrent_conversions = get_env_int env (lit "MAX_CONCURRENT_CONVERSIONS") (pos 20);
    allowed_domains =
        split_and_trim (get_env env (lit "ALLOWED_DOMAINS") (lit "youtube.com,youtu.be"));
    max_video_duration_seconds = get_env_int env (lit "MAX_VIDEO_DURATION_SECONDS") (pos 2400);
    ip_allowlist = split_and_trim (get_env env (lit "IP_ALLOWLIST") []);
    shed_queue_threshold = get_env_int env (lit "SHED_QUEUE_THRESHOLD") (pos 0);
  }
