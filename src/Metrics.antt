-- ===== src/Metrics.antt =====
-- internal/metrics/metrics.go. An instant or a duration is a number of nanoseconds. The counters
-- that are only raised are natural numbers.
pub mod Buckets
pub mod Counted
mod Tests
use ytmpt.Common.{
  ℕ, suc, ◌+◌, ◌-◌, ◌/◌, Bool, true, false, List, [], ◌∷◌, leb, ◌==◌, if◌then◌else◌, get_or, set,
}
use ytmpt.Common.Int.{ℤ, pos}

pub record Registry : Type 0 where
  pub active_jobs : ℤ
  pub queued_jobs : ℤ
  pub completed_jobs : ℤ
  pub failed_jobs : ℤ
  pub workers : ℤ
  pub queue_capacity : ℤ
  pub rate_limit : ℤ
  pub uptime_start : ℕ
  pub success_count : ℕ
  pub error_count : ℕ
  pub sessions_active : ℤ
  pub convert_latency_buckets : List ℕ
  pub download_latency_buckets : List ℕ

-- Ten counters.
abbrev no_counts : List ℕ
no_counts = 0 ∷ 0 ∷ 0 ∷ 0 ∷ 0 ∷ 0 ∷ 0 ∷ 0 ∷ 0 ∷ 0 ∷ []

unfoldable pub new_registry : ℕ → Registry
new_registry now = record {
  active_jobs = pos 0;
  queued_jobs = pos 0;
  completed_jobs = pos 0;
  failed_jobs = pos 0;
  workers = pos 0;
  queue_capacity = pos 0;
  rate_limit = pos 0;
  uptime_start = now;
  success_count = 0;
  error_count = 0;
  sessions_active = pos 0;
  convert_latency_buckets = no_counts;
  download_latency_buckets = no_counts;
}

abbrev pub buckets : List ℕ
buckets =
    500000000 ∷ 1000000000 ∷ 2000000000 ∷ 3000000000 ∷ 5000000000 ∷ 8000000000 ∷ 13000000000
    ∷ 21000000000 ∷ 34000000000 ∷ 55000000000 ∷ []

-- The loop: the index of the first bucket that is not below the duration, or the last one.
unfoldable pub bucket_from : ℕ → ℕ → ℕ → List ℕ → ℕ
bucket_from last i duration [] = last
bucket_from last i duration (b ∷ bs) =
    let rest = bucket_from last (suc i) duration bs in if leb duration b then i else rest

unfoldable pub bucket_of : ℕ → ℕ
bucket_of duration = bucket_from 9 0 duration buckets

-- buckets[idx].Add(1)
unfoldable pub count_at : ℕ → List ℕ → List ℕ
count_at i counts = set counts i (get_or counts i 0 + 1)

unfoldable pub observe_duration : ℕ → Bool → Registry → Registry
observe_duration duration is_convert r =
    if is_convert
    then record r {
      convert_latency_buckets = count_at (bucket_of duration) r.convert_latency_buckets;
    }
    else record r {
      download_latency_buckets = count_at (bucket_of duration) r.download_latency_buckets;
    }

-- SuccessRate as a fraction, numerator first; the float64 of the program is its rounding.
unfoldable pub success_rate : Registry → ℕ × ℕ
success_rate r =
    let t = r.success_count + r.error_count in if t == 0 then (1, 1) else (r.success_count, t)

-- The clock does not run backwards.
unfoldable pub uptime_seconds : ℕ → Registry → ℕ
uptime_seconds now r = (now - r.uptime_start) / 1000000000
