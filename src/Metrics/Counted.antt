-- ===== src/Metrics/Counted.antt =====
-- The counters of a registry agree: every success is in one bucket.
use ytmpt.Common.{
  ℕ, zero, suc, ◌+◌, ◌<◌, ◌≤◌, ◌≡◌, ◌∙◌, refl, Bool, true, false, List, [], ◌∷◌, get_or, set,
  length, arith,
}
use ytmpt.Common.Int.{pos}
use ytmpt.Metrics.{
  Registry, new_registry, bucket_from, bucket_of, buckets, count_at, observe_duration,
}

abbrev pub total : List ℕ → ℕ
total [] = 0
total (n ∷ ns) = n + total ns

total-set :
    (ns : List ℕ) (i : ℕ) → i < length ns → total (set ns i (get_or ns i 0 + 1)) ≡ total ns + 1
total-set [] i h = absurd (omega arith)
total-set (n ∷ ns) zero h = omega arith
total-set (n ∷ ns) (suc i) h = omega (arith, total-set ns i (omega arith))

length-set : (ns : List ℕ) (i v : ℕ) → length (set ns i v) ≡ length ns
length-set [] i v = refl
length-set (n ∷ ns) zero v = refl
length-set (n ∷ ns) (suc i) v = omega (arith, length-set ns i v)

bucket_from-below :
    (last i duration : ℕ) (bs : List ℕ)
    → i + length bs ≤ suc last
    → bucket_from last i duration bs ≤ last
unfolding bucket_from
bucket_from-below last i duration [] h = omega arith
bucket_from-below last i duration (b ∷ bs) h =
    ground (arith, bucket_from-below last (suc i) duration bs (omega (arith, h)))

bucket_of-below : (duration : ℕ) → bucket_of duration < 10
unfolding bucket_of
bucket_of-below duration = omega (arith, bucket_from-below 9 0 duration buckets (omega arith))

-- Ten buckets for the conversions and ten for the downloads, which hold the successes; the gauges of
-- the jobs and of the sessions are zero.
pub record IsCounted (r : Registry) : Type 0 where
  pub converts : length r.convert_latency_buckets ≡ 10
  pub downloads : length r.download_latency_buckets ≡ 10
  pub successes :
      r.success_count ≡ total r.convert_latency_buckets + total r.download_latency_buckets
  pub active : r.active_jobs ≡ pos 0
  pub queued : r.queued_jobs ≡ pos 0
  pub completed : r.completed_jobs ≡ pos 0
  pub failed : r.failed_jobs ≡ pos 0
  pub sessions : r.sessions_active ≡ pos 0

pub new_registry-IsCounted : (now : ℕ) → IsCounted (new_registry now)
unfolding new_registry
new_registry-IsCounted now = record {
  converts = refl;
  downloads = refl;
  successes = refl;
  active = refl;
  queued = refl;
  completed = refl;
  failed = refl;
  sessions = refl;
}

-- ObserveDuration counts one more in one of the buckets.
pub observe_duration-total :
    (duration : ℕ) (is_convert : Bool) (r : Registry)
    → IsCounted r
    → IsCounted (record (observe_duration duration is_convert r) {
      success_count = (observe_duration duration is_convert r).success_count + 1;
    })
unfolding observe_duration count_at
observe_duration-total duration true r v =
    let i = bucket_of duration in
    let inside : i < length r.convert_latency_buckets =
      omega (arith, v.converts, bucket_of-below duration) in
    let counts = r.convert_latency_buckets in
    record {
      converts = length-set counts i _ ∙ v.converts;
      downloads = v.downloads;
      successes = omega (arith, total-set counts i inside, v.successes);
      active = v.active;
      queued = v.queued;
      completed = v.completed;
      failed = v.failed;
      sessions = v.sessions;
    }
observe_duration-total duration false r v =
    let i = bucket_of duration in
    let inside : i < length r.download_latency_buckets =
      omega (arith, v.downloads, bucket_of-below duration) in
    let counts = r.download_latency_buckets in
    record {
      converts = v.converts;
      downloads = length-set counts i _ ∙ v.downloads;
      successes = omega (arith, total-set counts i inside, v.successes);
      active = v.active;
      queued = v.queued;
      completed = v.completed;
      failed = v.failed;
      sessions = v.sessions;
    }
