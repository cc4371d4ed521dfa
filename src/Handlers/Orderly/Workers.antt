-- ===== src/Handlers/Orderly/Workers.antt =====
-- A worker tries a job again only as often as MaxJobRetries allows.
use ytmpt.Common.{
  ◌⊎◌, ℕ, Bool, false, ◌+◌, ◌-◌, ◌∷◌, ◌++◌, true, ◌≡◌, inl, inr, refl, Option, none, some, [],
  Option-cases, Bool-cases, Returns, arith,
}
use ytmpt.Common.Text.{Text, is_empty}
use ytmpt.Common.Int.{pos}
use ytmpt.Config.{Config}
use ytmpt.Queue.{Job}
use ytmpt.Store.{Ref, assign, get_session}
use ytmpt.Metrics.{observe_duration}
use ytmpt.Metrics.Counted.{observe_duration-total}
use ytmpt.Handlers.{
  World, one_success, one_error, Outside, Sleeper, to_download, to_convert, download_job, is_usable,
}
use ytmpt.Handlers.Wake.{wake, job_of}
use ytmpt.Handlers.Workers.{
  backoff, retried, fill_asset_hash, may_retry, fail_download, finish_download, hydrate, is_waiting,
  postpone, lose_source, fail_convert, finish_convert,
}
use ytmpt.Handlers.Running.{
  Running, on_download, on_convert, Started, over, runs, begin_download_job, begin_conversion,
  begin_convert_job, end_job,
}
use ytmpt.Handlers.Orderly.{is_within, AreOrderly, IsOrderly, enqueue-IsCapped, asleep}

abbrev pub held_job : Running → Job
held_job (on_download p job start) = job
held_job (on_convert p job start) = job

-- The job of a failed tool sleeps with one attempt more, or not at all.
pub record IsRetried (r : Running) (w w' : World) : Type 0 where
  pub sleeps :
      (w'.sleepers ≡ w.sleepers)
      ⊎ ((s : Sleeper) × (w'.sleepers ≡ w.sleepers ++ s ∷ [])
          × (job_of s ≡ record (held_job r) { attempts = (held_job r).attempts + 1 }))
  pub dl_queue : w'.dl_queue ≡ w.dl_queue
  pub cv_queue : w'.cv_queue ≡ w.cv_queue

-- What waits, and the job whose tool runs.
abbrev pub IsOrderlyStart : Config → Started → Type 0
IsOrderlyStart cfg (over w) = IsOrderly cfg w
IsOrderlyStart cfg (runs r w) = (is_within cfg (held_job r) ≡ true) × IsOrderly cfg w

pub wake-IsOrderly :
    (cfg : Config) (s : Sleeper) (w : World)
    → IsOrderly cfg w
    → is_within cfg (job_of s) ≡ true
    → Returns (IsOrderly cfg) (wake s w)
unfolding wake
wake-IsOrderly cfg (to_download d job) w v h =
    let ((q, ok), run, capped) = enqueue-IsCapped cfg w.dl_queue job v.dl_queue h in
    rw (run, wake)
      (
        _,
        refl,
        record {
          dl_queue = capped;
          cv_queue = v.cv_queue;
          sleepers = v.sleepers;
          counted = v.counted;
        },
      )
wake-IsOrderly cfg (to_convert d job) w v h =
    let ((q, ok), run, capped) = enqueue-IsCapped cfg w.cv_queue job v.cv_queue h in
    rw (run, wake)
      (
        _,
        refl,
        record {
          dl_queue = v.dl_queue;
          cv_queue = capped;
          sleepers = v.sleepers;
          counted = v.counted;
        },
      )

module _ (o : Outside) (cfg : Config) where
  -- One more goroutine that sleeps.
  sleeper-IsOrderly :
      (s : Sleeper) (w : World)
      → IsOrderly cfg w
      → is_within cfg (job_of s) ≡ true
      → AreOrderly cfg w.dl_queue w.cv_queue (w.sleepers ++ s ∷ []) w.metrics
  sleeper-IsOrderly s w v h = record {
    dl_queue = v.dl_queue;
    cv_queue = v.cv_queue;
    sleepers = asleep cfg w.sleepers s v.sleepers h;
    counted = v.counted;
  }

  pub retried-within : (job : Job) → may_retry o cfg job ≡ true → is_within cfg (retried job) ≡ true
  retried-within job h = ground (arith, h)

  -- A success is observed and counted.
  success-IsOrderly :
      (start : ℕ) (is_convert : Bool) (w : World)
      → IsOrderly cfg w
      → AreOrderly cfg w.dl_queue w.cv_queue w.sleepers
          (one_success (observe_duration (w.now - start) is_convert w.metrics))
  success-IsOrderly start is_convert w v = record {
    dl_queue = v.dl_queue;
    cv_queue = v.cv_queue;
    sleepers = v.sleepers;
    counted = observe_duration-total (w.now - start) is_convert w.metrics v.counted;
  }

  error-IsOrderly :
      (w : World)
      → IsOrderly cfg w
      → AreOrderly cfg w.dl_queue w.cv_queue w.sleepers (one_error w.metrics)
  error-IsOrderly w v = record {
    dl_queue = v.dl_queue;
    cv_queue = v.cv_queue;
    sleepers = v.sleepers;
    counted = record {
      converts = v.counted.converts;
      downloads = v.counted.downloads;
      successes = v.counted.successes;
      active = v.counted.active;
      queued = v.counted.queued;
      completed = v.counted.completed;
      failed = v.counted.failed;
      sessions = v.counted.sessions;
    };
  }

  pub end_job-IsOrderly :
      (outcome : Option Text) (files : Text → Option ℕ) (r : Running) (w : World)
      → IsOrderly cfg w
      → IsOrderly cfg (end_job o cfg outcome files r w)
  unfolding end_job finish_download finish_convert fail_download fail_convert
  end_job-IsOrderly none files (on_download p job start) w v = success-IsOrderly start false w v
  end_job-IsOrderly none files (on_convert p job start) w v = success-IsOrderly start true w v
  end_job-IsOrderly (some err) files (on_download p job start) w v =
      elim (Bool-cases (may_retry o cfg job)) [
        | inl again ↦ rw again (
            sleeper-IsOrderly (to_download (backoff (job.attempts + 1)) (retried job)) w v
              (retried-within job again))
        | inr never ↦ rw never (error-IsOrderly w v)
      ]
  end_job-IsOrderly (some err) files (on_convert p job start) w v =
      elim (Bool-cases (may_retry o cfg job)) [
        | inl again ↦ rw again (
            sleeper-IsOrderly (to_convert (backoff (job.attempts + 1)) (retried job)) w v
              (retried-within job again))
        | inr never ↦ rw never (error-IsOrderly w v)
      ]

  -- A tool that fails sends no goroutine to sleep, or one with the same job, tried once more; the
  -- queues stay as they are.
  pub end_job-IsRetried :
      (err : Text) (files : Text → Option ℕ) (r : Running) (w : World)
      → IsRetried r w (end_job o cfg (some err) files r w)
  unfolding end_job fail_download fail_convert
  end_job-IsRetried err files (on_download p job start) w =
      elim (Bool-cases (may_retry o cfg job)) [
        | inl again ↦ rw again (record {
          sleeps = inr (to_download (backoff (job.attempts + 1)) (retried job), refl, refl);
          dl_queue = refl;
          cv_queue = refl;
        })
        | inr never ↦ rw never (record { sleeps = inl refl; dl_queue = refl; cv_queue = refl })
      ]
  end_job-IsRetried err files (on_convert p job start) w = elim (Bool-cases (may_retry o cfg job)) [
    | inl again ↦ rw again (record {
      sleeps = inr (to_convert (backoff (job.attempts + 1)) (retried job), refl, refl);
      dl_queue = refl;
      cv_queue = refl;
    })
    | inr never ↦ rw never (record { sleeps = inl refl; dl_queue = refl; cv_queue = refl })
  ]

  pub begin_download_job-IsOrderly :
      (job : Job) (w : World)
      → IsOrderly cfg w
      → is_within cfg job ≡ true
      → IsOrderlyStart cfg (begin_download_job o cfg job w)
  unfolding begin_download_job
  begin_download_job-IsOrderly job w v h =
      elim (Option-cases (get_session job.session_id w.store).0) [
        | inl missing ↦ rw (missing, begin_download_job) v
        | inr (p, found) ↦ rw (found, begin_download_job) (h, v)
      ]

  postpone-IsOrderly :
      (p : Ref) (job : Job) (w : World)
      → IsOrderly cfg w
      → is_within cfg job ≡ true
      → Returns (IsOrderly cfg) (postpone o cfg p job w)
  unfolding postpone
  postpone-IsOrderly p job w v h =
      let slept = sleeper-IsOrderly (to_convert (pos 5000000000) job) w v h in
      let (r, run, capped) =
        enqueue-IsCapped cfg w.dl_queue (download_job o w.now w.drawn (w.store.at p).id) v.dl_queue
          refl in
      elim (Bool-cases (is_empty (w.store.at p).source_path)) [
        | inr there ↦ rw there (_, refl, slept)
        | inl blank ↦
            rw (blank, run, postpone)
              (
                _,
                refl,
                record {
                  dl_queue = capped;
                  cv_queue = v.cv_queue;
                  sleepers = slept.sleepers;
                  counted = v.counted;
                },
              )
      ]

  begin_conversion-IsOrderly :
      (p : Ref) (job : Job) (w : World)
      → IsOrderly cfg w
      → is_within cfg job ≡ true
      → Returns (IsOrderlyStart cfg) (begin_conversion o cfg p job w)
  unfolding begin_conversion lose_source
  begin_conversion-IsOrderly p job w v h = elim (Bool-cases (is_waiting o cfg (w.store.at p))) [
    | inl early ↦
        let (w', run, v') = postpone-IsOrderly p job w v h in
        rw (early, run, begin_conversion) (_, refl, v')
    | inr late ↦ elim (Bool-cases (is_usable w.files (w.store.at p).source_path)) [
      | inr gone ↦
          rw (late, gone) (_, refl, sleeper-IsOrderly (to_convert (pos 2000000000) job) w v h)
      | inl there ↦ rw (late, there) (_, refl, (h, v))
    ]
  ]

  pub begin_convert_job-IsOrderly :
      (job : Job) (w : World)
      → IsOrderly cfg w
      → is_within cfg job ≡ true
      → Returns (IsOrderlyStart cfg) (begin_convert_job o cfg job w)
  unfolding begin_convert_job
  begin_convert_job-IsOrderly job w v h =
      elim (Option-cases (get_session job.session_id w.store).0) [
        | inl missing ↦ rw (missing, begin_convert_job) (_, refl, v)
        | inr (p, found) ↦
            let m = (get_session job.session_id w.store).1 in
            rw (found, begin_convert_job)
              (begin_conversion-IsOrderly p job
                (record w {
                  store = hydrate o cfg w.files w.now p (assign p (fill_asset_hash o) m);
                })
                v h)
      ]
