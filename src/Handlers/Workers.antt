-- ===== src/Handlers/Workers.antt =====
-- internal/handlers/api.go: handleDownload and handleConvert, which the worker pools run. The
-- outcome of yt-dlp or ffmpeg is an argument: the text of the error, if there is one, and the
-- files afterwards. filepath.Join is written for a directory without a slash at its end.
pub mod Download
pub mod Encode
pub mod Failure
pub mod Postponed
mod Tests
use ytmpt.Common.{
  ℕ, ◌+◌, ◌*◌, ◌^◌, Bool, true, false, not, ◌&&◌, ◌||◌, Option, none, some, List, [], ◌∷◌, ◌++◌,
  if◌then◌else◌,
}
use ytmpt.Common.Text.{Text, lit, is_empty, contains}
use ytmpt.Common.Int.{ℤ, pos, lt_ℤ, wrap}
use ytmpt.Config.{Config}
use ytmpt.Models.{
  preparing, created, downloading, downloaded, converting, completed, failed, state_eq,
  ConversionSession,
}
use ytmpt.Queue.{Job, enqueue}
use ytmpt.Store.{
  MemoryStore, Ref, Asset, of_state, expired, assign, get_session, set_asset, get_asset,
  set_variant,
}
use ytmpt.Handlers.{
  World, Sleeper, to_download, to_convert, is_usable, Outside, asset_hash_of, download_job, save,
  observed, one_success, one_error,
}
use ytmpt.Handlers.Prepare.{is_downloaded}
use ytmpt.Handlers.Convert.{variant_text}

-- The wait before a retry: time.Duration(1<<attempts) * time.Second, and 60 seconds at most.
unfoldable pub backoff : ℕ → ℤ
backoff attempts =
    let d = wrap (2 ^ attempts * 1000000000) in
    if lt_ℤ (pos 60000000000) d then pos 60000000000 else d

-- strings.Contains(err.Error(), "signal: aborted") and the text in its place.
abbrev pub error_text : Text → Text → Text
error_text instead err = if contains err (lit "signal: aborted") then instead else err

-- if s.AssetHash == "" { s.AssetHash = … }
abbrev pub fill_asset_hash : Outside → ConversionSession → ConversionSession
fill_asset_hash o s =
    if is_empty s.asset_hash then record s { asset_hash = asset_hash_of o s.url } else s

-- job.Attempts++
abbrev pub retried : Job → Job
retried job = record job { attempts = job.attempts + 1 }

module _ (o : Outside) (cfg : Config) where
  abbrev pub stream_path : Text → Text
  stream_path hash = cfg.conversions_dir ++ (lit "/streams/" ++ (hash ++ lit ".source"))

  abbrev pub output_path_of : Text → Text
  output_path_of hash = cfg.conversions_dir ++ (lit "/outputs/" ++ (hash ++ lit ".mp3"))

  -- job.Attempts < cfg.MaxJobRetries, after the increment
  abbrev pub may_retry : Job → Bool
  may_retry job = lt_ℤ (pos (job.attempts + 1)) cfg.max_job_retries

  -- The failure of a download.
  unfoldable pub fail_download : Ref → Text → Job → World → World
  fail_download p err job w =
      if may_retry job
      then record w {
        sleepers = w.sleepers ++ to_download (backoff (job.attempts + 1)) (retried job) ∷ [];
      }
      else record w {
        store = set_asset (w.store.at p).asset_hash [] (of_state failed) (
            save w.now p
              (λ s. record s {
                state = failed;
                error = error_text (lit "download aborted by tool; retry later") err;
              })
              w.store);
        metrics = one_error w.metrics;
      }

  unfoldable pub finish_download : Ref → Text → World → World
  finish_download p out w = record w {
    store =
        set_asset (w.store.at p).asset_hash out (of_state downloaded)
          (save w.now p (λ s. record s { source_path = out; state = downloaded }) w.store);
    metrics = one_success w.metrics;
  }

  -- The writes before the download: the state, and then the hash without an UpdateSession.
  unfoldable pub begin_download : ℕ → Ref → MemoryStore → MemoryStore
  begin_download now p m =
      assign p (fill_asset_hash o) (save now p (λ s. record s { state = downloading }) m)

  unfoldable pub handle_download : Option Text → (Text → Option ℕ) → Job → World → World
  handle_download outcome files job w =
      let (found, m) = get_session job.session_id w.store in
      elim found [
        | none ↦ w
        | some p ↦
            (let w' = record w { store = begin_download w.now p m; files = files } in
              elim outcome [
                | none ↦
                    finish_download p (stream_path (w'.store.at p).asset_hash)
                      (observed w.now false w')
                | some err ↦ fail_download p err job w'
              ])
      ]

  -- A session with no source takes the cached one, if its file is there.
  unfoldable pub hydrate : (Text → Option ℕ) → ℕ → Ref → MemoryStore → MemoryStore
  hydrate files now p m =
      if is_empty (m.at p).source_path
      then elim (get_asset (m.at p).asset_hash m) [
        | none ↦ m
        | some a ↦
            if is_downloaded a
            then (if is_usable files a.source_path
                then save now p (λ s. record s { source_path = a.source_path; state = downloaded })
                    m
                else set_asset (m.at p).asset_hash [] expired m)
            else m
      ]
      else m

  -- The source is missing or not ready.
  unfoldable pub is_waiting : ConversionSession → Bool
  is_waiting s =
      is_empty s.source_path
      || (state_eq s.state downloading || (state_eq s.state preparing || state_eq s.state created))

  -- The job goes back to sleep, with a download if there is no source.
  unfoldable pub postpone : Ref → Job → World → Option World
  postpone p job w =
      let asleep = w.sleepers ++ to_convert (pos 5000000000) job ∷ [] in
      if is_empty (w.store.at p).source_path
      then elim (enqueue w.dl_queue (download_job o w.now w.drawn (w.store.at p).id)) [
        | none ↦ none
        | some (q, _) ↦ some (record w {
          store = set_asset (w.store.at p).asset_hash [] (of_state preparing) w.store;
          dl_queue = q;
          drawn = w.drawn + 1;
          sleepers = asleep;
        })
      ]
      else some (record w { sleepers = asleep })

  -- The file of the source is gone.
  unfoldable pub lose_source : Ref → Job → World → World
  lose_source p job w = record w {
    store =
        save w.now p (λ s. record s { source_path = [] })
          (set_asset (w.store.at p).asset_hash [] expired w.store);
    sleepers = w.sleepers ++ to_convert (pos 2000000000) job ∷ [];
  }

  -- The writes before ffmpeg runs: the state, and then the hashes without an UpdateSession.
  unfoldable pub begin_convert : ℕ → Ref → Job → MemoryStore → MemoryStore
  begin_convert now p job m =
      let started = save now p (λ s. record s { state = converting }) m in
      let hashed = assign p (fill_asset_hash o) started in
      assign p
        (λ s.
          if is_empty s.variant_hash
          then record s {
            variant_hash =
                o.hash_string (variant_text s.asset_hash job.quality job.start_time job.end_time);
          }
          else s)
        hashed

  unfoldable pub fail_convert : Ref → Text → Job → World → World
  fail_convert p err job w =
      if may_retry job
      then record w {
        sleepers = w.sleepers ++ to_convert (backoff (job.attempts + 1)) (retried job) ∷ [];
      }
      else record w {
        store =
            save w.now p
              (λ s. record s {
                state = failed;
                error =
                    error_text
                      (lit
                        "conversion aborted by encoder; source may be stale or environment under load")
                      err;
              })
              w.store;
        metrics = one_error w.metrics;
      }

  unfoldable pub finish_convert : Ref → World → World
  finish_convert p w =
      let out = output_path_of (w.store.at p).variant_hash in
      record w {
        store =
            set_variant (w.store.at p).variant_hash out
              (save w.now p (λ s. record s { output_path = out; state = completed }) w.store);
        metrics = one_success w.metrics;
      }

  -- With a source: the last look at its file, and ffmpeg.
  unfoldable pub run_convert : Option Text → (Text → Option ℕ) → Ref → Job → World → World
  run_convert outcome files p job w =
      if not (is_usable w.files (w.store.at p).source_path)
      then lose_source p job w
      else (let w' = record w { store = begin_convert w.now p job w.store; files = files } in
          elim outcome [
            | none ↦ finish_convert p (observed w.now true w')
            | some err ↦ fail_convert p err job w'
          ])

  unfoldable pub handle_convert : Option Text → (Text → Option ℕ) → Job → World → Option World
  handle_convert outcome files job w =
      let (found, m) = get_session job.session_id w.store in
      elim found [
        | none ↦ some w
        | some p ↦
            (let w' = record w {
              store = hydrate w.files w.now p (assign p (fill_asset_hash o) m);
            } in
              if is_waiting (w'.store.at p)
              then postpone p job w'
              else some (run_convert outcome files p job w'))
      ]
