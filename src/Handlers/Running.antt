-- ===== src/Handlers/Running.antt =====
-- internal/handlers/api.go: handleDownload and handleConvert, cut where they wait for yt-dlp or
-- ffmpeg. What comes before the tool is one step and what comes after it is another: between the
-- two, the goroutine holds its pointer to the session and its job.
pub mod Ended
use ytmpt.Common.{
  ℕ, ◌≡◌, inl, inr, refl, ap, not, true, false, Option, none, some, if◌then◌else◌, Bool-cases,
}
use ytmpt.Common.Text.{Text}
use ytmpt.Config.{Config}
use ytmpt.Queue.{Job}
use ytmpt.Store.{MemoryStore, Ref, assign, get_session}
use ytmpt.Handlers.{World, Outside, is_usable, observed}
use ytmpt.Handlers.Workers.{
  fill_asset_hash, fail_download, finish_download, begin_download, handle_download, stream_path,
  hydrate, is_waiting, postpone, lose_source, begin_convert, fail_convert, finish_convert,
  run_convert, handle_convert,
}

-- A goroutine that waits for its tool, with the time at which it started.
pub data Running : Type 0 where
  on_download on_convert : Ref → Job → ℕ → Running

abbrev pub ref_of : Running → Ref
ref_of (on_download p job start) = p
ref_of (on_convert p job start) = p

-- The handler has returned without the tool, or the tool runs.
pub data Started : Type 0 where
  over : World → Started
  runs : Running → World → Started

module _ (o : Outside) (cfg : Config) where
  unfoldable pub begin_download_job : Job → World → Started
  begin_download_job job w =
      let (found, m) = get_session job.session_id w.store in
      elim found [
        | none ↦ over w
        | some p ↦
            runs (on_download p job w.now) (record w { store = begin_download o cfg w.now p m })
      ]

  -- From the answer of GetSession on.
  unfoldable pub begin_conversion : Ref → Job → World → Option Started
  begin_conversion p job w =
      if is_waiting o cfg (w.store.at p)
      then elim (postpone o cfg p job w) [ none ↦ none | some w' ↦ some (over w') ]
      else if not (is_usable w.files (w.store.at p).source_path)
      then some (over (lose_source o cfg p job w))
      else some (
          runs (on_convert p job w.now)
            (record w { store = begin_convert o cfg w.now p job w.store }))

  unfoldable pub begin_convert_job : Job → World → Option Started
  begin_convert_job job w =
      let (found, m) = get_session job.session_id w.store in
      elim found [
        | none ↦ some (over w)
        | some p ↦
            begin_conversion p job
              (record w { store = hydrate o cfg w.files w.now p (assign p (fill_asset_hash o) m) })
      ]

  -- The tool has returned: the text of its error, if there is one, and the files afterwards.
  unfoldable pub end_job : Option Text → (Text → Option ℕ) → Running → World → World
  end_job none files (on_download p job start) w =
      finish_download o cfg p (stream_path o cfg (w.store.at p).asset_hash)
        (observed start false (record w { files = files }))
  end_job (some err) files (on_download p job start) w =
      fail_download o cfg p err job (record w { files = files })
  end_job none files (on_convert p job start) w =
      finish_convert o cfg p (observed start true (record w { files = files }))
  end_job (some err) files (on_convert p job start) w =
      fail_convert o cfg p err job (record w { files = files })

  -- The tool returns at once.
  abbrev pub complete : Option Text → (Text → Option ℕ) → Started → World
  complete outcome files (over w) = w
  complete outcome files (runs r w) = end_job outcome files r w

  abbrev pub complete_in : Option Text → (Text → Option ℕ) → Option Started → Option World
  complete_in outcome files none = none
  complete_in outcome files (some started) = some (complete outcome files started)

  abbrev DownloadFrom :
      Option Text → (Text → Option ℕ) → Job → World → Option Ref × MemoryStore → Type 0
  DownloadFrom outcome files job w r =
      (elim r.0 [
        | none ↦ w
        | some p ↦
            (let w' = record w { store = begin_download o cfg w.now p r.1; files = files } in
              elim outcome [
                | none ↦
                    finish_download o cfg p (stream_path o cfg (w'.store.at p).asset_hash)
                      (observed w.now false w')
                | some err ↦ fail_download o cfg p err job w'
              ])
      ])
      ≡ complete outcome files (elim r.0 [
        | none ↦ over w
        | some p ↦
            runs (on_download p job w.now) (record w { store = begin_download o cfg w.now p r.1 })
      ])

  -- handleDownload is its two parts, one right after the other.
  pub handle_download-begin :
      (outcome : Option Text) (files : Text → Option ℕ) (job : Job) (w : World)
      → handle_download o cfg outcome files job w
        ≡ complete outcome files (begin_download_job job w)
  unfolding handle_download begin_download_job end_job
  handle_download-begin outcome files job w = from outcome (get_session job.session_id w.store)
    where
      from :
          (outcome : Option Text) (r : Option Ref × MemoryStore)
          → DownloadFrom outcome files job w r
      from outcome (none, m) = refl
      from none (some p, m) = refl
      from (some err) (some p, m) = refl

  postpone_end :
      (outcome : Option Text) (files : Text → Option ℕ) (r : Option World)
      → r ≡ complete_in outcome files (elim r [ none ↦ none | some w' ↦ some (over w') ])
  postpone_end outcome files none = refl
  postpone_end outcome files (some w) = refl

  run_convert-begin :
      (outcome : Option Text) (files : Text → Option ℕ) (p : Ref) (job : Job) (w : World)
      → (if is_waiting o cfg (w.store.at p)
          then postpone o cfg p job w
          else some (run_convert o cfg outcome files p job w))
        ≡ complete_in outcome files (begin_conversion p job w)
  unfolding begin_conversion run_convert end_job
  run_convert-begin outcome files p job w = elim (Bool-cases (is_waiting o cfg (w.store.at p))) [
    | inl early ↦ rw early (postpone_end outcome files (postpone o cfg p job w))
    | inr late ↦ elim (Bool-cases (is_usable w.files (w.store.at p).source_path)) [
      | inr gone ↦ rw (late, gone) refl
      | inl there ↦ rw (late, there) (tool outcome)
    ]
  ]
    where
      tool :
          (outcome : Option Text)
          → Option.some (
              let w' = record w {
                store = begin_convert o cfg w.now p job w.store;
                files = files;
              } in
              elim outcome [
                | none ↦ finish_convert o cfg p (observed w.now true w')
                | some err ↦ fail_convert o cfg p err job w'
              ])
            ≡ some (
                end_job outcome files
                  (on_convert p job w.now)
                  (record w { store = begin_convert o cfg w.now p job w.store }))
      tool none = refl
      tool (some err) = refl

  -- handleConvert is its two parts, one right after the other.
  pub handle_convert-begin :
      (outcome : Option Text) (files : Text → Option ℕ) (job : Job) (w : World)
      → handle_convert o cfg outcome files job w
        ≡ complete_in outcome files (begin_convert_job job w)
  unfolding handle_convert begin_convert_job
  handle_convert-begin outcome files job w = from (get_session job.session_id w.store)
    where
      from :
          (r : Option Ref × MemoryStore)
          → (elim r.0 [
            | none ↦ some w
            | some p ↦
                (let w' = record w {
                  store = hydrate o cfg w.files w.now p (assign p (fill_asset_hash o) r.1);
                } in
                  if is_waiting o cfg (w'.store.at p)
                  then postpone o cfg p job w'
                  else some (run_convert o cfg outcome files p job w'))
          ])
            ≡ complete_in outcome files (elim r.0 [
              | none ↦ some (over w)
              | some p ↦ begin_conversion p job (record w {
                store = hydrate o cfg w.files w.now p (assign p (fill_asset_hash o) r.1);
              })
            ])
      from (none, m) = refl
      from (some p, m) = run_convert-begin outcome files p job _
