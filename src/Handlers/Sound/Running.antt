-- ===== src/Handlers/Sound/Running.antt =====
-- The two parts of handleDownload and of handleConvert keep the store and the queues well formed.
use ytmpt.Common.{ℕ, inl, inr, refl, ap, true, false, Option, none, some, Bool-cases, Returns}
use ytmpt.Common.Text.{Text}
use ytmpt.Config.{Config}
use ytmpt.Queue.{Job}
use ytmpt.Store.{Ref}
use ytmpt.Handlers.{World, Outside, is_usable}
use ytmpt.Handlers.Frame.{Frame}
use ytmpt.Handlers.Live.{IsLive, IsSound, IsSound-store, assign-IsLive, get_session-cases}
use ytmpt.Handlers.Workers.{fill_asset_hash, is_waiting}
use ytmpt.Handlers.Running.{
  Running, on_download, on_convert, ref_of, Started, over, runs, begin_download_job,
  begin_conversion, begin_convert_job, end_job,
}
use ytmpt.Handlers.Sound.Workers.{
  fill-KeepsId, observed-IsSound, fail_download-IsSound, finish_download-IsSound,
  begin_download-IsLive, begin-IsSound, hydrate-IsLive, postpone-Returns, lose_source-IsSound,
  begin_convert-IsLive, finish_convert-IsSound, fail_convert-IsSound,
}

-- The pointer of a goroutine that waits for its tool may still be written.
abbrev pub IsStarted : Frame → Started → Type 0
IsStarted F (over w) = IsSound F w
IsStarted F (runs r w) = IsLive F (ref_of r) w.store × IsSound F w

module _ {F : Frame} (o : Outside) (cfg : Config) where
  pub begin_download_job-IsStarted :
      (job : Job) (w : World)
      → IsSound F w
      → ¬ F.spared job.session_id
      → IsStarted F (begin_download_job o cfg job w)
  unfolding begin_download_job
  begin_download_job-IsStarted job w v far =
      elim (get_session-cases job.session_id w.store v.store v.kept far) [
        | inl missing ↦ rw (ap (λ r. r.0) missing, begin_download_job) v
        | inr (p, m, found, live) ↦
            let began = begin_download-IsLive o cfg w.now p m live in
            rw (ap (λ r. r.0) found, begin_download_job, ap (λ r. r.1) found)
              (began, IsSound-store p w _ began v)
      ]

  begin_conversion-Returns :
      (p : Ref) (job : Job) (w : World)
      → IsLive F p w.store
      → IsSound F w
      → Returns (IsStarted F) (begin_conversion o cfg p job w)
  unfolding begin_conversion
  begin_conversion-Returns p job w live v = elim (Bool-cases (is_waiting o cfg (w.store.at p))) [
    | inl early ↦
        let (w', run, v') = postpone-Returns o cfg p job w live v in
        rw (early, run, begin_conversion) (_, refl, v')
    | inr late ↦ elim (Bool-cases (is_usable w.files (w.store.at p).source_path)) [
      | inr gone ↦ rw (late, gone) (_, refl, lose_source-IsSound o cfg p job w live v)
      | inl there ↦
          let began = begin_convert-IsLive o cfg w.now p job w.store live in
          rw (late, there) (_, refl, (began, IsSound-store p w _ began v))
    ]
  ]

  pub begin_convert_job-Returns :
      (job : Job) (w : World)
      → IsSound F w
      → ¬ F.spared job.session_id
      → Returns (IsStarted F) (begin_convert_job o cfg job w)
  unfolding begin_convert_job
  begin_convert_job-Returns job w v far =
      elim (get_session-cases job.session_id w.store v.store v.kept far) [
        | inl missing ↦ rw (ap (λ r. r.0) missing, begin_convert_job) (_, refl, v)
        | inr (p, m, found, live) ↦
            let filled = assign-IsLive w.now p m live (fill_asset_hash o) (fill-KeepsId o) in
            let ready = hydrate-IsLive o cfg w.files w.now p _ filled in
            rw (ap (λ r. r.0) found, begin_convert_job, ap (λ r. r.1) found)
              (begin_conversion-Returns p job _ ready (IsSound-store p w _ ready v))
      ]

  pub end_job-IsSound :
      (outcome : Option Text) (files : Text → Option ℕ) (r : Running) (w : World)
      → IsLive F (ref_of r) w.store
      → IsSound F w
      → IsSound F (end_job o cfg outcome files r w)
  unfolding end_job
  end_job-IsSound none files (on_download p job start) w live v =
      finish_download-IsSound o cfg p _ _ live
        (observed-IsSound o cfg start false _ (begin-IsSound o cfg files p w.store w live v))
  end_job-IsSound (some err) files (on_download p job start) w live v =
      fail_download-IsSound o cfg p err job _ live (begin-IsSound o cfg files p w.store w live v)
  end_job-IsSound none files (on_convert p job start) w live v =
      finish_convert-IsSound o cfg p _ live
        (observed-IsSound o cfg start true _ (begin-IsSound o cfg files p w.store w live v))
  end_job-IsSound (some err) files (on_convert p job start) w live v =
      fail_convert-IsSound o cfg p err job _ live (begin-IsSound o cfg files p w.store w live v)
