-- ===== src/Handlers/Sound/Workers.antt =====
-- handleDownload and handleConvert return, and keep the store and the queues well formed.
use ytmpt.Common.{
  ℕ, inl, inr, refl, sym, subst, ap, Bool, true, false, Option, none, some, [], if◌then◌else◌,
  Option-cases, Bool-cases, Returns, arith,
}
use ytmpt.Common.Text.{Text, is_empty}
use ytmpt.Config.{Config}
use ytmpt.Models.{preparing}
use ytmpt.Store.{MemoryStore, Ref, of_state, expired, get_asset, assign}
use ytmpt.Queue.{Job}
use ytmpt.Queue.Enqueue.{enqueue_lem}
use ytmpt.Handlers.{World, Outside, is_usable, download_job, observed}
use ytmpt.Handlers.Frame.{Frame}
use ytmpt.Handlers.Live.{
  IsLive, IsSound, KeepsId, assign-IsLive, set_asset-IsLive, set_variant-IsLive, save-IsLive,
  get_session-cases,
}
use ytmpt.Handlers.Prepare.{is_downloaded}
use ytmpt.Handlers.Workers.{
  fill_asset_hash, may_retry, fail_download, finish_download, begin_download, handle_download,
  stream_path, hydrate, is_waiting, postpone, lose_source, begin_convert, fail_convert,
  finish_convert, run_convert, handle_convert,
}

pub fill-KeepsId : (o : Outside) → KeepsId (fill_asset_hash o)
fill-KeepsId o s = ground arith

module _ (o : Outside) (cfg : Config) where
  -- From the answer of GetSession on.
  abbrev fetch : Option Text → (Text → Option ℕ) → Job → World → Option Ref × MemoryStore → World
  fetch outcome files job w r = elim r.0 [
    | none ↦ w
    | some p ↦
        (let w' = record w { store = begin_download o cfg w.now p r.1; files = files } in
          elim outcome [
            | none ↦
                finish_download o cfg p (stream_path o cfg (w'.store.at p).asset_hash)
                  (observed w.now false w')
            | some err ↦ fail_download o cfg p err job w'
          ])
  ]

  -- From the first look at the source on.
  abbrev work :
      Option Text → (Text → Option ℕ) → Job → World → Option Ref × MemoryStore → Option World
  work outcome files job w r = elim r.0 [
    | none ↦ some w
    | some p ↦
        (let w' = record w {
          store = hydrate o cfg w.files w.now p (assign p (fill_asset_hash o) r.1);
        } in
          if is_waiting o cfg (w'.store.at p)
          then postpone o cfg p job w'
          else some (run_convert o cfg outcome files p job w'))
  ]

module _ {F : Frame} (o : Outside) (cfg : Config) where
  pub fail_download-IsSound :
      (p : Ref) (err : Text) (job : Job) (w : World)
      → IsLive F p w.store
      → IsSound F w
      → IsSound F (fail_download o cfg p err job w)
  unfolding fail_download
  fail_download-IsSound p err job w live v = elim (Bool-cases (may_retry o cfg job)) [
    | inl again ↦
        rw again
          (record { store = v.store; kept = v.kept; dl_queue = v.dl_queue; cv_queue = v.cv_queue })
    | inr never ↦
        let saved = save-IsLive w.now p _ w.store (λ s. refl) live in
        let marked = set_asset-IsLive w.now p _ saved (w.store.at p).asset_hash [] _ in
        rw never (record {
          store = marked.valid;
          kept = marked.kept;
          dl_queue = v.dl_queue;
          cv_queue = v.cv_queue;
        })
  ]

  pub finish_download-IsSound :
      (p : Ref) (out : Text) (w : World)
      → IsLive F p w.store
      → IsSound F w
      → IsSound F (finish_download o cfg p out w)
  unfolding finish_download
  finish_download-IsSound p out w live v =
      let saved = save-IsLive w.now p _ w.store (λ s. refl) live in
      let marked = set_asset-IsLive w.now p _ saved (w.store.at p).asset_hash out _ in
      record {
        store = marked.valid;
        kept = marked.kept;
        dl_queue = v.dl_queue;
        cv_queue = v.cv_queue;
      }

  pub begin_download-IsLive :
      (now : ℕ) (p : Ref) (m : MemoryStore)
      → IsLive F p m
      → IsLive F p (begin_download o cfg now p m)
  unfolding begin_download
  begin_download-IsLive now p m live =
      assign-IsLive now p _ (save-IsLive now p _ m (λ s. refl) live) (fill_asset_hash o)
        (fill-KeepsId o)

  pub begin-IsSound :
      (files : Text → Option ℕ) (p : Ref) (m : MemoryStore) (w : World)
      → IsLive F p m
      → IsSound F w
      → IsSound F (record w { store = m; files = files })
  begin-IsSound files p m w live v = record {
    store = live.valid;
    kept = live.kept;
    dl_queue = v.dl_queue;
    cv_queue = v.cv_queue;
  }

  pub observed-IsSound :
      (start : ℕ) (is_convert : Bool) (w : World)
      → IsSound F w
      → IsSound F (observed start is_convert w)
  observed-IsSound start is_convert w v = record {
    store = v.store;
    kept = v.kept;
    dl_queue = v.dl_queue;
    cv_queue = v.cv_queue;
  }

  download-IsSound :
      (outcome : Option Text) (p : Ref) (job : Job) (w : World)
      → IsLive F p w.store
      → IsSound F w
      → IsSound F (elim outcome [
        | none ↦
            finish_download o cfg p
              (stream_path o cfg (w.store.at p).asset_hash)
              (observed w.now false w)
        | some err ↦ fail_download o cfg p err job w
      ])
  download-IsSound none p job w live v =
      finish_download-IsSound p _ (observed w.now false w) live (observed-IsSound w.now false w v)
  download-IsSound (some err) p job w live v = fail_download-IsSound p err job w live v

  -- handleDownload keeps the store and the queues well formed, whatever the tool returns.
  pub handle_download-IsSound :
      (outcome : Option Text) (files : Text → Option ℕ) (job : Job) (w : World)
      → IsSound F w
      → ¬ F.spared job.session_id
      → IsSound F (handle_download o cfg outcome files job w)
  unfolding handle_download
  handle_download-IsSound outcome files job w v far =
      elim (get_session-cases job.session_id w.store v.store v.kept far) [
        | inl missing ↦ rw (ap (λ r. r.0) missing, handle_download) v
        | inr (p, m, found, live) ↦
            let began = begin_download-IsLive w.now p m live in
            subst (λ r. IsSound F (fetch o cfg outcome files job w r)) (sym found)
              (download-IsSound outcome p job _ began (begin-IsSound files p _ w began v))
      ]

  pub hydrate-IsLive :
      (files : Text → Option ℕ) (now : ℕ) (p : Ref) (m : MemoryStore)
      → IsLive F p m
      → IsLive F p (hydrate o cfg files now p m)
  unfolding hydrate
  hydrate-IsLive files now p m live = elim (Bool-cases (is_empty (m.at p).source_path)) [
    | inr there ↦ rw there live
    | inl blank ↦ elim (Option-cases (get_asset (m.at p).asset_hash m)) [
      | inl unknown ↦ rw (blank, unknown, hydrate) live
      | inr (a, known) ↦ elim (Bool-cases (is_downloaded a)) [
        | inr pending ↦ rw (blank, known, hydrate, pending) live
        | inl fetched ↦ elim (Bool-cases (is_usable files a.source_path)) [
          | inl usable ↦
              rw (blank, known, hydrate, fetched, usable) (save-IsLive now p _ m (λ s. refl) live)
          | inr gone ↦
              rw (blank, known, hydrate, fetched, gone)
                (set_asset-IsLive now p m live (m.at p).asset_hash [] expired)
        ]
      ]
    ]
  ]

  pub postpone-Returns :
      (p : Ref) (job : Job) (w : World)
      → IsLive F p w.store
      → IsSound F w
      → Returns (IsSound F) (postpone o cfg p job w)
  unfolding postpone
  postpone-Returns p job w live v = elim (Bool-cases (is_empty (w.store.at p).source_path)) [
    | inr there ↦ rw there (
      _,
      refl,
      record { store = v.store; kept = v.kept; dl_queue = v.dl_queue; cv_queue = v.cv_queue },
    )
    | inl blank ↦
        let ((q, ok), run, e) =
          enqueue_lem w.dl_queue (download_job o w.now w.drawn (w.store.at p).id) v.dl_queue in
        let marked =
          set_asset-IsLive w.now p w.store live (w.store.at p).asset_hash [] (of_state preparing) in
        rw (blank, run, postpone)
          (
            _,
            refl,
            record {
              store = marked.valid;
              kept = marked.kept;
              dl_queue = e.valid;
              cv_queue = v.cv_queue;
            },
          )
  ]

  pub begin_convert-IsLive :
      (now : ℕ) (p : Ref) (job : Job) (m : MemoryStore)
      → IsLive F p m
      → IsLive F p (begin_convert o cfg now p job m)
  unfolding begin_convert
  begin_convert-IsLive now p job m live =
      assign-IsLive now p _
        (assign-IsLive now p _ (save-IsLive now p _ m (λ s. refl) live) (fill_asset_hash o)
          (fill-KeepsId o))
        _ (λ s. ground arith)

  pub finish_convert-IsSound :
      (p : Ref) (w : World)
      → IsLive F p w.store
      → IsSound F w
      → IsSound F (finish_convert o cfg p w)
  unfolding finish_convert
  finish_convert-IsSound p w live v =
      let saved = save-IsLive w.now p _ w.store (λ s. refl) live in
      let named = set_variant-IsLive w.now p _ saved (w.store.at p).variant_hash _ in
      record {
        store = named.valid;
        kept = named.kept;
        dl_queue = v.dl_queue;
        cv_queue = v.cv_queue;
      }

  pub fail_convert-IsSound :
      (p : Ref) (err : Text) (job : Job) (w : World)
      → IsLive F p w.store
      → IsSound F w
      → IsSound F (fail_convert o cfg p err job w)
  unfolding fail_convert
  fail_convert-IsSound p err job w live v = elim (Bool-cases (may_retry o cfg job)) [
    | inl more ↦
        rw more
          (record { store = v.store; kept = v.kept; dl_queue = v.dl_queue; cv_queue = v.cv_queue })
    | inr never ↦
        let saved = save-IsLive w.now p _ w.store (λ s. refl) live in
        rw never (record {
          store = saved.valid;
          kept = saved.kept;
          dl_queue = v.dl_queue;
          cv_queue = v.cv_queue;
        })
  ]

  pub lose_source-IsSound :
      (p : Ref) (job : Job) (w : World)
      → IsLive F p w.store
      → IsSound F w
      → IsSound F (lose_source o cfg p job w)
  unfolding lose_source
  lose_source-IsSound p job w live v =
      let marked = set_asset-IsLive w.now p w.store live (w.store.at p).asset_hash [] expired in
      let saved = save-IsLive w.now p _ _ (λ s. refl) marked in
      record {
        store = saved.valid;
        kept = saved.kept;
        dl_queue = v.dl_queue;
        cv_queue = v.cv_queue;
      }

  run_convert-IsSound :
      (outcome : Option Text) (files : Text → Option ℕ) (p : Ref) (job : Job) (w : World)
      → IsLive F p w.store
      → IsSound F w
      → IsSound F (run_convert o cfg outcome files p job w)
  unfolding run_convert
  run_convert-IsSound none files p job w live v =
      let began = begin_convert-IsLive w.now p job w.store live in
      elim (Bool-cases (is_usable w.files (w.store.at p).source_path)) [
        | inr gone ↦ rw gone (lose_source-IsSound p job w live v)
        | inl there ↦ rw there (
            finish_convert-IsSound p _ began
              (observed-IsSound w.now true _ (begin-IsSound files p _ w began v)))
      ]
  run_convert-IsSound (some err) files p job w live v =
      let began = begin_convert-IsLive w.now p job w.store live in
      elim (Bool-cases (is_usable w.files (w.store.at p).source_path)) [
        | inr gone ↦ rw gone (lose_source-IsSound p job w live v)
        | inl there ↦
            rw there (fail_convert-IsSound p err job _ began (begin-IsSound files p _ w began v))
      ]

  work-Returns :
      (outcome : Option Text) (files : Text → Option ℕ) (job : Job) (w : World) (p : Ref)
      (m : MemoryStore)
      → IsLive F p m
      → IsSound F w
      → Returns (IsSound F) (work o cfg outcome files job w (some p, m))
  work-Returns outcome files job w p m live v =
      let ready =
        hydrate-IsLive w.files w.now p _
          (assign-IsLive w.now p m live (fill_asset_hash o) (fill-KeepsId o)) in
      let now = hydrate o cfg w.files w.now p (assign p (fill_asset_hash o) m) in
      let v' = begin-IsSound w.files p now w ready v in
      elim (Bool-cases (is_waiting o cfg (now.at p))) [
        | inl early ↦ rw early (postpone-Returns p job _ ready v')
        | inr late ↦ rw late (_, refl, run_convert-IsSound outcome files p job _ ready v')
      ]

  -- handleConvert returns, and keeps the store and the queues well formed, whatever the tool
  -- returns.
  pub handle_convert-Returns :
      (outcome : Option Text) (files : Text → Option ℕ) (job : Job) (w : World)
      → IsSound F w
      → ¬ F.spared job.session_id
      → Returns (IsSound F) (handle_convert o cfg outcome files job w)
  unfolding handle_convert
  handle_convert-Returns outcome files job w v far =
      elim (get_session-cases job.session_id w.store v.store v.kept far) [
        | inl missing ↦ rw (ap (λ r. r.0) missing, handle_convert) (_, refl, v)
        | inr (p, m, found, live) ↦
            subst (λ r. Returns (IsSound F) (work o cfg outcome files job w r)) (sym found)
              (work-Returns outcome files job w p m live v)
      ]
