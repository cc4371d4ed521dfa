-- ===== src/Handlers/Sound/Convert.antt =====
-- handleConvertReq returns, and keeps the store and the queues well formed.
use ytmpt.Common.{
  ℕ, ◌≡◌, ◌⊎◌, inl, inr, refl, ap, Bool, true, false, Option, none, some, [], Option-cases,
  Bool-cases, Returns,
}
use ytmpt.Common.Text.{Text, lit, is_empty}
use ytmpt.Common.Int.{pos}
use ytmpt.Config.{Config}
use ytmpt.Models.{ConvertRequest, preparing}
use ytmpt.Store.{MemoryStore, Ref, of_state, expired, get_asset, get_variant, get_session}
use ytmpt.Queue.Enqueue.{enqueue_lem}
use ytmpt.Util.Clip.{parse_clip_bounds}
use ytmpt.Handlers.{World, Response, Outside, is_usable, download_job, is_too_long, write_err}
use ytmpt.Handlers.Frame.{Frame}
use ytmpt.Handlers.Live.{
  IsLive, IsSound, IsSound-store, assign-IsLive, set_asset-IsLive, set_variant-IsLive, save-IsLive,
  get_session-cases,
}
use ytmpt.Handlers.Prepare.{is_downloaded}
use ytmpt.Handlers.Convert.{
  check_source, check_asset, find_source, wants_download, Stage, goes_on, answers, name_variant,
  reuse_variant, require_download, convert_job, enqueue_convert, queue_conversion, convert_session,
  at_least_zero, handle_convert_req,
}

-- The session that the request names.
abbrev pub conversion_of : Option ConvertRequest → Text
conversion_of none = []
conversion_of (some req) = req.conversion_id

-- What a stage leaves to the next one.
abbrev pub IsStage : Frame → Ref → Stage → Type 0
IsStage F p (goes_on w) = IsLive F p w.store × IsSound F w
IsStage F p (answers r w) = IsSound F w

-- A sound stage is followed by a handler that returns.
follow-Returns :
    {F : Frame} (p : Ref) (stage : Stage) (f : World → Option (Response × World))
    → IsStage F p stage
    → ((w : World) → IsLive F p w.store → IsSound F w → Returns (λ r. IsSound F r.1) (f w))
    → Returns (λ r. IsSound F r.1) (elim stage [ answers r w ↦ some (r, w) | goes_on w ↦ f w ])
follow-Returns p (answers r w) f s g = (_, refl, s)
follow-Returns p (goes_on w) f s g = g w s.0 s.1

check_source-IsLive :
    {F : Frame} (files : Text → Option ℕ) (p : Ref) (m : MemoryStore)
    → IsLive F p m
    → IsLive F p (check_source files p m).1
unfolding check_source
check_source-IsLive files p m live = elim (Bool-cases (is_empty (m.at p).source_path)) [
  | inl blank ↦ rw blank live
  | inr filled ↦ elim (Bool-cases (is_usable files (m.at p).source_path)) [
    | inl there ↦ rw (filled, there) live
    | inr gone ↦
        rw (filled, gone)
          (assign-IsLive 0 p _ (set_asset-IsLive 0 p m live (m.at p).asset_hash [] expired) _
            (λ s. refl))
  ]
]

check_asset-IsLive :
    {F : Frame} (files : Text → Option ℕ) (p : Ref) (m : MemoryStore)
    → IsLive F p m
    → IsLive F p (check_asset files p m).1
unfolding check_asset
check_asset-IsLive files p m live = elim (Option-cases (get_asset (m.at p).asset_hash m)) [
  | inl unknown ↦ rw (unknown, check_asset) live
  | inr (a, known) ↦ elim (Bool-cases (is_downloaded a)) [
    | inr pending ↦ rw (known, check_asset, pending) live
    | inl fetched ↦ elim (Bool-cases (is_usable files a.source_path)) [
      | inl there ↦ rw (known, check_asset, fetched, there) (assign-IsLive 0 p m live _ (λ s. refl))
      | inr gone ↦
          rw (known, check_asset, fetched, gone)
            (set_asset-IsLive 0 p m live (m.at p).asset_hash [] expired)
    ]
  ]
]

find_source-IsLive :
    {F : Frame} (files : Text → Option ℕ) (p : Ref) (m : MemoryStore)
    → IsLive F p m
    → IsLive F p (find_source files p m).1
unfolding find_source
find_source-IsLive files p m live =
    let checked = check_source-IsLive files p m live in
    elim (Bool-cases (check_source files p m).0) [
      | inl own ↦ rw own checked
      | inr other ↦ rw other (check_asset-IsLive files p (check_source files p m).1 checked)
    ]

module _ (o : Outside) (cfg : Config) where
  abbrev answer :
      ConvertRequest → Text → World → Option Ref × MemoryStore → Option (Response × World)
  answer req key w r = elim r.0 [
    | none ↦ some (write_err 404 (lit "session not found"), w)
    | some p ↦ convert_session o cfg p req key (record w { store = r.1 })
  ]

module _ {F : Frame} (o : Outside) (cfg : Config) where
  reuse_variant-IsStage :
      (p : Ref) (w : World)
      → IsLive F p w.store
      → IsSound F w
      → IsStage F p (reuse_variant o cfg p w)
  unfolding reuse_variant
  reuse_variant-IsStage p w live v =
      elim (Option-cases (get_variant (w.store.at p).variant_hash w.store)) [
        | inl unknown ↦ rw (unknown, reuse_variant) (live, v)
        | inr (out, known) ↦ elim (Bool-cases (is_empty out)) [
          | inl blank ↦ rw (known, reuse_variant, blank) (live, v)
          | inr filled ↦ elim (Bool-cases (is_usable w.files out)) [
            | inl there ↦
                let saved = save-IsLive w.now p _ w.store (λ s. refl) live in
                rw (known, reuse_variant, filled, there) (IsSound-store p w _ saved v)
            | inr gone ↦
                let cleared =
                  save-IsLive w.now p _ _ (λ s. refl)
                    (set_variant-IsLive w.now p w.store live (w.store.at p).variant_hash []) in
                rw (known, reuse_variant, filled, gone) (cleared, IsSound-store p w _ cleared v)
          ]
        ]
      ]

  require_download-Returns :
      (ready : Bool) (p : Ref) (w : World)
      → IsLive F p w.store
      → IsSound F w
      → Returns (IsStage F p) (require_download o cfg ready p w)
  unfolding require_download
  require_download-Returns true p w live v = (_, refl, (live, v))
  require_download-Returns false p w live v =
      elim (Bool-cases (wants_download (get_asset (w.store.at p).asset_hash w.store))) [
        | inr coming ↦ rw coming (_, refl, (live, v))
        | inl wanted ↦
            let marked =
              set_asset-IsLive w.now p w.store live (w.store.at p).asset_hash []
                (of_state preparing) in
            let ((q, ok), run, e) =
              enqueue_lem w.dl_queue (download_job o w.now w.drawn (w.store.at p).id) v.dl_queue in
            elim (Bool-cases ok) [
              | inl room ↦
                  rw (wanted, run, require_download, room)
                    (
                      _,
                      refl,
                      (
                        marked,
                        record {
                          store = marked.valid;
                          kept = marked.kept;
                          dl_queue = e.valid;
                          cv_queue = v.cv_queue;
                        },
                      ),
                    )
              | inr full ↦
                  rw (wanted, run, require_download, full)
                    (
                      _,
                      refl,
                      record {
                        store = marked.valid;
                        kept = marked.kept;
                        dl_queue = e.valid;
                        cv_queue = v.cv_queue;
                      },
                    )
            ]
      ]

  enqueue_convert-Returns :
      (ready : Bool) (p : Ref) (req : ConvertRequest) (key : Text) (w : World)
      → IsLive F p w.store
      → IsSound F w
      → Returns (λ r. IsSound F r.1) (enqueue_convert o cfg ready p req key w)
  unfolding enqueue_convert
  enqueue_convert-Returns ready p req key w live v =
      let ((q, ok), run, e) = enqueue_lem w.cv_queue (convert_job o cfg p req key w) v.cv_queue in
      let saved = save-IsLive w.now p _ w.store (λ s. refl) live in
      elim (Bool-cases ok) [
        | inl room ↦
            rw (run, enqueue_convert, room)
              (
                _,
                refl,
                record {
                  store = saved.valid;
                  kept = saved.kept;
                  dl_queue = v.dl_queue;
                  cv_queue = e.valid;
                },
              )
        | inr full ↦
            rw (run, enqueue_convert, full)
              (
                _,
                refl,
                record {
                  store = v.store;
                  kept = v.kept;
                  dl_queue = v.dl_queue;
                  cv_queue = e.valid;
                },
              )
      ]

  queue_conversion-Returns :
      (p : Ref) (req : ConvertRequest) (key : Text) (w : World)
      → IsLive F p w.store
      → IsSound F w
      → Returns (λ r. IsSound F r.1) (queue_conversion o cfg p req key w)
  unfolding queue_conversion
  queue_conversion-Returns p req key w live v =
      let found = find_source-IsLive w.files p w.store live in
      let ready = (find_source w.files p w.store).0 in
      let (stage, run, s) =
        require_download-Returns ready p _ found (IsSound-store p w _ found v) in
      rw (run, queue_conversion)
        (follow-Returns p stage (enqueue_convert o cfg ready p req key) s
          (λ w'. enqueue_convert-Returns ready p req key w'))

  name_variant-IsLive :
      (now : ℕ) (p : Ref) (req : ConvertRequest) (m : MemoryStore)
      → IsLive F p m
      → IsLive F p (name_variant o cfg now p req m)
  unfolding name_variant
  name_variant-IsLive now p req m live = save-IsLive now p _ m (λ s. refl) live

  convert_session-Returns :
      (p : Ref) (req : ConvertRequest) (key : Text) (w : World)
      → IsLive F p w.store
      → IsSound F w
      → Returns (λ r. IsSound F r.1) (convert_session o cfg p req key w)
  unfolding convert_session
  convert_session-Returns p req key w live v =
      let total = (w.store.at p).meta.duration in
      let named = name_variant-IsLive w.now p req w.store live in
      elim (Bool-cases (is_too_long cfg.max_video_duration_seconds total)) [
        | inl long ↦ rw long (_, refl, v)
        | inr short ↦
            elim (Option-cases
              (parse_clip_bounds req.start_time req.end_time (pos 0) (at_least_zero total))) [
                | inl refused ↦ rw (short, refused, convert_session) (_, refl, v)
                | inr (bounds, parsed) ↦
                    rw (short, parsed, convert_session)
                      (follow-Returns p _ (queue_conversion o cfg p req key)
                        (reuse_variant-IsStage p _ named (IsSound-store p w _ named v))
                        (λ w'. queue_conversion-Returns p req key w'))
              ]
      ]

  answer-Returns :
      (req : ConvertRequest) (key : Text) (w : World)
      → IsSound F w
      → (get_session req.conversion_id w.store ≡ (none, w.store))
        ⊎ ((p : Ref) × (m : MemoryStore) × (get_session req.conversion_id w.store ≡ (some p, m))
            × IsLive F p m)
      → Returns
          (λ r. IsSound F r.1)
          (answer o cfg req key w (get_session req.conversion_id w.store))
  answer-Returns req key w v (inl missing) = rw (ap (λ r. r.0) missing, answer) (_, refl, v)
  answer-Returns req key w v (inr (p, m, found, live)) =
      rw (ap (λ r. r.0) found, answer, ap (λ r. r.1) found)
        (convert_session-Returns p req key (record w { store = m }) live
          (IsSound-store p w m live v))

  -- handleConvertReq answers every request, and keeps the store and the queues well formed.
  pub handle_convert_req-Returns :
      (req : Option ConvertRequest) (key : Text) (w : World)
      → IsSound F w
      → ¬ F.spared (conversion_of req)
      → Returns (λ r. IsSound F r.1) (handle_convert_req o cfg req key w)
  unfolding handle_convert_req
  handle_convert_req-Returns none key w v far = (_, refl, v)
  handle_convert_req-Returns (some req) key w v far =
      elim (Bool-cases (is_empty req.conversion_id)) [
        | inl blank ↦ rw blank (_, refl, v)
        | inr filled ↦ rw filled (
            answer-Returns req key w v
              (get_session-cases req.conversion_id w.store v.store v.kept far))
      ]
