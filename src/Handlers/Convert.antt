-- ===== src/Handlers/Convert.antt =====
-- internal/handlers/api.go: handleConvertReq. The decoded request is an argument, `none` if the
-- body does not decode, and so is the X-API-Key header.
use ytmpt.Common.{ℕ, ◌+◌, Bool, true, false, ◌||◌, Option, none, some, [], ◌++◌, if◌then◌else◌}
use ytmpt.Common.Text.{Text, lit, is_empty, to_lower, has_prefix}
use ytmpt.Common.Int.{ℤ, pos, negsuc}
use ytmpt.Config.{Config}
use ytmpt.Models.{preparing, completed, queued, converting, state_text, ConvertRequest}
use ytmpt.Queue.{Job, job_convert, enqueue}
use ytmpt.Store.{
  MemoryStore, Ref, Asset, blank, expired, of_state, assign, get_session, set_asset, get_asset,
  set_variant, get_variant,
}
use ytmpt.Util.Clip.{parse_clip_bounds}
use ytmpt.Handlers.{
  World, Response, accepted_body, write_err, is_usable, new_id, Outside, asset_hash_of,
  download_job, save, is_too_long, too_long,
}
use ytmpt.Handlers.Flow.{ellipsis}
use ytmpt.Handlers.Prepare.{is_downloaded, is_absent}

-- if total < 0 { total = 0 }
abbrev pub at_least_zero : ℤ → ℤ
at_least_zero (pos n) = pos n
at_least_zero (negsuc n) = pos 0

-- The priority of an API key.
unfoldable pub priority_of : Text → ℕ
priority_of api_key =
    let lk = to_lower api_key in
    if has_prefix lk (lit "premium") || (has_prefix lk (lit "pro") || has_prefix lk (lit "vip"))
    then 50
    else 5

-- The text whose hash names a variant.
abbrev pub variant_text : Text → Text → Text → Text → Text
variant_text asset quality start end =
    asset ++ (lit "|" ++ (quality ++ (lit "|" ++ (start ++ (lit "|" ++ end)))))

-- The session's own source, if the file is there; otherwise the asset expires.
unfoldable pub check_source : (Text → Option ℕ) → Ref → MemoryStore → Bool × MemoryStore
check_source files p m =
    if is_empty (m.at p).source_path
    then (false, m)
    else if is_usable files (m.at p).source_path
    then (true, m)
    else (
      false,
      assign p (λ s. record s { source_path = [] }) (set_asset (m.at p).asset_hash [] expired m),
    )

-- The cached asset, if its file is there; otherwise it expires.
unfoldable pub check_asset : (Text → Option ℕ) → Ref → MemoryStore → Bool × MemoryStore
check_asset files p m = elim (get_asset (m.at p).asset_hash m) [
  | none ↦ (false, m)
  | some a ↦
      if is_downloaded a
      then (if is_usable files a.source_path
          then (true, assign p (λ s. record s { source_path = a.source_path }) m)
          else (false, set_asset (m.at p).asset_hash [] expired m))
      else (false, m)
]

-- Whether a source is ready, after both checks.
unfoldable pub find_source : (Text → Option ℕ) → Ref → MemoryStore → Bool × MemoryStore
unfolding check_source check_asset
find_source files p m =
    let (own, checked) = check_source files p m in
    if own then (true, checked) else check_asset files p checked

-- !ok3 || astate == "" || astate == failed || astate == "expired"
abbrev pub wants_download : Option Asset → Bool
wants_download none = true
wants_download (some a) = elim a.state [
  | expired ↦ true
  | blank ↦ true
  | of_state s ↦ is_absent (of_state s)
]

-- A stage of the handler: it goes on, or it has answered.
pub data Stage : Type 0 where
  goes_on : World → Stage
  answers : Response → World → Stage

abbrev pub accepted_response : Text → Text → Text → Response
accepted_response id status message = record {
  code = 202;
  body =
      accepted_body
        (record { conversion_id = id; status = status; queue_position = 0; message = message });
}

module _ (o : Outside) (cfg : Config) where
  -- The two hashes, and the first UpdateSession.
  unfoldable pub name_variant : ℕ → Ref → ConvertRequest → MemoryStore → MemoryStore
  name_variant now p req m =
      let asset = asset_hash_of o (m.at p).url in
      let variant = o.hash_string (variant_text asset req.quality req.start_time req.end_time) in
      save now p (λ s. record s { asset_hash = asset; variant_hash = variant }) m

  -- The variant exists: it completes the session at once, or its mapping is cleared.
  unfoldable pub reuse_variant : Ref → World → Stage
  reuse_variant p w =
      let hash = (w.store.at p).variant_hash in
      elim (get_variant hash w.store) [
        | none ↦ goes_on w
        | some out ↦
            if is_empty out
            then goes_on w
            else if is_usable w.files out
            then answers
                (accepted_response (w.store.at p).id (state_text completed)
                  (lit "Reused existing converted output."))
                (record w {
                  store =
                      save w.now p (λ s. record s { output_path = out; state = completed }) w.store;
                })
            else goes_on (record w {
              store =
                  save w.now p (λ s. record s { output_path = [] }) (set_variant hash [] w.store);
            })
      ]

  -- A download job, unless a source is ready or an asset is on its way.
  unfoldable pub require_download : Bool → Ref → World → Option Stage
  require_download ready p w =
      let hash = (w.store.at p).asset_hash in
      let marked = record w {
        store = set_asset hash [] (of_state preparing) w.store;
        drawn = w.drawn + 1;
      } in
      if ready
      then some (goes_on w)
      else if wants_download (get_asset hash w.store)
      then elim (enqueue w.dl_queue (download_job o w.now w.drawn (w.store.at p).id)) [
        | none ↦ none
        | some (q, ok) ↦
            if ok
            then some (goes_on (record marked { dl_queue = q }))
            else some (answers (write_err 503 (lit "queue full")) (record marked { dl_queue = q }))
      ]
      else some (goes_on w)

  abbrev pub convert_job : Ref → ConvertRequest → Text → World → Job
  convert_job p req api_key w = record {
    id = new_id w.now (o.random w.drawn);
    kind = job_convert;
    session_id = (w.store.at p).id;
    quality = req.quality;
    start_time = req.start_time;
    end_time = req.end_time;
    enqueued_at = w.now;
    priority = priority_of api_key;
    api_key = api_key;
    attempts = 0;
  }

  -- The conversion job, the new state, and the answer.
  unfoldable pub enqueue_convert :
      Bool → Ref → ConvertRequest → Text → World → Option (Response × World)
  enqueue_convert ready p req api_key w = elim (enqueue w.cv_queue (convert_job p req api_key w)) [
    | none ↦ none
    | some (q, ok) ↦
        (let w' = record w { cv_queue = q; drawn = w.drawn + 1 } in
          let state = if ready then converting else queued in
          if ok
          then some (
            accepted_response (w.store.at p).id (state_text preparing)
                (lit "Request accepted. Preparing your audio" ++ ellipsis),
            record w' { store = save w.now p (λ s. record s { state = state }) w.store },
          )
          else some (write_err 503 (lit "queue full"), w'))
  ]

  -- From the check of the source on.
  unfoldable pub queue_conversion : Ref → ConvertRequest → Text → World → Option (Response × World)
  unfolding find_source require_download enqueue_convert
  queue_conversion p req api_key w =
      let (ready, found) = find_source w.files p w.store in
      elim (require_download ready p (record w { store = found })) [
        | none ↦ none
        | some stage ↦ elim stage [
          | answers r w' ↦ some (r, w')
          | goes_on w' ↦ enqueue_convert ready p req api_key w'
        ]
      ]

  -- From the validation of the session on.
  unfoldable pub convert_session : Ref → ConvertRequest → Text → World → Option (Response × World)
  unfolding name_variant reuse_variant queue_conversion
  convert_session p req api_key w =
      let total = (w.store.at p).meta.duration in
      if is_too_long cfg.max_video_duration_seconds total
      then some (too_long cfg.max_video_duration_seconds total, w)
      else elim (parse_clip_bounds req.start_time req.end_time (pos 0) (at_least_zero total)) [
        | none ↦ some (write_err 400 (lit "invalid start/end"), w)
        | some _ ↦ elim (reuse_variant p (record w { store = name_variant w.now p req w.store })) [
          | answers r w' ↦ some (r, w')
          | goes_on w' ↦ queue_conversion p req api_key w'
        ]
      ]

  unfoldable pub handle_convert_req :
      Option ConvertRequest → Text → World → Option (Response × World)
  unfolding convert_session
  handle_convert_req none api_key w = some (write_err 400 (lit "invalid request"), w)
  handle_convert_req (some req) api_key w =
      if is_empty req.conversion_id
      then some (write_err 400 (lit "invalid request"), w)
      else (let (found, m) = get_session req.conversion_id w.store in
          elim found [
            | none ↦ some (write_err 404 (lit "session not found"), w)
            | some p ↦ convert_session p req api_key (record w { store = m })
          ])
