-- ===== src/Handlers/Orderly/Requests.antt =====
-- A request adds first tries only.
use ytmpt.Common.{
  not, ◌&&◌, inl, inr, refl, Bool, true, false, Option, none, some, Option-cases, Bool-cases,
  Returns,
}
use ytmpt.Common.Text.{Text, is_empty}
use ytmpt.Common.Int.{pos}
use ytmpt.Config.{Config}
use ytmpt.Models.{PrepareRequest, ConvertRequest, MetaLite}
use ytmpt.Store.{Ref, get_session, get_asset, get_variant, allocate, create_session}
use ytmpt.Queue.{enqueue}
use ytmpt.Util.Clip.{parse_clip_bounds}
use ytmpt.Util.Domain.{is_allowed_domain}
use ytmpt.Handlers.{
  World, Response, Outside, download_job, parse_host, is_too_long, is_usable, new_id,
}
use ytmpt.Handlers.Status.{refresh, has_output, handle_status, handle_delete}
use ytmpt.Handlers.Prepare.{
  start_download, ensure_download, prepare_session, handle_prepare, needs_download, new_session,
}
use ytmpt.Handlers.Convert.{
  Stage, goes_on, answers, find_source, wants_download, reuse_variant, require_download,
  convert_job, name_variant, enqueue_convert, queue_conversion, convert_session, at_least_zero,
  handle_convert_req,
}
use ytmpt.Handlers.Orderly.{AreOrderly, IsOrderly, enqueue-IsCapped}

module _ (cfg : Config) where
  refresh-IsOrderly : (p : Ref) (w : World) → IsOrderly cfg w → IsOrderly cfg (refresh p w)
  unfolding refresh
  refresh-IsOrderly p w v =
      elim (Bool-cases
        (has_output (w.store.at p) && not (is_usable w.files (w.store.at p).output_path))) [
          | inl gone ↦ rw gone v
          | inr there ↦ rw there v
        ]

  pub handle_status-IsOrderly :
      (id : Text) (w : World) → IsOrderly cfg w → IsOrderly cfg (handle_status id w).1
  unfolding handle_status
  handle_status-IsOrderly id w v = elim (Option-cases (get_session id w.store).0) [
    | inl missing ↦ rw (missing, handle_status) v
    | inr (p, found) ↦
        rw (found, handle_status)
          (refresh-IsOrderly p (record w { store = (get_session id w.store).1 }) v)
  ]

  pub handle_delete-IsOrderly :
      (id : Text) (w : World) → IsOrderly cfg w → IsOrderly cfg (handle_delete id w).1
  unfolding handle_delete
  handle_delete-IsOrderly id w v = elim (Option-cases (get_session id w.store).0) [
    | inl missing ↦ rw (missing, handle_delete) v
    | inr (p, found) ↦ rw (found, handle_delete) v
  ]

module _ (o : Outside) (cfg : Config) where
  -- The download queue with a fresh job.
  fresh-IsOrderly :
      (id : Text) (w : World)
      → IsOrderly cfg w
      → Returns
          (λ r. AreOrderly cfg r.0 w.cv_queue w.sleepers w.metrics)
          (enqueue w.dl_queue (download_job o w.now w.drawn id))
  fresh-IsOrderly id w v =
      let (r, run, capped) =
        enqueue-IsCapped cfg w.dl_queue (download_job o w.now w.drawn id) v.dl_queue refl in
      (
        r,
        run,
        record {
          dl_queue = capped;
          cv_queue = v.cv_queue;
          sleepers = v.sleepers;
          counted = v.counted;
        },
      )

  ensure_download-IsOrderly :
      (p : Ref) (id hash : Text) (w : World)
      → IsOrderly cfg w
      → Returns (λ r. IsOrderly cfg r.1) (ensure_download o cfg p id hash w)
  unfolding ensure_download start_download
  ensure_download-IsOrderly p id hash w v =
      let ((q, ok), run, v') = fresh-IsOrderly id w v in
      elim (Bool-cases (needs_download w.files (get_asset hash w.store))) [
        | inr there ↦ rw there (_, refl, v)
        | inl needed ↦ elim (Bool-cases ok) [
          | inl room ↦ rw (needed, run, start_download, room) (_, refl, v')
          | inr full ↦ rw (needed, run, start_download, full) (_, refl, v')
        ]
      ]

  prepare_session-IsOrderly :
      (url : Text) (meta : MetaLite) (w : World)
      → IsOrderly cfg w
      → Returns (λ r. IsOrderly cfg r.1) (prepare_session o cfg url meta w)
  unfolding prepare_session allocate
  prepare_session-IsOrderly url meta w v =
      let id = new_id w.now (o.random w.drawn) in
      let m = (allocate (new_session id url) w.store).1 in
      elim (Bool-cases (create_session w.now w.store.next m).0) [
        | inl unused ↦ rw unused (ensure_download-IsOrderly w.store.next id _ _ v)
        | inr used ↦ rw used (_, refl, v)
      ]

  pub handle_prepare-IsOrderly :
      (req : Option PrepareRequest) (meta : MetaLite) (w : World)
      → IsOrderly cfg w
      → Returns (λ r. IsOrderly cfg r.1) (handle_prepare o cfg req meta w)
  unfolding handle_prepare
  handle_prepare-IsOrderly none meta w v = (_, refl, v)
  handle_prepare-IsOrderly (some req) meta w v = elim (Bool-cases (is_empty req.url)) [
    | inl blank ↦ rw blank (_, refl, v)
    | inr filled ↦
        elim (Bool-cases (is_allowed_domain (parse_host o) req.url cfg.allowed_domains)) [
          | inr other ↦ rw (filled, other) (_, refl, v)
          | inl allowed ↦
              elim (Bool-cases (is_too_long cfg.max_video_duration_seconds meta.duration)) [
                | inl long ↦ rw (filled, allowed, long) (_, refl, v)
                | inr short ↦
                    rw (filled, allowed, short) (prepare_session-IsOrderly req.url meta w v)
              ]
        ]
  ]

  abbrev IsOrderlyStage : Stage → Type 0
  IsOrderlyStage (goes_on w) = IsOrderly cfg w
  IsOrderlyStage (answers r w) = IsOrderly cfg w

  follow-IsOrderly :
      (stage : Stage) (f : World → Option (Response × World))
      → IsOrderlyStage stage
      → ((w : World) → IsOrderly cfg w → Returns (λ r. IsOrderly cfg r.1) (f w))
      → Returns
          (λ r. IsOrderly cfg r.1)
          (elim stage [ answers r w ↦ some (r, w) | goes_on w ↦ f w ])
  follow-IsOrderly (answers r w) f s g = (_, refl, s)
  follow-IsOrderly (goes_on w) f s g = g w s

  reuse_variant-IsOrderly :
      (p : Ref) (w : World) → IsOrderly cfg w → IsOrderlyStage (reuse_variant o cfg p w)
  unfolding reuse_variant
  reuse_variant-IsOrderly p w v =
      elim (Option-cases (get_variant (w.store.at p).variant_hash w.store)) [
        | inl unknown ↦ rw (unknown, reuse_variant) v
        | inr (out, known) ↦ elim (Bool-cases (is_empty out)) [
          | inl blank ↦ rw (known, reuse_variant, blank) v
          | inr filled ↦ elim (Bool-cases (is_usable w.files out)) [
            | inl there ↦ rw (known, reuse_variant, filled, there) v
            | inr gone ↦ rw (known, reuse_variant, filled, gone) v
          ]
        ]
      ]

  require_download-IsOrderly :
      (ready : Bool) (p : Ref) (w : World)
      → IsOrderly cfg w
      → Returns IsOrderlyStage (require_download o cfg ready p w)
  unfolding require_download
  require_download-IsOrderly true p w v = (_, refl, v)
  require_download-IsOrderly false p w v =
      let ((q, ok), run, v') = fresh-IsOrderly (w.store.at p).id w v in
      elim (Bool-cases (wants_download (get_asset (w.store.at p).asset_hash w.store))) [
        | inr coming ↦ rw coming (_, refl, v)
        | inl wanted ↦ elim (Bool-cases ok) [
          | inl room ↦ rw (wanted, run, require_download, room) (_, refl, v')
          | inr full ↦ rw (wanted, run, require_download, full) (_, refl, v')
        ]
      ]

  enqueue_convert-IsOrderly :
      (ready : Bool) (p : Ref) (req : ConvertRequest) (key : Text) (w : World)
      → IsOrderly cfg w
      → Returns (λ r. IsOrderly cfg r.1) (enqueue_convert o cfg ready p req key w)
  unfolding enqueue_convert
  enqueue_convert-IsOrderly ready p req key w v =
      let ((q, ok), run, capped) =
        enqueue-IsCapped cfg w.cv_queue (convert_job o cfg p req key w) v.cv_queue refl in
      let v' : AreOrderly cfg w.dl_queue q w.sleepers w.metrics = record {
        dl_queue = v.dl_queue;
        cv_queue = capped;
        sleepers = v.sleepers;
        counted = v.counted;
      } in
      elim (Bool-cases ok) [
        | inl room ↦ rw (run, enqueue_convert, room) (_, refl, v')
        | inr full ↦ rw (run, enqueue_convert, full) (_, refl, v')
      ]

  queue_conversion-IsOrderly :
      (p : Ref) (req : ConvertRequest) (key : Text) (w : World)
      → IsOrderly cfg w
      → Returns (λ r. IsOrderly cfg r.1) (queue_conversion o cfg p req key w)
  unfolding queue_conversion
  queue_conversion-IsOrderly p req key w v =
      let ready = (find_source w.files p w.store).0 in
      let (stage, run, s) =
        require_download-IsOrderly ready p (record w { store = (find_source w.files p w.store).1 })
          v in
      rw (run, queue_conversion)
        (follow-IsOrderly stage (enqueue_convert o cfg ready p req key) s
          (λ w'. enqueue_convert-IsOrderly ready p req key w'))

  convert_session-IsOrderly :
      (p : Ref) (req : ConvertRequest) (key : Text) (w : World)
      → IsOrderly cfg w
      → Returns (λ r. IsOrderly cfg r.1) (convert_session o cfg p req key w)
  unfolding convert_session
  convert_session-IsOrderly p req key w v =
      let total = (w.store.at p).meta.duration in
      elim (Bool-cases (is_too_long cfg.max_video_duration_seconds total)) [
        | inl long ↦ rw long (_, refl, v)
        | inr short ↦
            elim (Option-cases
              (parse_clip_bounds req.start_time req.end_time (pos 0) (at_least_zero total))) [
                | inl refused ↦ rw (short, refused, convert_session) (_, refl, v)
                | inr (bounds, parsed) ↦
                    rw (short, parsed, convert_session)
                      (follow-IsOrderly _ (queue_conversion o cfg p req key)
                        (reuse_variant-IsOrderly p
                          (record w { store = name_variant o cfg w.now p req w.store }) v)
                        (λ w'. queue_conversion-IsOrderly p req key w'))
              ]
      ]

  pub handle_convert_req-IsOrderly :
      (req : Option ConvertRequest) (key : Text) (w : World)
      → IsOrderly cfg w
      → Returns (λ r. IsOrderly cfg r.1) (handle_convert_req o cfg req key w)
  unfolding handle_convert_req
  handle_convert_req-IsOrderly none key w v = (_, refl, v)
  handle_convert_req-IsOrderly (some req) key w v = elim (Bool-cases (is_empty req.conversion_id)) [
    | inl blank ↦ rw blank (_, refl, v)
    | inr filled ↦ elim (Option-cases (get_session req.conversion_id w.store).0) [
      | inl missing ↦ rw (filled, missing, handle_convert_req) (_, refl, v)
      | inr (p, found) ↦
          rw (filled, found, handle_convert_req)
            (convert_session-IsOrderly p req key
              (record w { store = (get_session req.conversion_id w.store).1 }) v)
    ]
  ]
