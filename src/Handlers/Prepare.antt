-- ===== src/Handlers/Prepare.antt =====
-- internal/handlers/api.go: handlePrepare. The decoded request is an argument, `none` if the body
-- does not decode, and so is what FetchMetadata returns.

use ytmpt.Common.{ℕ, ◌+◌, Bool, true, false, not, ◌&&◌, ◌||◌, Option, none, some, [], if◌then◌else◌}
use ytmpt.Common.Text.{Text, lit, is_empty}
use ytmpt.Config.{Config}
use ytmpt.Common.Int.{pos}
use ytmpt.Models.{
  preparing, created, downloaded, failed, state_eq, state_text, MetaLite, ConversionSession,
  PrepareRequest,
}
use ytmpt.Queue.{enqueue}
use ytmpt.Store.{
  MemoryStore, Ref, Asset, AssetState, blank, expired, of_state, allocate, create_session,
  set_url_map, set_asset, get_asset,
}
use ytmpt.Util.Domain.{is_allowed_domain}
use ytmpt.Handlers.{
  World, Response, prepare_body, write_err, is_usable, new_id, Outside, parse_host, asset_hash_of,
  download_job, save, is_too_long, too_long,
}

-- ok && src != "" && state == downloaded
abbrev pub is_downloaded : Asset → Bool
is_downloaded a = elim a.state [
  | of_state s ↦ not (is_empty a.source_path) && state_eq s downloaded
  | _ ↦ false
]

-- state == "" || state == failed
abbrev pub is_absent : AssetState → Bool
is_absent blank = true
is_absent expired = false
is_absent (of_state s) = state_eq s failed

-- The cached file is gone or empty.
unfoldable pub is_stale : (Text → Option ℕ) → Option Asset → Bool
is_stale files none = false
is_stale files (some a) = is_downloaded a && not (is_usable files a.source_path)

unfoldable pub needs_download : (Text → Option ℕ) → Option Asset → Bool
unfolding is_stale
needs_download files none = true
needs_download files (some a) = is_absent a.state || is_stale files (some a)

-- The session that handlePrepare creates.
abbrev pub new_session : Text → Text → ConversionSession
new_session id url = record {
  id = id;
  url = url;
  asset_hash = [];
  variant_hash = [];
  state = preparing;
  created_at = 0;
  updated_at = 0;
  source_path = [];
  output_path = [];
  quality = [];
  error = [];
  meta = record { title = []; duration = pos 0; thumbnail = [] };
}

module _ (o : Outside) (cfg : Config) where
  unfoldable pub accepted : Ref → World → Response
  accepted p w = record {
    code = 202;
    body = prepare_body (record {
      conversion_id = (w.store.at p).id;
      status = state_text (w.store.at p).state;
      metadata = (w.store.at p).meta;
      message = lit "Metadata fetched successfully. Stream is downloading in background.";
    });
  }

  -- The asset is marked, and a job for it put into the download queue.
  unfoldable pub start_download : Ref → Text → Text → Bool → World → Option (Response × World)
  unfolding accepted
  start_download p id hash stale w =
      let cleared = if stale then set_asset hash [] expired w.store else w.store in
      let w' = record w {
        store = set_asset hash [] (of_state preparing) cleared;
        drawn = w.drawn + 1;
      } in
      elim (enqueue w.dl_queue (download_job o w.now w.drawn id)) [
        | none ↦ none
        | some (q, ok) ↦
            if ok
            then some (accepted p w', record w' { dl_queue = q })
            else some (write_err 503 (lit "queue full"), record w' { dl_queue = q })
      ]

  -- The background download, if it is needed.
  unfoldable pub ensure_download : Ref → Text → Text → World → Option (Response × World)
  unfolding start_download
  ensure_download p id hash w =
      let cached = get_asset hash w.store in
      if needs_download w.files cached
      then start_download p id hash (is_stale w.files cached) w
      else some (accepted p w, w)

  -- The writes to the created session: its metadata and state, and then its asset.
  unfoldable pub describe_session : ℕ → Ref → Text → MetaLite → MemoryStore → MemoryStore
  describe_session now p hash meta m =
      let described = save now p (λ s. record s { meta = meta; state = created }) m in
      save now p (λ s. record s { asset_hash = hash }) described

  -- From newID on.
  unfoldable pub prepare_session : Text → MetaLite → World → Option (Response × World)
  unfolding ensure_download describe_session
  prepare_session url meta w =
      let id = new_id w.now (o.random w.drawn) in
      let (p, allocated) = allocate (new_session id url) w.store in
      let (ok, stored) = create_session w.now p allocated in
      let hash = asset_hash_of o url in
      let ready = record w {
        store = describe_session w.now p hash meta (set_url_map url id stored);
        drawn = w.drawn + 1;
      } in
      if not ok
      then some (
        write_err 500 (lit "failed to create session"),
        record w { store = stored; drawn = w.drawn + 1 },
      )
      else ensure_download p id hash ready

  unfoldable pub handle_prepare :
      Option PrepareRequest → MetaLite → World → Option (Response × World)
  unfolding prepare_session
  handle_prepare none meta w = some (write_err 400 (lit "invalid request"), w)
  handle_prepare (some req) meta w =
      if is_empty req.url
      then some (write_err 400 (lit "invalid request"), w)
      else if not (is_allowed_domain (parse_host o) req.url cfg.allowed_domains)
      then some (write_err 400 (lit "unsupported url domain"), w)
      else if is_too_long cfg.max_video_duration_seconds meta.duration
      then some (too_long cfg.max_video_duration_seconds meta.duration, w)
      else prepare_session req.url meta w
