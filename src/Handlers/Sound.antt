-- ===== src/Handlers/Sound.antt =====
-- Each handler returns, and keeps the store and the queues well formed.
pub mod Convert
pub mod Workers
pub mod Running
use ytmpt.Common.{
  ℕ, ◌+◌, ◌<◌, ◌≡◌, ◌⊎◌, inl, inr, refl, ap, Bool, true, false, not, ◌&&◌, ◌||◌, Option, none, some,
  List, [], ◌∷◌, ◌++◌, if◌then◌else◌, ◌==◌, arith, Option-cases, Bool-cases, Returns,
}
use ytmpt.Common.Text.{Text, is_empty}
use ytmpt.Config.{Config}
use ytmpt.Models.{ConversionSession, PrepareRequest, MetaLite, preparing}
use ytmpt.Store.{
  MemoryStore, Ref, AssetState, of_state, expired, get_session, allocate, set_asset, set_url_map,
  create_session, delete_session, get_asset,
}
use ytmpt.Store.Views.{IsValid, allocate-IsValid, delete_session-IsValid}
use ytmpt.Queue.{Job, enqueue}
use ytmpt.Queue.Enqueue
use ytmpt.Queue.Enqueue.{enqueue_lem}
use ytmpt.Util.Domain.{is_allowed_domain}
use ytmpt.Handlers.{
  World, Response, Outside, save, new_id, asset_hash_of, download_job, parse_host, is_too_long,
  is_usable,
}
use ytmpt.Handlers.Frame.{Frame, delete_session-Keeps}
use ytmpt.Handlers.Live.{
  IsLive, IsSound, KeepsId, assign-IsLive, update_session-IsLive, create_session-IsLive,
  IsSound-store, set_asset-IsLive, set_variant-IsLive, set_url_map-IsLive, save-IsLive,
  allocate-IsLive, get_session-cases,
}
use ytmpt.Handlers.Status.{refresh, has_output, handle_status, handle_delete, expire}
use ytmpt.Handlers.Prepare.{
  accepted, start_download, ensure_download, describe_session, prepare_session, new_session,
  handle_prepare, needs_download, is_stale,
}

-- The store behind a condition.
pub if-IsLive :
    {F : Frame} (b : Bool) (p : Ref) (m m' : MemoryStore)
    → IsLive F p m
    → IsLive F p m'
    → IsLive F p (if b then m else m')
if-IsLive true p m m' l l' = l
if-IsLive false p m m' l l' = l'

refresh-IsSound :
    {F : Frame} (p : Ref) (w : World) → IsLive F p w.store → IsSound F w → IsSound F (refresh p w)
unfolding refresh
refresh-IsSound p w live v =
    elim (Bool-cases
      (has_output (w.store.at p) && not (is_usable w.files (w.store.at p).output_path))) [
        | inl gone ↦
            rw gone (IsSound-store p w _ (save-IsLive w.now p expire w.store (λ s. refl) live) v)
        | inr there ↦ rw there v
      ]

-- handleStatus keeps the store and the queues well formed.
pub handle_status-IsSound :
    {F : Frame} (id : Text) (w : World)
    → IsSound F w
    → ¬ F.spared id
    → IsSound F (handle_status id w).1
unfolding handle_status
handle_status-IsSound id w v far = elim (get_session-cases id w.store v.store v.kept far) [
  | inl missing ↦ rw (ap (λ r. r.0) missing, handle_status) v
  | inr (p, m, found, live) ↦
      rw (ap (λ r. r.0) found, handle_status, ap (λ r. r.1) found)
        (refresh-IsSound p (record w { store = m }) live (IsSound-store p w m live v))
]

-- handleDelete keeps the store and the queues well formed.
pub handle_delete-IsSound :
    {F : Frame} (id : Text) (w : World)
    → IsSound F w
    → ¬ F.spared id
    → IsSound F (handle_delete id w).1
unfolding handle_delete
handle_delete-IsSound id w v far = elim (get_session-cases id w.store v.store v.kept far) [
  | inl missing ↦
      rw (ap (λ r. r.0) missing, handle_delete, ap (λ r. r.1) missing)
        (record {
          store = delete_session-IsValid id w.store v.store;
          kept = delete_session-Keeps id w.store far v.kept;
          dl_queue = v.dl_queue;
          cv_queue = v.cv_queue;
        })
  | inr (p, m, found, live) ↦
      rw (ap (λ r. r.0) found, handle_delete, ap (λ r. r.1) found)
        (record {
          store = delete_session-IsValid id m live.valid;
          kept = delete_session-Keeps id m far live.kept;
          dl_queue = v.dl_queue;
          cv_queue = v.cv_queue;
        })
]

module _ {F : Frame} (o : Outside) (cfg : Config) where
  start_download-Returns :
      (p : Ref) (id hash : Text) (stale : Bool) (w : World)
      → IsLive F p w.store
      → IsSound F w
      → Returns (λ r. IsSound F r.1) (start_download o cfg p id hash stale w)
  unfolding start_download
  start_download-Returns p id hash stale w live v =
      let cleared = if stale then set_asset hash [] expired w.store else w.store in
      let kept =
        if-IsLive stale p (set_asset hash [] expired w.store) w.store
          (set_asset-IsLive w.now p w.store live hash [] expired) live in
      let marked = set_asset-IsLive w.now p cleared kept hash [] (of_state preparing) in
      let ((q, ok), run, e) = enqueue_lem w.dl_queue (download_job o w.now w.drawn id) v.dl_queue in
      elim (Bool-cases ok) [
        | inl room ↦
            rw (run, start_download, room)
              (
                _,
                refl,
                record {
                  store = marked.valid;
                  kept = marked.kept;
                  dl_queue = e.valid;
                  cv_queue = v.cv_queue;
                },
              )
        | inr full ↦
            rw (run, start_download, full)
              (
                _,
                refl,
                record {
                  store = marked.valid;
                  kept = marked.kept;
                  dl_queue = e.valid;
                  cv_queue = v.cv_queue;
                },
              )
      ]

  ensure_download-Returns :
      (p : Ref) (id hash : Text) (w : World)
      → IsLive F p w.store
      → IsSound F w
      → Returns (λ r. IsSound F r.1) (ensure_download o cfg p id hash w)
  unfolding ensure_download
  ensure_download-Returns p id hash w live v =
      let cached = get_asset hash w.store in
      elim (Bool-cases (needs_download w.files cached)) [
        | inl needed ↦
            rw needed (start_download-Returns p id hash (is_stale w.files cached) w live v)
        | inr there ↦ rw there (_, refl, v)
      ]

  describe_session-IsLive :
      (now : ℕ) (p : Ref) (hash : Text) (meta : MetaLite) (m : MemoryStore)
      → IsLive F p m
      → IsLive F p (describe_session o cfg now p hash meta m)
  unfolding describe_session
  describe_session-IsLive now p hash meta m live =
      save-IsLive now p _ _ (λ s. refl) (save-IsLive now p _ m (λ s. refl) live)

  prepare_session-Returns :
      (url : Text) (meta : MetaLite) (w : World)
      → IsSound F w
      → ¬ F.spared (new_id w.now (o.random w.drawn))
      → Returns (λ r. IsSound F r.1) (prepare_session o cfg url meta w)
  unfolding prepare_session allocate
  prepare_session-Returns url meta w v far =
      let id = new_id w.now (o.random w.drawn) in
      let p = w.store.next in
      let m = (allocate (new_session id url) w.store).1 in
      let stored =
        create_session-IsLive w.now p m
          (allocate-IsLive (new_session id url) w.store v.store v.kept far) in
      let hash = asset_hash_of o url in
      let ready =
        describe_session-IsLive w.now p hash meta _ (set_url_map-IsLive w.now p _ stored url id) in
      elim (Bool-cases (create_session w.now p m).0) [
        | inl unused ↦ rw unused (
            ensure_download-Returns p id hash _ ready (record {
              store = ready.valid;
              kept = ready.kept;
              dl_queue = v.dl_queue;
              cv_queue = v.cv_queue;
            }))
        | inr used ↦ rw used (
          _,
          refl,
          record {
            store = stored.valid;
            kept = stored.kept;
            dl_queue = v.dl_queue;
            cv_queue = v.cv_queue;
          },
        )
      ]

  -- handlePrepare answers every request, and keeps the store and the queues well formed.
  pub handle_prepare-Returns :
      (req : Option PrepareRequest) (meta : MetaLite) (w : World)
      → IsSound F w
      → ¬ F.spared (new_id w.now (o.random w.drawn))
      → Returns (λ r. IsSound F r.1) (handle_prepare o cfg req meta w)
  unfolding handle_prepare
  handle_prepare-Returns none meta w v far = (_, refl, v)
  handle_prepare-Returns (some req) meta w v far = elim (Bool-cases (is_empty req.url)) [
    | inl blank ↦ rw blank (_, refl, v)
    | inr filled ↦
        elim (Bool-cases (is_allowed_domain (parse_host o) req.url cfg.allowed_domains)) [
          | inr other ↦ rw (filled, other) (_, refl, v)
          | inl allowed ↦
              elim (Bool-cases (is_too_long cfg.max_video_duration_seconds meta.duration)) [
                | inl long ↦ rw (filled, allowed, long) (_, refl, v)
                | inr short ↦
                    rw (filled, allowed, short) (prepare_session-Returns req.url meta w v far)
              ]
        ]
  ]
