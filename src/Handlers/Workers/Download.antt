-- ===== src/Handlers/Workers/Download.antt =====
-- What handleDownload leaves.
use ytmpt.Common.{ℕ, ◌+◌, ◌≡◌, ◌∙◌, refl, subst, sym, ap, false, Option, none, some, arith}
use ytmpt.Common.Text.{Text, text_eq, text_eq_refl}
use ytmpt.Common.Dict.{lookup-insert}
use ytmpt.Config.{Config}
use ytmpt.Models.{ConversionSession, downloading, downloaded}
use ytmpt.Queue.{Job}
use ytmpt.Store.{MemoryStore, Ref, of_state, allocate, set_asset, get_asset, AssetState}
use ytmpt.Store.Views.{session_at, IsValid, stamped}
use ytmpt.Metrics.{observe_duration}
use ytmpt.Handlers.{World, Outside, save, observed}
use ytmpt.Handlers.Saved.{
  IsKnown, save-at, save-session_at, save-IsKnown, assign-at, assign-IsKnown, assign-session_at,
  get_session-some, stored-id, allocate-at, allocate-session_at, allocate-IsKnown,
}
use ytmpt.Handlers.Workers.{
  fill_asset_hash, stream_path, finish_download, begin_download, handle_download,
}

-- The session while it is downloaded.
abbrev pub begun : Outside → ℕ → ConversionSession → ConversionSession
begun o now s = fill_asset_hash o (stamped now (record s { state = downloading }))

pub fill-id : (o : Outside) (s : ConversionSession) → (fill_asset_hash o s).id ≡ s.id
fill-id o s = ground arith

module _ (o : Outside) (cfg : Config) (now : ℕ) (p : Ref) (m : MemoryStore) (k : IsKnown p m) where
  pub begin_download-at : (begin_download o cfg now p m).at p ≡ begun o now (m.at p)
  unfolding begin_download
  begin_download-at =
      let saved = save-at now p (λ s. record s { state = downloading }) m k refl in
      assign-at p (fill_asset_hash o) (save now p (λ s. record s { state = downloading }) m)
        (fill-id o _)
      ∙ ap (fill_asset_hash o) saved

  pub begin_download-IsKnown : IsKnown p (begin_download o cfg now p m)
  unfolding begin_download
  begin_download-IsKnown =
      assign-IsKnown p (fill_asset_hash o) (save now p (λ s. record s { state = downloading }) m)
        (fill-id o _) (save-IsKnown now p (λ s. record s { state = downloading }) m k refl)

  pub begin_download-session_at :
      (j : Text)
      → text_eq (m.at p).id j ≡ false
      → session_at j (begin_download o cfg now p m) ≡ session_at j m
  unfolding begin_download
  begin_download-session_at j other =
      let saved = save now p (λ s. record s { state = downloading }) m in
      let at = save-at now p (λ s. record s { state = downloading }) m k refl in
      assign-session_at p (fill_asset_hash o) saved (fill-id o _)
        (save-IsKnown now p (λ s. record s { state = downloading }) m k refl) j (rw at other)
      ∙ save-session_at now p (λ s. record s { state = downloading }) m k refl j
      ∙ rw other

-- What a save of the session at a known pointer leaves for the readers.
module _ (now : ℕ) (p : Ref) (f : ConversionSession → ConversionSession) (m : MemoryStore)
    (k : IsKnown p m) (same : (f (m.at p)).id ≡ (m.at p).id) (s : ConversionSession)
    (held : m.at p ≡ s) where
  pub save_self : session_at s.id (save now p f m) ≡ some (stamped now (f s))
  save_self = save-session_at now p f m k same s.id ∙ rw (held, text_eq_refl s.id)

  pub save-other :
      (j : Text) → text_eq s.id j ≡ false → session_at j (save now p f m) ≡ session_at j m
  save-other j other = save-session_at now p f m k same j ∙ rw (held, other)

pub get_asset-set_asset :
    (hash path : Text) (state : AssetState) (m : MemoryStore)
    → get_asset hash (set_asset hash path state m)
      ≡ some (record { source_path = path; state = state })
unfolding get_asset set_asset
get_asset-set_asset hash path state m =
    lookup-insert hash hash (record { source_path = path; state = state }) m.asset_map
    ∙ rw (text_eq_refl hash)

pub session_at-set_asset :
    (hash path : Text) (state : AssetState) (m : MemoryStore) (j : Text)
    → session_at j (set_asset hash path state m) ≡ session_at j m
unfolding set_asset
session_at-set_asset hash path state m j = refl

-- What a finished download leaves of the session `s`.
abbrev pub done : Outside → Config → ℕ → ConversionSession → ConversionSession
done o cfg now s = stamped now (record (begun o now s) {
  source_path = stream_path o cfg (begun o now s).asset_hash;
  state = downloaded;
})

-- What handleDownload leaves after a download of the session `s` that ended well.
pub record IsDownloaded (o : Outside) (cfg : Config) (job : Job) (s : ConversionSession)
    (w w' : World) : Type 0 where
  pub session : session_at job.session_id w'.store ≡ some (done o cfg w.now s)
  pub asset :
      get_asset (begun o w.now s).asset_hash w'.store
      ≡ some
          (record { source_path = (done o cfg w.now s).source_path; state = of_state downloaded })
  pub others :
      (j : Text) → text_eq job.session_id j ≡ false → session_at j w'.store ≡ session_at j w.store
  pub counted : w'.metrics.success_count ≡ w.metrics.success_count + 1
  pub no_sleeper : w'.sleepers ≡ w.sleepers

module _ (o : Outside) (cfg : Config) (p : Ref) (out : Text) (w : World) (k : IsKnown p w.store)
    (s : ConversionSession) (held : w.store.at p ≡ s) where
  abbrev ended : ConversionSession → ConversionSession
  ended t = record t { source_path = out; state = downloaded }

  finish_download_self :
      session_at s.id (finish_download o cfg p out w).store ≡ some (stamped w.now (ended s))
  unfolding finish_download
  finish_download_self =
      session_at-set_asset (w.store.at p).asset_hash out (of_state downloaded)
        (save w.now p ended w.store) s.id
      ∙ save_self w.now p ended w.store k refl s held

  finish_download-asset :
      get_asset s.asset_hash (finish_download o cfg p out w).store
      ≡ some (record { source_path = out; state = of_state downloaded })
  unfolding finish_download
  finish_download-asset =
      rw held
        (get_asset-set_asset s.asset_hash out (of_state downloaded) (save w.now p ended w.store))

  finish_download-others :
      (j : Text)
      → text_eq s.id j ≡ false
      → session_at j (finish_download o cfg p out w).store ≡ session_at j w.store
  unfolding finish_download
  finish_download-others j other =
      session_at-set_asset (w.store.at p).asset_hash out (of_state downloaded)
        (save w.now p ended w.store) j
      ∙ save-other w.now p ended w.store k refl s held j other

finish_download-counted :
    (o : Outside) (cfg : Config) (p : Ref) (out : Text) (w : World)
    → (finish_download o cfg p out w).metrics.success_count ≡ w.metrics.success_count + 1
unfolding finish_download
finish_download-counted o cfg p out w = refl

finish_download-sleepers :
    (o : Outside) (cfg : Config) (p : Ref) (out : Text) (w : World)
    → (finish_download o cfg p out w).sleepers ≡ w.sleepers
unfolding finish_download
finish_download-sleepers o cfg p out w = refl

-- A download that ends well leaves the session of the job downloaded, with the stream's path, and
-- the asset of its hash downloaded with the same path; it counts one success, starts no retry, and
-- leaves the other sessions as they were.
pub handle_download-success :
    (o : Outside) (cfg : Config) (files : Text → Option ℕ) (job : Job) (w : World)
    (s : ConversionSession)
    → IsValid w.store
    → session_at job.session_id w.store ≡ some s
    → IsDownloaded o cfg job s w (handle_download o cfg none files job w)
unfolding handle_download observe_duration
handle_download-success o cfg files job w s v e =
    let m = (allocate s w.store).1 in
    let p = w.store.next in
    let k = allocate-IsKnown job.session_id w.store s v e in
    let found = get_session-some job.session_id w.store s v e in
    let id : s.id ≡ job.session_id = stored-id job.session_id w.store s v e in
    let at : (begin_download o cfg w.now p m).at p ≡ begun o w.now s =
      begin_download-at o cfg w.now p m k
      ∙ ap (begun o w.now) (allocate-at job.session_id w.store s v e) in
    let began = begin_download-IsKnown o cfg w.now p m k in
    let start =
      observed w.now false (record w { store = begin_download o cfg w.now p m; files = files }) in
    let out = stream_path o cfg (begun o w.now s).asset_hash in
    let run : handle_download o cfg none files job w ≡ finish_download o cfg p out start =
      rw (ap (λ r. r.0) found, handle_download, ap (λ r. r.1) found)
        (ap (λ t. finish_download o cfg p (stream_path o cfg t.asset_hash) start) at) in
    let same : (begun o w.now s).id ≡ job.session_id =
      fill-id o (stamped w.now (record s { state = downloading })) ∙ id in
    subst (IsDownloaded o cfg job s w) (sym run) (record {
      session =
          subst
            (λ i.
              session_at i (finish_download o cfg p out start).store ≡ some (done o cfg w.now s))
            same (finish_download_self o cfg p out start began (begun o w.now s) at);
      asset = finish_download-asset o cfg p out start began (begun o w.now s) at;
      others = λ j other.
          finish_download-others o cfg p out start began (begun o w.now s) at j (rw same other)
          ∙ begin_download-session_at o cfg w.now p m k j
              (rw (allocate-at job.session_id w.store s v e, id) other)
          ∙ allocate-session_at job.session_id w.store s v e j;
      counted = finish_download-counted o cfg p out start;
      no_sleeper = finish_download-sleepers o cfg p out start;
    })
