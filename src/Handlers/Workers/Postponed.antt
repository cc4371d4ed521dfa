-- ===== src/Handlers/Workers/Postponed.antt =====
-- What handleConvert does while the source of its session is missing.
use ytmpt.Common.{
  ℕ, ◌≡◌, false, Option, none, some, [], ◌∷◌, ◌++◌, if◌then◌else◌, Perm, ltb, length,
}
use ytmpt.Common.Text.{Text, text_eq}
use ytmpt.Common.Int.{pos}
use ytmpt.Config.{Config}
use ytmpt.Models.{preparing}
use ytmpt.Queue.{Job}
use ytmpt.Queue.Order.{jobs}
use ytmpt.Queue.Enqueue
use ytmpt.Store.{MemoryStore, Ref, of_state, assign, get_asset}
use ytmpt.Store.Views.{session_at}
use ytmpt.Handlers.{World, to_convert, Outside, download_job}
use ytmpt.Handlers.Workers.{fill_asset_hash, hydrate, is_waiting, postpone, run_convert}

-- The conversion sleeps, with its attempts as they were, every session reads as before, the asset
-- of the hash is being prepared again, and a download is asked for.
pub record IsPostponed (o : Outside) (id hash : Text) (job : Job) (w w' : World) : Type 0 where
  pub sleepers : w'.sleepers ≡ w.sleepers ++ to_convert (pos 5000000000) job ∷ []
  pub sessions : (j : Text) → session_at j w'.store ≡ session_at j w.store
  pub asset :
      get_asset hash w'.store ≡ some (record { source_path = []; state = of_state preparing })
  pub other_assets :
      (j : Text) → text_eq hash j ≡ false → get_asset j w'.store ≡ get_asset j w.store
  pub variants : w'.store.variant_to_out ≡ w.store.variant_to_out
  pub downloads : Perm (jobs w'.dl_queue.pq) (
      if ltb (length (jobs w.dl_queue.pq)) w.dl_queue.capacity
      then download_job o w.now w.drawn id ∷ jobs w.dl_queue.pq
      else jobs w.dl_queue.pq)
  pub converts : w'.cv_queue ≡ w.cv_queue
  pub metrics : w'.metrics ≡ w.metrics

module _ (o : Outside) (cfg : Config) where
  -- handleConvert from the answer of GetSession on.
  abbrev turn :
      Option Text → (Text → Option ℕ) → Job → World → Option Ref × MemoryStore → Option World
  turn outcome files job w r = elim r.0 [
    | none ↦ some w
    | some p ↦
        (let w' = record w {
          store = hydrate o cfg w.files w.now p (assign p (fill_asset_hash o) r.1);
        } in
          if is_waiting o cfg (w'.store.at p)
          then postpone o cfg p job w'
          else some (run_convert o cfg outcome files p job w'))
  ]
