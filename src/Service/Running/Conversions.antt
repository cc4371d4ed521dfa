-- ===== src/Service/Running/Conversions.antt =====
-- The copy of its session that handleConvert holds while ffmpeg runs.
use mathlib.Core.List.{Memᴰ}
use ytmpt.Common.{ℕ, ◌≡◌, ◌∙◌, refl, sym, subst, ap, true, false, arith, ◌++◌, Option, none, some}
use ytmpt.Common.Text.{Text, lit, text_eq_refl}
use ytmpt.Config.{Config}
use ytmpt.Models.{ConversionSession, completed}
use ytmpt.Queue.{Job, Queue, takes, dequeue}
use ytmpt.Store.Views.{session_at, stamped}
use ytmpt.Handlers.{World, Outside, is_usable}
use ytmpt.Handlers.Saved.{get_session-some, stored-id}
use ytmpt.Handlers.Workers.{fill_asset_hash, begin_convert, is_waiting}
use ytmpt.Handlers.Workers.Download.{fill-id}
use ytmpt.Handlers.Workers.Encode.{
  encoding, filled, filled-IsTouched, started-IsTouched, fill_variant-id, hydrate_ready, fill-ready,
  fill-source,
}
use ytmpt.Handlers.Running.{
  begin_conversion, Running, on_convert, Started, runs, begin_convert_job, end_job,
}
use ytmpt.Handlers.Running.Ended.{over_stored}
use ytmpt.Service.Running.{Process, settle, convert}
use ytmpt.Service.Running.Sound.{store_of, IsFine, Step-IsSafe}
use ytmpt.Service.Running.Meanwhile.{Meanwhile, IsHeld, end_job-Meanwhile}

-- handleConvert of a stored session that has a source with a usable file and waits for no download.
module _ (o : Outside) (cfg : Config) (job : Job) (rest : Queue) (s : ConversionSession)
    (p : Process) (f : IsFine p) (e : dequeue p.service.world.cv_queue ≡ some (takes job rest))
    (stored : session_at job.session_id (store_of p) ≡ some s) (ready : is_waiting o cfg s ≡ false)
    (source : is_usable p.service.world.files s.source_path ≡ true) where
  abbrev taken : World
  taken = record p.service.world { cv_queue = rest }

  -- The session while ffmpeg runs.
  abbrev copy : ConversionSession
  copy = encoding o job taken.now (fill_asset_hash o s)

  abbrev converter : Running
  converter = on_convert (store_of p).next job p.service.world.now

  abbrev pub began : Started
  began = runs converter (record taken {
    store =
        begin_convert o cfg taken.now (store_of p).next job
          (filled o cfg taken.files job taken s f.sound.store stored ready source);
  })

  begin_conversion-ready :
      begin_conversion o cfg (store_of p).next job (record taken {
        store = filled o cfg taken.files job taken s f.sound.store stored ready source;
      })
      ≡ some began
  unfolding begin_conversion
  begin_conversion-ready =
      let m = filled o cfg taken.files job taken s f.sound.store stored ready source in
      let touched =
        filled-IsTouched o cfg taken.files job taken s f.sound.store stored ready source in
      let waits : is_waiting o cfg (m.at (store_of p).next) ≡ false =
        ap (is_waiting o cfg) touched.at ∙ fill-ready o cfg s ready in
      let usable : is_usable taken.files (m.at (store_of p).next).source_path ≡ true =
        ap (λ (t : ConversionSession). is_usable taken.files t.source_path) touched.at
        ∙ ap (is_usable taken.files) (fill-source o s)
        ∙ source in
      rw (waits, usable) refl

  pub begin_convert_job-ready : begin_convert_job o cfg job taken ≡ some began
  unfolding begin_convert_job
  begin_convert_job-ready =
      let found = get_session-some job.session_id (store_of p) s f.sound.store stored in
      let touched =
        filled-IsTouched o cfg taken.files job taken s f.sound.store stored ready source in
      let hydrated =
        hydrate_ready o cfg taken.files taken.now (store_of p).next
          (filled o cfg taken.files job taken s f.sound.store stored ready source) _ touched.at
          (fill-ready o cfg s ready) in
      rw (ap (λ r. r.0) found, begin_convert_job, ap (λ r. r.1) found, hydrated)
        begin_conversion-ready

  pub begin_convert_job-IsHeld : IsHeld o cfg converter copy (settle p began)
  begin_convert_job-IsHeld = record {
    fine = (Step-IsSafe o cfg (convert e begin_convert_job-ready) f).fine;
    waits = Memᴰ.head refl;
    object = (started-IsTouched o cfg taken.files job taken s f.sound.store stored ready source).at;
  }

-- What the session is when the conversion ends.
abbrev pub converted : Config → ℕ → ConversionSession → ConversionSession
converted cfg now t = stamped now (record t {
  output_path = cfg.conversions_dir ++ (lit "/outputs/" ++ (t.variant_hash ++ lit ".mp3"));
  state = completed;
})

-- A worker takes a job of the convert queue, whose session has a source with a usable file and waits
-- for no download, and then, while ffmpeg runs, requests, other workers, timers and cleanups come in
-- any order. When the conversion ends well, the session of the job is what the worker read at the
-- beginning, with the path and the state of the conversion: whatever was written to it meanwhile is
-- lost. If it was deleted, it stays so.
pub convert_overwrites :
    (o : Outside) (cfg : Config) (files : Text → Option ℕ) (job : Job) (rest : Queue)
    (s : ConversionSession) {p q : Process} {started : Started}
    → IsFine p
    → dequeue p.service.world.cv_queue ≡ some (takes job rest)
    → session_at job.session_id (store_of p) ≡ some s
    → is_waiting o cfg s ≡ false
    → is_usable p.service.world.files s.source_path ≡ true
    → begin_convert_job o cfg job (record p.service.world { cv_queue = rest }) ≡ some started
    → Meanwhile o cfg (on_convert (store_of p).next job p.service.world.now) (settle p started) q
    → session_at job.session_id
        (end_job o cfg none files
          (on_convert (store_of p).next job p.service.world.now)
          q.service.world).store
      ≡ over_stored
          (converted cfg q.service.world.now
            (encoding o job p.service.world.now (fill_asset_hash o s)))
          (session_at job.session_id (store_of q))
convert_overwrites o cfg files job rest s {p} {q} {started} f e stored ready source run m =
    let t = encoding o job p.service.world.now (fill_asset_hash o s) in
    let r = on_convert (store_of p).next job p.service.world.now in
    let run' = begin_convert_job-ready o cfg job rest s p f e stored ready source in
    let two : some started ≡ some (began o cfg job rest s p f e stored ready source) =
      sym run ∙ run' in
    let same : started ≡ began o cfg job rest s p f e stored ready source = ground (arith, two) in
    let h = begin_convert_job-IsHeld o cfg job rest s p f e stored ready source in
    let id : t.id ≡ job.session_id =
      fill_variant-id o job _
      ∙ fill-id o _
      ∙ fill-id o s
      ∙ stored-id job.session_id (store_of p) s f.sound.store stored in
    end_job-Meanwhile o cfg none files r t h (subst (λ x. Meanwhile o cfg r (settle p x) q) same m)
      job.session_id
    ∙ rw (id, text_eq_refl job.session_id)
