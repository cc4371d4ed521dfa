-- ===== src/Handlers/Workers/Encode.antt =====
-- What handleConvert leaves after a conversion that ended well.
use ytmpt.Common.{
  ℕ, ◌+◌, ◌≡◌, ◌∙◌, refl, subst, ap, true, false, Option, none, some, if◌then◌else◌, Returns, arith,
}
use ytmpt.Common.Text.{Text, is_empty, text_eq, text_eq_refl}
use ytmpt.Common.Dict.{lookup-insert}
use ytmpt.Config.{Config}
use ytmpt.Models.{ConversionSession, converting, completed}
use ytmpt.Queue.{Job}
use ytmpt.Store.{MemoryStore, Ref, allocate, assign, set_variant, get_variant}
use ytmpt.Store.Views.{session_at, IsValid, stamped}
use ytmpt.Metrics.{observe_duration}
use ytmpt.Handlers.{World, Outside, save, is_usable, observed, one_success}
use ytmpt.Handlers.Convert.{variant_text}
use ytmpt.Handlers.Saved.{
  IsKnown, get_session-some, stored-id, allocate-at, allocate-session_at, allocate-IsKnown,
}
use ytmpt.Handlers.Touched.{IsTouched, assign-IsTouched, save-IsTouched, IsTouched-trans}
use ytmpt.Handlers.Workers.{
  fill_asset_hash, output_path_of, is_waiting, hydrate, begin_convert, run_convert, finish_convert,
  handle_convert,
}
use ytmpt.Handlers.Workers.Download.{fill-id, save_self}

-- The variant of the job, where the session has none.
abbrev pub fill_variant : Outside → Job → ConversionSession → ConversionSession
fill_variant o job s =
    if is_empty s.variant_hash
    then record s {
      variant_hash =
          o.hash_string (variant_text s.asset_hash job.quality job.start_time job.end_time);
    }
    else s

pub fill_variant-id :
    (o : Outside) (job : Job) (s : ConversionSession) → (fill_variant o job s).id ≡ s.id
fill_variant-id o job s = ground arith

-- The session while it is converted.
abbrev pub encoding : Outside → Job → ℕ → ConversionSession → ConversionSession
encoding o job now s =
    fill_variant o job (fill_asset_hash o (stamped now (record s { state = converting })))

begin_convert-IsTouched :
    (o : Outside) (cfg : Config) (now : ℕ) (p : Ref) (job : Job) (m : MemoryStore)
    (s : ConversionSession)
    → IsKnown p m
    → m.at p ≡ s
    → IsTouched p m (begin_convert o cfg now p job m) (encoding o job now s)
unfolding begin_convert
begin_convert-IsTouched o cfg now p job m s k held =
    let a = save-IsTouched p m k s held (λ s. record s { state = converting }) refl now in
    let m' = save now p (λ s. record s { state = converting }) m in
    let b = assign-IsTouched p m' a.known _ a.at (fill_asset_hash o) (fill-id o _) in
    let m'' = assign p (fill_asset_hash o) m' in
    let c = assign-IsTouched p m'' b.known _ b.at (fill_variant o job) (fill_variant-id o job _) in
    IsTouched-trans (IsTouched-trans a b) c

-- What a finished conversion leaves of the session `s`.
abbrev pub encoded : Outside → Config → Job → ℕ → ConversionSession → ConversionSession
encoded o cfg job now s =
    let t = encoding o job now (fill_asset_hash o s) in
    stamped now (record t { output_path = output_path_of o cfg t.variant_hash; state = completed })

-- What handleConvert leaves after a conversion of the session `s` that ended well.
pub record IsEncoded (o : Outside) (cfg : Config) (files : Text → Option ℕ) (job : Job)
    (s : ConversionSession) (w w' : World) : Type 0 where
  pub session : session_at job.session_id w'.store ≡ some (encoded o cfg job w.now s)
  pub variant :
      get_variant (encoded o cfg job w.now s).variant_hash w'.store
      ≡ some (encoded o cfg job w.now s).output_path
  pub others :
      (j : Text) → text_eq job.session_id j ≡ false → session_at j w'.store ≡ session_at j w.store
  pub counted : w'.metrics.success_count ≡ w.metrics.success_count + 1
  pub no_sleeper : w'.sleepers ≡ w.sleepers
  pub files_kept : w'.files ≡ files

get_variant-set_variant :
    (hash out : Text) (m : MemoryStore) → get_variant hash (set_variant hash out m) ≡ some out
unfolding set_variant get_variant
get_variant-set_variant hash out m =
    lookup-insert hash hash out m.variant_to_out ∙ rw (text_eq_refl hash)

pub session_at-set_variant :
    (hash out : Text) (m : MemoryStore) (j : Text)
    → session_at j (set_variant hash out m) ≡ session_at j m
unfolding set_variant
session_at-set_variant hash out m j = refl

-- A session with a source is not hydrated.
pub hydrate_ready :
    (o : Outside) (cfg : Config) (files : Text → Option ℕ) (now : ℕ) (p : Ref) (m : MemoryStore)
    (s : ConversionSession)
    → m.at p ≡ s
    → is_waiting o cfg s ≡ false
    → hydrate o cfg files now p m ≡ m
unfolding hydrate is_waiting
hydrate_ready o cfg files now p m s held ready =
    let sourced : is_empty s.source_path ≡ false = ground (arith, ready) in rw (held, sourced) refl

pub fill-ready :
    (o : Outside) (cfg : Config) (s : ConversionSession)
    → is_waiting o cfg s ≡ false
    → is_waiting o cfg (fill_asset_hash o s) ≡ false
unfolding is_waiting
fill-ready o cfg s ready = ground (arith, ready)

pub fill-source :
    (o : Outside) (s : ConversionSession) → (fill_asset_hash o s).source_path ≡ s.source_path
fill-source o s = ground arith

module _ (o : Outside) (cfg : Config) (files : Text → Option ℕ) (job : Job) (w : World)
    (s : ConversionSession) (v : IsValid w.store) (e : session_at job.session_id w.store ≡ some s)
    (ready : is_waiting o cfg s ≡ false) (source : is_usable w.files s.source_path ≡ true) where
  abbrev pub ref : Ref
  ref = w.store.next

  abbrev pub copied : MemoryStore
  copied = (allocate s w.store).1

  -- The store and the session when the source is looked at.
  abbrev pub filled : MemoryStore
  filled = assign ref (fill_asset_hash o) copied

  pub filled-IsTouched : IsTouched ref copied filled (fill_asset_hash o s)
  filled-IsTouched =
      assign-IsTouched ref copied (allocate-IsKnown job.session_id w.store s v e) s
        (allocate-at job.session_id w.store s v e) (fill_asset_hash o) (fill-id o s)

  abbrev pub started : World
  started =
      observed w.now true
        (record w { store = begin_convert o cfg w.now ref job filled; files = files })

  pub started-IsTouched :
      IsTouched ref copied started.store (encoding o job w.now (fill_asset_hash o s))
  started-IsTouched = IsTouched-trans filled-IsTouched (
      begin_convert-IsTouched o cfg w.now ref job filled _ filled-IsTouched.known
        filled-IsTouched.at)

  run_convert-ready :
      run_convert o cfg none files ref job (record w { store = filled })
      ≡ finish_convert o cfg ref started
  unfolding run_convert
  run_convert-ready =
      let usable : is_usable w.files (filled.at ref).source_path ≡ true =
        ap (λ (t : ConversionSession). is_usable w.files t.source_path) filled-IsTouched.at
        ∙ ap (is_usable w.files) (fill-source o s)
        ∙ source in
      rw usable refl

  handle_convert-run :
      handle_convert o cfg none files job w ≡ some (finish_convert o cfg ref started)
  unfolding handle_convert
  handle_convert-run =
      let found = get_session-some job.session_id w.store s v e in
      let hydrated =
        hydrate_ready o cfg w.files w.now ref filled _ filled-IsTouched.at
          (fill-ready o cfg s ready) in
      let waits : is_waiting o cfg (filled.at ref) ≡ false =
        ap (is_waiting o cfg) filled-IsTouched.at ∙ fill-ready o cfg s ready in
      rw (ap (λ r. r.0) found, handle_convert, ap (λ r. r.1) found, hydrated, waits)
        (ap some run_convert-ready)

  abbrev ending : ConversionSession
  ending = encoding o job w.now (fill_asset_hash o s)

  abbrev finished : MemoryStore
  finished =
      save w.now ref
        (λ t. record t {
          output_path = output_path_of o cfg ending.variant_hash;
          state = completed;
        })
        started.store

  finished-IsTouched : IsTouched ref copied finished (encoded o cfg job w.now s)
  finished-IsTouched = IsTouched-trans started-IsTouched (
      save-IsTouched ref started.store started-IsTouched.known ending started-IsTouched.at
        (λ t. record t {
          output_path = output_path_of o cfg ending.variant_hash;
          state = completed;
        })
        refl w.now)

  finish_convert-store : finish_convert o cfg ref started ≡ record started {
    store = set_variant ending.variant_hash (output_path_of o cfg ending.variant_hash) finished;
    metrics = one_success started.metrics;
  }
  unfolding finish_convert
  finish_convert-store =
      ap
        (λ (t : ConversionSession). record started {
          store = set_variant t.variant_hash (output_path_of o cfg t.variant_hash) (
              save w.now ref
                (λ x. record x {
                  output_path = output_path_of o cfg t.variant_hash;
                  state = completed;
                })
                started.store);
          metrics = one_success started.metrics;
        })
        started-IsTouched.at

  pub copied-id : (copied.at ref).id ≡ job.session_id
  copied-id =
      ap (λ (t : ConversionSession). t.id) (allocate-at job.session_id w.store s v e)
      ∙ stored-id job.session_id w.store s v e

  finished_self : session_at job.session_id finished ≡ some (encoded o cfg job w.now s)
  finished_self =
      let id : ending.id ≡ job.session_id = started-IsTouched.id_kept ∙ copied-id in
      subst (λ i. session_at i finished ≡ some (encoded o cfg job w.now s)) id
        (save_self w.now ref
          (λ t. record t {
            output_path = output_path_of o cfg ending.variant_hash;
            state = completed;
          })
          started.store started-IsTouched.known refl ending started-IsTouched.at)

  finish_convert-IsEncoded : IsEncoded o cfg files job s w (record started {
    store = set_variant ending.variant_hash (output_path_of o cfg ending.variant_hash) finished;
    metrics = one_success started.metrics;
  })
  unfolding observe_duration
  finish_convert-IsEncoded =
      let hash = ending.variant_hash in
      let out = output_path_of o cfg hash in
      record {
        session = session_at-set_variant hash out finished job.session_id ∙ finished_self;
        variant = get_variant-set_variant hash out finished;
        others = λ j other.
            session_at-set_variant hash out finished j
            ∙ finished-IsTouched.others j (rw copied-id other)
            ∙ allocate-session_at job.session_id w.store s v e j;
        counted = refl;
        no_sleeper = refl;
        files_kept = refl;
      }

-- A conversion that ends well, of a stored session that has a source with a usable file and waits for
-- no download, leaves the session completed with the path of its output, and the variant with the
-- same path; it counts one success, starts no retry, and leaves the other sessions as they were.
pub handle_convert-success :
    (o : Outside) (cfg : Config) (files : Text → Option ℕ) (job : Job) (w : World)
    (s : ConversionSession)
    → IsValid w.store
    → session_at job.session_id w.store ≡ some s
    → is_waiting o cfg s ≡ false
    → is_usable w.files s.source_path ≡ true
    → Returns (IsEncoded o cfg files job s w) (handle_convert o cfg none files job w)
handle_convert-success o cfg files job w s v e ready source = (
  _,
  handle_convert-run o cfg files job w s v e ready source
      ∙ ap some (finish_convert-store o cfg files job w s v e ready source),
  finish_convert-IsEncoded o cfg files job w s v e ready source,
)
