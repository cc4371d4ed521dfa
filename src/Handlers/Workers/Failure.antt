-- ===== src/Handlers/Workers/Failure.antt =====
-- What handleDownload leaves when the download fails.
use ytmpt.Common.{
  ℕ, ◌+◌, ◌≡◌, ◌∙◌, inl, inr, refl, sym, subst, ap, false, Option, none, some, [], ◌∷◌, ◌++◌,
  if◌then◌else◌, Bool-cases, arith,
}
use ytmpt.Common.Text.{Text, lit, text_eq}
use ytmpt.Common.Dict.{lookup}
use ytmpt.Config.{Config}
use ytmpt.Models.{ConversionSession, downloading, failed}
use ytmpt.Queue.{Job}
use ytmpt.Store.{MemoryStore, Ref, of_state, allocate, assign, get_asset, set_asset}
use ytmpt.Store.Views.{session_at, IsValid, stamped}
use ytmpt.Handlers.{World, to_download, Outside, save}
use ytmpt.Handlers.Saved.{
  IsKnown, save-lookup, get_session-some, stored-id, allocate-at, allocate-session_at,
  allocate-IsKnown,
}
use ytmpt.Handlers.Workers.{
  backoff, error_text, may_retry, fail_download, begin_download, handle_download,
}
use ytmpt.Handlers.Workers.Download.{
  begun, fill-id, begin_download-at, begin_download-IsKnown, begin_download-session_at, save_self,
  save-other, get_asset-set_asset, session_at-set_asset,
}

-- The text that the session shows.
abbrev pub shown_error : Text → Text
shown_error err = error_text (lit "download aborted by tool; retry later") err

-- The session after the last attempt.
abbrev pub broken : Text → ConversionSession → ConversionSession
broken err s = record s { state = failed; error = shown_error err }

-- What handleDownload leaves after a failed download of the session `s`.
pub record IsFailed (o : Outside) (cfg : Config) (err : Text) (job : Job) (s : ConversionSession)
    (w w' : World) : Type 0 where
  pub session :
      session_at job.session_id w'.store
      ≡ some (
          if may_retry o cfg job
          then begun o w.now s
          else stamped w.now (broken err (begun o w.now s)))
  pub asset :
      may_retry o cfg job ≡ false
      → get_asset (begun o w.now s).asset_hash w'.store
        ≡ some (record { source_path = []; state = of_state failed })
  pub sleepers : w'.sleepers ≡ (
      if may_retry o cfg job
      then w.sleepers
        ++ to_download (backoff (job.attempts + 1)) (record job { attempts = job.attempts + 1 })
          ∷ []
      else w.sleepers)
  pub errors :
      w'.metrics.error_count
      ≡ (if may_retry o cfg job then w.metrics.error_count else w.metrics.error_count + 1)
  pub others :
      (j : Text) → text_eq job.session_id j ≡ false → session_at j w'.store ≡ session_at j w.store

module _ (o : Outside) (cfg : Config) (p : Ref) (err : Text) (job : Job) (w w' : World)
    (k : IsKnown p w'.store) (s : ConversionSession) (held : w'.store.at p ≡ begun o w.now s)
    (same : (begun o w.now s).id ≡ job.session_id) (now : w'.now ≡ w.now)
    (sleepers : w'.sleepers ≡ w.sleepers) (errors : w'.metrics.error_count ≡ w.metrics.error_count)
    (self : session_at job.session_id w'.store ≡ some (begun o w.now s))
    (others : (j : Text)
      → text_eq job.session_id j ≡ false
      → session_at j w'.store ≡ session_at j w.store) where
  fail_download-IsFailed : IsFailed o cfg err job s w (fail_download o cfg p err job w')
  unfolding fail_download
  fail_download-IsFailed = elim (Bool-cases (may_retry o cfg job)) [
    | inl again ↦ record {
      session = rw again self;
      asset = λ never. absurd (ground (arith, again, never));
      sleepers = rw (again, sleepers);
      errors = rw (again, errors);
      others = λ j other. rw again (others j other);
    }
    | inr never ↦
        let save' = save w'.now p (broken err) w'.store in
        let hash = (w'.store.at p).asset_hash in
        record {
          session = rw never (
              session_at-set_asset hash [] (of_state failed) save' job.session_id
              ∙ subst
                  (λ i. session_at i save' ≡ some (stamped w.now (broken err (begun o w.now s))))
                  same
                  (subst
                    (λ t.
                      session_at (begun o w.now s).id save'
                      ≡ some (stamped t (broken err (begun o w.now s))))
                    now (save_self w'.now p (broken err) w'.store k refl (begun o w.now s) held)));
          asset = λ _. rw never (
              subst
                (λ t.
                  get_asset t.asset_hash (set_asset hash [] (of_state failed) save')
                  ≡ some (record { source_path = []; state = of_state failed }))
                held (get_asset-set_asset hash [] (of_state failed) save'));
          sleepers = rw (never, sleepers);
          errors = rw (never, errors);
          others = λ j other. rw never (
              session_at-set_asset hash [] (of_state failed) save' j
              ∙ save-other w'.now p (broken err) w'.store k refl (begun o w.now s) held j
                  (rw same other)
              ∙ others j other);
        }
  ]

begin_download-lookup :
    (o : Outside) (cfg : Config) (now : ℕ) (p : Ref) (m : MemoryStore) (k : IsKnown p m)
    → lookup (m.at p).id (begin_download o cfg now p m).sessions ≡ some p
unfolding begin_download assign
begin_download-lookup o cfg now p m k =
    save-lookup now p (λ s. record s { state = downloading }) m k refl

begin_download_self :
    (o : Outside) (cfg : Config) (now : ℕ) (p : Ref) (m : MemoryStore) (s : ConversionSession)
    → IsKnown p m
    → m.at p ≡ s
    → session_at s.id (begin_download o cfg now p m) ≡ some (begun o now s)
begin_download_self o cfg now p m s k held =
    let found : lookup s.id (begin_download o cfg now p m).sessions ≡ some p =
      subst (λ t. lookup t.id (begin_download o cfg now p m).sessions ≡ some p) held
        (begin_download-lookup o cfg now p m k) in
    rw (found, session_at) (ap some (begin_download-at o cfg now p m k ∙ ap (begun o now) held))

-- handleDownload from the answer of GetSession on.
abbrev after :
    Outside → Config → Text → (Text → Option ℕ) → Job → World → Option Ref × MemoryStore → World
after o cfg err files job w r = elim r.0 [
  | none ↦ w
  | some p ↦
      fail_download o cfg p err job
        (record w { store = begin_download o cfg w.now p r.1; files = files })
]

-- A failed download of a stored session. If the attempts, with this one, are fewer than
-- MaxJobRetries, the session stays in the state of downloading, and a goroutine that waits for the
-- backoff takes the job with one more attempt; otherwise the session and the asset of its hash have
-- failed, the session with the text of the error, and one error is counted. Other sessions read as
-- before.
pub handle_download-failure :
    (o : Outside) (cfg : Config) (err : Text) (files : Text → Option ℕ) (job : Job) (w : World)
    (s : ConversionSession)
    → IsValid w.store
    → session_at job.session_id w.store ≡ some s
    → IsFailed o cfg err job s w (handle_download o cfg (some err) files job w)
unfolding handle_download
handle_download-failure o cfg err files job w s v e =
    let m = (allocate s w.store).1 in
    let p = w.store.next in
    let k = allocate-IsKnown job.session_id w.store s v e in
    let held = allocate-at job.session_id w.store s v e in
    let id : s.id ≡ job.session_id = stored-id job.session_id w.store s v e in
    let stays = allocate-session_at job.session_id w.store s v e in
    let self : session_at job.session_id (begin_download o cfg w.now p m) ≡ some (begun o w.now s) =
      subst (λ i. session_at i (begin_download o cfg w.now p m) ≡ some (begun o w.now s)) id
        (begin_download_self o cfg w.now p m s k held) in
    subst (λ r. IsFailed o cfg err job s w (after o cfg err files job w r))
      (sym (get_session-some job.session_id w.store s v e))
      (fail_download-IsFailed o cfg p err job w
        (record w { store = begin_download o cfg w.now p m; files = files })
        (begin_download-IsKnown o cfg w.now p m k) s
        (begin_download-at o cfg w.now p m k ∙ ap (begun o w.now) held) (fill-id o _ ∙ id) refl refl
        refl self
        (λ j other. begin_download-session_at o cfg w.now p m k j (rw (held, id) other) ∙ stays j))
