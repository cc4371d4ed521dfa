-- ===== src/Handlers/Running/Ended.antt =====
-- What the second part of a worker leaves, in whatever store its tool returns.
use ytmpt.Common.{
  ℕ, ◌≡◌, ◌<◌, ◌∙◌, inl, inr, refl, Option, none, some, if◌then◌else◌, Bool-cases, Option-cases,
  arith,
}
use ytmpt.Common.Text.{Text, lit, text_eq, text_eq_iff}
use ytmpt.Common.Dict.{lookup}
use ytmpt.Config.{Config}
use ytmpt.Models.{ConversionSession, downloaded, completed, failed}
use ytmpt.Store.{MemoryStore, Ref, of_state, assign, update_session}
use ytmpt.Store.Views.{session_at, IsValid, stamped}
use ytmpt.Handlers.{World, Outside, save}
use ytmpt.Handlers.Saved.{IsKnown, save-session_at}
use ytmpt.Handlers.Workers.{
  error_text, may_retry, stream_path, output_path_of, fail_download, finish_download, fail_convert,
  finish_convert,
}
use ytmpt.Handlers.Workers.Download.{session_at-set_asset}
use ytmpt.Handlers.Workers.Encode.{session_at-set_variant}
use ytmpt.Handlers.Running.{Running, on_download, on_convert, ref_of, end_job}

-- A session over the stored one; a session that is not stored stays so.
abbrev pub over_stored : ConversionSession → Option ConversionSession → Option ConversionSession
over_stored t none = none
over_stored t (some s) = some t

module _ (now : ℕ) (p : Ref) (f : ConversionSession → ConversionSession) (m : MemoryStore)
    (v : IsValid m) (live : p < m.next) (same : (f (m.at p)).id ≡ (m.at p).id) where
  -- A save of a pointer replaces the stored session, if there is one still.
  pub save-over_stored :
      (j : Text)
      → session_at j (save now p f m) ≡ (
          if text_eq (m.at p).id j
          then over_stored (stamped now (f (m.at p))) (session_at j m)
          else session_at j m)
  unfolding save update_session assign
  save-over_stored j = elim (Option-cases (lookup (m.at p).id m.sessions)) [
    | inr (q, found) ↦
        let k : IsKnown p m = record { valid = v; allocated = live; holder = q; held = found } in
        ground (arith, save-session_at now p f m k same j, found, text_eq_iff (m.at p).id j)
    | inl missing ↦ ground (arith, missing, same, v.keyed j p, text_eq_iff (m.at p).id j)
  ]

module _ (o : Outside) (cfg : Config) where
  -- The session that a worker with the copy `s` writes when its tool returns; `none` on a retry.
  abbrev pub verdict : Option Text → Running → ℕ → ConversionSession → Option ConversionSession
  verdict none (on_download p job start) now s =
      some (
        stamped now (record s { source_path = stream_path o cfg s.asset_hash; state = downloaded }))
  verdict none (on_convert p job start) now s = some (
      stamped now
        (record s { output_path = output_path_of o cfg s.variant_hash; state = completed }))
  verdict (some err) (on_download p job start) now s =
      if may_retry o cfg job
      then none
      else some (
          stamped now (record s {
            state = failed;
            error = error_text (lit "download aborted by tool; retry later") err;
          }))
  verdict (some err) (on_convert p job start) now s =
      if may_retry o cfg job
      then none
      else some (
          stamped now (record s {
            state = failed;
            error =
                error_text
                  (lit
                    "conversion aborted by encoder; source may be stale or environment under load")
                  err;
          }))

  -- What the store shows after the verdict.
  abbrev pub ruled :
      Option ConversionSession → Text → Option ConversionSession → Text → Option ConversionSession
  ruled none id stored j = stored
  ruled (some t) id stored j = if text_eq id j then over_stored t stored else stored

  -- The end of a job shows its verdict on its own copy at the identifier of that copy, and changes
  -- no other session.
  pub end_job-session_at :
      (outcome : Option Text) (files : Text → Option ℕ) (r : Running) (w : World)
      → IsValid w.store
      → ref_of r < w.store.next
      → (j : Text)
      → session_at j (end_job o cfg outcome files r w).store
        ≡ ruled
            (verdict outcome r w.now (w.store.at (ref_of r)))
            (w.store.at (ref_of r)).id
            (session_at j w.store)
            j
  unfolding end_job finish_download fail_download finish_convert fail_convert
  end_job-session_at none files (on_download p job start) w v live j =
      session_at-set_asset _ _ (of_state downloaded) (save w.now p _ w.store) j
      ∙ save-over_stored w.now p _ w.store v live refl j
  end_job-session_at none files (on_convert p job start) w v live j =
      session_at-set_variant _ _ (save w.now p _ w.store) j
      ∙ save-over_stored w.now p _ w.store v live refl j
  end_job-session_at (some err) files (on_download p job start) w v live j =
      elim (Bool-cases (may_retry o cfg job)) [
        | inl again ↦ rw again refl
        | inr never ↦ rw never (
            session_at-set_asset _ _ (of_state failed) (save w.now p _ w.store) j
            ∙ save-over_stored w.now p _ w.store v live refl j)
      ]
  end_job-session_at (some err) files (on_convert p job start) w v live j =
      elim (Bool-cases (may_retry o cfg job)) [
        | inl again ↦ rw again refl
        | inr never ↦ rw never (save-over_stored w.now p _ w.store v live refl j)
      ]
