-- ===== src/Handlers/Pipeline.antt =====
-- A session from its download to its file.
use ytmpt.Common.{
  ℕ, ◌≡◌, ◌∙◌, refl, ap, true, false, Option, none, some, [], ◌∷◌, ◌++◌, Returns, Returns-known,
  if◌then◌else◌, Option-cases, inl, inr, arith,
}
use ytmpt.Common.Text.{Text, lit, is_empty}
use ytmpt.Config.{Config}
use ytmpt.Models.{ConversionSession, completed, state_text, state_eq}
use ytmpt.Queue.{Job}
use ytmpt.Store.{MemoryStore, Ref, get_session}
use ytmpt.Store.Views.{session_at, IsValid}
use ytmpt.Handlers.{World, Outside, status_body, write_err, is_usable}
use ytmpt.Handlers.Format.{safe_filename}
use ytmpt.Handlers.Flow.{external_status}
use ytmpt.Handlers.Saved.{get_session-some, stored-id, allocate-at}
use ytmpt.Handlers.Frame.{Frame, whole}
use ytmpt.Handlers.Live.{IsSound, rebase}
use ytmpt.Handlers.Sound.Workers.{handle_download-IsSound, handle_convert-Returns}
use ytmpt.Handlers.Answers.{shown, handle_status_lem}
use ytmpt.Handlers.Status.{
  has_output, status_of, handle_status, Served, refused, served, handle_download_file,
}
use ytmpt.Handlers.Workers.{is_waiting, handle_download, handle_convert}
use ytmpt.Handlers.Workers.Download.{done, handle_download-success}
use ytmpt.Handlers.Workers.Encode.{encoded, handle_convert-success}

-- A completed session, shown with a link that leads to its file.
pub record IsDelivered (id : Text) (t : ConversionSession) (w : World) : Type 0 where
  pub answer : (handle_status id w).0 ≡ record { code = 200; body = status_body (status_of t) }
  pub status : (status_of t).status ≡ lit "completed"
  pub link : (status_of t).download_url ≡ lit "/download/" ++ (id ++ lit ".mp3")
  pub file :
      (size : ℕ) × (w.files t.output_path ≡ some size)
      × (handle_download_file id w ≡ served size (safe_filename t.meta.title ++ lit ".mp3"))

append-filled : (s t : Text) (c : ℕ) → is_empty (s ++ c ∷ t) ≡ false
append-filled [] t c = refl
append-filled (x ∷ s) t c = refl

done-ready :
    (o : Outside) (cfg : Config) (now : ℕ) (s : ConversionSession)
    → is_waiting o cfg (done o cfg now s) ≡ false
unfolding is_waiting state_eq lit
done-ready o cfg now s = rw (append-filled cfg.conversions_dir _ b'/') refl

encoded-filled :
    (o : Outside) (cfg : Config) (job : Job) (now : ℕ) (s : ConversionSession)
    → is_empty (encoded o cfg job now s).output_path ≡ false
unfolding lit
encoded-filled o cfg job now s = append-filled cfg.conversions_dir _ b'/'

-- What handleDownloadFile serves of a session, and of the result of GetSession.
abbrev file_of : World → ConversionSession → Served
file_of w t =
    if is_empty t.output_path
    then refused (write_err 404 (lit "file not ready"))
    else elim (w.files t.output_path) [
      | none ↦ refused (write_err 404 (lit "missing"))
      | some size ↦ served size (safe_filename t.meta.title ++ lit ".mp3")
    ]

abbrev served_from : World → Option Ref × MemoryStore → Served
served_from w r = elim r.0 [
  | none ↦ refused (write_err 404 (lit "file not ready"))
  | some p ↦ file_of w (r.1.at p)
]

handle_download_file-served_from :
    (id : Text) (w : World) → handle_download_file id w ≡ served_from w (get_session id w.store)
unfolding handle_download_file
handle_download_file-served_from id w = refl

handle_download_file_lem :
    (id : Text) (w : World) (t : ConversionSession)
    → IsValid w.store
    → session_at id w.store ≡ some t
    → is_empty t.output_path ≡ false
    → is_usable w.files t.output_path ≡ true
    → (size : ℕ) × (w.files t.output_path ≡ some size)
      × (handle_download_file id w ≡ served size (safe_filename t.meta.title ++ lit ".mp3"))
unfolding is_usable
handle_download_file_lem id w t v e filled usable = elim (Option-cases (w.files t.output_path)) [
  | inl missing ↦ absurd (ground (arith, missing))
  | inr (size, there) ↦
      let found = get_session-some id w.store t v e in
      let at = allocate-at id w.store t v e in
      (
        size,
        there,
        handle_download_file-served_from id w
            ∙ ap (served_from w) found
            ∙ ap (file_of w) at
            ∙ rw (filled, there) refl,
      )
]

delivered :
    (id : Text) (t : ConversionSession) (w : World)
    → IsValid w.store
    → session_at id w.store ≡ some t
    → t.state ≡ completed
    → is_empty t.output_path ≡ false
    → is_usable w.files t.output_path ≡ true
    → IsDelivered id t w
delivered id t w v e state filled usable =
    let seen = handle_status_lem id w t v e in
    let output : has_output t ≡ true = rw (state, filled) (unfold state_eq in refl) in
    let kept : shown t w ≡ t = rw (output, usable) refl in
    record {
      answer = seen.answer ∙ ap (λ x. record { code = 200; body = status_body (status_of x) }) kept;
      status = rw state (unfold external_status state_text in refl);
      link =
          rw output
            (ap (λ (i : Text). lit "/download/" ++ (i ++ lit ".mp3")) (stored-id id w.store t v e));
      file = handle_download_file_lem id w t v e filled usable;
    }

-- From a stored session on: its download ends well, with a file that can be used, and then its
-- conversion does, with an output that can be used. Then handleConvert has returned, handleStatus
-- shows the session as completed with the link to its file, and handleDownloadFile serves the file.
pub pipeline_lem :
    {F : Frame} (o : Outside) (cfg : Config) (streams outputs : Text → Option ℕ) (dl cv : Job)
    (w : World) (s : ConversionSession)
    → IsSound F w
    → session_at dl.session_id w.store ≡ some s
    → cv.session_id ≡ dl.session_id
    → is_usable (handle_download o cfg none streams dl w).files (done o cfg w.now s).source_path
      ≡ true
    → is_usable outputs
        (encoded o cfg cv
          (handle_download o cfg none streams dl w).now
          (done o cfg w.now s)).output_path
      ≡ true
    → Returns
        (IsDelivered cv.session_id
          (encoded o cfg cv (handle_download o cfg none streams dl w).now (done o cfg w.now s)))
        (handle_convert o cfg none outputs cv (handle_download o cfg none streams dl w))
pipeline_lem {F} o cfg streams outputs dl cv w s v e same source output =
    let w' = handle_download o cfg none streams dl w in
    let t = done o cfg w.now s in
    let downloaded = handle_download-success o cfg streams dl w s v.store e in
    let v' = handle_download-IsSound o cfg none streams dl w (rebase w v) (λ h. h) in
    let e' : session_at cv.session_id w'.store ≡ some t =
      ap (λ i. session_at i w'.store) same ∙ downloaded.session in
    let (w'', run, encoded_now) =
      handle_convert-success o cfg outputs cv w' t v'.store e' (done-ready o cfg w.now s) source in
    let v'' =
      Returns-known (IsSound (whole w.store))
        (handle_convert-Returns o cfg none outputs cv w' v' (λ h. h)) run in
    let usable : is_usable w''.files (encoded o cfg cv w'.now t).output_path ≡ true =
      ap (λ files. is_usable files (encoded o cfg cv w'.now t).output_path) encoded_now.files_kept
      ∙ output in
    (
      w'',
      run,
      delivered cv.session_id (encoded o cfg cv w'.now t) w'' v''.store encoded_now.session refl
          (encoded-filled o cfg cv w'.now t) usable,
    )
