-- ===== src/Handlers/Status.antt =====
-- internal/handlers/api.go: handleStatus, handleDelete, handleDownloadFile, handleReady and handleStats.
use ytmpt.Common.{ℕ, ◌+◌, Bool, not, ◌&&◌, Option, none, some, [], ◌++◌, if◌then◌else◌}
use ytmpt.Common.Text.{Text, lit, is_empty, text_eq}
use ytmpt.Common.Int.{pos, lt_ℤ}
use ytmpt.Config.{Config}
use ytmpt.Models.{completed, failed, state_eq, ConversionSession, StatusResponse}
use ytmpt.Queue.{len}
use ytmpt.Store.{Ref, get_session, delete_session}
use ytmpt.Handlers.{World, Response, status_body, message_body, write_err, is_usable, save}
use ytmpt.Handlers.Format.{safe_filename}
use ytmpt.Handlers.Flow.{build_flow, friendly_status_text, external_status}

-- s.State == completed && s.OutputPath != ""
abbrev pub has_output : ConversionSession → Bool
has_output s = state_eq s.state completed && not (is_empty s.output_path)

abbrev pub expire : ConversionSession → ConversionSession
expire s = record s {
  output_path = [];
  state = failed;
  error = lit "output expired; please request conversion again";
}

-- An output that is gone makes the session fail.
unfoldable pub refresh : Ref → World → World
refresh p w =
    if has_output (w.store.at p) && not (is_usable w.files (w.store.at p).output_path)
    then record w { store = save w.now p expire w.store }
    else w

abbrev pub status_of : ConversionSession → StatusResponse
status_of s = record {
  conversion_id = s.id;
  status = external_status s.state;
  download_url = if has_output s then lit "/download/" ++ (s.id ++ lit ".mp3") else [];
  queue_position = 0;
  error = s.error;
  status_text = friendly_status_text s;
  flow = build_flow s.state;
}

unfoldable pub handle_status : Text → World → Response × World
unfolding refresh
handle_status id w =
    let (found, m) = get_session id w.store in
    elim found [
      | none ↦ (write_err 404 (lit "not found"), w)
      | some p ↦
          (let w' = refresh p (record w { store = m }) in
            (record { code = 200; body = status_body (status_of (w'.store.at p)) }, w'))
    ]

-- _ = os.Remove(path), if the path is not empty.
unfoldable pub remove_file : Text → (Text → Option ℕ) → Text → Option ℕ
remove_file path files q =
    if is_empty path then files q else if text_eq path q then none else files q

unfoldable pub handle_delete : Text → World → Response × World
handle_delete id w =
    let (found, m) = get_session id w.store in
    let answer : Response = record {
      code = 200;
      body = message_body (lit "deleted") (lit "Conversion data removed successfully.");
    } in
    let deleted = record w { store = delete_session id m } in
    elim found [
      | none ↦ (answer, deleted)
      | some p ↦ (
        answer,
        record deleted {
          files = remove_file (m.at p).source_path (remove_file (m.at p).output_path w.files);
        },
      )
    ]

-- What handleDownloadFile serves: the size and the name of the file, or an error.
pub data Served : Type 0 where
  refused : Response → Served
  served : ℕ → Text → Served

unfoldable pub handle_download_file : Text → World → Served
handle_download_file id w =
    let (found, m) = get_session id w.store in
    elim found [
      | none ↦ refused (write_err 404 (lit "file not ready"))
      | some p ↦
          if is_empty (m.at p).output_path
          then refused (write_err 404 (lit "file not ready"))
          else elim (w.files (m.at p).output_path) [
            | none ↦ refused (write_err 404 (lit "missing"))
            | some size ↦ served size (safe_filename (m.at p).meta.title ++ lit ".mp3")
          ]
    ]

unfoldable pub handle_ready : Config → World → Response
handle_ready cfg w =
    if lt_ℤ (pos 0) cfg.shed_queue_threshold
      && lt_ℤ cfg.shed_queue_threshold (pos (len w.dl_queue + len w.cv_queue))
    then write_err 503 (lit "shedding: too many queued jobs")
    else record { code = 200; body = message_body (lit "ready") [] }

-- The two numbers of handleStats.
unfoldable pub handle_stats : World → ℕ × ℕ
handle_stats w = (len w.dl_queue, len w.cv_queue)
