-- ===== src/Handlers/Answers.antt =====
-- What handleStatus and handleDelete answer, and what they leave.
use ytmpt.Common.{
  ℕ, ◌≡◌, ◌∙◌, inl, inr, refl, sym, subst, ap, false, not, ◌&&◌, ◌||◌, ◌≢◌, Option, none, some, [],
  if◌then◌else◌, arith, Bool-cases,
}
use ytmpt.Common.Text.{Text, lit, is_empty, text_eq, text_eq_iff, text_eq_refl}
use ytmpt.Models.{ConversionSession}
use ytmpt.Store.{MemoryStore, Ref, allocate, delete_session, find_by_url}
use ytmpt.Store.Views.{session_at, IsValid, stamped, delete_session_lem}
use ytmpt.Handlers.{World, Response, status_body, message_body, error_body, is_usable}
use ytmpt.Handlers.Saved.{
  IsKnown, get_session-some, stored-id, allocate-at, allocate-session_at, allocate-IsKnown, save-at,
  save-session_at,
}
use ytmpt.Handlers.Status.{
  has_output, expire, refresh, status_of, handle_status, remove_file, handle_delete,
}

-- The session that handleStatus shows: one whose output is gone has failed.
abbrev pub shown : ConversionSession → World → ConversionSession
shown s w =
    if has_output s && not (is_usable w.files s.output_path) then stamped w.now (expire s) else s

-- The answer for the stored session `s`, and the store behind it.
pub record IsShown (id : Text) (s : ConversionSession) (w : World) (r : Response × World)
    : Type 0 where
  pub answer : r.0 ≡ record { code = 200; body = status_body (status_of (shown s w)) }
  pub stored : session_at id r.1.store ≡ some (shown s w)
  pub others : (j : Text) → text_eq id j ≡ false → session_at j r.1.store ≡ session_at j w.store
  pub link :
      is_empty (status_of (shown s w)).download_url
      ≡ not (has_output s && is_usable w.files s.output_path)

module _ (p : Ref) (w : World) (k : IsKnown p w.store) (s : ConversionSession)
    (held : w.store.at p ≡ s) where
  refresh-at : (refresh p w).store.at p ≡ shown s w
  unfolding refresh
  refresh-at = elim (Bool-cases (has_output s && not (is_usable w.files s.output_path))) [
    | inl gone ↦ rw (held, gone) (save-at w.now p expire w.store k refl ∙ rw held)
    | inr there ↦ rw (held, there) held
  ]

  refresh_self :
      session_at s.id w.store ≡ some s → session_at s.id (refresh p w).store ≡ some (shown s w)
  unfolding refresh
  refresh_self e = elim (Bool-cases (has_output s && not (is_usable w.files s.output_path))) [
    | inl gone ↦
        rw (held, gone)
          (save-session_at w.now p expire w.store k refl s.id ∙ rw (held, text_eq_refl s.id))
    | inr there ↦ rw (held, there) e
  ]

  refresh-others :
      (j : Text) → text_eq s.id j ≡ false → session_at j (refresh p w).store ≡ session_at j w.store
  unfolding refresh
  refresh-others j other =
      elim (Bool-cases (has_output s && not (is_usable w.files s.output_path))) [
        | inl gone ↦
            rw (held, gone) (save-session_at w.now p expire w.store k refl j ∙ rw (held, other))
        | inr there ↦ rw (held, there)
      ]

shown-link :
    (s : ConversionSession) (w : World)
    → is_empty (status_of (shown s w)).download_url
      ≡ not (has_output s && is_usable w.files s.output_path)
unfolding lit
shown-link s w = ground arith

-- handleStatus from the answer of GetSession on.
abbrev look : World → Option Ref × MemoryStore → Response × World
look w r = elim r.0 [
  | none ↦ (record { code = 404; body = error_body (lit "not found") }, w)
  | some p ↦
      (let w' = refresh p (record w { store = r.1 }) in
        (record { code = 200; body = status_body (status_of (w'.store.at p)) }, w'))
]

-- For a stored session, handleStatus answers with that session, except that one whose output file
-- is gone or empty is answered and stored as failed, with the time of the update. Other sessions
-- read as before, and the answer holds a link exactly if the session is completed with an output
-- whose file is not empty.
pub handle_status_lem :
    (id : Text) (w : World) (s : ConversionSession)
    → IsValid w.store
    → session_at id w.store ≡ some s
    → IsShown id s w (handle_status id w)
unfolding handle_status
handle_status_lem id w s v e =
    let m = (allocate s w.store).1 in
    let p = w.store.next in
    let w' = record w { store = m } in
    let k = allocate-IsKnown id w.store s v e in
    let held = allocate-at id w.store s v e in
    let same = stored-id id w.store s v e in
    let stays = allocate-session_at id w.store s v e in
    subst (λ r. IsShown id s w (look w r)) (sym (get_session-some id w.store s v e))
      (record {
        answer =
            ap (λ t. record { code = 200; body = status_body (status_of t) })
              (refresh-at p w' k s held);
        stored =
            subst (λ i. session_at i (refresh p w').store ≡ some (shown s w)) same
              (refresh_self p w' k s held
                (subst (λ i. session_at i m ≡ some s) (sym same) (stays id ∙ e)));
        others = λ j other. refresh-others p w' k s held j (rw same other) ∙ stays j;
        link = shown-link s w;
      })

-- What handleDelete leaves of the stored session `s`.
pub record IsDeleted (id : Text) (s : ConversionSession) (w : World) (r : Response × World)
    : Type 0 where
  pub code : r.0.code ≡ 200
  pub sessions :
      (j : Text) → session_at j r.1.store ≡ (if text_eq id j then none else session_at j w.store)
  pub urls : (url : Text) → find_by_url url r.1.store ≢ some id
  pub files :
      (path : Text)
      → r.1.files path ≡ (
          if not (is_empty path) && (text_eq s.source_path path || text_eq s.output_path path)
          then none
          else w.files path)

remove_file_lem :
    (a b path : Text) (files : Text → Option ℕ)
    → remove_file a (remove_file b files) path
      ≡ (if not (is_empty path) && (text_eq a path || text_eq b path) then none else files path)
unfolding remove_file
remove_file_lem a b path files = ground (arith, text_eq_iff a path, text_eq_iff b path)

-- handleDelete from the answer of GetSession on.
abbrev clean : Text → World → Option Ref × MemoryStore → Response × World
clean id w r =
    let answer : Response = record {
      code = 200;
      body = message_body (lit "deleted") (lit "Conversion data removed successfully.");
    } in
    let deleted = record w { store = delete_session id r.1 } in
    elim r.0 [
      | none ↦ (answer, deleted)
      | some p ↦ (
        answer,
        record deleted {
          files = remove_file (r.1.at p).source_path (remove_file (r.1.at p).output_path w.files);
        },
      )
    ]

-- For a stored session, handleDelete answers 200: the session is gone and every other one reads as
-- before, no URL leads to it, and exactly its source and output file are removed.
pub handle_delete_lem :
    (id : Text) (w : World) (s : ConversionSession)
    → IsValid w.store
    → session_at id w.store ≡ some s
    → IsDeleted id s w (handle_delete id w)
unfolding handle_delete
handle_delete_lem id w s v e =
    let m = (allocate s w.store).1 in
    let held = allocate-at id w.store s v e in
    let stays = allocate-session_at id w.store s v e in
    subst (λ r. IsDeleted id s w (clean id w r)) (sym (get_session-some id w.store s v e))
      (record {
        code = refl;
        sessions = λ j. (delete_session_lem id j [] m).0 ∙ rw (stays j);
        urls = λ url. (delete_session_lem id id url m).1;
        files = λ path.
            subst
              (λ t. remove_file t.source_path (remove_file t.output_path w.files) path ≡ (
                if not (is_empty path) && (text_eq s.source_path path || text_eq s.output_path path)
                then none
                else w.files path))
              (sym held) (remove_file_lem s.source_path s.output_path path w.files);
      })
