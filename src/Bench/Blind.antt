-- ===== src/Bench/Blind.antt =====
-- runOne against handleStatus, whose status is `preparing` until the conversion has ended.
use ytmpt.Common.{
  ℕ, ◌≡◌, refl, ap, ◌∙◌, inl, inr, Bool, true, false, Option, none, some, List, [], ◌∷◌,
  if◌then◌else◌, Returns, Bool-cases, Option-cases, arith,
}
use ytmpt.Common.Text.{Text, lit, is_empty, text_eq}
use ytmpt.Common.Int.{pos}
use ytmpt.Models.{
  ConversionState, preparing, fetching, created, downloading, downloaded, queued, converting,
  completed, failed, state_text,
}
use ytmpt.Store.{get_session}
use ytmpt.Handlers.{World, Body, error_body, prepare_body, accepted_body, status_body, message_body}
use ytmpt.Handlers.Flow.{external_status}
use ytmpt.Handlers.Status.{handle_status}
use ytmpt.Bench.{
  JobResult, StatusResp, Polling, Event, tick, deadline, Polled, returns, goes_on, named,
  see_downloading, see_downloaded, see_converting, complete, download_time, on_status, poll,
  prepare, run_one,
}

-- fetchStatus: the members of the body that StatusResp names.
unfoldable pub read_status : Body → StatusResp
read_status (error_body e) = record { status = []; download_progress = pos 0; error = e }
read_status (prepare_body r) = record { status = r.status; download_progress = pos 0; error = [] }
read_status (accepted_body r) = record { status = r.status; download_progress = pos 0; error = [] }
read_status (status_body r) = record {
  status = r.status;
  download_progress = pos 0;
  error = r.error;
}
read_status (message_body s m) = record { status = s; download_progress = pos 0; error = [] }

abbrev pub answer_of : Text → World → StatusResp
answer_of id w = read_status (handle_status id w).0.body

-- The ticks at some instants, each with the service at that time, or without an answer.
abbrev pub watch : Text → List (ℕ × Option World) → List Event
watch id [] = deadline ∷ []
watch id ((now, none) ∷ ws) = tick now none ∷ watch id ws
watch id ((now, some w) ∷ ws) = tick now (some (answer_of id w)) ∷ watch id ws

-- The first status that ends the conversion is `completed`.
abbrev pub ends_well : Text → List (ℕ × Option World) → Bool
ends_well id [] = false
ends_well id ((now, none) ∷ ws) = ends_well id ws
ends_well id ((now, some w) ∷ ws) =
    let later = ends_well id ws in
    if text_eq (answer_of id w).status (lit "failed")
    then false
    else if text_eq (answer_of id w).status (lit "completed")
    then true
    else later

-- The statuses of the steps between, which the benchmark waits for.
record IsQuiet (t : Text) : Type 0 where
  no_downloading : text_eq t (lit "downloading") ≡ false
  no_downloaded : text_eq t (lit "downloaded") ≡ false
  no_converting : text_eq t (lit "converting") ≡ false

quiet :
    {t : Text}
    → text_eq t (lit "downloading") ≡ false
    → text_eq t (lit "downloaded") ≡ false
    → text_eq t (lit "converting") ≡ false
    → IsQuiet t
quiet a b c = record { no_downloading = a; no_downloaded = b; no_converting = c }

external_status-IsQuiet : (s : ConversionState) → IsQuiet (external_status s)
unfolding external_status state_text lit text_eq
external_status-IsQuiet preparing = quiet refl refl refl
external_status-IsQuiet fetching = quiet refl refl refl
external_status-IsQuiet created = quiet refl refl refl
external_status-IsQuiet downloading = quiet refl refl refl
external_status-IsQuiet downloaded = quiet refl refl refl
external_status-IsQuiet queued = quiet refl refl refl
external_status-IsQuiet converting = quiet refl refl refl
external_status-IsQuiet completed = quiet refl refl refl
external_status-IsQuiet failed = quiet refl refl refl

answer_of-IsQuiet : (id : Text) (w : World) → IsQuiet (answer_of id w).status
unfolding read_status handle_status
answer_of-IsQuiet id w = elim (Option-cases (get_session id w.store).0) [
  | inl missing ↦
      rw (answer_of, handle_status, missing) (unfold lit text_eq in quiet refl refl refl)
  | inr (p, found) ↦ rw (answer_of, handle_status, found) (external_status-IsQuiet _)
]

-- A quiet status leaves no trace.
seen-IsQuiet :
    (p : Polling) (now : ℕ) (st : StatusResp)
    → IsQuiet st.status
    → see_converting now st (see_downloaded now st (see_downloading now st p)) ≡ p
unfolding see_downloading see_downloaded see_converting
seen-IsQuiet p now st q = rw (q.no_downloading, q.no_downloaded, q.no_converting) refl

on_status-IsQuiet :
    (p : Polling) (now : ℕ) (st : StatusResp)
    → IsQuiet st.status
    → on_status p now st ≡ (
        if text_eq st.status (lit "failed")
        then returns (record p.res { err = st.error })
        else if text_eq st.status (lit "completed")
        then returns (complete now p.res)
        else goes_on p)
unfolding on_status
on_status-IsQuiet p now st q =
    ap
      (λ (seen : Polling).
        if text_eq st.status (lit "failed")
        then returns (record p.res { err = st.error })
        else if text_eq st.status (lit "completed")
        then returns (complete now seen.res)
        else goes_on seen)
      (seen-IsQuiet p now st q)

poll-tick :
    (p : Polling) (now : ℕ) (st : StatusResp) (es : List Event)
    → IsQuiet st.status
    → poll p (tick now (some st) ∷ es) ≡ (
        let rest = poll p es in
        if text_eq st.status (lit "failed")
        then some (record p.res { err = st.error })
        else if text_eq st.status (lit "completed")
        then some (complete now p.res)
        else rest)
unfolding poll
poll-tick p now st es q =
    ap
      (λ (o : Polled). elim o as (λ _. Option JobResult) [
        | returns res ↦ some res
        | goes_on r ↦ poll r es
      ])
      (on_status-IsQuiet p now st q)
    ∙ split_status
  where
    split_status :
        elim (if text_eq st.status (lit "failed")
            then returns (record p.res { err = st.error })
            else if text_eq st.status (lit "completed")
            then returns (complete now p.res)
            else goes_on p)
          as (λ _. Option JobResult) [ returns res ↦ some res | goes_on r ↦ poll r es ]
        ≡ (if text_eq st.status (lit "failed")
            then some (record p.res { err = st.error })
            else if text_eq st.status (lit "completed")
            then some (complete now p.res)
            else poll p es)
    split_status = elim (Bool-cases (text_eq st.status (lit "failed"))) [
      | inl gone ↦ rw gone refl
      | inr other ↦ elim (Bool-cases (text_eq st.status (lit "completed"))) [
        | inl done ↦ rw (other, done) refl
        | inr more ↦ rw (other, more) refl
      ]
    ]

-- Nothing of a download or of a conversion is measured.
pub record IsBlind (ok : Bool) (res : JobResult) : Type 0 where
  pub well : res.ok ≡ ok
  pub download : res.download_ms ≡ pos 0
  pub convert : res.convert_ms ≡ pos 0
  pub queue_wait : res.queue_wait_ms ≡ pos 0

record IsUnseen (res : JobResult) : Type 0 where
  blind : IsBlind false res
  no_start : res.download_start ≡ none
  no_convert : res.convert_start ≡ none

complete-IsBlind : (now : ℕ) (res : JobResult) → IsUnseen res → IsBlind true (complete now res)
unfolding complete download_time
complete-IsBlind now res u = record {
  well = refl;
  download = rw u.no_start u.blind.download;
  convert = rw u.no_convert u.blind.convert;
  queue_wait = rw u.no_convert u.blind.queue_wait;
}

ended : (e : Text) (res : JobResult) → IsUnseen res → IsBlind false (record res { err = e })
ended e res u = record {
  well = u.blind.well;
  download = u.blind.download;
  convert = u.blind.convert;
  queue_wait = u.blind.queue_wait;
}

poll-watch :
    (p : Polling) (id : Text) (ws : List (ℕ × Option World))
    → IsUnseen p.res
    → Returns (IsBlind (ends_well id ws)) (poll p (watch id ws))
unfolding poll
poll-watch p id [] u = (_, refl, ended _ p.res u)
poll-watch p id ((now, none) ∷ ws) u = poll-watch p id ws u
poll-watch p id ((now, some w) ∷ ws) u =
    let one = poll-tick p now (answer_of id w) (watch id ws) (answer_of-IsQuiet id w) in
    let (res, run, blind) = poll-watch p id ws u in
    elim (Bool-cases (text_eq (answer_of id w).status (lit "failed"))) [
      | inl gone ↦ (
        record p.res { err = (answer_of id w).error },
        one ∙ rw gone refl,
        rw (ends_well, gone) (ended _ p.res u),
      )
      | inr other ↦ elim (Bool-cases (text_eq (answer_of id w).status (lit "completed"))) [
        | inl done ↦ (
          complete now p.res,
          one ∙ rw (other, done) refl,
          rw (ends_well, other, done) (complete-IsBlind now p.res u),
        )
        | inr more ↦ (res, one ∙ rw (other, more) run, rw (ends_well, other, more) blind)
      ]
    ]

-- Against handleStatus, runOne returns when its context ends at the latest, whatever the state of the
-- service at each tick; it is well exactly if the first status that ends the conversion is `completed`, and
-- its times of the download, of the conversion and of the wait in the queue are 0. This asks that
-- the service has named the conversion.
pub run_one-watch :
    (url id : Text) (prepare_start prepare_end convert_req_end : ℕ) (ws : List (ℕ × Option World))
    → is_empty id ≡ false
    → Returns
        (IsBlind (ends_well id ws))
        (run_one url prepare_start prepare_end (named id) convert_req_end (watch id ws))
unfolding run_one prepare
run_one-watch url [] prepare_start prepare_end convert_req_end ws h = absurd (ground arith)
run_one-watch url (c ∷ id) prepare_start prepare_end convert_req_end ws h =
    poll-watch _ (c ∷ id) ws (record {
      blind = record { well = refl; download = refl; convert = refl; queue_wait = refl };
      no_start = refl;
      no_convert = refl;
    })
