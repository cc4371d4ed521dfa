-- ===== src/Bench.antt =====
-- cmd/bench/main.go: how runOne follows a conversion. The responses, decoded by encoding/json, and
-- the instants at which they are read are arguments; an instant is a number of nanoseconds.
pub mod Blind
pub mod Summary
mod Tests
use ytmpt.Common.{
  ℕ, ◌+◌, ◌-◌, ◌/◌, ◌==◌, Bool, true, false, not, ◌&&◌, Option, none, some, List, [], ◌∷◌, ◌++◌,
  leb, if◌then◌else◌,
}
use ytmpt.Common.Text.{Text, lit, text_eq, is_empty, contains}
use ytmpt.Common.Int.{ℤ, pos, pos_part, neg_part, sub_ℕ}
use ytmpt.Common.Decimal.{decimal}

-- t.Sub(u).Milliseconds()
unfoldable pub millis : ℕ → ℕ → ℤ
millis t u = if leb u t then pos ((t - u) / 1000000) else sub_ℕ 0 ((u - t) / 1000000)

-- The instants of the download and of the conversion are `none` where IsZero holds.
pub record JobResult : Type 0 where
  pub url : Text
  pub id : Text
  pub ok : Bool
  pub err : Text
  pub meta_ms : ℤ
  pub queue_wait_ms : ℤ
  pub download_ms : ℤ
  pub convert_ms : ℤ
  pub total_ms : ℤ
  pub prepare_start : ℕ
  pub prepare_end : ℕ
  pub convert_req_end : ℕ
  pub download_start : Option ℕ
  pub download_end : Option ℕ
  pub convert_start : Option ℕ
  pub finished : Option ℕ

pub record StatusResp : Type 0 where
  pub status : Text
  pub download_progress : ℤ
  pub error : Text

pub record Polling : Type 0 where
  pub res : JobResult
  pub saw_downloading : Bool
  pub saw_downloaded : Bool
  pub saw_converting : Bool

-- A tick of the ticker at an instant, with the response of fetchStatus (`none` is an error), or the
-- end of the context.
pub data Event : Type 0 where
  tick : ℕ → Option StatusResp → Event
  deadline : Event

pub data Polled : Type 0 where
  returns : JobResult → Polled
  goes_on : Polling → Polled

abbrev is_hundred : ℤ → Bool
is_hundred n = leb 100 (pos_part n) && leb (pos_part n) 100

-- The answer to /prepare: an error, or the identifier.
pub data Prepared : Type 0 where
  unanswered : Text → Prepared
  named : Text → Prepared

abbrev begun : Text → ℕ → ℕ → JobResult
begun url prepare_start prepare_end = record {
  url = url;
  id = [];
  ok = false;
  err = [];
  meta_ms = pos 0;
  queue_wait_ms = pos 0;
  download_ms = pos 0;
  convert_ms = pos 0;
  total_ms = pos 0;
  prepare_start = prepare_start;
  prepare_end = prepare_end;
  convert_req_end = 0;
  download_start = none;
  download_end = none;
  convert_start = none;
  finished = none;
}

-- Up to the loop; the request to /convert ends at `convert_req_end`, and its answer is ignored.
unfoldable pub prepare : Text → ℕ → ℕ → Prepared → ℕ → Polled
unfolding millis lit
prepare url prepare_start prepare_end (unanswered e) convert_req_end =
    returns (record (begun url prepare_start prepare_end) { err = lit "prepare: " ++ e })
prepare url prepare_start prepare_end (named id) convert_req_end =
    let res = record (begun url prepare_start prepare_end) {
      id = id;
      meta_ms = millis prepare_end prepare_start;
    } in
    if is_empty id
    then returns (record res { err = lit "prepare: empty id" })
    else goes_on (record {
      res = record res { convert_req_end = convert_req_end };
      saw_downloading = false;
      saw_downloaded = false;
      saw_converting = false;
    })

unfoldable pub see_downloading : ℕ → StatusResp → Polling → Polling
unfolding lit
see_downloading now st p =
    if text_eq st.status (lit "downloading") && not p.saw_downloading
    then record p { saw_downloading = true; res = record p.res { download_start = some now } }
    else p

unfoldable pub see_downloaded : ℕ → StatusResp → Polling → Polling
unfolding lit
see_downloaded now st p =
    if text_eq st.status (lit "downloaded") && not p.saw_downloaded
    then record p { saw_downloaded = true; res = record p.res { download_end = some now } }
    else p

unfoldable pub see_converting : ℕ → StatusResp → Polling → Polling
unfolding lit
see_converting now st p =
    if text_eq st.status (lit "converting") && not p.saw_converting
    then record p {
      saw_converting = true;
      res = record p.res {
        convert_start = some now;
        download_end =
            if not p.saw_downloaded && is_hundred st.download_progress
            then some now
            else p.res.download_end;
      };
    }
    else p

unfoldable pub download_time : JobResult → ℤ
unfolding millis
download_time res = elim res.download_start [
  | none ↦ res.download_ms
  | some _ ↦ elim res.download_end [ none ↦ res.download_ms | some t ↦ millis t res.prepare_end ]
]

-- The result of a conversion that is completed now.
unfoldable pub complete : ℕ → JobResult → JobResult
unfolding download_time
complete now res = record res {
  finished = some now;
  ok = true;
  total_ms = millis now res.prepare_end;
  download_ms = download_time res;
  queue_wait_ms = elim res.convert_start [
    | none ↦ res.queue_wait_ms
    | some t ↦ millis t res.convert_req_end
  ];
  convert_ms = elim res.convert_start [ none ↦ res.convert_ms | some t ↦ millis now t ];
}

-- One response of the loop. Its status is one text, so that at most one of the tests reads the clock.
unfoldable pub on_status : Polling → ℕ → StatusResp → Polled
unfolding see_downloading see_downloaded see_converting complete lit
on_status p now st =
    if text_eq st.status (lit "failed")
    then returns (record p.res { err = st.error })
    else (let seen = see_converting now st (see_downloaded now st (see_downloading now st p)) in
        if text_eq st.status (lit "completed")
        then returns (complete now seen.res)
        else goes_on seen)

-- The loop over the events; `none` while it waits for more of them.
unfoldable pub poll : Polling → List Event → Option JobResult
unfolding on_status lit
poll p [] = none
poll p (deadline ∷ es) = some (record p.res { err = lit "timeout" })
poll p (tick now none ∷ es) = poll p es
poll p (tick now (some st) ∷ es) = elim (on_status p now st) [
  | returns res ↦ some res
  | goes_on q ↦ poll q es
]

unfoldable pub run_one : Text → ℕ → ℕ → Prepared → ℕ → List Event → Option JobResult
unfolding prepare poll
run_one url prepare_start prepare_end reply convert_req_end es =
    elim (prepare url prepare_start prepare_end reply convert_req_end) [
      | returns res ↦ some res
      | goes_on p ↦ poll p es
    ]

-- The URL of the job `i`.
unfoldable pub numbered : Text → ℕ → Text
unfolding lit
numbered url i =
    url ++ ((if contains url (lit "?") then b'&' else b'?') ∷ (lit "utm=" ++ decimal i))

pub record Totals : Type 0 where
  pub count : ℕ
  pub meta_sum : ℤ
  pub queue_sum : ℤ
  pub download_sum : ℤ
  pub convert_sum : ℤ
  pub total_sum : ℤ

unfoldable add_ℤ : ℤ → ℤ → ℤ
add_ℤ a b = let up = pos_part a + pos_part b in let down = neg_part a + neg_part b in sub_ℕ up down

-- The sums over the jobs that ended well. Sums below 2 ^ 63 are assumed, as of the times of a run.
unfoldable pub totals : List JobResult → Totals
unfolding add_ℤ
totals [] = record {
  count = 0;
  meta_sum = pos 0;
  queue_sum = pos 0;
  download_sum = pos 0;
  convert_sum = pos 0;
  total_sum = pos 0;
}
totals (r ∷ rs) =
    let t = totals rs in
    if r.ok
    then record {
      count = t.count + 1;
      meta_sum = add_ℤ t.meta_sum r.meta_ms;
      queue_sum = add_ℤ t.queue_sum r.queue_wait_ms;
      download_sum = add_ℤ t.download_sum r.download_ms;
      convert_sum = add_ℤ t.convert_sum r.convert_ms;
      total_sum = add_ℤ t.total_sum r.total_ms;
    }
    else t
