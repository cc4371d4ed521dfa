-- ===== src/Bench/Tests.antt =====
-- The theorem on the benchmark at a service that completes a conversion, and one full measurement.
use ytmpt.Common.{ℕ, ◌≡◌, refl, true, Option, none, some, List, [], ◌∷◌, Returns, ◌>>=◌}
use ytmpt.Common.Text.{Text, lit, text_eq, contains}
use ytmpt.Common.Decimal.{decimal}
use ytmpt.Common.Dict.{lookup}
use ytmpt.Models.{state_text, state_eq}
use ytmpt.Store.{get_session, allocate}
use ytmpt.Common.Int.{pos}
use ytmpt.Handlers.{World, is_usable}
use ytmpt.Handlers.Flow.{external_status}
use ytmpt.Handlers.Status.{handle_status}
use ytmpt.Handlers.Samples.{world}
use ytmpt.Bench.{StatusResp, totals, numbered, tick, named, millis, run_one}
use ytmpt.Bench.Blind.{read_status, watch, ends_well, IsBlind, run_one-watch}

-- The output of the session is there.
abbrev ready : World
ready = record world { files = λ _. some 5 }

abbrev seen : List (ℕ × Option World)
seen = (9, none) ∷ (11, some ready) ∷ []

run_one-watch_example :
    Returns
      (IsBlind (ends_well (1 ∷ []) seen))
      (run_one (lit "u") 1 2 (named (1 ∷ [])) 3 (watch (1 ∷ []) seen))
run_one-watch_example = run_one-watch (lit "u") (1 ∷ []) 1 2 3 seen refl

well : ends_well (1 ∷ []) seen ≡ true
unfolding read_status handle_status get_session is_usable external_status state_text lookup text_eq
    lit state_eq allocate
well = refl

abbrev says : Text → StatusResp
says t = record { status = t; download_progress = pos 0; error = [] }

-- A service that tells of every step would be measured: 2 ms of download, 3 ms of conversion.
measured :
    (run_one (lit "u") 0 1000000 (named (lit "s")) 2000000 (
        tick 1500000 (some (says (lit "downloading")))
        ∷ tick 3000000 (some (says (lit "downloaded")))
        ∷ tick 4000000 (some (says (lit "converting")))
        ∷ tick 7000000 (some (says (lit "completed")))
        ∷ [])
      >>= λ r. some (totals (r ∷ [])))
    ≡ some (record {
      count = 1;
      meta_sum = pos 1;
      queue_sum = pos 2;
      download_sum = pos 2;
      convert_sum = pos 3;
      total_sum = pos 6;
    })
unfolding run_one totals lit text_eq millis
measured = refl

named_url : numbered (lit "http://y?v=1") 12 ≡ lit "http://y?v=1&utm=12"
unfolding numbered lit contains decimal
named_url = refl
