-- ===== src/Service/Running/Simulation.antt =====
-- The service whose handlers are one step each is a service whose tools return at once.

use ytmpt.Common.{
  ℕ, inl, inr, ◌≡◌, ◌∙◌, sym, subst, ap, Option, none, some, List, Option-cases, arith,
}
use ytmpt.Common.Text.{Text}
use ytmpt.Config.{Config}
use ytmpt.Handlers.{Outside}
use ytmpt.Handlers.Running.{
  Running, Started, over, runs, begin_download_job, begin_convert_job, complete, complete_in,
  handle_download-begin, handle_convert-begin,
}
use ytmpt.Service.{Service}
use ytmpt.Service.Steps
use ytmpt.Service.Running.{
  Process, settle, this, Step, request, download, convert, finish, awake, tidy, tick, Reach, here,
  next,
}

module _ (o : Outside) (cfg : Config) where
  pub Reach-trans : {p q r : Process} → Reach o cfg p q → Reach o cfg q r → Reach o cfg p r
  Reach-trans a here = a
  Reach-trans a (next b step) = next (Reach-trans a b) step

  -- A worker whose tool returns at once.
  complete-Reach :
      (outcome : Option Text) (files : Text → Option ℕ) (p : Process) (started : Started)
      → Step o cfg p (settle p started)
      → Reach o cfg p
          (record p { service = record p.service { world = complete o cfg outcome files started } })
  complete-Reach outcome files p (over w) step = next here step
  complete-Reach outcome files p (runs r w) step = next (next here step) (finish outcome files this)

  abbrev with : List Running → Service → Process
  with rs s = record { service = s; running = rs }

  Step-Reach :
      (rs : List Running) {s t : Service}
      → Steps.Step o cfg s t
      → Reach o cfg (with rs s) (with rs t)
  Step-Reach rs (Steps.Step.request route req run) = next here (request route req run)
  Step-Reach rs {s} (Steps.Step.download outcome files {job} {q} e) =
      let w = record s.world { dl_queue = q } in
      subst (λ w'. Reach o cfg (with rs s) (with rs (record s { world = w' })))
        (sym (handle_download-begin o cfg outcome files job w))
        (complete-Reach outcome files (with rs s) (begin_download_job o cfg job w) (download e))
  Step-Reach rs {s} (Steps.Step.convert outcome files {job} {q} {w = w'} e run) =
      let w = record s.world { cv_queue = q } in
      let whole = sym (handle_convert-begin o cfg outcome files job w) ∙ run in
      elim (Option-cases (begin_convert_job o cfg job w)) [
        | inl failed ↦
            let nothing : none ≡ some w' =
              ap (complete_in o cfg outcome files) (sym failed) ∙ whole in
            absurd (ground (arith, nothing))
        | inr (started, began) ↦
            let same : complete o cfg outcome files started ≡ w' =
              (let it : some (complete o cfg outcome files started) ≡ some w' =
                  ap (complete_in o cfg outcome files) (sym began) ∙ whole in
                ground (arith, it)) in
            subst (λ x. Reach o cfg (with rs s) (with rs (record s { world = x }))) same
              (complete-Reach outcome files (with rs s) started (convert e began))
      ]
  Step-Reach rs (Steps.Step.awake earlier later sleeper e run) =
      next here (awake earlier later sleeper e run)
  Step-Reach rs (Steps.Step.tidy outs streams) = next here (tidy outs streams)
  Step-Reach rs (Steps.Step.tick h) = next here (tick h)

  -- Whatever the service reaches when each handler is one step, it also reaches when the tools take
  -- time, whichever tools are running before and still are afterwards.
  pub Reach-with :
      (rs : List Running) {s t : Service}
      → Steps.Reach o cfg s t
      → Reach o cfg (with rs s) (with rs t)
  Reach-with rs Steps.Reach.here = here
  Reach-with rs (Steps.Reach.next r step) = Reach-trans (Reach-with rs r) (Step-Reach rs step)
