-- ===== src/Service/Running/Meanwhile.antt =====
-- What happens to the session of a worker while its tool runs.
use mathlib.Core.List.{Memᴰ}
use ytmpt.Common.{ℕ, ◌≡◌, ◌∙◌, subst, Option}
use ytmpt.Common.Text.{Text}
use ytmpt.Config.{Config}
use ytmpt.Models.{ConversionSession}
use ytmpt.Store.Views.{session_at}
use ytmpt.Handlers.{Outside}
use ytmpt.Handlers.Running.{Running, ref_of, end_job}
use ytmpt.Handlers.Running.Ended.{verdict, ruled, end_job-session_at}
use ytmpt.Service.Running.{Process, Step}
use ytmpt.Service.Running.Order.{IsBelow-Mem}
use ytmpt.Service.Running.Sound.{store_of, IsFine, Step-IsSafe}

module _ (o : Outside) (cfg : Config) where
  -- Steps during all of which `r` waits for its tool.
  pub data Meanwhile (r : Running) (p : Process) : Process → Type 0 where
    begins : Meanwhile r p p
    passes :
        {q q' : Process} → Meanwhile r p q → Step o cfg q q' → Memᴰ r q'.running → Meanwhile r p q'

  -- The process is fine, `r` waits for its tool, and its object is `s`.
  pub record IsHeld (r : Running) (s : ConversionSession) (p : Process) : Type 0 where
    pub fine : IsFine p
    pub waits : Memᴰ r p.running
    pub object : (store_of p).at (ref_of r) ≡ s

  pub Meanwhile-IsHeld :
      {r : Running} {s : ConversionSession} {p q : Process}
      → Meanwhile r p q
      → IsHeld r s p
      → IsHeld r s q
  Meanwhile-IsHeld begins h = h
  Meanwhile-IsHeld {r} (passes m step waits) h =
      let h' = Meanwhile-IsHeld m h in
      let safe = Step-IsSafe o cfg step h'.fine in
      record {
        fine = safe.fine;
        waits = waits;
        object = safe.unwritten r h'.waits waits ∙ h'.object;
      }

  -- A worker keeps its copy `s` of the session while its tool runs, whatever requests, other
  -- workers, timers and cleanups come meanwhile; when the tool returns, the outcome on that copy
  -- replaces what is stored under the identifier, if the session is still there, and no other
  -- session changes.
  pub end_job-Meanwhile :
      (outcome : Option Text) (files : Text → Option ℕ) (r : Running) (s : ConversionSession)
      {p q : Process}
      → IsHeld r s p
      → Meanwhile r p q
      → (j : Text)
      → session_at j (end_job o cfg outcome files r q.service.world).store
        ≡ ruled o cfg
            (verdict o cfg outcome r q.service.world.now s)
            s.id
            (session_at j (store_of q))
            j
  end_job-Meanwhile outcome files r s {p} {q} h m j =
      let h' = Meanwhile-IsHeld m h in
      subst
        (λ t.
          session_at j (end_job o cfg outcome files r q.service.world).store
          ≡ ruled o cfg (verdict o cfg outcome r q.service.world.now t) t.id
              (session_at j (store_of q)) j)
        h'.object
        (end_job-session_at o cfg outcome files r q.service.world h'.fine.sound.store
          (IsBelow-Mem h'.fine.below h'.waits) j)
