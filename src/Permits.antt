-- ===== src/Permits.antt =====
-- internal/downloader/downloader.go and internal/converter/converter.go: New and withPermit, which
-- both files write alike. The semaphore is a channel with one place for each permit; a goroutine
-- that calls Download or Convert is known by a number.
pub mod Held
mod Tests
use ytmpt.Common.{ℕ, suc, ◌+◌, ◌-◌, ◌<◌, ◌≡◌, List, [], ◌∷◌, ◌++◌}

-- The calls that wait at the send, those that run their function, and those that have returned;
-- `calls` is a log of all of them.
pub record Permits : Type 0 where
  pub capacity : ℕ
  pub held : ℕ
  pub waiting : List ℕ
  pub running : List ℕ
  pub returned : List ℕ
  pub calls : List ℕ

-- make(chan struct{}, maxConcurrent)
abbrev pub new_permits : ℕ → Permits
new_permits max = record {
  capacity = max;
  held = 0;
  waiting = [];
  running = [];
  returned = [];
  calls = [];
}

-- A call; the send, while the channel has room; and the end of the function, with the receive of
-- the deferred function. The Go runtime may choose any of the calls that wait.
pub data Step (p : Permits) : Permits → Type 0 where
  call : (g : ℕ) → Step p (record p { waiting = g ∷ p.waiting; calls = g ∷ p.calls })
  acquire :
      (before after : List ℕ) (g : ℕ)
      → p.waiting ≡ before ++ g ∷ after
      → p.held < p.capacity
      → Step p (record p { held = p.held + 1; waiting = before ++ after; running = g ∷ p.running })
  release :
      (before after : List ℕ) (g : ℕ)
      → p.running ≡ before ++ g ∷ after
      → Step p
          (record p { held = p.held - 1; running = before ++ after; returned = g ∷ p.returned })

pub data Reach (p : Permits) : Permits → Type 0 where
  here : Reach p p
  next : {q r : Permits} → Reach p q → Step q r → Reach p r
