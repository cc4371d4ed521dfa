-- ===== src/Server.antt =====
-- internal/server/server.go and cmd/ytmp3/main.go: New, Start, Stop and main. The HTTP server and
-- the signals of the operating system come from outside: their events are arguments.

use mathlib.Core.List.{Memᴰ}
use ytmpt.Common.{ℕ, ◌≡◌, refl, Option, List, [], ◌∷◌, arith}
use ytmpt.Common.Text.{Text, lit}
use ytmpt.Config.{Config}
use ytmpt.Models.{ConversionSession}
use ytmpt.Service.{Service, new_api, new_chain}

-- The address, and the state of the API behind it.
pub record Server : Type 0 where
  pub addr : Text
  pub service : Service

-- server.New over the configuration that Load returns: NewAPI returns no error.
unfoldable pub new_server : Config → ConversionSession → (Text → Option ℕ) → ℕ → Server
new_server cfg zero_value files now = record {
  addr = lit ":8080";
  service = record { chain = new_chain cfg now; world = new_api cfg zero_value files now };
}

-- What ListenAndServe returns.
pub data StartResult : Type 0 where
  no_error server_closed : StartResult
  failed : Text → StartResult

-- Where main is: at the receive of ctx.Done, in Stop, or at its end with the exit code.
pub data Main : Type 0 where
  serving stopping : Main
  exited : ℕ → Main

-- The server's goroutine has returned, a signal has come, or Shutdown has returned.
pub data ServerEvent : Type 0 where
  start_returned : StartResult → ServerEvent
  signal : ServerEvent
  shutdown_returned : Option Text → ServerEvent

-- log.Fatalf exits with 1; a second signal, or an event of another stage, changes nothing.
unfoldable pub step : Main → ServerEvent → Main
step (exited code) e = exited code
step serving (start_returned no_error) = serving
step serving (start_returned server_closed) = serving
step serving (start_returned (failed err)) = exited 1
step serving signal = stopping
step serving (shutdown_returned err) = serving
step stopping (start_returned no_error) = stopping
step stopping (start_returned server_closed) = stopping
step stopping (start_returned (failed err)) = exited 1
step stopping signal = stopping
step stopping (shutdown_returned err) = exited 0

unfoldable pub run : Main → List ServerEvent → Main
unfolding step
run m [] = m
run m (e ∷ es) = run (step m e) es

run-exited : (code : ℕ) (es : List ServerEvent) → run (exited code) es ≡ exited code
unfolding run
run-exited code [] = refl
run-exited code (e ∷ es) = run-exited code es

-- The process exits with the code 0 only after a signal.
pub run-exits_after_signal : (es : List ServerEvent) → run serving es ≡ exited 0 → Memᴰ signal es
unfolding run
run-exits_after_signal [] h = absurd (ground (arith, h))
run-exits_after_signal (start_returned no_error ∷ es) h = Memᴰ.tail (run-exits_after_signal es h)
run-exits_after_signal (start_returned server_closed ∷ es) h =
    Memᴰ.tail (run-exits_after_signal es h)
run-exits_after_signal (start_returned (failed err) ∷ es) h =
    absurd (ground (arith, run-exited 1 es, h))
run-exits_after_signal (signal ∷ es) h = Memᴰ.head refl
run-exits_after_signal (shutdown_returned err ∷ es) h = Memᴰ.tail (run-exits_after_signal es h)
