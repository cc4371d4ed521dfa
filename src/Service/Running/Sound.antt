-- ===== src/Service/Running/Sound.antt =====
-- What every step of the service keeps while tools run.
use mathlib.Core.List.{Memᴰ}
use ytmpt.Common.{ℕ, ◌<◌, ◌≤◌, ◌≡◌, refl, [], arith, Option, Returns-known}
use ytmpt.Common.Text.{Text}
use ytmpt.Config.{Config}
use ytmpt.Models.{ConversionSession}
use ytmpt.Middleware.{Chain}
use ytmpt.Store.{MemoryStore, Ref}
use ytmpt.Handlers.{World, Outside}
use ytmpt.Handlers.Frame.{Frame, whole, others, others-Keeps}
use ytmpt.Handlers.Live.{IsLive, IsSound, rebase}
use ytmpt.Handlers.Running.{Running, ref_of, Started, over, runs}
use ytmpt.Handlers.Sound.Running.{
  IsStarted, begin_download_job-IsStarted, begin_convert_job-Returns, end_job-IsSound,
}
use ytmpt.Handlers.Wake.{wake-Returns}
use ytmpt.Service.{Service, clean_up, new_api}
use ytmpt.Service.Steps.{
  IsServed, serve-Returns, taken_download-IsSound, taken_convert-IsSound, new_api-IsSound,
}
use ytmpt.Service.Running.{
  Process, settle, Step, request, download, convert, finish, awake, tidy, tick, Reach, here, next,
}
use ytmpt.Service.Running.Order.{
  IsBelow, no_more, newest, IsBelow-later, IsBelow-Mem, Ends-Mem, Ends-IsBelow, Ends-apart,
}

abbrev pub store_of : Process → MemoryStore
store_of p = p.service.world.store

-- The store and the queues are well formed, and the pointers of the goroutines that wait for their
-- tool are allocated and all different.
pub record IsFine (p : Process) : Type 0 where
  pub sound : IsSound (whole (store_of p)) p.service.world
  pub below : IsBelow (store_of p).next p.running

-- The process is fine after a step, and the step wrote through no pointer of a goroutine that
-- waits for its tool before and after it.
pub record IsSafe (p p' : Process) : Type 0 where
  pub fine : IsFine p'
  pub unwritten :
      (r : Running)
      → Memᴰ r p.running
      → Memᴰ r p'.running
      → (store_of p').at (ref_of r) ≡ (store_of p).at (ref_of r)

except : {F : Frame} (p : Ref) (w : World) → IsSound F w → IsSound (others p w.store) w
except p w v = record {
  store = v.store;
  kept = others-Keeps p w.store;
  dl_queue = v.dl_queue;
  cv_queue = v.cv_queue;
}

-- The goroutines that wait are the same.
quiet :
    (p : Process) (s : Service)
    → IsFine p
    → IsSound (whole (store_of p)) s.world
    → IsSafe p (record p { service = s })
quiet p s f v = record {
  fine = record { sound = rebase s.world v; below = IsBelow-later v.kept.next f.below };
  unwritten = λ r m m'. v.kept.at (ref_of r) (IsBelow-Mem f.below m);
}

settle-IsSafe :
    (p : Process) (started : Started)
    → IsFine p
    → IsStarted (whole (store_of p)) started
    → IsSafe p (settle p started)
settle-IsSafe p (over w) f v = quiet p (record p.service { world = w }) f v
settle-IsSafe p (runs r w) f (live, v) = record {
  fine = record {
    sound = rebase w v;
    below = newest live.allocated (IsBelow-later (beyond live.free) f.below);
  };
  unwritten = λ v' m m'. v.kept.at (ref_of v') (IsBelow-Mem f.below m);
}
  where
    beyond : {q n : ℕ} → ¬ (q < n) → n ≤ q
    beyond h = ground (arith, h)

module _ (o : Outside) (cfg : Config) where
  pub Step-IsSafe : {p q : Process} → Step o cfg p q → IsFine p → IsSafe p q
  unfolding clean_up
  Step-IsSafe {p} (request route req {reply} {s} run) f =
      quiet p s f
        (Returns-known (IsServed (whole (store_of p)) req p.service)
          (serve-Returns o cfg route req p.service f.sound (λ h. h)) run).sound
  Step-IsSafe {p} (download {job} {q} e) f = settle-IsSafe p _ f (
      begin_download_job-IsStarted o cfg job _
        (taken_download-IsSound o cfg p.service.world f.sound e) (λ h. h))
  Step-IsSafe {p} (convert {job} {q} {started} e run) f = settle-IsSafe p started f (
      Returns-known (IsStarted (whole (store_of p)))
        (begin_convert_job-Returns o cfg job _
          (taken_convert-IsSound o cfg p.service.world f.sound e) (λ h. h))
        run)
  Step-IsSafe {p} (finish outcome files {r} {rs} e) f =
      let w = p.service.world in
      let live : IsLive (others (ref_of r) w.store) (ref_of r) w.store = record {
        valid = f.sound.store;
        kept = others-Keeps (ref_of r) w.store;
        allocated = IsBelow-Mem f.below (Ends-Mem e);
        free = λ h. h.1 refl;
        far = λ h. h;
      } in
      let v = end_job-IsSound o cfg outcome files r w live (except (ref_of r) w f.sound) in
      record {
        fine = record {
          sound = rebase _ v;
          below = IsBelow-later v.kept.next (Ends-IsBelow e f.below);
        };
        unwritten = λ x m m'. v.kept.at (ref_of x) (IsBelow-Mem f.below m, Ends-apart e f.below m');
      }
  Step-IsSafe {p} (awake earlier later sleeper e run) f =
      quiet p _ f
        (Returns-known _
          (wake-Returns sleeper _ (record {
            store = f.sound.store;
            kept = f.sound.kept;
            dl_queue = f.sound.dl_queue;
            cv_queue = f.sound.cv_queue;
          }))
          run).sound
  Step-IsSafe {p} (tidy outs streams) f = quiet p _ f (record {
    store = f.sound.store;
    kept = f.sound.kept;
    dl_queue = f.sound.dl_queue;
    cv_queue = f.sound.cv_queue;
  })
  Step-IsSafe {p} (tick h) f = quiet p _ f (record {
    store = f.sound.store;
    kept = f.sound.kept;
    dl_queue = f.sound.dl_queue;
    cv_queue = f.sound.cv_queue;
  })

  pub Reach-IsFine : {p q : Process} → Reach o cfg p q → IsFine p → IsFine q
  Reach-IsFine here f = f
  Reach-IsFine (next r step) f = (Step-IsSafe step (Reach-IsFine r f)).fine

  -- In every state that the service reaches from its start, whatever requests, workers, timers and
  -- cleanups come in whatever order while any number of tools run, the store and both queues are
  -- well formed, and the pointers that the running goroutines hold are allocated and all different.
  pub Reach-new_api-IsFine :
      (chain : Chain) (zero_value : ConversionSession) (files : Text → Option ℕ) (now : ℕ)
      {p : Process}
      → Reach o cfg
          (record {
            service = record { chain = chain; world = new_api cfg zero_value files now };
            running = [];
          })
          p
      → IsFine p
  Reach-new_api-IsFine chain zero_value files now r =
      Reach-IsFine r
        (record { sound = rebase _ (new_api-IsSound cfg zero_value files now); below = no_more })
