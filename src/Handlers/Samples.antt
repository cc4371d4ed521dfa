-- ===== src/Handlers/Samples.antt =====
-- A configuration, a store of one session and a world, for the tests.
use ytmpt.Common.{◌≡◌, refl, none, some, [], ◌∷◌, arith}
use ytmpt.Common.Text.{lit, text_eq, text_eq_iff}
use ytmpt.Common.Int.{pos}
use ytmpt.Common.Dict.{lookup}
use ytmpt.Config.{Config, load}
use ytmpt.Models.{completed, ConversionSession}
use ytmpt.Queue.{Job, job_convert, new_queue}
use ytmpt.Metrics.{new_registry}
use ytmpt.Store.{MemoryStore}
use ytmpt.Store.Views.{session_at, IsValid}
use ytmpt.Handlers.{World, Outside}
use ytmpt.Handlers.Frame.{whole, whole-Keeps}
use ytmpt.Handlers.Live.{IsSound}

-- The configuration of an empty environment.
abbrev pub defaults : Config
defaults = load (λ _. []) (λ _. none) (λ _. none) (λ _. none)

abbrev pub world_outside : Outside
world_outside = record {
  parse_url = λ s. some (record { host = s; path = []; v = lit "abc"; bare = [] });
  hash_string = λ s. s;
  random = λ n. n;
}

-- A completed session, whose identifier is one byte.
abbrev pub song : ConversionSession
song = record {
  id = 1 ∷ [];
  url = 7 ∷ [];
  asset_hash = 2 ∷ [];
  variant_hash = 3 ∷ [];
  state = completed;
  created_at = 0;
  updated_at = 0;
  source_path = 4 ∷ [];
  output_path = 5 ∷ [];
  quality = [];
  error = [];
  meta = record { title = []; duration = pos 60; thumbnail = [] };
}

abbrev pub one : MemoryStore
one = record {
  sessions = (1 ∷ [], 0) ∷ [];
  url_to_id = (7 ∷ [], 1 ∷ []) ∷ [];
  variant_to_out = [];
  asset_map = [];
  next = 1;
  at = λ r. song;
}

pub one-IsValid : IsValid one
unfolding lookup text_eq
one-IsValid = record {
  allocated = λ id p e. ground (arith, text_eq_iff (1 ∷ []) id);
  keyed = λ id p e. ground (arith, text_eq_iff (1 ∷ []) id);
}

abbrev pub job : Job
job = record {
  id = [];
  kind = job_convert;
  session_id = 1 ∷ [];
  quality = [];
  start_time = [];
  end_time = [];
  enqueued_at = 0;
  priority = 5;
  api_key = [];
  attempts = 0;
}

-- The store of one session, empty queues of ten places, and no files.
abbrev pub world : World
world = record {
  store = one;
  files = λ _. none;
  dl_queue = new_queue 10;
  cv_queue = new_queue 10;
  sleepers = [];
  metrics = new_registry 0;
  now = 100;
  drawn = 0;
}

pub world-IsSound : IsSound (whole one) world
unfolding new_queue
world-IsSound = record {
  store = one-IsValid;
  kept = whole-Keeps one;
  dl_queue = record { heap = λ c p q. absurd (omega arith); bounded = omega arith };
  cv_queue = record { heap = λ c p q. absurd (omega arith); bounded = omega arith };
}

pub stored : session_at (1 ∷ []) one ≡ some song
unfolding lookup text_eq
stored = refl
