-- ===== src/Service/Tests.antt =====
-- The theorems of the service at a concrete state.
use ytmpt.Common.{
  Returns, ℕ, ◌≡◌, refl, true, false, ◌||◌, none, some, List, [], ◌∷◌, if◌then◌else◌, arith,
}
use ytmpt.Common.Text.{Text, lit, text_eq, text_eq_iff}
use ytmpt.Common.Dict.{lookup}
use ytmpt.Config.{load, get_env, get_env_duration}
use ytmpt.Models.{ConversionSession}
use ytmpt.Store.{MemoryStore}
use ytmpt.Store.Views.{session_at, IsValid, stamped}
use ytmpt.Handlers.{World}
use ytmpt.Handlers.Status.{expire, handle_status}
use ytmpt.Handlers.Frame.{whole}
use ytmpt.Middleware.{Request}
use ytmpt.Service.{new_api, new_chain, Service, Entry, serve, get_status, clean_up}
use ytmpt.Service.Steps.{IsServed, serve-Returns}
use ytmpt.Handlers.Samples.{world_outside, world-IsSound, defaults, song, one, world}
use ytmpt.Service.Cleanup.{any_gone, outputs_dir, streams_dir, clean_up_lem, handle_status-clean_up}

abbrev service : Service
service = record { chain = new_chain defaults 0; world = world }

abbrev request_one : Request
request_one = record { remote_addr = lit "::1:80"; api_key = [] }

serve-Returns_example :
    Returns
      (IsServed (whole one) request_one service)
      (serve world_outside defaults (get_status (1 ∷ [])) request_one service)
serve-Returns_example =
    serve-Returns world_outside defaults (get_status (1 ∷ [])) request_one service world-IsSound
      (λ h. h)

-- Two entries, one of them past its time.
abbrev listing : List Entry
listing =
    record { name = lit "new.mp3"; is_dir = false; mod_time = some 900000000000 }
    ∷ record { name = lit "a.mp3"; is_dir = false; mod_time = some 100 }
    ∷ []

abbrev late : ℕ
late = 1000000000000

abbrev idle : World
idle = new_api defaults song (λ _. some 9) 0

abbrev later_world : World
later_world = record idle { now = late }

abbrev old_path : Text
old_path = lit "/tmp/conversions/outputs/a.mp3"

clean_up_lem_example : (clean_up defaults listing [] later_world).files old_path ≡ (
    if any_gone (outputs_dir defaults) defaults.converted_file_ttl late old_path listing
      || any_gone (streams_dir defaults) defaults.unconverted_file_ttl late old_path []
    then none
    else later_world.files old_path)
unfolding lit new_api
clean_up_lem_example = clean_up_lem defaults listing [] later_world old_path refl

old_is_gone :
    any_gone (outputs_dir defaults) defaults.converted_file_ttl late old_path listing ≡ true
unfolding load get_env get_env_duration lit text_eq
old_is_gone = refl

-- A session whose output is the old file.
abbrev clip : ConversionSession
clip = record song { output_path = old_path }

abbrev clip_store : MemoryStore
clip_store = record one { at = λ r. clip }

clip_store-IsValid : IsValid clip_store
unfolding lookup text_eq
clip_store-IsValid = record {
  allocated = λ id p e. ground (arith, text_eq_iff (1 ∷ []) id);
  keyed = λ id p e. ground (arith, text_eq_iff (1 ∷ []) id);
}

clip_stored : session_at (1 ∷ []) clip_store ≡ some clip
unfolding lookup text_eq
clip_stored = refl

abbrev clip_world : World
clip_world = record world { store = clip_store; now = late }

abbrev seen : World
seen = (handle_status (1 ∷ []) (clean_up defaults listing [] clip_world)).1

handle_status-clean_up_example :
    (session_at (1 ∷ []) seen.store ≡ some (stamped late (expire clip)))
    × ((j : Text) → text_eq (1 ∷ []) j ≡ false → session_at j seen.store ≡ session_at j clip_store)
unfolding lit ytmpt.Models.state_eq
handle_status-clean_up_example =
    handle_status-clean_up defaults listing [] clip_world (1 ∷ []) clip clip_store-IsValid
      clip_stored refl old_is_gone
