-- ===== src/Handlers/Tests.antt =====
-- The theorems of the store and of the handlers at a concrete store.
use ytmpt.Common.{
  true, length, ◌≤◌, ◌≡◌, refl, none, some, [], ◌∷◌, if◌then◌else◌, ◌==◌, arith, Returns,
}
use ytmpt.Common.Text.{lit, text_eq, text_eq_iff}
use ytmpt.Common.Int.{pos}
use ytmpt.Common.Dict.{lookup}
use ytmpt.Models.{failed, created, ConversionSession, PrepareRequest, ConvertRequest}
use ytmpt.Queue.{new_queue}
use ytmpt.Store.{Asset, of_state, get_asset, MemoryStore}
use ytmpt.Store.Views.{IsValid}
use ytmpt.Handlers.{to_convert, World}
use ytmpt.Handlers.Wake.{wake, IsWoken, wake-Returns}
use ytmpt.Handlers.Frame.{whole}
use ytmpt.Handlers.Prepare.{needs_download, ensure_download}
use ytmpt.Handlers.Status.{handle_status, handle_delete}
use ytmpt.Handlers.Workers.{handle_download}
use ytmpt.Handlers.Workers.Failure.{IsFailed, handle_download-failure}
use ytmpt.Handlers.Refused.{IsStuck, ensure_download-full}
use ytmpt.Handlers.Workers.Download.{IsDownloaded, handle_download-success}
use ytmpt.Handlers.Answers.{IsShown, IsDeleted, handle_status_lem, handle_delete_lem}
use ytmpt.Handlers.Flow.{build_flow, described, steps, build_flow_lem}
use ytmpt.Handlers.Samples.{
  defaults, world_outside, job, song, one, one-IsValid, world, world-IsSound, stored,
}

-- One more object, that no identifier leads to yet.
abbrev two : MemoryStore
two = record one { next = 2; at = λ r. if r == 1 then record song { id = 9 ∷ [] } else song }

two-IsValid : IsValid two
unfolding lookup text_eq
two-IsValid = record {
  allocated = λ id p e. ground (arith, text_eq_iff (1 ∷ []) id);
  keyed = λ id p e. ground (arith, text_eq_iff (1 ∷ []) id);
}

abbrev prepare_request : PrepareRequest
prepare_request = record { url = lit "youtu.be" }

abbrev convert_request : ConvertRequest
convert_request = record { conversion_id = 1 ∷ []; quality = []; start_time = []; end_time = [] }

handle_download-success_example :
    IsDownloaded world_outside defaults job song world
      (handle_download world_outside defaults none world.files job world)
handle_download-success_example =
    handle_download-success world_outside defaults world.files job world song one-IsValid stored

-- The output is gone, so the session has failed.
handle_status_lem_example : IsShown (1 ∷ []) song world (handle_status (1 ∷ []) world)
handle_status_lem_example = handle_status_lem (1 ∷ []) world song one-IsValid stored

handle_delete_lem_example : IsDeleted (1 ∷ []) song world (handle_delete (1 ∷ []) world)
handle_delete_lem_example = handle_delete_lem (1 ∷ []) world song one-IsValid stored

build_flow_lem_example : build_flow created ≡ described created 0 steps
build_flow_lem_example = build_flow_lem created

handle_download-failure_example :
    IsFailed world_outside defaults
      (lit "timeout")
      job
      song
      world
      (handle_download world_outside defaults (some (lit "timeout")) world.files job world)
handle_download-failure_example =
    handle_download-failure world_outside defaults (lit "timeout") world.files job world song
      one-IsValid stored

-- No place in the download queue.
abbrev full_world : World
full_world = record world { dl_queue = new_queue 0 }

no_room : full_world.dl_queue.capacity ≤ length full_world.dl_queue.pq
unfolding new_queue
no_room = omega arith

unknown : needs_download full_world.files (get_asset (2 ∷ []) full_world.store) ≡ true
unfolding needs_download get_asset lookup
unknown = refl

ensure_download-full_example :
    Returns
      (IsStuck world_outside defaults (2 ∷ []) full_world)
      (ensure_download world_outside defaults 0 (1 ∷ []) (2 ∷ []) full_world)
ensure_download-full_example =
    ensure_download-full world_outside defaults 0 (1 ∷ []) (2 ∷ []) full_world unknown no_room

-- A session without a source, whose asset has failed.
abbrev waiting : ConversionSession
waiting = record song { source_path = [] }

abbrev waiting_store : MemoryStore
waiting_store = record one {
  at = λ r. waiting;
  asset_map = (2 ∷ [], record { source_path = []; state = of_state failed }) ∷ [];
}

abbrev failed_asset : Asset
failed_asset = record { source_path = []; state = of_state failed }

wake-Returns_example :
    Returns
      (IsWoken (whole one) (to_convert (pos 2) job) world)
      (wake (to_convert (pos 2) job) world)
wake-Returns_example = wake-Returns (to_convert (pos 2) job) world world-IsSound
