-- ===== src/Handlers/Workers/Tests.antt =====
-- The theorems on a conversion that ends well, at a concrete session.
use ytmpt.Common.{ℕ, ◌≡◌, refl, true, false, Option, none, some, Returns}
use ytmpt.Common.Text.{Text, text_eq}
use ytmpt.Common.Dict.{lookup}
use ytmpt.Models.{state_eq}
use ytmpt.Store.{allocate, get_session}
use ytmpt.Handlers.{World, is_usable}
use ytmpt.Handlers.Workers.{
  is_waiting, begin_download, finish_download, handle_download, handle_convert,
}
use ytmpt.Handlers.Workers.Download.{done}
use ytmpt.Handlers.Workers.Encode.{encoded, IsEncoded, handle_convert-success}
use ytmpt.Handlers.Pipeline.{IsDelivered, pipeline_lem}
use ytmpt.Handlers.Samples.{
  defaults, world_outside, job, song, one-IsValid, world, world-IsSound, stored,
}

-- Every file is there.
abbrev five : Text → Option ℕ
five _ = some 5

abbrev full_disk : World
full_disk = record world { files = five }

song_ready : is_waiting world_outside defaults song ≡ false
unfolding is_waiting state_eq
song_ready = refl

song_there : is_usable five song.source_path ≡ true
unfolding is_usable
song_there = refl

handle_convert-success_example :
    Returns
      (IsEncoded world_outside defaults five job song full_disk)
      (handle_convert world_outside defaults none five job full_disk)
handle_convert-success_example =
    handle_convert-success world_outside defaults five job full_disk song one-IsValid stored
      song_ready song_there

streamed :
    is_usable
      (handle_download world_outside defaults none five job world).files
      (done world_outside defaults world.now song).source_path
    ≡ true
unfolding handle_download finish_download begin_download get_session allocate lookup is_usable
    text_eq
streamed = refl

put_out :
    is_usable five
      (encoded world_outside defaults job
        (handle_download world_outside defaults none five job world).now
        (done world_outside defaults world.now song)).output_path
    ≡ true
unfolding is_usable
put_out = refl

pipeline_lem_example :
    Returns
      (IsDelivered job.session_id (
        encoded world_outside defaults job
          (handle_download world_outside defaults none five job world).now
          (done world_outside defaults world.now song)))
      (handle_convert world_outside defaults none five job
        (handle_download world_outside defaults none five job world))
pipeline_lem_example =
    pipeline_lem world_outside defaults five five job job world song world-IsSound stored refl
      streamed put_out
