-- ===== src/Metrics/Tests.antt =====
-- A duration of four seconds.
use ytmpt.Common.{◌≡◌, refl}
use ytmpt.Metrics.{bucket_from, bucket_of}

four_seconds : bucket_of 4000000000 ≡ 4
unfolding bucket_of bucket_from
four_seconds = refl
