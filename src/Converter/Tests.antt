-- ===== src/Converter/Tests.antt =====
-- The theorems on the converter at concrete lines, and the arguments of ffmpeg.
use ytmpt.Common.{
  ◌*◌, ◌-◌, ◌≡◌, ◌≤◌, refl, true, some, List, [], ◌∷◌, ◌++◌, length, leb, if◌then◌else◌, arith,
}
use ytmpt.Common.Text.{Text, lit, text_eq, has_prefix, split, trim_space}
use ytmpt.Common.Int.{ℤ, pos}
use ytmpt.Common.Decimal.{decimal}
use ytmpt.Converter.{ffmpeg_args, tail_lines, convert_error, reading, progress}
use ytmpt.Converter.Progress.{readings, last_of, IsRising, progress-IsRising}
use ytmpt.Converter.Tail.{feeds, ends_line, tail_lines_lem}

-- Ten per cent for each byte.
abbrev tenths : Text → ℤ → ℤ
tenths v d = pos (10 * length v)

abbrev printed : List Text
printed =
    lit "frame=1"
    ∷ lit "out_time_ms=123"
    ∷ lit "out_time_ms=456"
    ∷ lit "out_time_ms=12345678901"
    ∷ []

rising_readings : readings tenths (pos 200) printed ≡ 30 ∷ 30 ∷ 100 ∷ []
unfolding reading lit has_prefix
rising_readings = refl

progress-IsRising_example :
    IsRising 0 (progress tenths (pos 200) 0 printed)
    × length (progress tenths (pos 200) 0 printed) ≤ 100
    × (last_of 0 (progress tenths (pos 200) 0 printed)
        ≡ last_of 0 (readings tenths (pos 200) printed))
progress-IsRising_example =
    progress-IsRising tenths (pos 200) printed (unfold reading lit has_prefix in ground arith)

reported : progress tenths (pos 200) 0 printed ≡ 30 ∷ 100 ∷ []
unfolding progress reading lit has_prefix
reported = refl

tail_lines_lem_example :
    (p t : Text) × (lit "a\nb\nc" ≡ p ++ t)
    × (ends_line p ≡ true)
    × (feeds t ≡ (if leb (feeds (lit "a\nb\nc")) (2 - 1) then feeds (lit "a\nb\nc") else 2 - 1))
    × (tail_lines (lit "a\nb\nc") 2 ≡ trim_space t)
tail_lines_lem_example = tail_lines_lem (lit "a\nb\nc") 2 (ground arith)

shortened :
    convert_error (some (lit "exit status 1")) (lit "one\ntwo\n")
    ≡ some (lit "exit status 1: one\ntwo")
unfolding convert_error lit trim_space split
shortened = refl

clipped_args :
    ffmpeg_args
      (record { mode = lit "CBR"; cbr_bitrate = lit "192k"; vbr_q = pos 5; threads = pos 2 })
      (lit "in")
      (lit "out.mp3")
      (lit "320")
      (lit "10")
      []
    ≡ lit "-y"
      ∷ lit "-nostdin"
      ∷ lit "-ss"
      ∷ lit "10"
      ∷ lit "-fflags"
      ∷ lit "+discardcorrupt"
      ∷ lit "-i"
      ∷ lit "in"
      ∷ lit "-vn"
      ∷ lit "-acodec"
      ∷ lit "libmp3lame"
      ∷ lit "-b:a"
      ∷ lit "320k"
      ∷ lit "-threads"
      ∷ lit "2"
      ∷ lit "-progress"
      ∷ lit "pipe:1"
      ∷ lit "-nostats"
      ∷ lit "-loglevel"
      ∷ lit "error"
      ∷ lit "out.mp3"
      ∷ []
unfolding ffmpeg_args lit text_eq decimal
clipped_args = refl
