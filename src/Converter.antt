-- ===== src/Converter.antt =====
-- internal/converter/converter.go. ffmpeg is an argument of the definitions: the lines that it
-- prints, and its exit.
pub mod Progress
pub mod Tail
mod Tests
use ytmpt.Common.{
  ℕ, zero, suc, ◌-◌, ◌+◌, ◌≡◌, Bool, true, false, not, ◌||◌, Option, none, some, List, [], ◌∷◌,
  ◌++◌, length, drop, ltb, leb, ◌==◌, ◌>>=◌, if◌then◌else◌,
}
use ytmpt.Common.Text.{Text, lit, is_empty, text_eq, has_prefix, split, trim_space}
use ytmpt.Common.Int.{ℤ, pos, pos_part, neg_part, lt_ℤ, clamp_pct}
use ytmpt.Common.Decimal.{decimal}

-- A signed %d.
unfoldable signed : ℤ → Text
unfolding decimal
signed n = if lt_ℤ n (pos 0) then b'-' ∷ decimal (neg_part n) else decimal (pos_part n)

pub record ConverterConfig : Type 0 where
  pub mode : Text
  pub cbr_bitrate : Text
  pub vbr_q : ℤ
  pub threads : ℤ

-- Two arguments, where the text is not empty.
unfoldable option_args : Text → Text → List Text
option_args flag t = if is_empty t then [] else flag ∷ t ∷ []

unfoldable bitrate_args : ConverterConfig → Text → List Text
unfolding signed lit
bitrate_args cfg quality =
    if text_eq cfg.mode (lit "CBR")
    then lit "-b:a" ∷ (if is_empty quality then cfg.cbr_bitrate else quality ++ lit "k") ∷ []
    else lit "-q:a" ∷ signed cfg.vbr_q ∷ []

-- The arguments of ffmpeg.
unfoldable pub ffmpeg_args : ConverterConfig → Text → Text → Text → Text → Text → List Text
unfolding option_args bitrate_args
ffmpeg_args cfg input_path output_path quality start end =
    lit "-y"
    ∷ lit "-nostdin"
    ∷ (option_args (lit "-ss") start
        ++ option_args (lit "-to") end
        ++ lit "-fflags"
          ∷ lit "+discardcorrupt"
          ∷ lit "-i"
          ∷ input_path
          ∷ lit "-vn"
          ∷ lit "-acodec"
          ∷ lit "libmp3lame"
          ∷ (bitrate_args cfg quality
              ++ (if lt_ℤ (pos 0) cfg.threads then lit "-threads" ∷ signed cfg.threads ∷ [] else [])
              ++ lit "-progress"
                ∷ lit "pipe:1"
                ∷ lit "-nostats"
                ∷ lit "-loglevel"
                ∷ lit "error"
                ∷ output_path
                ∷ []))

-- What a line of ffmpeg's output reports behind the percentage reported last. `percent` is
-- strconv.ParseFloat, and the floating-point quotient by the duration converted to int.
unfoldable pub reading : (Text → ℤ → ℤ) → ℤ → Text → Option ℕ
unfolding lit
reading percent duration line =
    if has_prefix line (lit "out_time_ms=")
    then if lt_ℤ (pos 0) duration then some (clamp_pct (percent (drop 12 line) duration)) else none
    else none

unfoldable pub report : (Text → ℤ → ℤ) → ℤ → ℕ → Text → Option ℕ
unfolding reading
report percent duration last line =
    reading percent duration line >>= λ pct. if pct == last then none else some pct

-- The calls of onProgress, in order.
unfoldable pub progress : (Text → ℤ → ℤ) → ℤ → ℕ → List Text → List ℕ
unfolding report
progress percent duration last [] = []
progress percent duration last (line ∷ lines) = elim (report percent duration last line) [
  | none ↦ progress percent duration last lines
  | some pct ↦ pct ∷ progress percent duration pct lines
]

-- strings.Join
unfoldable pub join : ℕ → List Text → Text
join sep [] = []
join sep (p ∷ []) = p
join sep (p ∷ q ∷ ps) = p ++ sep ∷ join sep (q ∷ ps)

unfoldable pub tail_lines : Text → ℕ → Text
unfolding join
tail_lines s n =
    let lines = split b'\n' s in
    if n == 0 || is_empty s
    then []
    else if leb (length lines) n
    then trim_space s
    else trim_space (join b'\n' (drop (length lines - n) lines))

-- What Convert returns: the exit of ffmpeg, with the end of its messages.
unfoldable pub convert_error : Option Text → Text → Option Text
unfolding tail_lines lit
convert_error none stderr = none
convert_error (some e) stderr =
    let tail = tail_lines stderr 6 in if is_empty tail then some e else some (e ++ lit ": " ++ tail)

-- What os/exec makes of ffmpeg: no pipe or no start, or a run with the lines of its output, its exit,
-- and its messages. The end of the timeout is an exit.
pub data Execution : Type 0 where
  unstarted : Text → Execution
  ran : List Text → Option Text → Text → Execution

-- The calls of onProgress, and the error.
pub record Conversion : Type 0 where
  pub reported : List ℕ
  pub error : Option Text

-- Convert with its permit, of a source of so many seconds; `exec` runs ffmpeg with its arguments.
unfoldable pub convert :
    (Text → ℤ → ℤ)
    → (List Text → Execution)
    → ConverterConfig
    → Text
    → Text
    → Text
    → Text
    → Text
    → ℤ
    → Conversion
unfolding ffmpeg_args progress convert_error
convert percent exec cfg input_path output_path quality start end duration =
    elim (exec (ffmpeg_args cfg input_path output_path quality start end)) [
      | unstarted err ↦ record { reported = []; error = some err }
      | ran lines exit stderr ↦ record {
        reported = progress percent duration 0 lines;
        error = convert_error exit stderr;
      }
    ]
