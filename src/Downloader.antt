-- ===== src/Downloader.antt =====
-- internal/downloader/downloader.go. The HTTP calls and yt-dlp are arguments: the responses, decoded
-- by encoding/json, and the output of the command. The parts of package strings that this file
-- calls are written out here.
pub mod Printer
pub mod Values
pub mod Fields
pub mod Fetch
mod Tests
use ytmpt.Common.{
  ℕ, ◌+◌, Bool, true, false, not, ◌&&◌, ◌||◌, Option, none, some, List, [], ◌∷◌, ◌++◌, ltb, leb,
  ◌==◌, if◌then◌else◌, ◌>>=◌,
}
use ytmpt.Common.Text.{Text, lit, is_empty, has_prefix, trim_space}
use ytmpt.Common.Int.{ℤ, pos, lt_ℤ, clamp_pct}
use ytmpt.Common.Decimal.{atoi}

-- s[strings.Index(s, sub):], if there is an occurrence.
unfoldable pub from_index : Text → Text → Option Text
from_index sub [] = if has_prefix [] sub then some [] else none
from_index sub (c ∷ s) =
    let later = from_index sub s in if has_prefix (c ∷ s) sub then some (c ∷ s) else later

-- s[:strings.IndexByte(s, c)], if there is an occurrence.
unfoldable pub before_byte : ℕ → Text → Option Text
before_byte c [] = none
before_byte c (x ∷ s) =
    let later = before_byte c s in if x == c then some [] else (later >>= λ p. some (x ∷ p))

-- s[strings.Index(s, ":") + 1:], if there is an occurrence.
unfoldable pub after_byte : ℕ → Text → Option Text
after_byte c [] = none
after_byte c (x ∷ s) = let later = after_byte c s in if x == c then some s else later

-- What stands before the byte, or all of it.
abbrev pub until_byte : ℕ → Text → Text
until_byte c s = elim (before_byte c s) [ some p ↦ p | none ↦ s ]

abbrev pub or_empty : Option Text → Text
or_empty none = []
or_empty (some t) = t

-- The value behind the colon: a text in quotes, or all up to a comma.
unfoldable pub field_value : Text → Text
field_value [] = []
field_value (x ∷ v) =
    if x == b'"' then or_empty (before_byte b'"' v) else trim_space (until_byte b',' (x ∷ v))

unfoldable pub extract_json_field : Text → Text → Text
unfolding from_index before_byte after_byte field_value
extract_json_field js field = elim (from_index (b'"' ∷ (field ++ b'"' ∷ [])) js) [
  | none ↦ []
  | some s ↦ elim (after_byte b':' s) [ none ↦ [] | some v ↦ field_value (trim_space v) ]
]

-- The response of an HTTP call: its status, and the decoded body, if it decodes.
pub record HttpReply {ℓ} (A : Type ℓ) : Type ℓ where
  pub status : ℕ
  pub payload : Option A

-- The checks that both calls make of the endpoint and of the response.
unfoldable pub accepted {ℓ} : {A : Type ℓ} → Text → Option (HttpReply A) → Option A
accepted endpoint none = none
accepted endpoint (some r) =
    if is_empty endpoint
    then none
    else if ltb r.status 200 || leb 300 r.status
    then none
    else r.payload

pub record OEmbed : Type 0 where
  pub title : Text
  pub thumbnail_url : Text

-- Without a response, `none`: the request is not built, or it fails.
unfoldable pub fetch_oembed : Text → Option (HttpReply OEmbed) → Option OEmbed
unfolding accepted
fetch_oembed endpoint reply = accepted endpoint reply

unfoldable pub fetch_duration : Text → Option (HttpReply ℤ) → Option ℤ
unfolding accepted
fetch_duration endpoint reply =
    accepted endpoint reply >>= λ d. if lt_ℤ (pos 0) d then some d else none

pub record Metadata : Type 0 where
  pub title : Text
  pub thumbnail : Text
  pub duration : ℤ

-- The duration that yt-dlp prints, without its fraction.
unfoldable pub seconds_text : Text → Text
unfolding before_byte
seconds_text s = until_byte b'.' s

unfoldable pub parse_duration : Text → ℤ
unfolding seconds_text
parse_duration s =
    if is_empty s then pos 0 else elim (atoi (seconds_text s)) [ some n ↦ n | none ↦ pos 0 ]

-- What the output of yt-dlp --dump-json tells.
unfoldable pub read_dump : Text → Metadata
unfolding extract_json_field parse_duration
read_dump out = record {
  title = extract_json_field out (lit "title");
  thumbnail = extract_json_field out (lit "thumbnail");
  duration = parse_duration (extract_json_field out (lit "duration"));
}

-- The two results, as the channels or the deadline deliver them: `none` is an error.
unfoldable pub fetch_metadata : Option OEmbed → Option ℤ → Option Text → Option Metadata
unfolding read_dump
fetch_metadata oembed duration dump =
    let title : Text = elim oembed [ some e ↦ e.title | none ↦ [] ] in
    let thumb : Text = elim oembed [ some e ↦ e.thumbnail_url | none ↦ [] ] in
    let dur : ℤ = elim duration [ some d ↦ d | none ↦ pos 0 ] in
    if not (is_empty title) || (not (is_empty thumb) || lt_ℤ (pos 0) dur)
    then some (record { title = title; thumbnail = thumb; duration = dur })
    else elim dump [ none ↦ none | some out ↦ some (read_dump out) ]

-- The arguments of yt-dlp in Download.
unfoldable pub download_args : Text → Text → List Text
download_args url output_path =
    lit "-f"
    ∷ lit "bestaudio[ext=m4a]/bestaudio[ext=webm]/bestaudio"
    ∷ lit "-o"
    ∷ output_path
    ∷ lit "--no-playlist"
    ∷ lit "--newline"
    ∷ url
    ∷ []

-- What readProgress reports of the lines. `percent` is the regular expression with strconv.ParseFloat
-- behind it, and the conversion to int; it yields `none` where one of them fails.
unfoldable pub read_progress : (Text → Option ℤ) → List Text → List ℕ
read_progress percent [] = []
read_progress percent (line ∷ lines) =
    let later = read_progress percent lines in
    elim (percent line) [ none ↦ later | some p ↦ clamp_pct p ∷ later ]

-- What os/exec makes of yt-dlp: no pipe or no start, or a run with its exit. Download drains the
-- outputs and reports no progress. The end of the timeout is an exit.
pub data Execution : Type 0 where
  unstarted : Text → Execution
  ran : Option Text → Execution

-- Download with its permit: the error, if there is one; `exec` runs yt-dlp with its arguments.
unfoldable pub download : (List Text → Execution) → Text → Text → Option Text
unfolding download_args
download exec url output_path = elim (exec (download_args url output_path)) [
  | unstarted err ↦ some err
  | ran exit ↦ exit
]
