-- ===== src/Downloader/Tests.antt =====
-- The theorems on the downloader at a printed object.
use ytmpt.Common.{◌*◌, length, if◌then◌else◌, true, ◌≡◌, refl, none, some, List, [], ◌∷◌}
use ytmpt.Common.Text.{Text, lit, is_empty, has_prefix, text_eq, is_space, trim_space}
use ytmpt.Common.Int.{pos}
use ytmpt.Common.Decimal.{atoi, digits, magnitude}
use ytmpt.Downloader.{
  from_index, before_byte, seconds_text, fetch_oembed, fetch_duration, fetch_metadata,
  extract_json_field, read_progress,
}
use ytmpt.Downloader.Printer.{
  lacks, Value, quoted, number, raw, is_passed, print_value, print_members, member, IsPrintable,
  in_quotes, bare, IsMember, IsName,
}
use ytmpt.Downloader.Fields.{extract_json_field-print_members}
use ytmpt.Downloader.Fetch.{unset, refused, IsDump, fetch_metadata-print_members}

abbrev dump : List (Text × Value)
dump =
    (lit "id", quoted (lit "a1"))
    ∷ (lit "title", quoted (lit "Song, live: take 2"))
    ∷ (lit "formats", raw (lit "[{\"url\": \"u\", \"tbr\": null}, {}]"))
    ∷ (lit "description", raw (lit "\"he said \\\"hi\\\", then left\""))
    ∷ (lit "thumbnail", quoted (lit "https://i/1.jpg"))
    ∷ (lit "duration", number (lit "212.0"))
    ∷ []

bare_number : IsPrintable (number (lit "212.0"))
unfolding lit is_space trim_space
bare_number = bare refl refl refl refl

named-IsName :
    {f : Text} → lacks b'"' f ≡ true → lacks b':' f ≡ true → lacks b',' f ≡ true → IsName f
named-IsName quote colon comma = record { quote = quote; colon = colon; comma = comma }

made-IsMember :
    {f : Text} {m : Text × Value} → lacks b'"' m.0 ≡ true → is_passed f m.1 ≡ true → IsMember f m
made-IsMember name passed = record { name = name; passed = passed }

dump-IsDump : IsDump (lit "Song, live: take 2") (lit "https://i/1.jpg") (lit "212.0") dump
unfolding lit text_eq member print_value from_index has_prefix
dump-IsDump = record {
  titles = (
    made-IsMember refl refl,
    (
      made-IsMember refl refl,
      (
        made-IsMember refl refl,
        (made-IsMember refl refl, (made-IsMember refl refl, (made-IsMember refl refl, tt))),
      ),
    ),
  );
  thumbnails = (
    made-IsMember refl refl,
    (
      made-IsMember refl refl,
      (
        made-IsMember refl refl,
        (made-IsMember refl refl, (made-IsMember refl refl, (made-IsMember refl refl, tt))),
      ),
    ),
  );
  durations = (
    made-IsMember refl refl,
    (
      made-IsMember refl refl,
      (
        made-IsMember refl refl,
        (made-IsMember refl refl, (made-IsMember refl refl, (made-IsMember refl refl, tt))),
      ),
    ),
  );
  title-printable = refl;
  thumbnail-printable = refl;
  duration-printable = bare_number;
  title-member = refl;
  thumbnail-member = refl;
  duration-member = refl;
}

extract_json_field-print_members_example :
    extract_json_field (b'{' ∷ print_members dump (lit "}")) (lit "title")
    ≡ lit "Song, live: take 2"
extract_json_field-print_members_example =
    extract_json_field-print_members (lit "title") (quoted (lit "Song, live: take 2")) dump
      (lit "}") (unfold lit in named-IsName refl refl refl) dump-IsDump.titles
      (in_quotes dump-IsDump.title-printable) dump-IsDump.title-member

fetch_metadata-print_members_example :
    fetch_metadata
      (fetch_oembed (lit "http://o") (some (record { status = 503; payload = none })))
      (fetch_duration [] none)
      (some (b'{' ∷ print_members dump (lit "}")))
    ≡ some (record {
      title = lit "Song, live: take 2";
      thumbnail = lit "https://i/1.jpg";
      duration = pos 212;
    })
fetch_metadata-print_members_example =
    fetch_metadata-print_members (lit "http://o") []
      (some (record { status = 503; payload = none })) none (lit "Song, live: take 2")
      (lit "https://i/1.jpg") (lit "212.0") (pos 212) dump (lit "}") (refused refl) (unset refl)
      dump-IsDump (unfold lit seconds_text before_byte atoi magnitude digits in refl)

-- An escaped quote ends the text, and the last number of an object keeps its brace.
escaped_quote :
    extract_json_field (lit "{\"title\": \"a \\\"b\\\" c\", ") (lit "title") ≡ lit "a \\"
unfolding extract_json_field lit has_prefix trim_space
escaped_quote = refl

last_number : extract_json_field (lit "{\"duration\": 212}") (lit "duration") ≡ lit "212}"
unfolding extract_json_field lit has_prefix trim_space
last_number = refl

percentages :
    read_progress
      (λ line. if is_empty line then none else some (pos (length line * 50)))
      (lit "ab" ∷ [] ∷ lit "abc" ∷ [])
    ≡ 100 ∷ 100 ∷ []
unfolding read_progress lit
percentages = refl
