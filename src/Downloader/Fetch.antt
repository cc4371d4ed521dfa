-- ===== src/Downloader/Fetch.antt =====
-- FetchMetadata: the fast path over HTTP, and yt-dlp behind it.
use ytmpt.Common.{
  ◌≡◌, refl, ap, ◌∙◌, true, ◌||◌, Option, none, some, List, [], ◌∷◌, All, ltb, leb, arith,
}
use ytmpt.Common.Text.{Text, lit, is_empty}
use ytmpt.Common.Int.{ℤ, pos}
use ytmpt.Common.Decimal.{atoi}
use ytmpt.Downloader.{
  before_byte, HttpReply, OEmbed, accepted, fetch_oembed, fetch_duration, seconds_text,
  parse_duration, read_dump, fetch_metadata, extract_json_field,
}
use ytmpt.Downloader.Printer.{
  lacks, Value, quoted, number, print_members, member, IsPrintable, in_quotes, IsMember, IsName,
}
use ytmpt.Downloader.Fields.{extract_json_field-print_members}

-- The call is not made, it fails, or its answer is not 2xx or does not decode.
pub data IsUseless {ℓ} {A : Type ℓ} (endpoint : Text) : Option (HttpReply A) → Type ℓ where
  unset : {r : Option (HttpReply A)} → is_empty endpoint ≡ true → IsUseless endpoint r
  failed : IsUseless endpoint none
  refused :
      {r : HttpReply A}
      → (ltb r.status 200 || leb 300 r.status) ≡ true
      → IsUseless endpoint (some r)
  undecoded : {r : HttpReply A} → r.payload ≡ none → IsUseless endpoint (some r)

accepted-IsUseless {ℓ} :
    {A : Type ℓ} (endpoint : Text) (r : Option (HttpReply A))
    → IsUseless endpoint r
    → accepted endpoint r ≡ none
unfolding accepted
accepted-IsUseless endpoint none u = refl
accepted-IsUseless endpoint (some r) (unset h) = rw (accepted, h) refl
accepted-IsUseless endpoint (some r) (refused h) = ground (arith, h)
accepted-IsUseless endpoint (some r) (undecoded h) = ground (arith, h)

parse_duration-number : (t : Text) (n : ℤ) → atoi (seconds_text t) ≡ some n → parse_duration t ≡ n
unfolding parse_duration
parse_duration-number [] n h = absurd (unfold seconds_text before_byte atoi in ground arith)
parse_duration-number (c ∷ t) n h = ap (λ (o : Option ℤ). elim o [ some n ↦ n | none ↦ pos 0 ]) h

-- The three fields of a printed object.
pub record IsDump (title thumb dur : Text) (ms : List (Text × Value)) : Type 0 where
  pub titles : All (IsMember (lit "title")) ms
  pub thumbnails : All (IsMember (lit "thumbnail")) ms
  pub durations : All (IsMember (lit "duration")) ms
  pub title-member : member (lit "title") ms ≡ some (quoted title)
  pub thumbnail-member : member (lit "thumbnail") ms ≡ some (quoted thumb)
  pub title-printable : lacks b'"' title ≡ true
  pub thumbnail-printable : lacks b'"' thumb ≡ true
  pub duration-printable : IsPrintable (number dur)
  pub duration-member : member (lit "duration") ms ≡ some (number dur)

name : {f : Text} → lacks b'"' f ≡ true → lacks b':' f ≡ true → lacks b',' f ≡ true → IsName f
name quote colon comma = record { quote = quote; colon = colon; comma = comma }

read_dump-print_members :
    (title thumb dur : Text) (n : ℤ) (ms : List (Text × Value)) (rest : Text)
    → IsDump title thumb dur ms
    → atoi (seconds_text dur) ≡ some n
    → read_dump (b'{' ∷ print_members ms rest)
      ≡ record { title = title; thumbnail = thumb; duration = n }
unfolding read_dump lit
read_dump-print_members title thumb dur n ms rest d h =
    let t =
      extract_json_field-print_members (lit "title") (quoted title) ms rest (name refl refl refl)
        d.titles (in_quotes d.title-printable) d.title-member in
    let i =
      extract_json_field-print_members (lit "thumbnail") (quoted thumb) ms rest
        (name refl refl refl) d.thumbnails (in_quotes d.thumbnail-printable) d.thumbnail-member in
    let s =
      extract_json_field-print_members (lit "duration") (number dur) ms rest (name refl refl refl)
        d.durations d.duration-printable d.duration-member in
    let whole : parse_duration (extract_json_field (b'{' ∷ print_members ms rest) (lit "duration"))
        ≡ n =
      ap parse_duration s ∙ parse_duration-number dur n h in
    rw (t, i, whole) refl

-- With no answer from the two HTTP calls that can be used, the metadata are those that the object
-- printed by yt-dlp holds: its title, its thumbnail and the whole seconds of its duration, if it is
-- printed as `"name": value` with a comma behind each member; its first members of these names are
-- two strings without a quote and a number without a quote or a comma; and no value of the object,
-- which may itself be an object or a list, holds one of the three names in quotes, as it is printed.
pub fetch_metadata-print_members :
    (oembed_endpoint duration_endpoint : Text) (oembed : Option (HttpReply OEmbed))
    (duration : Option (HttpReply ℤ)) (title thumb dur : Text) (n : ℤ) (ms : List (Text × Value))
    (rest : Text)
    → IsUseless oembed_endpoint oembed
    → IsUseless duration_endpoint duration
    → IsDump title thumb dur ms
    → atoi (seconds_text dur) ≡ some n
    → fetch_metadata
        (fetch_oembed oembed_endpoint oembed)
        (fetch_duration duration_endpoint duration)
        (some (b'{' ∷ print_members ms rest))
      ≡ some (record { title = title; thumbnail = thumb; duration = n })
unfolding fetch_metadata fetch_oembed fetch_duration read_dump lit
fetch_metadata-print_members e1 e2 oembed duration title thumb dur n ms rest u w d h =
    let a = accepted-IsUseless e1 oembed u in
    let b = accepted-IsUseless e2 duration w in
    rw (a, b) (ap some (read_dump-print_members title thumb dur n ms rest d h))
