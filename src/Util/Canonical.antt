-- ===== src/Util/Canonical.antt =====
-- internal/util/url.go: CanonicalVideoID. What net/url parses out of a text is a parameter.
use ytmpt.Common.{ℕ, true, false, not, Option, none, some, [], ◌∷◌, ◌++◌, ◌≡◌, if◌then◌else◌, ◌==◌}
use ytmpt.Common.Text.{Text, lit, is_empty, to_lower, trim_space, has_prefix, contains}
use mathlib.Core.List.{reverse}

-- A parsed URL, as far as it is read: the host and the path, the first `v` of the query, and the
-- text of the URL with neither query nor fragment.
pub record Url : Type 0 where
  pub host : Text
  pub path : Text
  pub v : Text
  pub bare : Text

-- A text without the bytes `c` in front.
unfoldable pub trim_front : ℕ → Text → Text
trim_front c [] = []
trim_front c (b ∷ s) = elim (b == c) [ true ↦ trim_front c s | false ↦ b ∷ s ]

-- The part in front of the first `c`.
unfoldable pub until : ℕ → Text → Text
until c [] = []
until c (b ∷ s) = let rest = until c s in if b == c then [] else b ∷ rest

-- strings.Trim(s, "/")
unfoldable pub trim_slashes : Text → Text
unfolding trim_front
trim_slashes s = reverse (trim_front b'/' (reverse (trim_front b'/' s)))

-- path.Base: the last element of a path, "." of an empty one and "/" of one of slashes only.
unfoldable pub base : Text → Text
unfolding trim_front until
base p =
    let stripped = trim_front b'/' (reverse p) in
    if is_empty p
    then lit "."
    else if is_empty stripped
    then lit "/"
    else reverse (until b'/' stripped)

-- The host test and the ids of the two youtube branches; `none` if neither returns.
unfoldable pub video_of : Url → Option Text
video_of u =
    let host = to_lower u.host in
    let id = trim_slashes (base u.path) in
    let short_host =
      if contains host (lit "youtu.be")
      then (if not (is_empty id) then some (lit "yt:" ++ id) else none)
      else none in
    if contains host (lit "youtube.com")
    then (if not (is_empty u.v)
        then some (lit "yt:" ++ u.v)
        else if has_prefix (to_lower u.path) (lit "/shorts/")
        then some (lit "yt:" ++ base u.path)
        else short_host)
    else short_host

-- A youtube.com link with a video in its query.
video_of-watch :
    (u : Url)
    → contains (to_lower u.host) (lit "youtube.com") ≡ true
    → is_empty u.v ≡ false
    → video_of u ≡ some (lit "yt:" ++ u.v)
unfolding video_of
video_of-watch u h filled = rw (h, filled)

-- A youtu.be link with a video in its path.
video_of-short :
    (u : Url)
    → contains (to_lower u.host) (lit "youtube.com") ≡ false
    → contains (to_lower u.host) (lit "youtu.be") ≡ true
    → is_empty (trim_slashes (base u.path)) ≡ false
    → video_of u ≡ some (lit "yt:" ++ trim_slashes (base u.path))
unfolding video_of
video_of-short u other h filled = rw (other, h, filled)

module _ (parse_url : Text → Option Url) where
  unfoldable pub canonical_video_id : Text → Text
  canonical_video_id raw =
      let s = trim_space raw in
      if is_empty s then s else elim (parse_url s) [
        | none ↦ s
        | some u ↦ elim (video_of u) [ none ↦ u.bare | some id ↦ id ]
      ]

  -- Two links to one video have one identifier: a youtube.com link with the video in its `v`, and
  -- a youtu.be link with the video as the last element of its path.
  pub canonical_video_id_same :
      (watch short : Text) (w s : Url) (video : Text)
      → is_empty (trim_space watch) ≡ false
      → is_empty (trim_space short) ≡ false
      → parse_url (trim_space watch) ≡ some w
      → parse_url (trim_space short) ≡ some s
      → contains (to_lower w.host) (lit "youtube.com") ≡ true
      → w.v ≡ video
      → is_empty video ≡ false
      → contains (to_lower s.host) (lit "youtube.com") ≡ false
      → contains (to_lower s.host) (lit "youtu.be") ≡ true
      → trim_slashes (base s.path) ≡ video
      → canonical_video_id watch ≡ canonical_video_id short
  unfolding canonical_video_id
  canonical_video_id_same watch short w s video hw hs pw ps cw vw filled cs csb bs =
      let e = video_of-watch w cw (rw vw filled) in
      let e' = video_of-short s cs csb (rw bs filled) in rw (hw, hs, pw, ps, e, e', vw, bs)
