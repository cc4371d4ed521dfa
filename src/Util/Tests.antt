-- ===== src/Util/Tests.antt =====
-- Runs of the url helpers, and their theorems at concrete texts.

use ytmpt.Common.{
  ◌≡◌, ◌↔◌, refl, true, false, Option, none, some, List, [], ◌∷◌, arith, if◌then◌else◌,
}
use ytmpt.Common.Text.{Text, lit, text_eq, has_suffix, is_empty, to_lower, trim_space, split}
use ytmpt.Common.Int.{pos, wrap}
use ytmpt.Common.Decimal.{atoi, magnitude}
use ytmpt.Util.Clip.{parse_clip_bounds, to_sec, check_bounds, below_sixty}
use ytmpt.Util.Clip.Bounds.{IsAccepted, parse_clip_bounds_iff}
use ytmpt.Util.Domain.{is_allowed_domain, any_allowed}
use ytmpt.Util.Domain.Laws.{EndsAllowed, is_allowed_domain_iff}
use ytmpt.Util.Canonical.{Url}

clip_test :
    parse_clip_bounds (lit "00:01:30") (lit " 2:05") (pos 0) (pos 300) ≡ some (pos 90, pos 125)
unfolding parse_clip_bounds to_sec check_bounds trim_space atoi magnitude below_sixty lit split wrap
clip_test = refl

clip_order : parse_clip_bounds (lit "2:00") (lit "1:00") (pos 0) (pos 300) ≡ none
unfolding parse_clip_bounds to_sec check_bounds trim_space atoi magnitude below_sixty lit split wrap
clip_order = refl

parse_clip_bounds_iff_example :
    (parse_clip_bounds (lit "0:10") (lit "0:20") (pos 0) (pos 60) ≡ some (pos 10, pos 20))
    ↔ IsAccepted (lit "0:10") (lit "0:20") 0 60 (pos 10) (pos 20)
unfolding lit
parse_clip_bounds_iff_example =
    parse_clip_bounds_iff (lit "0:10") (lit "0:20") 0 60 (omega arith) (omega arith) (omega arith)
      (pos 10) (pos 20)

-- A parser that reads the whole text as the host.
abbrev whole : Text → Option Text
whole s = some s

abbrev domains : List Text
domains = lit "youtube.com" ∷ []

is_allowed_domain_iff_example : (is_allowed_domain whole (lit "evilyoutube.com") domains ≡ true) ↔ (
    (is_empty (trim_space (lit "evilyoutube.com")) ≡ false)
    × EndsAllowed (to_lower (lit "evilyoutube.com")) domains)
unfolding lit trim_space
is_allowed_domain_iff_example =
    is_allowed_domain_iff whole (lit "evilyoutube.com") (lit "evilyoutube.com") domains refl

lookalike : is_allowed_domain whole (lit "evilyoutube.com") domains ≡ true
unfolding is_allowed_domain any_allowed lit trim_space to_lower has_suffix text_eq
lookalike = refl

abbrev watch_url : Url
watch_url = record { host = lit "www.youtube.com"; path = lit "/watch"; v = lit "abc"; bare = [] }

abbrev short_url : Url
short_url = record { host = lit "youtu.be"; path = lit "/abc"; v = []; bare = [] }

abbrev urls : Text → Option Url
urls s = if text_eq s (lit "w") then some watch_url else some short_url
