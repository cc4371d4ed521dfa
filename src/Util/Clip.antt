-- ===== src/Util/Clip.antt =====
-- internal/util/url.go: ParseClipBounds. An int has 64 bits and wraps around.
pub mod Bounds
use ytmpt.Common.{
  ℕ, ◌+◌, ◌*◌, ◌-◌, Bool, true, false, ◌&&◌, not, ◌||◌, Option, none, some, List, [], ◌∷◌, ltb,
  if◌then◌else◌, ◌>>=◌,
}
use ytmpt.Common.Text.{Text, is_empty, trim_space, split}
use ytmpt.Common.Int.{ℤ, pos, negsuc, lt_ℤ, le_ℤ, wrap, pos_part, neg_part}
use ytmpt.Common.Decimal.{atoi}

-- An int that Atoi reads and that is not below 0.
unfoldable pub non_negative : Text → Option ℕ
non_negative t = elim (atoi t) [
  | none ↦ none
  | some n ↦ elim n [ pos k ↦ some k | negsuc k ↦ none ]
]

-- Such an int of at most 59.
unfoldable pub below_sixty : Text → Option ℕ
unfolding non_negative
below_sixty t = non_negative t >>= λ n. if ltb 59 n then none else some n

-- The parts of HH:MM:SS or MM:SS.
unfoldable pub seconds_of : List Text → Option ℤ
seconds_of (h ∷ m ∷ s ∷ []) = do
  hours ← non_negative h
  minutes ← below_sixty m
  seconds ← below_sixty s
  some (wrap (hours * 3600 + minutes * 60 + seconds))
seconds_of (m ∷ s ∷ []) = do
  minutes ← non_negative m
  seconds ← below_sixty s
  some (wrap (minutes * 60 + seconds))
seconds_of _ = none

-- The closure toSec.
unfoldable pub to_sec : Text → Option ℤ
unfolding seconds_of
to_sec t =
    let trimmed = trim_space t in
    if is_empty trimmed then some (pos 0) else seconds_of (split b':' trimmed)

-- a - b, wrapped.
unfoldable pub wrapped_sub : ℤ → ℤ → ℤ
wrapped_sub a b = wrap (pos_part a + neg_part b + 18446744073709551616 - (neg_part a + pos_part b))

-- The checks on the two times, in the order of the source.
unfoldable pub check_bounds : ℤ → ℤ → ℤ → ℤ → Option (ℤ × ℤ)
check_bounds ss ee max_seconds total_duration =
    if lt_ℤ (pos 0) ee && le_ℤ ee ss
    then none
    else if lt_ℤ (pos 0) total_duration && le_ℤ total_duration ss
    then none
    else if lt_ℤ (pos 0) total_duration && (lt_ℤ (pos 0) ee && lt_ℤ total_duration ee)
    then none
    else (let clip_len =
          if lt_ℤ (pos 0) ee
          then wrapped_sub ee ss
          else if lt_ℤ (pos 0) total_duration
          then wrapped_sub total_duration ss
          else pos 0 in
        if lt_ℤ (pos 0) max_seconds && lt_ℤ max_seconds clip_len then none else some (ss, ee))

-- `none` is the result (0, 0, false).
unfoldable pub parse_clip_bounds : Text → Text → ℤ → ℤ → Option (ℤ × ℤ)
parse_clip_bounds start end max_seconds total_duration = do
  ss ← to_sec start
  ee ← to_sec end
  check_bounds ss ee max_seconds total_duration
