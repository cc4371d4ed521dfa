-- ===== src/Handlers/Format.antt =====
-- internal/handlers/api.go: humanDuration and safeFilename.
use ytmpt.Common.{
  ℕ, Bool-cases, inl, inr, ◌+◌, ◌*◌, ◌/◌, ◌%◌, ◌<◌, ◌≡◌, refl, false, [], ◌∷◌, ◌++◌, ltb, ◌==◌,
  if◌then◌else◌, map, All, arith, ◌≢◌,
}
use ytmpt.Common.Text.{Text, lit, trim_space, is_empty}
use ytmpt.Common.Decimal.{decimal, two_digits}
use ytmpt.Common.Int.{ℤ, pos, negsuc}

-- The three numbers of a duration.
pub record Parts : Type 0 where
  pub h : ℕ
  pub m : ℕ
  pub s : ℕ

unfoldable pub duration_parts : ℕ → Parts
duration_parts seconds = record { h = seconds / 3600; m = seconds % 3600 / 60; s = seconds % 60 }

unfoldable pub parts_text : Parts → Text
parts_text p =
    if ltb 0 p.h
    then (if p.s == 0
        then decimal p.h ++ (lit "h" ++ (two_digits p.m ++ lit "m"))
        else decimal p.h
          ++ (lit "h" ++ (two_digits p.m ++ (lit "m" ++ (two_digits p.s ++ lit "s")))))
    else if ltb 0 p.m
    then (if p.s == 0
        then decimal p.m ++ lit "m"
        else decimal p.m ++ (lit "m" ++ (two_digits p.s ++ lit "s")))
    else decimal p.s ++ lit "s"

unfoldable pub human_duration : ℤ → Text
unfolding parts_text duration_parts
human_duration (negsuc n) = lit "0s"
human_duration (pos seconds) =
    if seconds == 0 then lit "0s" else parts_text (duration_parts seconds)

-- The parts that are printed are those of a clock, and they add up to the duration.
duration_parts_lem :
    (seconds : ℕ)
    → let p = duration_parts seconds in
      (p.h * 3600 + p.m * 60 + p.s ≡ seconds) × (p.m < 60) × (p.s < 60)
unfolding duration_parts
duration_parts_lem seconds = omega arith

-- strings.ReplaceAll(s, "/", "-"), and the same for the backslash.
unslash : ℕ → ℕ
unslash c = if c == b'/' then b'-' else if c == 92 then b'-' else c

unfoldable pub safe_filename : Text → Text
unfolding unslash
safe_filename s =
    let replaced = map unslash (trim_space s) in
    if is_empty replaced then lit "download" else replaced

map-unslash : (s : Text) → All (λ c. (c ≢ b'/') × (c ≢ 92)) (map unslash s)
unfolding unslash
map-unslash [] = tt
map-unslash (c ∷ s) = (ground arith, map-unslash s)

-- A file name has no slash and no backslash, and it is not empty.
pub safe_filename_lem :
    (s : Text)
    → All (λ c. (c ≢ b'/') × (c ≢ 92)) (safe_filename s) × (is_empty (safe_filename s) ≡ false)
unfolding safe_filename lit
safe_filename_lem s = elim (Bool-cases (is_empty (map unslash (trim_space s)))) [
  | inl blank ↦ (rw blank (omega arith), rw blank refl)
  | inr filled ↦ (rw filled (map-unslash (trim_space s)), rw filled filled)
]
