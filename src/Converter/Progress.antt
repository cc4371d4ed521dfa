-- ===== src/Converter/Progress.antt =====
-- The progress that Convert reports.
use ytmpt.Common.{
  ℕ, ◌+◌, ◌≤◌, ◌<◌, ◌≡◌, refl, sym, subst, ap, ◌∙◌, All, drop, true, false, Option, none, some,
  List, [], ◌∷◌, length, ◌==◌, ◌>>=◌, if◌then◌else◌, Option-cases, Bool-cases, inl, inr, arith,
}
use ytmpt.Common.Text.{Text}
use ytmpt.Common.Int.{ℤ, pos, negsuc, clamp_pct}
use ytmpt.Converter.{reading, report, progress}

-- The percentages that the lines hold, and the last of them, if any.
abbrev pub readings : (Text → ℤ → ℤ) → ℤ → List Text → List ℕ
readings percent duration [] = []
readings percent duration (line ∷ lines) = elim (reading percent duration line) [
  | none ↦ readings percent duration lines
  | some pct ↦ pct ∷ readings percent duration lines
]

abbrev pub last_of : ℕ → List ℕ → ℕ
last_of last [] = last
last_of last (p ∷ ps) = last_of p ps

-- No percentage is below the one before it.
abbrev pub IsOrdered : ℕ → List ℕ → Type 0
IsOrdered last [] = Unit
IsOrdered last (p ∷ ps) = last ≤ p × IsOrdered p ps

-- Each percentage is above the one before it, and none is above 100.
abbrev pub IsRising : ℕ → List ℕ → Type 0
IsRising last [] = Unit
IsRising last (p ∷ ps) = last < p × p ≤ 100 × IsRising p ps

-- No percentage repeats the one before it.
abbrev pub IsChanging : ℕ → List ℕ → Type 0
IsChanging last [] = Unit
IsChanging last (p ∷ ps) = ((p == last) ≡ false) × p ≤ 100 × IsChanging p ps

-- The percentages that differ from the one before.
abbrev changes : ℕ → List ℕ → List ℕ
changes last [] = []
changes last (p ∷ ps) = elim (p == last) [ true ↦ changes last ps | false ↦ p ∷ changes p ps ]

progress-readings :
    (percent : Text → ℤ → ℤ) (duration : ℤ) (last : ℕ) (lines : List Text)
    → progress percent duration last lines ≡ changes last (readings percent duration lines)
unfolding progress report
progress-readings percent duration last [] = refl
progress-readings percent duration last (line ∷ lines) =
    by_reading (reading percent duration line) (λ l. progress-readings percent duration l lines)
  where
    by_reading :
        (o : Option ℕ)
        → ((l : ℕ)
            → progress percent duration l lines ≡ changes l (readings percent duration lines))
        → elim (o >>= λ pct. if pct == last then none else some pct) as (λ _. List ℕ) [
          | none ↦ progress percent duration last lines
          | some pct ↦ pct ∷ progress percent duration pct lines
        ]
          ≡ changes last (elim o as (λ _. List ℕ) [
            | none ↦ readings percent duration lines
            | some pct ↦ pct ∷ readings percent duration lines
          ])
    by_reading none later = later last
    by_reading (some pct) later = elim (Bool-cases (pct == last)) [
      | inl same ↦ rw (changes, same) (later last)
      | inr other ↦ rw (changes, other) (ap (◌∷◌ pct) (later pct))
    ]

clamp_pct-le : (p : ℤ) → clamp_pct p ≤ 100
clamp_pct-le (pos n) = ground arith
clamp_pct-le (negsuc n) = omega arith

reading-le :
    (percent : Text → ℤ → ℤ) (duration : ℤ) (line : Text) (p : ℕ)
    → reading percent duration line ≡ some p
    → p ≤ 100
unfolding reading
reading-le percent duration line p e =
    let bound = clamp_pct-le (percent (drop 12 line) duration) in ground (arith, bound)

readings-le :
    (percent : Text → ℤ → ℤ) (duration : ℤ) (lines : List Text)
    → All (λ p. p ≤ 100) (readings percent duration lines)
readings-le percent duration [] = tt
readings-le percent duration (line ∷ lines) = elim (Option-cases (reading percent duration line)) [
  | inl unread ↦ rw (readings, unread) (readings-le percent duration lines)
  | inr (p, e) ↦
      rw (readings, e) (reading-le percent duration line p e, readings-le percent duration lines)
]

changes-IsChanging :
    (last : ℕ) (ps : List ℕ)
    → All (λ p. p ≤ 100) ps
    → IsChanging last (changes last ps) × (last_of last (changes last ps) ≡ last_of last ps)
changes-IsChanging last [] _ = (tt, refl)
changes-IsChanging last (p ∷ ps) (le, ok) = elim (Bool-cases (p == last)) [
  | inl same ↦
      let equal : p ≡ last = ground arith in
      let (c, f) = changes-IsChanging last ps ok in
      rw (changes, same) (c, f ∙ ap (λ l. last_of l ps) (sym equal))
  | inr other ↦ let (c, f) = changes-IsChanging p ps ok in rw (changes, other) ((other, le, c), f)
]

changes-IsRising :
    (last : ℕ) (ps : List ℕ)
    → All (λ p. p ≤ 100) ps
    → IsOrdered last ps
    → IsRising last (changes last ps)
changes-IsRising last [] _ _ = tt
changes-IsRising last (p ∷ ps) (le, ok) (o, os) = elim (Bool-cases (p == last)) [
  | inl same ↦
      let equal : p ≡ last = ground arith in
      rw (changes, same) (changes-IsRising last ps ok (subst (λ l. IsOrdered l ps) equal os))
  | inr other ↦ rw (changes, other) (ground arith, le, changes-IsRising p ps ok os)
]

IsRising-length : (last : ℕ) (ps : List ℕ) → last ≤ 100 → IsRising last ps → last + length ps ≤ 100
IsRising-length last [] h _ = omega arith
IsRising-length last (p ∷ ps) h (lt, le, r) =
    let rest = IsRising-length p ps le r in omega (arith, rest)

-- The reports of Convert end with the last percentage that was read, whatever ffmpeg prints: each of
-- them is between 0 and 100, and none repeats the one before it.
progress-IsChanging :
    (percent : Text → ℤ → ℤ) (duration : ℤ) (lines : List Text)
    → IsChanging 0 (progress percent duration 0 lines)
      × (last_of 0 (progress percent duration 0 lines)
          ≡ last_of 0 (readings percent duration lines))
progress-IsChanging percent duration lines =
    let ps = readings percent duration lines in
    rw (progress-readings percent duration 0 lines)
      (changes-IsChanging 0 ps (readings-le percent duration lines))

-- Where the percentages that ffmpeg's lines hold never fall, the reports of Convert rise from above
-- 0 to at most 100, so that there are at most 100 of them, and they end with the last percentage.
pub progress-IsRising :
    (percent : Text → ℤ → ℤ) (duration : ℤ) (lines : List Text)
    → IsOrdered 0 (readings percent duration lines)
    → IsRising 0 (progress percent duration 0 lines)
      × length (progress percent duration 0 lines) ≤ 100
      × (last_of 0 (progress percent duration 0 lines)
          ≡ last_of 0 (readings percent duration lines))
progress-IsRising percent duration lines o =
    let ps = readings percent duration lines in
    let r = changes-IsRising 0 ps (readings-le percent duration lines) o in
    let size = IsRising-length 0 (changes 0 ps) (omega arith) r in
    let (_, end) = progress-IsChanging percent duration lines in
    (
      rw (progress-readings percent duration 0 lines) r,
      rw (progress-readings percent duration 0 lines) (omega (arith, size)),
      end,
    )
