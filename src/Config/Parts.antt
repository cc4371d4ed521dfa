-- ===== src/Config/Parts.antt =====
-- What splitAndTrim keeps of a list in the environment.
use ytmpt.Common.{◌≡◌, inl, inr, false, List, [], ◌∷◌, All, Bool-cases}
use ytmpt.Common.Text.{Text, is_empty, trim_space, split}
use ytmpt.Config.{keep_filled, split_and_trim}

keep_filled-All : (parts : List Text) → All (λ p. is_empty p ≡ false) (keep_filled parts)
unfolding keep_filled
keep_filled-All [] = tt
keep_filled-All (p ∷ parts) = elim (Bool-cases (is_empty (trim_space p))) [
  | inl blank ↦ rw blank (keep_filled-All parts)
  | inr filled ↦ rw filled (filled, keep_filled-All parts)
]

-- No part that splitAndTrim keeps is blank.
split_and_trim-All : (s : Text) → All (λ p. is_empty p ≡ false) (split_and_trim s)
unfolding split_and_trim
split_and_trim-All s = elim (Bool-cases (is_empty s)) [
  | inl blank ↦ rw blank tt
  | inr filled ↦ rw filled (keep_filled-All (split b',' s))
]
