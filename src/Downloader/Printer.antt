-- ===== src/Downloader/Printer.antt =====
-- The objects that yt-dlp prints: members in order, `"name": value`, separated by a comma and a
-- blank.

use ytmpt.Common.{
  ℕ, ◌≡◌, Bool, true, false, not, ◌&&◌, Option, none, some, List, [], ◌∷◌, ◌++◌, ◌==◌,
  if◌then◌else◌,
}
use ytmpt.Common.Text.{Text, text_eq, is_space, trim_space}
use ytmpt.Downloader.{from_index}

-- The byte does not occur.
abbrev pub lacks : ℕ → Text → Bool
lacks c [] = true
lacks c (x ∷ s) = not (x == c) && lacks c s

-- The text of a string, a number, or any other value as it is printed: an object, a list, a string
-- with escapes, a Boolean or null.
pub data Value : Type 0 where
  quoted : Text → Value
  number : Text → Value
  raw : Text → Value

abbrev pub shown : Value → Text
shown (quoted t) = t
shown (number t) = t
shown (raw t) = t

-- A value in front of what follows it.
unfoldable pub print_value : Value → Text → Text
print_value (quoted t) rest = b'"' ∷ (t ++ b'"' ∷ rest)
print_value (number t) rest = t ++ rest
print_value (raw t) rest = t ++ rest

unfoldable pub print_members : List (Text × Value) → Text → Text
unfolding print_value
print_members [] rest = rest
print_members ((k, v) ∷ ms) rest =
    b'"' ∷ (k ++ b'"' ∷ b':' ∷ b' ' ∷ print_value v (b',' ∷ b' ' ∷ print_members ms rest))

unfoldable pub member : Text → List (Text × Value) → Option Value
member f [] = none
member f ((k, v) ∷ ms) = let later = member f ms in if text_eq k f then some v else later

-- No quotes inside a text, and none of the marks inside a number.
pub data IsPrintable : Value → Type 0 where
  in_quotes : {t : Text} → lacks b'"' t ≡ true → IsPrintable (quoted t)
  bare :
      {x : ℕ} {t : Text}
      → is_space x ≡ false
      → lacks b'"' (x ∷ t) ≡ true
      → lacks b',' (x ∷ t) ≡ true
      → trim_space (x ∷ t) ≡ x ∷ t
      → IsPrintable (number (x ∷ t))

-- The name in quotes.
abbrev pub pattern_of : Text → Text
pattern_of f = b'"' ∷ (f ++ b'"' ∷ [])

-- The name in quotes does not stand between the name of a member and the quote that begins the next.
abbrev pub is_passed : Text → Value → Bool
is_passed f v =
    elim (from_index (pattern_of f)
      (b'"' ∷ b':' ∷ b' ' ∷ print_value v (b',' ∷ b' ' ∷ b'"' ∷ []))) [
        | none ↦ true
        | some s ↦ false
      ]

-- A member whose value does not hold the name that is looked for.
pub record IsMember (f : Text) (m : Text × Value) : Type 0 where
  pub name : lacks b'"' m.0 ≡ true
  pub passed : is_passed f m.1 ≡ true

-- A name without the marks of an object.
pub record IsName (f : Text) : Type 0 where
  pub quote : lacks b'"' f ≡ true
  pub colon : lacks b':' f ≡ true
  pub comma : lacks b',' f ≡ true
