-- ===== src/Downloader/Values.antt =====
-- A printed value is read back.
use mathlib.Core.List.{append_assoc, reverse, reverse-append, reverse-cons, reverse-reverse}
use ytmpt.Common.{
  ℕ, ◌≡◌, refl, ap, ◌∙◌, true, false, Option, none, some, [], ◌∷◌, ◌++◌, ◌==◌, inl, inr, Bool-cases,
  arith,
}
use ytmpt.Common.Text.{Text, is_space, trim_left, trim_space}
use ytmpt.Downloader.{before_byte, field_value, or_empty}
use ytmpt.Downloader.Printer.{
  lacks, Value, quoted, number, raw, shown, print_value, IsPrintable, in_quotes, bare,
}

before_byte-lacks :
    (c : ℕ) (p rest : Text) → lacks c p ≡ true → before_byte c (p ++ c ∷ rest) ≡ some p
unfolding before_byte
before_byte-lacks c [] rest h = ground arith
before_byte-lacks c (x ∷ p) rest h =
    let later = before_byte-lacks c p rest (ground arith) in ground (arith, later)

-- Trimming keeps what stands before a byte that is not white space.
trim_left-solid :
    (r s : Text) (x : ℕ) → is_space x ≡ false → (t : Text) × (trim_left (r ++ x ∷ s) ≡ t ++ x ∷ s)
unfolding trim_left
trim_left-solid [] s x h = ([], rw (trim_left, h) refl)
trim_left-solid (c ∷ r) s x h = elim (Bool-cases (is_space c)) [
  | inl blank ↦ let (t, e) = trim_left-solid r s x h in (t, rw (trim_left, blank) e)
  | inr solid ↦ (c ∷ r, rw (trim_left, solid) refl)
]

reverse-middle : (a z : Text) (x : ℕ) → reverse (a ++ x ∷ z) ≡ reverse z ++ x ∷ reverse a
reverse-middle a z x =
    reverse-append a (x ∷ z)
    ∙ ap (λ (l : Text). l ++ reverse a) (reverse-cons x z)
    ∙ append_assoc (reverse z) (x ∷ []) (reverse a)

trim_right-solid :
    (a z : Text) (x : ℕ)
    → is_space x ≡ false
    → (t : Text) × (reverse (trim_left (reverse (a ++ x ∷ z))) ≡ a ++ x ∷ t)
trim_right-solid a z x h =
    let (t, e) = trim_left-solid (reverse z) (reverse a) x h in
    (
      reverse t,
      ap (λ l. reverse (trim_left l)) (reverse-middle a z x)
          ∙ ap reverse e
          ∙ reverse-middle t (reverse a) x
          ∙ ap (λ (l : Text). l ++ x ∷ reverse t) (reverse-reverse a),
    )

-- A text in quotes is read to its closing quote, a number to its comma.
field_value-quoted :
    (t rest : Text) → lacks b'"' t ≡ true → field_value (b'"' ∷ (t ++ b'"' ∷ rest)) ≡ t
unfolding field_value
field_value-quoted t rest h = ap or_empty (before_byte-lacks b'"' t rest h)

field_value-number :
    (x : ℕ) (t rest : Text)
    → lacks b'"' (x ∷ t) ≡ true
    → lacks b',' (x ∷ t) ≡ true
    → trim_space (x ∷ t) ≡ x ∷ t
    → field_value (x ∷ t ++ b',' ∷ rest) ≡ x ∷ t
unfolding field_value
field_value-number x t rest h g tr =
    let first : (x == b'"') ≡ false = ground arith in
    let number = before_byte-lacks b',' (x ∷ t) rest g in
    rw (field_value, first)
      (ap trim_space
          (ap (λ (o : Option Text). elim o [ some p ↦ p | none ↦ x ∷ t ++ b',' ∷ rest ]) number)
        ∙ tr)

trim_left-number : (x : ℕ) (t : Text) → is_space x ≡ false → trim_left (b' ' ∷ x ∷ t) ≡ x ∷ t
unfolding trim_left
trim_left-number x t h = rw (trim_left, h) refl

-- A printed value is read back, whatever follows its comma.
pub field_value-print_value :
    (v : Value) (rest : Text)
    → IsPrintable v
    → field_value (trim_space (b' ' ∷ print_value v (b',' ∷ rest))) ≡ shown v
unfolding print_value trim_space
field_value-print_value (quoted t) rest (in_quotes h) =
    let (z, e) = trim_right-solid (b'"' ∷ t) (b',' ∷ rest) b'"' refl in
    ap field_value e ∙ field_value-quoted t z h
field_value-print_value (number []) rest p = elim p [ ]
field_value-print_value (number (x ∷ t)) rest (bare sp h g tr) =
    let (z, e) = trim_right-solid (x ∷ t) rest b',' refl in
    ap (λ s. field_value (reverse (trim_left (reverse s))))
      (trim_left-number x (t ++ b',' ∷ rest) sp)
    ∙ ap field_value e
    ∙ field_value-number x t z h g tr
field_value-print_value (raw t) rest p = elim p [ ]
