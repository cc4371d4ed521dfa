-- ===== src/Common/Text.antt =====
-- Go strings: sequences of bytes, and the parts of package strings that the program calls.
use Prim.Native.Nat.{ℕ, zero, suc, ◌+◌, ◌-◌}
use Prim.Native.Char.{code}
use Prim.Native.String.{String}
use mathlib.Core.Path.{◌≡◌, refl, sym, ap, ◌∙◌}
use mathlib.Core.Logic.{◌↔◌}
use mathlib.Core.Bool.{Bool, true, false, ◌&&◌, ◌||◌}
use mathlib.Core.List.{List, [], ◌∷◌, ◌++◌, map, reverse}
use native.Mathlib.Omega.{arith}
use ytmpt.Common.Tests.{◌==◌, if◌then◌else◌, leb}
use ytmpt.Common.Lists.{length, take, drop, length-append}

abbrev pub Text : Type 0
Text = List ℕ

-- A literal of the source; an ASCII literal is its own bytes.
unfoldable pub lit : String → Text
lit String.[] = []
lit (String.◌∷◌ c s) = code c ∷ lit s

-- a == b
unfoldable pub text_eq : Text → Text → Bool
text_eq [] [] = true
text_eq [] (_ ∷ _) = false
text_eq (_ ∷ _) [] = false
text_eq (a ∷ s) (b ∷ t) = a == b && text_eq s t

pub text_eq_iff : (s t : Text) → (text_eq s t ≡ true) ↔ (s ≡ t)
unfolding text_eq
text_eq_iff [] [] = ground arith
text_eq_iff [] (_ ∷ _) = ground arith
text_eq_iff (_ ∷ _) [] = ground arith
text_eq_iff (a ∷ s) (b ∷ t) = ground (arith, text_eq_iff s t)

pub text_eq_refl : (s : Text) → text_eq s s ≡ true
text_eq_refl s = (text_eq_iff s s).1 refl

-- s == ""
abbrev pub is_empty : Text → Bool
is_empty [] = true
is_empty (_ ∷ _) = false

-- strings.HasPrefix
unfoldable pub has_prefix : Text → Text → Bool
has_prefix s [] = true
has_prefix [] (_ ∷ _) = false
has_prefix (a ∷ s) (b ∷ p) = a == b && has_prefix s p

-- strings.HasSuffix: the last `len(suffix)` bytes are the suffix.
unfoldable pub has_suffix : Text → Text → Bool
has_suffix s p = leb (length p) (length s) && text_eq (drop (length s - length p) s) p

-- strings.ToLower, on ASCII letters.
unfoldable pub lower : ℕ → ℕ
lower c = if leb b'A' c && leb c b'Z' then c + 32 else c

unfoldable pub to_lower : Text → Text
unfolding lower
to_lower s = map lower s

-- The white space of strings.TrimSpace in ASCII: \t \n \v \f \r and the blank.
unfoldable pub is_space : ℕ → Bool
is_space c = c == 32 || (leb 9 c && leb c 13)

unfoldable pub trim_left : Text → Text
unfolding is_space
trim_left [] = []
trim_left (c ∷ s) = elim (is_space c) [ true ↦ trim_left s | false ↦ c ∷ s ]

unfoldable pub trim_space : Text → Text
unfolding trim_left
trim_space s = reverse (trim_left (reverse (trim_left s)))

-- One more byte before the parts of a split.
pub split_cons : ℕ → ℕ → List Text → List Text
split_cons sep c [] = []
split_cons sep c (p ∷ ps) = if c == sep then [] ∷ p ∷ ps else (c ∷ p) ∷ ps

-- strings.Split(s, sep) for a separator of one byte.
unfoldable pub split : ℕ → Text → List Text
unfolding split_cons
split sep [] = [] ∷ []
split sep (c ∷ s) = split_cons sep c (split sep s)

drop-append : (q p : Text) → drop (length q) (q ++ p) ≡ p
drop-append [] p = refl
drop-append (c ∷ q) p = drop-append q p

take-drop : (n : ℕ) (s : Text) → take n s ++ drop n s ≡ s
take-drop zero s = refl
take-drop (suc n) [] = refl
take-drop (suc n) (c ∷ s) = ap (◌∷◌ c) (take-drop n s)

-- HasSuffix holds exactly of the texts that end in the suffix.
pub has_suffix_iff : (s p : Text) → (has_suffix s p ≡ true) ↔ ((q : Text) × (s ≡ q ++ p))
unfolding has_suffix
has_suffix_iff s p = (forth, back)
  where
    forth : has_suffix s p ≡ true → (q : Text) × (s ≡ q ++ p)
    forth h =
        let n = length s - length p in
        (
          take n s,
          sym (take-drop n s) ∙ ap (◌++◌ (take n s)) ((text_eq_iff (drop n s) p).0 (ground arith)),
        )

    back : ((q : Text) × (s ≡ q ++ p)) → has_suffix s p ≡ true
    back (q, e) =
        let size = length-append q p in
        let n : length (q ++ p) - length p ≡ length q = omega (arith, size) in
        rw (e, n, drop-append q p) (ground (arith, size, text_eq_refl p))

-- strings.Contains
unfoldable pub contains : Text → Text → Bool
unfolding has_prefix
contains [] sub = has_prefix [] sub
contains (c ∷ s) sub = let later = contains s sub in has_prefix (c ∷ s) sub || later
