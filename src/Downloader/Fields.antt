-- ===== src/Downloader/Fields.antt =====
-- extractJSONField on a printed object.
use mathlib.Core.List.{append_assoc}
use ytmpt.Common.{
  ℕ, ◌≡◌, refl, sym, ap, ◌∙◌, true, false, Option, none, some, List, [], ◌∷◌, ◌++◌, if◌then◌else◌,
  All, inl, inr, Bool-cases, arith,
}
use ytmpt.Common.Text.{Text, text_eq, text_eq_iff, has_prefix, trim_space}
use ytmpt.Downloader.{from_index, after_byte, field_value, extract_json_field}
use ytmpt.Downloader.Printer.{
  lacks, Value, quoted, number, shown, print_value, print_members, member, IsPrintable, pattern_of,
  is_passed, raw, IsMember, IsName,
}
use ytmpt.Downloader.Values.{field_value-print_value}

after_byte-lacks :
    (c : ℕ) (p rest : Text) → lacks c p ≡ true → after_byte c (p ++ rest) ≡ after_byte c rest
unfolding after_byte
after_byte-lacks c [] rest h = refl
after_byte-lacks c (x ∷ p) rest h = ground (arith, after_byte-lacks c p rest (ground arith))

-- What is skipped has no quote.
from_index-lacks :
    (f p s : Text)
    → lacks b'"' p ≡ true
    → from_index (pattern_of f) (p ++ s) ≡ from_index (pattern_of f) s
unfolding from_index has_prefix
from_index-lacks f [] s h = refl
from_index-lacks f (x ∷ p) s h = ground (arith, from_index-lacks f p s (ground arith))

has_prefix-quote :
    (s f rest : Text)
    → lacks b'"' s ≡ true
    → lacks b'"' f ≡ true
    → has_prefix (s ++ b'"' ∷ rest) (f ++ b'"' ∷ []) ≡ text_eq s f
unfolding has_prefix text_eq
has_prefix-quote [] [] rest h g = refl
has_prefix-quote [] (y ∷ f) rest h g = ground arith
has_prefix-quote (x ∷ s) [] rest h g = ground arith
has_prefix-quote (x ∷ s) (y ∷ f) rest h g =
    let later = has_prefix-quote s f rest (ground arith) (ground arith) in ground (arith, later)

-- Between two quotes stands the name, or the search goes on at the second.
from_index-quote :
    (f s rest : Text)
    → lacks b'"' s ≡ true
    → lacks b'"' f ≡ true
    → from_index (pattern_of f) (b'"' ∷ (s ++ b'"' ∷ rest)) ≡ (
        if text_eq s f
        then some (b'"' ∷ (s ++ b'"' ∷ rest))
        else from_index (pattern_of f) (b'"' ∷ rest))
from_index-quote f s rest h g =
    let skip = from_index-lacks f s (b'"' ∷ rest) h in
    let test = has_prefix-quote s f rest h g in unfold from_index has_prefix in rw (test, skip) refl

after_quote :
    (f s rest : Text)
    → lacks b'"' s ≡ true
    → lacks b'"' f ≡ true
    → text_eq s f ≡ false
    → from_index (pattern_of f) (b'"' ∷ (s ++ b'"' ∷ rest))
      ≡ from_index (pattern_of f) (b'"' ∷ rest)
after_quote f s rest h g ne = from_index-quote f s rest h g ∙ rw ne refl

-- What begins with the name and a quote is decided before the next quote ends.
has_prefix-cut :
    (s f rest : Text)
    → lacks b'"' f ≡ true
    → has_prefix (s ++ b'"' ∷ rest) (f ++ b'"' ∷ []) ≡ has_prefix (s ++ b'"' ∷ []) (f ++ b'"' ∷ [])
unfolding has_prefix
has_prefix-cut [] [] rest g = refl
has_prefix-cut [] (y ∷ f) rest g = ground arith
has_prefix-cut (x ∷ s) [] rest g = ground arith
has_prefix-cut (x ∷ s) (y ∷ f) rest g = ground (arith, has_prefix-cut s f rest (ground arith))

-- If the name in quotes is not found up to a quote, the search goes on at that quote.
from_index-cut :
    (f s rest : Text)
    → lacks b'"' f ≡ true
    → from_index (pattern_of f) (s ++ b'"' ∷ []) ≡ none
    → from_index (pattern_of f) (s ++ b'"' ∷ rest) ≡ from_index (pattern_of f) (b'"' ∷ rest)
unfolding from_index has_prefix
from_index-cut f [] rest g h = refl
from_index-cut f (x ∷ s) rest g h =
    let same = has_prefix-cut s f rest g in
    ground (arith, same, from_index-cut f s rest g (ground (arith, h)))

print_value-append : (v : Value) (t u : Text) → print_value v (t ++ u) ≡ print_value v t ++ u
unfolding print_value
print_value-append (quoted s) t u = ap (λ (l : Text). b'"' ∷ l) (sym (append_assoc s (b'"' ∷ t) u))
print_value-append (number s) t u = sym (append_assoc s t u)
print_value-append (raw s) t u = sym (append_assoc s t u)

-- A value that does not hold the name is passed.
after_value :
    (f : Text) (w : Value) (t : Text)
    → IsName f
    → is_passed f w ≡ true
    → from_index (pattern_of f) (b'"' ∷ b':' ∷ b' ' ∷ print_value w (b',' ∷ b' ' ∷ b'"' ∷ t))
      ≡ from_index (pattern_of f) (b'"' ∷ t)
after_value f w t n passed =
    let s : Text = b'"' ∷ b':' ∷ b' ' ∷ print_value w (b',' ∷ b' ' ∷ []) in
    let split = λ (u : Text).
      ap (λ (l : Text). b'"' ∷ b':' ∷ b' ' ∷ l)
        (print_value-append w (b',' ∷ b' ' ∷ []) (b'"' ∷ u)) in
    let absent : from_index (pattern_of f) (s ++ b'"' ∷ []) ≡ none =
      ap (from_index (pattern_of f)) (sym (split [])) ∙ passed_none _ passed in
    ap (from_index (pattern_of f)) (split t) ∙ from_index-cut f s t n.quote absent
  where
    passed_none : (r : Option Text) → (elim r [ none ↦ true | some s ↦ false ]) ≡ true → r ≡ none
    passed_none none h = refl
    passed_none (some s) h = absurd (ground arith)

print_members-quote :
    (f : Text) (v : Value) (ms : List (Text × Value)) (rest : Text)
    → member f ms ≡ some v
    → (t : Text) × (print_members ms rest ≡ b'"' ∷ t)
unfolding print_members member
print_members-quote f v [] rest e = absurd (ground arith)
print_members-quote f v ((k, w) ∷ ms) rest e = (_, refl)

-- Where a member is found, the search stops at its name.
from_index-print_members :
    (f : Text) (v : Value) (ms : List (Text × Value)) (rest : Text)
    → IsName f
    → All (IsMember f) ms
    → member f ms ≡ some v
    → (t : Text) × (from_index (pattern_of f) (print_members ms rest)
        ≡ some (b'"' ∷ (f ++ b'"' ∷ b':' ∷ b' ' ∷ print_value v (b',' ∷ t))))
unfolding print_members member
from_index-print_members f v [] rest n _ e = absurd (ground arith)
from_index-print_members f v ((k, w) ∷ ms) rest n (m, ok) e = elim (Bool-cases (text_eq k f)) [
  | inl same ↦
      let named : k ≡ f = (text_eq_iff k f).0 same in
      let valued : w ≡ v = ground arith in
      (
        b' ' ∷ print_members ms rest,
        from_index-quote f k _ m.name n.quote ∙ rw (same, named, valued) refl,
      )
  | inr other ↦
      let found : member f ms ≡ some v = ground (arith, other) in
      let (t, next) = from_index-print_members f v ms rest n ok found in
      let (u, begins) = print_members-quote f v ms rest found in
      (
        t,
        after_quote f k _ m.name n.quote other
            ∙ ap
                (λ (l : Text).
                  from_index (pattern_of f) (b'"' ∷ b':' ∷ b' ' ∷ print_value w (b',' ∷ b' ' ∷ l)))
                begins
            ∙ after_value f w u n m.passed
            ∙ ap (from_index (pattern_of f)) (sym begins)
            ∙ next,
      )
]

abbrev value_behind : Option Text → Text
value_behind none = []
value_behind (some v) = field_value (trim_space v)

-- extractJSONField finds the value that a printed object gives the name: the text between the
-- quotes, or the number. This asks that the name has no quote, colon or comma, that no value holds
-- the name in quotes, that the text that is found has no quote and the number no mark, and that each
-- member has a comma behind it.
pub extract_json_field-print_members :
    (f : Text) (v : Value) (ms : List (Text × Value)) (rest : Text)
    → IsName f
    → All (IsMember f) ms
    → IsPrintable v
    → member f ms ≡ some v
    → extract_json_field (b'{' ∷ print_members ms rest) f ≡ shown v
unfolding extract_json_field
extract_json_field-print_members f v ms rest n ok printable e =
    let (t, at) = from_index-print_members f v ms rest n ok e in
    let start = from_index-lacks f (b'{' ∷ []) (print_members ms rest) refl ∙ at in
    let colon = after_byte-lacks b':' f (b'"' ∷ b':' ∷ b' ' ∷ print_value v (b',' ∷ t)) n.colon in
    ap (λ (o : Option Text). elim o [ none ↦ [] | some s ↦ value_behind (after_byte b':' s) ]) start
    ∙ ap value_behind colon
    ∙ field_value-print_value v t printable
