-- ===== src/Converter/Tail.antt =====
-- tailLines: the end of ffmpeg's messages.
use ytmpt.Common.{
  ℕ, zero, suc, ◌+◌, ◌-◌, ◌≤◌, ◌<◌, ◌≡◌, refl, sym, ap, ◌∙◌, Bool, true, false, List, [], ◌∷◌, ◌++◌,
  length, drop, count_if, leb, ◌==◌, if◌then◌else◌, Bool-cases, inl, inr, arith,
}
use ytmpt.Common.Text.{Text, split, split_cons, trim_space}
use ytmpt.Converter.{join, tail_lines}

-- How many line feeds a text has.
abbrev pub feeds : Text → ℕ
feeds s = count_if (λ c. c == b'\n') s

-- The text is empty, or ends with a line feed.
abbrev pub ends_line : Text → Bool
ends_line [] = true
ends_line (c ∷ []) = c == b'\n'
ends_line (c ∷ d ∷ s) = ends_line (d ∷ s)

split-nonempty : (s : Text) → (p : Text) × (ps : List Text) × (split b'\n' s ≡ p ∷ ps)
unfolding split
split-nonempty [] = ([], [], refl)
split-nonempty (c ∷ s) =
    let (p, ps, e) = split-nonempty s in
    elim (Bool-cases (c == b'\n')) [
      | inl feed ↦ ([], p ∷ ps, rw (e, split_cons, feed) refl)
      | inr other ↦ (c ∷ p, ps, rw (e, split_cons, other) refl)
    ]

split-feed : (c : ℕ) (s : Text) → (c == b'\n') ≡ true → split b'\n' (c ∷ s) ≡ [] ∷ split b'\n' s
unfolding split
split-feed c s h = let (p, ps, e) = split-nonempty s in rw (e, split_cons, h) refl

split-other :
    (c : ℕ) (s : Text)
    → (c == b'\n') ≡ false
    → (p : Text) × (ps : List Text) × (split b'\n' s ≡ p ∷ ps)
      × (split b'\n' (c ∷ s) ≡ (c ∷ p) ∷ ps)
unfolding split
split-other c s h = let (p, ps, e) = split-nonempty s in (p, ps, e, rw (e, split_cons, h) refl)

length-split : (s : Text) → length (split b'\n' s) ≡ suc (feeds s)
length-split [] = unfold split in refl
length-split (c ∷ s) =
    let rest = length-split s in
    elim (Bool-cases (c == b'\n')) [
      | inl feed ↦ rw (split-feed c s feed) (rw (count_if, feed) (ap suc rest))
      | inr other ↦
          let (p, ps, e, f) = split-other c s other in
          let size : length (p ∷ ps) ≡ suc (feeds s) = ap length (sym e) ∙ rest in
          rw f (rw (count_if, other) size)
    ]

join-cons :
    (p : Text) (ps : List Text) (c : ℕ) → join b'\n' ((c ∷ p) ∷ ps) ≡ c ∷ join b'\n' (p ∷ ps)
unfolding join
join-cons p [] c = refl
join-cons p (q ∷ ps) c = refl

join-blank : (p : Text) (ps : List Text) → join b'\n' ([] ∷ p ∷ ps) ≡ b'\n' ∷ join b'\n' (p ∷ ps)
unfolding join
join-blank p ps = refl

join-split : (s : Text) → join b'\n' (split b'\n' s) ≡ s
join-split [] = unfold split join in refl
join-split (c ∷ s) =
    let rest = join-split s in
    elim (Bool-cases (c == b'\n')) [
      | inl feed ↦
          let (p, ps, e) = split-nonempty s in
          let whole : join b'\n' (p ∷ ps) ≡ s = ap (join b'\n') (sym e) ∙ rest in
          let same : b'\n' ≡ c = ground arith in
          ap (join b'\n') (split-feed c s feed ∙ ap (◌∷◌ []) e)
          ∙ join-blank p ps
          ∙ ap (◌∷◌ b'\n') whole
          ∙ ap (λ x. x ∷ s) same
      | inr other ↦
          let (p, ps, e, f) = split-other c s other in
          let whole : join b'\n' (p ∷ ps) ≡ s = ap (join b'\n') (sym e) ∙ rest in
          rw f (join-cons p ps c ∙ ap (◌∷◌ c) whole)
    ]

ends_line-feed :
    (c : ℕ) (p : Text) → (c == b'\n') ≡ true → ends_line p ≡ true → ends_line (c ∷ p) ≡ true
ends_line-feed c [] h e = h
ends_line-feed c (d ∷ p) h e = e

-- What stands behind `k + 1` lines, one byte later.
drop-split :
    (c : ℕ) (s : Text) (k : ℕ)
    → join b'\n' (drop (suc k) (split b'\n' (c ∷ s)))
      ≡ join b'\n' (if c == b'\n' then drop k (split b'\n' s) else drop (suc k) (split b'\n' s))
drop-split c s k = elim (Bool-cases (c == b'\n')) [
  | inl feed ↦ rw (feed, split-feed c s feed) refl
  | inr other ↦
      let (p, ps, e, f) = split-other c s other in
      rw other
        (ap (λ l. join b'\n' (drop (suc k) l)) f ∙ ap (λ l. join b'\n' (drop (suc k) l)) (sym e))
]

ends_line-cons :
    (c : ℕ) (p : Text) (k : ℕ) → feeds p ≡ suc k → ends_line p ≡ true → ends_line (c ∷ p) ≡ true
ends_line-cons c [] k h e = absurd (omega arith)
ends_line-cons c (d ∷ p) k h e = e

-- Without its first `k` lines, a text is what stands behind its first `k` line feeds.
join-drop-split :
    (s : Text) (k : ℕ)
    → k ≤ feeds s
    → (p : Text) × (s ≡ p ++ join b'\n' (drop k (split b'\n' s)))
      × (feeds p ≡ k)
      × (ends_line p ≡ true)
join-drop-split s zero h = ([], sym (join-split s), refl, refl)
join-drop-split [] (suc k) h = absurd (omega arith)
join-drop-split (c ∷ s) (suc k) h = elim (Bool-cases (c == b'\n')) [
  | inl feed ↦
      let (p, e, n, l) = join-drop-split s k (ground (arith, feed)) in
      (
        c ∷ p,
        ap (◌∷◌ c) (e ∙ ap (◌++◌ p) (sym (drop-split c s k ∙ rw feed refl))),
        rw (count_if, feed) (ap suc n),
        ends_line-feed c p feed l,
      )
  | inr other ↦
      let (p, e, n, l) = join-drop-split s (suc k) (ground (arith, other)) in
      (
        c ∷ p,
        ap (◌∷◌ c) (e ∙ ap (◌++◌ p) (sym (drop-split c s k ∙ rw other refl))),
        rw (count_if, other) n,
        ends_line-cons c p k n l,
      )
]

feeds-append : (p t : Text) → feeds (p ++ t) ≡ feeds p + feeds t
feeds-append [] t = omega arith
feeds-append (c ∷ p) t = ground (arith, feeds-append p t)

tail_lines-short :
    (s : Text) (n : ℕ)
    → 0 < n
    → leb (length (split b'\n' s)) n ≡ true
    → tail_lines s n ≡ trim_space s
unfolding tail_lines trim_space
tail_lines-short [] n h e = ground arith
tail_lines-short (c ∷ s) n h e =
    let positive : (n == 0) ≡ false = ground arith in rw (positive, e) refl

tail_lines-long :
    (s : Text) (n : ℕ)
    → 0 < n
    → leb (length (split b'\n' s)) n ≡ false
    → tail_lines s n ≡ trim_space (join b'\n' (drop (length (split b'\n' s) - n) (split b'\n' s)))
unfolding tail_lines trim_space
tail_lines-long [] n h e = absurd (unfold split in ground arith)
tail_lines-long (c ∷ s) n h e =
    let positive : (n == 0) ≡ false = ground arith in rw (positive, e) refl

-- tailLines keeps the last `n` lines of the messages, trimmed: the text falls into whole lines and a
-- rest that is kept, and the rest has `n - 1` line feeds, or all that the text has where those are
-- fewer. This asks that `n` is above 0.
pub tail_lines_lem :
    (s : Text) (n : ℕ)
    → 0 < n
    → (p t : Text) × (s ≡ p ++ t)
      × (ends_line p ≡ true)
      × (feeds t ≡ (if leb (feeds s) (n - 1) then feeds s else n - 1))
      × (tail_lines s n ≡ trim_space t)
tail_lines_lem s n h =
    let size = length-split s in
    elim (Bool-cases (leb (length (split b'\n' s)) n)) [
      | inl short ↦ ([], s, refl, refl, ground (arith, size), tail_lines-short s n h short)
      | inr long ↦
          let k = length (split b'\n' s) - n in
          let (p, e, f, l) = join-drop-split s k (ground (arith, size)) in
          let t = join b'\n' (drop k (split b'\n' s)) in
          let total : feeds s ≡ feeds p + feeds t = ap feeds e ∙ feeds-append p t in
          (p, t, e, l, ground (arith, size, total, f), tail_lines-long s n h long)
    ]
