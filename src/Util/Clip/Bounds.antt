-- ===== src/Util/Clip/Bounds.antt =====
-- What ParseClipBounds accepts.
use mathlib.Core.List.{reverse, reverse_perm}
use ytmpt.Common.{
  ℕ, ◌+◌, ◌*◌, ◌-◌, ◌≤◌, ◌<◌, ◌≡◌, ◌↔◌, ◌⊎◌, inl, inr, ap, ◌∙◌, some, List, [], ◌∷◌, ltb,
  if◌then◌else◌, arith, length, All, ◌==◌, length-perm, Bool-cases, Option-cases,
}
use ytmpt.Common.Text.{Text, is_empty, trim_space, trim_left, split, split_cons}
use ytmpt.Common.Int.{ℤ, pos, negsuc, wrap, wrap_small}
use ytmpt.Common.Decimal.{atoi-lt, pow10}
use ytmpt.Util.Clip.{
  non_negative, below_sixty, seconds_of, to_sec, wrapped_sub, check_bounds, parse_clip_bounds,
}

length-trim_left : (s : Text) → length (trim_left s) ≤ length s
unfolding trim_left
length-trim_left [] = omega arith
length-trim_left (c ∷ s) = ground (arith, length-trim_left s)

length-trim_space : (s : Text) → length (trim_space s) ≤ length s
unfolding trim_space
length-trim_space s =
    let a = length-perm (reverse_perm (trim_left s)) in
    let b = length-perm (reverse_perm (trim_left (reverse (trim_left s)))) in
    omega (arith, length-trim_left s, length-trim_left (reverse (trim_left s)))

abbrev IsShort : ℕ → List Text → Type 0
IsShort k parts = All (λ p. length p ≤ k) parts

IsShort-suc : (k : ℕ) (parts : List Text) → IsShort k parts → IsShort (k + 1) parts
IsShort-suc k [] h = tt
IsShort-suc k (p ∷ ps) (h, hs) = (omega arith, IsShort-suc k ps hs)

IsShort-le : (j k : ℕ) (parts : List Text) → j ≤ k → IsShort j parts → IsShort k parts
IsShort-le j k [] le h = tt
IsShort-le j k (p ∷ ps) le (h, hs) = (omega arith, IsShort-le j k ps le hs)

IsShort-split : (sep : ℕ) (s : Text) → IsShort (length s) (split sep s)
unfolding split
IsShort-split sep [] = (omega arith, tt)
IsShort-split sep (c ∷ s) = longer (split sep s) (IsShort-split sep s)
  where
    longer :
        (parts : List Text)
        → IsShort (length s) parts
        → IsShort (length (c ∷ s)) (split_cons sep c parts)
    longer [] h = tt
    longer (p ∷ ps) (h, hs) = elim (Bool-cases (c == sep)) [
      | inl cut ↦
          rw cut
            (omega arith, (omega arith, IsShort-le (length s) (length (c ∷ s)) ps (omega arith) hs))
      | inr kept ↦ rw kept (omega arith, IsShort-le (length s) (length (c ∷ s)) ps (omega arith) hs)
    ]

-- A part of at most 15 bytes is a number below 10 ^ 15.
non_negative-lt :
    (p : Text) (n : ℕ) → length p ≤ 15 → non_negative p ≡ some n → n < 1000000000000000
unfolding non_negative pow10
non_negative-lt p n h e = ground (arith, atoi-lt 15 p n h)

below_sixty-lt : (p : Text) (n : ℕ) → below_sixty p ≡ some n → n < 60
unfolding below_sixty
below_sixty-lt p n e = ground arith

-- The seconds of parts of at most 15 bytes do not wrap around.
seconds_of-pos :
    (parts : List Text) (z : ℤ)
    → IsShort 15 parts
    → seconds_of parts ≡ some z
    → (n : ℕ) × (z ≡ pos n) × (n < 9223372036854775808)
unfolding seconds_of
seconds_of-pos [] z h e = cc
seconds_of-pos (m ∷ []) z h e = cc
seconds_of-pos (m ∷ s ∷ []) z (hm, (hs, _)) e = elim (Option-cases (non_negative m)) [
  | inl no_m ↦ absurd (ground arith)
  | inr (a, ea) ↦ elim (Option-cases (below_sixty s)) [
    | inl no_s ↦ absurd (ground arith)
    | inr (b, eb) ↦
        let small : a * 60 + b < 9223372036854775808 =
          omega (arith, non_negative-lt m a hm ea, below_sixty-lt s b eb) in
        (a * 60 + b, ground (arith, wrap_small (a * 60 + b)), small)
  ]
]
seconds_of-pos (h ∷ m ∷ s ∷ []) z (hh, (hm, (hs, _))) e = elim (Option-cases (non_negative h)) [
  | inl no_h ↦ absurd (ground arith)
  | inr (a, ea) ↦ elim (Option-cases (below_sixty m)) [
    | inl no_m ↦ absurd (ground arith)
    | inr (b, eb) ↦ elim (Option-cases (below_sixty s)) [
      | inl no_s ↦ absurd (ground arith)
      | inr (c, ec) ↦
          let small : a * 3600 + b * 60 + c < 9223372036854775808 =
            omega
              (arith, non_negative-lt h a hh ea, below_sixty-lt m b eb, below_sixty-lt s c ec) in
          (a * 3600 + b * 60 + c, ground (arith, wrap_small (a * 3600 + b * 60 + c)), small)
    ]
  ]
]
seconds_of-pos (_ ∷ _ ∷ _ ∷ _ ∷ _) z h e = cc

-- A time of at most 15 bytes is read as a number of seconds that does not wrap around.
to_sec-pos :
    (t : Text) (z : ℤ)
    → length t ≤ 15
    → to_sec t ≡ some z
    → (n : ℕ) × (z ≡ pos n) × (n < 9223372036854775808)
unfolding to_sec
to_sec-pos t z h e = elim (Bool-cases (is_empty (trim_space t))) [
  | inl blank ↦ (0, ground arith, omega arith)
  | inr filled ↦
      seconds_of-pos (split b':' (trim_space t)) z
        (IsShort-le (length (trim_space t)) 15 _ (omega (arith, length-trim_space t))
          (IsShort-split b':' (trim_space t)))
        (rw (filled, to_sec) at e)
]

-- The clip lies in the video, and it is not longer than the maximum.
pub record IsClip (a b max_seconds total : ℕ) : Type 0 where
  pub ordered : (b ≡ 0) ⊎ (a < b)
  pub starts : (total ≡ 0) ⊎ (a < total)
  pub ends : (total ≡ 0) ⊎ (b ≤ total)
  pub fits : (max_seconds ≡ 0) ⊎ ((if ltb 0 b then b else total) ≤ a + max_seconds)

wrapped_sub-pos :
    (b a : ℕ) → a ≤ b → b < 9223372036854775808 → wrapped_sub (pos b) (pos a) ≡ pos (b - a)
unfolding wrapped_sub wrap
wrapped_sub-pos b a h k = ground arith

-- On times that are not negative the checks accept exactly the clips.
check_bounds_iff :
    (a b max_seconds total : ℕ)
    → a < 9223372036854775808
    → b < 9223372036854775808
    → total < 9223372036854775808
    → (check_bounds (pos a) (pos b) (pos max_seconds) (pos total) ≡ some (pos a, pos b))
      ↔ IsClip a b max_seconds total
unfolding check_bounds
check_bounds_iff a b max_seconds total ha hb ht =
    let ends = wrapped_sub-pos b a in
    let rest = wrapped_sub-pos total a in
    (
      (λ e. record {
        ordered = ground (arith, ends, rest);
        starts = ground (arith, ends, rest);
        ends = ground (arith, ends, rest);
        fits = ground (arith, ends, rest);
      }),
      (λ c. ground (arith, ends, rest, c.ordered, c.starts, c.ends, c.fits)),
    )

-- The two times of an accepted clip.
pub record IsAccepted (start end : Text) (max_seconds total : ℕ) (ss ee : ℤ) : Type 0 where
  pub from : ℕ
  pub until : ℕ
  pub start_read : to_sec start ≡ some (pos from)
  pub end_read : to_sec end ≡ some (pos until)
  pub ss_is : ss ≡ pos from
  pub ee_is : ee ≡ pos until
  pub clip : IsClip from until max_seconds total

check_bounds-same :
    (ss ee max_seconds total ss' ee' : ℤ)
    → check_bounds ss ee max_seconds total ≡ some (ss', ee')
    → (ss' ≡ ss) × (ee' ≡ ee)
unfolding check_bounds
check_bounds-same ss ee max_seconds total ss' ee' h = ground arith

module _ (start end : Text) (max_seconds total : ℕ) (hs : length start ≤ 15) (he : length end ≤ 15)
    (ht : total < 9223372036854775808) where
  -- Both times read, and a clip between them: what ParseClipBounds accepts, for times of at most
  -- 15 bytes and a duration that an int holds; it then returns the two times.
  pub parse_clip_bounds_iff :
      (ss ee : ℤ)
      → (parse_clip_bounds start end (pos max_seconds) (pos total) ≡ some (ss, ee))
        ↔ IsAccepted start end max_seconds total ss ee
  unfolding parse_clip_bounds
  parse_clip_bounds_iff ss ee = (forth, back)
    where
      accept :
          (x y : ℤ)
          → to_sec start ≡ some x
          → to_sec end ≡ some y
          → check_bounds x y (pos max_seconds) (pos total) ≡ some (ss, ee)
          → IsAccepted start end max_seconds total ss ee
      accept x y ex ey run =
          let (a, xa, la) = to_sec-pos start x hs ex in
          let (b, yb, lb) = to_sec-pos end y he ey in
          let run' : check_bounds (pos a) (pos b) (pos max_seconds) (pos total) ≡ some (ss, ee) =
            rw (xa, yb) at run in
          let same = check_bounds-same (pos a) (pos b) (pos max_seconds) (pos total) ss ee run' in
          record {
            from = a;
            until = b;
            start_read = ex ∙ ap some xa;
            end_read = ey ∙ ap some yb;
            ss_is = same.0;
            ee_is = same.1;
            clip =
                (check_bounds_iff a b max_seconds total la lb ht).0 (rw (same.0, same.1) at run');
          }

      forth :
          parse_clip_bounds start end (pos max_seconds) (pos total) ≡ some (ss, ee)
          → IsAccepted start end max_seconds total ss ee
      forth h = elim (Option-cases (to_sec start)) [
        | inl bad ↦ absurd (ground arith)
        | inr (x, ex) ↦ elim (Option-cases (to_sec end)) [
          | inl bad ↦ absurd (ground arith)
          | inr (y, ey) ↦ accept x y ex ey (rw (ex, ey, parse_clip_bounds) at h)
        ]
      ]

      back :
          IsAccepted start end max_seconds total ss ee
          → parse_clip_bounds start end (pos max_seconds) (pos total) ≡ some (ss, ee)
      back c =
          let (a, xa, la) = to_sec-pos start (pos c.from) hs c.start_read in
          let (b, yb, lb) = to_sec-pos end (pos c.until) he c.end_read in
          rw (c.start_read, c.end_read, c.ss_is, c.ee_is)
            ((check_bounds_iff c.from c.until max_seconds total (ground arith) (ground arith) ht).1
              c.clip)

-- A start that wraps around to a negative number, with no end and no maximum, is accepted
-- whatever the duration of the video.
parse_clip_bounds_overflow :
    (start end : Text) (k total : ℕ)
    → to_sec start ≡ some (negsuc k)
    → to_sec end ≡ some (pos 0)
    → parse_clip_bounds start end (pos 0) (pos total) ≡ some (negsuc k, pos 0)
unfolding parse_clip_bounds check_bounds
parse_clip_bounds_overflow start end k total hs he = rw (hs, he) (ground arith)
