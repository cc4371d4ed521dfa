-- ===== src/Metrics/Buckets.antt =====
-- Which bucket ObserveDuration counts in.
use ytmpt.Common.{
  ℕ, suc, ◌+◌, ◌≤◌, ◌<◌, ◌≡◌, ◌⊎◌, inl, inr, refl, subst, List, [], ◌∷◌, leb, get_or, take, length,
  All, Bool-cases, arith,
}
use ytmpt.Metrics.{buckets, bucket_from, bucket_of}

-- The bucket `k` is the first that is not below the duration.
pub record IsFirst (duration : ℕ) (bs : List ℕ) (k : ℕ) : Type 0 where
  pub inside : k < length bs
  pub reaches : duration ≤ get_or bs k 0
  pub below : All (λ b. b < duration) (take k bs)

bucket_from_lem :
    (last i duration : ℕ) (bs : List ℕ)
    → ((bucket_from last i duration bs ≡ last) × All (λ b. b < duration) bs)
      ⊎ ((k : ℕ) × (bucket_from last i duration bs ≡ i + k) × IsFirst duration bs k)
unfolding bucket_from
bucket_from_lem last i duration [] = inl (refl, tt)
bucket_from_lem last i duration (b ∷ bs) = elim (Bool-cases (leb duration b)) [
  | inl here ↦ inr (
    0,
    rw here (omega arith),
    record { inside = omega arith; reaches = ground (arith, here); below = tt },
  )
  | inr above ↦ elim (bucket_from_lem last (suc i) duration bs) [
    | inl (none_left, all) ↦ inl (rw (above, none_left) refl, (ground (arith, above), all))
    | inr (k, at, first) ↦ inr (
      suc k,
      rw (above, at) (omega arith),
      record {
        inside = omega (arith, first.inside);
        reaches = first.reaches;
        below = (ground (arith, above), first.below);
      },
    )
  ]
]

-- The bucket of a duration is the first whose bound is not below it, or the last bucket, if every
-- bound is below it.
pub bucket_of_lem :
    (duration : ℕ)
    → ((bucket_of duration ≡ 9) × All (λ b. b < duration) buckets)
      ⊎ IsFirst duration buckets (bucket_of duration)
unfolding bucket_of
bucket_of_lem duration = elim (bucket_from_lem 9 0 duration buckets) [
  | inl late ↦ inl late
  | inr (k, at, first) ↦
      let same : k ≡ bucket_from 9 0 duration buckets = omega (arith, at) in
      inr (subst (IsFirst duration buckets) same first)
]
