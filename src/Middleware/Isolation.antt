-- ===== src/Middleware/Isolation.antt =====
-- The limiter of PerIPRateLimiter against its specification: a bucket of its own for each address.
use ytmpt.Common.{
  ℕ, ◌≡◌, ◌∙◌, inl, inr, refl, ap, Bool, Option, none, some, List, [], ◌∷◌, if◌then◌else◌, arith,
  Bool-cases,
}
use ytmpt.Common.Text.{Text, text_eq, text_eq_iff}
use ytmpt.Common.Dict.{lookup, lookup-insert}
use ytmpt.Middleware.{TokenBucket, full_bucket, spend, IpLimiter, bucket_of, allow}

-- A request: its instant and its address.
abbrev pub Visit : Type 0
Visit = ℕ × Text

-- The answers to the requests of one address, while the limiter serves all of them.
pub answers_for : Text → List Visit → IpLimiter → List Bool
answers_for ip [] l = []
answers_for ip ((now, j) ∷ visits) l =
    let (allowed, l') = allow now j l in
    let rest = answers_for ip visits l' in if text_eq j ip then allowed ∷ rest else rest

pub times_of : Text → List Visit → List ℕ
times_of ip [] = []
times_of ip ((now, j) ∷ visits) =
    let rest = times_of ip visits in if text_eq j ip then now ∷ rest else rest

abbrev pub or_full : ℕ → ℕ → ℕ → Option TokenBucket → TokenBucket
or_full rate burst now none = full_bucket rate burst now
or_full rate burst now (some b) = b

-- The specification: one bucket that sees only its own requests.
pub alone : ℕ → ℕ → Option TokenBucket → List ℕ → List Bool
alone rate burst b [] = []
alone rate burst b (now ∷ times) =
    let (allowed, b') = spend now (or_full rate burst now b) in
    allowed ∷ alone rate burst (some b') times

bucket_of-or_full :
    (now : ℕ) (ip : Text) (l : IpLimiter)
    → bucket_of now ip l ≡ or_full l.rate l.burst now (lookup ip l.buckets)
bucket_of-or_full now ip l = ground arith

allow-kept :
    (now : ℕ) (j ip : Text) (l : IpLimiter)
    → ((allow now j l).1.rate ≡ l.rate)
      × ((allow now j l).1.burst ≡ l.burst)
      × (lookup ip (allow now j l).1.buckets
          ≡ (if text_eq j ip then some (spend now (bucket_of now j l)).1 else lookup ip l.buckets))
unfolding allow
allow-kept now j ip l = (refl, refl, lookup-insert j ip _ l.buckets)

allow-answer :
    (now : ℕ) (j : Text) (l : IpLimiter) → (allow now j l).0 ≡ (spend now (bucket_of now j l)).0
unfolding allow
allow-answer now j l = refl

-- Whatever the other addresses do, the answers to the requests of an address are those of a bucket
-- that sees only these requests.
pub answers_for-alone :
    (ip : Text) (visits : List Visit) (l : IpLimiter)
    → answers_for ip visits l ≡ alone l.rate l.burst (lookup ip l.buckets) (times_of ip visits)
unfolding answers_for times_of alone
answers_for-alone ip [] l = refl
answers_for-alone ip ((now, j) ∷ visits) l =
    let (rate, burst, bucket) = allow-kept now j ip l in
    let ih = rw (rate, burst, bucket) at (answers_for-alone ip visits (allow now j l).1) in
    elim (Bool-cases (text_eq j ip)) [
      | inl own ↦
          let same : j ≡ ip = (text_eq_iff j ip).0 own in
          let seen : bucket_of now j l ≡ or_full l.rate l.burst now (lookup ip l.buckets) =
            bucket_of-or_full now j l
            ∙ ap (λ i. or_full l.rate l.burst now (lookup i l.buckets)) same in
          rw (own, allow-answer now j l, rw (own, seen) at ih, seen)
      | inr other ↦ rw other (rw other at ih)
    ]
