-- ===== src/Middleware/Rate.antt =====
-- How many requests a token bucket lets pass.
use ytmpt.Common.{ℕ, ◌+◌, ◌-◌, ◌*◌, ◌≤◌, ◌≡◌, List, [], ◌∷◌, if◌then◌else◌, arith}
use ytmpt.Middleware.{token, TokenBucket, spend}

-- Requests at these instants, in order: how many pass, and the bucket afterwards.
unfoldable pub passes : List ℕ → TokenBucket → ℕ × TokenBucket
passes [] b = (0, b)
passes (now ∷ later) b =
    let (allowed, b') = spend now b in
    let (n, b'') = passes later b' in (if allowed then n + 1 else n, b'')

-- The instants go on from `start` to `end`.
abbrev pub Runs : ℕ → ℕ → List ℕ → Type 0
Runs start end [] = start ≤ end
Runs start end (now ∷ later) = (start ≤ now) × Runs now end later

module _ (now : ℕ) (b : TokenBucket) where
  spend-paid :
      (if (spend now b).0 then token else 0) + (spend now b).1.tokens
      ≤ b.tokens + (now - b.last) * b.rate
  unfolding spend
  spend-paid = ground arith

  spend-kept :
      ((spend now b).1.capacity ≡ b.capacity)
      × ((spend now b).1.rate ≡ b.rate)
      × ((spend now b).1.last ≡ now)
  unfolding spend
  spend-kept = ground arith

  spend-bounded : (spend now b).1.tokens ≤ b.capacity * token
  unfolding spend
  spend-bounded = ground arith

split_time : (a b c r : ℕ) → a ≤ b → b ≤ c → (b - a) * r + (c - b) * r ≡ (c - a) * r
split_time a b c r h k = let e : c - a ≡ (b - a) + (c - b) = omega arith in rw e (grind arith)

Runs-le : (start end : ℕ) (times : List ℕ) → Runs start end times → start ≤ end
Runs-le start end [] h = h
Runs-le start end (now ∷ later) h = omega (arith, Runs-le now end later h.1)

-- From any bucket on, the tokens of the requests that pass, with those left at the end, are at most
-- the tokens at the start and the rate times the time that went by.
pub passes_bounded :
    (times : List ℕ) (b : TokenBucket) (end : ℕ)
    → Runs b.last end times
    → (passes times b).0 * token + (passes times b).1.tokens ≤ b.tokens + (end - b.last) * b.rate
unfolding passes
passes_bounded [] b end h = omega arith
passes_bounded (now ∷ later) b end (h, hs) =
    let b' = (spend now b).1 in
    let kept = spend-kept now b in
    let ih = passes_bounded later b' end (rw kept.2 hs) in
    let ih' : (passes later b').0 * token + (passes later b').1.tokens
        ≤ b'.tokens + (end - now) * b.rate =
      rw (kept.1, kept.2) at ih in
    let paid = spend-paid now b in
    let time = split_time b.last now end b.rate h (Runs-le now end later hs) in
    ground (arith, ih', paid, time)
