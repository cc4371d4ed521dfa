-- ===== src/Middleware.antt =====
-- internal/middleware/middleware.go: the token buckets, the limits on the whole service and on an
-- address, the allowlist and the API key. A float64 is exact here: a rate is a number of billionths
-- of a token per second, tokens are counted in `token`ths, and an instant is a number of
-- nanoseconds, so no product rounds. Rates and bursts are not negative. The mutexes make each check
-- one step.
pub mod Rate
pub mod Isolation
pub mod Admission
mod Tests
use ytmpt.Common.{
  ℕ, ◌+◌, ◌-◌, ◌*◌, Bool, true, false, not, Option, none, some, List, [], ◌∷◌, ltb, leb, length,
  ◌==◌, if◌then◌else◌,
}
use ytmpt.Common.Text.{Text, lit, text_eq, is_empty, trim_space}
use ytmpt.Common.Dict.{Dict, lookup, insert}

-- One token: a billionth of a token per second for a nanosecond is one part of it.
abbrev pub token : ℕ
token = 1000000000000000000

pub record TokenBucket : Type 0 where
  pub capacity : ℕ
  pub tokens : ℕ
  pub rate : ℕ
  pub last : ℕ

abbrev pub full_bucket : ℕ → ℕ → ℕ → TokenBucket
full_bucket rate burst now = record {
  capacity = burst;
  tokens = burst * token;
  rate = rate;
  last = now;
}

-- The tokens after the time since `last`, up to the capacity.
unfoldable pub refilled : ℕ → TokenBucket → ℕ
refilled now b =
    let tokens = b.tokens + (now - b.last) * b.rate in
    if ltb (b.capacity * token) tokens then b.capacity * token else tokens

-- The part under the mutex, which both limiters share: whether a token was there, and the bucket.
unfoldable pub spend : ℕ → TokenBucket → Bool × TokenBucket
unfolding refilled
spend now b =
    let tokens = refilled now b in
    let kept = record b { tokens = tokens; last = now } in
    if leb token tokens then (true, record kept { tokens = tokens - token }) else (false, kept)

pub record IpLimiter : Type 0 where
  pub rate : ℕ
  pub burst : ℕ
  pub buckets : Dict TokenBucket

abbrev pub new_ip_limiter : ℕ → ℕ → IpLimiter
new_ip_limiter rate burst = record { rate = rate; burst = burst; buckets = [] }

-- The bucket of an address, a full one if there is none.
abbrev pub bucket_of : ℕ → Text → IpLimiter → TokenBucket
bucket_of now ip l = elim (lookup ip l.buckets) [
  | some b ↦ b
  | none ↦ full_bucket l.rate l.burst now
]

unfoldable pub allow : ℕ → Text → IpLimiter → Bool × IpLimiter
unfolding spend
allow now ip l =
    let (allowed, b) = spend now (bucket_of now ip l) in
    (allowed, record l { buckets = insert ip b l.buckets })

-- ip[:strings.LastIndex(ip, c)], if the byte is there.
before_last : ℕ → Text → Option Text
before_last c [] = none
before_last c (x ∷ s) = elim (before_last c s) [
  | some p ↦ some (x ∷ p)
  | none ↦ if x == c then some [] else none
]

-- The address without the port.
unfoldable pub client_ip : Text → Text
unfolding before_last
client_ip addr = elim (before_last b':' addr) [ some ip ↦ ip | none ↦ addr ]

-- The keys of the maps that IPAllowlistMiddleware and Router build.
listed : Text → List Text → Bool
listed k [] = false
listed k (x ∷ xs) = let rest = listed k xs in if text_eq x k then true else rest

trimmed : List Text → List Text
trimmed [] = []
trimmed (x ∷ xs) =
    let rest = trimmed xs in if is_empty (trim_space x) then rest else trim_space x ∷ rest

unfoldable pub ip_allowed : List Text → Text → Bool
unfolding listed trimmed
ip_allowed allow addr =
    let allowed = trimmed allow in
    if length allowed == 0 then true else listed (client_ip addr) allowed

unfoldable pub key_allowed : Bool → List Text → Text → Bool
unfolding listed
key_allowed required keys key = if not required then true else listed key keys

-- The parts of a request that the chain reads.
pub record Request : Type 0 where
  pub remote_addr : Text
  pub api_key : Text

-- The settings of the chain, and the state of its two limiters.
pub record Chain : Type 0 where
  pub ip_allowlist : List Text
  pub require_api_key : Bool
  pub api_keys : List Text
  pub global : TokenBucket
  pub per_ip : IpLimiter

-- A status code with its text, or the handler is called.
pub data Verdict : Type 0 where
  refused : ℕ → Text → Verdict
  admitted : Verdict

-- The order in which Router wraps the handlers.
unfoldable pub admit : ℕ → Request → Chain → Verdict × Chain
admit now r c =
    if not (ip_allowed c.ip_allowlist r.remote_addr)
    then (refused 403 (lit "ip not allowed"), c)
    else (let (passed, global) = spend now c.global in
        let c' = record c { global = global } in
        if not passed
        then (refused 429 (lit "rate limit exceeded"), c')
        else (let (passed_ip, per_ip) = allow now (client_ip r.remote_addr) c.per_ip in
            let c'' = record c' { per_ip = per_ip } in
            if not passed_ip
            then (refused 429 (lit "per-ip rate limit exceeded"), c'')
            else if not (key_allowed c.require_api_key c.api_keys r.api_key)
            then (refused 401 (lit "invalid api key"), c'')
            else (admitted, c'')))

-- The headers that SecurityHeaders sets before the handler.
unfoldable pub security_headers : Dict Text → Dict Text
security_headers headers = insert (lit "X-XSS-Protection") (lit "1; mode=block") (
    insert (lit "X-Frame-Options") (lit "DENY")
      (insert (lit "X-Content-Type-Options") (lit "nosniff") headers))
