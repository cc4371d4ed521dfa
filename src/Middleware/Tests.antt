-- ===== src/Middleware/Tests.antt =====
-- Runs of the limits, and their theorems at concrete buckets.
use ytmpt.Common.{◌+◌, ◌-◌, ◌*◌, ◌≤◌, ◌≡◌, refl, true, List, [], ◌∷◌, arith}
use ytmpt.Common.Text.{lit, text_eq, trim_space}
use ytmpt.Common.Dict.{lookup}
use ytmpt.Middleware.{
  token, TokenBucket, full_bucket, spend, new_ip_limiter, allow, client_ip, ip_allowed, key_allowed,
  Request, Chain, admitted, admit,
}
use ytmpt.Middleware.Rate.{passes, passes_bounded}
use ytmpt.Middleware.Isolation.{Visit, answers_for, alone, times_of, answers_for-alone}
use ytmpt.Middleware.Admission.{IsAdmission, admit_lem}

-- Two tokens, and one more for each second.
abbrev bucket : TokenBucket
bucket = full_bucket 1000000000 2 0

-- The third request at once is refused; one a second later passes.
four_requests : (passes (0 ∷ 0 ∷ 0 ∷ 1000000000 ∷ []) bucket).0 ≡ 3
unfolding passes spend
four_requests = refl

passes_bounded_example :
    (passes (0 ∷ 0 ∷ 5 ∷ []) bucket).0 * token + (passes (0 ∷ 0 ∷ 5 ∷ []) bucket).1.tokens
    ≤ bucket.tokens + (1000000000 - bucket.last) * bucket.rate
passes_bounded_example = passes_bounded (0 ∷ 0 ∷ 5 ∷ []) bucket 1000000000 (omega arith)

abbrev visits : List Visit
visits = (0, 1 ∷ []) ∷ (0, 2 ∷ []) ∷ (0, 1 ∷ []) ∷ []

answers_for-alone_example :
    answers_for (1 ∷ []) visits (new_ip_limiter 1000000000 1)
    ≡ alone 1000000000 1
        (lookup (1 ∷ []) (new_ip_limiter 1000000000 1).buckets)
        (times_of (1 ∷ []) visits)
answers_for-alone_example = answers_for-alone (1 ∷ []) visits (new_ip_limiter 1000000000 1)

abbrev request : Request
request = record { remote_addr = lit "[::1]:80"; api_key = lit "k" }

abbrev chain : Chain
chain = record {
  ip_allowlist = lit "[::1]" ∷ [];
  require_api_key = true;
  api_keys = lit "k" ∷ [];
  global = bucket;
  per_ip = new_ip_limiter 1000000000 1;
}

enters : (admit 0 request chain).0 ≡ admitted
unfolding admit spend allow client_ip ip_allowed key_allowed lit text_eq trim_space lookup
enters = refl

admit_lem_example : IsAdmission 0 request chain
admit_lem_example = admit_lem 0 request chain
