-- ===== src/Middleware/Admission.antt =====
-- Which requests reach a handler, and what a refusal costs.
use ytmpt.Common.{ℕ, ◌≡◌, ◌↔◌, refl, true, false, none, some, [], ◌∷◌, ◌++◌, arith, All, ◌≢◌}
use ytmpt.Common.Text.{Text, lit}
use ytmpt.Middleware.{
  spend, allow, client_ip, before_last, ip_allowed, key_allowed, Request, Chain, admitted, refused,
  admit,
}

-- A request reaches its handler exactly if its address is allowed, both limiters let it pass and
-- its key is accepted.
pub record IsAdmission (now : ℕ) (r : Request) (c : Chain) : Type 0 where
  pub passes : ((admit now r c).0 ≡ admitted) ↔ (
      (ip_allowed c.ip_allowlist r.remote_addr ≡ true)
      × ((spend now c.global).0 ≡ true)
      × ((allow now (client_ip r.remote_addr) c.per_ip).0 ≡ true)
      × (key_allowed c.require_api_key c.api_keys r.api_key ≡ true))
  pub free : ip_allowed c.ip_allowlist r.remote_addr ≡ false → (admit now r c).1 ≡ c
  pub paid :
      ip_allowed c.ip_allowlist r.remote_addr ≡ true
      → (admit now r c).1.global ≡ (spend now c.global).1
  pub unseen : (spend now c.global).0 ≡ false → (admit now r c).1.per_ip ≡ c.per_ip
  pub charged :
      ip_allowed c.ip_allowlist r.remote_addr ≡ true
      → (spend now c.global).0 ≡ true
      → (admit now r c).1.per_ip ≡ (allow now (client_ip r.remote_addr) c.per_ip).1
  pub forbidden :
      ip_allowed c.ip_allowlist r.remote_addr ≡ false
      → (admit now r c).0 ≡ refused 403 (lit "ip not allowed")
  pub limited :
      ip_allowed c.ip_allowlist r.remote_addr ≡ true
      → (spend now c.global).0 ≡ false
      → (admit now r c).0 ≡ refused 429 (lit "rate limit exceeded")
  pub limited_ip :
      ip_allowed c.ip_allowlist r.remote_addr ≡ true
      → (spend now c.global).0 ≡ true
      → (allow now (client_ip r.remote_addr) c.per_ip).0 ≡ false
      → (admit now r c).0 ≡ refused 429 (lit "per-ip rate limit exceeded")
  pub unauthorized :
      ip_allowed c.ip_allowlist r.remote_addr ≡ true
      → (spend now c.global).0 ≡ true
      → (allow now (client_ip r.remote_addr) c.per_ip).0 ≡ true
      → key_allowed c.require_api_key c.api_keys r.api_key ≡ false
      → (admit now r c).0 ≡ refused 401 (lit "invalid api key")
  pub settings :
      ((admit now r c).1.ip_allowlist ≡ c.ip_allowlist)
      × ((admit now r c).1.require_api_key ≡ c.require_api_key)
      × ((admit now r c).1.api_keys ≡ c.api_keys)

-- A request reaches its handler exactly if its address is allowed, both limiters let it pass and
-- its key is accepted; otherwise the first of these tests that fails, in this order, gives the
-- answer. A request from an address that is not allowed costs nothing; any other takes its turn at
-- the bucket of the service, and then, if that bucket was not empty, at the bucket of its address,
-- also if a later check refuses it. An empty bucket of the service leaves those of the addresses
-- alone. The settings of the chain stay.
pub admit_lem : (now : ℕ) (r : Request) (c : Chain) → IsAdmission now r c
unfolding admit
admit_lem now r c = record {
  passes = ground arith;
  free = λ h. ground arith;
  paid = λ h. ground arith;
  unseen = λ h. ground arith;
  charged = λ h g. ground arith;
  forbidden = λ h. ground arith;
  limited = λ h g. ground arith;
  limited_ip = λ h g k. ground arith;
  unauthorized = λ h g k l. ground arith;
  settings = ground arith;
}

before_last-append :
    (c : ℕ) (s rest : Text) → before_last c rest ≡ none → before_last c (s ++ c ∷ rest) ≡ some s
unfolding before_last
before_last-append c [] rest h = ground (arith, h)
before_last-append c (x ∷ s) rest h = rw (before_last-append c s rest h, before_last)

before_last-none : (c : ℕ) (s : Text) → All (λ x. x ≢ c) s → before_last c s ≡ none
unfolding before_last
before_last-none c [] h = refl
before_last-none c (x ∷ s) (h, hs) = ground (arith, before_last-none c s hs)

-- The address of a request is what stands before the colon of its port, whatever colons it has.
client_ip_lem : (ip port : Text) → All (λ x. x ≢ b':') port → client_ip (ip ++ b':' ∷ port) ≡ ip
unfolding client_ip
client_ip_lem ip port h =
    rw (before_last-append b':' ip port (before_last-none b':' port h), client_ip)
