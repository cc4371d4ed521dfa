-- ===== src/Util/Domain/Laws.antt =====
-- Which hosts IsAllowedDomain accepts.
use mathlib.Core.List.{Memᴰ}
use ytmpt.Common.{
  true, false, Option, some, List, [], ◌∷◌, ◌++◌, ◌≡◌, ◌↔◌, inl, inr, refl, arith, Bool-cases,
}
use ytmpt.Common.Text.{
  Text, text_eq, is_empty, to_lower, trim_space, has_suffix, has_suffix_iff, text_eq_iff,
}
use ytmpt.Util.Domain.{normal, any_allowed, is_allowed_domain}

-- The host ends in a listed domain that is not blank.
pub record EndsAllowed (host : Text) (allowed : List Text) : Type 0 where
  pub domain : Text
  pub listed : Memᴰ domain allowed
  pub filled : is_empty (normal domain) ≡ false
  pub front : Text
  pub ends : host ≡ front ++ normal domain

EndsAllowed-cons :
    {host d : Text} {allowed : List Text}
    → EndsAllowed host allowed
    → EndsAllowed host (d ∷ allowed)
EndsAllowed-cons e = record {
  domain = e.domain;
  listed = Memᴰ.tail e.listed;
  filled = e.filled;
  front = e.front;
  ends = e.ends;
}

any_allowed_sound :
    (host : Text) (allowed : List Text) → any_allowed host allowed ≡ true → EndsAllowed host allowed
unfolding any_allowed
any_allowed_sound host [] h = cc
any_allowed_sound host (d ∷ allowed) h = elim (Bool-cases (is_empty (normal d))) [
  | inl blank ↦ EndsAllowed-cons (any_allowed_sound host allowed (ground arith))
  | inr filled ↦ elim (Bool-cases (has_suffix host (normal d))) [
    | inl ends ↦
        let (front, same) = (has_suffix_iff host (normal d)).0 ends in
        record { domain = d; listed = Memᴰ.head refl; filled = filled; front = front; ends = same }
    | inr other ↦ elim (Bool-cases (text_eq host (normal d))) [
      | inl same ↦ record {
        domain = d;
        listed = Memᴰ.head refl;
        filled = filled;
        front = [];
        ends = (text_eq_iff host (normal d)).0 same;
      }
      | inr differs ↦ EndsAllowed-cons (any_allowed_sound host allowed (ground arith))
    ]
  ]
]

any_allowed_complete :
    (host d front : Text) (allowed : List Text)
    → Memᴰ d allowed
    → is_empty (normal d) ≡ false
    → host ≡ front ++ normal d
    → any_allowed host allowed ≡ true
unfolding any_allowed
any_allowed_complete host d front [] m filled ends = elim m [ ]
any_allowed_complete host d front (x ∷ allowed) (Memᴰ.head e) filled ends =
    let filled' : is_empty (normal x) ≡ false = rw (← e) filled in
    let ends' : host ≡ front ++ normal x = rw (← e) ends in
    let found = (has_suffix_iff host (normal x)).1 (front, ends') in ground arith
any_allowed_complete host d front (x ∷ allowed) (Memᴰ.tail m) filled ends =
    ground (arith, any_allowed_complete host d front allowed m filled ends)

-- A text that net/url parses with a host is allowed exactly if it is not blank and the host, in
-- lower case, ends in a listed domain that is not blank.
pub is_allowed_domain_iff :
    (parse_host : Text → Option Text) (raw host : Text) (allowed : List Text)
    → parse_host (trim_space raw) ≡ some host
    → (is_allowed_domain parse_host raw allowed ≡ true)
      ↔ ((is_empty (trim_space raw) ≡ false) × EndsAllowed (to_lower host) allowed)
unfolding is_allowed_domain
is_allowed_domain_iff parse_host raw host allowed parsed =
    let all = any_allowed_sound (to_lower host) allowed in
    (
      (λ h. elim (Bool-cases (is_empty (trim_space raw))) [
        | inl blank ↦ absurd (ground arith)
        | inr filled ↦ (filled, all (ground arith))
      ]),
      (λ h.
          rw (h.0, parsed)
            (any_allowed_complete (to_lower host) h.1.domain h.1.front allowed h.1.listed h.1.filled
              h.1.ends)),
    )
