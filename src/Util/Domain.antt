-- ===== src/Util/Domain.antt =====
-- internal/util/url.go: IsAllowedDomain. The host that net/url parses out of a text is a parameter.
pub mod Laws
use ytmpt.Common.{Bool, true, false, ◌||◌, Option, none, some, List, [], ◌∷◌, if◌then◌else◌}
use ytmpt.Common.Text.{Text, text_eq, is_empty, to_lower, trim_space, has_suffix}

-- A configured domain, trimmed and in lower case.
abbrev pub normal : Text → Text
normal d = to_lower (trim_space d)

-- The loop over the allowed domains.
unfoldable pub any_allowed : Text → List Text → Bool
any_allowed host [] = false
any_allowed host (d ∷ allowed) =
    let rest = any_allowed host allowed in
    if is_empty (normal d)
    then rest
    else if has_suffix host (normal d) || text_eq host (normal d)
    then true
    else rest

module _ (parse_host : Text → Option Text) where
  unfoldable pub is_allowed_domain : Text → List Text → Bool
  is_allowed_domain raw allowed =
      let s = trim_space raw in
      if is_empty s
      then false
      else elim (parse_host s) [ none ↦ false | some host ↦ any_allowed (to_lower host) allowed ]
