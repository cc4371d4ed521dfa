-- ===== src/Config/Tests.antt =====
-- Readings of an environment.
use ytmpt.Common.{◌≡◌, refl, [], ◌∷◌}
use ytmpt.Common.Text.{lit, split, trim_space}
use ytmpt.Config.{split_and_trim}

two_parts : split_and_trim (lit " youtube.com, ,youtu.be") ≡ lit "youtube.com" ∷ lit "youtu.be" ∷ []
unfolding split_and_trim lit split trim_space
two_parts = refl
