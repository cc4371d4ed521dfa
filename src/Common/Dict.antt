-- ===== src/Common/Dict.antt =====
-- Go's map with string keys, as an association list with at most one entry for a key.
use mathlib.Core.Path.{◌≡◌}
use mathlib.Core.Bool.{Bool, false}
use mathlib.Core.Option.{Option, none, some}
use mathlib.Core.List.{List, [], ◌∷◌}
use native.Mathlib.Omega.{arith}
use ytmpt.Common.Tests.{if◌then◌else◌}
use ytmpt.Common.Text.{Text, text_eq, text_eq_iff}

abbrev pub Dict {ℓ} : Type ℓ → Type ℓ
Dict V = List (Text × V)

module _ {ℓ} {V : Type ℓ} where
  -- v, ok := m[k]
  unfoldable pub lookup : Text → Dict V → Option V
  lookup k [] = none
  lookup k ((j, v) ∷ m) = if text_eq j k then some v else lookup k m

  -- delete(m, k)
  unfoldable pub delete : Text → Dict V → Dict V
  delete k [] = []
  delete k ((j, v) ∷ m) = let rest = delete k m in if text_eq j k then rest else (j, v) ∷ rest

  -- m[k] = v
  unfoldable pub insert : Text → V → Dict V → Dict V
  insert k v m = (k, v) ∷ delete k m

  pub lookup-delete :
      (k j : Text) (m : Dict V) → lookup j (delete k m) ≡ (if text_eq k j then none else lookup j m)
  unfolding lookup delete
  lookup-delete k j [] = ground arith
  lookup-delete k j ((i, v) ∷ m) =
      ground (arith, lookup-delete k j m, text_eq_iff i k, text_eq_iff i j, text_eq_iff k j)

  pub lookup-insert :
      (k j : Text) (v : V) (m : Dict V)
      → lookup j (insert k v m) ≡ (if text_eq k j then some v else lookup j m)
  unfolding insert lookup
  lookup-insert k j v m = ground (arith, lookup-delete k j m)

  -- Go's `for k, v := range m { if drop(v) { delete(m, k) } }`
  unfoldable pub delete_where : (V → Bool) → Dict V → Dict V
  delete_where p [] = []
  delete_where p ((j, v) ∷ m) = let rest = delete_where p m in if p v then rest else (j, v) ∷ rest

  -- What is left after the deletions fails the test.
  pub lookup-delete_where :
      (p : V → Bool) (k : Text) (v : V) (m : Dict V)
      → lookup k (delete_where p m) ≡ some v
      → p v ≡ false
  unfolding lookup delete_where
  lookup-delete_where p k v [] h = cc
  lookup-delete_where p k v ((j, w) ∷ m) h = ground (arith, lookup-delete_where p k v m)
