-- ===== src/Common/Lists.antt =====
-- Lists measured and indexed by native numbers, under the library's names.
use Prim.Native.Nat.{ℕ, zero, suc, ◌+◌, ◌≤◌, ◌<◌}
use native.Mathlib.Nat.{ℕ_set}
use mathlib.Core.Path.{◌≡◌, refl, ap, ◌∙◌}
use mathlib.Core.Bool.{Bool, true, ◌&&◌, Bool-set}
use mathlib.Core.Logic.{∥∥₁_elim}
use mathlib.Core.List.{List, [], ◌∷◌, ◌++◌, map, Perm, Permᴰ}
use mathlib.Core.List.Perm
use mathlib.Core.Option.{Option, none, some}
use native.Mathlib.Omega.{arith}
use ytmpt.Common.Tests.{if◌then◌else◌, ◌==◌}

module _ {ℓ} {A : Type ℓ} where
  abbrev pub length : List A → ℕ
  length [] = 0
  length (x ∷ xs) = suc (length xs)

  abbrev pub get_elem? : List A → ℕ → Option A
  get_elem? [] i = none
  get_elem? (x ∷ xs) zero = some x
  get_elem? (x ∷ xs) (suc i) = get_elem? xs i

  abbrev pub get_or : List A → ℕ → A → A
  get_or [] i d = d
  get_or (x ∷ xs) zero d = x
  get_or (x ∷ xs) (suc i) d = get_or xs i d

  abbrev pub set : List A → ℕ → A → List A
  set [] i v = []
  set (x ∷ xs) zero v = v ∷ xs
  set (x ∷ xs) (suc i) v = x ∷ set xs i v

  abbrev pub take : ℕ → List A → List A
  take zero xs = []
  take (suc n) [] = []
  take (suc n) (x ∷ xs) = x ∷ take n xs

  abbrev pub drop : ℕ → List A → List A
  drop zero xs = xs
  drop (suc n) [] = []
  drop (suc n) (x ∷ xs) = drop n xs

module _ {ℓ} {A : Type ℓ} where
  pub length-append : (xs ys : List A) → length (xs ++ ys) ≡ length xs + length ys
  length-append [] ys = omega arith
  length-append (x ∷ xs) ys = omega (arith, length-append xs ys)

  pub length-set : (xs : List A) (i : ℕ) (v : A) → length (set xs i v) ≡ length xs
  length-set [] i v = refl
  length-set (x ∷ xs) zero v = refl
  length-set (x ∷ xs) (suc i) v = ap suc (length-set xs i v)

  pub get_elem?-get_or :
      (xs : List A) (i : ℕ) (d : A) → i < length xs → get_elem? xs i ≡ some (get_or xs i d)
  get_elem?-get_or [] i d h = absurd (omega arith)
  get_elem?-get_or (x ∷ xs) zero d h = refl
  get_elem?-get_or (x ∷ xs) (suc i) d h = get_elem?-get_or xs i d (omega arith)

  pub get_or-set :
      (xs : List A) (i j : ℕ) (v d : A)
      → i < length xs
      → get_or (set xs i v) j d ≡ (if i == j then v else get_or xs j d)
  get_or-set [] i j v d h = absurd (omega arith)
  get_or-set (x ∷ xs) zero zero v d h = refl
  get_or-set (x ∷ xs) zero (suc j) v d h = ground arith
  get_or-set (x ∷ xs) (suc i) zero v d h = ground arith
  get_or-set (x ∷ xs) (suc i) (suc j) v d h = ground (arith, get_or-set xs i j v d)

  pub set_self : (xs : List A) (i : ℕ) (d : A) → set xs i (get_or xs i d) ≡ xs
  set_self [] i d = refl
  set_self (x ∷ xs) zero d = refl
  set_self (x ∷ xs) (suc i) d = ap (◌∷◌ x) (set_self xs i d)

  pub get_or-append :
      (xs ys : List A) (i : ℕ) (d : A) → i < length xs → get_or (xs ++ ys) i d ≡ get_or xs i d
  get_or-append [] ys i d h = absurd (omega arith)
  get_or-append (x ∷ xs) ys zero d h = refl
  get_or-append (x ∷ xs) ys (suc i) d h = get_or-append xs ys i d (omega arith)

  pub get_or-take :
      (n : ℕ) (xs : List A) (i : ℕ) (d : A) → i < n → get_or (take n xs) i d ≡ get_or xs i d
  get_or-take zero xs i d h = absurd (omega arith)
  get_or-take (suc n) [] i d h = refl
  get_or-take (suc n) (x ∷ xs) zero d h = refl
  get_or-take (suc n) (x ∷ xs) (suc i) d h = get_or-take n xs i d (omega arith)

  pub take-append-get_or :
      (n : ℕ) (xs : List A) (d : A) → length xs ≡ suc n → take n xs ++ get_or xs n d ∷ [] ≡ xs
  take-append-get_or zero [] d h = absurd (omega arith)
  take-append-get_or zero (x ∷ []) d h = refl
  take-append-get_or zero (x ∷ y ∷ xs) d h = absurd (omega arith)
  take-append-get_or (suc n) [] d h = absurd (omega arith)
  take-append-get_or (suc n) (x ∷ xs) d h = ap (◌∷◌ x) (take-append-get_or n xs d (omega arith))

  pub length-take : (n : ℕ) (xs : List A) → n ≤ length xs → length (take n xs) ≡ n
  length-take zero xs h = omega arith
  length-take (suc n) [] h = absurd (omega arith)
  length-take (suc n) (x ∷ xs) h = omega (arith, length-take n xs)

  length-Permᴰ : {xs ys : List A} → Permᴰ xs ys → length xs ≡ length ys
  length-Permᴰ (Permᴰ.trans first second) = length-Permᴰ first ∙ length-Permᴰ second
  length-Permᴰ (Permᴰ.cons x rest) = ap suc (length-Permᴰ rest)
  length-Permᴰ (Permᴰ.swap x y) = refl
  length-Permᴰ Permᴰ.nil = refl

  pub length-perm : {xs ys : List A} → Perm xs ys → length xs ≡ length ys
  length-perm p = ∥∥₁_elim p (ℕ_set _ _) length-Permᴰ

  -- Two entries exchanged.
  unfoldable pub exchange : List A → ℕ → ℕ → A → List A
  exchange xs i j d = set (set xs i (get_or xs j d)) j (get_or xs i d)

  set-perm :
      (xs : List A) (i : ℕ) (v d : A) → i < length xs → Perm (get_or xs i d ∷ set xs i v) (v ∷ xs)
  set-perm [] i v d h = absurd (omega arith)
  set-perm (x ∷ xs) zero v d h = Perm.swap v x xs
  set-perm (x ∷ xs) (suc i) v d h =
      Perm.trans (Perm.swap x _ _)
        (Perm.trans (Perm.cons x (set-perm xs i v d (omega arith))) (Perm.swap v x xs))

  pub length-exchange : (xs : List A) (i j : ℕ) (d : A) → length (exchange xs i j d) ≡ length xs
  unfolding exchange
  length-exchange xs i j d = simp length-set

  module _ (xs : List A) (i j : ℕ) (d : A) (hi : i < length xs) (hj : j < length xs) where
    pub get_or-exchange :
        (c : ℕ)
        → get_or (exchange xs i j d) c d
          ≡ (if j == c then get_or xs i d else if i == c then get_or xs j d else get_or xs c d)
    unfolding exchange
    get_or-exchange c = rw (
      get_or-set (set xs i (get_or xs j d)) j c (get_or xs i d) d (rw length-set hj),
      get_or-set xs i c (get_or xs j d) d hi,
    )

    pub exchange-perm : Perm (exchange xs i j d) xs
    unfolding exchange
    exchange-perm =
        let once = set xs i (get_or xs j d) in
        let same : get_or once j d ≡ get_or xs j d =
          ground (arith, get_or-set xs i j (get_or xs j d) d) in
        let second = rw same at (set-perm once j (get_or xs i d) d (rw length-set hj)) in
        Perm.cons_inv (Perm.trans second (set-perm xs i (get_or xs j d) d hi))

module _ {ℓ κ} {A : Type ℓ} {B : Type κ} (f : A → B) where
  pub length-map : (xs : List A) → length (map f xs) ≡ length xs
  length-map [] = refl
  length-map (x ∷ xs) = ap suc (length-map xs)

  pub map-set : (xs : List A) (i : ℕ) (v : A) → map f (set xs i v) ≡ set (map f xs) i (f v)
  map-set [] i v = refl
  map-set (x ∷ xs) zero v = refl
  map-set (x ∷ xs) (suc i) v = ap (◌∷◌ (f x)) (map-set xs i v)

  pub get_or-map : (xs : List A) (i : ℕ) (d : A) → get_or (map f xs) i (f d) ≡ f (get_or xs i d)
  get_or-map [] i d = refl
  get_or-map (x ∷ xs) zero d = refl
  get_or-map (x ∷ xs) (suc i) d = get_or-map xs i d

  pub map-take : (n : ℕ) (xs : List A) → map f (take n xs) ≡ take n (map f xs)
  map-take zero xs = refl
  map-take (suc n) [] = refl
  map-take (suc n) (x ∷ xs) = ap (◌∷◌ (f x)) (map-take n xs)

-- `P` holds of every entry.
abbrev pub All {ℓ κ} : {A : Type ℓ} → (A → Type κ) → List A → Type κ
All P [] = Unit
All P (x ∷ xs) = P x × All P xs

module _ {ℓ} {A : Type ℓ} where
  -- How many entries pass the test.
  abbrev pub count_if : (A → Bool) → List A → ℕ
  count_if p [] = 0
  count_if p (x ∷ xs) = if p x then suc (count_if p xs) else count_if p xs

  -- Whether every entry passes the test.
  abbrev pub every : (A → Bool) → List A → Bool
  every p [] = true
  every p (x ∷ xs) = p x && every p xs

  pub every-append :
      (p : A → Bool) (xs ys : List A) → every p (xs ++ ys) ≡ (every p xs && every p ys)
  every-append p [] ys = refl
  every-append p (x ∷ xs) ys = ground (arith, every-append p xs ys)

  every-Permᴰ : (p : A → Bool) {xs ys : List A} → Permᴰ xs ys → every p xs ≡ every p ys
  every-Permᴰ p Permᴰ.nil = refl
  every-Permᴰ p (Permᴰ.cons e d) = rw (e, every-Permᴰ p d) refl
  every-Permᴰ p (Permᴰ.swap e e') = ground (arith, ap p e, ap p e')
  every-Permᴰ p (Permᴰ.trans a b) = every-Permᴰ p a ∙ every-Permᴰ p b

  pub every-perm : (p : A → Bool) {xs ys : List A} → Perm xs ys → every p xs ≡ every p ys
  every-perm p e = ∥∥₁_elim e (Bool-set _ _) (every-Permᴰ p)
