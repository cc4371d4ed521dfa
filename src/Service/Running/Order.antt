-- ===== src/Service/Running/Order.antt =====
-- The pointers of the goroutines that wait for their tool are all different: a later one is larger.
use mathlib.Core.List.{Memᴰ}
use ytmpt.Common.{ℕ, ◌<◌, ◌≤◌, ◌≢◌, List, [], ◌∷◌, arith, ap, refl}
use ytmpt.Handlers.Running.{Running, ref_of}
use ytmpt.Service.Running.{Ends, this, other}

-- The pointers are below `n`, the latest first.
pub data IsBelow : ℕ → List Running → Type 0 where
  no_more : {n : ℕ} → IsBelow n []
  newest :
      {n : ℕ} {r : Running} {rs : List Running}
      → ref_of r < n
      → IsBelow (ref_of r) rs
      → IsBelow n (r ∷ rs)

pub IsBelow-later : {n n' : ℕ} {rs : List Running} → n ≤ n' → IsBelow n rs → IsBelow n' rs
IsBelow-later h no_more = no_more
IsBelow-later h (newest l b) = newest (omega (arith, h, l)) b

pub IsBelow-Mem :
    {n : ℕ} {r : Running} {rs : List Running} → IsBelow n rs → Memᴰ r rs → ref_of r < n
IsBelow-Mem no_more m = elim m [ ]
IsBelow-Mem (newest l b) (Memᴰ.head e) = omega (arith, l, ap ref_of e)
IsBelow-Mem (newest l b) (Memᴰ.tail m) = omega (arith, l, IsBelow-Mem b m)

pub Ends-Mem : {r : Running} {rs rs' : List Running} → Ends r rs rs' → Memᴰ r rs
Ends-Mem this = Memᴰ.head refl
Ends-Mem (other e) = Memᴰ.tail (Ends-Mem e)

pub Ends-IsBelow :
    {r : Running} {n : ℕ} {rs rs' : List Running} → Ends r rs rs' → IsBelow n rs → IsBelow n rs'
Ends-IsBelow this (newest l b) = IsBelow-later (omega (arith, l)) b
Ends-IsBelow (other e) (newest l b) = newest l (Ends-IsBelow e b)

-- A goroutine that is still there has another pointer than the one that has ended.
pub Ends-apart :
    {r v : Running} {n : ℕ} {rs rs' : List Running}
    → Ends r rs rs'
    → IsBelow n rs
    → Memᴰ v rs'
    → ref_of v ≢ ref_of r
Ends-apart this (newest l b) m e = omega (arith, e, IsBelow-Mem b m)
Ends-apart (other i) (newest l b) (Memᴰ.head h) e =
    omega (arith, e, ap ref_of h, IsBelow-Mem b (Ends-Mem i))
Ends-apart (other i) (newest l b) (Memᴰ.tail m) e = Ends-apart i b m e
