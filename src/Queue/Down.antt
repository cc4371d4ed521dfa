-- ===== src/Queue/Down.antt =====
-- container/heap's down restores a heap in which one entry stands too high.
use mathlib.Core.List.Perm
use ytmpt.Common.{
  ℕ, zero, suc, ◌+◌, ◌-◌, ◌*◌, ◌≤◌, ◌<◌, ◌≡◌, ◌≢◌, refl, ◌∙◌, ◌⊎◌, inl, inr, true, false, List,
  Perm, arith, length, exchange, Returns, length-map, length-exchange, get_or-exchange,
  exchange-perm, Bool-cases, leb, ltb,
}
use ytmpt.Queue.{Job, PriorityJob, JobPq, before, child, down}
use ytmpt.Queue.Order.{
  Precedes, before_asym, Precedes-trans, no_job, jobs, key, parent, IsHeap, IsBridged, less-some,
  swap-Returns,
}

-- Among the first `n` entries only the edges below `i` may be out of order.
pub record DownInv (a : List Job) (n i : ℕ) : Type 0 where
  pub within : n ≤ length a
  pub edges : (c : ℕ) → 0 < c → c < n → parent c ≢ i → Precedes (key a (parent c)) (key a c)
  pub bridged : IsBridged a n i

-- `m` is a child of `i`, and no child of `i` comes before it.
record IsFirstChild (a : List Job) (n i m : ℕ) : Type 0 where
  inside : m < n
  below : (m ≡ 2 * i + 1) ⊎ (m ≡ 2 * i + 2)
  first : (c : ℕ) → 0 < c → c < n → parent c ≡ i → Precedes (key a m) (key a c)

-- `b` holds the jobs of `a`: the first `n` are a heap, the others stand where they stood.
pub record IsSunk (a : List Job) (n : ℕ) (b : List Job) : Type 0 where
  pub heap : IsHeap b n
  pub same : Perm b a
  pub kept : (c : ℕ) → n ≤ c → key b c ≡ key a c

child-Returns :
    (pq : JobPq) (i n : ℕ)
    → n ≤ length (jobs pq)
    → 2 * i + 1 < n
    → Returns (IsFirstChild (jobs pq) n i) (child pq i n)
unfolding child
child-Returns pq i n fits h =
    let size = length-map (λ (x : PriorityJob). x.job) pq in
    elim (Bool-cases (ltb (2 * i + 1 + 1) n)) [
      | inl two ↦
          let found = less-some pq (2 * i + 1 + 1) (2 * i + 1) (ground arith) (ground arith) in
          let right = key (jobs pq) (2 * i + 1 + 1) in
          let left = key (jobs pq) (2 * i + 1) in
          elim (Bool-cases (before right left)) [
            | inl smaller ↦ (
              2 * i + 1 + 1,
              rw (two, found, smaller),
              record {
                inside = ground arith;
                below = omega arith;
                first = λ c p q r. ground (arith, before_asym right left, before_asym right right);
              },
            )
            | inr settled ↦ (
              2 * i + 1,
              rw (two, found, settled),
              record {
                inside = omega arith;
                below = omega arith;
                first = λ c p q r. ground (arith, before_asym left left);
              },
            )
          ]
      | inr one ↦ (
        2 * i + 1,
        rw one,
        record {
          inside = omega arith;
          below = omega arith;
          first = λ c p q r.
              let left = key (jobs pq) (2 * i + 1) in ground (arith, before_asym left left);
        },
      )
    ]

module _ (a : List Job) (n i m : ℕ) (v : DownInv a n i) (s : IsFirstChild a n i m)
    (smaller : before (key a m) (key a i) ≡ true) where
  abbrev sunk : List Job
  sunk = exchange a i m no_job

  exchange-DownInv : DownInv sunk n m
  exchange-DownInv =
      let at =
        get_or-exchange a i m no_job (omega (arith, v.within, s.below, s.inside))
          (omega (arith, v.within, s.inside)) in
      record {
        within = omega (arith, length-exchange a i m no_job, v.within);
        edges = λ c p q r. ground (
          arith,
          s.below,
          at c,
          at (parent c),
          v.edges c p q,
          v.bridged m (omega (arith, s.below)) s.inside (omega (arith, s.below)),
          s.first c p q,
          before_asym (key a m) (key a i),
          v.edges i,
        );
        bridged = λ c p q r t.
            ground (arith, s.below, at c, at i, v.edges c p q (omega (arith, s.below)));
      }

  exchange-kept : (c : ℕ) → n ≤ c → key sunk c ≡ key a c
  exchange-kept c h = ground (
    arith,
    s.below,
    s.inside,
    get_or-exchange a i m no_job (omega (arith, v.within, s.below, s.inside))
        (omega (arith, v.within, s.inside)) c,
  )

-- In an order that already holds at `i`, the first `n` entries are a heap.
settled-IsHeap :
    (a : List Job) (n i m : ℕ)
    → DownInv a n i
    → IsFirstChild a n i m
    → before (key a m) (key a i) ≡ false
    → IsHeap a n
settled-IsHeap a n i m v s settled c p q =
    ground (arith, v.edges c p q, s.first c p q, Precedes-trans (key a i) (key a m) (key a c))

pub down-Returns :
    (fuel : ℕ) (pq : JobPq) (i n : ℕ)
    → n - i < fuel
    → DownInv (jobs pq) n i
    → Returns (λ b. IsSunk (jobs pq) n (jobs b)) (down fuel pq i n)
unfolding down
down-Returns zero pq i n f v = absurd (omega arith)
down-Returns (suc fuel) pq i n f v = elim (Bool-cases (leb n (2 * i + 1))) [
  | inl leaf ↦ (
    pq,
    rw leaf,
    record { heap = λ c p q. v.edges c p q (ground arith); same = Perm.rfl; kept = λ c h. refl },
  )
  | inr inner ↦
      let size = length-map (λ (x : PriorityJob). x.job) pq in
      let fits : n ≤ length pq = omega (arith, v.within) in
      let (m, found, s) = child-Returns pq i n v.within (ground arith) in
      let hi : i < length pq = ground arith in
      let hm : m < length pq = omega (arith, s.inside) in
      let test = less-some pq m i hm hi in
      elim (Bool-cases (before (key (jobs pq) m) (key (jobs pq) i))) [
        | inl smaller ↦
            let (moved, run, same) = swap-Returns pq i m hi hm in
            let valid = rw (← same) at (exchange-DownInv (jobs pq) n i m v s smaller) in
            let (b, done, sunk) =
              down-Returns fuel moved m n (omega (arith, s.below, s.inside)) valid in
            (
              b,
              rw (inner, found, test, smaller, run) done,
              record {
                heap = sunk.heap;
                same =
                    Perm.trans sunk.same
                      (rw same (exchange-perm (jobs pq) i m no_job (omega arith) (omega arith)));
                kept =
                    λ c h. sunk.kept c h ∙ rw same (exchange-kept (jobs pq) n i m v s smaller c h);
              },
            )
        | inr settled ↦ (
          pq,
          rw (inner, found, test, settled),
          record {
            heap = settled-IsHeap (jobs pq) n i m v s settled;
            same = Perm.rfl;
            kept = λ c h. refl;
          },
        )
      ]
]
