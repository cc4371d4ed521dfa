-- ===== src/Queue/Up.antt =====
-- container/heap's up restores a heap in which one entry stands too low.
use mathlib.Core.List.Perm
use ytmpt.Common.{
  ℕ, zero, suc, ◌-◌, ◌/◌, ◌<◌, ◌≡◌, ◌≢◌, inl, inr, true, List, Perm, arith, length, exchange,
  Returns, length-map, length-exchange, get_or-exchange, exchange-perm, Bool-cases, ◌==◌,
}
use ytmpt.Queue.{Job, PriorityJob, JobPq, before, up}
use ytmpt.Queue.Order.{
  Precedes, before_asym, Precedes-trans, no_job, jobs, key, parent, IsHeap, IsBridged, less-some,
  swap-Returns,
}

-- Only the edge above `j` may be out of order.
pub record UpInv (a : List Job) (j : ℕ) : Type 0 where
  pub inside : j < length a
  pub edges : (c : ℕ) → 0 < c → c < length a → c ≢ j → Precedes (key a (parent c)) (key a c)
  pub bridged : IsBridged a (length a) j

-- `b` is a heap of the jobs of `a`.
abbrev pub IsRestored : List Job → List Job → Type 0
IsRestored a b = IsHeap b (length b) × Perm b a

module _ (a : List Job) (j : ℕ) (v : UpInv a j) (pos : 0 < j)
    (smaller : before (key a j) (key a (parent j)) ≡ true) where
  abbrev risen : List Job
  risen = exchange a (parent j) j no_job

  exchange-UpInv : UpInv risen (parent j)
  exchange-UpInv =
      let size = length-exchange a (parent j) j no_job in
      let above : parent j < length a = omega (arith, v.inside) in
      let at = get_or-exchange a (parent j) j no_job above v.inside in
      record {
        inside = omega arith;
        edges = λ c p q r. ground (
          arith,
          at c,
          at (parent c),
          v.edges c p (omega arith),
          v.bridged c p (omega arith),
          before_asym (key a j) (key a (parent j)),
          Precedes-trans (key a j) (key a (parent j)) (key a c),
        );
        bridged = λ c p q r t. ground (
          arith,
          at c,
          at (parent (parent j)),
          v.edges c p (omega arith),
          v.edges (parent j) t above (omega arith),
          Precedes-trans (key a (parent (parent j))) (key a (parent j)) (key a c),
        );
      }

pub up_loop-Returns :
    (fuel : ℕ) (pq : JobPq) (j : ℕ)
    → j < fuel
    → UpInv (jobs pq) j
    → Returns (λ b. IsRestored (jobs pq) (jobs b)) (up fuel pq j)
unfolding up
up_loop-Returns zero pq j f v = absurd (omega arith)
up_loop-Returns (suc fuel) pq j f v = elim (Bool-cases ((j - 1) / 2 == j)) [
  | inl root ↦ (pq, rw root, ((λ c p q. v.edges c p q (ground arith)), Perm.rfl))
  | inr below ↦
      let size = length-map (λ (x : PriorityJob). x.job) pq in
      let hj : j < length pq = omega (arith, v.inside) in
      let hi : parent j < length pq = omega arith in
      let pos : 0 < j = ground arith in
      elim (Bool-cases (before (key (jobs pq) j) (key (jobs pq) (parent j)))) [
        | inl smaller ↦
            let (moved, run, same) = swap-Returns pq (parent j) j hi hj in
            let valid = rw (← same) at (exchange-UpInv (jobs pq) j v pos smaller) in
            let (b, done, restored) = up_loop-Returns fuel moved (parent j) (omega arith) valid in
            (
              b,
              rw (below, less-some pq j (parent j) hj hi, smaller, run) done,
              (
                restored.0,
                Perm.trans restored.1
                    (rw same (exchange-perm (jobs pq) (parent j) j no_job (omega arith) v.inside)),
              ),
            )
        | inr settled ↦ (
          pq,
          rw (below, less-some pq j (parent j) hj hi, settled),
          ((λ c p q. ground (arith, v.edges c)), Perm.rfl),
        )
      ]
]
