-- ===== src/Queue/Position.antt =====
-- PositionForSession.
use mathlib.Core.List.{Memᴰ}
use ytmpt.Common.{
  ℕ, ◌+◌, ◌≤◌, ◌≡◌, refl, ◌⊎◌, inl, inr, Bool, true, false, List, [], ◌∷◌, arith, none, some,
  Bool-cases, ltb, if◌then◌else◌, ◌&&◌, All, count_if,
}
use ytmpt.Common.Text.{Text}
use ytmpt.Queue.{
  Job, JobType, JobPq, Queue, before, kind_eq, is_match, refine, find, stands_before, count_before,
  position_for_session,
}
use ytmpt.Queue.Order.{jobs}

-- A job of the type that Less puts before the one found.
abbrev pub is_ahead : JobType → Job → Job → Bool
is_ahead t found j = kind_eq j.kind t && before j found

-- A matching job of the list, and none that matches is earlier.
pub record IsEarliest (t : JobType) (session_id : Text) (a : List Job) (found : Job) : Type 0 where
  pub listed : Memᴰ found a
  pub matched : is_match t session_id found ≡ true
  pub earliest : All (λ j. is_match t session_id j ≡ true → found.enqueued_at ≤ j.enqueued_at) a

count_before-count_if :
    (t : JobType) (found : Job) (pos : ℕ) (pq : JobPq)
    → count_before t found pos pq ≡ pos + count_if (is_ahead t found) (jobs pq)
unfolding count_before stands_before before
count_before-count_if t found pos [] = omega arith
count_before-count_if t found pos (x ∷ pq) =
    ground (
      arith,
      count_before-count_if t found (if stands_before t found x.job then pos + 1 else pos) pq,
    )

module _ (t : JobType) (session_id : Text) where
  abbrev IsNoLater : Job → Job → Type 0
  IsNoLater r j = is_match t session_id j ≡ true → r.enqueued_at ≤ j.enqueued_at

  -- The loop ends with the job that it had, or with an earlier match of the rest.
  record IsRefined (found : Job) (a : List Job) (r : Job) : Type 0 where
    origin : (r ≡ found) ⊎ (Memᴰ r a × (is_match t session_id r ≡ true))
    improved : r.enqueued_at ≤ found.enqueued_at
    earliest : All (IsNoLater r) a

  take_later :
      {x r : Job} {a : List Job}
      → (r ≡ x) ⊎ (Memᴰ r a × (is_match t session_id r ≡ true))
      → is_match t session_id x ≡ true
      → Memᴰ r (x ∷ a) × (is_match t session_id r ≡ true)
  take_later (inl e) m = (Memᴰ.head e, rw e m)
  take_later (inr (listed, m')) m = (Memᴰ.tail listed, m')

  keep_origin :
      {x f r : Job} {a : List Job}
      → (r ≡ f) ⊎ (Memᴰ r a × (is_match t session_id r ≡ true))
      → (r ≡ f) ⊎ (Memᴰ r (x ∷ a) × (is_match t session_id r ≡ true))
  keep_origin (inl e) = inl e
  keep_origin (inr (listed, m)) = inr (Memᴰ.tail listed, m)

  find-some :
      (found : Job) (pq : JobPq)
      → (r : Job) × (find t session_id (some found) pq ≡ some r) × IsRefined found (jobs pq) r
  unfolding find refine
  find-some found [] =
      (found, refl, record { origin = inl refl; improved = omega arith; earliest = tt })
  find-some found (x ∷ pq) =
      let test = is_match t session_id x.job && ltb x.job.enqueued_at found.enqueued_at in
      elim (Bool-cases test) [
        | inl earlier ↦
            let (r, run, s) = find-some x.job pq in
            let matched : is_match t session_id x.job ≡ true = ground arith in
            (
              r,
              rw earlier run,
              record {
                origin = inr (take_later s.origin matched);
                improved = ground (arith, s.improved);
                earliest = ((λ m. s.improved), s.earliest);
              },
            )
        | inr other ↦
            let (r, run, s) = find-some found pq in
            (
              r,
              rw other run,
              record {
                origin = keep_origin s.origin;
                improved = s.improved;
                earliest = ((λ m. ground (arith, s.improved)), s.earliest);
              },
            )
      ]

  -- The first loop finds nothing if no job matches, and otherwise the earliest match.
  find-none :
      (pq : JobPq)
      → ((find t session_id none pq ≡ none) × All (λ j. is_match t session_id j ≡ false) (jobs pq))
        ⊎ ((r : Job) × (find t session_id none pq ≡ some r) × IsEarliest t session_id (jobs pq) r)
  unfolding find refine
  find-none [] = inl (refl, tt)
  find-none (x ∷ pq) = elim (Bool-cases (is_match t session_id x.job)) [
    | inl matched ↦
        let (r, run, s) = find-some x.job pq in
        let (listed, m) = take_later s.origin matched in
        inr (
          r,
          rw matched run,
          record { listed = listed; matched = m; earliest = ((λ _. s.improved), s.earliest) },
        )
    | inr other ↦ later other (find-none pq)
  ]
    where
      later :
          is_match t session_id x.job ≡ false
          → ((find t session_id none pq ≡ none)
              × All (λ j. is_match t session_id j ≡ false) (jobs pq))
            ⊎ ((r : Job) × (find t session_id none pq ≡ some r)
                × IsEarliest t session_id (jobs pq) r)
          → ((find t session_id none (x ∷ pq) ≡ none)
              × All (λ j. is_match t session_id j ≡ false) (jobs (x ∷ pq)))
            ⊎ ((r : Job) × (find t session_id none (x ∷ pq) ≡ some r)
                × IsEarliest t session_id (jobs (x ∷ pq)) r)
      later e (inl (run, rest)) = inl (rw e run, (e, rest))
      later e (inr (r, run, s)) = inr (
        r,
        rw e run,
        record {
          listed = Memᴰ.tail s.listed;
          matched = s.matched;
          earliest = ((λ m. cc), s.earliest);
        },
      )

-- Without a job of the type for the session the position is 0. Otherwise there is such a job, none
-- of them enqueued earlier, and the position is one more than the number of jobs of the type that
-- Dequeue prefers to it.
pub position_for_session_lem :
    (q : Queue) (t : JobType) (session_id : Text)
    → ((position_for_session q t session_id ≡ 0)
        × All (λ j. is_match t session_id j ≡ false) (jobs q.pq))
      ⊎ ((found : Job) × IsEarliest t session_id (jobs q.pq) found
          × (position_for_session q t session_id ≡ 1 + count_if (is_ahead t found) (jobs q.pq)))
unfolding position_for_session
position_for_session_lem q t session_id = elim (find-none t session_id q.pq) [
  | inl (run, rest) ↦ inl (rw (run, position_for_session), rest)
  | inr (r, run, s) ↦ inr (r, s, rw (run, position_for_session) (count_before-count_if t r 1 q.pq))
]
