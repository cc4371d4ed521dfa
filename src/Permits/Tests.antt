-- ===== src/Permits/Tests.antt =====
-- The theorem on the permits at two calls that share one permit.
use ytmpt.Common.{◌≡◌, refl, [], ◌∷◌, Perm, arith}
use ytmpt.Permits.{Permits, new_permits, call, acquire, Reach, here, next}
use ytmpt.Permits.Held.{IsHeld, Reach-IsHeld_returns}

abbrev shared : Permits
shared = record {
  capacity = 1;
  held = 1;
  waiting = 8 ∷ [];
  running = 7 ∷ [];
  returned = [];
  calls = 8 ∷ 7 ∷ [];
}

reach_shared : Reach (new_permits 1) shared
reach_shared = next (next (next here (call 7)) (call 8)) (acquire (8 ∷ []) [] 7 refl (omega arith))

Reach-IsHeld_returns_example :
    IsHeld 1 shared
    × (q : Permits) × Reach shared q
    × (q.calls ≡ shared.calls)
    × Perm q.returned q.calls
Reach-IsHeld_returns_example = Reach-IsHeld_returns 1 shared (omega arith) reach_shared
