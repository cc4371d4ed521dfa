-- ===== src/Permits/Held.antt =====
-- The semaphore bounds the commands that run at once, and loses no call.
use mathlib.Core.List.{perm_middle}
use mathlib.Core.List.Perm
use ytmpt.Common.{
  ℕ, zero, suc, ◌+◌, ◌<◌, ◌≤◌, ◌≡◌, ◌∙◌, refl, ap, subst, ◌⊎◌, inl, inr, List, [], ◌∷◌, ◌++◌, Perm,
  length, arith,
}
use ytmpt.Permits.{Permits, new_permits, Step, call, acquire, release, Reach, here, next}

-- The channel holds one value for each command that runs, never more than it has places; and each
-- call waits, runs, or has returned, once.
pub record IsHeld (max : ℕ) (p : Permits) : Type 0 where
  pub places : p.capacity ≡ max
  pub one_each : p.held ≡ length p.running
  pub bounded : length p.running ≤ max
  pub kept : Perm (p.waiting ++ (p.running ++ p.returned)) p.calls

new_permits-IsHeld : (max : ℕ) → IsHeld max (new_permits max)
new_permits-IsHeld max = record {
  places = refl;
  one_each = refl;
  bounded = omega arith;
  kept = Perm.rfl;
}

length_middle : (xs ys : List ℕ) (g : ℕ) → length (xs ++ g ∷ ys) ≡ suc (length (xs ++ ys))
length_middle [] ys g = refl
length_middle (x ∷ xs) ys g = ap suc (length_middle xs ys g)

-- One entry of the first list goes to the front of the second.
moved : (xs ys zs : List ℕ) (g : ℕ) → Perm ((xs ++ ys) ++ g ∷ zs) ((xs ++ g ∷ ys) ++ zs)
moved xs ys zs g =
    Perm.trans (perm_middle (xs ++ ys) zs) (Perm.symm (Perm.append_right zs (perm_middle xs ys)))

Step-IsHeld : {max : ℕ} {p q : Permits} → Step p q → IsHeld max p → IsHeld max q
Step-IsHeld {p = p} (call g) h = record {
  places = h.places;
  one_each = h.one_each;
  bounded = h.bounded;
  kept = Perm.cons g h.kept;
}
Step-IsHeld {p = p} (acquire before after g e room) h = record {
  places = h.places;
  one_each = omega (arith, h.one_each);
  bounded = omega (arith, h.one_each, h.places, room);
  kept =
      Perm.trans (moved before after (p.running ++ p.returned) g)
        (subst (λ ws. Perm (ws ++ (p.running ++ p.returned)) p.calls) e h.kept);
}
Step-IsHeld {p = p} (release before after g e) h =
    let size = ap length e ∙ length_middle before after g in
    record {
      places = h.places;
      one_each = omega (arith, size, h.one_each);
      bounded = omega (arith, size, h.bounded);
      kept =
          Perm.trans (Perm.append_left p.waiting (moved before after p.returned g))
            (subst (λ rs. Perm (p.waiting ++ (rs ++ p.returned)) p.calls) e h.kept);
    }

Reach-IsHeld : (max : ℕ) (p : Permits) → Reach (new_permits max) p → IsHeld max p
Reach-IsHeld max p here = new_permits-IsHeld max
Reach-IsHeld max p (next {q} before s) = Step-IsHeld s (Reach-IsHeld max q before)

first : {p q r : Permits} → Step p q → Reach q r → Reach p r
first s here = next here s
first s (next run t) = next (first s run) t

-- A run without further calls to a state in which none waits or runs.
record Finishes (p : Permits) : Type 0 where
  end : Permits
  run : Reach p end
  same : end.calls ≡ p.calls
  no_waiting : end.waiting ≡ []
  no_running : end.running ≡ []

finish_after : {p q : Permits} → Step p q → q.calls ≡ p.calls → Finishes q → Finishes p
finish_after s e f = record {
  end = f.end;
  run = first s f.run;
  same = f.same ∙ e;
  no_waiting = f.no_waiting;
  no_running = f.no_running;
}

List-cases : (xs : List ℕ) → (xs ≡ []) ⊎ ((x : ℕ) × (ys : List ℕ) × (xs ≡ x ∷ ys))
List-cases [] = inl refl
List-cases (x ∷ xs) = inr (x, xs, refl)

-- What runs ends first; what waits is let in when nothing runs.
finishes :
    (n max : ℕ) (p : Permits)
    → 0 < max
    → IsHeld max p
    → length p.waiting + length p.waiting + length p.running < n
    → Finishes p
finishes zero max p c h b = absurd (omega arith)
finishes (suc n) max p c h b = elim (List-cases p.running) [
  | inr (g, gs, e) ↦
      let s = release [] gs g e in
      let size = ap length e in
      finish_after s refl (finishes n max _ c (Step-IsHeld s h) (omega (arith, size)))
  | inl idle ↦ elim (List-cases p.waiting) [
    | inl none_waits ↦ record {
      end = p;
      run = here;
      same = refl;
      no_waiting = none_waits;
      no_running = idle;
    }
    | inr (g, gs, e) ↦
        let none_runs = ap length idle in
        let s = acquire [] gs g e (omega (arith, none_runs, h.one_each, h.places)) in
        let size = ap length e in
        finish_after s refl (finishes n max _ c (Step-IsHeld s h) (omega (arith, size, none_runs)))
  ]
]

Reach-IsHeld_after : {max : ℕ} {p q : Permits} → Reach p q → IsHeld max p → IsHeld max q
Reach-IsHeld_after here h = h
Reach-IsHeld_after (next r s) h = Step-IsHeld s (Reach-IsHeld_after r h)

returned_all :
    (p : Permits)
    → Perm (p.waiting ++ (p.running ++ p.returned)) p.calls
    → p.waiting ≡ []
    → p.running ≡ []
    → Perm p.returned p.calls
returned_all p k e f =
    subst (λ rs. Perm (rs ++ p.returned) p.calls) f
      (subst (λ ws. Perm (ws ++ (p.running ++ p.returned)) p.calls) e k)

-- With at least one permit, however the calls interleave: at most as many commands run at once as
-- there are permits, the channel holds one value for each of them, and every call waits, runs, or
-- has returned, once; and from there a run without further calls exists in which all return.
pub Reach-IsHeld_returns :
    (max : ℕ) (p : Permits)
    → 0 < max
    → Reach (new_permits max) p
    → IsHeld max p × (q : Permits) × Reach p q × (q.calls ≡ p.calls) × Perm q.returned q.calls
Reach-IsHeld_returns max p c r =
    let h = Reach-IsHeld max p r in
    let f =
      finishes (suc (length p.waiting + length p.waiting + length p.running)) max p c h
        (omega arith) in
    let h' = Reach-IsHeld_after f.run h in
    (h, f.end, f.run, f.same, returned_all f.end h'.kept f.no_waiting f.no_running)
