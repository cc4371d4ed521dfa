-- ===== src/Handlers/Frame.antt =====
-- The objects that a goroutine does not write to, and the sessions that it spares.
use ytmpt.Common.{
  ℕ, Option, sym, false, inl, inr, refl, subst, ◌<◌, ◌≤◌, ◌≡◌, ◌≢◌, ◌==◌, ==_iff, arith,
  Option-cases, Bool-cases,
}
use ytmpt.Common.Text.{Text, text_eq, text_eq_iff}
use ytmpt.Common.Dict.{lookup, insert, lookup-insert, lookup-delete}
use ytmpt.Models.{ConversionSession}
use ytmpt.Store.{MemoryStore, Ref, assign, update_session, allocate, create_session, delete_session}
use ytmpt.Store.Views.{session_at, IsValid}

-- Some of the objects of a store, and what they are; and some identifiers, and what is stored there.
pub record Frame : Type 1 where
  pub next : Ref
  pub fixed : Ref → Type 0
  pub at : Ref → ConversionSession
  pub below : (q : Ref) → fixed q → q < next
  pub spared : Text → Type 0
  pub session : Text → Option ConversionSession

-- Every object that the store has.
abbrev pub whole : MemoryStore → Frame
whole m = record {
  next = m.next;
  fixed = λ q. q < m.next;
  at = m.at;
  below = λ q h. h;
  spared = λ j. ⊥;
  session = λ j. session_at j m;
}

-- Every object but one.
abbrev pub others : Ref → MemoryStore → Frame
others p m = record {
  next = m.next;
  fixed = λ q. (q < m.next) × (q ≢ p);
  at = m.at;
  below = λ q h. h.0;
  spared = λ j. ⊥;
  session = λ j. session_at j m;
}

-- Every session but one.
abbrev pub apart : Text → MemoryStore → Frame
apart id m = record {
  next = m.next;
  fixed = λ q. ⊥;
  at = m.at;
  below = λ q h. absurd h;
  spared = λ j. id ≢ j;
  session = λ j. session_at j m;
}

pub record Keeps (F : Frame) (m : MemoryStore) : Type 0 where
  pub next : F.next ≤ m.next
  pub at : (q : Ref) → F.fixed q → m.at q ≡ F.at q
  pub sessions : (j : Text) → F.spared j → session_at j m ≡ F.session j

pub whole-Keeps : (m : MemoryStore) → Keeps (whole m) m
whole-Keeps m = record { next = omega arith; at = λ q h. refl; sessions = λ j h. refl }

pub others-Keeps : (p : Ref) (m : MemoryStore) → Keeps (others p m) m
others-Keeps p m = record { next = omega arith; at = λ q h. refl; sessions = λ j h. refl }

pub apart-Keeps : (id : Text) (m : MemoryStore) → Keeps (apart id m) m
apart-Keeps id m = record { next = omega arith; at = λ q h. refl; sessions = λ j h. refl }

-- An identifier that is not spared differs from those that are.
differs : (F : Frame) (id j : Text) → ¬ F.spared id → F.spared j → text_eq id j ≡ false
differs F id j far h = elim (Bool-cases (text_eq id j)) [
  | inl same ↦ absurd (far (subst F.spared (sym ((text_eq_iff id j).0 same)) h))
  | inr other ↦ other
]

module _ {F : Frame} (p : Ref) (f : ConversionSession → ConversionSession) (m : MemoryStore)
    (v : IsValid m) (free : ¬ F.fixed p) (far : ¬ F.spared (m.at p).id) where
  -- A write through a pointer whose session is not spared.
  pub assign-Keeps : Keeps F m → Keeps F (assign p f m)
  unfolding assign
  assign-Keeps k = record {
    next = k.next;
    at = λ q h. elim (Bool-cases (q == p)) [
      | inl it ↦ absurd (free (subst F.fixed ((==_iff q p).0 it) h))
      | inr other ↦ rw other (k.at q h)
    ];
    sessions = λ j h. ground (
      arith,
      k.sessions j h,
      v.keyed j p,
      text_eq_iff (m.at p).id j,
      differs F (m.at p).id j far h,
    );
  }

pub allocate-Keeps :
    {F : Frame} (s : ConversionSession) (m : MemoryStore)
    → IsValid m
    → Keeps F m
    → Keeps F (allocate s m).1
unfolding allocate
allocate-Keeps {F} s m v k = record {
  next = omega (arith, k.next);
  at = λ q h. ground (arith, F.below q h, k.next, k.at q h);
  sessions = λ j h. elim (Option-cases (lookup j m.sessions)) [
    | inl missing ↦ ground (arith, k.sessions j h)
    | inr (q, found) ↦ ground (arith, k.sessions j h, v.allocated j q found)
  ];
}

pub delete_session-Keeps :
    {F : Frame} (id : Text) (m : MemoryStore)
    → ¬ F.spared id
    → Keeps F m
    → Keeps F (delete_session id m)
unfolding delete_session
delete_session-Keeps {F} id m far k = record {
  next = k.next;
  at = k.at;
  sessions =
      λ j h. ground (arith, k.sessions j h, lookup-delete id j m.sessions, differs F id j far h);
}

module _ {F : Frame} (now : ℕ) (p : Ref) (m : MemoryStore) (v : IsValid m) (free : ¬ F.fixed p)
    (far : ¬ F.spared (m.at p).id) where
  -- The map with the pointer under its own identifier.
  insert-Keeps :
      (f : ConversionSession → ConversionSession)
      → Keeps F m
      → Keeps F (record (assign p f m) { sessions = insert (m.at p).id p m.sessions })
  unfolding assign
  insert-Keeps f k =
      let kept = assign-Keeps p f m v free far k in
      record {
        next = kept.next;
        at = kept.at;
        sessions = λ j h. ground (
          arith,
          k.sessions j h,
          v.keyed j p,
          lookup-insert (m.at p).id j p m.sessions,
          text_eq_iff (m.at p).id j,
          differs F (m.at p).id j far h,
        );
      }

  pub update_session-Keeps : Keeps F m → Keeps F (update_session now p m).1
  unfolding update_session
  update_session-Keeps k = elim (Option-cases (lookup (m.at p).id m.sessions)) [
    | inl missing ↦ rw (missing, update_session) k
    | inr (q, found) ↦
        rw (found, update_session) (insert-Keeps (λ s. record s { updated_at = now }) k)
  ]

  pub create_session-Keeps : Keeps F m → Keeps F (create_session now p m).1
  unfolding create_session
  create_session-Keeps k = elim (Option-cases (lookup (m.at p).id m.sessions)) [
    | inr (q, found) ↦ rw (found, create_session) k
    | inl missing ↦
        rw (missing, create_session)
          (insert-Keeps (λ s. record s { created_at = now; updated_at = now }) k)
  ]
