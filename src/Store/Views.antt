-- ===== src/Store/Views.antt =====
-- The store as a client sees it.
use ytmpt.Common.{
  ℕ, inl, inr, ◌<◌, ◌≡◌, ◌≢◌, true, false, Option, none, some, if◌then◌else◌, arith, Option-cases,
}
use ytmpt.Common.Text.{Text, text_eq, text_eq_iff, text_eq_refl}
use ytmpt.Common.Dict.{lookup, lookup-insert, lookup-delete, lookup-delete_where}
use ytmpt.Models.{ConversionSession}
use ytmpt.Store.{
  MemoryStore, Ref, allocate, assign, create_session, update_session, get_session, delete_session,
  find_by_url,
}

-- The session that GetSession copies, without the copy.
abbrev pub session_at : Text → MemoryStore → Option ConversionSession
session_at id m = elim (lookup id m.sessions) [ none ↦ none | some p ↦ some (m.at p) ]

-- Every pointer of the map is allocated, and its object carries the identifier of its key.
pub record IsValid (m : MemoryStore) : Type 0 where
  pub allocated : (id : Text) (p : Ref) → lookup id m.sessions ≡ some p → p < m.next
  pub keyed : (id : Text) (p : Ref) → lookup id m.sessions ≡ some p → (m.at p).id ≡ id

pub allocate-IsValid :
    (s : ConversionSession) (m : MemoryStore) → IsValid m → IsValid (allocate s m).1
unfolding allocate
allocate-IsValid s m v = record {
  allocated = λ id p e. omega (arith, v.allocated id p e);
  keyed = λ id p e. ground (arith, v.allocated id p e, v.keyed id p e);
}

-- A write that keeps the identifier.
pub assign-IsValid :
    (p : Ref) (f : ConversionSession → ConversionSession) (m : MemoryStore)
    → (f (m.at p)).id ≡ (m.at p).id
    → IsValid m
    → IsValid (assign p f m)
unfolding assign
assign-IsValid p f m same v = record {
  allocated = v.allocated;
  keyed = λ id q e. ground (arith, v.keyed id q e);
}

pub get_session-IsValid : (id : Text) (m : MemoryStore) → IsValid m → IsValid (get_session id m).1
unfolding get_session
get_session-IsValid id m v = elim (Option-cases (lookup id m.sessions)) [
  | inl missing ↦ rw (missing, get_session) v
  | inr (q, found) ↦ rw (found, get_session) (allocate-IsValid (m.at q) m v)
]

pub update_session-IsValid :
    (now : ℕ) (p : Ref) (m : MemoryStore)
    → p < m.next
    → IsValid m
    → IsValid (update_session now p m).1
unfolding update_session assign
update_session-IsValid now p m h v = elim (Option-cases (lookup (m.at p).id m.sessions)) [
  | inl missing ↦ rw (missing, update_session) v
  | inr (q, found) ↦
      rw (found, update_session)
        (record {
          allocated =
              λ id r e. ground (arith, lookup-insert (m.at p).id id p m.sessions, v.allocated id r);
          keyed = λ id r e. ground (
            arith,
            lookup-insert (m.at p).id id p m.sessions,
            text_eq_iff (m.at p).id id,
            v.keyed id r,
          );
        })
]

pub create_session-IsValid :
    (now : ℕ) (p : Ref) (m : MemoryStore)
    → p < m.next
    → IsValid m
    → IsValid (create_session now p m).1
unfolding create_session assign
create_session-IsValid now p m h v = elim (Option-cases (lookup (m.at p).id m.sessions)) [
  | inr (q, found) ↦ rw (found, create_session) v
  | inl missing ↦
      rw (missing, create_session)
        (record {
          allocated =
              λ id r e. ground (arith, lookup-insert (m.at p).id id p m.sessions, v.allocated id r);
          keyed = λ id r e. ground (
            arith,
            lookup-insert (m.at p).id id p m.sessions,
            text_eq_iff (m.at p).id id,
            v.keyed id r,
          );
        })
]

pub delete_session-IsValid :
    (id : Text) (m : MemoryStore) → IsValid m → IsValid (delete_session id m)
unfolding delete_session
delete_session-IsValid id m v = record {
  allocated = λ j r e. ground (arith, lookup-delete id j m.sessions, v.allocated j r);
  keyed = λ j r e. ground (arith, lookup-delete id j m.sessions, v.keyed j r);
}

-- What CreateSession and UpdateSession put into the map.
abbrev pub stamped : ℕ → ConversionSession → ConversionSession
stamped now s = record s { updated_at = now }

abbrev pub created : ℕ → ConversionSession → ConversionSession
created now s = record s { created_at = now; updated_at = now }

-- CreateSession refuses an identifier that is in use and changes nothing; otherwise the session is
-- stored under its identifier with both times set, and every other identifier reads as before.
pub create_session_lem :
    (now : ℕ) (p : Ref) (m : MemoryStore) (id : Text)
    → IsValid m
    → (session_at (m.at p).id m ≢ none → create_session now p m ≡ (false, m))
      × (session_at (m.at p).id m ≡ none
          → ((create_session now p m).0 ≡ true)
            × (session_at id (create_session now p m).1 ≡ (
                if text_eq (m.at p).id id then some (created now (m.at p)) else session_at id m)))
unfolding create_session assign
create_session_lem now p m id v = elim (Option-cases (lookup (m.at p).id m.sessions)) [
  | inl missing ↦ (
    (λ h. absurd (h (rw (missing, session_at)))),
    (λ _. (
      rw (missing, create_session),
      ground (
        arith,
        missing,
        lookup-insert (m.at p).id id p m.sessions,
        text_eq_iff (m.at p).id id,
        v.keyed id p,
      ),
    )),
  )
  | inr (q, found) ↦ ((λ _. rw (found, create_session)), (λ h. absurd (ground arith)))
]

-- UpdateSession refuses an identifier that is not in use and changes nothing; otherwise the
-- session replaces the stored one with its update time set, and every other identifier reads as
-- before.
pub update_session_lem :
    (now : ℕ) (p : Ref) (m : MemoryStore) (id : Text)
    → IsValid m
    → (session_at (m.at p).id m ≡ none → update_session now p m ≡ (false, m))
      × (session_at (m.at p).id m ≢ none
          → ((update_session now p m).0 ≡ true)
            × (session_at id (update_session now p m).1 ≡ (
                if text_eq (m.at p).id id then some (stamped now (m.at p)) else session_at id m)))
unfolding update_session assign
update_session_lem now p m id v = elim (Option-cases (lookup (m.at p).id m.sessions)) [
  | inl missing ↦
      ((λ _. rw (missing, update_session)), (λ h. absurd (h (rw (missing, session_at)))))
  | inr (q, found) ↦ (
    (λ h. absurd (ground arith)),
    (λ _. (
      rw (found, update_session),
      ground (
        arith,
        found,
        lookup-insert (m.at p).id id p m.sessions,
        text_eq_iff (m.at p).id id,
        v.keyed id p,
      ),
    )),
  )
]

-- GetSession hands out a copy: writes through it show at no identifier before the next
-- UpdateSession.
pub get_session_lem :
    (id j : Text) (m : MemoryStore) (f : ConversionSession → ConversionSession)
    → IsValid m
    → (session_at id m ≡ none → get_session id m ≡ (none, m))
      × ((s : ConversionSession)
          → session_at id m ≡ some s
          → ((get_session id m).0 ≡ some m.next)
            × ((get_session id m).1.at m.next ≡ s)
            × (session_at j (assign m.next f (get_session id m).1) ≡ session_at j m))
unfolding get_session allocate assign
get_session_lem id j m f v = elim (Option-cases (lookup id m.sessions)) [
  | inl missing ↦ ((λ _. rw (missing, get_session)), (λ s h. absurd (ground arith)))
  | inr (q, found) ↦ (
    (λ h. absurd (ground arith)),
    (λ s h. (
      rw (found, get_session),
      ground (arith, found),
      ground (arith, found, v.allocated j m.next),
    )),
  )
]

-- After DeleteSession the identifier is gone, the others read as before, and no URL leads to it.
pub delete_session_lem :
    (id j url : Text) (m : MemoryStore)
    → (session_at j (delete_session id m) ≡ (if text_eq id j then none else session_at j m))
      × (find_by_url url (delete_session id m) ≢ some id)
unfolding delete_session find_by_url
delete_session_lem id j url m = (
  ground (arith, lookup-delete id j m.sessions),
  λ h. cc (lookup-delete_where (λ sid. text_eq sid id) url id m.url_to_id h, text_eq_refl id),
)
