-- ===== src/Handlers/Saved.antt =====
-- What writes to a session and the UpdateSession behind them leave in the store.
use ytmpt.Common.{ℕ, ◌<◌, ◌≡◌, inl, inr, refl, false, some, if◌then◌else◌, arith, Option-cases}
use ytmpt.Common.Text.{Text, text_eq, text_eq_iff, text_eq_refl}
use ytmpt.Common.Dict.{lookup, lookup-insert}
use ytmpt.Models.{ConversionSession}
use ytmpt.Store.{MemoryStore, Ref, assign, update_session, get_session, allocate}
use ytmpt.Store.Views.{
  session_at, IsValid, stamped, assign-IsValid, allocate-IsValid, update_session-IsValid,
}
use ytmpt.Handlers.{save}

-- A pointer that a handler may save: it is allocated, and its identifier is in use.
pub record IsKnown (p : Ref) (m : MemoryStore) : Type 0 where
  pub valid : IsValid m
  pub allocated : p < m.next
  pub holder : Ref
  pub held : lookup (m.at p).id m.sessions ≡ some holder

-- Both stores agree outside the sessions.
pub record SameElsewhere (m m' : MemoryStore) : Type 0 where
  pub next : m'.next ≡ m.next
  pub url_to_id : m'.url_to_id ≡ m.url_to_id
  pub variant_to_out : m'.variant_to_out ≡ m.variant_to_out
  pub asset_map : m'.asset_map ≡ m.asset_map

module _ (now : ℕ) (p : Ref) (f : ConversionSession → ConversionSession) (m : MemoryStore)
    (k : IsKnown p m) (same : (f (m.at p)).id ≡ (m.at p).id) where
  pub save-at : (save now p f m).at p ≡ stamped now (f (m.at p))
  unfolding save update_session assign
  save-at = ground (arith, k.held, same)

  pub save-session_at :
      (j : Text)
      → session_at j (save now p f m)
        ≡ (if text_eq (m.at p).id j then some (stamped now (f (m.at p))) else session_at j m)
  unfolding save update_session assign
  save-session_at j = ground (
    arith,
    k.held,
    same,
    lookup-insert (m.at p).id j p m.sessions,
    text_eq_iff (m.at p).id j,
    k.valid.keyed j p,
  )

  -- The map holds the pointer itself: later writes through it show at once.
  pub save-lookup : lookup (m.at p).id (save now p f m).sessions ≡ some p
  unfolding save update_session assign
  save-lookup = ground (
    arith,
    k.held,
    same,
    lookup-insert (m.at p).id (m.at p).id p m.sessions,
    text_eq_refl (m.at p).id,
  )

  pub save-SameElsewhere : SameElsewhere m (save now p f m)
  unfolding save update_session assign
  save-SameElsewhere = ground (arith, k.held, same)

  pub save-IsKnown : IsKnown p (save now p f m)
  unfolding save update_session assign
  save-IsKnown = record {
    valid =
        update_session-IsValid now p (assign p f m) k.allocated (assign-IsValid p f m same k.valid);
    allocated = ground (arith, k.allocated, k.held, same);
    holder = p;
    held = ground (
      arith,
      k.held,
      same,
      lookup-insert (m.at p).id (m.at p).id p m.sessions,
      text_eq_refl (m.at p).id,
    );
  }

module _ (p : Ref) (f : ConversionSession → ConversionSession) (m : MemoryStore)
    (same : (f (m.at p)).id ≡ (m.at p).id) where
  pub assign-at : (assign p f m).at p ≡ f (m.at p)
  unfolding assign
  assign-at = ground arith

  pub assign-IsKnown : IsKnown p m → IsKnown p (assign p f m)
  unfolding assign
  assign-IsKnown k = record {
    valid = assign-IsValid p f m same k.valid;
    allocated = k.allocated;
    holder = k.holder;
    held = ground (arith, k.held, same);
  }

  -- The write shows at no other identifier.
  pub assign-session_at :
      IsKnown p m
      → (j : Text) → text_eq (m.at p).id j ≡ false
      → session_at j (assign p f m) ≡ session_at j m
  unfolding assign
  assign-session_at k j other = ground (arith, k.valid.keyed j p, text_eq_iff (m.at p).id j, other)

module _ (id : Text) (m : MemoryStore) (s : ConversionSession) (v : IsValid m)
    (e : session_at id m ≡ some s) where
  -- GetSession of a stored session hands out the next pointer.
  pub get_session-some : get_session id m ≡ (some m.next, (allocate s m).1)
  unfolding get_session allocate
  get_session-some = elim (Option-cases (lookup id m.sessions)) [
    | inl missing ↦ absurd (ground arith)
    | inr (q, found) ↦ let it : m.at q ≡ s = ground arith in rw (found, get_session, it)
  ]

  pub stored-id : s.id ≡ id
  stored-id = elim (Option-cases (lookup id m.sessions)) [
    | inl missing ↦ absurd (ground arith)
    | inr (q, found) ↦ ground (arith, v.keyed id q)
  ]

  pub allocate-at : (allocate s m).1.at m.next ≡ s
  unfolding allocate
  allocate-at = ground arith

  pub allocate-SameElsewhere :
      ((allocate s m).1.asset_map ≡ m.asset_map)
      × ((allocate s m).1.variant_to_out ≡ m.variant_to_out)
  unfolding allocate
  allocate-SameElsewhere = (refl, refl)

  pub allocate-session_at : (j : Text) → session_at j (allocate s m).1 ≡ session_at j m
  unfolding allocate
  allocate-session_at j = elim (Option-cases (lookup j m.sessions)) [
    | inl missing ↦ ground arith
    | inr (q, found) ↦ ground (arith, v.allocated j q found)
  ]

  pub allocate-IsKnown : IsKnown m.next (allocate s m).1
  unfolding allocate
  allocate-IsKnown = elim (Option-cases (lookup id m.sessions)) [
    | inl missing ↦ absurd (ground arith)
    | inr (q, found) ↦ record {
      valid = allocate-IsValid s m v;
      allocated = omega arith;
      holder = q;
      held = ground (arith, found, stored-id);
    }
  ]
