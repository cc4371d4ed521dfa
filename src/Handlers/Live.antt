-- ===== src/Handlers/Live.antt =====
-- What every handler keeps: the store and the queues stay well formed, and so do the sessions that
-- other goroutines hold pointers to.
use ytmpt.Common.{ℕ, ◌<◌, ◌≡◌, refl, subst, ◌⊎◌, inl, inr, none, some, arith, Option-cases}
use ytmpt.Handlers.Frame.{
  Frame, Keeps, whole, whole-Keeps, assign-Keeps, allocate-Keeps, update_session-Keeps,
  create_session-Keeps,
}
use ytmpt.Common.Text.{Text}
use ytmpt.Common.Dict.{lookup}
use ytmpt.Models.{ConversionSession}
use ytmpt.Store.{
  MemoryStore, Ref, AssetState, assign, update_session, get_session, allocate, set_asset,
  set_variant, set_url_map, create_session,
}
use ytmpt.Store.Views.{
  IsValid, assign-IsValid, allocate-IsValid, update_session-IsValid, create_session-IsValid,
}
use ytmpt.Queue.Enqueue
use ytmpt.Handlers.{World, save}

-- The store is well formed and keeps the frame, and `p` points to an object that may be written,
-- of a session that is not spared.
pub record IsLive (F : Frame) (p : Ref) (m : MemoryStore) : Type 0 where
  pub valid : IsValid m
  pub kept : Keeps F m
  pub allocated : p < m.next
  pub free : ¬ F.fixed p
  pub far : ¬ F.spared (m.at p).id

pub record IsSound (F : Frame) (w : World) : Type 0 where
  pub store : IsValid w.store
  pub kept : Keeps F w.store
  pub dl_queue : Enqueue.IsValid w.dl_queue
  pub cv_queue : Enqueue.IsValid w.cv_queue

-- A change that keeps the identifier.
abbrev pub KeepsId : (ConversionSession → ConversionSession) → Type 0
KeepsId f = (s : ConversionSession) → (f s).id ≡ s.id

update_session-next :
    (now : ℕ) (p : Ref) (m : MemoryStore) → (update_session now p m).1.next ≡ m.next
unfolding update_session assign
update_session-next now p m = elim (Option-cases (lookup (m.at p).id m.sessions)) [
  | inl missing ↦ rw (missing, update_session)
  | inr (q, found) ↦ rw (found, update_session)
]

create_session-next :
    (now : ℕ) (p : Ref) (m : MemoryStore) → (create_session now p m).1.next ≡ m.next
unfolding create_session assign
create_session-next now p m = elim (Option-cases (lookup (m.at p).id m.sessions)) [
  | inl missing ↦ rw (missing, create_session)
  | inr (q, found) ↦ rw (found, create_session)
]

assign-id :
    (p : Ref) (f : ConversionSession → ConversionSession) (m : MemoryStore)
    → KeepsId f
    → ((assign p f m).at p).id ≡ (m.at p).id
unfolding assign
assign-id p f m same = ground (arith, same (m.at p))

update_session-id :
    (now : ℕ) (p : Ref) (m : MemoryStore) → ((update_session now p m).1.at p).id ≡ (m.at p).id
unfolding update_session
update_session-id now p m = elim (Option-cases (lookup (m.at p).id m.sessions)) [
  | inl missing ↦ rw (missing, update_session)
  | inr (q, found) ↦ rw (found, update_session) (assign-id p _ m (λ s. refl))
]

create_session-id :
    (now : ℕ) (p : Ref) (m : MemoryStore) → ((create_session now p m).1.at p).id ≡ (m.at p).id
unfolding create_session
create_session-id now p m = elim (Option-cases (lookup (m.at p).id m.sessions)) [
  | inl missing ↦ rw (missing, create_session) (assign-id p _ m (λ s. refl))
  | inr (q, found) ↦ rw (found, create_session)
]

-- An identifier that is the same is not spared either.
still_far : (F : Frame) {id id' : Text} → id' ≡ id → ¬ F.spared id → ¬ F.spared id'
still_far F e far h = far (subst F.spared e h)

module _ {F : Frame} (now : ℕ) (p : Ref) (m : MemoryStore) (live : IsLive F p m) where
  pub assign-IsLive :
      (f : ConversionSession → ConversionSession) → KeepsId f → IsLive F p (assign p f m)
  unfolding assign
  assign-IsLive f same = record {
    valid = assign-IsValid p f m (same (m.at p)) live.valid;
    kept = assign-Keeps p f m live.valid live.free live.far live.kept;
    allocated = live.allocated;
    free = live.free;
    far = still_far F (assign-id p f m same) live.far;
  }

  pub update_session-IsLive : IsLive F p (update_session now p m).1
  update_session-IsLive = record {
    valid = update_session-IsValid now p m live.allocated live.valid;
    kept = update_session-Keeps now p m live.valid live.free live.far live.kept;
    allocated = omega (arith, live.allocated, update_session-next now p m);
    free = live.free;
    far = still_far F (update_session-id now p m) live.far;
  }

  pub create_session-IsLive : IsLive F p (create_session now p m).1
  create_session-IsLive = record {
    valid = create_session-IsValid now p m live.allocated live.valid;
    kept = create_session-Keeps now p m live.valid live.free live.far live.kept;
    allocated = omega (arith, live.allocated, create_session-next now p m);
    free = live.free;
    far = still_far F (create_session-id now p m) live.far;
  }

  pub set_asset-IsLive :
      (hash path : Text) (state : AssetState) → IsLive F p (set_asset hash path state m)
  unfolding set_asset
  set_asset-IsLive hash path state = record {
    valid = record { allocated = live.valid.allocated; keyed = live.valid.keyed };
    kept = record { next = live.kept.next; at = live.kept.at; sessions = live.kept.sessions };
    allocated = live.allocated;
    free = live.free;
    far = live.far;
  }

  pub set_variant-IsLive : (hash out : Text) → IsLive F p (set_variant hash out m)
  unfolding set_variant
  set_variant-IsLive hash out = record {
    valid = record { allocated = live.valid.allocated; keyed = live.valid.keyed };
    kept = record { next = live.kept.next; at = live.kept.at; sessions = live.kept.sessions };
    allocated = live.allocated;
    free = live.free;
    far = live.far;
  }

  pub set_url_map-IsLive : (url id : Text) → IsLive F p (set_url_map url id m)
  unfolding set_url_map
  set_url_map-IsLive url id = record {
    valid = record { allocated = live.valid.allocated; keyed = live.valid.keyed };
    kept = record { next = live.kept.next; at = live.kept.at; sessions = live.kept.sessions };
    allocated = live.allocated;
    free = live.free;
    far = live.far;
  }

pub save-IsLive :
    {F : Frame} (now : ℕ) (p : Ref) (f : ConversionSession → ConversionSession) (m : MemoryStore)
    → KeepsId f
    → IsLive F p m
    → IsLive F p (save now p f m)
unfolding save
save-IsLive now p f m same live =
    update_session-IsLive now p (assign p f m) (assign-IsLive now p m live f same)

pub allocate-IsLive :
    {F : Frame} (s : ConversionSession) (m : MemoryStore)
    → IsValid m
    → Keeps F m
    → ¬ F.spared s.id
    → IsLive F m.next (allocate s m).1
unfolding allocate
allocate-IsLive {F} s m v k far =
    let kept = allocate-Keeps s m v k in
    record {
      valid = record {
        allocated = (allocate-IsValid s m v).allocated;
        keyed = (allocate-IsValid s m v).keyed;
      };
      kept = record { next = kept.next; at = kept.at; sessions = kept.sessions };
      allocated = omega arith;
      free = λ h. omega (arith, F.below m.next h, k.next);
      far = still_far F (ground arith) far;
    }

-- GetSession finds nothing and changes nothing, or hands out a live pointer, if the session is not
-- spared.
pub get_session-cases :
    {F : Frame} (id : Text) (m : MemoryStore)
    → IsValid m
    → Keeps F m
    → ¬ F.spared id
    → (get_session id m ≡ (none, m))
      ⊎ ((p : Ref) × (m' : MemoryStore) × (get_session id m ≡ (some p, m')) × IsLive F p m')
unfolding get_session allocate
get_session-cases {F} id m v k far = elim (Option-cases (lookup id m.sessions)) [
  | inl missing ↦ inl (rw (missing, get_session))
  | inr (q, found) ↦
      let it = allocate-IsLive (m.at q) m v k (still_far F (v.keyed id q found) far) in
      inr (m.next, (allocate (m.at q) m).1, rw (found, get_session), it)
]

-- What is sound keeps all of itself, and it keeps the sessions apart from one.
pub rebase : {F : Frame} (w : World) → IsSound F w → IsSound (whole w.store) w
rebase w v = record {
  store = v.store;
  kept = whole-Keeps w.store;
  dl_queue = v.dl_queue;
  cv_queue = v.cv_queue;
}

-- A new store behind the same queues.
pub IsSound-store :
    {F : Frame} (p : Ref) (w : World) (m : MemoryStore)
    → IsLive F p m
    → IsSound F w
    → IsSound F (record w { store = m })
IsSound-store p w m live v = record {
  store = live.valid;
  kept = live.kept;
  dl_queue = v.dl_queue;
  cv_queue = v.cv_queue;
}
