-- ===== src/Store/Alike.antt =====
-- MemoryStore and RedisStore meet the contract of SessionStore.
use ytmpt.Common.{
  ℕ, ◌≡◌, ◌∙◌, inl, inr, sym, ap, Option, none, some, List, [], ◌∷◌, refl, subst, if◌then◌else◌,
  arith, Option-cases, Bool-cases, Bool, All,
}
use ytmpt.Common.Text.{Text, text_eq, text_eq_iff, text_eq_refl}
use ytmpt.Common.Dict.{lookup}
use ytmpt.Models.{ConversionSession}
use ytmpt.Store.{MemoryStore, Ref, Asset, allocate, get_session, delete_session}
use ytmpt.Handlers.{save}
use ytmpt.Handlers.Saved.{
  IsKnown, save-at, save-session_at, save-IsKnown, get_session-some, allocate-at,
  allocate-session_at, allocate-IsKnown,
}
use ytmpt.Store.Views.{session_at, IsValid, stamped, delete_session-IsValid, delete_session_lem}
use ytmpt.Store.Contract.{
  Write, written, IsWrite, SessionStore, IsSessionStore, Operation, IsChange, IsKeyed, run, get-run,
}
use ytmpt.Store.Redis
use ytmpt.Store.Redis.{Client, Found, found, not_found, error}
use ytmpt.Store.Redis.Laws.{IsLawful, redis-IsKeptApart}

-- GetSession and a read through the pointer; a session of the caller's own for UpdateSession.
abbrev pub get_copy : Text → MemoryStore → Option ConversionSession
get_copy id m = elim (get_session id m).0 [
  | none ↦ none
  | some p ↦ some ((get_session id m).1.at p)
]

-- Writes through a pointer, with an UpdateSession behind each: after the first, the store holds the
-- pointer itself, so that it shows the later writes at once.
abbrev pub save_all : ℕ → Ref → List Write → MemoryStore → MemoryStore
save_all now p [] m = m
save_all now p (f ∷ fs) m = save_all now p fs (save now p f m)

-- The same for the session that GetSession hands out.
abbrev pub put_copy : ℕ → Text → List Write → MemoryStore → MemoryStore
put_copy now id fs m =
    let (handle, m') = get_session id m in elim handle [ none ↦ m' | some p ↦ save_all now p fs m' ]

abbrev pub memory_sessions : SessionStore
memory_sessions = record {
  State = MemoryStore;
  get = get_copy;
  update = put_copy;
  delete = delete_session;
}

abbrev pub found_only : Found ConversionSession → Option ConversionSession
found_only (found s) = some s
found_only not_found = none
found_only error = none

module _ (c : Client) where
  abbrev pub update_all : ℕ → List Write → ConversionSession → c.State → c.State
  update_all now [] s db = db
  update_all now (f ∷ fs) s db =
      let (ok, s', db') = Redis.update_session c now (f s) db in update_all now fs s' db'

  abbrev pub put_found : ℕ → Text → List Write → c.State → c.State
  put_found now id fs db = elim (found_only (Redis.get_session c id db)) [
    | none ↦ db
    | some s ↦ update_all now fs s db
  ]

abbrev pub redis_sessions : Client → SessionStore
redis_sessions c = record {
  State = c.State;
  get = λ id db. found_only (Redis.get_session c id db);
  update = put_found c;
  delete = λ id db. (Redis.delete_session c id db).1;
}

get_copy-session_at : (id : Text) (m : MemoryStore) → get_copy id m ≡ session_at id m
unfolding get_session allocate
get_copy-session_at id m = elim (Option-cases (lookup id m.sessions)) [
  | inl missing ↦ ground (arith, missing)
  | inr (p, there) ↦ ground (arith, there)
]

module _ (Storable : ConversionSession → Type 0) (now : ℕ) (p : Ref) where
  save_all-IsKnown :
      (fs : List Write) (m : MemoryStore)
      → All (IsWrite Storable now) fs
      → IsKnown p m
      → IsKnown p (save_all now p fs m)
  save_all-IsKnown [] m w k = k
  save_all-IsKnown (f ∷ fs) m (w, ws) k =
      save_all-IsKnown fs (save now p f m) ws (save-IsKnown now p f m k (w (m.at p)).0)

  -- The pointer and the store hold what was written.
  session_at-save_all :
      (fs : List Write) (m : MemoryStore) (s : ConversionSession) (j : Text)
      → All (IsWrite Storable now) fs
      → IsKnown p m
      → m.at p ≡ s
      → session_at s.id m ≡ some s
      → session_at j (save_all now p fs m)
        ≡ (if text_eq s.id j then some (written now fs s) else session_at j m)
  unfolding written
  session_at-save_all [] m s j w k held there = ground (arith, text_eq_iff s.id j)
  session_at-save_all (f ∷ fs) m s j (w, ws) k held there =
      let id = (w (m.at p)).0 in
      let k' = save-IsKnown now p f m k id in
      let at' = save-at now p f m k id ∙ ap (λ t. stamped now (f t)) held in
      let same : (stamped now (f s)).id ≡ s.id = (w s).0 in
      let shown = save-session_at now p f m k id in
      let there' : session_at s.id (save now p f m) ≡ some (stamped now (f s)) =
        shown s.id ∙ rw (held, text_eq_refl s.id) refl in
      session_at-save_all fs (save now p f m) (stamped now (f s)) j ws k' at'
        (ap (λ i. session_at i (save now p f m)) same ∙ there')
      ∙ rw (same, shown j, held) (ground arith)

module _ (Storable : ConversionSession → Type 0) (now : ℕ) (id : Text) (fs : List Write)
    (m : MemoryStore) where
  get_session-none : session_at id m ≡ none → get_session id m ≡ (none, m)
  unfolding get_session
  get_session-none e = elim (Option-cases (lookup id m.sessions)) [
    | inl missing ↦ rw (get_session, missing) refl
    | inr (q, there) ↦ absurd (ground arith)
  ]

  abbrev put_through : Option Ref × MemoryStore → MemoryStore
  put_through r = elim r.0 [ none ↦ r.1 | some p ↦ save_all now p fs r.1 ]

  put_copy-none : session_at id m ≡ none → put_copy now id fs m ≡ m
  put_copy-none e = ap put_through (get_session-none e)

  put_copy-some :
      (s : ConversionSession)
      → IsValid m
      → session_at id m ≡ some s
      → put_copy now id fs m ≡ save_all now m.next fs (allocate s m).1
  put_copy-some s v e = ap put_through (get_session-some id m s v e)

  put_copy-IsValid : All (IsWrite Storable now) fs → IsValid m → IsValid (put_copy now id fs m)
  put_copy-IsValid ws v = elim (Option-cases (session_at id m)) [
    | inl missing ↦ rw (put_copy-none missing) v
    | inr (s, there) ↦ rw (put_copy-some s v there) (
        (save_all-IsKnown Storable now m.next fs (allocate s m).1 ws
          (allocate-IsKnown id m s v there)).valid)
  ]

  session_at-put_copy :
      (s : ConversionSession) (j : Text)
      → IsValid m
      → All (IsWrite Storable now) fs
      → session_at id m ≡ some s
      → s.id ≡ id
      → session_at j (put_copy now id fs m)
        ≡ (if text_eq id j then some (written now fs s) else session_at j m)
  session_at-put_copy s j v ws e own =
      let stays = allocate-session_at id m s v e in
      ap (session_at j) (put_copy-some s v e)
      ∙ session_at-save_all Storable now m.next fs (allocate s m).1 s j ws
          (allocate-IsKnown id m s v e) (allocate-at id m s v e)
          (stays s.id ∙ subst (λ i. session_at i m ≡ some s) (sym own) e)
      ∙ ap
          (λ (i : Text).
            if text_eq i j then some (written now fs s) else session_at j (allocate s m).1)
          own
      ∙ ap (λ (u : Option ConversionSession). if text_eq id j then some (written now fs s) else u)
          (stays j)

-- MemoryStore meets the contract.
memory-IsSessionStore :
    (Storable : ConversionSession → Type 0) → IsSessionStore Storable memory_sessions IsValid
memory-IsSessionStore Storable = record {
  update-Valid = put_copy-IsValid Storable;
  delete-Valid = delete_session-IsValid;
  get-update = λ now id fs m s j v ws there own h.
      get_copy-session_at j (put_copy now id fs m)
      ∙ session_at-put_copy Storable now id fs m s j v ws (sym (get_copy-session_at id m) ∙ there)
          own
      ∙ ap (λ (u : Option ConversionSession). if text_eq id j then some (written now fs s) else u)
          (sym (get_copy-session_at j m));
  get-missing = λ now id fs m j missing.
      get_copy-session_at j (put_copy now id fs m)
      ∙ ap (session_at j)
          (put_copy-none Storable now id fs m (sym (get_copy-session_at id m) ∙ missing))
      ∙ sym (get_copy-session_at j m);
  get-delete = λ id m j v.
      get_copy-session_at j (delete_session id m)
      ∙ (delete_session_lem id j [] m).0
      ∙ ap (λ (u : Option ConversionSession). if text_eq id j then none else u)
          (sym (get_copy-session_at j m));
}

-- A valid state of the server: there is nothing to ask.
abbrev pub Any : (c : Client) → c.State → Type 0
Any c db = Unit

-- UpdateSession writes the time into the session of its caller.
update_session-session :
    (c : Client) (now : ℕ) (s : ConversionSession) (db : c.State)
    → (Redis.update_session c now s db).1 ≡ stamped now s
unfolding Redis.update_session
update_session-session c now s db = elim (Option-cases (c.encode (stamped now s))) [
  | inl failed ↦ rw (failed, Redis.update_session) refl
  | inr (b, written) ↦ rw (written, Redis.update_session) refl
]

module _ (Storable : ConversionSession → Type 0) (Kept : Asset → Type 0) (c : Client)
    (L : IsLawful Storable Kept c) where
  get-update_all :
      (now : ℕ) (fs : List Write) (s : ConversionSession) (db : c.State) (j : Text)
      → All (IsWrite Storable now) fs
      → Storable s
      → found_only (Redis.get_session c s.id db) ≡ some s
      → found_only (Redis.get_session c j (update_all c now fs s db)) ≡ (
          if text_eq s.id j then some (written now fs s) else found_only (Redis.get_session c j db))
  unfolding written
  get-update_all now [] s db j ws h there = ground (arith, text_eq_iff s.id j)
  get-update_all now (f ∷ fs) s db j (w, ws) h there =
      let s' = stamped now (f s) in
      let db' = (Redis.update_session c now (f s) db).2 in
      let law = λ (i : Text).
        ap found_only ((redis-IsKeptApart Storable Kept c L).session now (f s) i db ((w s).1 h)) in
      let same : s'.id ≡ s.id = (w s).0 in
      let there' : found_only (Redis.get_session c s'.id db') ≡ some s' =
        law s'.id ∙ rw (text_eq_refl s'.id) refl in
      let begins : update_all c now (f ∷ fs) s db ≡ update_all c now fs s' db' =
        ap (λ t. update_all c now fs t db') (update_session-session c now (f s) db) in
      ap (λ d. found_only (Redis.get_session c j d)) begins
      ∙ get-update_all now fs s' db' j ws ((w s).1 h) there'
      ∙ ap
          (λ (i : Text).
            if text_eq i j
            then some (written now fs s')
            else found_only (Redis.get_session c j db'))
          same
      ∙ (elim (Bool-cases (text_eq s.id j)) [
        | inl here ↦ rw here refl
        | inr other ↦ rw other (
            law j
            ∙ ap
                (λ (i : Text).
                  found_only (if text_eq i j then found s' else Redis.get_session c j db))
                same
            ∙ ap (λ (b : Bool). found_only (if b then found s' else Redis.get_session c j db))
                other)
      ])

  abbrev put_from :
      ℕ → List Write → c.State → Text → Option ConversionSession → Option ConversionSession
  put_from now fs db j r =
      found_only (Redis.get_session c j (elim r [ none ↦ db | some s ↦ update_all c now fs s db ]))

  redis-IsSessionStore : IsSessionStore Storable (redis_sessions c) (Any c)
  redis-IsSessionStore = record {
    update-Valid = λ now id fs db ws v. tt;
    delete-Valid = λ id db v. tt;
    get-update = λ now id fs db s j v ws there own h.
        ap (put_from now fs db j) there
        ∙ (subst
            (λ i.
              found_only (Redis.get_session c i db) ≡ some s
              → found_only (Redis.get_session c j (update_all c now fs s db)) ≡ (
                  if text_eq i j
                  then some (written now fs s)
                  else found_only (Redis.get_session c j db)))
            own (get-update_all now fs s db j ws h) there);
    get-missing = λ now id fs db j missing. ap (put_from now fs db j) missing;
    get-delete = λ id db j v. ground (arith, (redis-IsKeptApart Storable Kept c L).deleted id j db);
  }

-- A memory store and a lawful Redis that hold the same sessions, each under its identifier and such
-- that it can be encoded, go on returning the same sessions from GetSession through any deletions
-- and any updates of sessions, if each update is through the pointer of a GetSession just before it
-- (or of an update through the same pointer), keeps the identifier, and makes of a session that can
-- be encoded another such. CreateSession, and an UpdateSession of a session that is not stored, are
-- not among these operations.
pub memory-redis :
    (Storable : ConversionSession → Type 0) (Kept : Asset → Type 0) (c : Client)
    → IsLawful Storable Kept c
    → (ops : List Operation) (m : MemoryStore) (db : c.State) → IsValid m
    → IsKeyed Storable (λ id. get_copy id m)
    → All (IsChange Storable) ops
    → ((j : Text) → get_copy j m ≡ (redis_sessions c).get j db)
    → (j : Text)
    → get_copy j (run memory_sessions ops m)
      ≡ (redis_sessions c).get j (run (redis_sessions c) ops db)
memory-redis Storable Kept c L ops m db v keyed changes same =
    get-run Storable memory_sessions IsValid (memory-IsSessionStore Storable) (redis_sessions c)
      (Any c) (redis-IsSessionStore Storable Kept c L) ops m db v tt keyed changes same
