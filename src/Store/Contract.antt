-- ===== src/Store/Contract.antt =====
-- What a client of SessionStore may rely on, and that two stores which meet it cannot be told apart.
use ytmpt.Common.{
  Bool-cases, refl, ℕ, ◌≡◌, ◌∙◌, inl, inr, sym, ap, subst, Option, none, some, List, [], ◌∷◌,
  if◌then◌else◌, arith, Option-cases, All,
}
use mathlib.Core.Path.{fun_ext}
use ytmpt.Common.Text.{Text, text_eq, text_eq_iff}
use ytmpt.Models.{ConversionSession}
use ytmpt.Store.Views.{stamped}

abbrev pub Write : Type 0
Write = ConversionSession → ConversionSession

-- The session after some writes through its pointer, with an UpdateSession behind each of them.
unfoldable pub written : ℕ → List Write → ConversionSession → ConversionSession
written now [] s = s
written now (f ∷ fs) s = written now fs (stamped now (f s))

-- A write keeps the identifier, and of a session that can be encoded it makes another such.
abbrev pub IsWrite : (ConversionSession → Type 0) → ℕ → Write → Type 0
IsWrite Storable now f =
    (s : ConversionSession) → ((f s).id ≡ s.id) × (Storable s → Storable (stamped now (f s)))

written-id :
    (Storable : ConversionSession → Type 0) (now : ℕ) (fs : List Write) (s : ConversionSession)
    → All (IsWrite Storable now) fs
    → (written now fs s).id ≡ s.id
unfolding written
written-id Storable now [] s w = refl
written-id Storable now (f ∷ fs) s (w, ws) =
    written-id Storable now fs (stamped now (f s)) ws ∙ (w s).0

written-IsStorable :
    (Storable : ConversionSession → Type 0) (now : ℕ) (fs : List Write) (s : ConversionSession)
    → All (IsWrite Storable now) fs
    → Storable s
    → Storable (written now fs s)
unfolding written
written-IsStorable Storable now [] s w h = h
written-IsStorable Storable now (f ∷ fs) s (w, ws) h =
    written-IsStorable Storable now fs (stamped now (f s)) ws ((w s).1 h)

-- The operations on sessions. `get` has the session that GetSession returns, if it returns one;
-- `update` calls GetSession, and UpdateSession after each of the writes through its pointer.
pub record SessionStore : Type 1 where
  pub State : Type 0
  pub get : Text → State → Option ConversionSession
  pub update : ℕ → Text → List Write → State → State
  pub delete : Text → State → State

-- The contract.
pub record IsSessionStore (Storable : ConversionSession → Type 0) (S : SessionStore)
    (Valid : S.State → Type 0) : Type 0 where
  pub update-Valid :
      (now : ℕ) (id : Text) (fs : List Write) (m : S.State)
      → All (IsWrite Storable now) fs
      → Valid m
      → Valid (S.update now id fs m)
  pub delete-Valid : (id : Text) (m : S.State) → Valid m → Valid (S.delete id m)
  pub get-update :
      (now : ℕ) (id : Text) (fs : List Write) (m : S.State) (s : ConversionSession) (j : Text)
      → Valid m
      → All (IsWrite Storable now) fs
      → S.get id m ≡ some s
      → s.id ≡ id
      → Storable s
      → S.get j (S.update now id fs m)
        ≡ (if text_eq id j then some (written now fs s) else S.get j m)
  pub get-missing :
      (now : ℕ) (id : Text) (fs : List Write) (m : S.State) (j : Text)
      → S.get id m ≡ none
      → S.get j (S.update now id fs m) ≡ S.get j m
  pub get-delete :
      (id : Text) (m : S.State) (j : Text)
      → Valid m
      → S.get j (S.delete id m) ≡ (if text_eq id j then none else S.get j m)

-- What a handler does with a store: it writes to a session that it got, or deletes one.
pub data Operation : Type 0 where
  change : ℕ → Text → List Write → Operation
  remove : Text → Operation

abbrev pub IsChange : (ConversionSession → Type 0) → Operation → Type 0
IsChange Storable (change now id fs) = All (IsWrite Storable now) fs
IsChange Storable (remove id) = Unit

-- Sessions stand under their own identifiers and can be encoded.
abbrev pub IsKeyed : (ConversionSession → Type 0) → (Text → Option ConversionSession) → Type 0
IsKeyed Storable view =
    (id : Text) (s : ConversionSession) → view id ≡ some s → (s.id ≡ id) × Storable s

module _ (S : SessionStore) where
  abbrev pub perform : Operation → S.State → S.State
  perform (change now id fs) m = S.update now id fs m
  perform (remove id) m = S.delete id m

  pub run : List Operation → S.State → S.State
  run [] m = m
  run (op ∷ ops) m = run ops (perform op m)

-- The view after a change of a session, as a function of the view before it.
abbrev pub view_after :
    Operation → (Text → Option ConversionSession) → Text → Option ConversionSession
view_after (change now id fs) view j = elim (view id) [
  | none ↦ view j
  | some s ↦ if text_eq id j then some (written now fs s) else view j
]
view_after (remove id) view j = if text_eq id j then none else view j

module _ (Storable : ConversionSession → Type 0) (S : SessionStore) (Valid : S.State → Type 0)
    (L : IsSessionStore Storable S Valid) where
  perform-Valid :
      (op : Operation) (m : S.State) → IsChange Storable op → Valid m → Valid (perform S op m)
  perform-Valid (change now id fs) m writes v = L.update-Valid now id fs m writes v
  perform-Valid (remove id) m writes v = L.delete-Valid id m v

  get-perform :
      (op : Operation) (m : S.State) (j : Text)
      → Valid m
      → IsKeyed Storable (λ i. S.get i m)
      → IsChange Storable op
      → S.get j (perform S op m) ≡ view_after op (λ i. S.get i m) j
  get-perform (remove id) m j v keyed writes = L.get-delete id m j v
  get-perform (change now id fs) m j v keyed writes = elim (Option-cases (S.get id m)) [
    | inl missing ↦ L.get-missing now id fs m j missing ∙ rw (missing, view_after) refl
    | inr (s, there) ↦
        L.get-update now id fs m s j v writes there (keyed id s there).0 (keyed id s there).1
        ∙ rw (there, view_after) refl
  ]

-- A change keeps sessions under their own identifiers.
view_after-IsKeyed :
    (Storable : ConversionSession → Type 0) (op : Operation)
    (view : Text → Option ConversionSession)
    → IsKeyed Storable view
    → IsChange Storable op
    → IsKeyed Storable (view_after op view)
view_after-IsKeyed Storable (remove id) view keyed writes j t e = elim (Bool-cases (text_eq id j)) [
  | inl gone ↦ absurd (ground (arith, rw (gone, view_after) at e))
  | inr other ↦ keyed j t (rw (other, view_after) at e)
]
view_after-IsKeyed Storable (change now id fs) view keyed writes j t e =
    elim (Option-cases (view id)) [
      | inl missing ↦ keyed j t (rw (missing, view_after) at e)
      | inr (s, there) ↦ elim (Bool-cases (text_eq id j)) [
        | inl here ↦
            let same = written-id Storable now fs s writes in
            let own = (keyed id s there).0 in
            let it : written now fs s ≡ t = ground (arith, rw (there, here, view_after) at e) in
            let key : id ≡ j = (text_eq_iff id j).0 here in
            subst (λ u. (u.id ≡ j) × Storable u) it
              (same ∙ own ∙ key, written-IsStorable Storable now fs s writes (keyed id s there).1)
        | inr other ↦ keyed j t (rw (there, other, view_after) at e)
      ]
    ]

-- A view depends on the view before it alone.
view_after-ext :
    (op : Operation) (view view' : Text → Option ConversionSession)
    → ((j : Text) → view j ≡ view' j)
    → (j : Text) → view_after op view j ≡ view_after op view' j
view_after-ext op view view' same j = ap (λ v. view_after op v j) (fun_ext same)

module _ (Storable : ConversionSession → Type 0) (S : SessionStore) (Valid : S.State → Type 0)
    (L : IsSessionStore Storable S Valid) (S' : SessionStore) (Valid' : S'.State → Type 0)
    (L' : IsSessionStore Storable S' Valid') where
  -- Two stores that meet the contract and answer alike answer alike after any operations, if the
  -- sessions stand under their identifiers and can be encoded, and the writes keep this so.
  pub get-run :
      (ops : List Operation) (m : S.State) (m' : S'.State)
      → Valid m
      → Valid' m'
      → IsKeyed Storable (λ i. S.get i m)
      → All (IsChange Storable) ops
      → ((j : Text) → S.get j m ≡ S'.get j m')
      → (j : Text) → S.get j (run S ops m) ≡ S'.get j (run S' ops m')
  unfolding run
  get-run [] m m' v v' keyed keeps same j = same j
  get-run (op ∷ ops) m m' v v' keyed (keep, keeps) same j =
      let view = λ (i : Text). S.get i m in
      let view' = λ (i : Text). S'.get i m' in
      let alike : view ≡ view' = fun_ext same in
      let step = λ (i : Text). get-perform Storable S Valid L op m i v keyed keep in
      let step' = λ (i : Text).
        get-perform Storable S' Valid' L' op m' i v' (subst (IsKeyed Storable) alike keyed) keep in
      get-run ops (perform S op m) (perform S' op m') (perform-Valid Storable S Valid L op m keep v)
        (perform-Valid Storable S' Valid' L' op m' keep v')
        (subst (IsKeyed Storable) (sym (fun_ext step))
          (view_after-IsKeyed Storable op view keyed keep))
        keeps (λ i. step i ∙ view_after-ext op view view' same i ∙ sym (step' i)) j
