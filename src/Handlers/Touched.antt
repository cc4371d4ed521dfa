-- ===== src/Handlers/Touched.antt =====
-- Writes to one session, one after another.
use ytmpt.Common.{ℕ, ◌≡◌, ◌∙◌, ap, false}
use ytmpt.Common.Text.{Text, text_eq}
use ytmpt.Models.{ConversionSession}
use ytmpt.Store.{MemoryStore, Ref, assign}
use ytmpt.Store.Views.{session_at, stamped}
use ytmpt.Handlers.{save}
use ytmpt.Handlers.Saved.{
  IsKnown, save-at, save-session_at, save-IsKnown, assign-at, assign-IsKnown, assign-session_at,
}

-- Only the session at the pointer has changed, and the pointer may still be saved.
pub record IsTouched (p : Ref) (m m' : MemoryStore) (s : ConversionSession) : Type 0 where
  pub at : m'.at p ≡ s
  pub id_kept : s.id ≡ (m.at p).id
  pub known : IsKnown p m'
  pub others : (j : Text) → text_eq (m.at p).id j ≡ false → session_at j m' ≡ session_at j m

module _ (p : Ref) (m : MemoryStore) (k : IsKnown p m) (s : ConversionSession) (held : m.at p ≡ s)
    (f : ConversionSession → ConversionSession) (kept : (f s).id ≡ s.id) where
  same_id : (f (m.at p)).id ≡ (m.at p).id
  same_id = rw held kept

  pub assign-IsTouched : IsTouched p m (assign p f m) (f s)
  assign-IsTouched = record {
    at = assign-at p f m same_id ∙ ap f held;
    id_kept = rw held kept;
    known = assign-IsKnown p f m same_id k;
    others = assign-session_at p f m same_id k;
  }

  pub save-IsTouched : (now : ℕ) → IsTouched p m (save now p f m) (stamped now (f s))
  save-IsTouched now = record {
    at = save-at now p f m k same_id ∙ ap (λ t. stamped now (f t)) held;
    id_kept = rw held kept;
    known = save-IsKnown now p f m k same_id;
    others = λ j other. save-session_at now p f m k same_id j ∙ rw other;
  }

-- One touch after another.
pub IsTouched-trans :
    {p : Ref} {m m' m'' : MemoryStore} {s t : ConversionSession}
    → IsTouched p m m' s
    → IsTouched p m' m'' t
    → IsTouched p m m'' t
IsTouched-trans {p} {m} {m'} {m''} {s} {t} a b =
    let same : (m'.at p).id ≡ (m.at p).id = ap (λ (x : ConversionSession). x.id) a.at ∙ a.id_kept in
    record {
      at = b.at;
      id_kept = b.id_kept ∙ same;
      known = b.known;
      others = λ j other. b.others j (rw same other) ∙ a.others j other;
    }
